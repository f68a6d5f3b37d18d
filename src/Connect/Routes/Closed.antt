-- ===== src/Connect/Routes/Closed.antt =====
-- The routes of src/http/connect/mod.rs against callers from other machines.
use linggen_memory.Prelude.{
  String, ◌≡◌, ◌∙◌, refl, sym, subst, Bool, Bool-cases, true, false, Option, none, some, List, [],
  ◌∷◌, All, inl, inr,
}
use linggen_memory.Local.{require_local}
use linggen_memory.Connect
use linggen_memory.Connect.Devices.{is_denied}
use linggen_memory.Connect.Routes.{
  Call, World, Daemon, Answer, opened, state, error, handle, locally, request_open, open_as,
  clean_name, valid_device_id, lan_gate, gate_on, serve,
}
use linggen_memory.Gate.{Admit, paired, refused, from_here, open_to_all}

-- What any machine may be told: that its own request stands, what became of it, or an error.
abbrev pub is_public : Answer → Bool
is_public (opened id n) = true
is_public (state reply) = true
is_public (error e) = true
is_public _ = false

abbrev IsClosed : Daemon → Answer × Daemon → Type 0
IsClosed d (answer, after) =
    (after.files ≡ d.files) × (after.port ≡ d.port) × (is_public answer ≡ true)

module _ (w : World) where
  locally-far :
      (d : Daemon) (result : Answer × Daemon)
      → require_local w.peer w.headers d.port ≡ false
      → IsClosed d (locally w d result)
  locally-far d result far = rw far (refl, refl, refl)

  open_as-far :
      (name : Option String) (device_id : String) (d : Daemon)
      → IsClosed d (open_as w name device_id d)
  open_as-far none device_id d = (refl, refl, refl)
  open_as-far (some name) device_id d = elim (Bool-cases (valid_device_id device_id)) [
    | inl e ↦ elim (Bool-cases (is_denied d.files device_id)) [
      | inl e' ↦ rw e (rw e' (refl, refl, refl))
      | inr e' ↦ rw e (rw e' (refl, refl, refl))
    ]
    | inr e ↦ rw e (refl, refl, refl)
  ]

  request_open-far :
      (name device_id : String) (d : Daemon) → IsClosed d (request_open w name device_id d)
  unfolding request_open
  request_open-far name device_id d = elim (Bool-cases (Connect.admit w.peer w.now d.broker).0) [
    | inl e ↦ rw e (open_as-far (clean_name name) device_id _)
    | inr e ↦ rw e (refl, refl, refl)
  ]

  handle-far :
      (c : Call) (d : Daemon)
      → require_local w.peer w.headers d.port ≡ false
      → IsClosed d (handle w c d)
  unfolding handle
  handle-far (Call.request name device_id) d far = request_open-far name device_id d
  handle-far (Call.status id) d far = (refl, refl, refl)
  handle-far Call.pending d far = locally-far d _ far
  handle-far (Call.allow id) d far = locally-far d _ far
  handle-far (Call.deny id) d far = locally-far d _ far
  handle-far Call.list_devices d far = locally-far d _ far
  handle-far (Call.revoke id) d far = locally-far d _ far
  handle-far Call.list_denied d far = locally-far d _ far
  handle-far (Call.undeny device_id) d far = locally-far d _ far

  gate_on-far :
      (a : Admit) (c : Call) (d : Daemon)
      → require_local w.peer w.headers d.port ≡ false
      → IsClosed d (gate_on a w c d)
  gate_on-far refused c d far = (refl, refl, refl)
  gate_on-far (paired id) c d far = handle-far c _ far
  gate_on-far from_here c d far = handle-far c d far
  gate_on-far open_to_all c d far = handle-far c d far

  lan_gate-far :
      (c : Call) (d : Daemon)
      → require_local w.peer w.headers d.port ≡ false
      → IsClosed d (lan_gate w c d)
  unfolding lan_gate
  lan_gate-far c d far = gate_on-far _ c d far

-- However many calls come that the local check refuses, with whatever tokens, the three files stay
-- as they were, and no answer says more than how a request stands, or an error.
pub serve-files :
    (calls : List (World × Call)) (d : Daemon)
    → All (λ (c : World × Call). require_local c.0.peer c.0.headers d.port ≡ false) calls
    → ((serve calls d).1.files ≡ d.files) × All (λ a. is_public a ≡ true) (serve calls d).0
unfolding serve
serve-files [] d far = (refl, tt)
serve-files ((w, c) ∷ calls) d (far, more) =
    let (files, port, said) = lan_gate-far w c d far in
    let (files', said') = serve-files calls (lan_gate w c d).1 (
      subst (λ p. All (λ (c : World × Call). require_local c.0.peer c.0.headers p ≡ false) calls)
        (sym port) more) in
    (files' ∙ files, (said, said'))
