-- ===== src/Connect/Routes/Pairing.antt =====
-- From a request of another machine (src/http/connect/mod.rs) to its first call past the gate
-- (src/http/gate.rs).
use linggen_memory.Prelude.{
  ℕ, ◌-◌, ◌<◌, String, eq_iff, ◌≡◌, ◌∙◌, refl, sym, subst, ap, Bool-cases, true, false, Option,
  none, some, arith, inl, inr, any, lookup, insert, lookup-insert, ltb,
}
use linggen_memory.Text.{is_empty}
use linggen_memory.Local.{IpAddr, is_loopback, require_local}
use linggen_memory.Connect
use linggen_memory.Connect.{Pending, Broker, ttl, is_live, is_the, take_on, status_on}
use linggen_memory.Connect.Devices.{Files, is_denied, allow_device}
use linggen_memory.Connect.Devices.Kept.{rows_of, allow_device_lem}
use linggen_memory.Connect.Routes.{
  Call, World, Daemon, opened, allowed, state, handle, request_open, open_as, clean_name,
  valid_device_id,
}
use linggen_memory.Gate
use linggen_memory.Gate.{paired, has_secret, is_open_path}
use linggen_memory.Gate.Decisions.{allow_device-admit}

-- The request stands, and nothing else has changed.
abbrev Stands : World → Daemon → Daemon → Type 0
Stands w d after =
    (p : Pending) × (after.broker.pending ≡ some p)
    × (p.id ≡ w.new_id)
    × (p.at ≡ w.now)
    × (after.files ≡ d.files)
    × (after.port ≡ d.port)

open_as_lem :
    (w : World) (name : Option String) (device_id : String) (d : Daemon) (e : ℕ)
    → (open_as w name device_id d).0 ≡ opened w.new_id e
    → Stands w d (open_as w name device_id d).1
unfolding Connect.open_request
open_as_lem w none device_id d e said = absurd (cc)
open_as_lem w (some name) device_id d e said = elim (Bool-cases (valid_device_id device_id)) [
  | inl v ↦ elim (Bool-cases (is_denied d.files device_id)) [
    | inl out ↦ absurd (ground (arith, said, v, out))
    | inr fine ↦ rw v (rw fine (_, refl, refl, refl, refl, refl))
  ]
  | inr bad ↦ absurd (ground (arith, said, bad))
]

request_open_lem :
    (w : World) (name device_id : String) (d : Daemon) (e : ℕ)
    → (request_open w name device_id d).0 ≡ opened w.new_id e
    → Stands w d (request_open w name device_id d).1
unfolding request_open
request_open_lem w name device_id d e = elim (Bool-cases (Connect.admit w.peer w.now d.broker).0) [
  | inl within ↦ rw within (λ said. open_as_lem w (clean_name name) device_id _ e said)
  | inr over ↦ rw over (λ said. absurd (cc))
]

-- The request is found, when it is asked for in time.
take_lem :
    (id : String) (now : ℕ) (b : Broker) (p : Pending)
    → b.pending ≡ some p
    → p.id ≡ id
    → now - p.at < ttl
    → Connect.take id now b ≡ (some p, record b { pending = none })
unfolding Connect.take is_live
take_lem id now b p there named live = rw there (rw ((eq_iff p.id id).1 named) (rw live_test refl))
  where
    live_test : ltb (now - p.at) ttl ≡ true
    live_test = ground (arith, live)

allowed_lem :
    (w : World) (id n : String) (d : Daemon) (p : Pending)
    → require_local w.peer w.headers d.port ≡ true
    → d.broker.pending ≡ some p
    → p.id ≡ id
    → w.now - p.at < ttl
    → (handle w (Call.allow id) d).0 ≡ allowed n
    → let (token, files) =
        allow_device w.saved w.saved_next w.new_id w.new_secret w.new_fields w.wall p.device_id
          p.device_name p.ip d.files in
      (token ≡ some w.new_secret)
      × ((handle w (Call.allow id) d).1.files ≡ files)
      × (lookup id (handle w (Call.allow id) d).1.broker.outcomes
          ≡ some (Connect.Outcome.allowed (some w.new_secret), w.now))
unfolding handle Connect.allow
allowed_lem w id n d p local there named live = rw local (
    rw (take_lem id w.now d.broker p there named live)
      (elim (allow_device_lem w.saved w.saved_next w.new_id w.new_secret w.new_fields w.wall
        p.device_id p.device_name p.ip d.files) [
          | inl (ok, rows, rest) ↦ rw ok (λ said. (refl, refl, told))
          | inr (failed, rows, rest) ↦ rw failed (λ said. absurd (cc))
        ]))
  where
    told :
        lookup id
          (insert p.id (Connect.Outcome.allowed (some w.new_secret), w.now) d.broker.outcomes)
        ≡ some (Connect.Outcome.allowed (some w.new_secret), w.now)
    told =
        rw
          (lookup-insert p.id id (Connect.Outcome.allowed (some w.new_secret), w.now)
            d.broker.outcomes)
          (rw ((eq_iff p.id id).1 named) refl)

status_lem :
    (w : World) (id token : String) (at : ℕ) (d : Daemon)
    → lookup id d.broker.outcomes ≡ some (Connect.Outcome.allowed (some token), at)
    → (handle w (Call.status id) d).0
      ≡ state (record { state = some "allowed"; device_token = some token })
unfolding handle Connect.status
status_lem w id token at d told = rw told refl

-- A machine's request that was opened, and that this machine then allows in time: the asking machine
-- is told so at its next question, with the new secret; and with that secret it is let in on every
-- path that is not open, from any address, as the row with the new id. The new secret is not empty
-- and no earlier row has it.
pub handle-admit :
    (w w' w'' : World) (name device_id n : String) (d : Daemon) (e : ℕ) (peer : IpAddr)
    (path : String)
    → (request_open w name device_id d).0 ≡ opened w.new_id e
    → require_local w'.peer w'.headers d.port ≡ true
    → w'.now - w.now < ttl
    → (handle w' (Call.allow w.new_id) (request_open w name device_id d).1).0 ≡ allowed n
    → is_empty w'.new_secret ≡ false
    → any (has_secret w'.new_secret) (rows_of d.files.paired) ≡ false
    → is_loopback peer ≡ false
    → is_open_path path ≡ false
    → let after = (handle w' (Call.allow w.new_id) (request_open w name device_id d).1).1 in
      ((handle w'' (Call.status w.new_id) after).0
        ≡ state (record { state = some "allowed"; device_token = some w'.new_secret }))
      × (Gate.admit peer path w'.new_secret after.files.paired ≡ paired w'.new_id)
handle-admit w w' w'' name device_id n d e peer path asked local live said full fresh far closed =
    let (p, there, named, at, files, port) = request_open_lem w name device_id d e asked in
    let (token, files', told) =
      allowed_lem w' w.new_id n (request_open w name device_id d).1 p
        (ap (λ q. require_local w'.peer w'.headers q) port ∙ local) there named
        (subst (λ t. w'.now - t < ttl) (sym at) live) said in
    (
      status_lem w'' w.new_id w'.new_secret w'.now _ told,
      ap (λ (fs : Files). Gate.admit peer path w'.new_secret fs.paired) files'
          ∙ allow_device-admit w'.saved w'.saved_next w'.new_id w'.new_secret w'.new_fields w'.wall
              p.device_id p.device_name p.ip (request_open w name device_id d).1.files peer path
              token full
              (ap (λ (fs : Files). any (has_secret w'.new_secret) (rows_of fs.paired)) files
                ∙ fresh)
              far closed,
    )
