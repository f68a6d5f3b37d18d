-- ===== src/Gate/Decisions.antt =====
-- What the decisions of this machine mean at the gate.
use linggen_memory.Prelude.{
  ℕ, String, ◌==◌, eq_iff, ◌≡◌, ◌≢◌, ◌∙◌, refl, sym, ap, Bool, Bool-cases, Option-cases, inl, inr,
  ◌⊎◌, true, false, not, Option, none, some, List, [], ◌∷◌, ◌++◌, any, keep, find, find-append,
  arith, or_else,
}
use linggen_memory.Text.{is_empty}
use linggen_memory.Local.{IpAddr, is_loopback}
use linggen_memory.Connect.Devices.{Row, Files, has_text, new_row, allow_device, revoke}
use linggen_memory.Connect.Devices.Kept.{rows_of, allow_device_lem, revoke_lem}
use linggen_memory.Gate.{
  paired, paired_or_refused, has_secret, id_of, paired_device_id, admit, is_open_path,
}

module _ {A : Type 0} (p h : A → Bool) where
  -- A search among what is left finds nothing that was taken out.
  find-keep_sound : (xs : List A) (r : A) → find p (keep (λ x. not (h x)) xs) ≡ some r → h r ≡ false
  find-keep_sound [] r e = cc
  find-keep_sound (x ∷ xs) r e = elim (Bool-cases (h x)) [
    | inl gone ↦ find-keep_sound xs r (ground (arith, e, gone))
    | inr stays ↦ elim (Bool-cases (p x)) [
      | inl hit ↦ ground (arith, e, stays, hit)
      | inr miss ↦ find-keep_sound xs r (ground (arith, e, stays, miss))
    ]
  ]

  find-keep_stays :
      (xs : List A) (r : A)
      → find p xs ≡ some r
      → h r ≡ false
      → find p (keep (λ x. not (h x)) xs) ≡ some r
  find-keep_stays [] r e k = cc
  find-keep_stays (x ∷ xs) r e k = elim (Bool-cases (p x)) [
    | inl hit ↦ ground (arith, e, k, hit)
    | inr miss ↦ ground (arith, miss, find-keep_stays xs r, e, k)
  ]

  find-keep_misses : (xs : List A) → any p xs ≡ false → find p (keep (λ x. not (h x)) xs) ≡ none
  find-keep_misses [] e = refl
  find-keep_misses (x ∷ xs) e = ground (arith, e, find-keep_misses xs)

-- A device that was revoked is not let in by any token.
module _ (s s' : Bool) (id : String) (fs : Files) (done : (revoke s s' id fs).0 ≡ some true)
    (named : id ≢ "") where
  rows_after :
      rows_of (revoke s s' id fs).1.paired
      ≡ keep (λ (r : Row). not (has_text r.id id)) (rows_of fs.paired)
  rows_after = elim (revoke_lem s s' id fs) [
    | inl (other, same) ↦ absurd (cc)
    | inr (inl (ok, gone, rows, entries)) ↦ rows
    | inr (inr (failed, same)) ↦ absurd (cc)
  ]

  not_named : (o : Option String) → has_text o id ≡ false → some (or_else o "") ≢ some id
  not_named none other e = named (cc)
  not_named (some j) other e = elim (Bool-cases (j == id)) [
    | inl hit ↦ absurd (cc)
    | inr miss ↦ absurd (let t = (eq_iff j id).1 (cc) in cc)
  ]

  is_named :
      (o : Option String) (j : String)
      → has_text o id ≡ true
      → some (or_else o "") ≡ some j
      → j ≡ id
  is_named none j hit e = absurd (cc)
  is_named (some k) j hit e = let same = (eq_iff k id).0 hit in cc

  no_more :
      (token : String)
      → id_of (find (has_secret token) (rows_of (revoke s s' id fs).1.paired)) ≢ some id
  no_more token e =
      elim (Option-cases (find (has_secret token) (rows_of (revoke s s' id fs).1.paired))) [
        | inl nothing ↦ absurd (cc)
        | inr (r, found) ↦
            not_named r.id
              (find-keep_sound (has_secret token) (λ (r : Row). has_text r.id id)
                (rows_of fs.paired) r (ap (find (has_secret token)) (sym rows_after) ∙ found))
              (ap id_of (sym found) ∙ e)
      ]

  the_others :
      (token j : String)
      → id_of (find (has_secret token) (rows_of fs.paired)) ≡ some j
      → (j ≡ id) ⊎ (id_of (find (has_secret token) (rows_of (revoke s s' id fs).1.paired)) ≡ some j)
  the_others token j was = elim (Option-cases (find (has_secret token) (rows_of fs.paired))) [
    | inl nothing ↦ absurd (cc)
    | inr (r, found) ↦ elim (Bool-cases (has_text r.id id)) [
      | inl hit ↦ inl (is_named r.id j hit (ap id_of (sym found) ∙ was))
      | inr miss ↦ inr (
          ap (λ rows. id_of (find (has_secret token) rows)) rows_after
          ∙ ap id_of (
              find-keep_stays (has_secret token) (λ (r : Row). has_text r.id id) (rows_of fs.paired)
                r found miss
              ∙ sym found)
          ∙ was)
    ]
  ]

  -- After a revocation that succeeds, of a machine whose id is not empty, no token is that machine's
  -- any more; and a token that was another machine's is that machine's still.
  pub revoke-paired_device_id :
      (token : String)
      → (paired_device_id (revoke s s' id fs).1.paired token ≢ some id)
        × ((j : String)
            → paired_device_id fs.paired token ≡ some j
            → (j ≡ id) ⊎ (paired_device_id (revoke s s' id fs).1.paired token ≡ some j))
  unfolding paired_device_id
  revoke-paired_device_id token = elim (Bool-cases (is_empty token)) [
    | inl e ↦ rw e (λ t. absurd (cc), λ j was. absurd (cc))
    | inr e ↦ rw e (no_more token, the_others token)
  ]

-- A machine that was just allowed, with a secret that is not empty and that no row has, is let in
-- with that secret on every path that is not open, from any address that is not this machine; the
-- gate then knows it by its new id.
pub allow_device-admit :
    (s s' : Bool) (id secret rest : String) (now : ℕ) (device_id name : String) (ip : IpAddr)
    (fs : Files) (peer path : String)
    → (allow_device s s' id secret rest now device_id name ip fs).0 ≡ some secret
    → is_empty secret ≡ false
    → any (has_secret secret) (rows_of fs.paired) ≡ false
    → is_loopback peer ≡ false
    → is_open_path path ≡ false
    → admit peer path secret (allow_device s s' id secret rest now device_id name ip fs).1.paired
      ≡ paired id
unfolding admit paired_device_id
allow_device-admit s s' id secret rest now device_id name ip fs peer path done full fresh far
      closed =
    rw far (rw closed (rw full (ap (λ r. paired_or_refused (id_of r)) found)))
  where
    kept : List Row
    kept = keep (λ (r : Row). not (has_text r.device_id device_id)) (rows_of fs.paired)

    rows :
        rows_of (allow_device s s' id secret rest now device_id name ip fs).1.paired
        ≡ kept ++ new_row id device_id secret rest ∷ []
    rows = elim (allow_device_lem s s' id secret rest now device_id name ip fs) [
      | inl (ok, there, same) ↦ there
      | inr (failed, old, same) ↦ absurd (cc)
    ]

    last :
        elim (find (has_secret secret) kept) [
          | none ↦ find (has_secret secret) (new_row id device_id secret rest ∷ [])
          | some a ↦ some a
        ]
        ≡ some (new_row id device_id secret rest)
    last =
        rw
          (find-keep_misses (has_secret secret) (λ (r : Row). has_text r.device_id device_id)
            (rows_of fs.paired) fresh)
          (ground (arith, (eq_iff secret secret).1 refl))

    found :
        find
          (has_secret secret)
          (rows_of (allow_device s s' id secret rest now device_id name ip fs).1.paired)
        ≡ some (new_row id device_id secret rest)
    found =
        ap (find (has_secret secret)) rows
        ∙ find-append (has_secret secret) kept (new_row id device_id secret rest ∷ [])
        ∙ last
