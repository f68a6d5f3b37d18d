-- ===== src/Connect/Devices/Kept.antt =====
-- What each decision keeps and changes in the files.
use linggen_memory.Prelude.{
  ℕ, String, ◌==◌, eq_iff, ◌≡◌, ◌∙◌, refl, Bool, Bool-cases, inl, inr, ◌⊎◌, true, false, not, ◌||◌,
  Option, none, some, List, [], ◌∷◌, ◌++◌, any, keep, if◌then◌else◌, arith,
}
use linggen_memory.Local.{IpAddr}
use linggen_memory.Connect.Devices.{
  Allowed, Denied, Row, FileOf, missing, unreadable, holds, Files, read_list, modify, has_text,
  paired_after, allowed_after, new_row, allow_device, is_paired, any_row, is_denied, is_ours,
  revoke, deny_device, undeny,
}

-- The rows that the gate reads: a file that is not there or does not parse has none.
abbrev pub rows_of : FileOf Row → List Row
rows_of missing = []
rows_of unreadable = []
rows_of (holds rows) = rows

any-keep-not : {A : Type 0} (p : A → Bool) (xs : List A) → any p (keep (λ x. not (p x)) xs) ≡ false
any-keep-not p [] = refl
any-keep-not p (x ∷ xs) = ground (arith, any-keep-not p xs)

any-append :
    {A : Type 0} (p : A → Bool) (xs ys : List A) → any p (xs ++ ys) ≡ (any p xs || any p ys)
any-append p [] ys = refl
any-append p (x ∷ xs) ys = ground (arith, any-append p xs ys)

-- A decision to allow that returns a token has put one row with it for the machine into the shared
-- file, after all rows of other machines in their order; one that returns none leaves the list of
-- allowed machines as it was. The denied list stays in both cases.
pub allow_device_lem :
    (s s' : Bool) (id secret rest : String) (now : ℕ) (device_id name : String) (ip : IpAddr)
    (fs : Files)
    → let (token, after) = allow_device s s' id secret rest now device_id name ip fs in
      ((token ≡ some secret)
        × (rows_of after.paired
            ≡ keep (λ (r : Row). not (has_text r.device_id device_id)) (rows_of fs.paired)
              ++ new_row id device_id secret rest ∷ [])
        × (after.denied ≡ fs.denied))
      ⊎ ((token ≡ none) × (after.allowed ≡ fs.allowed) × (after.denied ≡ fs.denied))
unfolding allow_device modify read_list
allow_device_lem s s' id secret rest now device_id name ip fs = by_files fs.paired fs.allowed s s'
  where
    entry : Allowed
    entry = record { id = id; device_id = device_id; name = name; ip = ip; allowed_at = now }

    row : Row
    row = new_row id device_id secret rest

    by_files :
        (p : FileOf Row) (a : FileOf Allowed) (s s' : Bool)
        → let (ok, paired) = modify s (paired_after device_id row) p in
          let (ok', allowed) = modify s' (allowed_after entry) a in
          let (token, after) : Option String × Files =
            if not ok
            then (none, fs)
            else if not ok'
            then (none, record fs { paired = paired })
            else (some secret, record fs { paired = paired; allowed = allowed }) in
          ((token ≡ some secret)
            × (rows_of after.paired
                ≡ keep (λ (r : Row). not (has_text r.device_id device_id)) (rows_of p) ++ row ∷ [])
            × (after.denied ≡ fs.denied))
          ⊎ ((token ≡ none) × (after.allowed ≡ fs.allowed) × (after.denied ≡ fs.denied))
    by_files unreadable a s s' = inr (refl, refl, refl)
    by_files missing a false s' = inr (refl, refl, refl)
    by_files missing unreadable true s' = inr (refl, refl, refl)
    by_files missing missing true true = inl (refl, refl, refl)
    by_files missing missing true false = inr (refl, refl, refl)
    by_files missing (holds as') true true = inl (refl, refl, refl)
    by_files missing (holds as') true false = inr (refl, refl, refl)
    by_files (holds rows) a false s' = inr (refl, refl, refl)
    by_files (holds rows) unreadable true s' = inr (refl, refl, refl)
    by_files (holds rows) missing true true = inl (refl, refl, refl)
    by_files (holds rows) missing true false = inr (refl, refl, refl)
    by_files (holds rows) (holds as') true true = inl (refl, refl, refl)
    by_files (holds rows) (holds as') true false = inr (refl, refl, refl)

-- Either the revocation says that the machine is not one of this daemon's, and no file has changed;
-- or it succeeds, no row and no entry of that id is left, and rows of other ids stay in order; or
-- it is an error, and the list of allowed machines is as it was.
pub revoke_lem :
    (s s' : Bool) (id : String) (fs : Files)
    → let (ok, after) = revoke s s' id fs in
      ((ok ≡ some false) × (after ≡ fs))
      ⊎ (((ok ≡ some true)
            × (is_paired (rows_of after.paired) id ≡ false)
            × (rows_of after.paired
                ≡ keep (λ (r : Row). not (has_text r.id id)) (rows_of fs.paired))
            × (any_row (λ (a : Allowed). a.id == id) (read_list after.allowed) ≡ false))
          ⊎ ((ok ≡ none) × (after.allowed ≡ fs.allowed)))
unfolding revoke modify read_list
revoke_lem s s' id fs = revoke_files fs.paired fs.allowed fs.denied s s'
  where
    revoke_files :
        (p : FileOf Row) (a : FileOf Allowed) (d : FileOf Denied) (s s' : Bool)
        → let before : Files = record { paired = p; allowed = a; denied = d } in
          let (ok, after) = revoke s s' id before in
          ((ok ≡ some false) × (after ≡ before))
          ⊎ (((ok ≡ some true)
                × (is_paired (rows_of after.paired) id ≡ false)
                × (rows_of after.paired ≡ keep (λ (r : Row). not (has_text r.id id)) (rows_of p))
                × (any_row (λ (a : Allowed). a.id == id) (read_list after.allowed) ≡ false))
              ⊎ ((ok ≡ none) × (after.allowed ≡ a)))
    revoke_files p unreadable d s s' = inr (inr (refl, refl))
    revoke_files p missing d s s' = inl (refl, refl)
    revoke_files unreadable (holds xs) d s s' = elim (Bool-cases (is_ours id xs)) [
      | inl e ↦ rw e (inr (inr (refl, refl)))
      | inr e ↦ rw e (inl (refl, refl))
    ]
    revoke_files missing (holds xs) d false s' = elim (Bool-cases (is_ours id xs)) [
      | inl e ↦ rw e (inr (inr (refl, refl)))
      | inr e ↦ rw e (inl (refl, refl))
    ]
    revoke_files missing (holds xs) d true false = elim (Bool-cases (is_ours id xs)) [
      | inl e ↦ rw e (inr (inr (refl, refl)))
      | inr e ↦ rw e (inl (refl, refl))
    ]
    revoke_files missing (holds xs) d true true = elim (Bool-cases (is_ours id xs)) [
      | inl e ↦ rw e (inr (inl (refl, refl, refl, any-keep-not (λ a. a.id == id) xs)))
      | inr e ↦ rw e (inl (refl, refl))
    ]
    revoke_files (holds rows) (holds xs) d false s' = elim (Bool-cases (is_ours id xs)) [
      | inl e ↦ rw e (inr (inr (refl, refl)))
      | inr e ↦ rw e (inl (refl, refl))
    ]
    revoke_files (holds rows) (holds xs) d true false = elim (Bool-cases (is_ours id xs)) [
      | inl e ↦ rw e (inr (inr (refl, refl)))
      | inr e ↦ rw e (inl (refl, refl))
    ]
    revoke_files (holds rows) (holds xs) d true true = elim (Bool-cases (is_ours id xs)) [
      | inl e ↦ rw e (
          inr (
            inl (
              refl,
              any-keep-not (λ r. has_text r.id id) rows,
              refl,
              any-keep-not (λ a. a.id == id) xs,
            )))
      | inr e ↦ rw e (inl (refl, refl))
    ]

-- If the denied list can be written, a machine is denied after a decision to deny it and no longer
-- after an undeny, whatever was on the list; other machines are denied as before.
pub is_denied_lem :
    (device_id other name : String) (now : ℕ) (ip : IpAddr) (fs : Files)
    → ((deny_device true now device_id name ip fs).0 ≡ true)
    → (is_denied (deny_device true now device_id name ip fs).1 other
        ≡ (if device_id == other then true else is_denied fs other))
      × (is_denied (undeny true device_id fs).1 other
          ≡ (if device_id == other then false else is_denied fs other))
unfolding deny_device undeny is_denied modify read_list
is_denied_lem device_id other name now ip fs = by_file fs.denied
  where
    any-without :
        (rows : List Denied)
        → any
            (λ (d : Denied). d.device_id == other)
            (keep (λ (d : Denied). not (d.device_id == device_id)) rows)
          ≡ (if device_id == other then false else any (λ (d : Denied). d.device_id == other) rows)
    any-without [] = ground arith
    any-without (d ∷ rows) = ground (
      arith,
      any-without rows,
      eq_iff d.device_id device_id,
      eq_iff d.device_id other,
      eq_iff device_id other,
    )

    by_file :
        (d : FileOf Denied)
        → let before : Files = record { paired = fs.paired; allowed = fs.allowed; denied = d } in
          ((deny_device true now device_id name ip before).0 ≡ true)
          → (is_denied (deny_device true now device_id name ip before).1 other
              ≡ (if device_id == other then true else is_denied before other))
            × (is_denied (undeny true device_id before).1 other
                ≡ (if device_id == other then false else is_denied before other))
    by_file unreadable ok = absurd (ground (arith, ok))
    by_file missing ok = (ground arith, ground arith)
    by_file (holds rows) ok = (
      any-append (λ (d : Denied). d.device_id == other)
            (keep (λ (d : Denied). not (d.device_id == device_id)) rows) _
          ∙ ground (arith, any-without rows),
      any-without rows,
    )
