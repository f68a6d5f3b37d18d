-- ===== src/Connect/Devices.antt =====
-- The files a decision lands in (src/http/connect/devices.rs). A write is a temporary file and a
-- rename, so it succeeds whole or changes nothing; which, is an argument. The ids, secrets and
-- times are what their generators give. A row of the shared file keeps the fields that this daemon
-- does not know as one text.
pub mod Kept
use linggen_memory.Prelude.{
  ℕ, String, ◌==◌, Bool, true, false, not, Option, none, some, List, [], ◌∷◌, ◌++◌, any, keep,
  length, eqb, if◌then◌else◌,
}
use linggen_memory.Local.{IpAddr}

pub record Allowed : Type 0 where
  pub id : String
  pub device_id : String
  pub name : String
  pub ip : IpAddr
  pub allowed_at : ℕ

pub record Denied : Type 0 where
  pub device_id : String
  pub name : String
  pub ip : IpAddr
  pub denied_at : ℕ

pub record Row : Type 0 where
  pub id : Option String
  pub device_id : Option String
  pub secret : Option String
  pub other_fields : String

pub data FileOf (A : Type 0) : Type 0 where
  missing : FileOf A
  unreadable : FileOf A
  holds : List A → FileOf A

pub record Files : Type 0 where
  pub paired : FileOf Row
  pub allowed : FileOf Allowed
  pub denied : FileOf Denied

module _ {A : Type 0} where
  unfoldable pub read_list : FileOf A → Option (List A)
  read_list missing = some []
  read_list unreadable = none
  read_list (holds rows) = some rows

  -- `modify`: what the closure makes of the rows, and whether it was written.
  abbrev pub modify_on : Option (List A) → Bool → (List A → List A) → FileOf A → Bool × FileOf A
  modify_on none saved f file = (false, file)
  modify_on (some rows) true f file = (true, holds (f rows))
  modify_on (some rows) false f file = (false, file)

  unfoldable pub modify : Bool → (List A → List A) → FileOf A → Bool × FileOf A
  modify saved f file = modify_on (read_list file) saved f file

abbrev pub has_text : Option String → String → Bool
has_text none s = false
has_text (some t) s = t == s

abbrev pub paired_after : String → Row → List Row → List Row
paired_after device_id row rows =
    keep (λ (r : Row). not (has_text r.device_id device_id)) rows ++ row ∷ []

abbrev pub allowed_after : Allowed → List Allowed → List Allowed
allowed_after entry rows =
    keep (λ (r : Allowed). not (r.device_id == entry.device_id)) rows ++ entry ∷ []

abbrev pub new_row : String → String → String → String → Row
new_row id device_id secret rest = record {
  id = some id;
  device_id = some device_id;
  secret = some secret;
  other_fields = rest;
}

-- `rest` is the name, the time and the empty settings of the new row. The second file is written
-- only if the first was.
unfoldable pub allow_device :
    Bool
    → Bool
    → (id secret rest : String) → ℕ
    → (device_id name : String) → IpAddr
    → Files
    → Option String × Files
allow_device saved saved' id secret rest now device_id name ip fs =
    let (ok, paired) =
      modify saved (paired_after device_id (new_row id device_id secret rest)) fs.paired in
    let entry : Allowed = record {
      id = id;
      device_id = device_id;
      name = name;
      ip = ip;
      allowed_at = now;
    } in
    let (ok', allowed) = modify saved' (allowed_after entry) fs.allowed in
    if not ok
    then (none, fs)
    else if not ok'
    then (none, record fs { paired = paired })
    else (some secret, record fs { paired = paired; allowed = allowed })

abbrev pub is_paired : List Row → String → Bool
is_paired rows id = any (λ (r : Row). has_text r.id id) rows

abbrev pub list_of : Option (List Row) → Option (List Allowed) → Option (List Allowed)
list_of none allowed = none
list_of (some paired) none = none
list_of (some paired) (some allowed) = some (keep (λ (a : Allowed). is_paired paired a.id) allowed)

unfoldable pub list_allowed : Files → Option (List Allowed)
list_allowed fs = list_of (read_list fs.paired) (read_list fs.allowed)

abbrev pub any_row : {A : Type 0} → (A → Bool) → Option (List A) → Bool
any_row p none = false
any_row p (some rows) = any p rows

abbrev pub is_known : Files → String → Bool
is_known fs device_id = any_row (λ (a : Allowed). a.device_id == device_id) (list_allowed fs)

unfoldable pub is_denied : Files → String → Bool
is_denied fs device_id = any_row (λ (d : Denied). d.device_id == device_id) (read_list fs.denied)

abbrev pub is_ours : String → List Allowed → Bool
is_ours id rows = any (λ (a : Allowed). a.id == id) rows

-- `none` is an error.
abbrev pub revoke_on : Option (List Allowed) → Bool → Bool → String → Files → Option Bool × Files
revoke_on none saved saved' id fs = (none, fs)
revoke_on (some ours) saved saved' id fs =
    let (ok, paired) =
      modify saved (λ rows. keep (λ (r : Row). not (has_text r.id id)) rows) fs.paired in
    let (ok', allowed) =
      modify saved' (λ rows. keep (λ (a : Allowed). not (a.id == id)) rows) fs.allowed in
    if not (is_ours id ours)
    then (some false, fs)
    else if not ok
    then (none, fs)
    else if not ok'
    then (none, record fs { paired = paired })
    else (some true, record fs { paired = paired; allowed = allowed })

unfoldable pub revoke : Bool → Bool → String → Files → Option Bool × Files
revoke saved saved' id fs = revoke_on (read_list fs.allowed) saved saved' id fs

unfoldable pub deny_device : Bool → ℕ → (device_id name : String) → IpAddr → Files → Bool × Files
deny_device saved now device_id name ip fs =
    let entry : Denied = record { device_id = device_id; name = name; ip = ip; denied_at = now } in
    let (ok, denied) =
      modify saved
        (λ rows. keep (λ (d : Denied). not (d.device_id == device_id)) rows ++ entry ∷ [])
        fs.denied in
    (ok, record fs { denied = denied })

abbrev pub undeny_on : Option (List Denied) → Bool → String → Files → Option Bool × Files
undeny_on none saved device_id fs = (none, fs)
undeny_on (some rows) saved device_id fs =
    let kept = keep (λ (d : Denied). not (d.device_id == device_id)) rows in
    if saved
    then (some (not (eqb (length kept) (length rows))), record fs { denied = holds kept })
    else (none, fs)

unfoldable pub undeny : Bool → String → Files → Option Bool × Files
undeny saved device_id fs = undeny_on (read_list fs.denied) saved device_id fs
