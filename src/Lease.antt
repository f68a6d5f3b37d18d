-- ===== src/Lease.antt =====
-- The dream lock, one holder per day (src/http/lease.rs). The file is what it parses to, `none` when
-- it is missing or does not parse; `saved` says whether a save succeeds.
pub mod Exclusion
use linggen_memory.Prelude.{
  ℕ, ◌+◌, ◌*◌, String, ◌==◌, Bool, true, false, not, ◌||◌, Option, none, some, List, [], ◌∷◌, ltb,
  if◌then◌else◌, Assoc, lookup, insert, remove, retain, filter,
}
use linggen_memory.Text.{trim, is_empty}
use linggen_memory.Types.{Instant}

abbrev pub lease_for_minutes : ℕ
lease_for_minutes = 30

abbrev pub minute : ℕ
minute = 60 * 1000000

pub record Lease : Type 0 where
  pub holder : String
  pub expires_at : Instant

abbrev pub Leases : Type 0
Leases = Assoc Lease

abbrev pub load : Option Leases → Leases
load none = []
load (some m) = m

pub data Verdict : Type 0 where
  granted : Lease → Verdict
  held : Lease → Verdict
  released : Verdict

abbrev pub is_after : Instant → Lease → Bool
is_after now l = ltb now l.expires_at

abbrev pub is_other : String → Lease → Bool
is_other holder l = not (l.holder == holder)

unfoldable pub held_by_other : Option Leases → String → String → Instant → Option Lease
held_by_other file day holder now =
    filter (λ l. if is_after now l then is_other holder l else false) (lookup day (load file))

-- `save(..)?`, then the verdict.
abbrev pub kept_as : Bool → Leases → Verdict → Option Leases → Option Verdict × Option Leases
kept_as true leases v file = (some v, some leases)
kept_as false leases v file = (none, file)

abbrev pub new_lease : String → Instant → Lease
new_lease holder now = record { holder = holder; expires_at = now + lease_for_minutes * minute }

-- The part of `decide` after the check for another holder.
abbrev pub decide_free :
    Bool
    → String
    → String
    → String
    → Instant
    → Leases
    → Option Leases
    → Option Verdict × Option Leases
decide_free saved day holder action now leases file =
    if action == "release"
    then kept_as saved (remove day leases) released file
    else kept_as saved (insert day (new_lease holder now) leases) (granted (new_lease holder now))
        file

-- `decide` after the look-up of another holder's lease.
abbrev pub decide_on :
    Option Lease
    → Bool
    → String
    → String
    → String
    → Instant
    → Leases
    → Option Leases
    → Option Verdict × Option Leases
decide_on (some l) saved day holder action now leases file = (some (held l), file)
decide_on none saved day holder action now leases file =
    decide_free saved day holder action now leases file

-- `none` is an error of the save.
unfoldable pub decide :
    Bool → String → String → String → Instant → Option Leases → Option Verdict × Option Leases
decide saved day holder action now file =
    let leases = retain (is_after now) (load file) in
    decide_on (filter (is_other holder) (lookup day leases)) saved day holder action now leases file

pub record LeaseRequest : Type 0 where
  pub day : String
  pub holder : String
  pub action : String

pub data LeaseReply : Type 0 where
  bad_request internal freed : LeaseReply
  busy leased : Lease → LeaseReply

abbrev pub reply_of : Option Verdict → LeaseReply
reply_of none = internal
reply_of (some (held l)) = busy l
reply_of (some (granted l)) = leased l
reply_of (some released) = freed

abbrev pub is_action : String → Bool
is_action a = a == "acquire" || a == "renew" || a == "release"

-- `is_date` is the calendar library's check of `YYYY-MM-DD`.
unfoldable pub dream_lease :
    (String → Bool) → Bool → LeaseRequest → Instant → Option Leases → LeaseReply × Option Leases
unfolding decide
dream_lease is_date saved req now file =
    if not (is_action req.action)
    then (bad_request, file)
    else if is_empty (trim req.holder) || not (is_date req.day)
    then (bad_request, file)
    else (
      reply_of (decide saved req.day (trim req.holder) req.action now file).0,
      (decide saved req.day (trim req.holder) req.action now file).1,
    )
