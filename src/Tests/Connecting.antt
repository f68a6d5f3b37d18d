-- ===== src/Tests/Connecting.antt =====
-- The properties of the lease, the local check and the connect broker at concrete inputs.
use linggen_memory.Prelude.{
  ℕ, ◌+◌, ◌-◌, ◌≤◌, ◌<◌, ◌↔◌, ◌⊎◌, ◌++◌, String, ◌==◌, ◌≡◌, refl, Bool, true, false, not, ◌||◌,
  Option, none, some, List, [], ◌∷◌, arith, All, IsMap, lookup, filter, if◌then◌else◌, length, keep,
}
use linggen_memory.Lease
use linggen_memory.Lease.{Lease, Leases, held, decide, load, LeaseRequest}
use linggen_memory.Lease.Exclusion
use linggen_memory.Lease.Exclusion.{Asked, answers, live_at, shown}
use linggen_memory.Local
use linggen_memory.Local.{HeaderMap, require_local, is_loopback, is_loopback_host}
use linggen_memory.Connect.{
  Broker, Pending, Status, allow, open_request, take, status, status_json, is_live, recent,
  rate_max,
}
use linggen_memory.Connect.Tokens
use linggen_memory.Connect.Tokens.{run, hands_out}
use linggen_memory.Connect.Limits
use linggen_memory.Connect.Limits.{admitted_times}
use linggen_memory.Connect.Race
use linggen_memory.Connect.Devices.{Row, Files, missing, holds}
use linggen_memory.Replica.{default, asked, settle}

abbrev first_lease : Lease
first_lease = record { holder = "engine"; expires_at = 100 }

abbrev lease_file : Option Leases
lease_file = some (("2026-01-02", first_lease) ∷ [])

lease_file-IsMap : IsMap (load lease_file)
unfolding lookup
lease_file-IsMap = (refl, tt)

decide-shown_example :
    live_at 60 "2026-01-02" (decide true "2026-01-02" "plugin" "acquire" 50 lease_file).1
    ≡ filter (Lease.is_after 60) (
        if "2026-01-02" == "2026-01-02"
        then shown
            (decide true "2026-01-02" "plugin" "acquire" 50 lease_file).0
            (live_at 50 "2026-01-02" lease_file)
        else live_at 50 "2026-01-02" lease_file)
decide-shown_example =
    Exclusion.decide-shown true "2026-01-02" "plugin" "acquire" 50 lease_file lease_file-IsMap 60
      (omega arith) "2026-01-02"

abbrev rivals : List Asked
rivals =
    record { saved = true; day = "2026-01-02"; holder = "plugin"; action = "release"; now = 50 }
    ∷ record { saved = true; day = "2026-01-03"; holder = "plugin"; action = "acquire"; now = 60 }
    ∷ []

answers_exclude_example :
    (lookup "2026-01-02" (load (answers rivals lease_file).1) ≡ some first_lease)
    × All
        (λ a. ((a.0.day == "2026-01-02") ≡ false) ⊎ (a.1 ≡ some (held first_lease)))
        (answers rivals lease_file).0
unfolding lookup
answers_exclude_example =
    Exclusion.answers_exclude rivals lease_file "2026-01-02" first_lease lease_file-IsMap refl
      ((omega arith, refl), ((omega arith, refl), tt))

abbrev console : HeaderMap
console = record { host = some "localhost:9528"; origin = none }

console_passes : require_local "127.0.0.1" console 9528 ≡ true
unfolding require_local is_loopback is_loopback_host linggen_memory.Local.decimal
    linggen_memory.Text.strip_text
console_passes = refl

abbrev fresh : Broker
fresh = record { pending = none; outcomes = []; hits = [] }

abbrev opened : Broker
opened = (open_request "r" "DS242" "dev-0001" "10.0.0.2" 0 fresh).1

abbrev asker : Pending
asker = record { id = "r"; device_name = "DS242"; device_id = "dev-0001"; ip = "10.0.0.2"; at = 0 }

abbrev allowing : Broker
allowing = allow "r" "t" 5 (take "r" 4 opened).1

status_once_example :
    All (λ a. hands_out "r" a ≡ false) (run (Tokens.polled "r" 8 ∷ []) (status "r" 7 allowing).1).0
unfolding allow take open_request lookup linggen_memory.Prelude.insert linggen_memory.Prelude.retain
    is_live
status_once_example =
    Tokens.status_once "r" 7 allowing (Tokens.polled "r" 8 ∷ []) (refl, tt) (refl, tt)

settle-status_taken_example :
    let f = asked "p:1" "r" default in
    let g = (settle "r" (status_json (status "r" 5 (take "r" 4 opened).1).0) f).0 in
    (g.error ≡ some "the request expired")
    × ((settle "r" (status_json (Status.allowed (some "t"))) g).0 ≡ g)
unfolding take open_request is_live lookup asked linggen_memory.Prelude.retain
settle-status_taken_example =
    Race.settle-status_taken "r" "t" 4 5 opened asker (asked "p:1" "r" default) refl refl refl

admitted_times_bounded_example :
    length (
      recent 3 (
        admitted_times "10.0.0.2" (("10.0.0.2", 1) ∷ ("10.0.0.3", 2) ∷ ("10.0.0.2", 3) ∷ []) fresh))
    ≤ rate_max
unfolding lookup
admitted_times_bounded_example =
    Limits.admitted_times_bounded "10.0.0.2"
      (("10.0.0.2", 1) ∷ ("10.0.0.3", 2) ∷ ("10.0.0.2", 3) ∷ []) 3 fresh
      (omega arith, (omega arith, (omega arith, omega arith))) refl

abbrev phone : Row
phone = record { id = some "p1"; device_id = none; secret = some "aa"; other_fields = "{}" }

abbrev files : Files
files = record { paired = holds (phone ∷ []); allowed = missing; denied = missing }
