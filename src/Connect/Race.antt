-- ===== src/Connect/Race.antt =====
-- The primary's broker and a replica's link together: what a poll in the middle of a decision does.
use linggen_memory.Prelude.{String, ◌≡◌, refl, sym, subst, eq_refl, none, some, lookup}
use linggen_memory.Types.{Instant}
use linggen_memory.Connect.{Broker, Pending, Status, take, status, status_json}
use linggen_memory.Connect.Tokens.{status-take}
use linggen_memory.Replica.{ReplicaFile, settle, finish}

-- A replica that polls its open request after the primary has taken it to decide it, and before
-- there is an outcome, is told that the request expired and gives it up: a later answer that allows
-- it, with a token, no longer changes the replica's file.
pub settle-status_taken :
    (id token : String) (now t : Instant) (b : Broker) (p : Pending) (f : ReplicaFile)
    → (take id now b).0 ≡ some p
    → lookup id b.outcomes ≡ none
    → f.request_id ≡ some id
    → let g = (settle id (status_json (status id t (take id now b).1).0) f).0 in
      (g.error ≡ some "the request expired")
      × ((settle id (status_json (Status.allowed (some token))) g).0 ≡ g)
unfolding settle finish
settle-status_taken id token now t b p f h none_yet asks =
    subst
      (λ s.
        let g = (settle id (status_json s) f).0 in
        (g.error ≡ some "the request expired")
        × ((settle id (status_json (Status.allowed (some token))) g).0 ≡ g))
      (sym (status-take id now t b p h none_yet)) (rw (asks, eq_refl id) (refl, refl))
