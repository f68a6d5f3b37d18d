-- ===== src/Forward/Queueing.antt =====
-- Where a write on a replica ends (src/replica/forward.rs).
use linggen_memory.Prelude.{
  String, ◌≡◌, ◌∙◌, refl, sym, ap, ◌⊎◌, inl, inr, Bool, Bool-cases, true, false, Option, none, some,
  List, [], ◌∷◌, ◌++◌, last?, or_else, if◌then◌else◌,
}
use linggen_memory.Text.Order.{any_apart}
use linggen_memory.Tables.{TableApi}
use linggen_memory.Store.{TableName, Io, Node}
use linggen_memory.Replica.{replica, role, upstream}
use linggen_memory.Outbox
use linggen_memory.Outbox.{Args, Queued, replay, replay_loop}
use linggen_memory.Forward.{
  writes, primary_only, has_path, Response, is_success, created_ids, json, ReplicaNode, Round,
  Network, sync_once, forward_on, forward, pull_after, synced_first, forward_if, forward_in_order,
  queue_after_local, queue_on, replica_writes,
}

-- No write is the primary's alone.
writes_apart : (path : String) → has_path writes path ≡ true → has_path primary_only path ≡ false
writes_apart path e =
    any_apart (has_path primary_only) path writes
      (refl, (refl, (refl, (refl, (refl, (refl, (refl, (refl, (refl, tt))))))))) e

module _ (db : TableApi) (io : TableName → String → Io) where
  -- The queue when it is the turn of the new write.
  abbrev pub ahead : Network → ReplicaNode db → ReplicaNode db
  ahead w s = synced_first db io w s.queue s

  sync_once-empty :
      (w : Round) (s : ReplicaNode db) → s.queue ≡ [] → (sync_once db io w s).queue ≡ []
  unfolding sync_once replay replay_loop
  sync_once-empty w s none_left = by_upstream (upstream s.file)
    where
      by_upstream :
          (u : Option (String × String))
          → (elim u as (λ x. Bool × List Queued × Node db) [
            | none ↦ (true, s.queue, s.node)
            | some up ↦ replay_loop db io w.turns s.queue s.node
          ]).1
            ≡ []
      by_upstream none = none_left
      by_upstream (some up) = rw none_left refl

  -- What the write meets, when the queue is empty then and the primary is asked.
  pull_after-queue :
      (w : Network) (s : ReplicaNode db) (p : Option (String × String)) (posted : Option Response)
      → s.queue ≡ []
      → (pull_after db io w (forward_on db io p posted s)).1.queue ≡ []
  pull_after-queue w s none posted h = h
  pull_after-queue w s (some up) none h = h
  pull_after-queue w s (some up) (some r) h = elim (Bool-cases (is_success r)) [
    | inl e ↦ rw e (sync_once-empty w.after s h)
    | inr e ↦ rw e h
  ]

  -- The write went past an empty queue to the primary that the replica has, the reply is what the
  -- primary answered, unmarked, what an accepted write changed is pulled, and the queue is empty
  -- still.
  abbrev pub IsAnswered : Network → ReplicaNode db → Response × ReplicaNode db → Type 0
  IsAnswered w before (r, after) =
      (up : String × String) × (answer : Response) × (before.queue ≡ [])
      × (after.queue ≡ [])
      × (upstream before.file ≡ some up)
      × (w.posted ≡ some answer)
      × (r ≡ record answer { queued = false })
      × (after ≡ (if is_success answer then sync_once db io w.after before else before))

  -- The write was done here, and is the last of the queue, with what it created.
  abbrev pub IsQueued :
      (path : String)
      → Args
      → (Node db → Response × Node db)
      → ReplicaNode db
      → Response × ReplicaNode db
      → Type 0
  IsQueued path args next before (r, after) =
      (e : Queued) × (after.queue ≡ before.queue ++ e ∷ [])
      × (e.verb ≡ path)
      × (e.args ≡ args)
      × (e.local_ids ≡ created_ids (next before.node).0.body)
      × (r.queued ≡ true)
      × (after.node ≡ (next before.node).1)

  -- The write was refused here, or not kept, and the queue is as it was.
  abbrev pub IsUnqueued :
      Network → (Node db → Response × Node db) → ReplicaNode db → Response × ReplicaNode db → Type 0
  IsUnqueued w next before (r, after) =
      (after.queue ≡ before.queue)
      × (after.node ≡ (next before.node).1)
      × ((is_success (next before.node).0 ≡ false) ⊎ (w.saved ≡ false))

  abbrev pub IsEnded :
      Network
      → (path : String) → Args
      → (Node db → Response × Node db)
      → ReplicaNode db
      → Response × ReplicaNode db
      → Type 0
  IsEnded w path args next before end =
      IsAnswered w before end ⊎ IsQueued path args next before end ⊎ IsUnqueued w next before end

  queue_on-IsEnded :
      (w : Network) (path : String) (args : Args) (next : Node db → Response × Node db)
      (before s : ReplicaNode db)
      → s.queue ≡ before.queue
      → s.node ≡ before.node
      → IsEnded w path args next before (queue_on db io w path args next (none, s))
  unfolding queue_after_local Outbox.push
  queue_on-IsEnded w path args next before s q n = elim (Bool-cases (is_success (next s.node).0)) [
    | inl done ↦ elim (Bool-cases w.saved) [
      | inl kept ↦ rw done (
          rw kept (
            inr (
              inl (
                entry,
                ap (λ x. x ++ entry ∷ []) q,
                refl,
                refl,
                ap (λ x. created_ids (next x).0.body) n,
                refl,
                ap (λ x. (next x).1) n,
              ))))
      | inr lost ↦ rw done (rw lost (inr (inr (q, ap (λ x. (next x).1) n, inr refl))))
    ]
    | inr failed ↦ rw failed (
        inr
          (inr (q, ap (λ x. (next x).1) n, inl (ap (λ x. is_success (next x).0) (sym n) ∙ failed))))
  ]
    where
      entry : Queued
      entry = record {
        seq = Outbox.next_of (last? s.queue);
        verb = path;
        args = args;
        replica_id = or_else s.file.device_id "";
        created_at = w.now;
        local_ids = created_ids (next s.node).0.body;
      }

  forwarded-IsEnded :
      (w : Network) (path : String) (args : Args) (next : Node db → Response × Node db)
      (before : ReplicaNode db) (p : Option (String × String)) (posted : Option Response)
      → upstream before.file ≡ p
      → w.posted ≡ posted
      → before.queue ≡ []
      → IsEnded w path args next before
          (queue_on db io w path args next (pull_after db io w (forward_on db io p posted before)))
  forwarded-IsEnded w path args next before none posted u a h =
      queue_on-IsEnded w path args next before before refl refl
  forwarded-IsEnded w path args next before (some up) none u a h =
      queue_on-IsEnded w path args next before _ refl refl
  forwarded-IsEnded w path args next before (some up) (some r) u a h =
      inl (up, r, h, pull_after-queue w before (some up) (some r) h, u, a, refl, refl)

  in_order-IsEnded :
      (w : Network) (path : String) (args : Args) (next : Node db → Response × Node db)
      (before : ReplicaNode db) (q : List Queued)
      → before.queue ≡ q
      → IsEnded w path args next before
          (queue_on db io w path args next (forward_if db io w q before))
  unfolding forward
  in_order-IsEnded w path args next before [] h =
      forwarded-IsEnded w path args next before (upstream before.file) w.posted refl refl h
  in_order-IsEnded w path args next before (e ∷ q) h =
      queue_on-IsEnded w path args next before before refl refl

  -- On a replica, a post of one of the writes, with a body that can be read, ends in one of three
  -- ways, after what was queued has been replayed: the replica has a primary, which answered it past
  -- a queue that is empty by then and stays empty, and the reply is that answer; or it is done by the local handler, and stands last in the queue with its
  -- path, its arguments and the ids of the rows that it created, the rest of the queue as it was; or it
  -- is given to the local handler and the queue stays as it was, which happens only if the handler
  -- refused it or the queue could not be saved.
  pub replica_writes_lem :
      (w : Network) (path : String) (args : Args) (next : Node db → Response × Node db)
      (s : ReplicaNode db)
      → role s.file ≡ replica
      → has_path writes path ≡ true
      → IsEnded w path args next (ahead w s) (replica_writes db io w true path (json args) next s)
  unfolding replica_writes forward_in_order
  replica_writes_lem w path args next s linked writing = rw linked (
      rw (writes_apart path writing)
        (rw writing (in_order-IsEnded w path args next (ahead w s) (ahead w s).queue refl)))

  synced_first-posted :
      (w : Network) (posted : Option Response) (q : List Queued) (s : ReplicaNode db)
      → synced_first db io (record w { posted = posted }) q s ≡ synced_first db io w q s
  synced_first-posted w posted [] s = refl
  synced_first-posted w posted (e ∷ q) s = refl

  queue_on-posted :
      (w : Network) (posted : Option Response) (path : String) (args : Args)
      (next : Node db → Response × Node db) (s : ReplicaNode db) (e : Queued) (q qs : List Queued)
      → qs ≡ e ∷ q
      → queue_on db io
          (record w { posted = posted })
          path
          args
          next
          (forward_if db io (record w { posted = posted }) qs s)
        ≡ queue_on db io w path args next (forward_if db io w qs s)
  unfolding queue_after_local
  queue_on-posted w posted path args next s e q [] h = absurd (cc)
  queue_on-posted w posted path args next s e q (x ∷ qs) h = refl

  -- Nothing overtakes the queue: while a write is left in it, what the primary would answer to a new
  -- one makes no difference to the reply or to the replica.
  pub replica_writes-queue :
      (w : Network) (posted : Option Response) (path : String) (args : Args)
      (next : Node db → Response × Node db) (s : ReplicaNode db) (e : Queued) (q : List Queued)
      → role s.file ≡ replica
      → has_path writes path ≡ true
      → (ahead w s).queue ≡ e ∷ q
      → replica_writes db io (record w { posted = posted }) true path (json args) next s
        ≡ replica_writes db io w true path (json args) next s
  unfolding replica_writes forward_in_order
  replica_writes-queue w posted path args next s e q linked writing left = rw linked (
      rw (writes_apart path writing) (
        rw writing (
          rw (synced_first-posted w posted s.queue s)
            (queue_on-posted w posted path args next (ahead w s) e q (ahead w s).queue left))))
