-- ===== src/Outbox/Replay.antt =====
-- The order of the queue.
use linggen_memory.Prelude.{
  ℕ, suc, ◌^◌, ◌≤◌, ◌<◌, String, ◌≡◌, refl, sym, ap, subst, ◌⊎◌, Bool-cases, inl, inr, false, not,
  List, [], ◌∷◌, ◌++◌, last?, keep, arith, eqb, length,
}
use linggen_memory.Types.{Instant}
use linggen_memory.Tables.{TableApi}
use linggen_memory.Store.{TableName, Io, Node}
use linggen_memory.Replica.{ReplicaFile}
use linggen_memory.Outbox.{Args, Queued, push, next_of, Upstream, replay_one, replay_loop}

-- Each number is above the ones before it, and the last is below `hi`.
abbrev pub IsNumbered : ℕ → List Queued → ℕ → Type 0
IsNumbered lo [] hi = lo ≤ hi
IsNumbered lo (e ∷ q) hi = (lo ≤ e.seq) × IsNumbered (suc e.seq) q hi

others_kept :
    (n lo hi : ℕ) (q : List Queued)
    → n < lo
    → IsNumbered lo q hi
    → keep (λ (x : Queued). not (eqb x.seq n)) q ≡ q
others_kept n lo hi [] lt h = refl
others_kept n lo hi (e ∷ q) lt h =
    ground (arith, others_kept n (suc e.seq) hi q (omega (arith, h.0, lt)) h.1, h.0, lt)

IsNumbered-push_last :
    (lo hi : ℕ) (x : Queued) (q : List Queued) (e : Queued)
    → IsNumbered lo (x ∷ q) hi
    → hi < 2 ^ 64
    → e.seq ≡ next_of (last? (x ∷ q))
    → IsNumbered lo ((x ∷ q) ++ e ∷ []) (suc hi)
IsNumbered-push_last lo hi x [] e h fits s =
    (h.0, (omega (arith, s, h.1, fits), omega (arith, s, h.1, fits)))
IsNumbered-push_last lo hi x (y ∷ q) e h fits s =
    (h.0, IsNumbered-push_last (suc x.seq) hi y q e h.1 fits s)

-- In a queue in the order of its numbers, all below 2 ^ 64, a write is queued at the end, under a
-- number above those of all writes before it.
pub push-IsNumbered :
    (verb : String) (args : Args) (local_ids : List String) (now : Instant) (f : ReplicaFile)
    (q : List Queued) (hi : ℕ)
    → IsNumbered 1 q hi
    → hi < 2 ^ 64
    → (e : Queued) × (push verb args local_ids now f q ≡ q ++ e ∷ [])
      × IsNumbered 1 (push verb args local_ids now f q) (suc hi)
unfolding push
push-IsNumbered verb args local_ids now f [] hi h fits = (_, refl, (omega arith, omega (arith, h)))
push-IsNumbered verb args local_ids now f (x ∷ q) hi h fits =
    (_, refl, IsNumbered-push_last 1 hi x q _ h fits refl)

module _ (db : TableApi) (io : TableName → String → Io) where
  -- For a queue in the order of its numbers, whatever the primary answers and wherever it stops
  -- answering: the replay settles the queue from its front, at most one entry per turn, what is
  -- left is the rest of it in its order, and it says that it came to the end only if nothing is
  -- left.
  pub replay_loop-suffix :
      (ups : List Upstream) (q : List Queued) (n : Node db) (lo hi : ℕ)
      → IsNumbered lo q hi
      → let (ok, rest, after) = replay_loop db io ups q n in
        (settled : List Queued) × (settled ++ rest ≡ q)
        × (length settled ≤ length ups)
        × ((ok ≡ false) ⊎ (rest ≡ []))
  unfolding replay_loop
  replay_loop-suffix ups [] n lo hi h = ([], refl, omega arith, inr refl)
  replay_loop-suffix [] (e ∷ q) n lo hi h = ([], refl, omega arith, inl refl)
  replay_loop-suffix (up ∷ ups) (e ∷ q) n lo hi h = elim (Bool-cases (replay_one db io up e n).0) [
    | inr stopped ↦ rw stopped ([], refl, omega arith, inl refl)
    | inl ok ↦
        let left : keep (λ (x : Queued). not (eqb x.seq e.seq)) (e ∷ q) ≡ q =
          ground (arith, others_kept e.seq (suc e.seq) hi q (omega arith) h.1) in
        let (settled, whole, turns, ended) =
          replay_loop-suffix ups q (replay_one db io up e n).1 (suc e.seq) hi h.1 in
        rw ok (
          subst
            (λ l.
              let (ok', rest, after) = replay_loop db io ups l (replay_one db io up e n).1 in
              (settled : List Queued) × (settled ++ rest ≡ e ∷ q)
              × (length settled ≤ suc (length ups))
              × ((ok' ≡ false) ⊎ (rest ≡ [])))
            (sym left) (e ∷ settled, ap (λ l. e ∷ l) whole, omega (arith, turns), ended))
  ]
