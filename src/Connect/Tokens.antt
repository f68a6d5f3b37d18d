-- ===== src/Connect/Tokens.antt =====
-- A token goes out once, and a request is decided once.
use linggen_memory.Prelude.{
  String, ◌==◌, eq_iff, eq_refl, ◌≡◌, ◌∙◌, refl, sym, ap, ◌⊎◌, inl, inr, subst, Bool, Bool-cases,
  true, false, Option, none, some, List, [], ◌∷◌, arith, if◌then◌else◌, All, lookup, insert, filter,
  is_some, lookup-insert, lookup-retain, IsMap, insert-IsMap, retain-IsMap, leb, length,
}
use linggen_memory.Types.{Instant}
use linggen_memory.Local.{IpAddr}
use linggen_memory.Connect.{
  Broker, Pending, Outcome, Status, admit, open_request, take, allow, deny, status, status_on,
  is_kept, is_the, is_live, take_on, recent, hits_of, rate_max,
}

-- The broker's operations, as its callers interleave them.
pub data Op : Type 0 where
  admitted : IpAddr → Instant → Op
  opened : (id device_name device_id : String) → IpAddr → Instant → Op
  taken : String → Instant → Op
  allowed : (id token : String) → Instant → Op
  denied : String → Instant → Op
  polled : String → Instant → Op

-- The broker after an operation, and the answer if it was a poll.
unfoldable pub perform : Op → Broker → Option Status × Broker
perform (admitted ip now) b = (none, (admit ip now b).1)
perform (opened id n d ip now) b = (none, (open_request id n d ip now b).1)
perform (taken id now) b = (none, (take id now b).1)
perform (allowed id token now) b = (none, allow id token now b)
perform (denied id now) b = (none, deny id now b)
perform (polled id now) b = (some (status id now b).0, (status id now b).1)

unfoldable pub run : List Op → Broker → List (Op × Option Status) × Broker
run [] b = ([], b)
run (o ∷ os) b = let (rest, b') = run os (perform o b).1 in ((o, (perform o b).0) ∷ rest, b')

abbrev pub token_of : Option (Outcome × Instant) → Option String
token_of none = none
token_of (some (Outcome.allowed t, at)) = t
token_of (some (Outcome.denied, at)) = none

-- The token that waits to be asked for.
abbrev pub token_for : String → Broker → Option String
token_for id b = token_of (lookup id b.outcomes)

-- Not a second decision to allow the same request.
abbrev pub is_allowing : String → Op → Bool
is_allowing id (allowed j token now) = j == id
is_allowing id _ = false

-- The answer to a poll of `id` that carries a token.
abbrev pub hands_out : String → Op × Option Status → Bool
hands_out id (polled j now, some (Status.allowed (some t))) = j == id
hands_out id _ = false

module _ (id : String) where
  -- No token waits for the request after an operation, and the operation has handed none out.
  abbrev IsSpent : Op → Option Status × Broker → Type 0
  IsSpent o (answer, b) =
      IsMap b.outcomes × (token_for id b ≡ none) × (hands_out id (o, answer) ≡ false)

  token_of-filter :
      (now : Instant) (o : Option (Outcome × Instant))
      → token_of o ≡ none
      → token_of (filter (is_kept now) o) ≡ none
  token_of-filter now none h = refl
  token_of-filter now (some (Outcome.allowed t, at)) h = ground (arith, h)
  token_of-filter now (some (Outcome.denied, at)) h = ground arith

  token_of-choice :
      (t : Bool) (o p : Option (Outcome × Instant))
      → (t ≡ false) ⊎ (token_of o ≡ none)
      → token_of p ≡ none
      → token_of (if t then o else p) ≡ none
  token_of-choice true o p (inl e) k = absurd (cc)
  token_of-choice true o p (inr h) k = h
  token_of-choice false o p h k = k

  -- An outcome without a token for `id` is set.
  token_for-insert :
      (j : String) (x : Outcome × Instant) (b : Broker)
      → ((j == id) ≡ false) ⊎ (token_of (some x) ≡ none)
      → token_for id b ≡ none
      → token_of (lookup id (insert j x b.outcomes)) ≡ none
  token_for-insert j x b h k =
      ap token_of (lookup-insert j id x b.outcomes)
      ∙ token_of-choice (j == id) (some x) (lookup id b.outcomes) h k

  admitted-IsSpent :
      (ip : IpAddr) (now : Instant) (b : Broker)
      → IsMap b.outcomes
      → token_for id b ≡ none
      → IsSpent (admitted ip now) (perform (admitted ip now) b)
  unfolding perform admit
  admitted-IsSpent ip now b m h =
      elim (Bool-cases (leb rate_max (length (recent now (hits_of ip b))))) [
        | inl e ↦ rw e (m, h, refl)
        | inr e ↦ rw e (m, h, refl)
      ]

  opened-IsSpent :
      (j n d : String) (ip : IpAddr) (now : Instant) (b : Broker)
      → IsMap b.outcomes
      → token_for id b ≡ none
      → IsSpent (opened j n d ip now) (perform (opened j n d ip now) b)
  unfolding perform open_request
  opened-IsSpent j n d ip now b m h = (
    retain-IsMap (is_kept now) b.outcomes m,
    ap token_of (lookup-retain (is_kept now) id b.outcomes m)
        ∙ token_of-filter now (lookup id b.outcomes) h,
    refl,
  )

  taken-IsSpent :
      (j : String) (now : Instant) (b : Broker)
      → IsMap b.outcomes
      → token_for id b ≡ none
      → IsSpent (taken j now) (perform (taken j now) b)
  unfolding perform take
  taken-IsSpent j now b m h = by_pending (filter (is_the j now) b.pending)
    where
      by_pending : (o : Option Pending) → IsSpent (taken j now) (none, (take_on o b).1)
      by_pending none = (m, h, refl)
      by_pending (some p) = (m, h, refl)

  polled-IsSpent :
      (j : String) (now : Instant) (b : Broker)
      → IsMap b.outcomes
      → token_for id b ≡ none
      → IsSpent (polled j now) (perform (polled j now) b)
  unfolding perform status
  polled-IsSpent j now b m h = by_outcome (lookup j b.outcomes) refl
    where
      other_request :
          (t : String) {at : Instant}
          → lookup j b.outcomes ≡ some (Outcome.allowed (some t), at)
          → (j == id) ≡ false
      other_request t e = elim (Bool-cases (j == id)) [
        | inl same ↦
            let waits : ◌≡◌ {A = Option String} (some t) none =
              ap token_of (sym e) ∙ ap (λ k. token_for k b) ((eq_iff j id).0 same) ∙ h in
            absurd (cc)
        | inr differs ↦ differs
      ]

      by_outcome :
          (o : Option (Outcome × Instant))
          → lookup j b.outcomes ≡ o
          → IsSpent (polled j now) (some (status_on o j now b).0, (status_on o j now b).1)
      by_outcome none e = elim (Bool-cases (is_some (filter (is_the j now) b.pending))) [
        | inl w ↦ rw w (m, h, refl)
        | inr w ↦ rw w (m, h, refl)
      ]
      by_outcome (some (Outcome.denied, at)) e = (m, h, refl)
      by_outcome (some (Outcome.allowed none, at)) e = (
        insert-IsMap j (Outcome.allowed none, at) b.outcomes m,
        token_for-insert j (Outcome.allowed none, at) b (inr refl) h,
        refl,
      )
      by_outcome (some (Outcome.allowed (some t), at)) e = (
        insert-IsMap j (Outcome.allowed none, at) b.outcomes m,
        token_for-insert j (Outcome.allowed none, at) b (inr refl) h,
        other_request t e,
      )

  -- An operation that is not a decision to allow the request leaves it spent.
  perform-IsSpent :
      (o : Op) (b : Broker)
      → is_allowing id o ≡ false
      → IsMap b.outcomes
      → token_for id b ≡ none
      → IsSpent o (perform o b)
  unfolding perform allow deny
  perform-IsSpent (admitted ip now) b a m h = admitted-IsSpent ip now b m h
  perform-IsSpent (opened j n d ip now) b a m h = opened-IsSpent j n d ip now b m h
  perform-IsSpent (taken j now) b a m h = taken-IsSpent j now b m h
  perform-IsSpent (polled j now) b a m h = polled-IsSpent j now b m h
  perform-IsSpent (allowed j token now) b a m h = (
    insert-IsMap j (Outcome.allowed (some token), now) b.outcomes m,
    token_for-insert j (Outcome.allowed (some token), now) b (inl a) h,
    refl,
  )
  perform-IsSpent (denied j now) b a m h = (
    insert-IsMap j (Outcome.denied, now) b.outcomes m,
    token_for-insert j (Outcome.denied, now) b (inr refl) h,
    refl,
  )

  run-IsSpent :
      (os : List Op) (b : Broker)
      → All (λ o. is_allowing id o ≡ false) os
      → IsMap b.outcomes
      → token_for id b ≡ none
      → All (λ a. hands_out id a ≡ false) (run os b).0
  unfolding run
  run-IsSpent [] b as' m h = tt
  run-IsSpent (o ∷ os) b as' m h =
      let (m', h', quiet) = perform-IsSpent o b as'.0 m h in
      (quiet, run-IsSpent os (perform o b).1 as'.1 m' h')

  status_spends :
      (now : Instant) (b : Broker)
      → IsMap b.outcomes
      → IsMap (status id now b).1.outcomes × (token_for id (status id now b).1 ≡ none)
  unfolding status
  status_spends now b m = by_outcome (lookup id b.outcomes) refl
    where
      by_outcome :
          (o : Option (Outcome × Instant))
          → lookup id b.outcomes ≡ o
          → IsMap (status_on o id now b).1.outcomes × (token_for id (status_on o id now b).1 ≡ none)
      by_outcome none e = (m, ap token_of e)
      by_outcome (some (Outcome.denied, at)) e = (m, ap token_of e)
      by_outcome (some (Outcome.allowed t, at)) e = (
        insert-IsMap id (Outcome.allowed none, at) b.outcomes m,
        ap token_of (lookup-insert id id (Outcome.allowed none, at) b.outcomes)
            ∙ ground (arith, eq_refl id),
      )

  -- Once a request has been polled, and unless it is allowed once more, no later poll of it carries
  -- a token, whatever requests are opened, taken, decided or polled meanwhile. The outcomes hold
  -- each request once.
  pub status_once :
      (now : Instant) (b : Broker) (os : List Op)
      → IsMap b.outcomes
      → All (λ o. is_allowing id o ≡ false) os
      → All (λ a. hands_out id a ≡ false) (run os (status id now b).1).0
  status_once now b os m as' =
      let (m', h') = status_spends now b m in run-IsSpent os (status id now b).1 as' m' h'

  take_pending :
      (now : Instant) (b : Broker) (p : Pending)
      → (take id now b).0 ≡ some p
      → (filter (is_the id now) b.pending ≡ some p)
        × ((take id now b).1 ≡ record b { pending = none })
  unfolding take
  take_pending now b p h = by_pending (filter (is_the id now) b.pending) h
    where
      by_pending :
          (o : Option Pending)
          → (take_on o b).0 ≡ some p
          → (o ≡ some p) × ((take_on o b).1 ≡ record b { pending = none })
      by_pending none e = absurd (cc)
      by_pending (some q) e = (e, refl)

  passes_test :
      (now : Instant) (o : Option Pending) (p : Pending)
      → filter (is_the id now) o ≡ some p
      → is_the id now p ≡ true
  passes_test now none p h = absurd (cc)
  passes_test now (some q) p h = elim (Bool-cases (is_the id now q)) [
    | inl e ↦ subst (λ r. is_the id now r ≡ true) (ground (arith, h, e)) e
    | inr e ↦ absurd (ground (arith, h, e))
  ]

  -- A request that is taken to be decided has the id asked for and is live, and it is off the table:
  -- no second decision takes a request until another is opened.
  pub take_once :
      (now : Instant) (b : Broker) (p : Pending)
      → (take id now b).0 ≡ some p
      → ((p.id == id) ≡ true)
        × (is_live p now ≡ true)
        × ((j : String) (t : Instant) → (take j t (take id now b).1).0 ≡ none)
  unfolding take
  take_once now b p h =
      let (found, gone) = take_pending now b p h in
      let passed = passes_test now b.pending p found in
      (ground (arith, passed), ground (arith, passed), λ j t. ap (λ c. (take j t c).0) gone)

  -- Between the moment a request is taken and the moment its outcome is set, a poll of it is told
  -- that it expired.
  pub status-take :
      (now t : Instant) (b : Broker) (p : Pending)
      → (take id now b).0 ≡ some p
      → lookup id b.outcomes ≡ none
      → (status id t (take id now b).1).0 ≡ Status.expired
  unfolding status
  status-take now t b p h none_yet =
      let (found, gone) = take_pending now b p h in
      ap (λ c. (status id t c).0) gone
      ∙ ap (λ o. (status_on o id t (record b { pending = none })).0) none_yet
