-- ===== src/Replica/Link.antt =====
-- How a replica is linked to its primary, asks again, and lets go (src/replica/link.rs).
use linggen_memory.Prelude.{
  String, ◌≡◌, refl, true, false, Option, none, some, is_some, Bool-cases, inl, inr, arith, ◌⊎◌,
  ◌||◌, if◌then◌else◌,
}
use linggen_memory.Replica
use linggen_memory.Replica.{
  ReplicaFile, Reply, default, ask, asked, named, settle, finish, become_primary, upstream, pair_of,
  map_url, upstream_url, role, is_text, taken_error, view,
}

-- The clock and the network as far as the file shows them: what can happen to it.
pub data LinkStep : ReplicaFile → ReplicaFile → Type 0 where
  asking :
      (f : ReplicaFile) (new_id address : String) (reply : Option String)
      → LinkStep f (ask new_id address reply f)
  settled : (f : ReplicaFile) (rid : String) (reply : Reply) → LinkStep f (settle rid reply f).0
  timed_out :
      (f : ReplicaFile) (rid : String)
      → LinkStep f (finish rid none (some "no answer on the primary in time") f)
  let_go : (f : ReplicaFile) → LinkStep f (become_primary f)

pub data LinkReach : ReplicaFile → Type 0 where
  fresh_file : LinkReach default
  and_then : {f g : ReplicaFile} → LinkReach f → LinkStep f g → LinkReach g

-- A token or an open request only with a primary to use it at.
pub record IsLinked (f : ReplicaFile) : Type 0 where
  pub token_has : is_some f.token ≡ true → is_some f.primary ≡ true
  pub request_has : is_some f.request_id ≡ true → is_some f.primary ≡ true

kept : (t u : Option String) → is_some (if is_some t then t else u) ≡ (is_some t || is_some u)
kept none u = refl
kept (some t) u = refl

-- A decision on a request that is not the open one changes nothing. One on the open request closes
-- it and notes the error; it takes the token that it is given and keeps the old one if there is
-- none, and leaves the primary, the cursor and the device as they are.
pub finish_lem :
    (rid : String) (token error : Option String) (f : ReplicaFile)
    → let g = finish rid token error f in
      ((is_text f.request_id rid ≡ false) × (g ≡ f))
      ⊎ ((is_text f.request_id rid ≡ true)
          × (g.request_id ≡ none)
          × (g.error ≡ error)
          × (is_some g.token ≡ (is_some token || is_some f.token))
          × (g.primary ≡ f.primary)
          × (g.cursor ≡ f.cursor)
          × (g.device_id ≡ f.device_id))
unfolding finish
finish_lem rid token error f = elim (Bool-cases (is_text f.request_id rid)) [
  | inl e ↦ rw e (inr (refl, refl, refl, kept token f.token, refl, refl, refl))
  | inr e ↦ rw e (inl (refl, refl))
]

is_text-is_some : (t : Option String) (s : String) → is_text t s ≡ true → is_some t ≡ true
is_text-is_some none s h = absurd (ground (arith, h))
is_text-is_some (some t) s h = refl

finish-IsLinked :
    (rid : String) (token error : Option String) (f : ReplicaFile)
    → IsLinked f
    → IsLinked (finish rid token error f)
unfolding finish
finish-IsLinked rid token error f h = elim (Bool-cases (is_text f.request_id rid)) [
  | inl e ↦
      let linked : is_some f.primary ≡ true = h.request_has (is_text-is_some f.request_id rid e) in
      rw e (record { token_has = λ t. linked; request_has = λ t. linked })
  | inr e ↦ rw e h
]

settle-IsLinked :
    (rid : String) (reply : Reply) (f : ReplicaFile) → IsLinked f → IsLinked (settle rid reply f).0
unfolding settle
settle-IsLinked rid reply f h = elim (Bool-cases (is_text reply.state "allowed")) [
  | inl e ↦ rw e (finish-IsLinked rid reply.device_token (taken_error reply.device_token) f h)
  | inr e ↦ elim (Bool-cases (is_text reply.state "denied")) [
    | inl d ↦ rw e (rw d (finish-IsLinked rid none (some "denied on the primary") f h))
    | inr d ↦ elim (Bool-cases (is_text reply.state "expired")) [
      | inl x ↦ rw e (rw d (rw x (finish-IsLinked rid none (some "the request expired") f h)))
      | inr x ↦ rw e (rw d (rw x h))
    ]
  ]
]

named-IsLinked : (new_id : String) (f : ReplicaFile) → IsLinked f → IsLinked (named new_id f)
unfolding named
named-IsLinked new_id f h = elim (Bool-cases (is_some f.device_id)) [
  | inl e ↦ rw e h
  | inr e ↦ rw e (record { token_has = h.token_has; request_has = h.request_has })
]

LinkStep-IsLinked : {f g : ReplicaFile} → LinkStep f g → IsLinked f → IsLinked g
unfolding ask asked become_primary
LinkStep-IsLinked (asking f new_id address none) h = named-IsLinked new_id f h
LinkStep-IsLinked (asking f new_id address (some rid)) h = record {
  token_has = λ t. refl;
  request_has = λ t. refl;
}
LinkStep-IsLinked (settled f rid reply) h = settle-IsLinked rid reply f h
LinkStep-IsLinked (timed_out f rid) h =
    finish-IsLinked rid none (some "no answer on the primary in time") f h
LinkStep-IsLinked (let_go f) h = record {
  token_has = λ t. absurd (ground (arith, t));
  request_has = λ t. absurd (ground (arith, t));
}

reach-IsLinked : {f : ReplicaFile} → LinkReach f → IsLinked f
unfolding default
reach-IsLinked fresh_file = record {
  token_has = λ t. absurd (ground (arith, t));
  request_has = λ t. absurd (ground (arith, t));
}
reach-IsLinked (and_then r s) = LinkStep-IsLinked s (reach-IsLinked r)

pair_of_lem :
    (p t : Option String)
    → (is_some t ≡ true → is_some p ≡ true)
    → is_some (pair_of (map_url p) t) ≡ is_some t
pair_of_lem none none h = refl
pair_of_lem none (some t) h = h refl
pair_of_lem (some p) none h = refl
pair_of_lem (some p) (some t) h = refl

IsLinked-upstream :
    (f : ReplicaFile)
    → IsLinked f
    → (is_some (upstream f) ≡ is_some f.token)
      × ((role f ≡ Replica.replica) ⊎ ((is_some f.token ≡ false) × (is_some f.request_id ≡ false)))
unfolding upstream upstream_url role
IsLinked-upstream f h = (
  pair_of_lem f.primary f.token h.token_has,
  elim (Bool-cases (is_some f.primary)) [
    | inl linked ↦ rw linked (inl refl)
    | inr out ↦ inr (ground (arith, out, h.token_has), ground (arith, out, h.request_has))
  ],
)

-- Whatever requests were opened, decided, replaced, timed out or given up: a daemon has a working
-- upstream exactly when it holds a token, and a daemon that is not a replica has neither a token
-- nor an open request.
pub LinkReach-upstream :
    {f : ReplicaFile}
    → LinkReach f
    → (is_some (upstream f) ≡ is_some f.token)
      × ((role f ≡ Replica.replica) ⊎ ((is_some f.token ≡ false) × (is_some f.request_id ≡ false)))
LinkReach-upstream {f} r = IsLinked-upstream f (reach-IsLinked r)
