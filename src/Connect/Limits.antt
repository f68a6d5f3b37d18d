-- ===== src/Connect/Limits.antt =====
-- The limit on how many requests an address opens per window.
use linggen_memory.Prelude.{
  ◌-◌, ◌≤◌, ◌<◌, ◌==◌, eq_iff, eq_refl, ◌≡◌, ◌∙◌, refl, sym, ap, subst, Bool-cases, inl, inr, false,
  ◌&&◌, some, List, [], ◌∷◌, ◌++◌, arith, append_assoc, append-nil, if◌then◌else◌, length,
  length-append, length-keep, keep-append, ltb, leb, or_else, lookup, insert, lookup-insert,
}
use linggen_memory.Types.{Instant}
use linggen_memory.Local.{IpAddr}
use linggen_memory.Connect.{Broker, admit, recent, hits_of, rate_max, rate_window}

-- Attempts in the order of their times, none before `t` and none after `last`.
abbrev pub IsOrdered : Instant → List (IpAddr × Instant) → Instant → Type 0
IsOrdered t [] last = t ≤ last
IsOrdered t ((ip, now) ∷ rs) last = (t ≤ now) × IsOrdered now rs last

-- The times at which an address was admitted.
unfoldable pub admitted_times : IpAddr → List (IpAddr × Instant) → Broker → List Instant
admitted_times ip [] b = []
admitted_times ip ((j, now) ∷ rs) b =
    let rest = admitted_times ip rs (admit j now b).1 in
    if j == ip && (admit j now b).0 then now ∷ rest else rest

-- What an earlier window forgets, a later one forgets too.
recent_later :
    (t now : Instant) (ts : List Instant) → t ≤ now → recent now (recent t ts) ≡ recent now ts
recent_later t now [] le = refl
recent_later t now (x ∷ ts) le = ground (arith, recent_later t now ts le)

recent_now : (now : Instant) → recent now (now ∷ []) ≡ now ∷ []
recent_now now = ground arith

hits_of-admit_other :
    (ip j : IpAddr) (now : Instant) (b : Broker)
    → (j == ip) ≡ false
    → hits_of ip (admit j now b).1 ≡ hits_of ip b
unfolding admit
hits_of-admit_other ip j now b away =
    elim (Bool-cases (leb rate_max (length (recent now (hits_of j b))))) [
      | inl e ↦ rw e (
          ap (λ o. or_else o []) (lookup-insert j ip (recent now (hits_of j b)) b.hits)
          ∙ unset (recent now (hits_of j b)))
      | inr e ↦ rw e (
          ap (λ o. or_else o []) (lookup-insert j ip (recent now (hits_of j b) ++ now ∷ []) b.hits)
          ∙ unset (recent now (hits_of j b) ++ now ∷ []))
    ]
  where
    unset :
        (ts : List Instant)
        → or_else (if j == ip then some ts else lookup ip b.hits) [] ≡ hits_of ip b
    unset ts = rw away refl

-- An attempt: whether it is admitted, and the hits that it leaves.
admit_lem :
    (ip : IpAddr) (now : Instant) (b : Broker)
    → let hits = recent now (hits_of ip b) in
      ((admit ip now b).0 ≡ ltb (length hits) rate_max)
      × (hits_of ip (admit ip now b).1 ≡ (if (admit ip now b).0 then hits ++ now ∷ [] else hits))
unfolding admit
admit_lem ip now b = elim (Bool-cases (leb rate_max (length (recent now (hits_of ip b))))) [
  | inl e ↦ rw e (ground (arith, e), set (recent now (hits_of ip b)))
  | inr e ↦ rw e (ground (arith, e), set (recent now (hits_of ip b) ++ now ∷ []))
]
  where
    set : (ts : List Instant) → or_else (lookup ip (insert ip ts b.hits)) [] ≡ ts
    set ts =
        ap (λ o. or_else o []) (lookup-insert ip ip ts b.hits)
        ∙ ap (λ t. or_else (if t then some ts else lookup ip b.hits) []) (eq_refl ip)

-- The hits that are kept are the admitted times of the window.
record Tracks (now : Instant) (past hits : List Instant) : Type 0 where
  same : recent now past ≡ recent now hits
  few : length (recent now hits) ≤ rate_max

module _ (ip : IpAddr) (last : Instant) where
  Tracks-later :
      (t now : Instant) (past hits : List Instant)
      → t ≤ now
      → Tracks t past hits
      → Tracks now past hits
  Tracks-later t now past hits le k =
      let back = recent_later t now hits le in
      record {
        same = sym (recent_later t now past le) ∙ ap (recent now) k.same ∙ back;
        few = omega (
          arith,
          k.few,
          ap length back,
          length-keep (λ x. ltb (now - x) rate_window) (recent t hits),
        );
      }

  refused-Tracks :
      (now : Instant) (past hits : List Instant)
      → Tracks now past hits
      → Tracks now past (recent now hits)
  refused-Tracks now past hits k =
      let again = recent_later now now hits (omega arith) in
      record { same = k.same ∙ sym again; few = rw again k.few }

  admitted-Tracks :
      (now : Instant) (past hits : List Instant)
      → length (recent now hits) < rate_max
      → Tracks now past hits
      → Tracks now (past ++ now ∷ []) (recent now hits ++ now ∷ [])
  admitted-Tracks now past hits room k =
      let again = recent_later now now hits (omega arith) in
      let grown : recent now (recent now hits ++ now ∷ []) ≡ recent now hits ++ now ∷ [] =
        keep-append (λ x. ltb (now - x) rate_window) (recent now hits) (now ∷ [])
        ∙ ap (λ ts. ts ++ recent now (now ∷ [])) again
        ∙ ap (λ ts. recent now hits ++ ts) (recent_now now) in
      record {
        same =
            keep-append (λ x. ltb (now - x) rate_window) past (now ∷ [])
            ∙ ap (λ ts. ts ++ recent now (now ∷ [])) k.same
            ∙ ap (λ ts. recent now hits ++ ts) (recent_now now)
            ∙ sym grown;
        few = omega (arith, room, ap length grown, length-append (recent now hits) (now ∷ []));
      }

  own_attempt :
      (now : Instant) (past : List Instant) (rs : List (IpAddr × Instant)) (b : Broker)
      → ((past' : List Instant)
          → Tracks now past' (hits_of ip (admit ip now b).1)
          → length (recent last (past' ++ admitted_times ip rs (admit ip now b).1)) ≤ rate_max)
      → Tracks now past (hits_of ip b)
      → length (recent last (past ++ admitted_times ip ((ip, now) ∷ rs) b)) ≤ rate_max
  unfolding admitted_times
  own_attempt now past rs b goes_on before =
      let (verdict, left) = admit_lem ip now b in
      let hits = recent now (hits_of ip b) in
      elim (Bool-cases (admit ip now b).0) [
        | inl in_rate ↦
            rw (eq_refl ip, in_rate)
              (subst (λ ts. length (recent last ts) ≤ rate_max)
                (append_assoc past (now ∷ []) (admitted_times ip rs (admit ip now b).1))
                (goes_on (past ++ now ∷ []) (
                  subst (Tracks now (past ++ now ∷ []))
                    (sym (left ∙ ap (λ t. if t then hits ++ now ∷ [] else hits) in_rate))
                    (admitted-Tracks now past (hits_of ip b) (ground (arith, verdict, in_rate))
                      before))))
        | inr over ↦
            rw (eq_refl ip, over)
              (goes_on past (
                subst (Tracks now past)
                  (sym (left ∙ ap (λ t. if t then hits ++ now ∷ [] else hits) over))
                  (refused-Tracks now past (hits_of ip b) before)))
      ]

  -- Admitted and tracked.
  bounded_from :
      (rs : List (IpAddr × Instant)) (t : Instant) (past : List Instant) (b : Broker)
      → IsOrdered t rs last
      → Tracks t past (hits_of ip b)
      → length (recent last (past ++ admitted_times ip rs b)) ≤ rate_max
  unfolding admitted_times
  bounded_from [] t past b o k =
      let at_last = Tracks-later t last past (hits_of ip b) o k in
      rw append-nil (omega (arith, at_last.few, ap length at_last.same))
  bounded_from ((j, now) ∷ rs) t past b o k =
      let before = Tracks-later t now past (hits_of ip b) o.0 k in
      elim (Bool-cases (j == ip)) [
        | inl own ↦
            subst
              (λ i. length (recent last (past ++ admitted_times ip ((i, now) ∷ rs) b)) ≤ rate_max)
              (sym ((eq_iff j ip).0 own))
              (own_attempt now past rs b
                (λ past' k'. bounded_from rs now past' (admit ip now b).1 o.1 k') before)
        | inr away ↦ rw away (
            bounded_from rs now past (admit j now b).1 o.1
              (subst (Tracks now past) (sym (hits_of-admit_other ip j now b away)) before))
      ]

-- However many attempts an address with no hits yet makes, and whatever others make between them,
-- in the order of time: at the end no more than six of its admitted ones lie within the last
-- window.
pub admitted_times_bounded :
    (ip : IpAddr) (rs : List (IpAddr × Instant)) (last : Instant) (b : Broker)
    → IsOrdered 0 rs last
    → hits_of ip b ≡ []
    → length (recent last (admitted_times ip rs b)) ≤ rate_max
admitted_times_bounded ip rs last b o none_yet =
    bounded_from ip last rs 0 [] b o
      (subst (Tracks 0 []) (sym none_yet) (record { same = refl; few = omega arith }))
