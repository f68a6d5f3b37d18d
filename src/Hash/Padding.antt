-- ===== src/Hash/Padding.antt =====
-- The padding of a finished message, and the digest against one pass over the whole message.
use linggen_memory.Prelude.{
  ℕ, zero, suc, ◌+◌, ◌-◌, ◌*◌, ◌/◌, ◌%◌, ◌<◌, ◌≡◌, refl, sym, ap, ◌∙◌, subst, inl, inr, List, [],
  ◌∷◌, ◌++◌, append_assoc, append-nil, arith, eqb, eqb_iff, Bool-cases, length, take, drop,
  replicate, length-append, length-take, ◌^◌, ◌&&◌, Bool, true, false, any, leb, ltb,
}
use linggen_memory.Hash.{
  u64_mod, Words, Sha256, initial, round_constants, new, update, pad_zeros, be_bytes, digest_bytes,
  finalize,
}
use linggen_memory.Hash.Streaming.{
  flat, fold, AreBlocks, Absorbed, Holds, Holds-update, new-Holds, all_compressed, take-append_all,
  drop-append_all, length-flat,
}

-- One pass over a whole message, with the compression of the code: a one bit, zeros, and the message's length in
-- bits, up to a multiple of 64 bytes; then the compressions of the blocks in order.
abbrev zeros : List ℕ → List ℕ
zeros m = replicate ((119 - length m % 64) % 64) 0

abbrev padded : List ℕ → List ℕ
padded m = ((m ++ 0x80 ∷ []) ++ zeros m) ++ be_bytes 8 (8 * length m % u64_mod) []

abbrev blocks_of : ℕ → List ℕ → List (List ℕ)
blocks_of zero m = []
blocks_of (suc n) m = take 64 m ∷ blocks_of n (drop 64 m)

abbrev pub one_pass : List ℕ → List ℕ
one_pass m = let p = padded m in digest_bytes (fold initial (blocks_of (length p / 64) p))

blocks_of-flat :
    (n : ℕ) (bs : List (List ℕ)) → AreBlocks bs → length bs ≡ n → blocks_of n (flat bs) ≡ bs
blocks_of-flat zero [] w e = refl
blocks_of-flat zero (b ∷ bs) w e = absurd (omega arith)
blocks_of-flat (suc n) [] w e = absurd (omega arith)
blocks_of-flat (suc n) (b ∷ bs) w e =
    rw (take-append_all 64 b (flat bs) w.0, drop-append_all 64 b (flat bs) w.0)
      (ap (λ l. b ∷ l) (blocks_of-flat n bs w.1 (omega arith)))

length-be_bytes : (n x : ℕ) (acc : List ℕ) → length (be_bytes n x acc) ≡ n + length acc
unfolding be_bytes
length-be_bytes zero x acc = omega arith
length-be_bytes (suc n) x acc = omega (arith, length-be_bytes n (x / 256) (x % 256 ∷ acc))

length-Absorbed :
    {v : Words} {buf : List ℕ} {n : ℕ} {m : List ℕ} (a : Absorbed v buf n m)
    → length m ≡ 64 * length a.blocks + n
length-Absorbed {buf = buf} {n = n} a =
    ap length a.message
    ∙ omega (
      arith,
      length-append (flat a.blocks) (take n buf),
      length-flat a.blocks a.whole,
      length-take n buf,
      a.sized,
      a.room,
    )

pad_zeros-Holds :
    (k n : ℕ) (s : Sha256) (m : List ℕ)
    → k < n
    → k ≡ (120 - s.buf_len) % 64
    → Holds s m
    → Holds (pad_zeros n s) (m ++ replicate k 0) × ((pad_zeros n s).buf_len ≡ 56)
unfolding pad_zeros
pad_zeros-Holds k zero s m lt e h = absurd (omega arith)
pad_zeros-Holds zero (suc n) s m lt e h =
    let full : s.buf_len ≡ 56 = omega (arith, h.absorbed.room) in
    rw ((eqb_iff s.buf_len 56).1 full) (subst (Holds s) (sym (append-nil m)) h, full)
pad_zeros-Holds (suc k) (suc n) s m lt e h =
    let h' = Holds-update s (0 ∷ []) m h in
    let before = length-Absorbed h.absorbed in
    let after = length-Absorbed h'.absorbed in
    let (held, full) =
      pad_zeros-Holds k n (update s (0 ∷ [])) (m ++ 0 ∷ []) (omega arith)
        (omega (arith, before, after, length-append m (0 ∷ []), h.absorbed.room, h'.absorbed.room))
        h' in
    elim (Bool-cases (eqb s.buf_len 56)) [
      | inl done ↦ absurd (omega (arith, (eqb_iff s.buf_len 56).0 done))
      | inr more ↦ rw more (
        subst (Holds (pad_zeros n (update s (0 ∷ [])))) (append_assoc m (0 ∷ []) (replicate k 0))
            held,
        full,
      )
    ]

finalize-Holds : (s : Sha256) (m : List ℕ) → Holds s m → finalize s ≡ one_pass m
unfolding finalize
finalize-Holds s m h =
    let h1 = Holds-update s (0x80 ∷ []) m h in
    let (h2, full) =
      pad_zeros-Holds ((119 - length m % 64) % 64) 64 (update s (0x80 ∷ [])) (m ++ 0x80 ∷ [])
        (omega arith)
        (omega (arith, length-Absorbed h1.absorbed, length-append m (0x80 ∷ []), h1.absorbed.room))
        h1 in
    let size = be_bytes 8 (s.total_len * 8 % u64_mod) [] in
    let s2 = pad_zeros 64 (update s (0x80 ∷ [])) in
    let m2 = (m ++ 0x80 ∷ []) ++ zeros m in
    let h3 = Holds-update s2 size m2 h2 in
    let same : s.total_len * 8 % u64_mod ≡ 8 * length m % u64_mod = omega (arith, h.counted) in
    let empty : (update s2 size).buf_len ≡ 0 = omega (
      arith,
      length-Absorbed h2.absorbed,
      length-Absorbed h3.absorbed,
      full,
      length-append m2 size,
      length-be_bytes 8 (s.total_len * 8 % u64_mod) [],
      h3.absorbed.room,
    ) in
    ap digest_bytes (
      h3.absorbed.compressed
      ∙ ap (fold initial) (sym (blocks_of_padded (update s2 size) (m2 ++ size) h3.absorbed empty))
      ∙ ap (λ b. fold initial (blocks_of (length (m2 ++ b) / 64) (m2 ++ b)))
          (ap (λ x. be_bytes 8 x []) same))
  where
    blocks_of_padded :
        (t : Sha256) (p : List ℕ) (a : Absorbed t.state t.buf t.buf_len p)
        → t.buf_len ≡ 0
        → blocks_of (length p / 64) p ≡ a.blocks
    blocks_of_padded t p a empty = rw (all_compressed a empty) (
        blocks_of-flat (length (flat a.blocks) / 64) a.blocks a.whole
          (omega (arith, length-flat a.blocks a.whole)))

-- The calls of `update` with the pieces of a message, in order.
abbrev pub feed : Sha256 → List (List ℕ) → Sha256
feed s [] = s
feed s (p ∷ ps) = feed (update s p) ps

feed-Holds :
    (ps : List (List ℕ)) (s : Sha256) (m : List ℕ) → Holds s m → Holds (feed s ps) (m ++ flat ps)
feed-Holds [] s m h = subst (Holds s) (sym (append-nil m)) h
feed-Holds (p ∷ ps) s m h =
    subst (Holds (feed (update s p) ps)) (append_assoc m p (flat ps))
      (feed-Holds ps (update s p) (m ++ p) (Holds-update s p m h))

abbrev pub primes : List ℕ
primes =
    2 ∷ 3 ∷ 5 ∷ 7 ∷ 11 ∷ 13 ∷ 17 ∷ 19 ∷ 23 ∷ 29 ∷ 31 ∷ 37 ∷ 41 ∷ 43 ∷ 47 ∷ 53 ∷ 59 ∷ 61 ∷ 67 ∷ 71
    ∷ 73 ∷ 79 ∷ 83 ∷ 89 ∷ 97 ∷ 101 ∷ 103 ∷ 107 ∷ 109 ∷ 113 ∷ 127 ∷ 131 ∷ 137 ∷ 139 ∷ 149 ∷ 151 ∷ 157
    ∷ 163 ∷ 167 ∷ 173 ∷ 179 ∷ 181 ∷ 191 ∷ 193 ∷ 197 ∷ 199 ∷ 211 ∷ 223 ∷ 227 ∷ 229 ∷ 233 ∷ 239 ∷ 241
    ∷ 251 ∷ 257 ∷ 263 ∷ 269 ∷ 271 ∷ 277 ∷ 281 ∷ 283 ∷ 293 ∷ 307 ∷ 311 ∷ []

-- `w` is the first 32 bits of the fraction of the `k`-th root of `p`, whose whole part is below 7.
abbrev is_root_of : ℕ → ℕ → ℕ → Bool
is_root_of k p w =
    any
      (λ n.
        leb ((n * 2 ^ 32 + w) ^ k) (p * 2 ^ (32 * k))
        && ltb (p * 2 ^ (32 * k)) ((n * 2 ^ 32 + w + 1) ^ k))
      (1 ∷ 2 ∷ 3 ∷ 4 ∷ 5 ∷ 6 ∷ [])

abbrev pub are_roots : ℕ → List ℕ → List ℕ → Bool
are_roots k ps [] = true
are_roots k [] (w ∷ ws) = false
are_roots k (p ∷ ps) (w ∷ ws) = is_root_of k p w && are_roots k ps ws

abbrev pub words_in : Words → List ℕ
words_in w = w.a ∷ w.b ∷ w.c ∷ w.d ∷ w.e ∷ w.f ∷ w.g ∷ w.h ∷ []

-- Whatever the pieces in which a message is fed to a fresh hasher, empty ones and ones that cross
-- the ends of blocks included: the digest is that of one pass of the same compression over the
-- whole message, padded with a one bit, zeros and its length in bits modulo 2 ^ 64 to full blocks,
-- so that the padding loop ends within its 64 turns. The state that a fresh hasher begins with and
-- the 64 constants of the rounds are the first 32 bits of the fractions of the square and of the cube
-- roots of the first primes, in order.
pub finalize-feed :
    (ps : List (List ℕ))
    → (finalize (feed new ps) ≡ one_pass (flat ps))
      × (are_roots 2 primes (words_in new.state) ≡ true)
      × (are_roots 3 primes round_constants ≡ true)
      × (length round_constants ≡ 64)
unfolding new
finalize-feed ps =
    (finalize-Holds (feed new ps) (flat ps) (feed-Holds ps new [] new-Holds), refl, refl, refl)
