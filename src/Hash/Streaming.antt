-- ===== src/Hash/Streaming.antt =====
-- However a message is cut into the calls of `update`, the digest is that of the message at once.
use linggen_memory.Prelude.{
  ℕ, zero, suc, ◌+◌, ◌-◌, ◌*◌, ◌%◌, ◌≤◌, ◌<◌, min, ◌≡◌, refl, sym, ap, ◌∙◌, subst, ◌⊎◌, inl, inr,
  List, [], ◌∷◌, ◌++◌, append_assoc, append-nil, arith, All, All-append, ltb, leb, eqb, eqb_iff,
  leb→le, Bool-cases, length, take, drop, length-append, length-take, take-append-drop,
}
use linggen_memory.Hash.{
  u64_mod, Words, Sha256, initial, new, compress, copy_at, topped_up, whole_blocks, kept, take_in,
  update,
}

abbrev pub flat : List (List ℕ) → List ℕ
flat [] = []
flat (b ∷ bs) = b ++ flat bs

-- The compressions of whole blocks, in order.
abbrev pub fold : Words → List (List ℕ) → Words
fold v [] = v
fold v (b ∷ bs) = fold (compress v b) bs

abbrev pub AreBlocks : List (List ℕ) → Type 0
AreBlocks = All (λ b. length b ≡ 64)

flat-append : (bs cs : List (List ℕ)) → flat (bs ++ cs) ≡ flat bs ++ flat cs
flat-append [] cs = refl
flat-append (b ∷ bs) cs =
    ap (λ l. b ++ l) (flat-append bs cs) ∙ sym (append_assoc b (flat bs) (flat cs))

fold-append : (v : Words) (bs cs : List (List ℕ)) → fold v (bs ++ cs) ≡ fold (fold v bs) cs
fold-append v [] cs = refl
fold-append v (b ∷ bs) cs = fold-append (compress v b) bs cs

take-append : (xs ys : List ℕ) (n : ℕ) → take (length xs + n) (xs ++ ys) ≡ xs ++ take n ys
take-append [] ys n = ap (λ (k : ℕ). take k ys) (omega arith)
take-append (x ∷ xs) ys n =
    let e : suc (length xs) + n ≡ suc (length xs + n) = omega arith in
    rw e (ap (λ l. x ∷ l) (take-append xs ys n))

take_all : (xs : List ℕ) → take (length xs) xs ≡ xs
take_all [] = refl
take_all (x ∷ xs) = ap (λ l. x ∷ l) (take_all xs)

pub take-append_all : (n : ℕ) (xs ys : List ℕ) → length xs ≡ n → take n (xs ++ ys) ≡ xs
take-append_all zero [] ys e = refl
take-append_all zero (x ∷ xs) ys e = absurd (omega arith)
take-append_all (suc n) [] ys e = absurd (omega arith)
take-append_all (suc n) (x ∷ xs) ys e = ap (λ l. x ∷ l) (take-append_all n xs ys (omega arith))

pub drop-append_all : (n : ℕ) (xs ys : List ℕ) → length xs ≡ n → drop n (xs ++ ys) ≡ ys
drop-append_all zero [] ys e = refl
drop-append_all zero (x ∷ xs) ys e = absurd (omega arith)
drop-append_all (suc n) [] ys e = absurd (omega arith)
drop-append_all (suc n) (x ∷ xs) ys e = drop-append_all n xs ys (omega arith)

pub length-flat : (bs : List (List ℕ)) → AreBlocks bs → length (flat bs) ≡ 64 * length bs
length-flat [] w = omega arith
length-flat (b ∷ bs) w = omega (arith, length-append b (flat bs), length-flat bs w.1, w.0)

length-drop : (n : ℕ) (xs : List ℕ) → length (drop n xs) ≡ length xs - n
length-drop zero xs = omega arith
length-drop (suc n) [] = omega arith
length-drop (suc n) (x ∷ xs) = omega (arith, length-drop n xs)

module _ (at : ℕ) (bytes buf : List ℕ) (fits : at + length bytes ≤ length buf) where
  length-copy_at : length (copy_at at bytes buf) ≡ length buf
  length-copy_at = omega (
    arith,
    length-append (take at buf) (bytes ++ drop (at + length bytes) buf),
    length-append bytes (drop (at + length bytes) buf),
    length-take at buf,
    length-drop (at + length bytes) buf,
  )

  take-copy_at : take (at + length bytes) (copy_at at bytes buf) ≡ take at buf ++ bytes
  take-copy_at =
      let rest = drop (at + length bytes) buf in
      let long : at + length bytes ≡ length (take at buf) + length bytes =
        omega (arith, length-take at buf) in
      let short : length bytes ≡ length bytes + 0 = omega arith in
      ap (λ k. take k (copy_at at bytes buf)) long
      ∙ take-append (take at buf) (bytes ++ rest) (length bytes)
      ∙ ap (λ k. take at buf ++ take k (bytes ++ rest)) short
      ∙ ap (λ l. take at buf ++ l) (take-append bytes rest 0 ∙ append-nil bytes)

take-copy_front :
    (bytes buf : List ℕ)
    → length bytes ≤ length buf
    → take (length bytes) (copy_at 0 bytes buf) ≡ bytes
take-copy_front bytes buf fits =
    let start : length bytes ≡ 0 + length bytes = omega arith in
    ap (λ k. take k (copy_at 0 bytes buf)) start ∙ take-copy_at 0 bytes buf (omega arith)

-- What the words and the buffer hold of a message: its whole blocks are compressed, the rest is at
-- the front of the buffer.
pub record Absorbed (v : Words) (buf : List ℕ) (n : ℕ) (m : List ℕ) : Type 0 where
  pub blocks : List (List ℕ)
  pub whole : AreBlocks blocks
  pub message : m ≡ flat blocks ++ take n buf
  pub compressed : v ≡ fold initial blocks
  pub room : n < 64
  pub sized : length buf ≡ 64

-- The loop over the whole blocks ends, and what it leaves is shorter than a block.
whole_blocks_lem :
    (n : ℕ) (v : Words) (bytes : List ℕ)
    → length bytes ≤ n
    → (bs : List (List ℕ)) × AreBlocks bs
      × (bytes ≡ flat bs ++ (whole_blocks n v bytes).1)
      × ((whole_blocks n v bytes).0 ≡ fold v bs)
      × (length (whole_blocks n v bytes).1 < 64)
unfolding whole_blocks
whole_blocks_lem zero v bytes h = ([], tt, refl, refl, omega arith)
whole_blocks_lem (suc n) v bytes h = elim (Bool-cases (leb 64 (length bytes))) [
  | inl full ↦
      let (bs, whole, parts, folded, short) =
        whole_blocks_lem n (compress v (take 64 bytes)) (drop 64 bytes)
          (omega (arith, length-drop 64 bytes, leb→le 64 (length bytes) full)) in
      rw full (
        take 64 bytes ∷ bs,
        (omega (arith, length-take 64 bytes, leb→le 64 (length bytes) full), whole),
        sym (take-append-drop 64 bytes)
            ∙ ap (λ l. take 64 bytes ++ l) parts
            ∙ sym (append_assoc (take 64 bytes) (flat bs) _),
        folded,
        short,
      )
  | inr part ↦ rw part ([], tt, refl, refl, ground arith)
]

kept_lem :
    (s : Sha256) (v : Words) (bytes m : List ℕ) (bs : List (List ℕ))
    → AreBlocks bs
    → m ≡ flat bs ++ bytes
    → v ≡ fold initial bs
    → length bytes < 64
    → length s.buf ≡ 64
    → s.buf_len ≡ 0
    → Absorbed (kept (v, bytes) s).state (kept (v, bytes) s).buf (kept (v, bytes) s).buf_len m
kept_lem s v [] m bs whole parts folded short sized start = record {
  blocks = bs;
  whole = whole;
  message = rw start parts;
  compressed = folded;
  room = omega arith;
  sized = sized;
}
kept_lem s v (x ∷ bytes) m bs whole parts folded short sized start = record {
  blocks = bs;
  whole = whole;
  message = parts ∙ ap (λ l. flat bs ++ l) (sym (take-copy_front (x ∷ bytes) s.buf (omega arith)));
  compressed = folded;
  room = short;
  sized = length-copy_at 0 (x ∷ bytes) s.buf (omega arith) ∙ sized;
}

pub all_compressed :
    {v : Words} {buf : List ℕ} {n : ℕ} {m : List ℕ} (a : Absorbed v buf n m)
    → n ≡ 0
    → m ≡ flat a.blocks
all_compressed {buf = buf} a start =
    a.message ∙ ap (λ k. flat a.blocks ++ take k buf) start ∙ append-nil (flat a.blocks)

-- From an empty buffer on.
take_in_lem :
    (s : Sha256) (bytes m : List ℕ)
    → s.buf_len ≡ 0
    → Absorbed s.state s.buf s.buf_len m
    → Absorbed (take_in s bytes).state (take_in s bytes).buf (take_in s bytes).buf_len (m ++ bytes)
unfolding take_in
take_in_lem s bytes m start a =
    let (bs, whole, parts, folded, short) =
      whole_blocks_lem (length bytes) s.state bytes (omega arith) in
    kept_lem s (whole_blocks (length bytes) s.state bytes).0
      (whole_blocks (length bytes) s.state bytes).1 (m ++ bytes) (a.blocks ++ bs)
      (All-append _ a.blocks bs a.whole whole)
      (ap (λ l. l ++ bytes) (all_compressed a start)
        ∙ ap (λ l. flat a.blocks ++ l) parts
        ∙ sym (append_assoc (flat a.blocks) (flat bs) _)
        ∙ ap (λ l. l ++ (whole_blocks (length bytes) s.state bytes).1)
            (sym (flat-append a.blocks bs)))
      (folded ∙ ap (λ v. fold v bs) a.compressed ∙ sym (fold-append initial a.blocks bs)) short
      a.sized start

total-kept : (v : Words) (bytes : List ℕ) (s : Sha256) → (kept (v, bytes) s).total_len ≡ s.total_len
total-kept v [] s = refl
total-kept v (x ∷ bytes) s = refl

-- Topping up a buffer that holds something: either it is full, and then empty again, or all bytes
-- are in it.
topped_up_lem :
    (s : Sha256) (bytes m : List ℕ)
    → s.buf_len + length bytes ≤ 64
    → Absorbed s.state s.buf s.buf_len m
    → Absorbed
        (topped_up s bytes).state
        (topped_up s bytes).buf
        (topped_up s bytes).buf_len
        (m ++ bytes)
topped_up_lem s bytes m fits a =
    let held = take-copy_at s.buf_len bytes s.buf (omega (arith, a.sized)) in
    let long = length-copy_at s.buf_len bytes s.buf (omega (arith, a.sized)) ∙ a.sized in
    let joined : m ++ bytes ≡ flat a.blocks ++ (take s.buf_len s.buf ++ bytes) =
      ap (λ l. l ++ bytes) a.message ∙ append_assoc (flat a.blocks) (take s.buf_len s.buf) bytes in
    elim (Bool-cases (eqb (s.buf_len + length bytes) 64)) [
      | inl full ↦ rw full (record {
        blocks = a.blocks ++ copy_at s.buf_len bytes s.buf ∷ [];
        whole = All-append _ a.blocks (copy_at s.buf_len bytes s.buf ∷ []) a.whole (long, tt);
        message =
            joined
            ∙ ap (λ l. flat a.blocks ++ l)
                (sym held
                  ∙ ap (λ k. take k (copy_at s.buf_len bytes s.buf))
                      ((eqb_iff (s.buf_len + length bytes) 64).0 full ∙ sym long)
                  ∙ take_all (copy_at s.buf_len bytes s.buf))
            ∙ sym (
                append-nil (flat (a.blocks ++ copy_at s.buf_len bytes s.buf ∷ []))
                ∙ flat-append a.blocks (copy_at s.buf_len bytes s.buf ∷ [])
                ∙ ap (λ l. flat a.blocks ++ l) (append-nil (copy_at s.buf_len bytes s.buf)));
        compressed =
            ap (λ v. compress v (copy_at s.buf_len bytes s.buf)) a.compressed
            ∙ sym (fold-append initial a.blocks (copy_at s.buf_len bytes s.buf ∷ []));
        room = omega arith;
        sized = long;
      })
      | inr part ↦ rw part (record {
        blocks = a.blocks;
        whole = a.whole;
        message = joined ∙ ap (λ l. flat a.blocks ++ l) (sym held);
        compressed = a.compressed;
        room = ground (arith, part);
        sized = long;
      })
    ]

total-topped_up : (s : Sha256) (bytes : List ℕ) → (topped_up s bytes).total_len ≡ s.total_len
total-topped_up s bytes = ground arith

take_in_rest :
    (t : Sha256) (rest m : List ℕ)
    → ((t.buf_len ≡ 0) ⊎ (rest ≡ []))
    → Absorbed t.state t.buf t.buf_len m
    → Absorbed (take_in t rest).state (take_in t rest).buf (take_in t rest).buf_len (m ++ rest)
unfolding take_in whole_blocks
take_in_rest t rest m (inl start) a = take_in_lem t rest m start a
take_in_rest t rest m (inr none_left) a =
    subst (λ r. Absorbed (take_in t r).state (take_in t r).buf (take_in t r).buf_len (m ++ r))
      (sym none_left) (subst (Absorbed t.state t.buf t.buf_len) (sym (append-nil m)) a)

-- What is left after the topping up waits for an empty buffer.
rest_waits :
    (s : Sha256) (bytes : List ℕ)
    → s.buf_len < 64
    → ((topped_up s (take (min (64 - s.buf_len) (length bytes)) bytes)).buf_len ≡ 0)
      ⊎ (drop (min (64 - s.buf_len) (length bytes)) bytes ≡ [])
rest_waits s bytes room =
    let n = min (64 - s.buf_len) (length bytes) in
    elim (Bool-cases (eqb (s.buf_len + length (take n bytes)) 64)) [
      | inl full ↦ inl (rw full refl)
      | inr part ↦
          inr
            (is_nil (drop n bytes) (ground (arith, part, length-take n bytes, length-drop n bytes)))
    ]
  where
    is_nil : (xs : List ℕ) → length xs ≡ 0 → xs ≡ []
    is_nil [] h = refl
    is_nil (x ∷ xs) h = absurd (omega arith)

-- A state that has taken in a message.
pub record Holds (s : Sha256) (m : List ℕ) : Type 0 where
  pub absorbed : Absorbed s.state s.buf s.buf_len m
  pub counted : s.total_len ≡ length m % u64_mod

Absorbed-update :
    (s0 : Sha256) (bytes m : List ℕ)
    → Absorbed s0.state s0.buf s0.buf_len m
    → Absorbed (update s0 bytes).state (update s0 bytes).buf (update s0 bytes).buf_len (m ++ bytes)
unfolding update
Absorbed-update s0 bytes m a = elim (Bool-cases (ltb 0 s0.buf_len)) [
  | inl some_held ↦
      let s = record s0 { total_len = (s0.total_len + length bytes) % u64_mod } in
      let n = min (64 - s.buf_len) (length bytes) in
      rw some_held (
        subst
          (λ l.
            Absorbed (take_in (topped_up s (take n bytes)) (drop n bytes)).state
              (take_in (topped_up s (take n bytes)) (drop n bytes)).buf
              (take_in (topped_up s (take n bytes)) (drop n bytes)).buf_len l)
          (append_assoc m (take n bytes) (drop n bytes)
            ∙ ap (λ l. m ++ l) (take-append-drop n bytes))
          (take_in_rest (topped_up s (take n bytes)) (drop n bytes) (m ++ take n bytes)
            (rest_waits s bytes a.room)
            (topped_up_lem s (take n bytes) m (omega (arith, length-take n bytes, a.room)) a)))
  | inr empty ↦ rw empty (
      take_in_lem (record s0 { total_len = (s0.total_len + length bytes) % u64_mod }) bytes m
        (ground (arith, empty)) a)
]

total-take_in : (s : Sha256) (bytes : List ℕ) → (take_in s bytes).total_len ≡ s.total_len
unfolding take_in
total-take_in s bytes =
    total-kept (whole_blocks (length bytes) s.state bytes).0
      (whole_blocks (length bytes) s.state bytes).1 s

total-update :
    (s : Sha256) (bytes : List ℕ)
    → (update s bytes).total_len ≡ (s.total_len + length bytes) % u64_mod
unfolding update
total-update s0 bytes = elim (Bool-cases (ltb 0 s0.buf_len)) [
  | inl held ↦
      let s = record s0 { total_len = (s0.total_len + length bytes) % u64_mod } in
      let n = min (64 - s.buf_len) (length bytes) in
      rw held (
        total-take_in (topped_up s (take n bytes)) (drop n bytes)
        ∙ total-topped_up s (take n bytes))
  | inr empty ↦
      rw empty
        (total-take_in (record s0 { total_len = (s0.total_len + length bytes) % u64_mod }) bytes)
]

pub Holds-update : (s : Sha256) (bytes m : List ℕ) → Holds s m → Holds (update s bytes) (m ++ bytes)
Holds-update s bytes m h = record {
  absorbed = Absorbed-update s bytes m h.absorbed;
  counted = omega (arith, total-update s bytes, length-append m bytes, h.counted);
}

pub new-Holds : Holds new []
unfolding new
new-Holds = record {
  absorbed = record {
    blocks = [];
    whole = tt;
    message = refl;
    compressed = refl;
    room = omega arith;
    sized = refl;
  };
  counted = refl;
}
