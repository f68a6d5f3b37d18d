-- ===== src/Hash.antt =====
-- The streaming SHA-256 of src/hash.rs. Bytes and 32-bit words are numbers; the arrays are lists,
-- the eight words of the state a record.
pub mod Streaming
pub mod Padding
use Prim.Native.Nat.{bit_and, bit_xor}
use linggen_memory.Prelude.{
  ℕ, zero, suc, ◌+◌, ◌-◌, ◌*◌, ◌/◌, ◌%◌, ◌^◌, min, List, [], ◌∷◌, ◌++◌, String, ltb, leb, eqb,
  if◌then◌else◌, length, take, drop, replicate,
}

abbrev pub u32_mod : ℕ
u32_mod = 2 ^ 32

abbrev pub u64_mod : ℕ
u64_mod = 2 ^ 64

pub record Words : Type 0 where
  pub a : ℕ
  pub b : ℕ
  pub c : ℕ
  pub d : ℕ
  pub e : ℕ
  pub f : ℕ
  pub g : ℕ
  pub h : ℕ

pub record Sha256 : Type 0 where
  pub state : Words
  pub buf : List ℕ
  pub buf_len : ℕ
  pub total_len : ℕ

abbrev pub initial : Words
initial = record {
  a = 0x6a09_e667;
  b = 0xbb67_ae85;
  c = 0x3c6e_f372;
  d = 0xa54f_f53a;
  e = 0x510e_527f;
  f = 0x9b05_688c;
  g = 0x1f83_d9ab;
  h = 0x5be0_cd19;
}

unfoldable pub new : Sha256
new = record { state = initial; buf = replicate 64 0; buf_len = 0; total_len = 0 }

-- `wrapping_add`, `rotate_right`, `>>` and `!` on a 32-bit word.
abbrev add32 : ℕ → ℕ → ℕ
add32 x y = (x + y) % u32_mod

abbrev rotate_right : ℕ → ℕ → ℕ
rotate_right n x = x / 2 ^ n + x % 2 ^ n * 2 ^ (32 - n)

abbrev shr : ℕ → ℕ → ℕ
shr n x = x / 2 ^ n

abbrev not32 : ℕ → ℕ
not32 x = u32_mod - 1 - x

abbrev xor3 : ℕ → ℕ → ℕ → ℕ
xor3 x y z = bit_xor (bit_xor x y) z

abbrev pub round_constants : List ℕ
round_constants =
    0x428a_2f98 ∷ 0x7137_4491 ∷ 0xb5c0_fbcf ∷ 0xe9b5_dba5 ∷ 0x3956_c25b ∷ 0x59f1_11f1 ∷ 0x923f_82a4
    ∷ 0xab1c_5ed5 ∷ 0xd807_aa98 ∷ 0x1283_5b01 ∷ 0x2431_85be ∷ 0x550c_7dc3 ∷ 0x72be_5d74
    ∷ 0x80de_b1fe ∷ 0x9bdc_06a7 ∷ 0xc19b_f174 ∷ 0xe49b_69c1 ∷ 0xefbe_4786 ∷ 0x0fc1_9dc6
    ∷ 0x240c_a1cc ∷ 0x2de9_2c6f ∷ 0x4a74_84aa ∷ 0x5cb0_a9dc ∷ 0x76f9_88da ∷ 0x983e_5152
    ∷ 0xa831_c66d ∷ 0xb003_27c8 ∷ 0xbf59_7fc7 ∷ 0xc6e0_0bf3 ∷ 0xd5a7_9147 ∷ 0x06ca_6351
    ∷ 0x1429_2967 ∷ 0x27b7_0a85 ∷ 0x2e1b_2138 ∷ 0x4d2c_6dfc ∷ 0x5338_0d13 ∷ 0x650a_7354
    ∷ 0x766a_0abb ∷ 0x81c2_c92e ∷ 0x9272_2c85 ∷ 0xa2bf_e8a1 ∷ 0xa81a_664b ∷ 0xc24b_8b70
    ∷ 0xc76c_51a3 ∷ 0xd192_e819 ∷ 0xd699_0624 ∷ 0xf40e_3585 ∷ 0x106a_a070 ∷ 0x19a4_c116
    ∷ 0x1e37_6c08 ∷ 0x2748_774c ∷ 0x34b0_bcb5 ∷ 0x391c_0cb3 ∷ 0x4ed8_aa4a ∷ 0x5b9c_ca4f
    ∷ 0x682e_6ff3 ∷ 0x748f_82ee ∷ 0x78a5_636f ∷ 0x84c8_7814 ∷ 0x8cc7_0208 ∷ 0x90be_fffa
    ∷ 0xa450_6ceb ∷ 0xbef9_a3f7 ∷ 0xc671_78f2 ∷ []

abbrev nth : ℕ → List ℕ → ℕ
nth i [] = 0
nth zero (x ∷ xs) = x
nth (suc i) (x ∷ xs) = nth i xs

-- `u32::from_be_bytes` of each four bytes.
unfoldable pub words_of : List ℕ → List ℕ
words_of (p ∷ q ∷ r ∷ s ∷ rest) = (((p * 256 + q) * 256 + r) * 256 + s) ∷ words_of rest
words_of few = []

-- One more word of the schedule, from the last sixteen (the latest first).
abbrev scheduled : List ℕ → ℕ
scheduled w =
    let s0 = xor3 (rotate_right 7 (nth 14 w)) (rotate_right 18 (nth 14 w)) (shr 3 (nth 14 w)) in
    let s1 = xor3 (rotate_right 17 (nth 1 w)) (rotate_right 19 (nth 1 w)) (shr 10 (nth 1 w)) in
    add32 (add32 (add32 (nth 15 w) s0) (nth 6 w)) s1

-- The schedule from the first sixteen words; both lists are kept with the latest word first.
extend : ℕ → List ℕ → List ℕ
extend zero w = w
extend (suc n) w = extend n (scheduled w ∷ w)

abbrev onto : List ℕ → List ℕ → List ℕ
onto [] ys = ys
onto (x ∷ xs) ys = onto xs (x ∷ ys)

unfoldable pub schedule : List ℕ → List ℕ
unfolding words_of extend
schedule block = onto (extend 48 (onto (words_of block) [])) []

abbrev round : ℕ → ℕ → Words → Words
round k w v =
    let s1 = xor3 (rotate_right 6 v.e) (rotate_right 11 v.e) (rotate_right 25 v.e) in
    let ch = bit_xor (bit_and v.e v.f) (bit_and (not32 v.e) v.g) in
    let t1 = add32 (add32 (add32 (add32 v.h s1) ch) k) w in
    let s0 = xor3 (rotate_right 2 v.a) (rotate_right 13 v.a) (rotate_right 22 v.a) in
    let maj = xor3 (bit_and v.a v.b) (bit_and v.a v.c) (bit_and v.b v.c) in
    let t2 = add32 s0 maj in
    record {
      a = add32 t1 t2;
      b = v.a;
      c = v.b;
      d = v.c;
      e = add32 v.d t1;
      f = v.e;
      g = v.f;
      h = v.g;
    }

rounds : List ℕ → List ℕ → Words → Words
rounds (k ∷ ks) (w ∷ ws) v = rounds ks ws (round k w v)
rounds ks ws v = v

unfoldable pub compress : Words → List ℕ → Words
unfolding schedule rounds
compress s block =
    let v = rounds round_constants (schedule block) s in
    record {
      a = add32 s.a v.a;
      b = add32 s.b v.b;
      c = add32 s.c v.c;
      d = add32 s.d v.d;
      e = add32 s.e v.e;
      f = add32 s.f v.f;
      g = add32 s.g v.g;
      h = add32 s.h v.h;
    }

-- `buf[at..at + len].copy_from_slice`.
abbrev pub copy_at : ℕ → List ℕ → List ℕ → List ℕ
copy_at at bytes buf = take at buf ++ (bytes ++ drop (at + length bytes) buf)

-- The part of `update` that tops up a buffer which is not empty: the new state, and the rest.
abbrev pub topped_up : Sha256 → List ℕ → Sha256
topped_up s bytes =
    let full = record s {
      buf = copy_at s.buf_len bytes s.buf;
      buf_len = s.buf_len + length bytes;
    } in
    if eqb full.buf_len 64
    then record full { state = compress s.state full.buf; buf_len = 0 }
    else full

-- `while data.len() >= 64`, a turn per unit of fuel.
unfoldable pub whole_blocks : ℕ → Words → List ℕ → Words × List ℕ
whole_blocks zero v bytes = (v, bytes)
whole_blocks (suc n) v bytes =
    let rest = whole_blocks n (compress v (take 64 bytes)) (drop 64 bytes) in
    if leb 64 (length bytes) then rest else (v, bytes)

abbrev pub kept : Words × List ℕ → Sha256 → Sha256
kept (v, []) s = record s { state = v }
kept (v, x ∷ bytes) s = record s {
  state = v;
  buf = copy_at 0 (x ∷ bytes) s.buf;
  buf_len = length (x ∷ bytes);
}

-- The rest of `update`, from the whole blocks on.
unfoldable pub take_in : Sha256 → List ℕ → Sha256
unfolding whole_blocks
take_in s bytes = kept (whole_blocks (length bytes) s.state bytes) s

unfoldable pub update : Sha256 → List ℕ → Sha256
unfolding take_in
update s0 bytes =
    let s = record s0 { total_len = (s0.total_len + length bytes) % u64_mod } in
    let n = min (64 - s.buf_len) (length bytes) in
    if ltb 0 s.buf_len then take_in (topped_up s (take n bytes)) (drop n bytes) else take_in s bytes

-- `while self.buf_len != 56`.
unfoldable pub pad_zeros : ℕ → Sha256 → Sha256
pad_zeros zero s = s
pad_zeros (suc n) s =
    let rest = pad_zeros n (update s (0 ∷ [])) in if eqb s.buf_len 56 then s else rest

-- `to_be_bytes`: `n` bytes, the last one first in the recursion.
unfoldable pub be_bytes : ℕ → ℕ → List ℕ → List ℕ
be_bytes zero x acc = acc
be_bytes (suc n) x acc = be_bytes n (x / 256) (x % 256 ∷ acc)

abbrev pub digest_bytes : Words → List ℕ
digest_bytes v = be_bytes 4 v.a (
    be_bytes 4 v.b (
      be_bytes 4 v.c
        (be_bytes 4 v.d (be_bytes 4 v.e (be_bytes 4 v.f (be_bytes 4 v.g (be_bytes 4 v.h [])))))))

unfoldable pub finalize : Sha256 → List ℕ
unfolding be_bytes update pad_zeros
finalize s =
    let bit_len = s.total_len * 8 % u64_mod in
    digest_bytes (update (pad_zeros 64 (update s (0x80 ∷ []))) (be_bytes 8 bit_len [])).state
