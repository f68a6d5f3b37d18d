-- ===== src/Text.antt =====
-- The operations of the standard library's `str` that the program uses, on code points.
pub mod Words
pub mod Order
use Prim.Native.Char.{Char, code}
use Prim.Native.String
use linggen_memory.Prelude.{
  ℕ, ◌+◌, String, Bool, true, false, ◌&&◌, Option, none, some, List, [], ◌∷◌, eqb, leb, any,
  if◌then◌else◌, ◌≡◌, refl,
}

abbrev pub between : ℕ → ℕ → ℕ → Bool
between lo hi n = leb lo n && leb n hi

-- `char::is_whitespace`: the White_Space property, as ranges of code points.
abbrev white_space : List (ℕ × ℕ)
white_space =
    (0x2000, 0x200A)
    ∷ (9, 13)
    ∷ (0x3000, 0x3000)
    ∷ (32, 32)
    ∷ (0x202F, 0x202F)
    ∷ (0x85, 0x85)
    ∷ (0x205F, 0x205F)
    ∷ (0xA0, 0xA0)
    ∷ (0x2028, 0x2029)
    ∷ (0x1680, 0x1680)
    ∷ []

unfoldable pub is_whitespace : ℕ → Bool
is_whitespace c = any (λ r. between r.0 r.1 c) white_space

abbrev pub is_empty : String → Bool
is_empty String.[] = true
is_empty (String.◌∷◌ c s) = false

unfoldable pub trim_start : String → String
unfolding is_whitespace
trim_start String.[] = ""
trim_start (String.◌∷◌ c s) =
    let rest = trim_start s in if is_whitespace (code c) then rest else String.◌∷◌ c s

-- Drops a suffix of characters that pass the test.
unfoldable pub trim_end_while : (ℕ → Bool) → String → String
trim_end_while p String.[] = ""
trim_end_while p (String.◌∷◌ c s) =
    let rest = trim_end_while p s in if is_empty rest && p (code c) then "" else String.◌∷◌ c rest

unfoldable pub trim : String → String
unfolding trim_start trim_end_while
trim s = trim_end_while is_whitespace (trim_start s)

-- `trim_end_matches('/')`.
unfoldable pub trim_slashes : String → String
unfolding trim_end_while
trim_slashes = trim_end_while (λ c. eqb c b'/')

abbrev pub starts_with_code : ℕ → String → Bool
starts_with_code n String.[] = false
starts_with_code n (String.◌∷◌ c s) = eqb (code c) n

-- `strip_prefix("~/")`.
unfoldable pub tilde_rest : String → Option String
tilde_rest (String.◌∷◌ c (String.◌∷◌ d s)) =
    if eqb (code c) b'~' && eqb (code d) b'/' then some s else none
tilde_rest s = none

abbrev pub push : String → Char → String
push s c = String.◌++◌ s (String.◌∷◌ c "")

-- The pieces between slashes.
unfoldable pub split_comma : String → String → List String
split_comma cur String.[] = cur ∷ []
split_comma cur (String.◌∷◌ c s) =
    let closed = split_comma "" s in
    let longer = split_comma (push cur c) s in if eqb (code c) b',' then cur ∷ closed else longer

unfoldable pub split_slash : String → String → List String
split_slash cur String.[] = cur ∷ []
split_slash cur (String.◌∷◌ c s) =
    let closed = split_slash "" s in
    let longer = split_slash (push cur c) s in if eqb (code c) b'/' then cur ∷ closed else longer

trim_both : trim "  a b\n" ≡ "a b"
unfolding trim
trim_both = refl

pieces : split_slash "" "/a//b" ≡ "" ∷ "a" ∷ "" ∷ "b" ∷ []
unfolding split_slash
pieces = refl

-- `strip_prefix` with a text.
unfoldable pub strip_text : String → String → Option String
strip_text String.[] s = some s
strip_text (String.◌∷◌ c p) String.[] = none
strip_text (String.◌∷◌ c p) (String.◌∷◌ d s) =
    let rest = strip_text p s in if eqb (code c) (code d) then rest else none

-- `str::len` counts the bytes of UTF-8.
abbrev utf8_length : ℕ → ℕ
utf8_length c = if leb c 0x7F then 1 else if leb c 0x7FF then 2 else if leb c 0xFFFF then 3 else 4

unfoldable pub byte_length : String → ℕ
byte_length String.[] = 0
byte_length (String.◌∷◌ c s) = utf8_length (code c) + byte_length s
