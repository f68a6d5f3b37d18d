-- ===== src/Text/Words.antt =====
-- More of the standard library's `str`: characters, whitespace-separated words, joining, and
-- numbers in decimal.
use Prim.Native.Char.{Char, code}
use Prim.Native.String
use linggen_memory.Prelude.{
  ◌==◌, ◌||◌, Bool, ℕ, zero, suc, ◌+◌, ◌/◌, ◌%◌, ◌≤◌, String, ◌≡◌, refl, arith, List, [], ◌∷◌, ltb,
  eqb, if◌then◌else◌,
}
use text.Mathlib.TextLemmas.{nil-append, cons-append}
use linggen_memory.Text.{is_whitespace, is_empty, push}

-- `chars().count()`.
unfoldable pub char_count : String → ℕ
char_count String.[] = 0
char_count (String.◌∷◌ c s) = suc (char_count s)

pub char_count-append : (s t : String) → char_count (String.◌++◌ s t) ≡ char_count s + char_count t
unfolding char_count
char_count-append String.[] t = rw nil-append (omega arith)
char_count-append (String.◌∷◌ c s) t = rw cons-append (omega (arith, char_count-append s t))

-- `chars().take(n)`, collected.
unfoldable pub take_chars : ℕ → String → String
take_chars zero s = ""
take_chars (suc n) String.[] = ""
take_chars (suc n) (String.◌∷◌ c s) = String.◌∷◌ c (take_chars n s)

abbrev pub join_with : String → List String → String
join_with sep [] = ""
join_with sep (s ∷ []) = s
join_with sep (s ∷ t ∷ ss) = String.◌++◌ s (String.◌++◌ sep (join_with sep (t ∷ ss)))

abbrev word_before : String → List String → List String
word_before cur rest = if is_empty cur then rest else cur ∷ rest

-- `split_whitespace`, from a word that has begun.
unfoldable pub split_words : String → String → List String
unfolding is_whitespace
split_words cur String.[] = word_before cur []
split_words cur (String.◌∷◌ c s) =
    let closed = split_words "" s in
    let longer = split_words (push cur c) s in
    if is_whitespace (code c) then word_before cur closed else longer

pub digit_char : ℕ → Char
digit_char n =
    if eqb n 0
    then "0"
    else if eqb n 1
    then "1"
    else if eqb n 2
    then "2"
    else if eqb n 3
    then "3"
    else if eqb n 4
    then "4"
    else if eqb n 5
    then "5"
    else if eqb n 6
    then "6"
    else if eqb n 7
    then "7"
    else if eqb n 8
    then "8"
    else "9"

abbrev digit : ℕ → String
digit n = String.◌∷◌ (digit_char n) ""

-- The first argument bounds the digits after the first.
unfoldable pub decimal_within : ℕ → ℕ → String
decimal_within zero n = digit (n % 10)
decimal_within (suc more) n =
    let front = decimal_within more (n / 10) in
    if ltb n 10 then digit n else String.◌++◌ front (digit (n % 10))

-- A number as `{}` prints it.
unfoldable pub decimal : ℕ → String
unfolding decimal_within
decimal n = decimal_within n n

char_count-digit : (n : ℕ) → char_count (digit n) ≡ 1
unfolding char_count
char_count-digit n = refl

char_count-decimal_within_pos : (f n : ℕ) → 1 ≤ char_count (decimal_within f n)
unfolding decimal_within
char_count-decimal_within_pos zero n = omega (arith, char_count-digit (n % 10))
char_count-decimal_within_pos (suc f) n = ground (
  arith,
  char_count-digit n,
  char_count-digit (n % 10),
  char_count-append (decimal_within f (n / 10)) (digit (n % 10)),
)

char_count-decimal_within_mono :
    (f g n m : ℕ)
    → n ≤ m
    → m ≤ g
    → char_count (decimal_within f n) ≤ char_count (decimal_within g m)
unfolding decimal_within
char_count-decimal_within_mono zero g n m le fits =
    omega (arith, char_count-digit (n % 10), char_count-decimal_within_pos g m)
char_count-decimal_within_mono (suc f) zero n m le fits =
    ground (arith, char_count-digit n, char_count-digit (m % 10))
char_count-decimal_within_mono (suc f) (suc g) n m le fits = ground (
  arith,
  char_count-digit n,
  char_count-digit m,
  char_count-digit (n % 10),
  char_count-digit (m % 10),
  char_count-append (decimal_within f (n / 10)) (digit (n % 10)),
  char_count-append (decimal_within g (m / 10)) (digit (m % 10)),
  char_count-decimal_within_mono f g (n / 10) (m / 10),
)

-- A larger number has at least as many digits.
pub char_count-decimal_mono : (n m : ℕ) → n ≤ m → char_count (decimal n) ≤ char_count (decimal m)
unfolding decimal
char_count-decimal_mono n m le = char_count-decimal_within_mono n m n m le (omega arith)

unfoldable pub ends_with : String → String → Bool
ends_with t String.[] = t == ""
ends_with t (String.◌∷◌ c s) = let rest = ends_with t s in (String.◌∷◌ c s == t) || rest
