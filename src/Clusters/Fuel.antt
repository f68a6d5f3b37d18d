-- ===== src/Clusters/Fuel.antt =====
-- The search for a citation ends (`contains_id` of src/http/chains.rs).
use Prim.Native.Char.{Char, code}
use linggen_memory.Prelude.{
  ℕ, zero, suc, ◌+◌, ◌<◌, String, ◌≡◌, refl, ap, Bool, Bool-cases, inl, inr, false, not, ◌&&◌,
  Option-cases, Option, none, some, true, is_some, or_else, if◌then◌else◌, ◌∙◌, eqb, arith,
}
use linggen_memory.Text.{strip_text, is_empty}
use linggen_memory.Text.Words.{char_count}
use linggen_memory.Clusters.{is_word_char, begins_word, ends_word, contains_from, contains_id}

strip_text-char_count :
    (p s rest : String) → strip_text p s ≡ some rest → char_count p + char_count rest ≡ char_count s
unfolding strip_text char_count
strip_text-char_count String.[] s rest e =
    let same : s ≡ rest = cc in omega (arith, ap char_count same)
strip_text-char_count (String.◌∷◌ c p) String.[] rest e = absurd (cc)
strip_text-char_count (String.◌∷◌ c p) (String.◌∷◌ d s) rest e =
    elim (Bool-cases (eqb (code c) (code d))) [
      | inl same ↦ omega (arith, strip_text-char_count p s rest (ground (arith, e, same)))
      | inr other ↦ absurd (ground (arith, e, other))
    ]

shorter :
    (p s rest : String)
    → is_empty p ≡ false
    → strip_text p s ≡ some rest
    → char_count rest < char_count s
unfolding char_count
shorter String.[] s rest full e = absurd (cc)
shorter (String.◌∷◌ c p) s rest full e =
    omega (arith, strip_text-char_count (String.◌∷◌ c p) s rest e)

no_chars : char_count "" ≡ 0
unfolding char_count
no_chars = refl

more : (c : Char) (t : String) → char_count (String.◌∷◌ c t) ≡ suc (char_count t)
unfolding char_count
more c t = refl

module _ (id : String) (full : is_empty id ≡ false) where
  same_answer :
      (m n : ℕ) (before : Bool) (s : String)
      → char_count s < m
      → char_count s < n
      → contains_from m before s id ≡ contains_from n before s id
  unfolding contains_from
  same_answer zero n before s h k = absurd (omega (arith, h))
  same_answer (suc m) zero before s h k = absurd (omega (arith, k))
  same_answer (suc m) (suc n) before String.[] h k = elim (Option-cases (strip_text id "")) [
    | inl e ↦ rw (e, contains_from) refl
    | inr (rest, e) ↦ absurd (omega (arith, shorter id "" rest full e, no_chars))
  ]
  same_answer (suc m) (suc n) before (String.◌∷◌ c t) h k =
      elim (Option-cases (strip_text id (String.◌∷◌ c t))) [
        | inl e ↦
            rw (e, contains_from)
              (same_answer m n (is_word_char (code c)) t (omega (arith, h, more c t))
                (omega (arith, k, more c t)))
        | inr (rest, e) ↦
            let less = shorter id (String.◌∷◌ c t) rest full e in
            rw (e, contains_from)
              (ap (λ b. if not before && not (begins_word rest) then some true else b)
                (same_answer m n (ends_word before id) rest (omega (arith, h, less))
                  (omega (arith, k, less))))
      ]

  ends :
      (n : ℕ) (before : Bool) (s : String)
      → char_count s < n
      → is_some (contains_from n before s id) ≡ true
  unfolding contains_from
  ends zero before s h = absurd (omega (arith, h))
  ends (suc n) before String.[] h = elim (Option-cases (strip_text id "")) [
    | inl e ↦ rw (e, contains_from) refl
    | inr (rest, e) ↦ absurd (omega (arith, shorter id "" rest full e, no_chars))
  ]
  ends (suc n) before (String.◌∷◌ c t) h = elim (Option-cases (strip_text id (String.◌∷◌ c t))) [
    | inl e ↦ rw (e, contains_from) (ends n (is_word_char (code c)) t (omega (arith, h, more c t)))
    | inr (rest, e) ↦
        rw (e, contains_from)
          (found_or (not before && not (begins_word rest)) _ (
            ends n (ends_word before id) rest
              (omega (arith, h, shorter id (String.◌∷◌ c t) rest full e))))
  ]
    where
      found_or :
          (b : Bool) (o : Option Bool)
          → is_some o ≡ true
          → is_some (if b then some true else o) ≡ true
      found_or true o e = refl
      found_or false o e = e

  answered : (o : Option Bool) → is_some o ≡ true → o ≡ some (or_else o false)
  answered none e = absurd (cc)
  answered (some b) e = refl

  -- For an id that is not empty, a round per character and one more is enough: with so many rounds or
  -- more the search ends before it has used them up, with the answer of `contains_id`.
  pub contains_from_enough :
      (n : ℕ) (content : String)
      → char_count content < n
      → contains_from n false content id ≡ some (contains_id content id)
  unfolding contains_id
  contains_from_enough n content h =
      same_answer n (suc (char_count content)) false content h (omega arith)
      ∙ answered (contains_from (suc (char_count content)) false content id)
          (ends (suc (char_count content)) false content (omega arith))
