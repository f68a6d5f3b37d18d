-- ===== src/Text/Order.antt =====
-- The order of texts by their code points, which is that of their bytes in UTF-8.
use Prim.Native.Char.{code}
use linggen_memory.Prelude.{
  Bool-cases, inl, inr, List, [], ◌∷◌, All, any, ◌==◌, eq_iff, subst, String, ◌≡◌, refl, Bool, true,
  false, arith, ltb, eqb, if◌then◌else◌,
}

unfoldable pub text_le : String → String → Bool
text_le String.[] t = true
text_le (String.◌∷◌ c s) String.[] = false
text_le (String.◌∷◌ c s) (String.◌∷◌ d t) =
    let rest = text_le s t in
    if ltb (code c) (code d) then true else if eqb (code c) (code d) then rest else false

pub text_le_total : (s t : String) → text_le s t ≡ false → text_le t s ≡ true
unfolding text_le
text_le_total String.[] t e = absurd (cc)
text_le_total (String.◌∷◌ c s) String.[] e = refl
text_le_total (String.◌∷◌ c s) (String.◌∷◌ d t) e = ground (arith, e, text_le_total s t)

pub text_le_trans : (s t u : String) → text_le s t ≡ true → text_le t u ≡ true → text_le s u ≡ true
unfolding text_le
text_le_trans String.[] t u h k = refl
text_le_trans (String.◌∷◌ c s) String.[] u h k = absurd (cc)
text_le_trans (String.◌∷◌ c s) (String.◌∷◌ d t) String.[] h k = absurd (cc)
text_le_trans (String.◌∷◌ c s) (String.◌∷◌ d t) (String.◌∷◌ e u) h k =
    ground (arith, h, k, text_le_trans s t u)

-- A text that is one of those that fail a test fails it.
pub any_apart :
    (p : String → Bool) (s : String) (ts : List String)
    → All (λ t. p t ≡ false) ts
    → any (λ t. t == s) ts ≡ true
    → p s ≡ false
any_apart p s [] h e = absurd (cc)
any_apart p s (t ∷ ts) h e = elim (Bool-cases (t == s)) [
  | inl same ↦ subst (λ x. p x ≡ false) ((eq_iff t s).0 same) h.0
  | inr other ↦ any_apart p s ts h.1 (ground (arith, e, other))
]
