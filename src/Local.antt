-- ===== src/Local.antt =====
-- "Only this machine": the check of src/http/local.rs. An address is its text.
use Prim.Native.String
use linggen_memory.Prelude.{
  ℕ, zero, suc, ◌/◌, ◌%◌, String, ◌==◌, eq_iff, ◌≡◌, ◌↔◌, ◌⊎◌, inl, inr, refl, ap, sym, ◌∙◌, Bool,
  true, false, ◌&&◌, Option, none, some, List, [], ◌∷◌, any, ltb, if◌then◌else◌, arith,
}
use linggen_memory.Text.{strip_text}

abbrev pub IpAddr : Type 0
IpAddr = String

-- 127.0.0.0/8, and `::1`.
unfoldable pub is_loopback : IpAddr → Bool
is_loopback ip = elim (strip_text "127." ip) [ none ↦ ip == "::1" | some rest ↦ true ]

-- The two headers that are read; a value that is not text counts as absent.
pub record HeaderMap : Type 0 where
  pub host : Option String
  pub origin : Option String

abbrev pub loopback_names : List String
loopback_names = "localhost" ∷ "127.0.0.1" ∷ "[::1]" ∷ []

abbrev pub nth_text : ℕ → List String → String
nth_text n [] = ""
nth_text zero (s ∷ ss) = s
nth_text (suc n) (s ∷ ss) = nth_text n ss

abbrev pub digit : ℕ → String
digit n = nth_text n ("0" ∷ "1" ∷ "2" ∷ "3" ∷ "4" ∷ "5" ∷ "6" ∷ "7" ∷ "8" ∷ "9" ∷ [])

-- A number in decimal; the first argument is one less than the count of digits allowed for.
unfoldable pub decimal_from : ℕ → ℕ → String
decimal_from zero n = digit (n % 10)
decimal_from (suc more) n =
    let front = decimal_from more (n / 10) in
    if ltb n 10 then digit n else String.◌++◌ front (digit (n % 10))

-- A port is a `u16`: five digits.
unfoldable pub decimal : ℕ → String
unfolding decimal_from
decimal n = decimal_from 4 n

abbrev pub with_port : String → ℕ → String
with_port name port = String.◌++◌ (String.◌++◌ name ":") (decimal port)

-- A host is a name with `:port` after it exactly when the suffix is there to strip.
unfoldable pub is_loopback_host : String → ℕ → Bool
is_loopback_host host port = any (λ name. with_port name port == host) loopback_names

abbrev pub is_same_origin : String → String → Bool
is_same_origin origin host = origin == String.◌++◌ "http://" host

abbrev pub allows_origin : Option String → String → Bool
allows_origin none host = true
allows_origin (some origin) host = is_same_origin origin host

abbrev pub allows_host : Option String → Option String → ℕ → Bool
allows_host none origin port = false
allows_host (some host) origin port = is_loopback_host host port && allows_origin origin host

-- `true` is `Ok`.
unfoldable pub require_local : IpAddr → HeaderMap → ℕ → Bool
require_local peer headers port = is_loopback peer && allows_host headers.host headers.origin port

unsome : (s t : String) → ◌≡◌ {A = Option String} (some s) (some t) → s ≡ t
unsome s t e = cc

same :
    (host x origin : String)
    → ◌≡◌ {A = Option String} (some host) (some x)
    → (◌≡◌ {A = Option String} (some origin) none)
      ⊎ (◌≡◌ {A = Option String} (some origin) (some (String.◌++◌ "http://" x)))
    → is_same_origin origin host ≡ true
same host x origin e (inl gone) = absurd (cc)
same host x origin e (inr o) =
    (eq_iff origin (String.◌++◌ "http://" host)).1
      (unsome origin _ o ∙ ap (λ h. String.◌++◌ "http://" h) (sym (unsome host x e)))

-- Only a request from a loopback address passes, whose Host is a loopback name with this daemon's
-- port, and whose Origin, if it has one, is that host; every other request is refused.
pub require_local_exact :
    (peer : IpAddr) (headers : HeaderMap) (port : ℕ)
    → (require_local peer headers port ≡ true) ↔ (
        (is_loopback peer ≡ true)
        × ((host : String) × (headers.host ≡ some host)
            × (is_loopback_host host port ≡ true)
            × ((headers.origin ≡ none) ⊎ (headers.origin ≡ some (String.◌++◌ "http://" host)))))
unfolding require_local
require_local_exact peer headers port = by_headers headers.host headers.origin
  where
    by_headers :
        (h o : Option String)
        → ((is_loopback peer && allows_host h o port) ≡ true) ↔ (
            (is_loopback peer ≡ true)
            × ((host : String) × (h ≡ some host)
                × (is_loopback_host host port ≡ true)
                × ((o ≡ none) ⊎ (o ≡ some (String.◌++◌ "http://" host)))))
    by_headers none o = (λ t. absurd (ground (arith, t)), λ (l, (x, e, k, or)). absurd (cc))
    by_headers (some host) none = (
      λ t. (ground (arith, t), (host, refl, ground (arith, t), inl refl)),
      λ (l, (x, e, k, o)).
          let k' : is_loopback_host host port ≡ true =
            ap (λ h. is_loopback_host h port) (unsome host x e) ∙ k in
          ground (arith, l, k'),
    )
    by_headers (some host) (some origin) = (
      λ t. (
        ground (arith, t),
        (
          host,
          refl,
          ground (arith, t),
          inr (ap some ((eq_iff origin (String.◌++◌ "http://" host)).0 (ground (arith, t)))),
        ),
      ),
      λ (l, (x, e, k, o)).
          let k' : is_loopback_host host port ≡ true =
            ap (λ h. is_loopback_host h port) (unsome host x e) ∙ k in
          ground (arith, l, k', same host x origin e o),
    )
