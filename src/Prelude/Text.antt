-- ===== src/Prelude/Text.antt =====
-- Text is compared whole: identifiers, names and tags. Go's `==` on strings is `str_eq`.
use Prim.Native.String.{String}
use mathlib.Core.Path.{◌≡◌}
use mathlib.Core.Logic.{◌↔◌, ◌≢◌}
use mathlib.Core.Bool.{Bool, true, false, ◌||◌}
use mathlib.Core.List.{List, [], ◌∷◌}
use text.Mathlib.Text.{◌==◌}
use text.Mathlib.TextEquality.{eq_iff}
use native.Mathlib.Omega.{arith}

abbrev pub str_eq : String → String → Bool
str_eq s t = s == t

pub str_eq_iff : (s t : String) → (str_eq s t ≡ true) ↔ (s ≡ t)
str_eq_iff = eq_iff

pub str_eq_refl : (s : String) → str_eq s s ≡ true
str_eq_refl s = (eq_iff s s).1 (λ i. s)

pub str_eq-false : (s t : String) → s ≢ t → str_eq s t ≡ false
str_eq-false s t h = ground (arith, eq_iff s t)

-- `s == ""`
abbrev pub is_blank : String → Bool
is_blank String.[] = true
is_blank (String.◌∷◌ c s) = false

-- A value or, where it is blank, the default.
abbrev pub text_or : String → String → String
text_or String.[] d = d
text_or (String.◌∷◌ c s) d = String.◌∷◌ c s

-- strings.HasSuffix(s, t)
abbrev pub ends_with : String → String → Bool
ends_with String.[] t = is_blank t
ends_with (String.◌∷◌ c s) t = str_eq (String.◌∷◌ c s) t || ends_with s t

-- `for _, t := range ts { if t == s { return true } }; return false`
abbrev pub mem_str : String → List String → Bool
mem_str s [] = false
mem_str s (t ∷ ts) = str_eq t s || mem_str s ts

pub is_blank-eq : (s : String) → is_blank s ≡ true → s ≡ ""
is_blank-eq String.[] h = λ i. ""
is_blank-eq (String.◌∷◌ c s) h = cc

pub is_blank-ne : (s : String) → s ≢ "" → is_blank s ≡ false
is_blank-ne String.[] h = absurd (h (λ i. ""))
is_blank-ne (String.◌∷◌ c s) h = λ i. false
