-- ===== src/Remediation/Redact.antt =====
-- redactAndCap of backend/internal/monitoring/remediation/engine.go, on bytes. strings.ToLower is a
-- parameter. It may change the length of a text that is not ASCII: where the slice of the text is then
-- out of range the code panics, and `take` gives the whole text. The patterns and marks are bytes.
use Prim.Native.Char.{code}
use healthops.Prelude.{
  ℕ, zero, suc, ◌+◌, String, Bool, true, false, ◌&&◌, ◌||◌, Option, none, some, List, [], ◌∷◌, ◌++◌,
  ltb, ◌==◌, if◌then◌else◌, length, take, drop, print_ℕ,
}
use healthops.Remediation.Data.{Bytes}

abbrev pub codes : String → Bytes
codes String.[] = []
codes (String.◌∷◌ c s) = code c ∷ codes s

-- strings.HasPrefix
abbrev pub has_prefix : Bytes → Bytes → Bool
has_prefix [] s = true
has_prefix (p ∷ ps) [] = false
has_prefix (p ∷ ps) (c ∷ s) = c == p && has_prefix ps s

-- strings.Index
unfoldable pub index : Bytes → Bytes → Option ℕ
index p [] = if has_prefix p [] then some 0 else none
index p (c ∷ s) =
    if has_prefix p (c ∷ s)
    then some 0
    else elim (index p s) [ none ↦ none | some i ↦ some (suc i) ]

abbrev pub ends_value : ℕ → Bool
ends_value b = b == b' ' || b == 10 || b == b'&'

-- What stands after the value.
abbrev pub after_value : Bytes → Bytes
after_value [] = []
after_value (c ∷ s) = if ends_value c then c ∷ s else after_value s

abbrev pub mark : Bytes
mark = codes "***REDACTED***"

-- The loop for one pattern from a place on, with fuel for the marks that it may still write. The
-- next search begins at the mark.
unfoldable pub redact : (Bytes → Bytes) → ℕ → Bytes → Bytes → Bytes
redact to_lower zero p s = s
redact to_lower (suc fuel) p s = elim (index p (to_lower s)) [
  | none ↦ s
  | some i ↦
      let end = i + length p in
      take end s ++ redact to_lower fuel p (mark ++ after_value (drop end s))
]

-- How many `=` there are: as many marks are written at most.
abbrev pub equal_signs : Bytes → ℕ
equal_signs [] = 0
equal_signs (c ∷ s) = if c == b'=' then suc (equal_signs s) else equal_signs s

abbrev pub patterns : List Bytes
patterns =
    codes "password="
    ∷ codes "passwd="
    ∷ codes "secret="
    ∷ codes "token="
    ∷ codes "api_key="
    ∷ codes "apikey="
    ∷ []

unfoldable pub redact_all : (Bytes → Bytes) → List Bytes → Bytes → Bytes
unfolding redact
redact_all to_lower [] s = s
redact_all to_lower (p ∷ ps) s = redact_all to_lower ps (redact to_lower (suc (equal_signs s)) p s)

unfoldable pub redact_and_cap : (Bytes → Bytes) → ℕ → Bytes → Bytes
unfolding redact_all print_ℕ
redact_and_cap to_lower limit s =
    let clean = redact_all to_lower patterns s in
    if ltb limit (length clean)
    then take limit clean
      ++ codes "\n... [output truncated at "
      ++ codes (print_ℕ limit)
      ++ codes " bytes]"
    else clean
