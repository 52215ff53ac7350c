-- ===== src/Config/Slugs.antt =====
-- The identifiers that buildCheckID of backend/internal/monitoring/config.go makes.
use Prim.Native.Char.{Char}
use Prim.Native.String.{len}
use healthops.Prelude.{
  String, Bool, true, false, not, ◌||◌, none, some, ◌≡◌, refl, arith, ltb, if◌then◌else◌, is_blank,
  text_or,
}
use healthops.Types.{CheckConfig}
use healthops.Config.Texts.{
  Library, is_alnum, is_dash, dash_runs, trim_left, trim_right, slugify, build_check_id, all_chars,
  too_long, validate_check_id,
}

abbrev is_id_char : Char → Bool
is_id_char c = is_alnum c || is_dash c

dash_runs-all_chars : (r : Bool) (s : String) → all_chars is_id_char (dash_runs r s) ≡ true
unfolding dash_runs
dash_runs-all_chars r String.[] = refl
dash_runs-all_chars r (String.◌∷◌ c s) =
    ground (arith, dash_runs-all_chars false s, dash_runs-all_chars true s)

trim_left-all_chars :
    (s : String) → all_chars is_id_char s ≡ true → all_chars is_id_char (trim_left s) ≡ true
unfolding trim_left
trim_left-all_chars String.[] h = refl
trim_left-all_chars (String.◌∷◌ c s) h = ground (arith, trim_left-all_chars s, h)

trim_right-all_chars :
    (s : String) → all_chars is_id_char s ≡ true → all_chars is_id_char (trim_right s) ≡ true
unfolding trim_right
trim_right-all_chars String.[] h = refl
trim_right-all_chars (String.◌∷◌ c s) h = ground (arith, trim_right-all_chars s, h)

-- A text that begins, and one that ends, with something else than a dash.
abbrev begins_well : String → Bool
begins_well String.[] = true
begins_well (String.◌∷◌ c s) = not (is_dash c)

abbrev ends_well : String → Bool
ends_well String.[] = true
ends_well (String.◌∷◌ c s) = if is_blank s then not (is_dash c) else ends_well s

trim_left-begins_well : (s : String) → begins_well (trim_left s) ≡ true
unfolding trim_left
trim_left-begins_well String.[] = refl
trim_left-begins_well (String.◌∷◌ c s) = ground (arith, trim_left-begins_well s)

trim_right-ends_well : (s : String) → ends_well (trim_right s) ≡ true
unfolding trim_right
trim_right-ends_well String.[] = refl
trim_right-ends_well (String.◌∷◌ c s) = ground (arith, trim_right-ends_well s)

trim_right-begins_well : (s : String) → begins_well s ≡ true → begins_well (trim_right s) ≡ true
unfolding trim_right
trim_right-begins_well String.[] h = refl
trim_right-begins_well (String.◌∷◌ c s) h = ground (arith, h)

-- What each text that slugify makes is like.
abbrev pub IsSlug : String → Type 0
IsSlug s =
    (is_blank s ≡ false)
    × (all_chars is_id_char s ≡ true)
    × (begins_well s ≡ true)
    × (ends_well s ≡ true)

IsSlug-or_check :
    (s : String)
    → all_chars is_id_char s ≡ true
    → begins_well s ≡ true
    → ends_well s ≡ true
    → IsSlug (text_or s "check")
IsSlug-or_check String.[] h b e = (refl, refl, refl, refl)
IsSlug-or_check (String.◌∷◌ c s) h b e = (refl, h, b, e)

validate_check_id-IsSlug :
    (s : String)
    → IsSlug s
    → validate_check_id s ≡ (if ltb 100 (len s) then some too_long else none)
unfolding validate_check_id
validate_check_id-IsSlug s h = ground (arith, h.0, h.1)

slugify-IsSlug : (lib : Library) (value : String) → IsSlug (slugify lib value)
unfolding slugify
slugify-IsSlug lib value =
    let t = lib.to_lower (lib.trim_space value) in
    let s = dash_runs false t in
    let l = trim_left s in
    IsSlug-or_check (trim_right l)
      (trim_right-all_chars l (trim_left-all_chars s (dash_runs-all_chars false t)))
      (trim_right-begins_well l (trim_left-begins_well s)) (trim_right-ends_well l)

-- Whatever a check is called, the identifier that is built for it is not blank, so the error for a
-- check with neither identifier nor name is never returned; it has the characters that
-- ValidateCheckID asks for and no dash at either end; and ValidateCheckID accepts it unless it is
-- longer than 100 bytes.
build_check_id-IsSlug :
    (lib : Library) (c : CheckConfig)
    → IsSlug (build_check_id lib c)
      × (validate_check_id (build_check_id lib c)
          ≡ (if ltb 100 (len (build_check_id lib c)) then some too_long else none))
unfolding build_check_id
build_check_id-IsSlug lib c =
    let base = text_or (text_or (lib.trim_space c.id) c.name) c.target in
    (slugify-IsSlug lib base, validate_check_id-IsSlug (slugify lib base) (slugify-IsSlug lib base))
