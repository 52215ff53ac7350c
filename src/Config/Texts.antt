-- ===== src/Config/Texts.antt =====
-- Names and identifiers: slugify and buildCheckID of backend/internal/monitoring/config.go, and
-- validateName and ValidateCheckID of validation.go. The regular expressions are the loops that
-- they stand for. What packages strings and net do on all of Unicode, and net/url, is a parameter.
use Prim.Native.Char.{Char, code}
use Prim.Native.String.{len}
use healthops.Prelude.{
  ℕ, String, Bool, true, false, not, ◌&&◌, ◌||◌, Option, none, some, ltb, leb, ◌==◌, if◌then◌else◌,
  is_blank, text_or,
}
use healthops.Types.{CheckConfig}

-- strings.TrimSpace, ToLower, ToUpper, and Contains of "://"; Host and Hostname of url.Parse; and the
-- host of net.SplitHostPort.
pub record Library : Type 0 where
  pub trim_space : String → String
  pub to_lower : String → String
  pub to_upper : String → String
  pub has_scheme : String → Bool
  pub url_hosts : String → Option (String × String)
  pub split_host : String → Option String

-- [a-z0-9]
abbrev pub is_alnum : Char → Bool
is_alnum c = (leb b'a' (code c) && leb (code c) b'z') || (leb b'0' (code c) && leb (code c) b'9')

abbrev pub is_dash : Char → Bool
is_dash c = code c == b'-'

-- nonSlug.ReplaceAllString(value, "-"): each longest run of other characters becomes one dash.
-- `in_run` says that the dash of the run is written.
unfoldable pub dash_runs : Bool → String → String
dash_runs in_run String.[] = ""
dash_runs in_run (String.◌∷◌ c s) =
    if is_alnum c
    then String.◌∷◌ c (dash_runs false s)
    else if in_run
    then dash_runs true s
    else String.◌∷◌ "-" (dash_runs true s)

unfoldable pub trim_left : String → String
trim_left String.[] = ""
trim_left (String.◌∷◌ c s) = if is_dash c then trim_left s else String.◌∷◌ c s

-- Dashes at the end go: a dash is kept if something is left of the rest.
unfoldable pub trim_right : String → String
trim_right String.[] = ""
trim_right (String.◌∷◌ c s) =
    let rest = trim_right s in if is_dash c && is_blank rest then "" else String.◌∷◌ c rest

unfoldable pub slugify : Library → String → String
unfolding dash_runs trim_left trim_right
slugify lib value =
    text_or (trim_right (trim_left (dash_runs false (lib.to_lower (lib.trim_space value))))) "check"

unfoldable pub build_check_id : Library → CheckConfig → String
unfolding slugify
build_check_id lib c = slugify lib (text_or (text_or (lib.trim_space c.id) c.name) c.target)

abbrev pub all_chars : (Char → Bool) → String → Bool
all_chars p String.[] = true
all_chars p (String.◌∷◌ c s) = p c && all_chars p s

pub data NameError : Type 0 where
  empty too_long bad_pattern has_tags : NameError

-- ValidateCheckID
unfoldable pub validate_check_id : String → Option NameError
validate_check_id id =
    if is_blank id
    then some empty
    else if ltb 100 (len id)
    then some too_long
    else if not (all_chars (λ c. is_alnum c || is_dash c) id)
    then some bad_pattern
    else none

abbrev has_char : ℕ → String → Bool
has_char n String.[] = false
has_char n (String.◌∷◌ c s) = code c == n || has_char n s

-- `<[^>]*>` somewhere: a `<` and later a `>`.
abbrev has_tag : String → Bool
has_tag String.[] = false
has_tag (String.◌∷◌ c s) = if code c == b'<' then has_char b'>' s else has_tag s

-- validateName
unfoldable pub validate_name : String → Option NameError
validate_name name =
    if is_blank name
    then some empty
    else if ltb 200 (len name)
    then some too_long
    else if has_tag name
    then some has_tags
    else none
