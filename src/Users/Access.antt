-- ===== src/Users/Access.antt =====
-- The guard of the API, backend/internal/monitoring/auth.go. A request is its path, its method, the
-- header Authorization and the query's token; base64 is a parameter.
use text.Mathlib.Text.{starts_with}
use Prim.Native.String.{len}
use healthops.Prelude.{
  ℕ, String, Bool, true, false, not, ◌&&◌, ◌||◌, Option, none, some, [], ◌∷◌, is_nil, str_eq, ltb,
  ◌==◌, if◌then◌else◌,
}
use healthops.Remediation.Data.{Bytes}
use healthops.Remediation.Redact.{codes}
use healthops.Users.Tokens.{JwtClaims, Codec, same, verify_jwt}

pub record AuthConfig : Type 0 where
  pub enabled : Bool
  pub username : Bytes
  pub password : Bytes

pub record Request : Type 0 where
  pub path : String
  pub method : String
  pub authorization : Bytes
  pub token : Bytes

-- The secret and the seconds that verifyJWT reads, and base64.StdEncoding's decoder.
pub record Context : Type 0 where
  pub codec : Codec
  pub secret : Bytes
  pub now : ℕ
  pub base64 : Bytes → Option Bytes

-- strings.TrimPrefix, with whether the prefix was there.
abbrev pub after_prefix : Bytes → Bytes → Option Bytes
after_prefix [] s = some s
after_prefix (p ∷ ps) [] = none
after_prefix (p ∷ ps) (c ∷ s) = if c == p then after_prefix ps s else none

unfoldable pub extract_jwt_claims : Context → Request → Option JwtClaims
extract_jwt_claims ctx r = elim (after_prefix (codes "Bearer ") r.authorization) [
  | some bearer ↦ verify_jwt ctx.codec ctx.secret ctx.now bearer
  | none ↦ if is_nil r.token then none else verify_jwt ctx.codec ctx.secret ctx.now r.token
]

-- strings.SplitN(s, ":", 2)
abbrev pub split_colon : Bytes → Option (Bytes × Bytes)
split_colon [] = none
split_colon (c ∷ s) =
    if c == b':'
    then some ([], s)
    else elim (split_colon s) [ none ↦ none | some (a, b) ↦ some (c ∷ a, b) ]

unfoldable pub parse_basic_auth : Context → Bytes → Option (Bytes × Bytes)
parse_basic_auth ctx auth = elim (after_prefix (codes "Basic ") auth) [
  | none ↦ none
  | some rest ↦ elim (ctx.base64 rest) [ none ↦ none | some decoded ↦ split_colon decoded ]
]

abbrev matches : AuthConfig → Option (Bytes × Bytes) → Bool
matches cfg none = false
matches cfg (some (username, password)) = same username cfg.username && same password cfg.password

abbrev pub is_admin_claim : JwtClaims → Bool
is_admin_claim c = str_eq c.role "admin"

unfoldable pub is_request_authorized : Context → AuthConfig → Request → Bool
unfolding parse_basic_auth
is_request_authorized ctx cfg r =
    if not cfg.enabled then true else elim (extract_jwt_claims ctx r) [
      | some claims ↦ is_admin_claim claims
      | none ↦ not (is_nil r.authorization) && matches cfg (parse_basic_auth ctx r.authorization)
    ]

abbrev pub is_mutating_method : String → Bool
is_mutating_method m = str_eq m "POST" || str_eq m "PUT" || str_eq m "PATCH" || str_eq m "DELETE"

abbrev pub is_heartbeat_ping_path : String → Bool
is_heartbeat_ping_path path =
    starts_with path "/api/v1/heartbeats/" && ltb (len "/api/v1/heartbeats/") (len path)

abbrev is_or_below : String → String → String → Bool
is_or_below path page below = str_eq path page || starts_with path below

unfoldable pub is_sensitive_read_path : String → Bool
is_sensitive_read_path path =
    str_eq path "/api/v1/heartbeats"
    || is_or_below path "/api/v1/dashboards" "/api/v1/dashboards/"
    || is_or_below path "/api/v1/chat" "/api/v1/chat/"
    || is_or_below path "/api/v1/status-pages" "/api/v1/status-pages/"
    || is_or_below path "/api/v1/maintenance" "/api/v1/maintenance/"

-- The paths that need no authentication, in the order of the code.
unfoldable pub is_public : String → Bool
is_public path =
    str_eq path "/healthz"
    || str_eq path "/readyz"
    || str_eq path "/api/v1/system/status"
    || str_eq path "/api/v1/auth/login"
    || starts_with path "/assets/"
    || str_eq path "/"
    || str_eq path "/favicon.ico"
    || starts_with path "/api/v1/help/"
    || is_heartbeat_ping_path path
    || starts_with path "/status/"
    || (not (starts_with path "/api/") && not (str_eq path "/metrics"))

pub data Answer : Type 0 where
  served unauthorized forbidden challenged : Answer

abbrev with_users : Context → AuthConfig → Request → Option JwtClaims → Answer
with_users ctx cfg r none =
    if cfg.enabled && is_request_authorized ctx cfg r then served else unauthorized
with_users ctx cfg r (some claims) =
    if is_mutating_method r.method && not (is_admin_claim claims) then forbidden else served

abbrev without_users : Context → AuthConfig → Request → Answer
without_users ctx cfg r =
    if cfg.enabled
      && (is_mutating_method r.method || is_sensitive_read_path r.path)
      && not (is_request_authorized ctx cfg r)
    then challenged
    else served

-- authMiddleware, with whether there is a store of users.
unfoldable pub auth_middleware : Context → AuthConfig → Bool → Request → Answer
unfolding is_request_authorized
auth_middleware ctx cfg has_users r =
    if is_public r.path
    then served
    else if has_users
    then with_users ctx cfg r (extract_jwt_claims ctx r)
    else without_users ctx cfg r

-- basicAuthMiddleware
unfoldable pub basic_auth_middleware : Context → AuthConfig → Request → Answer
basic_auth_middleware ctx cfg r =
    if not cfg.enabled || is_heartbeat_ping_path r.path || starts_with r.path "/status/"
    then served
    else if (is_mutating_method r.method || is_sensitive_read_path r.path)
        && not (is_request_authorized ctx cfg r)
    then challenged
    else served
