-- ===== src/Scenarios/Accounts.antt =====
-- An administrator, a user who is created, and a token: users.go and auth.go. The hash of a password
-- is the password here, and base64 adds a number to each byte.
use Prim.Native.String.{len}
use healthops.Prelude.{
  ◌+◌, ◌-◌, ◌≤◌, ◌⊎◌, true, false, ◌&&◌, none, some, [], ◌∷◌, ◌++◌, ◌≡◌, refl, arith, map, str_eq,
  str_eq_iff, ◌==◌, if◌then◌else◌,
}
use healthops.Prelude.Maps.{lookup, find_value, count_values, IsDistinct}
use healthops.Remediation.Data.{Bytes}
use healthops.Remediation.Redact.{codes}
use healthops.Users.Store.{
  User, CreateUserRequest, Library, UserStore, ok, is_admin, new_user, authenticate, create, update,
}
use healthops.Users.Admins.{demotion, delete_all, delete_all-keeps_admin, only_admin-lost}
use healthops.Users.Tokens.{JwtClaims, Codec, sign_jwt, verify_jwt}
use healthops.Users.Signed.{has_no_dot, sign_jwt-verify_jwt}
use healthops.Users.Access.{
  AuthConfig, Request, Context, is_public, extract_jwt_claims, auth_middleware, served,
}
use healthops.Users.Guarded.{IsSigned, IsConfiguredUser, auth_middleware-mutating}
use healthops.Users.Handlers.{handle_login, logged_in}
use healthops.Users.Login.{login_claims, bearing, handle_login-auth_middleware}

abbrev lib : Library
lib = record {
  generate = λ salt p. some p;
  compare_hash = λ h p. str_eq h p;
  to_lower = λ s. if str_eq s "Root" then "root" else s;
  byte_length = len;
}

abbrev root : User
root = record {
  id = "root";
  username = "root";
  password_hash = "a long one";
  role = "admin";
  display_name = "";
  email = "";
  created_at = 1;
  updated_at = 1;
}

abbrev users : UserStore
users = record { users = ("root", root) ∷ []; file = none }

abbrev wanted : CreateUserRequest
wanted = record {
  username = "Root";
  password = "12345678";
  role = "ops";
  display_name = "";
  email = "";
}

delete_all-keeps_admin_example :
    1 ≤ count_values is_admin (delete_all ((true, "root") ∷ (true, "no one") ∷ []) users).users
unfolding count_values IsDistinct lookup
delete_all-keeps_admin_example =
    delete_all-keeps_admin ((true, "root") ∷ (true, "no one") ∷ []) users (refl, tt) (omega arith)

only_admin-lost_example :
    let created = create lib 0 true 2 wanted users in
    let demoted = update lib 0 true 2 "root" demotion users in
    (created.1 ≡ ok (new_user lib 2 wanted "12345678"))
    × (count_values is_admin created.0.users ≡ 0)
    × (demoted.1 ≡ ok (record root { role = "ops"; updated_at = 2 }))
    × (count_values is_admin demoted.0.users ≡ 0)
unfolding lookup count_values find_value
only_admin-lost_example =
    only_admin-lost lib 0 true 2 wanted "12345678" root users refl refl refl refl refl refl refl

abbrev root_claims : JwtClaims
root_claims = login_claims 100 root

abbrev codec : Codec
codec = record {
  encode = λ s. map (λ c. c + 100) s;
  decode = λ s. some (map (λ c. c - 100) s);
  mac = λ secret message. secret ++ message;
  marshal = λ c.
      if str_eq c.user_id "root"
        && str_eq c.username "root"
        && str_eq c.role "admin"
        && (c.exp == 86_500)
        && (c.iat == 100)
      then some (1 ∷ [])
      else none;
  unmarshal = λ s. some root_claims;
  header = 2 ∷ [];
}

codec_plain : (s : Bytes) → has_no_dot (codec.encode s) ≡ true
codec_plain [] = refl
codec_plain (c ∷ s) = ground (arith, codec_plain s)

codec_decodes : (s : Bytes) → codec.decode (codec.encode s) ≡ some s
codec_decodes [] = refl
codec_decodes (c ∷ s) = ground (arith, codec_decodes s)

codec_reads : (c : JwtClaims) (s : Bytes) → codec.marshal c ≡ some s → codec.unmarshal s ≡ some c
codec_reads c s h =
    ground (
      arith,
      h,
      str_eq_iff c.user_id "root",
      str_eq_iff c.username "root",
      str_eq_iff c.role "admin",
    )

-- The token of the claims.
abbrev token : Bytes
token = 102 ∷ 46 ∷ 101 ∷ 46 ∷ 109 ∷ 202 ∷ 146 ∷ 201 ∷ []

signed : sign_jwt codec (9 ∷ []) root_claims ≡ some token
unfolding sign_jwt
signed = refl

sign_jwt-verify_jwt_example : verify_jwt codec (9 ∷ []) 200 token ≡ some root_claims
sign_jwt-verify_jwt_example =
    sign_jwt-verify_jwt codec (9 ∷ []) 200 root_claims {token = token} codec_plain codec_decodes
      codec_reads signed (omega arith)

abbrev context : Context
context = record { codec = codec; secret = 9 ∷ []; now = 200; base64 = λ s. some s }

abbrev config : AuthConfig
config = record { enabled = false; username = []; password = [] }

abbrev request : Request
request = record {
  path = "/api/v1/users";
  method = "POST";
  authorization = codes "Bearer " ++ token;
  token = [];
}

auth_middleware-mutating_example :
    ((claims : JwtClaims) × (extract_jwt_claims context request ≡ some claims)
      × IsSigned context request claims
      × (str_eq claims.role "admin" ≡ true))
    ⊎ ((extract_jwt_claims context request ≡ none)
        × (config.enabled ≡ true)
        × IsConfiguredUser context config request)
unfolding auth_middleware extract_jwt_claims verify_jwt is_public
auth_middleware-mutating_example = auth_middleware-mutating context config request refl refl refl

handle_login-auth_middleware_example :
    (t : Bytes) × (handle_login lib codec
        (9 ∷ [])
        100
        "POST"
        (some (record { username = "root"; password = "a long one" }))
        users
      ≡ logged_in t root)
    × (verify_jwt codec (9 ∷ []) 200 t ≡ some (login_claims 100 root))
    × (auth_middleware context config true (bearing "/api/v1/users" "POST" t) ≡ served)
unfolding authenticate find_value is_public
handle_login-auth_middleware_example =
    handle_login-auth_middleware lib context config 100
      (record { username = "root"; password = "a long one" }) users root "/api/v1/users" "POST"
      {payload = 1 ∷ []} codec_plain codec_decodes codec_reads refl refl (omega arith) refl
