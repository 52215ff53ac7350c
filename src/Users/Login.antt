-- ===== src/Users/Login.antt =====
-- A login and the requests after it: HandleLogin of backend/internal/monitoring/users.go and
-- authMiddleware of backend/internal/monitoring/auth.go.
use healthops.Prelude.{
  ℕ, ◌+◌, ◌≤◌, String, true, false, not, ◌&&◌, some, [], ◌++◌, ◌≡◌, refl, arith, str_eq, inl, inr,
  Option-cases, if◌then◌else◌,
}
use healthops.Remediation.Data.{Bytes}
use healthops.Remediation.Redact.{codes}
use healthops.Users.Store.{User, Library, UserStore, ok, authenticate}
use healthops.Users.Tokens.{JwtClaims, sign_jwt, verify_jwt}
use healthops.Users.Signed.{has_no_dot, sign_jwt-verify_jwt}
use healthops.Users.Access.{
  AuthConfig, Request, Context, served, forbidden, extract_jwt_claims, is_mutating_method,
  is_public, auth_middleware,
}
use healthops.Users.Handlers.{LoginRequest, logged_in, handle_login}

-- The user, the role and the times that a token of a login is to say.
abbrev pub login_claims : ℕ → User → JwtClaims
login_claims now u = record {
  user_id = u.id;
  username = u.username;
  role = u.role;
  exp = now + 86_400;
  iat = now;
}

-- A request with a token after `Bearer `.
abbrev pub bearing : String → String → Bytes → Request
bearing path method token = record {
  path = path;
  method = method;
  authorization = codes "Bearer " ++ token;
  token = [];
}

bearing-served :
    (ctx : Context) (cfg : AuthConfig) (path method : String) (token : Bytes) {claims : JwtClaims}
    → verify_jwt ctx.codec ctx.secret ctx.now token ≡ some claims
    → is_public path ≡ false
    → auth_middleware ctx cfg true (bearing path method token) ≡ (
        if is_mutating_method method && not (str_eq claims.role "admin") then forbidden else served)
unfolding auth_middleware extract_jwt_claims
bearing-served ctx cfg path method token verified guarded = rw guarded (rw verified refl)

-- A login with the right password gets a token that is verified for a day and says the user's
-- identifier, name and role. With it the user's requests that ask for no public path reach the API,
-- but those that change something only if the user is an administrator. This is so if base64url and
-- JSON give back what they were given and those claims can be marshalled.
pub handle_login-auth_middleware :
    (lib : Library) (ctx : Context) (cfg : AuthConfig) (now : ℕ) (req : LoginRequest)
    (s : UserStore) (u : User) (path method : String) {payload : Bytes}
    → ((t : Bytes) → has_no_dot (ctx.codec.encode t) ≡ true)
    → ((t : Bytes) → ctx.codec.decode (ctx.codec.encode t) ≡ some t)
    → ((c : JwtClaims) (t : Bytes) → ctx.codec.marshal c ≡ some t → ctx.codec.unmarshal t ≡ some c)
    → ctx.codec.marshal (login_claims now u) ≡ some payload
    → authenticate lib req.username req.password s ≡ ok u
    → ctx.now ≤ now + 86_400
    → is_public path ≡ false
    → (token : Bytes) × (handle_login lib ctx.codec ctx.secret now "POST" (some req) s
        ≡ logged_in token u)
      × (verify_jwt ctx.codec ctx.secret ctx.now token ≡ some (login_claims now u))
      × (auth_middleware ctx cfg true (bearing path method token) ≡ (
          if is_mutating_method method && not (str_eq u.role "admin") then forbidden else served))
unfolding handle_login sign_jwt
handle_login-auth_middleware lib ctx cfg now req s u path method plain decodes reads marshalled
      known live guarded =
    elim (Option-cases (sign_jwt ctx.codec ctx.secret (login_claims now u))) [
      | inl failed ↦ ground (arith, failed, marshalled)
      | inr (token, made) ↦
          let verified =
            sign_jwt-verify_jwt ctx.codec ctx.secret ctx.now (login_claims now u) plain decodes
              reads made live in
          (
            token,
            ground (arith, known, made),
            verified,
            bearing-served ctx cfg path method token {claims = login_claims now u} verified guarded,
          )
    ]
