-- ===== src/Users/Guarded.antt =====
-- Which requests reach the API behind authMiddleware of backend/internal/monitoring/auth.go.
use healthops.Prelude.{
  true, false, none, some, ◌≡◌, refl, ◌⊎◌, str_eq, arith, inl, inr, ◌≤◌, Option-cases,
}
use healthops.Remediation.Data.{Bytes}
use healthops.Remediation.Redact.{codes}
use healthops.Users.Tokens.{JwtClaims, same, signature, joined, split_three, verify_jwt}
use healthops.Users.Signed.{verify_jwt_sound}
use healthops.Users.Access.{
  AuthConfig, Request, Context, after_prefix, served, extract_jwt_claims, parse_basic_auth,
  is_mutating_method, is_request_authorized, is_public, auth_middleware,
}

-- The header names the configured user and password.
pub IsConfiguredUser : Context → AuthConfig → Request → Type 0
IsConfiguredUser ctx cfg r =
    (u : Bytes) × (p : Bytes) × (parse_basic_auth ctx r.authorization ≡ some (u, p))
    × (same u cfg.username ≡ true)
    × (same p cfg.password ≡ true)

basic_lem :
    (ctx : Context) (cfg : AuthConfig) (r : Request)
    → extract_jwt_claims ctx r ≡ none
    → cfg.enabled ≡ true
    → is_request_authorized ctx cfg r ≡ true
    → IsConfiguredUser ctx cfg r
unfolding is_request_authorized IsConfiguredUser
basic_lem ctx cfg r no_claims on h = elim (Option-cases (parse_basic_auth ctx r.authorization)) [
  | inl bad ↦ ground (arith, bad)
  | inr ((u, p), parsed) ↦ (u, p, parsed, ground (arith, parsed), ground (arith, parsed))
]

-- The token that the request carries, after `Bearer ` or, without that, as a token of its own.
Carries : Request → Bytes → Type 0
Carries r token =
    (after_prefix (codes "Bearer ") r.authorization ≡ some token)
    ⊎ ((after_prefix (codes "Bearer ") r.authorization ≡ none) × (r.token ≡ token))

-- The request carries a token of three parts whose last part is the signature, under the secret, of
-- the others, whose second part decodes to the claims, and which has not expired.
pub IsSigned : Context → Request → JwtClaims → Type 0
IsSigned ctx r claims =
    (token : Bytes) × (a : Bytes) × (b : Bytes) × (sig : Bytes) × (payload : Bytes) × Carries r
      token
    × (split_three token ≡ some (a, b, sig))
    × (same sig (signature ctx.codec ctx.secret (joined a b)) ≡ true)
    × (ctx.codec.decode b ≡ some payload)
    × (ctx.codec.unmarshal payload ≡ some claims)
    × (ctx.now ≤ claims.exp)

verified-IsSigned :
    (ctx : Context) (r : Request) (token : Bytes) {claims : JwtClaims}
    → Carries r token
    → verify_jwt ctx.codec ctx.secret ctx.now token ≡ some claims
    → IsSigned ctx r claims
unfolding IsSigned
verified-IsSigned ctx r token {claims} carried h =
    let (a, b, sig, payload, parts, signed, decoded, read, live) =
      verify_jwt_sound ctx.codec ctx.secret ctx.now token {claims = claims} h in
    (token, a, b, sig, payload, carried, parts, signed, decoded, read, live)

extract_jwt_claims-IsSigned :
    (ctx : Context) (r : Request) {claims : JwtClaims}
    → extract_jwt_claims ctx r ≡ some claims
    → IsSigned ctx r claims
unfolding extract_jwt_claims Carries
extract_jwt_claims-IsSigned ctx r {claims} h =
    elim (Option-cases (after_prefix (codes "Bearer ") r.authorization)) [
      | inr (bearer, found) ↦
          verified-IsSigned ctx r bearer (inl found) (rw (found, extract_jwt_claims) at h)
      | inl absent ↦
          verified-IsSigned ctx r r.token (inr (absent, refl)) (ground (arith, h, absent))
    ]

-- With a store of users, a request that changes something and asks for no public path reaches the
-- API only if it carries a token that is signed under the secret, has not expired and decodes to the
-- claims of an administrator, or if it carries no claims and names the configured user and password,
-- while these are enabled.
pub auth_middleware-mutating :
    (ctx : Context) (cfg : AuthConfig) (r : Request)
    → is_public r.path ≡ false
    → is_mutating_method r.method ≡ true
    → auth_middleware ctx cfg true r ≡ served
    → ((claims : JwtClaims) × (extract_jwt_claims ctx r ≡ some claims)
        × IsSigned ctx r claims
        × (str_eq claims.role "admin" ≡ true))
      ⊎ ((extract_jwt_claims ctx r ≡ none) × (cfg.enabled ≡ true) × IsConfiguredUser ctx cfg r)
unfolding auth_middleware
auth_middleware-mutating ctx cfg r guarded changes h =
    elim (Option-cases (extract_jwt_claims ctx r)) [
      | inl no_claims ↦
          let on : cfg.enabled ≡ true = ground (arith, no_claims) in
          inr (no_claims, on, basic_lem ctx cfg r no_claims on (ground (arith, no_claims)))
      | inr (claims, found) ↦
          inl (claims, found, extract_jwt_claims-IsSigned ctx r found, ground (arith, found))
    ]
