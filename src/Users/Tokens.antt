-- ===== src/Users/Tokens.antt =====
-- The tokens of backend/internal/monitoring/users.go, on bytes. HMAC-SHA256, the encoding base64url
-- and JSON are parameters. A time is in seconds.
use healthops.Prelude.{
  ℕ, String, Bool, true, false, Option, none, some, [], ◌∷◌, ◌++◌, ltb, ◌==◌, ◌&&◌, if◌then◌else◌,
}
use healthops.Remediation.Data.{Bytes}

pub record JwtClaims : Type 0 where
  pub user_id : String
  pub username : String
  pub role : String
  pub exp : ℕ
  pub iat : ℕ

-- base64.RawURLEncoding, the sum of HMAC-SHA256 with a secret, and json.Marshal and Unmarshal.
pub record Codec : Type 0 where
  pub encode : Bytes → Bytes
  pub decode : Bytes → Option Bytes
  pub mac : Bytes → Bytes → Bytes
  pub marshal : JwtClaims → Option Bytes
  pub unmarshal : Bytes → Option JwtClaims
  pub header : Bytes

abbrev dot : ℕ
dot = b'.'

-- strings.SplitN(s, ".", 2) and 3: what stands before the first dots, and the rest.
unfoldable pub split_dot : Bytes → Option (Bytes × Bytes)
split_dot [] = none
split_dot (c ∷ s) =
    if c == dot
    then some ([], s)
    else elim (split_dot s) [ none ↦ none | some (a, b) ↦ some (c ∷ a, b) ]

unfoldable pub split_three : Bytes → Option (Bytes × Bytes × Bytes)
unfolding split_dot
split_three s = elim (split_dot s) [
  | none ↦ none
  | some (a, r) ↦ elim (split_dot r) [ none ↦ none | some (b, c) ↦ some (a, b, c) ]
]

abbrev pub joined : Bytes → Bytes → Bytes
joined a b = a ++ (dot ∷ b)

-- hmac.Equal
abbrev pub same : Bytes → Bytes → Bool
same [] [] = true
same [] (c ∷ s) = false
same (c ∷ s) [] = false
same (c ∷ s) (d ∷ t) = (c == d) && same s t

abbrev pub signature : Codec → Bytes → Bytes → Bytes
signature codec secret message = codec.encode (codec.mac secret message)

unfoldable pub sign_jwt : Codec → Bytes → JwtClaims → Option Bytes
sign_jwt codec secret claims = elim (codec.marshal claims) [
  | none ↦ none
  | some payload ↦
      let message = joined (codec.encode codec.header) (codec.encode payload) in
      some (joined message (signature codec secret message))
]

abbrev unexpired : ℕ → Option JwtClaims → Option JwtClaims
unexpired now none = none
unexpired now (some claims) = if ltb claims.exp now then none else some claims

unfoldable pub verify_jwt : Codec → Bytes → ℕ → Bytes → Option JwtClaims
unfolding split_three
verify_jwt codec secret now token = elim (split_three token) [
  | none ↦ none
  | some (a, b, sig) ↦
      if same sig (signature codec secret (joined a b))
      then elim (codec.decode b) [
        | none ↦ none
        | some payload ↦ unexpired now (codec.unmarshal payload)
      ]
      else none
]
