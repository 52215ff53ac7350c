-- ===== src/Users/Signed.antt =====
-- What the tokens of backend/internal/monitoring/users.go say.
use healthops.Prelude.{
  ℕ, ◌≤◌, Bool, true, not, some, [], ◌∷◌, ◌≡◌, refl, ap, ◌∙◌, arith, ◌==◌, all, inl, inr,
  Option-cases,
}
use healthops.Remediation.Data.{Bytes}
use healthops.Users.Tokens.{
  JwtClaims, Codec, split_dot, split_three, joined, same, signature, sign_jwt, verify_jwt,
}

abbrev pub has_no_dot : Bytes → Bool
has_no_dot s = all (λ c. not (c == b'.')) s

split_dot-joined : (a b : Bytes) → has_no_dot a ≡ true → split_dot (joined a b) ≡ some (a, b)
unfolding split_dot
split_dot-joined [] b h = refl
split_dot-joined (c ∷ a) b h = ground (arith, split_dot-joined a b)

append_joined : (a b c : Bytes) → joined (joined a b) c ≡ joined a (joined b c)
append_joined [] b c = refl
append_joined (x ∷ a) b c = λ i. x ∷ append_joined a b c i

split_three-joined :
    (a b c : Bytes)
    → has_no_dot a ≡ true
    → has_no_dot b ≡ true
    → split_three (joined (joined a b) c) ≡ some (a, b, c)
unfolding split_three
split_three-joined a b c h k =
    rw (append_joined a b c)
      (ground (arith, split_dot-joined a (joined b c) h, split_dot-joined b c k))

same_refl : (s : Bytes) → same s s ≡ true
same_refl [] = refl
same_refl (c ∷ s) = ground (arith, same_refl s)

-- A token that signJWT makes is verified under the same secret and gives its claims back until they
-- expire, if base64url writes no dot and decodes what it encodes, and JSON too gives back what it was
-- given.
pub sign_jwt-verify_jwt :
    (codec : Codec) (secret : Bytes) (now : ℕ) (claims : JwtClaims) {token : Bytes}
    → ((s : Bytes) → has_no_dot (codec.encode s) ≡ true)
    → ((s : Bytes) → codec.decode (codec.encode s) ≡ some s)
    → ((c : JwtClaims) (s : Bytes) → codec.marshal c ≡ some s → codec.unmarshal s ≡ some c)
    → sign_jwt codec secret claims ≡ some token
    → now ≤ claims.exp
    → verify_jwt codec secret now token ≡ some claims
unfolding sign_jwt verify_jwt
sign_jwt-verify_jwt codec secret now claims {token} plain decodes reads made live =
    elim (Option-cases (codec.marshal claims)) [
      | inl failed ↦ ground (arith, failed)
      | inr (payload, marshalled) ↦
          let a = codec.encode codec.header in
          let b = codec.encode payload in
          let sig = signature codec secret (joined a b) in
          ground (
            arith,
            marshalled,
            split_three-joined a b sig (plain codec.header) (plain payload),
            same_refl sig,
            decodes payload,
            reads claims payload marshalled,
          )
    ]

-- A token that is verified is of three parts, the last of which is the signature, under the secret,
-- of the first two; the second decodes to its claims, which have not expired.
pub verify_jwt_sound :
    (codec : Codec) (secret : Bytes) (now : ℕ) (token : Bytes) {claims : JwtClaims}
    → verify_jwt codec secret now token ≡ some claims
    → (a : Bytes) × (b : Bytes) × (sig : Bytes) × (payload : Bytes) × (split_three token
        ≡ some (a, b, sig))
      × (same sig (signature codec secret (joined a b)) ≡ true)
      × (codec.decode b ≡ some payload)
      × (codec.unmarshal payload ≡ some claims)
      × (now ≤ claims.exp)
unfolding verify_jwt
verify_jwt_sound codec secret now token {claims} h = elim (Option-cases (split_three token)) [
  | inl none_found ↦ ground (arith, none_found)
  | inr ((a, b, sig), found) ↦ elim (Option-cases (codec.decode b)) [
    | inl garbled ↦ ground (arith, found, garbled)
    | inr (payload, decoded) ↦ elim (Option-cases (codec.unmarshal payload)) [
      | inl unread ↦ ground (arith, found, decoded, unread)
      | inr (read, parsed) ↦
          let same_claims : read ≡ claims = ground (arith, found, decoded, parsed) in
          (
            a,
            b,
            sig,
            payload,
            found,
            ground (arith, found),
            decoded,
            parsed ∙ ap some same_claims,
            ground (arith, found, decoded, parsed),
          )
    ]
  ]
]
