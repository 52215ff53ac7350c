-- ===== src/Users/Handlers.antt =====
-- The handlers of users.go: HandleLogin, HandleUsers, HandleUserByID and HandleMe of
-- backend/internal/monitoring/users.go, over the store in memory. A body that does not decode is
-- `none`; the claims are what ExtractJWTClaims makes of the request.
use healthops.Prelude.{
  ℕ, ◌+◌, String, Bool, not, Option, none, some, List, str_eq, is_blank, if◌then◌else◌,
}
use healthops.Prelude.Maps.{lookup}
use healthops.Types.{Time}
use healthops.Remediation.Data.{Bytes}
use healthops.Users.Store.{
  User, CreateUserRequest, UpdateUserRequest, Library, UserStore, Answer, ok, username_exists,
  bad_role, short_password, not_hashed, not_found, invalid_credentials, Removal, removed,
  no_such_user, last_admin, values, authenticate, create, update, delete_user,
}
use healthops.Users.Tokens.{JwtClaims, Codec, sign_jwt}
use healthops.Users.Access.{is_admin_claim}

pub record LoginRequest : Type 0 where
  pub username : String
  pub password : String

pub data Reply : Type 0 where
  method_not_allowed bad_request unauthenticated no_right missing server_error deleted : Reply
  logged_in : Bytes → User → Reply
  listed : List User → Reply
  created shown : User → Reply

abbrev pub claims_of : ℕ → User → JwtClaims
claims_of now u = record {
  user_id = u.id;
  username = u.username;
  role = u.role;
  exp = now + 86_400;
  iat = now;
}

abbrev with_token : User → Option Bytes → Reply
with_token u none = server_error
with_token u (some token) = logged_in token u

abbrev logged : Codec → Bytes → ℕ → Answer → Reply
logged codec secret now (ok u) = with_token u (sign_jwt codec secret (claims_of now u))
logged codec secret now username_exists = unauthenticated
logged codec secret now bad_role = unauthenticated
logged codec secret now short_password = unauthenticated
logged codec secret now not_hashed = unauthenticated
logged codec secret now not_found = unauthenticated
logged codec secret now invalid_credentials = unauthenticated

unfoldable pub handle_login :
    Library → Codec → Bytes → ℕ → String → Option LoginRequest → UserStore → Reply
handle_login lib codec secret now method body s =
    if not (str_eq method "POST") then method_not_allowed else elim body [
      | none ↦ bad_request
      | some req ↦ logged codec secret now (authenticate lib req.username req.password s)
    ]

abbrev created_reply : Answer → Reply
created_reply (ok u) = created u
created_reply username_exists = bad_request
created_reply bad_role = bad_request
created_reply short_password = bad_request
created_reply not_hashed = bad_request
created_reply not_found = bad_request
created_reply invalid_credentials = bad_request

abbrev updated_reply : Answer → Reply
updated_reply (ok u) = shown u
updated_reply username_exists = bad_request
updated_reply bad_role = bad_request
updated_reply short_password = bad_request
updated_reply not_hashed = bad_request
updated_reply not_found = bad_request
updated_reply invalid_credentials = bad_request

abbrev removed_reply : Removal → Reply
removed_reply removed = deleted
removed_reply no_such_user = bad_request
removed_reply last_admin = bad_request

abbrev shown_or_missing : Option User → Reply
shown_or_missing none = missing
shown_or_missing (some u) = shown u

module _ (lib : Library) (salt : ℕ) (disk : Bool) (now : Time) where
  unfoldable pub handle_users :
      Option JwtClaims → String → Option CreateUserRequest → UserStore → UserStore × Reply
  handle_users none method body s = (s, unauthenticated)
  handle_users (some claims) method body s =
      if str_eq method "GET"
      then (s, listed (values s.users))
      else if not (str_eq method "POST")
      then (s, method_not_allowed)
      else if not (is_admin_claim claims)
      then (s, no_right)
      else elim body [
        | none ↦ (s, bad_request)
        | some req ↦ let (s', answer) = create lib salt disk now req s in (s', created_reply answer)
      ]

  unfoldable pub handle_user_by_id :
      Option JwtClaims → String → String → Option UpdateUserRequest → UserStore → UserStore × Reply
  handle_user_by_id none method id body s = (s, unauthenticated)
  handle_user_by_id (some claims) method id body s =
      if is_blank id
      then (s, bad_request)
      else if str_eq method "GET"
      then (s, shown_or_missing (lookup id s.users))
      else if str_eq method "PUT"
      then (if not (is_admin_claim claims) then (s, no_right) else elim body [
        | none ↦ (s, bad_request)
        | some req ↦
            let (s', answer) = update lib salt disk now id req s in (s', updated_reply answer)
      ])
      else if not (str_eq method "DELETE")
      then (s, method_not_allowed)
      else if not (is_admin_claim claims)
      then (s, no_right)
      else let (s', answer) = delete_user disk id s in (s', removed_reply answer)

unfoldable pub handle_me : Option JwtClaims → String → UserStore → Reply
handle_me claims method s = if not (str_eq method "GET") then method_not_allowed else elim claims [
  | none ↦ unauthenticated
  | some c ↦ shown_or_missing (lookup c.user_id s.users)
]
