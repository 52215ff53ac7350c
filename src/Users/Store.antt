-- ===== src/Users/Store.antt =====
-- UserStore of backend/internal/monitoring/users.go. What save reports is ignored by the code, so
-- the file may keep older users. bcrypt, strings.ToLower and the length of a text in bytes are
-- parameters; `salt` stands for the randomness that bcrypt reads.
use healthops.Prelude.{
  ℕ, String, Bool, true, false, not, ◌&&◌, ◌||◌, Option, none, some, List, [], ◌∷◌, map, str_eq,
  ltb, is_some, if◌then◌else◌,
}
use healthops.Prelude.Maps.{Map, lookup, insert, delete, find_value, count_values}
use healthops.Types.{Time}

pub record User : Type 0 where
  pub id : String
  pub username : String
  pub password_hash : String
  pub role : String
  pub display_name : String
  pub email : String
  pub created_at : Time
  pub updated_at : Time

pub record CreateUserRequest : Type 0 where
  pub username : String
  pub password : String
  pub role : String
  pub display_name : String
  pub email : String

pub record UpdateUserRequest : Type 0 where
  pub password : Option String
  pub role : Option String
  pub display_name : Option String
  pub email : Option String

-- bcrypt.GenerateFromPassword and CompareHashAndPassword, strings.ToLower, len.
pub record Library : Type 0 where
  pub generate : ℕ → String → Option String
  pub compare_hash : String → String → Bool
  pub to_lower : String → String
  pub byte_length : String → ℕ

-- The users by their identifiers, and those that the file holds, if it can be read and decoded.
pub record UserStore : Type 0 where
  pub users : Map User
  pub file : Option (List User)

pub data Answer : Type 0 where
  ok : User → Answer
  username_exists bad_role short_password not_hashed not_found invalid_credentials : Answer

abbrev pub values : Map User → List User
values m = map (λ e. e.1) m

-- The write of the file, and whether it succeeds.
abbrev pub save : Bool → UserStore → UserStore
save true s = record s { file = some (values s.users) }
save false s = s

abbrev pub is_admin : User → Bool
is_admin u = str_eq u.role "admin"

abbrev pub is_role : String → Bool
is_role r = str_eq r "admin" || str_eq r "ops"

abbrev pub has_name : String → User → Bool
has_name n u = str_eq u.username n

-- The users that the file holds, the later of two with one identifier.
abbrev pub load : List User → Map User → Map User
load [] m = m
load (u ∷ us) m = load us (insert u.id u m)

abbrev or_no_users : Option (List User) → List User
or_no_users none = []
or_no_users (some us) = us

abbrev or_blank : Option String → String
or_blank none = ""
or_blank (some s) = s

abbrev pub default_admin : Library → ℕ → Time → User
default_admin lib salt now = record {
  id = "admin";
  username = "admin";
  password_hash = or_blank (lib.generate salt "admin");
  role = "admin";
  display_name = "Administrator";
  email = "";
  created_at = now;
  updated_at = now;
}

abbrev seed_if_empty : Library → ℕ → Bool → Time → Map User → Option (List User) → UserStore
seed_if_empty lib salt disk now [] file =
    save disk (record { users = ("admin", default_admin lib salt now) ∷ []; file = file })
seed_if_empty lib salt disk now (e ∷ m) file = record { users = e ∷ m; file = file }

-- The file as it is found.
unfoldable pub new_user_store : Library → ℕ → Bool → Time → Option (List User) → UserStore
new_user_store lib salt disk now file =
    seed_if_empty lib salt disk now (load (or_no_users file) []) file

abbrev checked : Library → String → Option User → Answer
checked lib password none = invalid_credentials
checked lib password (some u) =
    if lib.compare_hash u.password_hash password then ok u else invalid_credentials

unfoldable pub authenticate : Library → String → String → UserStore → Answer
authenticate lib username password s = checked lib password (find_value (has_name username) s.users)

-- The user that Create makes, with its hash.
abbrev pub new_user : Library → Time → CreateUserRequest → String → User
new_user lib now req hash = record {
  id = lib.to_lower req.username;
  username = req.username;
  password_hash = hash;
  role = req.role;
  display_name = req.display_name;
  email = req.email;
  created_at = now;
  updated_at = now;
}

unfoldable pub create :
    Library → ℕ → Bool → Time → CreateUserRequest → UserStore → UserStore × Answer
create lib salt disk now req s =
    if is_some (find_value (has_name req.username) s.users)
    then (s, username_exists)
    else if not (is_role req.role)
    then (s, bad_role)
    else if ltb (lib.byte_length req.password) 8
    then (s, short_password)
    else elim (lib.generate salt req.password) [
      | none ↦ (s, not_hashed)
      | some hash ↦
          let u = new_user lib now req hash in
          (save disk (record s { users = insert u.id u s.users }), ok u)
    ]

-- The steps of Update on the stored user: what it has become, and whether the step went well.
abbrev pub set_password : Library → ℕ → Option String → User → User × Bool
set_password lib salt none u = (u, true)
set_password lib salt (some p) u =
    if ltb (lib.byte_length p) 4 then (u, true) else elim (lib.generate salt p) [
      | none ↦ (u, false)
      | some hash ↦ (record u { password_hash = hash }, true)
    ]

abbrev pub set_role : Option String → User → User × Bool
set_role none u = (u, true)
set_role (some r) u = if is_role r then (record u { role = r }, true) else (u, false)

abbrev or_old : Option String → String → String
or_old none old = old
or_old (some s) old = s

-- The two tests of the address come to one.
abbrev set_texts : UpdateUserRequest → User → User
set_texts req u = record u {
  display_name = or_old req.display_name u.display_name;
  email = or_old req.email u.email;
}

unfoldable pub update :
    Library → ℕ → Bool → Time → String → UpdateUserRequest → UserStore → UserStore × Answer
update lib salt disk now id req s = elim (lookup id s.users) [
  | none ↦ (s, not_found)
  | some old ↦
      let (hashed, hashed_ok) = set_password lib salt req.password old in
      let (ruled, ruled_ok) = set_role req.role hashed in
      let done = record (set_texts req ruled) { updated_at = now } in
      if not hashed_ok
      then (s, not_hashed)
      else if not ruled_ok
      then (record s { users = insert id hashed s.users }, bad_role)
      else (save disk (record s { users = insert id done s.users }), ok done)
]

pub data Removal : Type 0 where
  removed no_such_user last_admin : Removal

unfoldable pub delete_user : Bool → String → UserStore → UserStore × Removal
delete_user disk id s = elim (lookup id s.users) [
  | none ↦ (s, no_such_user)
  | some u ↦
      if is_admin u && ltb (count_values is_admin s.users) 2
      then (s, last_admin)
      else (save disk (record s { users = delete id s.users }), removed)
]
