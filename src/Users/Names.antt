-- ===== src/Users/Names.antt =====
-- Which names the users of backend/internal/monitoring/users.go have, and that a user who was
-- created can log in.
use healthops.Prelude.{
  ℕ, ◌≤◌, String, Bool, true, none, some, List, [], ◌∷◌, ◌≡◌, refl, arith, str_eq, str_eq_refl,
  str_eq_iff, inl, inr, Option-cases,
}
use healthops.Prelude.Maps.{
  Map, lookup, insert, find_value, count_values, find_value-none, count_values-insert_old,
  count_values-insert_new, count_values-delete_le,
}
use healthops.Types.{Time}
use healthops.Users.Store.{
  User, CreateUserRequest, UpdateUserRequest, Library, UserStore, ok, has_name, new_user,
  authenticate, create, update, delete_user,
}

-- A write of a value that passes a test which nothing passed before is what the search finds.
find_value-insert_only :
    (p : User → Bool) (k : String) (v : User) (m : Map User)
    → find_value p m ≡ none
    → p v ≡ true
    → find_value p (insert k v m) ≡ some v
unfolding find_value insert
find_value-insert_only p k v [] h e = ground arith
find_value-insert_only p k v ((j, w) ∷ m) h e = ground (arith, find_value-insert_only p k v m)

-- A user whom Create made logs in with the password of the request, whatever other users there are
-- and whether or not the file was written, if bcrypt accepts a password for the hash that it made.
create-authenticate :
    (lib : Library) (salt : ℕ) (disk : Bool) (now : Time) (req : CreateUserRequest) (s : UserStore)
    (u : User)
    → ((salt : ℕ) (p h : String) → lib.generate salt p ≡ some h → lib.compare_hash h p ≡ true)
    → (create lib salt disk now req s).1 ≡ ok u
    → authenticate lib req.username req.password (create lib salt disk now req s).0 ≡ ok u
unfolding create authenticate
create-authenticate lib salt disk now req s u law made =
    elim (Option-cases (lib.generate salt req.password)) [
      | inl failed ↦ ground (arith, failed)
      | inr (hash, hashed) ↦ ground (
        arith,
        hashed,
        law salt req.password hash hashed,
        str_eq_refl req.username,
        find_value-insert_only (has_name req.username) (lib.to_lower req.username)
            (new_user lib now req hash) s.users,
      )
    ]

-- The calls that change users, each with the randomness, the success of its write and its time.
pub data Call : Type 0 where
  creating : ℕ → Bool → Time → CreateUserRequest → Call
  updating : ℕ → Bool → Time → String → UpdateUserRequest → Call
  deleting : Bool → String → Call

abbrev pub perform : Library → Call → UserStore → UserStore
perform lib (creating salt disk now req) s = (create lib salt disk now req s).0
perform lib (updating salt disk now id req) s = (update lib salt disk now id req s).0
perform lib (deleting disk id) s = (delete_user disk id s).0

abbrev pub run : Library → List Call → UserStore → UserStore
run lib [] s = s
run lib (c ∷ cs) s = run lib cs (perform lib c s)

-- How many users have a name.
abbrev pub named : String → UserStore → ℕ
named n s = count_values (has_name n) s.users

create-named :
    (lib : Library) (salt : ℕ) (disk : Bool) (now : Time) (req : CreateUserRequest) (s : UserStore)
    (n : String)
    → named n s ≤ 1
    → named n (create lib salt disk now req s).0 ≤ 1
unfolding create
create-named lib salt disk now req s n h =
    elim (Option-cases (lookup (lib.to_lower req.username) s.users)) [
      | inl fresh ↦ grind (
        arith,
        h,
        str_eq_iff req.username n,
        find_value-none (has_name req.username) s.users,
        λ (hash : String).
            count_values-insert_new (has_name n) (lib.to_lower req.username)
              (new_user lib now req hash) s.users fresh,
      )
      | inr (old, found) ↦ grind (
        arith,
        h,
        str_eq_iff req.username n,
        find_value-none (has_name req.username) s.users,
        λ (hash : String).
            count_values-insert_old (has_name n) (lib.to_lower req.username) old
              (new_user lib now req hash) s.users found,
      )
    ]

-- Update writes a user with the old one's name, or nothing.
put-named :
    (id n : String) (old new : User) (m : Map User)
    → lookup id m ≡ some old
    → str_eq new.username n ≡ str_eq old.username n
    → count_values (has_name n) (insert id new m) ≡ count_values (has_name n) m
put-named id n old new m found same =
    ground (arith, count_values-insert_old (has_name n) id old new m found, same)

update-named :
    (lib : Library) (salt : ℕ) (disk : Bool) (now : Time) (id : String) (req : UpdateUserRequest)
    (s : UserStore) (n : String)
    → named n (update lib salt disk now id req s).0 ≡ named n s
unfolding update
update-named lib salt disk now id req s n = elim (Option-cases (lookup id s.users)) [
  | inl missing ↦ rw (missing, update) refl
  | inr (old, found) ↦
      rw (found, update) (grind (arith, λ (new : User). put-named id n old new s.users found))
]

perform-named :
    (lib : Library) (c : Call) (s : UserStore) (n : String)
    → named n s ≤ 1
    → named n (perform lib c s) ≤ 1
unfolding delete_user
perform-named lib (creating salt disk now req) s n h = create-named lib salt disk now req s n h
perform-named lib (updating salt disk now id req) s n h =
    omega (arith, update-named lib salt disk now id req s n)
perform-named lib (deleting disk id) s n h =
    ground (arith, count_values-delete_le (has_name n) id s.users)

-- No two users have one name after any sequence of calls, whatever writes fail, if none had before.
run-named :
    (lib : Library) (cs : List Call) (s : UserStore) (n : String)
    → named n s ≤ 1
    → named n (run lib cs s) ≤ 1
run-named lib [] s n h = h
run-named lib (c ∷ cs) s n h = run-named lib cs (perform lib c s) n (perform-named lib c s n h)
