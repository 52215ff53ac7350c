-- ===== src/Users/Admins.antt =====
-- Whether an administrator is left: backend/internal/monitoring/users.go.
use healthops.Prelude.{
  ℕ, ◌+◌, ◌≤◌, String, Bool, true, false, none, some, List, [], ◌∷◌, ◌≡◌, refl, ap, arith, str_eq,
  str_eq_iff, ltb, inl, inr, Option-cases, if◌then◌else◌,
}
use healthops.Prelude.Maps.{
  Map, IsDistinct, lookup, delete, find_value, count_values, lookup-delete, count_values-insert_old,
}
use healthops.Types.{Time}
use healthops.Users.Store.{
  User, CreateUserRequest, UpdateUserRequest, Library, UserStore, ok, is_admin, has_name, new_user,
  create, update, delete_user,
}

module _ (p : User → Bool) where
  delete-absent : (k : String) (m : Map User) → lookup k m ≡ none → delete k m ≡ m
  unfolding lookup delete
  delete-absent k [] h = refl
  delete-absent k ((j, w) ∷ m) h = ground (arith, delete-absent k m)

  count_values-delete :
      (k : String) (v : User) (m : Map User)
      → IsDistinct m
      → lookup k m ≡ some v
      → count_values p (delete k m) + (if p v then 1 else 0) ≡ count_values p m
  unfolding lookup delete count_values IsDistinct
  count_values-delete k v [] d h = cc
  count_values-delete k v ((j, w) ∷ m) d h =
      ground (arith, str_eq_iff j k, count_values-delete k v m d.1, delete-absent k m)

delete-IsDistinct : (k : String) (m : Map User) → IsDistinct m → IsDistinct (delete k m)
unfolding lookup delete IsDistinct
delete-IsDistinct k [] d = tt
delete-IsDistinct k ((j, w) ∷ m) d =
    ground (arith, lookup-delete k j m, delete-IsDistinct k m d.1, str_eq_iff k j)

-- Any number of deletions, each with the success of its write.
abbrev pub delete_all : List (Bool × String) → UserStore → UserStore
delete_all [] s = s
delete_all ((disk, id) ∷ more) s = delete_all more (delete_user disk id s).0

delete_user-admin :
    (disk : Bool) (id : String) (s : UserStore)
    → IsDistinct s.users
    → 1 ≤ count_values is_admin s.users
    → IsDistinct (delete_user disk id s).0.users
      × (1 ≤ count_values is_admin (delete_user disk id s).0.users)
unfolding delete_user
delete_user-admin disk id s d h = elim (Option-cases (lookup id s.users)) [
  | inl missing ↦ rw (missing, delete_user) (d, h)
  | inr (u, found) ↦
      rw (found, delete_user)
        (ground (
          arith,
          count_values-delete is_admin id u s.users d found,
          delete-IsDistinct id s.users d,
        ))
]

-- If there is an administrator, then there is one after any deletions.
pub delete_all-keeps_admin :
    (more : List (Bool × String)) (s : UserStore)
    → IsDistinct s.users
    → 1 ≤ count_values is_admin s.users
    → 1 ≤ count_values is_admin (delete_all more s).users
delete_all-keeps_admin [] s d h = h
delete_all-keeps_admin ((disk, id) ∷ more) s d h =
    let (d', h') = delete_user-admin disk id s d h in
    delete_all-keeps_admin more (delete_user disk id s).0 d' h'

-- The request that gives a user the role ops.
abbrev pub demotion : UpdateUserRequest
demotion = record { password = none; role = some "ops"; display_name = none; email = none }

-- The other calls take the only administrator away: Update makes the user one of the role ops, and
-- Create, for a name that differs only in its letters' case, replaces the user by one of that role.
-- Both succeed, and no administrator is left.
pub only_admin-lost :
    (lib : Library) (salt : ℕ) (disk : Bool) (now : Time) (req : CreateUserRequest) (hash : String)
    (old : User) (s : UserStore)
    → lookup (lib.to_lower req.username) s.users ≡ some old
    → is_admin old ≡ true
    → count_values is_admin s.users ≡ 1
    → find_value (has_name req.username) s.users ≡ none
    → req.role ≡ "ops"
    → ltb (lib.byte_length req.password) 8 ≡ false
    → lib.generate salt req.password ≡ some hash
    → let created = create lib salt disk now req s in
      let demoted = update lib salt disk now (lib.to_lower req.username) demotion s in
      (created.1 ≡ ok (new_user lib now req hash))
      × (count_values is_admin created.0.users ≡ 0)
      × (demoted.1 ≡ ok (record old { role = "ops"; updated_at = now }))
      × (count_values is_admin demoted.0.users ≡ 0)
unfolding create update
only_admin-lost lib salt disk now req hash old s found admin only fresh ops long hashed =
    let not_admin : str_eq req.role "admin" ≡ false = ap (λ r. str_eq r "admin") ops in
    let is_ops : str_eq req.role "ops" ≡ true = ap (λ r. str_eq r "ops") ops in
    ground (
      arith,
      not_admin,
      is_ops,
      found,
      admin,
      fresh,
      long,
      hashed,
      count_values-insert_old is_admin (lib.to_lower req.username) old (new_user lib now req hash)
          s.users found,
      count_values-insert_old is_admin (lib.to_lower req.username) old
          (record old { role = "ops"; updated_at = now }) s.users found,
    )
