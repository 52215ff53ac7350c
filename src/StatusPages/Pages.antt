-- ===== src/StatusPages/Pages.antt =====
-- Writes to the pages of backend/internal/monitoring/status_page.go that keep the slugs unique.
use healthops.Prelude.{
  ap, subst, ◌⊎◌, ◌≤◌, String, true, false, none, some, [], ◌∷◌, ◌≡◌, refl, arith, str_eq,
  str_eq_iff, inl, inr, Option-cases,
}
use healthops.Prelude.Maps.{
  Map, lookup, insert, delete, find_value, count_values, IsDistinct, IsKeyed, insert-IsDistinct,
  insert-IsKeyed, lookup-delete, count_values-insert_old, count_values-insert_new,
  count_values-delete_le,
}
use healthops.StatusPages.Store.{StatusPageConfig, has_slug, taken_by_other}

module _ {V : Type 0} where
  delete-IsDistinct : (k : String) (m : Map V) → IsDistinct m → IsDistinct (delete k m)
  unfolding lookup delete IsDistinct
  delete-IsDistinct k [] d = tt
  delete-IsDistinct k ((j, w) ∷ m) d =
      ground (arith, lookup-delete k j m, delete-IsDistinct k m d.1, str_eq_iff k j)

  delete-IsKeyed :
      (key : V → String) (k : String) (m : Map V) → IsKeyed key m → IsKeyed key (delete k m)
  unfolding delete IsKeyed
  delete-IsKeyed key k [] h = tt
  delete-IsKeyed key k ((j, w) ∷ m) h = ground (arith, delete-IsKeyed key k m h.1)

-- Where no page but the one with the identifier has the slug, and that one is absent or has another,
-- no page has it.
free-absent :
    (id slug : String) (m : Map StatusPageConfig)
    → IsKeyed (λ p. p.id) m
    → find_value (taken_by_other id slug) m ≡ none
    → lookup id m ≡ none
    → count_values (has_slug slug) m ≡ 0
unfolding lookup count_values find_value IsKeyed
free-absent id slug [] k h e = refl
free-absent id slug ((j, w) ∷ m) k h e =
    ground (arith, free-absent id slug m k.1, str_eq_iff j id, str_eq_iff w.id id)

pub free-old :
    (id slug : String) (p : StatusPageConfig) (m : Map StatusPageConfig)
    → IsDistinct m
    → IsKeyed (λ p. p.id) m
    → find_value (taken_by_other id slug) m ≡ none
    → lookup id m ≡ some p
    → str_eq p.slug slug ≡ false
    → count_values (has_slug slug) m ≡ 0
unfolding lookup count_values find_value IsDistinct IsKeyed
free-old id slug p [] d k h e other = refl
free-old id slug p ((j, w) ∷ m) d k h e other = ground (
  arith,
  free-old id slug p m d.1 k.1,
  free-absent id slug m k.1,
  str_eq_iff j id,
  str_eq_iff w.id id,
)

-- Pages by their identifiers, no two with one slug.
pub record IsWellFormed (m : Map StatusPageConfig) : Type 0 where
  pub distinct : IsDistinct m
  pub keyed : IsKeyed (λ p. p.id) m
  pub unique : (slug : String) → count_values (has_slug slug) m ≤ 1

-- The page that the identifier has now has the same slug, or no page has it.
abbrev pub Fits : StatusPageConfig → Map StatusPageConfig → Type 0
Fits p m =
    ((q : StatusPageConfig) × (lookup p.id m ≡ some q) × (q.slug ≡ p.slug))
    ⊎ (count_values (has_slug p.slug) m ≡ 0)

insert_free_unique :
    (p : StatusPageConfig) (m : Map StatusPageConfig) (slug : String)
    → count_values (has_slug slug) m ≤ 1
    → (str_eq p.slug slug ≡ true → count_values (has_slug slug) m ≡ 0)
    → count_values (has_slug slug) (insert p.id p m) ≤ 1
insert_free_unique p m slug h zero_at = elim (Option-cases (lookup p.id m)) [
  | inl absent ↦ ground (arith, zero_at, count_values-insert_new (has_slug slug) p.id p m absent)
  | inr (q, found) ↦
      ground (arith, zero_at, count_values-insert_old (has_slug slug) p.id q p m found)
]

insert_unique :
    (p : StatusPageConfig) (m : Map StatusPageConfig) (slug : String)
    → count_values (has_slug slug) m ≤ 1
    → Fits p m
    → count_values (has_slug slug) (insert p.id p m) ≤ 1
insert_unique p m slug h (inl (q, found, same)) =
    let same_test : str_eq q.slug slug ≡ str_eq p.slug slug = ap (λ x. str_eq x slug) same in
    ground (arith, same_test, count_values-insert_old (has_slug slug) p.id q p m found)
insert_unique p m slug h (inr zero) =
    insert_free_unique p m slug h
      (λ e. subst (λ x. count_values (has_slug x) m ≡ 0) ((str_eq_iff p.slug slug).0 e) zero)

pub insert-IsWellFormed :
    (p : StatusPageConfig) (m : Map StatusPageConfig)
    → IsWellFormed m
    → Fits p m
    → IsWellFormed (insert p.id p m)
insert-IsWellFormed p m v fits = record {
  distinct = insert-IsDistinct p.id p m v.distinct;
  keyed = insert-IsKeyed (λ q. q.id) p m v.keyed;
  unique = λ slug. insert_unique p m slug (v.unique slug) fits;
}

pub delete-IsWellFormed :
    (k : String) (m : Map StatusPageConfig) → IsWellFormed m → IsWellFormed (delete k m)
delete-IsWellFormed k m v = record {
  distinct = delete-IsDistinct k m v.distinct;
  keyed = delete-IsKeyed (λ q. q.id) k m v.keyed;
  unique = λ slug. omega (arith, v.unique slug, count_values-delete_le (has_slug slug) k m);
}
