-- ===== src/StatusPages/Slugs.antt =====
-- No two status pages of backend/internal/monitoring/status_page.go have one slug.
use healthops.Prelude.{
  ap, sym, subst, ◌⊎◌, ◌∙◌, ℕ, String, Bool, true, false, Option, none, some, List, [], ◌∷◌, ◌≡◌,
  refl, arith, str_eq, str_eq_iff, is_blank, text_or, inl, inr, Option-cases, Bool-cases,
}
use healthops.Prelude.Maps.{lookup, insert, find_value, count_values, find_value-none, lookup-key}
use healthops.StatusPages.Pages.{
  IsWellFormed, Fits, free-old, insert-IsWellFormed, delete-IsWellFormed,
}
use healthops.Types.{Time}
use healthops.StatusPages.Store.{
  StatusPageConfig, StatusPageConfigUpdate, StatusPageStore, has_slug, taken_by_other, identified,
  add_page, stamped, stored, replaced, renamed, merged, new_slug_taken, create, update,
  update_partial, delete_page,
}

identified-slug : (cfg : StatusPageConfig) (n : ℕ) → (identified cfg n).0.slug ≡ cfg.slug
unfolding identified
identified-slug cfg n = ground arith

add_page-IsWellFormed :
    (disk : Bool) (p : StatusPageConfig) (n : ℕ) (s : StatusPageStore)
    → IsWellFormed s.pages
    → Fits p s.pages
    → IsWellFormed (add_page disk p n s).0.pages
unfolding add_page
add_page-IsWellFormed true p n s v fits = insert-IsWellFormed p s.pages v fits
add_page-IsWellFormed false p n s v fits =
    delete-IsWellFormed p.id (insert p.id p s.pages) (insert-IsWellFormed p s.pages v fits)

create-IsWellFormed :
    (disk : Bool) (now : Time) (cfg : StatusPageConfig) (s : StatusPageStore)
    → IsWellFormed s.pages
    → IsWellFormed (create disk now cfg s).0.pages
unfolding create
create-IsWellFormed disk now cfg s v = elim (Bool-cases (is_blank cfg.name)) [
  | inl e ↦ rw (e, create) v
  | inr e ↦ elim (Bool-cases (is_blank cfg.slug)) [
    | inl e' ↦ rw (e, e', create) v
    | inr e' ↦ elim (Option-cases (find_value (has_slug cfg.slug) s.pages)) [
      | inr (q, taken) ↦ rw (e, e', taken, create) v
      | inl free ↦
          let page = stamped now (identified cfg s.next_id).0 in
          let zero : count_values (has_slug page.slug) s.pages ≡ 0 =
            rw (identified-slug cfg s.next_id) (find_value-none (has_slug cfg.slug) s.pages free) in
          rw (e, e', free, create)
            (add_page-IsWellFormed disk page (identified cfg s.next_id).1 s v (inr zero))
    ]
  ]
]

stored-IsWellFormed :
    (disk : Bool) (p : StatusPageConfig) (s : StatusPageStore)
    → IsWellFormed s.pages
    → Fits p s.pages
    → IsWellFormed (stored disk p.id p s).0.pages
stored-IsWellFormed true p s v fits = insert-IsWellFormed p s.pages v fits
stored-IsWellFormed false p s v fits = insert-IsWellFormed p s.pages v fits

-- Writing a page over the stored one, with its slug or with one that no other page has.
change-IsWellFormed :
    (disk : Bool) (id : String) (p q : StatusPageConfig) (s : StatusPageStore)
    → IsWellFormed s.pages
    → lookup id s.pages ≡ some p
    → q.id ≡ p.id
    → (q.slug ≡ p.slug)
      ⊎ ((str_eq p.slug q.slug ≡ false) × (find_value (taken_by_other id q.slug) s.pages ≡ none))
    → IsWellFormed (stored disk id q s).0.pages
change-IsWellFormed disk id p q s v found same_id slugs =
    let is_id : q.id ≡ id = same_id ∙ lookup-key (λ x. x.id) id s.pages v.keyed found in
    let found' : lookup q.id s.pages ≡ some p = ap (λ k. lookup k s.pages) is_id ∙ found in
    let fits : Fits q s.pages = elim slugs [
      | inl same ↦ inl (p, found', sym same)
      | inr (differs, free) ↦
          inr (free-old id q.slug p s.pages v.distinct v.keyed free found differs)
    ] in
    subst (λ k. IsWellFormed (stored disk k q s).0.pages) is_id
      (stored-IsWellFormed disk q s v fits)

-- What a test of a new slug that was passed says of the slug that is written.
slug_choice :
    (id new : String) (p : StatusPageConfig) (s : StatusPageStore)
    → new_slug_taken id p s (some new) ≡ false
    → (text_or new p.slug ≡ p.slug)
      ⊎ ((str_eq p.slug (text_or new p.slug) ≡ false)
          × (find_value (taken_by_other id (text_or new p.slug)) s.pages ≡ none))
slug_choice id String.[] p s h = inl refl
slug_choice id (String.◌∷◌ c w) p s h =
    let new = String.◌∷◌ c w in
    elim (Bool-cases (str_eq new p.slug)) [
      | inl same ↦ inl ((str_eq_iff new p.slug).0 same)
      | inr differs ↦ inr (
        ground (arith, differs, str_eq_iff new p.slug, str_eq_iff p.slug new),
        ground (arith, differs, h),
      )
    ]

update-IsWellFormed :
    (disk : Bool) (now : Time) (id : String) (u : StatusPageConfig) (s : StatusPageStore)
    → IsWellFormed s.pages
    → IsWellFormed (update disk now id u s).0.pages
unfolding update
update-IsWellFormed disk now id u s v = elim (Option-cases (lookup id s.pages)) [
  | inl missing ↦ rw (missing, update) v
  | inr (p, found) ↦ elim (Bool-cases (new_slug_taken id p s (some u.slug))) [
    | inl taken ↦ rw (found, taken, update) v
    | inr free ↦
        rw (found, free, update)
          (change-IsWellFormed disk id p (replaced now u p) s v found refl
            (slug_choice id u.slug p s free))
  ]
]

partial_choice :
    (id : String) (new : Option String) (u : StatusPageConfigUpdate) (now : Time)
    (p : StatusPageConfig) (s : StatusPageStore)
    → u.slug ≡ new
    → new_slug_taken id p s new ≡ false
    → ((merged now u p).slug ≡ p.slug)
      ⊎ ((str_eq p.slug (merged now u p).slug ≡ false)
          × (find_value (taken_by_other id (merged now u p).slug) s.pages ≡ none))
partial_choice id none u now p s e h = rw e (inl refl)
partial_choice id (some new) u now p s e h = rw e (slug_choice id new p s h)

update_partial-IsWellFormed :
    (disk : Bool) (now : Time) (id : String) (u : StatusPageConfigUpdate) (s : StatusPageStore)
    → IsWellFormed s.pages
    → IsWellFormed (update_partial disk now id u s).0.pages
unfolding update_partial
update_partial-IsWellFormed disk now id u s v = elim (Option-cases (lookup id s.pages)) [
  | inl missing ↦ rw (missing, update_partial) v
  | inr (p, found) ↦ elim (Bool-cases (new_slug_taken id p s u.slug)) [
    | inl taken ↦
        rw (found, taken, update_partial)
          (change-IsWellFormed false id p (renamed u p) s v found refl (inl refl))
    | inr free ↦
        rw (found, free, update_partial)
          (change-IsWellFormed disk id p (merged now u p) s v found refl
            (partial_choice id u.slug u now p s refl free))
  ]
]

delete_page-IsWellFormed :
    (disk : Bool) (id : String) (s : StatusPageStore)
    → IsWellFormed s.pages
    → IsWellFormed (delete_page disk id s).0.pages
unfolding delete_page
delete_page-IsWellFormed disk id s v = elim (Option-cases (lookup id s.pages)) [
  | inl missing ↦ rw (missing, delete_page) v
  | inr (p, found) ↦ rw (found, delete_page) (ground (arith, delete-IsWellFormed id s.pages v))
]

-- The calls that change pages.
pub data Call : Type 0 where
  creating : Bool → Time → StatusPageConfig → Call
  updating : Bool → Time → String → StatusPageConfig → Call
  merging : Bool → Time → String → StatusPageConfigUpdate → Call
  deleting : Bool → String → Call

abbrev pub perform : Call → StatusPageStore → StatusPageStore
perform (creating disk now cfg) s = (create disk now cfg s).0
perform (updating disk now id u) s = (update disk now id u s).0
perform (merging disk now id u) s = (update_partial disk now id u s).0
perform (deleting disk id) s = (delete_page disk id s).0

abbrev pub run : List Call → StatusPageStore → StatusPageStore
run [] s = s
run (c ∷ cs) s = run cs (perform c s)

perform-IsWellFormed :
    (c : Call) (s : StatusPageStore) → IsWellFormed s.pages → IsWellFormed (perform c s).pages
perform-IsWellFormed (creating disk now cfg) s v = create-IsWellFormed disk now cfg s v
perform-IsWellFormed (updating disk now id u) s v = update-IsWellFormed disk now id u s v
perform-IsWellFormed (merging disk now id u) s v = update_partial-IsWellFormed disk now id u s v
perform-IsWellFormed (deleting disk id) s v = delete_page-IsWellFormed disk id s v

-- Each page stands under its identifier, and no two have one slug, after any sequence of calls,
-- those that are refused and those whose write fails included, if it was so before.
pub run-IsWellFormed :
    (cs : List Call) (s : StatusPageStore) → IsWellFormed s.pages → IsWellFormed (run cs s).pages
run-IsWellFormed [] s v = v
run-IsWellFormed (c ∷ cs) s v = run-IsWellFormed cs (perform c s) (perform-IsWellFormed c s v)
