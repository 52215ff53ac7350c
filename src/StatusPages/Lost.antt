-- ===== src/StatusPages/Lost.antt =====
-- Pages that are lost or changed by calls of backend/internal/monitoring/status_page.go that were not
-- about them.
use Prim.Native.String.{◌++◌}
use healthops.Prelude.{
  ℕ, suc, ◌+◌, String, Bool, true, false, none, some, List, [], ◌∷◌, ◌≡◌, refl, arith, is_blank,
  str_eq_refl, length, print_ℕ,
}
use healthops.Prelude.Maps.{lookup, insert, find_value, lookup-insert, lookup-delete}
use healthops.Types.{Time}
use healthops.StatusPages.Store.{
  StatusPageConfig, StatusPageConfigUpdate, StatusPageStore, ok, slug_in_use, not_found, holds,
  load, empty_store, new_status_page_store, has_slug, stamped, identified, add_page, create, get,
  renamed, new_slug_taken, update_partial,
}

load-next_id :
    (ps : List StatusPageConfig) (s : StatusPageStore) → (load ps s).next_id ≡ length ps + s.next_id
load-next_id [] s = omega arith
load-next_id (p ∷ ps) s =
    omega
      (arith, load-next_id ps (record s { pages = insert p.id p s.pages; next_id = suc s.next_id }))

identified-blank :
    (cfg : StatusPageConfig) (n : ℕ)
    → is_blank cfg.id ≡ true
    → identified cfg n ≡ (record cfg { id = "sp-" ++ print_ℕ n }, suc n)
unfolding identified
identified-blank cfg n h = rw (h, identified) refl

-- After a restart the numbers of new pages begin behind the number of pages that are left. Where a
-- page has the identifier that comes next, Create without an identifier puts the new page in its
-- place; and if the file is not written, no page has the identifier then.
pub create-replaces :
    (ps : List StatusPageConfig) (s : StatusPageStore) (now : Time) (cfg : StatusPageConfig)
    (old : StatusPageConfig)
    → new_status_page_store (holds ps) ≡ some s
    → lookup ("sp-" ++ print_ℕ (length ps + 1)) s.pages ≡ some old
    → is_blank cfg.id ≡ true
    → is_blank cfg.name ≡ false
    → is_blank cfg.slug ≡ false
    → find_value (has_slug cfg.slug) s.pages ≡ none
    → let id = "sp-" ++ print_ℕ (length ps + 1) in
      let page = stamped now (record cfg { id = id }) in
      (get id s ≡ ok old)
      × (get id (create true now cfg s).0 ≡ ok page)
      × (get id (create false now cfg s).0 ≡ not_found)
unfolding new_status_page_store create add_page get
create-replaces ps s now cfg old opened there no_id named slugged free =
    let next : s.next_id ≡ length ps + 1 =
      ground (arith, opened, load-next_id ps (empty_store ps)) in
    let id = "sp-" ++ print_ℕ (length ps + 1) in
    let page = stamped now (record cfg { id = id }) in
    let chosen : identified cfg s.next_id ≡ (record cfg { id = id }, suc (length ps + 1)) =
      rw next (identified-blank cfg (length ps + 1) no_id) in
    ground (
      arith,
      there,
      named,
      slugged,
      free,
      chosen,
      str_eq_refl id,
      lookup-insert id id page s.pages,
      lookup-delete id id (insert id page s.pages),
    )

-- UpdatePartial that is refused for its slug has changed the page's name in memory.
update_partial-refused :
    (disk : Bool) (now : Time) (id : String) (u : StatusPageConfigUpdate) (p : StatusPageConfig)
    (s : StatusPageStore)
    → lookup id s.pages ≡ some p
    → new_slug_taken id p s u.slug ≡ true
    → ((update_partial disk now id u s).1 ≡ slug_in_use)
      × (get id (update_partial disk now id u s).0 ≡ ok (renamed u p))
unfolding update_partial get
update_partial-refused disk now id u p s found taken =
    ground (arith, found, taken, str_eq_refl id, lookup-insert id id (renamed u p) s.pages)
