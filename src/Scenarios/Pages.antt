-- ===== src/Scenarios/Pages.antt =====
-- A status page whose number comes again: status_page.go.
use healthops.Prelude.{
  String, true, false, none, some, List, [], ◌∷◌, ◌≡◌, refl, arith, pos, print_ℕ,
}
use healthops.Prelude.Maps.{lookup, insert, find_value, count_values, IsDistinct, IsKeyed}
use healthops.StatusPages.Store.{
  StatusPageConfig, StatusPageConfigUpdate, StatusPageStore, ok, not_found, stamped, create, get,
  new_status_page_store,
}
use healthops.StatusPages.Pages.{IsWellFormed}
use healthops.StatusPages.Slugs.{Call, creating, merging, deleting, run, run-IsWellFormed}
use healthops.StatusPages.Lost.{create-replaces}

abbrev page : String → String → StatusPageConfig
page id slug = record {
  id = id;
  name = "Status";
  slug = slug;
  description = "";
  logo_url = "";
  favicon_url = "";
  custom_domain = "";
  is_public = true;
  show_incidents = false;
  show_uptime = false;
  uptime_days = pos 30;
  components = [];
  announcement_msg = "";
  created_at = 1;
  updated_at = 1;
}

-- The page sp-1 was deleted before the restart.
abbrev left : List StatusPageConfig
left = page "sp-2" "second" ∷ []

abbrev store : StatusPageStore
store = record { pages = ("sp-2", page "sp-2" "second") ∷ []; file = left; next_id = 2 }

abbrev change : StatusPageConfigUpdate
change = record {
  name = some "Other";
  slug = some "second";
  description = none;
  logo_url = none;
  components = none;
  uptime_days = none;
  is_public = none;
  show_incidents = none;
  show_uptime = none;
  announcement_msg = none;
}

abbrev calls : List Call
calls = creating true 3 (page "a" "first") ∷ merging true 4 "a" change ∷ deleting false "sp-2" ∷ []

store-IsWellFormed : IsWellFormed store.pages
unfolding lookup count_values IsDistinct IsKeyed
store-IsWellFormed = record {
  distinct = (refl, tt);
  keyed = (refl, tt);
  unique = λ slug. ground arith;
}

run-IsWellFormed_example : IsWellFormed (run calls store).pages
run-IsWellFormed_example = run-IsWellFormed calls store store-IsWellFormed

create-replaces_example :
    let new = stamped 3 (page "sp-2" "third") in
    (get "sp-2" store ≡ ok (page "sp-2" "second"))
    × (get "sp-2" (create true 3 (page "" "third") store).0 ≡ ok new)
    × (get "sp-2" (create false 3 (page "" "third") store).0 ≡ not_found)
unfolding new_status_page_store insert lookup find_value print_ℕ
create-replaces_example =
    create-replaces left store 3 (page "" "third") (page "sp-2" "second") refl refl refl refl refl
      refl
