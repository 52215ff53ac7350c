-- ===== src/StatusPages/Store.antt =====
-- StatusPageStore of backend/internal/monitoring/status_page.go. Each call takes its time and
-- whether its write succeeds; the file is the list of pages that it decodes to. A call under the
-- lock is one step.
use Prim.Native.String.{◌++◌}
use healthops.Prelude.{
  ℕ, suc, String, Bool, false, not, ◌&&◌, Option, none, some, List, [], ◌∷◌, map, str_eq, is_blank,
  text_or, is_some, print_ℕ, ℤ, pos, eqb_ℤ, is_positive, if◌then◌else◌,
}
use healthops.Prelude.Maps.{Map, lookup, insert, delete, find_value}
use healthops.Types.{Time}

pub record StatusPageComponent : Type 0 where
  pub id : String
  pub name : String
  pub description : String
  pub check_ids : List String
  pub tags : List String
  pub servers : List String
  pub order : ℤ
  pub group : String

pub record StatusPageConfig : Type 0 where
  pub id : String
  pub name : String
  pub slug : String
  pub description : String
  pub logo_url : String
  pub favicon_url : String
  pub custom_domain : String
  pub is_public : Bool
  pub show_incidents : Bool
  pub show_uptime : Bool
  pub uptime_days : ℤ
  pub components : List StatusPageComponent
  pub announcement_msg : String
  pub created_at : Time
  pub updated_at : Time

-- The pointers of the request; a nil slice of components is `none`.
pub record StatusPageConfigUpdate : Type 0 where
  pub name : Option String
  pub slug : Option String
  pub description : Option String
  pub logo_url : Option String
  pub components : Option (List StatusPageComponent)
  pub uptime_days : Option ℤ
  pub is_public : Option Bool
  pub show_incidents : Option Bool
  pub show_uptime : Option Bool
  pub announcement_msg : Option String

pub record StatusPageStore : Type 0 where
  pub pages : Map StatusPageConfig
  pub file : List StatusPageConfig
  pub next_id : ℕ

pub data Answer : Type 0 where
  ok : StatusPageConfig → Answer
  name_required slug_required slug_in_use not_found not_written : Answer

-- What the file is when the store is made.
pub data Disk : Type 0 where
  missing garbled : Disk
  holds : List StatusPageConfig → Disk

abbrev pub load : List StatusPageConfig → StatusPageStore → StatusPageStore
load [] s = s
load (p ∷ ps) s = load ps (record s { pages = insert p.id p s.pages; next_id = suc s.next_id })

abbrev pub empty_store : List StatusPageConfig → StatusPageStore
empty_store file = record { pages = []; file = file; next_id = 1 }

unfoldable pub new_status_page_store : Disk → Option StatusPageStore
new_status_page_store missing = some (empty_store [])
new_status_page_store garbled = none
new_status_page_store (holds ps) = some (load ps (empty_store ps))

abbrev pub values : Map StatusPageConfig → List StatusPageConfig
values m = map (λ e. e.1) m

abbrev pub written : StatusPageStore → StatusPageStore
written s = record s { file = values s.pages }

abbrev pub has_slug : String → StatusPageConfig → Bool
has_slug slug p = str_eq p.slug slug

-- Another page than the one with the identifier has the slug.
abbrev pub taken_by_other : String → String → StatusPageConfig → Bool
taken_by_other id slug p = not (str_eq p.id id) && str_eq p.slug slug

-- The identifier that Create gives, and the next number.
unfoldable pub identified : StatusPageConfig → ℕ → StatusPageConfig × ℕ
unfolding print_ℕ
identified cfg n =
    if is_blank cfg.id then (record cfg { id = "sp-" ++ print_ℕ n }, suc n) else (cfg, n)

-- A nil slice of components is the empty list here.
abbrev pub stamped : Time → StatusPageConfig → StatusPageConfig
stamped now cfg = record cfg {
  created_at = now;
  updated_at = now;
  uptime_days = if eqb_ℤ cfg.uptime_days (pos 0) then pos 90 else cfg.uptime_days;
}

-- The end of Create. A page whose write fails is taken out of the map.
unfoldable pub add_page : Bool → StatusPageConfig → ℕ → StatusPageStore → StatusPageStore × Answer
add_page disk page n s =
    let next = record s { pages = insert page.id page s.pages; next_id = n } in
    if disk
    then (written next, ok page)
    else (record next { pages = delete page.id next.pages }, not_written)

unfoldable pub create : Bool → Time → StatusPageConfig → StatusPageStore → StatusPageStore × Answer
unfolding add_page
create disk now cfg s =
    if is_blank cfg.name
    then (s, name_required)
    else if is_blank cfg.slug
    then (s, slug_required)
    else if is_some (find_value (has_slug cfg.slug) s.pages)
    then (s, slug_in_use)
    else let (named, n) = identified cfg s.next_id in add_page disk (stamped now named) n s

abbrev found : Option StatusPageConfig → Answer
found none = not_found
found (some p) = ok p

unfoldable pub get : String → StatusPageStore → Answer
get id s = found (lookup id s.pages)

unfoldable pub get_by_slug : String → StatusPageStore → Answer
get_by_slug slug s = found (find_value (has_slug slug) s.pages)

-- The end of both updates: the page is changed in memory before the file is written.
abbrev pub stored : Bool → String → StatusPageConfig → StatusPageStore → StatusPageStore × Answer
stored disk id p s =
    let next = record s { pages = insert id p s.pages } in
    if disk then (written next, ok p) else (next, not_written)

abbrev is_taken : String → String → StatusPageStore → Bool
is_taken id slug s = is_some (find_value (taken_by_other id slug) s.pages)

abbrev pub replaced : Time → StatusPageConfig → StatusPageConfig → StatusPageConfig
replaced now u p = record p {
  name = u.name;
  slug = text_or u.slug p.slug;
  description = u.description;
  logo_url = u.logo_url;
  components = u.components;
  uptime_days = if is_positive u.uptime_days then u.uptime_days else p.uptime_days;
  is_public = u.is_public;
  show_incidents = u.show_incidents;
  show_uptime = u.show_uptime;
  announcement_msg = u.announcement_msg;
  updated_at = now;
}

unfoldable pub update :
    Bool → Time → String → StatusPageConfig → StatusPageStore → StatusPageStore × Answer
update disk now id u s = elim (lookup id s.pages) [
  | none ↦ (s, not_found)
  | some p ↦
      if not (is_blank u.slug) && not (str_eq u.slug p.slug) && is_taken id u.slug s
      then (s, slug_in_use)
      else stored disk id (replaced now u p) s
]

abbrev or_old {ℓ} : {A : Type ℓ} → Option A → A → A
or_old none old = old
or_old (some new) old = new

abbrev or_old_text : Option String → String → String
or_old_text none old = old
or_old_text (some new) old = text_or new old

abbrev or_old_days : Option ℤ → ℤ → ℤ
or_old_days none old = old
or_old_days (some new) old = if is_positive new then new else old

-- The name is changed before the slug is looked at.
abbrev pub renamed : StatusPageConfigUpdate → StatusPageConfig → StatusPageConfig
renamed u p = record p { name = or_old_text u.name p.name }

abbrev pub merged : Time → StatusPageConfigUpdate → StatusPageConfig → StatusPageConfig
merged now u p = record p {
  name = or_old_text u.name p.name;
  slug = or_old_text u.slug p.slug;
  description = or_old u.description p.description;
  logo_url = or_old u.logo_url p.logo_url;
  components = or_old u.components p.components;
  uptime_days = or_old_days u.uptime_days p.uptime_days;
  is_public = or_old u.is_public p.is_public;
  show_incidents = or_old u.show_incidents p.show_incidents;
  show_uptime = or_old u.show_uptime p.show_uptime;
  announcement_msg = or_old u.announcement_msg p.announcement_msg;
  updated_at = now;
}

abbrev pub new_slug_taken : String → StatusPageConfig → StatusPageStore → Option String → Bool
new_slug_taken id p s none = false
new_slug_taken id p s (some slug) =
    not (is_blank slug) && not (str_eq slug p.slug) && is_taken id slug s

unfoldable pub update_partial :
    Bool → Time → String → StatusPageConfigUpdate → StatusPageStore → StatusPageStore × Answer
update_partial disk now id u s = elim (lookup id s.pages) [
  | none ↦ (s, not_found)
  | some p ↦
      if new_slug_taken id p s u.slug
      then (record s { pages = insert id (renamed u p) s.pages }, slug_in_use)
      else stored disk id (merged now u p) s
]

-- Whether the page was found, and whether the file was written.
unfoldable pub delete_page : Bool → String → StatusPageStore → StatusPageStore × Option Answer
delete_page disk id s = elim (lookup id s.pages) [
  | none ↦ (s, some not_found)
  | some p ↦
      let next = record s { pages = delete id s.pages } in
      if disk then (written next, none) else (next, some not_written)
]
