-- ===== src/Config/Identifiers.antt =====
-- The servers that validate of backend/internal/monitoring/config.go accepts, and when identifiers
-- are distinct.
use healthops.Prelude.{
  String, Bool, true, false, not, ◌&&◌, ◌||◌, Option, none, some, List, [], ◌∷◌, ◌≡◌, refl, arith,
  map, all, is_blank, mem_str, is_none, str_eq, str_eq_iff, if◌then◌else◌, ◌∙◌, sym, ap,
}
use healthops.Config.Load.{
  RemoteServer, ConfigError, no_server_id, duplicate_server, Servers, bad_servers, server_ids,
  validate_server, validate_servers,
}

abbrev pub distinct : List String → Bool
distinct [] = true
distinct (i ∷ is) = not (mem_str i is) && distinct is

abbrev pub none_in : List String → List String → Bool
none_in seen is = all (λ i. not (mem_str i seen)) is

-- No identifier is blank, and no two are the same.
abbrev pub are_ids : List String → Bool
are_ids is = all (λ i. not (is_blank i)) is && distinct is

pub none_in-cons :
    (i : String) (seen is : List String)
    → none_in (i ∷ seen) is ≡ (none_in seen is && not (mem_str i is))
none_in-cons i seen [] = refl
none_in-cons i seen (j ∷ is) =
    ground (arith, none_in-cons i seen is, str_eq_iff i j, str_eq_iff j i)

abbrev pub server_accepted : RemoteServer → Bool
server_accepted s = is_none (validate_server s)

-- The conditions on the servers, after those with the identifiers `ids`.
abbrev pub servers_ok : List String → List RemoteServer → Bool
servers_ok ids ss =
    are_ids (map (λ s. s.id) ss) && none_in ids (map (λ s. s.id) ss) && all server_accepted ss

abbrev pub are_good : Servers → Bool
are_good (bad_servers e) = false
are_good (server_ids ids) = true

step :
    (b m : Bool) (o : Option ConfigError) (rest : Servers)
    → are_good (
        if b
        then bad_servers no_server_id
        else if m
        then bad_servers duplicate_server
        else elim o [ some e ↦ bad_servers e | none ↦ rest ])
      ≡ (not b && not m && is_none o && are_good rest)
step b m o rest = ground arith

validate_servers-step :
    (ids : List String) (s : RemoteServer) (ss : List RemoteServer)
    → are_good (validate_servers ids (s ∷ ss)) ≡ (
        not (is_blank s.id)
        && not (mem_str s.id ids)
        && server_accepted s
        && are_good (validate_servers (s.id ∷ ids) ss))
unfolding validate_servers
validate_servers-step ids s ss =
    step (is_blank s.id) (mem_str s.id ids) (validate_server s) (validate_servers (s.id ∷ ids) ss)

-- How the conditions on one entry and those on the others come together.
pub combine :
    (b m a n d o o' w f g : Bool)
    → g ≡ ((n && d) && o' && f)
    → o' ≡ (o && not w)
    → (not b && not m && a && g) ≡ (((not b && n) && (not w && d)) && (not m && o) && (a && f))
combine b m a n d o o' w f g h k = ground (arith, h, k)

pub validate_servers-are_good :
    (ids : List String) (ss : List RemoteServer)
    → are_good (validate_servers ids ss) ≡ servers_ok ids ss
unfolding validate_servers
validate_servers-are_good ids [] = refl
validate_servers-are_good ids (s ∷ ss) =
    let is = map (λ s. s.id) ss in
    validate_servers-step ids s ss
    ∙ combine (is_blank s.id) (mem_str s.id ids) (server_accepted s)
        (all (λ i. not (is_blank i)) is) (distinct is) (none_in ids is) (none_in (s.id ∷ ids) is)
        (mem_str s.id is) (all server_accepted ss) (are_good (validate_servers (s.id ∷ ids) ss))
        (validate_servers-are_good (s.id ∷ ids) ss) (none_in-cons s.id ids is)

-- The identifiers that the loop returns.
abbrev ids_of : Servers → List String
ids_of (bad_servers e) = []
ids_of (server_ids ids) = ids

step-result :
    (b m : Bool) (o : Option ConfigError) (rest : Servers) (ids : List String)
    → (if b
        then bad_servers no_server_id
        else if m
        then bad_servers duplicate_server
        else elim o [ some e ↦ bad_servers e | none ↦ rest ])
      ≡ server_ids ids
    → rest ≡ server_ids ids
step-result b m o rest ids h = ground (arith, h)

or_swap : (a b c : Bool) → ((a || b) || c) ≡ (b || (a || c))
or_swap a b c = ground arith

or_false : (a : Bool) → a ≡ (a || false)
or_false a = ground arith

pub mem_str-validate_servers :
    (x : String) (ids ids' : List String) (ss : List RemoteServer)
    → validate_servers ids ss ≡ server_ids ids'
    → mem_str x ids' ≡ (mem_str x ids || mem_str x (map (λ s. s.id) ss))
unfolding validate_servers
mem_str-validate_servers x ids ids' [] h =
    ap (λ is. mem_str x is) (sym (ap ids_of h)) ∙ or_false (mem_str x ids)
mem_str-validate_servers x ids ids' (s ∷ ss) h =
    mem_str-validate_servers x (s.id ∷ ids) ids' ss (
      step-result (is_blank s.id) (mem_str s.id ids) (validate_server s)
        (validate_servers (s.id ∷ ids) ss) ids' h)
    ∙ or_swap (str_eq s.id x) (mem_str x ids) (mem_str x (map (λ s. s.id) ss))
