-- ===== src/Config/Accepted.antt =====
-- Which configurations LoadConfig of backend/internal/monitoring/config.go accepts.
use healthops.Prelude.{
  String, Bool, true, false, not, ◌&&◌, ◌||◌, Option, none, some, List, [], ◌∷◌, ◌≡◌, refl, arith,
  map, all, is_blank, mem_str, is_nil, is_none, if◌then◌else◌, inl, inr, ◌⊎◌, ◌∙◌, sym, ap,
}
use healthops.Types.{CheckConfig}
use healthops.Config.Texts.{Library}
use healthops.Config.Load.{
  Config, ConfigError, no_check_id, duplicate_check, unknown_server, cons_check, no_checks, Servers,
  bad_servers, server_ids, Checks, bad_check, good_checks, Loaded, config_error, loaded,
  validate_servers, validate_check, validate_checks, with_id, validate,
}
use healthops.Config.Identifiers.{
  distinct, none_in, are_ids, server_accepted, are_good, none_in-cons, combine,
  validate_servers-are_good, mem_str-validate_servers,
}

-- A check refers to no server or to one that there is, and keeps the rules of its type.
abbrev pub check_accepted : Library → Bool → List String → CheckConfig → Bool
check_accepted lib allowed servers c =
    (is_blank c.server_id || mem_str c.server_id servers) && is_none (validate_check lib allowed c)

abbrev are_accepted : Checks → Bool
are_accepted (bad_check e) = false
are_accepted (good_checks cs) = true

check_step :
    (b m r s : Bool) (c : CheckConfig) (o : Option ConfigError) (rest : Checks)
    → are_accepted (
        if b
        then bad_check no_check_id
        else if m
        then bad_check duplicate_check
        else if not r && not s
        then bad_check unknown_server
        else elim o [ some e ↦ bad_check e | none ↦ cons_check c rest ])
      ≡ (not b && not m && ((r || s) && is_none o) && are_accepted rest)
check_step b m r s c o rest = ground arith

-- The conditions on the checks, with their identifiers, after those with the identifiers `seen`.
abbrev checks_ok : Library → Bool → List String → List String → List CheckConfig → Bool
checks_ok lib allowed servers seen cs =
    are_ids (map (λ c. c.id) cs)
    && none_in seen (map (λ c. c.id) cs)
    && all (check_accepted lib allowed servers) cs

validate_checks-are_accepted :
    (lib : Library) (allowed : Bool) (servers seen : List String) (cs : List CheckConfig)
    → are_accepted (validate_checks lib allowed servers seen cs)
      ≡ checks_ok lib allowed servers seen (map (with_id lib) cs)
unfolding validate_checks
validate_checks-are_accepted lib allowed servers seen [] = refl
validate_checks-are_accepted lib allowed servers seen (c ∷ cs) =
    let d = with_id lib c in
    let ds = map (with_id lib) cs in
    let is = map (λ e. e.id) ds in
    let rest = validate_checks lib allowed servers (d.id ∷ seen) cs in
    check_step (is_blank d.id) (mem_str d.id seen) (is_blank d.server_id)
      (mem_str d.server_id servers) d (validate_check lib allowed d) rest
    ∙ combine (is_blank d.id) (mem_str d.id seen) (check_accepted lib allowed servers d)
        (all (λ i. not (is_blank i)) is) (distinct is) (none_in seen is) (none_in (d.id ∷ seen) is)
        (mem_str d.id is) (all (check_accepted lib allowed servers) ds) (are_accepted rest)
        (validate_checks-are_accepted lib allowed servers (d.id ∷ seen) cs)
        (none_in-cons d.id seen is)

-- The checks that the loop returns are all, with their identifiers.
abbrev checks_of : List CheckConfig → Checks → List CheckConfig
checks_of ds (bad_check e) = ds
checks_of ds (good_checks cs) = cs

check_step-result :
    (b m r s : Bool) (c : CheckConfig) (o : Option ConfigError) (rest : Checks)
    (ds : List CheckConfig)
    → checks_of ds rest ≡ ds
    → checks_of (c ∷ ds) (
        if b
        then bad_check no_check_id
        else if m
        then bad_check duplicate_check
        else if not r && not s
        then bad_check unknown_server
        else elim o [ some e ↦ bad_check e | none ↦ cons_check c rest ])
      ≡ c ∷ ds
check_step-result b m r s c o (bad_check e) ds h = ground arith
check_step-result b m r s c o (good_checks cs) ds h = ground (arith, h)

checks_of-validate_checks :
    (lib : Library) (allowed : Bool) (servers seen : List String) (cs : List CheckConfig)
    → checks_of (map (with_id lib) cs) (validate_checks lib allowed servers seen cs)
      ≡ map (with_id lib) cs
unfolding validate_checks
checks_of-validate_checks lib allowed servers seen [] = refl
checks_of-validate_checks lib allowed servers seen (c ∷ cs) =
    let d = with_id lib c in
    check_step-result (is_blank d.id) (mem_str d.id seen) (is_blank d.server_id)
      (mem_str d.server_id servers) d (validate_check lib allowed d)
      (validate_checks lib allowed servers (d.id ∷ seen) cs) (map (with_id lib) cs)
      (checks_of-validate_checks lib allowed servers (d.id ∷ seen) cs)

-- What is asked of a configuration: servers and checks have identifiers that are not blank and not
-- the same, the servers are well formed, there is a check, and each check, with its identifier,
-- keeps its type's rules and refers to a server that there is or to none.
abbrev pub config_ok : Library → Config → Bool
config_ok lib c =
    let ids = map (λ s. s.id) c.servers in
    let ds = map (with_id lib) c.checks in
    (are_ids ids && all server_accepted c.servers)
    && not (is_nil c.checks)
    && (are_ids (map (λ d. d.id) ds) && all (check_accepted lib c.allow_command_checks ids) ds)

abbrev pub config_of : Loaded → Option Config
config_of (config_error e) = none
config_of (loaded c) = some c

-- Lists in which the same identifiers stand accept the same checks.
all-check_accepted :
    (lib : Library) (allowed : Bool) (ids ids' : List String) (cs : List CheckConfig)
    → ((x : String) → mem_str x ids ≡ mem_str x ids')
    → all (check_accepted lib allowed ids) cs ≡ all (check_accepted lib allowed ids') cs
all-check_accepted lib allowed ids ids' cs same = λ i.
    all
      (λ c. (is_blank c.server_id || same c.server_id i) && is_none (validate_check lib allowed c))
      cs

none_in-nil : (is : List String) → none_in [] is ≡ true
none_in-nil [] = refl
none_in-nil (i ∷ is) = ground (arith, none_in-nil is)

Servers-cases :
    (r : Servers)
    → ((e : ConfigError) × (r ≡ bad_servers e)) ⊎ ((is : List String) × (r ≡ server_ids is))
Servers-cases (bad_servers e) = inl (e, refl)
Servers-cases (server_ids is) = inr (is, refl)

drop_none_in : (a b o : Bool) → o ≡ true → (a && o && b) ≡ (a && b)
drop_none_in a b o h = ground (arith, h)

and_none : (s e k : Bool) (d : Option Config) → s ≡ false → none ≡ (if s && e && k then d else none)
and_none s e k d h = ground (arith, h)

and_some :
    (s e k : Bool) (d : Option Config)
    → s ≡ true
    → (if e && k then d else none) ≡ (if s && e && k then d else none)
and_some s e k d h = ground (arith, h)

-- The part of validate after the servers.
rest_loaded :
    (nil k : Bool) (r : Checks) (c : Config) (ds : List CheckConfig)
    → are_accepted r ≡ k
    → checks_of ds r ≡ ds
    → config_of (
        if nil then config_error no_checks else elim r [
          | bad_check e ↦ config_error e
          | good_checks cs ↦ loaded (record c { checks = cs })
        ])
      ≡ (if not nil && k then some (record c { checks = ds }) else none)
rest_loaded true k r c ds h h' = refl
rest_loaded false k (bad_check e) c ds h h' = ground (arith, h)
rest_loaded false k (good_checks cs) c ds h h' = rw (← h, ← h') refl

-- A configuration is accepted exactly if it is as asked, and then it is loaded as it stands but for
-- the identifiers that checks without one get.
validate-config_ok :
    (lib : Library) (c : Config)
    → config_of (validate lib c)
      ≡ (if config_ok lib c then some (record c { checks = map (with_id lib) c.checks }) else none)
unfolding validate
validate-config_ok lib c =
    let ids = map (λ s. s.id) c.servers in
    let ds = map (with_id lib) c.checks in
    let allowed = c.allow_command_checks in
    let s = are_ids ids && all server_accepted c.servers in
    let k = are_ids (map (λ d. d.id) ds) && all (check_accepted lib allowed ids) ds in
    let done = some (record c { checks = ds }) in
    let fine =
      validate_servers-are_good [] c.servers
      ∙ drop_none_in (are_ids ids) (all server_accepted c.servers) (none_in [] ids)
          (none_in-nil ids) in
    elim (Servers-cases (validate_servers [] c.servers)) [
      | inl (e, bad) ↦
          rw (bad, validate)
            (and_none s (not (is_nil c.checks)) k done (sym fine ∙ ap are_good bad))
      | inr (is, good) ↦
          let result = validate_checks lib allowed is [] c.checks in
          let accepted : are_accepted result ≡ k =
            validate_checks-are_accepted lib allowed is [] c.checks
            ∙ drop_none_in (are_ids (map (λ d. d.id) ds)) (all (check_accepted lib allowed is) ds)
                (none_in [] (map (λ d. d.id) ds)) (none_in-nil (map (λ d. d.id) ds))
            ∙ ap (λ b. are_ids (map (λ d. d.id) ds) && b)
                (all-check_accepted lib allowed is ids ds
                  (λ x. mem_str-validate_servers x [] is c.servers good)) in
          rw (good, validate)
            (rest_loaded (is_nil c.checks) k result c ds accepted
                (checks_of-validate_checks lib allowed is [] c.checks)
              ∙ and_some s (not (is_nil c.checks)) k done (sym fine ∙ ap are_good good))
    ]
