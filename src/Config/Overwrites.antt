-- ===== src/Config/Overwrites.antt =====
-- What the requests of backend/internal/monitoring/service.go that write checks do to the store.
use healthops.Prelude.{
  String, Bool, true, false, not, none, some, List, ◌≡◌, refl, if◌then◌else◌, is_none, str_eq_refl,
  Bool-cases, inl, inr, ◌⊎◌,
}
use healthops.Prelude.Maps.{Map, lookup, lookup-insert}
use healthops.Blocks.{HeartbeatCheckConfig}
use healthops.Types.{CheckConfig}
use healthops.FileStore.Operations.{update, put_check}
use healthops.FileStore.Checks.{by_id, by_id-put_check}
use healthops.Heartbeat.Pings.{HeartbeatState, new_state, register}
use healthops.Config.Texts.{Library}
use healthops.Config.Executors.{heartbeat, lookup_check_executor}
use healthops.Config.Load.{ConfigError, check_defaults, with_id, validate_check}
use healthops.Config.Secrets.{prepare_check_secrets}
use healthops.Config.Writes.{
  Site, Reply, created, updated, deleted, bad_request, not_found, server_error, Request, registered,
  finish, create_check, find_check, shared, update_check,
}

abbrev is_created : Reply → Bool
is_created (created c) = true
is_created (updated c) = false
is_created deleted = false
is_created bad_request = false
is_created not_found = false
is_created server_error = false

abbrev reply_check : Reply → CheckConfig → CheckConfig
reply_check (created c) d = c
reply_check (updated c) d = d
reply_check deleted d = d
reply_check bad_request d = d
reply_check not_found d = d
reply_check server_error d = d

lookup-put_check :
    (c : CheckConfig) (cs : List CheckConfig) → lookup c.id (by_id (put_check c cs)) ≡ some c
lookup-put_check c cs =
    rw (by_id-put_check c cs, lookup-insert c.id c.id c (by_id cs), str_eq_refl c.id) refl

registered-new :
    (id : String) (c : CheckConfig) (b : HeartbeatCheckConfig) (states : Map HeartbeatState)
    → c.heartbeat ≡ some b
    → lookup_check_executor c.type ≡ some heartbeat
    → lookup b.token states ≡ none
    → lookup b.token (registered id c states) ≡ some (new_state b.token id)
unfolding register
registered-new id c b states block type fresh =
    rw
      (
        block,
        type,
        registered,
        register,
        fresh,
        lookup-insert b.token b.token (new_state b.token id) states,
        str_eq_refl b.token,
      )
      refl

abbrev pub checks_of : {F : Type 0} → Site F → List CheckConfig
checks_of site = site.store.state.checks

module _ {F : Type 0} where
  -- Saving stores the check in place of one with its identifier, or nothing.
  abbrev Saved : (CheckConfig → Reply) → CheckConfig → Site F → Site F × Reply → Type 0
  Saved reply c site result =
      ((result.1 ≡ reply c) × (checks_of result.0 ≡ put_check c (checks_of site)))
      ⊎ ((result.1 ≡ server_error) × (result.0.store ≡ site.store))

  -- What creating a check does to the store.
  abbrev pub Creation : Site F → Site F × Reply → Type 0
  Creation site result =
      ((c : CheckConfig) × (result.1 ≡ created c)
        × (checks_of result.0 ≡ put_check c (checks_of site)))
      ⊎ ((is_created result.1 ≡ false) × (result.0.store ≡ site.store))

  heartbeats-steps :
      (refused : Bool) (r : Request) (prepared : CheckConfig × Bool) (site : Site F)
      → (if refused then (site, bad_request) else finish r created prepared site).0.heartbeats
        ≡ site.heartbeats
  unfolding update
  heartbeats-steps true r prepared site = refl
  heartbeats-steps false r (c, false) site = refl
  heartbeats-steps false r (c, true) site = elim (Bool-cases r.is_written) [
    | inl written ↦ rw written refl
    | inr lost ↦ rw lost refl
  ]

  -- Register is called before the identifier is built: a heartbeat check without an identifier is
  -- created, but its token stands for the blank identifier.
  create_check-heartbeat :
      (lib : Library) (allowed : Bool) (r : Request) (c : CheckConfig) (b : HeartbeatCheckConfig)
      (site : Site F)
      → (check_defaults lib r.token c).heartbeat ≡ some b
      → lookup_check_executor (check_defaults lib r.token c).type ≡ some heartbeat
      → lookup b.token site.heartbeats ≡ none
      → lookup b.token (create_check lib allowed r c site).0.heartbeats
        ≡ some (new_state b.token (check_defaults lib r.token c).id)
  unfolding create_check
  create_check-heartbeat lib allowed r c b site block type fresh =
      let c1 = check_defaults lib r.token c in
      let c2 = with_id lib c1 in
      let site1 = record site { heartbeats = registered c1.id c1 site.heartbeats } in
      rw
        (heartbeats-steps (not (is_none (validate_check lib allowed c2))) r
          (prepare_check_secrets r.encrypt none none c2) site1)
        (registered-new c1.id c1 b site.heartbeats block type fresh)

  -- A change of a check that is refused, as it breaks a rule, leaves the file as it was, but not the
  -- memory: the stored check shows what the body set in the blocks that the check had.
  update_check-refused :
      (lib : Library) (allowed : Bool) (r : Request) (patch : CheckConfig → CheckConfig × Bool)
      (old : CheckConfig) (e : ConfigError) (site : Site F)
      → find_check old.id (checks_of site) ≡ some old
      → (patch old).1 ≡ true
      → validate_check lib allowed
          (check_defaults lib r.token (record (patch old).0 { id = old.id }))
        ≡ some e
      → let result = update_check lib allowed r patch old.id site in
        let patched = record (patch old).0 { id = old.id } in
        (result.1 ≡ bad_request)
        × (result.0.store.disk ≡ site.store.disk)
        × (lookup old.id (by_id (checks_of result.0))
            ≡ some (shared old patched (check_defaults lib r.token patched)))
  unfolding update_check shared
  update_check-refused lib allowed r patch old e site found decoded refused =
      let patched = record (patch old).0 { id = old.id } in
      let seen = shared old patched (check_defaults lib r.token patched) in
      rw (found, update_check, decoded, refused)
        (refl, refl, lookup-put_check seen (checks_of site))
