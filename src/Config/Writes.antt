-- ===== src/Config/Writes.antt =====
-- The authorized requests that write checks: handleChecks (POST), handleCheckByID (PUT, DELETE) and
-- decodeCheckUpdate of backend/internal/monitoring/service.go, with the store, the scheduler and
-- the heartbeats that they change. The audit log and the bodies of replies are left out.
use healthops.Prelude.{
  String, Bool, not, Option, none, some, List, [], ◌∷◌, ◌++◌, if◌then◌else◌, is_none, str_eq, take,
  drop, length,
}
use healthops.Prelude.Maps.{Map}
use healthops.Blocks.{MysqlCheckConfig, SshCheckConfig}
use healthops.Types.{Time, CheckConfig}
use healthops.FileStore.Operations.{FileStore, update, put_check, upsert_check, delete_check}
use healthops.Scheduler.Timers.{CheckScheduler, upsert_schedule, remove_schedule}
use healthops.Heartbeat.Pings.{HeartbeatState, register}
use healthops.Config.Texts.{Library}
use healthops.Config.Executors.{heartbeat, lookup_check_executor}
use healthops.Config.Load.{check_defaults, with_id, validate_check}
use healthops.Config.Secrets.{prepare_check_secrets}

pub record Site (F : Type 0) : Type 0 where
  pub store : FileStore F
  pub scheduler : CheckScheduler
  pub heartbeats : Map HeartbeatState

pub data Reply : Type 0 where
  created updated : CheckConfig → Reply
  deleted bad_request not_found server_error : Reply

-- What a request brings besides its check: the token that a heartbeat check may get, what Encrypt
-- returns, whether the write succeeds and the time that it reads.
pub record Request : Type 0 where
  pub token : String
  pub encrypt : String → Option String
  pub is_written : Bool
  pub now : Time

-- The call of Register in ApplyDefaults, with the identifier that the check has then.
abbrev pub registered : String → CheckConfig → Map HeartbeatState → Map HeartbeatState
registered id c states = elim c.heartbeat [
  | none ↦ states
  | some b ↦ elim (lookup_check_executor c.type) [
    | some heartbeat ↦ register b.token id states
    | _ ↦ states
  ]
]

-- Storing a check and scheduling it, at the end of POST and PUT.
abbrev pub save :
    {F : Type 0} → Request → (CheckConfig → Reply) → CheckConfig → Site F → Site F × Reply
save r reply c site =
    let written = update r.is_written r.now (upsert_check c) site.store in
    if written.1
    then (record site { store = written.0; scheduler = upsert_schedule c site.scheduler }, reply c)
    else (record site { store = written.0 }, server_error)

-- What is left once the secrets are prepared.
abbrev pub finish :
    {F : Type 0} → Request → (CheckConfig → Reply) → CheckConfig × Bool → Site F → Site F × Reply
finish r reply prepared site =
    if prepared.1 then save r reply prepared.0 site else (site, bad_request)

unfoldable pub create_check :
    {F : Type 0} → Library → Bool → Request → CheckConfig → Site F → Site F × Reply
unfolding update upsert_check check_defaults with_id validate_check prepare_check_secrets
    upsert_schedule
create_check lib allowed r c site =
    let c1 = check_defaults lib r.token c in
    let site1 = record site { heartbeats = registered c1.id c1 site.heartbeats } in
    let c2 = with_id lib c1 in
    if not (is_none (validate_check lib allowed c2))
    then (site1, bad_request)
    else finish r created (prepare_check_secrets r.encrypt none none c2) site1

-- The first check with an identifier.
abbrev pub find_check : String → List CheckConfig → Option CheckConfig
find_check id [] = none
find_check id (c ∷ cs) = if str_eq c.id id then some c else find_check id cs

-- decodeCheckUpdate decodes into a copy of the check, whose pointers and whose tags are the store's
-- own: a block that the check had and that the body does not set to null is one object with the
-- stored one, and shows what happens to it later. `old` is the stored check, `patched` what the
-- fields of the body make of it, and `final` what becomes of that.
abbrev share {ℓ} : {A : Type ℓ} → Option A → Option A → Option A → Option A
share none patched final = none
share (some a) none final = some a
share (some a) (some b) none = some a
share (some a) (some b) (some c) = some c

abbrev share_tags : List String → List String → List String
share_tags old new = take (length old) new ++ drop (length new) old

unfoldable pub shared : CheckConfig → CheckConfig → CheckConfig → CheckConfig
shared old patched final = record old {
  enabled = share old.enabled patched.enabled final.enabled;
  tags = share_tags old.tags patched.tags;
  mysql = share old.mysql patched.mysql final.mysql;
  ssh = share old.ssh patched.ssh final.ssh;
  ssl = share old.ssl patched.ssl final.ssl;
  dns = share old.dns patched.dns final.dns;
  ping = share old.ping patched.ping final.ping;
  domain = share old.domain patched.domain final.domain;
  heartbeat = share old.heartbeat patched.heartbeat final.heartbeat;
}

-- The memory after that, and the file as it is.
abbrev pub seen_through : {F : Type 0} → CheckConfig → Site F → Site F
seen_through c site =
    let s = site.store.state in
    record site { store = record site.store { state = record s { checks = put_check c s.checks } } }

-- The block that prepareCheckSecrets compares with is the block itself where it is shared: its
-- password is then the one just cleared.
abbrev mysql_before : Option MysqlCheckConfig → Option MysqlCheckConfig → Option MysqlCheckConfig
mysql_before none current = none
mysql_before (some b) none = some b
mysql_before (some b) (some c) = some (record c { password = "" })

abbrev ssh_before : Option SshCheckConfig → Option SshCheckConfig → Option SshCheckConfig
ssh_before none current = none
ssh_before (some b) none = some b
ssh_before (some b) (some c) = some (record c { password = "" })

-- PUT for a check: `patch` is what the decoding of the body's fields does to a check, with whether
-- all of them decode. The identifier stays.
unfoldable pub update_check :
    {F : Type 0}
    → Library
    → Bool
    → Request
    → (CheckConfig → CheckConfig × Bool)
    → String
    → Site F
    → Site F × Reply
unfolding update upsert_check check_defaults validate_check prepare_check_secrets upsert_schedule
    shared
update_check lib allowed r patch id site = elim (find_check id site.store.state.checks) [
  | none ↦ (site, not_found)
  | some old ↦
      let patched = record (patch old).0 { id = id } in
      if not (patch old).1
      then (seen_through (shared old patched patched) site, bad_request)
      else let c = check_defaults lib r.token patched in
        let site1 = record site { heartbeats = registered id c site.heartbeats } in
        if not (is_none (validate_check lib allowed c))
        then (seen_through (shared old patched c) site1, bad_request)
        else let prepared =
            prepare_check_secrets r.encrypt (mysql_before old.mysql patched.mysql)
              (ssh_before old.ssh patched.ssh) c in
          finish r updated prepared (seen_through (shared old patched prepared.0) site1)
]

-- DELETE for a check.
unfoldable pub remove_check : {F : Type 0} → Bool → Time → String → Site F → Site F × Reply
unfolding update delete_check remove_schedule
remove_check ok now id site =
    if is_none (find_check id site.store.state.checks)
    then (site, not_found)
    else let written = update ok now (delete_check id) site.store in
      if written.1
      then (
        record site { store = written.0; scheduler = remove_schedule id site.scheduler },
        deleted,
      )
      else (record site { store = written.0 }, server_error)
