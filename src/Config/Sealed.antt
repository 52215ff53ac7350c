-- ===== src/Config/Sealed.antt =====
-- No password in clear is left by prepareCheckSecrets of backend/internal/monitoring/secrets.go.
use healthops.Prelude.{
  String, Bool, true, false, Option, none, some, ◌≡◌, refl, arith, is_blank, Bool-cases, inl, inr,
  str_eq, if◌then◌else◌,
}
use healthops.Blocks.{MysqlCheckConfig, SshCheckConfig}
use healthops.Types.{CheckConfig}
use healthops.Config.Secrets.{
  Secret, secret_mask, encrypt_into, kept, drop_plain, old_or_new, option_map, mysql_clear,
  prepare_ssh_of, prepare_both_of, prepare_secret, prepare_mysql, prepare_ssh,
  prepare_check_secrets, is_clear, mysql_secret, ssh_secret,
}

encrypt_into-plain :
    (encrypt : String → Option String) (text : String) (s : Secret)
    → (encrypt_into encrypt text s).0.plain ≡ s.plain
encrypt_into-plain encrypt text s = ground arith

kept-plain :
    (encrypt : String → Option String) (prev : Option Secret) (s : Secret)
    → (kept encrypt prev s).0.plain ≡ s.plain
kept-plain encrypt none s = refl
kept-plain encrypt (some p) s = ground arith

drop_plain-plain :
    (r : Secret × Bool) → (drop_plain r).1 ≡ true → is_blank (drop_plain r).0.plain ≡ true
drop_plain-plain (s, true) h = refl
drop_plain-plain (s, false) h = ground (arith, h)

old_or_new-plain :
    (prev : Option Secret) (s : Secret)
    → is_blank s.plain ≡ true
    → is_blank (old_or_new prev s).0.plain ≡ true
old_or_new-plain none s h = h
old_or_new-plain (some p) s h = ground (arith, h)

prepare_secret-plain :
    (encrypt : String → Option String) (prev : Option Secret) (s : Secret)
    → (prepare_secret encrypt prev s).1 ≡ true
    → is_blank (prepare_secret encrypt prev s).0.plain ≡ true
unfolding prepare_secret
prepare_secret-plain encrypt prev s h = elim (Bool-cases (str_eq s.plain secret_mask)) [
  | inl masked ↦
      rw (masked, prepare_secret) (rw (kept-plain encrypt prev (record s { plain = "" })) refl)
  | inr other ↦ elim (Bool-cases (is_blank s.plain)) [
    | inl blank ↦ rw (other, blank, prepare_secret) (old_or_new-plain prev s blank)
    | inr sent ↦
        rw (other, sent, prepare_secret)
          (drop_plain-plain (encrypt_into encrypt s.plain s)
            (rw (other, sent, prepare_secret) at h))
  ]
]

ssh_part-is_clear :
    (encrypt : String → Option String) (prev : Option SshCheckConfig) (c : CheckConfig)
    (o : Option SshCheckConfig)
    → c.ssh ≡ o
    → mysql_clear c.mysql ≡ true
    → (prepare_ssh_of encrypt prev c o).1 ≡ true
    → is_clear (prepare_ssh_of encrypt prev c o).0 ≡ true
unfolding prepare_ssh
ssh_part-is_clear encrypt prev c none same clear h = ground (arith, same, clear)
ssh_part-is_clear encrypt prev c (some b) same clear h =
    let sealed = prepare_secret-plain encrypt (option_map ssh_secret prev) (ssh_secret b) h in
    ground (arith, clear, sealed)

pick :
    (ok : Bool) (x y : CheckConfig × Bool)
    → y.1 ≡ false
    → (ok ≡ true → x.1 ≡ true → is_clear x.0 ≡ true)
    → (if ok then x else y).1 ≡ true
    → is_clear (if ok then x else y).0 ≡ true
pick true x y h k e = k refl e
pick false x y h k e = ground (arith, h, e)

both-is_clear :
    (encrypt : String → Option String) (prev_mysql : Option MysqlCheckConfig)
    (prev_ssh : Option SshCheckConfig) (c : CheckConfig) (o : Option MysqlCheckConfig)
    → c.mysql ≡ o
    → (prepare_both_of encrypt prev_mysql prev_ssh c o).1 ≡ true
    → is_clear (prepare_both_of encrypt prev_mysql prev_ssh c o).0 ≡ true
unfolding prepare_mysql
both-is_clear encrypt prev_mysql prev_ssh c none same h =
    ssh_part-is_clear encrypt prev_ssh c c.ssh refl (ground (arith, same)) h
both-is_clear encrypt prev_mysql prev_ssh c (some b) same h =
    let c' = record c { mysql = some (prepare_mysql encrypt prev_mysql b).0 } in
    pick (prepare_mysql encrypt prev_mysql b).1 (prepare_ssh_of encrypt prev_ssh c' c.ssh)
      (c', false) refl
      (λ ok.
        ssh_part-is_clear encrypt prev_ssh c' c.ssh refl
          (prepare_secret-plain encrypt (option_map mysql_secret prev_mysql) (mysql_secret b) ok))
      h

ssh_part-remediation :
    (encrypt : String → Option String) (prev : Option SshCheckConfig) (c : CheckConfig)
    (o : Option SshCheckConfig)
    → (prepare_ssh_of encrypt prev c o).0.remediation ≡ c.remediation
ssh_part-remediation encrypt prev c none = refl
ssh_part-remediation encrypt prev c (some b) = refl

both-remediation :
    (encrypt : String → Option String) (prev_mysql : Option MysqlCheckConfig)
    (prev_ssh : Option SshCheckConfig) (c : CheckConfig) (o : Option MysqlCheckConfig)
    → (prepare_both_of encrypt prev_mysql prev_ssh c o).0.remediation ≡ c.remediation
both-remediation encrypt prev_mysql prev_ssh c none = ssh_part-remediation encrypt prev_ssh c c.ssh
both-remediation encrypt prev_mysql prev_ssh c (some b) =
    let c' = record c { mysql = some (prepare_mysql encrypt prev_mysql b).0 } in
    ground (arith, ssh_part-remediation encrypt prev_ssh c' c.ssh)

-- A check that prepareCheckSecrets accepts has no password in clear in its mysql and its ssh block,
-- whatever was sent and whatever the check had before. Its remediation is the one that was sent, with
-- whatever password in clear the remediation's own ssh block has.
pub prepare_check_secrets-is_clear :
    (encrypt : String → Option String) (prev_mysql : Option MysqlCheckConfig)
    (prev_ssh : Option SshCheckConfig) (c : CheckConfig)
    → (prepare_check_secrets encrypt prev_mysql prev_ssh c).1 ≡ true
    → let c' = (prepare_check_secrets encrypt prev_mysql prev_ssh c).0 in
      (is_clear c' ≡ true) × (c'.remediation ≡ c.remediation)
unfolding prepare_check_secrets
prepare_check_secrets-is_clear encrypt prev_mysql prev_ssh c h = (
  both-is_clear encrypt prev_mysql prev_ssh c c.mysql refl h,
  both-remediation encrypt prev_mysql prev_ssh c c.mysql,
)
