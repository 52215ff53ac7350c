-- ===== src/Config/Secrets.antt =====
-- The passwords of a check: prepareCheckSecrets of backend/internal/monitoring/secrets.go. What
-- Encrypt of cryptoutil returns is an argument, with `none` for an error. A block is returned also
-- with an error, as the code has changed it by then.
use healthops.Prelude.{
  String, Bool, true, false, Option, none, some, ◌&&◌, not, if◌then◌else◌, is_blank, str_eq,
}
use healthops.Blocks.{MysqlCheckConfig, SshCheckConfig}
use healthops.Types.{CheckConfig}

-- cryptoutil.SecretMask
abbrev pub secret_mask : String
secret_mask = "********"

-- A password and its ciphertext.
pub record Secret : Type 0 where
  pub plain : String
  pub enc : String

-- Encrypting a password into the ciphertext of a block.
abbrev pub encrypt_into : (String → Option String) → String → Secret → Secret × Bool
encrypt_into encrypt text s = elim (encrypt text) [
  | none ↦ (s, false)
  | some enc ↦ (record s { enc = enc }, true)
]

abbrev pub kept : (String → Option String) → Option Secret → Secret → Secret × Bool
kept encrypt none s = (s, true)
kept encrypt (some prev) s =
    let s' = record s { enc = prev.enc } in
    if is_blank prev.enc && not (is_blank prev.plain)
    then encrypt_into encrypt prev.plain s'
    else (s', true)

abbrev pub drop_plain : Secret × Bool → Secret × Bool
drop_plain (s, true) = (record s { plain = "" }, true)
drop_plain (s, false) = (s, false)

-- With no password sent, a ciphertext from before is kept.
abbrev pub old_or_new : Option Secret → Secret → Secret × Bool
old_or_new none s = (s, true)
old_or_new (some p) s = if is_blank s.enc then (record s { enc = p.enc }, true) else (s, true)

-- The switch, which is the same for mysql and ssh blocks.
unfoldable pub prepare_secret : (String → Option String) → Option Secret → Secret → Secret × Bool
prepare_secret encrypt prev s =
    if str_eq s.plain secret_mask
    then kept encrypt prev (record s { plain = "" })
    else if not (is_blank s.plain)
    then drop_plain (encrypt_into encrypt s.plain s)
    else old_or_new prev s

abbrev pub mysql_secret : MysqlCheckConfig → Secret
mysql_secret b = record { plain = b.password; enc = b.password_enc }

abbrev pub ssh_secret : SshCheckConfig → Secret
ssh_secret b = record { plain = b.password; enc = b.password_enc }

abbrev pub option_map {ℓ} : {A : Type ℓ} {B : Type ℓ} → (A → B) → Option A → Option B
option_map f none = none
option_map f (some a) = some (f a)

-- With whether it returned nil; `prev` is the block of the check as it was, where there is one.
unfoldable pub prepare_mysql :
    (String → Option String) → Option MysqlCheckConfig → MysqlCheckConfig → MysqlCheckConfig × Bool
unfolding prepare_secret
prepare_mysql encrypt prev b =
    let (s, ok) = prepare_secret encrypt (option_map mysql_secret prev) (mysql_secret b) in
    (record b { password = s.plain; password_enc = s.enc }, ok)

unfoldable pub prepare_ssh :
    (String → Option String) → Option SshCheckConfig → SshCheckConfig → SshCheckConfig × Bool
unfolding prepare_secret
prepare_ssh encrypt prev b =
    let (s, ok) = prepare_secret encrypt (option_map ssh_secret prev) (ssh_secret b) in
    (record b { password = s.plain; password_enc = s.enc }, ok)

-- The part for ssh, and the part for mysql before it, by the check's block.
abbrev pub prepare_ssh_of :
    (String → Option String)
    → Option SshCheckConfig
    → CheckConfig
    → Option SshCheckConfig
    → CheckConfig × Bool
prepare_ssh_of encrypt prev c none = (c, true)
prepare_ssh_of encrypt prev c (some b) =
    (record c { ssh = some (prepare_ssh encrypt prev b).0 }, (prepare_ssh encrypt prev b).1)

abbrev pub prepare_both_of :
    (String → Option String)
    → Option MysqlCheckConfig
    → Option SshCheckConfig
    → CheckConfig
    → Option MysqlCheckConfig
    → CheckConfig × Bool
prepare_both_of encrypt prev_mysql prev_ssh c none = prepare_ssh_of encrypt prev_ssh c c.ssh
prepare_both_of encrypt prev_mysql prev_ssh c (some b) =
    let c' = record c { mysql = some (prepare_mysql encrypt prev_mysql b).0 } in
    if (prepare_mysql encrypt prev_mysql b).1
    then prepare_ssh_of encrypt prev_ssh c' c.ssh
    else (c', false)

-- prepareCheckSecrets, with the blocks of the check as it was.
unfoldable pub prepare_check_secrets :
    (String → Option String)
    → Option MysqlCheckConfig
    → Option SshCheckConfig
    → CheckConfig
    → CheckConfig × Bool
prepare_check_secrets encrypt prev_mysql prev_ssh c =
    prepare_both_of encrypt prev_mysql prev_ssh c c.mysql

-- No block has a password in clear.
abbrev pub mysql_clear : Option MysqlCheckConfig → Bool
mysql_clear none = true
mysql_clear (some b) = is_blank b.password

abbrev pub ssh_clear : Option SshCheckConfig → Bool
ssh_clear none = true
ssh_clear (some b) = is_blank b.password

abbrev pub is_clear : CheckConfig → Bool
is_clear c = mysql_clear c.mysql && ssh_clear c.ssh
