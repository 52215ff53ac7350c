-- ===== src/Scenarios/Repairs.antt =====
-- Remediations: remediation/engine.go.
use healthops.Prelude.{◌≤◌, ◌*◌, true, false, none, some, List, [], ◌∷◌, ◌≡◌, map, refl, arith, pos}
use healthops.Types.{second}
use healthops.Remediation.Data.{
  AllowedAction, GlobalConfig, CheckInfo, Bytes, command, defaults, count_attempts,
}
use healthops.Remediation.Redact.{codes, redact}
use healthops.Remediation.Lowered.{lower}
use healthops.Remediation.Guards.{Engine}
use healthops.Remediation.Engine.{World, ran, execute, try_remediate, manual_remediate}
use healthops.Remediation.Attempts.{Call, automatic, manual, run, tries, run-bounded}
use healthops.Remediation.Cooldown.{execute-quiet}
use healthops.Remediation.Redaction.{redact-ends}

abbrev restart : AllowedAction
restart = record {
  id = "restart";
  name = "Restart";
  type = command;
  command = "systemctl restart web";
  timeout_seconds = pos 30;
}

abbrev live : GlobalConfig
live = record {
  enabled = true;
  dry_run = false;
  max_concurrent = pos 1;
  output_limit_bytes = pos 100;
}

abbrev web_info : CheckInfo
web_info = record {
  check_id = "web";
  ref = record {
    action_ref = "restart";
    max_attempts = pos 1;
    cooldown_seconds = pos 60;
    verify_after_seconds = pos 0;
    escalate_on_exhaustion = true;
  };
  incident_id = "inc";
  inline_action = none;
}

abbrev idle : Engine
idle = record {
  config = some live;
  actions = ("restart", restart) ∷ [];
  attempts = [];
  in_progress = 0;
  cooldowns = [];
}

abbrev answers : World
answers = record {
  id = "rem_1";
  created_at = 1;
  is_stored = true;
  execution = ran [] (pos 0);
  duration_ms = 2;
  finished_at = 3;
  analysis = none;
  to_lower = map lower;
}

abbrev calls : List Call
calls = automatic 1 answers web_info ∷ manual (100 * second) answers "admin" web_info ∷ []

run-bounded_example : tries "inc" (run calls idle) ≤ 1
unfolding defaults count_attempts
run-bounded_example = run-bounded "inc" 1 refl calls idle refl (omega arith)

execute-quiet_example :
    let e' = (execute web_info restart live 1 answers idle).0 in
    ((try_remediate 4 answers web_info e').0 ≡ e')
    × ((manual_remediate 4 answers "admin" web_info e').0 ≡ e')
execute-quiet_example =
    execute-quiet web_info web_info restart live 1 answers answers 4 "admin" idle refl refl refl
      (omega arith)

abbrev leak : Bytes
leak = codes "user=root PASSWORD=hunter2 password=a=b&x"

abbrev password : Bytes
password = codes "password="

redact-ends_example : redact (map lower) 6 password leak ≡ redact (map lower) 5 password leak
redact-ends_example =
    redact-ends (map lower) (λ t h. refl) 6 5 password leak refl refl (omega arith) (omega arith)
