-- ===== src/Scenarios/Suggestions.antt =====
-- Suggestions that come twice, a decision, and one that comes too late: automation/engine.go.
use healthops.Prelude.{◌≤◌, some, List, [], ◌∷◌, refl, arith}
use healthops.Automation.Engine.{AiAction, Engine, Library, SuggestRequest, answered}
use healthops.Automation.Calls.{Call, suggesting, listing, approving, rejecting, run}
use healthops.Automation.Pending.{waiting, run-once}
use healthops.Automation.Audited.{IsAudited, run-IsAudited}

abbrev restart : AiAction
restart = record {
  type = "restart";
  title = "Restart it";
  description = "";
  risk = "low";
  command = "";
  reason = "it hangs";
}

abbrev lib : Library
lib = record {
  action_id = λ type title now. title;
  audit_id = λ now. "aud";
  fold = λ s. s;
  separator = ":";
  unmarshal = λ s. some (restart ∷ restart ∷ []);
}

abbrev no_request : SuggestRequest
no_request = record { incident_id = ""; check_id = "web" }

abbrev calls : List Call
calls =
    suggesting 1 (answered []) no_request
    ∷ suggesting 2 (answered []) no_request
    ∷ approving 3 "Restart it" "root"
    ∷ suggesting 4 (answered []) no_request
    ∷ rejecting 5 "Restart it" "root" "no"
    ∷ listing 6 ""
    ∷ []

abbrev empty : Engine
empty = record { actions = []; audit = [] }

run-once_example : waiting lib "restart:Restart it" (run lib calls empty).actions ≤ 1
run-once_example = run-once lib calls empty "restart:Restart it" (λ k. omega arith)

run-IsAudited_example : IsAudited (run lib calls empty)
run-IsAudited_example = run-IsAudited lib calls empty (λ id. (refl, refl, refl), refl)
