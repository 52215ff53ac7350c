-- ===== src/Automation/Calls.antt =====
-- Sequences of calls of the engine of backend/internal/monitoring/automation/engine.go, each with its
-- time.
use healthops.Prelude.{String, List, [], ◌∷◌}
use healthops.Types.{Time}
use healthops.Automation.Engine.{
  Engine, Library, SuggestRequest, AiAnswer, suggest, list_actions, approve, reject,
}

pub data Call : Type 0 where
  suggesting : Time → AiAnswer → SuggestRequest → Call
  listing : Time → String → Call
  approving : Time → String → String → Call
  rejecting : Time → String → String → String → Call

abbrev pub perform : Library → Call → Engine → Engine
perform lib (suggesting now answer req) e = (suggest lib now answer req e).0
perform lib (listing now status) e = (list_actions now status e).0
perform lib (approving now id actor) e = (approve lib now id actor e).0
perform lib (rejecting now id actor reason) e = (reject lib now id actor reason e).0

abbrev pub run : Library → List Call → Engine → Engine
run lib [] e = e
run lib (c ∷ cs) e = run lib cs (perform lib c e)
