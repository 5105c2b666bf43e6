-- ===== src/Tests/Ledgers.antt =====
-- The event ledger, the inert ledger, the request gate and the model store at concrete runs.
use langgraph_agent.Base.{ℕ, none, List, [], ◌∷◌, filter, reverse, slice_end, ◌≡◌, eqb}
use langgraph_agent.Types.{SseEvent, Payload, type_of}
use langgraph_agent.EventLedger.{ledger_events, is_ledger_type}
use langgraph_agent.EventLedger.Latest.{latest}
use langgraph_agent.EventLedger.Window.{ledger_events-latest}
use langgraph_agent.InertLedger.{ElementState}
use langgraph_agent.ModelStore.{Event, start, finish, rejected, initial_models, run}
use langgraph_agent.ModelStore.Superseded.{current_only, run-current_only}
use langgraph_agent.Tests.Data.{frame, step_two}

-- A replayed frame, a heartbeat and a frame that comes once.
abbrev buffer : List SseEvent
buffer = step_two ∷ frame "t1" Payload.heartbeat ∷ frame "t1" Payload.task_resumed ∷ step_two ∷ []

ledger_events-latest_example :
    ledger_events buffer 1
    ≡ reverse (slice_end 1 (filter (λ ev. is_ledger_type (type_of ev)) (latest buffer)))
ledger_events-latest_example = ledger_events-latest buffer 1

abbrev page : ℕ → ElementState
page el = record { inert = eqb el 3; aria_hidden = none }

-- The first refresh is answered after the second has started.
abbrev crossed : List Event
crossed = start ∷ start ∷ finish 2 rejected ∷ finish 1 rejected ∷ []

run-current_only_example : run (current_only 0 crossed) initial_models ≡ run crossed initial_models
run-current_only_example = run-current_only crossed initial_models
