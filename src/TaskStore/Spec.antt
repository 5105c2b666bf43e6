-- ===== src/TaskStore/Spec.antt =====
-- What taskStore.ts promises, without its representation: of each task what is shown of it, and which
-- task is selected. An operation on one task is a function of that task's view alone.
use langgraph_agent.Base.{
  ℕ, String, Bool, true, false, ◌&&◌, Option, none, some, List, [], ◌∷◌, ◌++◌, find?, last_n, eqb,
  ◌==◌, truthy, ◌or◌, or_else, is_some, if◌then◌else◌,
}
use langgraph_agent.Types.{Task, SseEvent, Payload, TraceMarker, type_of}
use langgraph_agent.Dict.{get}
use langgraph_agent.EventLedger.{is_ledger_type}
use langgraph_agent.ReduceTask.{apply_to_task}
use langgraph_agent.TaskStore.{TaskState, row_of, upserted, add_marker, event_limit, Action}
use langgraph_agent.TaskStore.Detail.{status_merged}

pub record View : Type 0 where
  pub snapshot : Option Task
  pub row : Option Task
  pub events : List SseEvent
  pub markers : List TraceMarker
  pub error : Option String

pub record Views : Type 0 where
  pub selected : Option String
  pub view : String → View

abbrev pub view_of : TaskState → String → View
view_of s j = record {
  snapshot = get s.detail j;
  row = row_of s j;
  events = get s.events_by_task j or [];
  markers = get s.markers j or [];
  error = get s.detail_error j;
}

abbrev pub views_of : TaskState → Views
views_of s = record { selected = s.current_task_id; view = view_of s }

abbrev pub nothing : View
nothing = record { snapshot = none; row = none; events = []; markers = []; error = none }

-- The snapshot and the row, if there is one, show the same task.
abbrev pub showing : Task → View → View
showing task v = record v { snapshot = some task; row = if is_some v.row then some task else none }

abbrev pub marked : SseEvent → Payload → List TraceMarker → List TraceMarker
marked ev (Payload.context_compressed d) old =
    add_marker (record { ts = ev.ts; compressed = d; task_id = ev.task_id; rest = ev.rest }) old
marked ev _ old = old

abbrev pub received : String → SseEvent → View → View
received id ev v = record (showing (apply_to_task (or_else v.snapshot v.row) id ev) v) {
  events = last_n event_limit (v.events ++ ev ∷ []);
  markers = marked ev ev.payload v.markers;
}

abbrev pub planned_from : Option Task → ℕ → View → View
planned_from none version v = v
planned_from (some task) version v =
    if eqb task.plan_version version then v else showing (record task { plan_version = version }) v

abbrev pub planned : ℕ → View → View
planned version v = planned_from v.snapshot version v

abbrev pub failed : String → View → View
failed message v = record v { error = if truthy message then some message else none }

-- One task's view changes.
abbrev pub at_task : String → (View → View) → Views → Views
at_task id f a = record a { view = λ j. if id == j then f (a.view j) else a.view j }

abbrev pub unselected : String → Option String → Option String
unselected id none = none
unselected id (some j) = if truthy j && (id == j) then none else some j

abbrev pub owner : Option String → SseEvent → String
owner selected ev = or_else ev.task_id selected or ""

abbrev pub promised : Action → Views → Views
promised (Action.set_tasks tasks) a = record a {
  view = λ j. record (a.view j) { row = find? (λ t. t.id == j) tasks };
}
promised (Action.set_detail_error id message) a = at_task id (failed message) a
promised (Action.set_plan_version id version) a = at_task id (planned version) a
promised (Action.set_current_task id) a = record a { selected = id }
promised (Action.remove_task id) a =
    at_task id (λ _. nothing) (record a { selected = unselected id a.selected })
promised (Action.switch_workspace dir) a = record a { selected = none }
promised (Action.upsert_task task) a = at_task task.id (λ v. showing (upserted v.snapshot task) v) a
promised (Action.merge_task_status task) a =
    at_task task.id (λ v. showing (status_merged v.snapshot task) v) a
promised (Action.apply_event ev) a =
    if is_ledger_type (type_of ev) && truthy (owner a.selected ev)
    then at_task (owner a.selected ev) (received (owner a.selected ev) ev) a
    else a
promised _ a = a

-- The operations that act on one task, or on the selection; the one that drops a directory's tasks
-- depends on all of them.
abbrev pub one_task : Action → Bool
one_task (Action.remove_workspace_tasks workspace) = false
one_task _ = true
