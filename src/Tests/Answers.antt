-- ===== src/Tests/Answers.antt =====
-- What the client makes of answers, at concrete ones.
use langgraph_agent.Base.{
  String, true, false, Option, none, some, is_some, List, [], ◌∷◌, ◌≡◌, ◌⊎◌, refl, ◌==◌, truthy,
  ◌&&◌, eqb, trim, if◌then◌else◌,
}
use langgraph_agent.Types.{Json, JsonItems, JsonMembers, Task}
use langgraph_agent.ApiClient.Json.{member_of, as_text}
use langgraph_agent.ApiClient.Answers.{StatusResult, Response}
use langgraph_agent.ApiClient.Trace.{
  get_task_trace, trace_read, file_of, Holds, is_line, get_task_trace-Holds,
}
use langgraph_agent.FailureStates.Lists.{is_success}
use langgraph_agent.TaskStore.{initial_state}
use langgraph_agent.TaskView.History.{HistoryLoad, Lists, finish_list, status_of, finish_list_lem}
use langgraph_agent.TaskView.Snapshot.{SnapshotState, finish_snapshot}
use langgraph_agent.TaskView.Snapshot.Answered.{Taken, Failed, finish_snapshot_lem}
use langgraph_agent.Tests.Data.{two_steps}

abbrev heartbeat_event : Json
heartbeat_event = Json.obj (JsonMembers.member "type" (Json.str "heartbeat") JsonMembers.no_more)

-- A parser that knows one text.
abbrev parse : String → Option Json
parse text = if text == "{\"type\":\"heartbeat\"}" then some heartbeat_event else none

abbrev lines : List String
lines = "{\"type\":\"heartbeat\"}" ∷ "{\"type\":" ∷ []

lines_hold : Holds parse (λ j. "") lines (heartbeat_event ∷ [])
unfolding is_line trim member_of as_text
lines_hold = Holds.written "heartbeat" refl refl refl (Holds.broken refl refl Holds.nothing)

get_task_trace-Holds_example :
    get_task_trace parse (λ j. "") (record { status = 200; text = file_of lines })
    ≡ trace_read (heartbeat_event ∷ []) (file_of lines)
get_task_trace-Holds_example = get_task_trace-Holds parse (λ j. "") 200 refl lines_hold refl

abbrev loading : HistoryLoad
loading = record { store = initial_state none; current = 1 }

abbrev two_listed : List Json → List Task
two_listed _ = two_steps ∷ []

abbrev listing : Option Response
listing = some (record {
  status = 200;
  json = some (
      Json.obj (
        JsonMembers.member "data"
          (Json.obj (JsonMembers.member "tasks" (Json.arr JsonItems.none_left) JsonMembers.no_more))
          JsonMembers.no_more));
})

finish_list_lem_example :
    ((finish_list two_listed 1 listing loading).store.list_loading ≡ false)
    × (((tasks : List Task) × Lists two_listed listing tasks
          × ((finish_list two_listed 1 listing loading).store.tasks ≡ tasks)
          × ((finish_list two_listed 1 listing loading).store.list_error ≡ "")
          × ((finish_list two_listed 1 listing loading).store.auth_expired.list ≡ false))
        ⊎ (((tasks : List Task) → ¬ Lists two_listed listing tasks)
            × ((finish_list two_listed 1 listing loading).store.tasks ≡ (initial_state none).tasks)
            × (truthy (finish_list two_listed 1 listing loading).store.list_error ≡ true)
            × ((finish_list two_listed 1 listing loading).store.auth_expired.list
                ≡ eqb (status_of listing) 401)))
finish_list_lem_example = finish_list_lem two_listed listing loading

abbrev selected : SnapshotState
selected = record { store = initial_state none; prev_status = none; current = 1 }

abbrev lost : StatusResult Task
lost = record { status = 404; body = none; detail = "" }

finish_snapshot_lem_example :
    ((task : Task)
      → lost.body ≡ some task
      → is_success lost.status ≡ true
      → Taken "t1" task selected (finish_snapshot "t1" 1 lost selected))
    × ((is_success lost.status && is_some lost.body) ≡ false
        → Failed "t1" 404 selected (finish_snapshot "t1" 1 lost selected))
finish_snapshot_lem_example = finish_snapshot_lem "t1" lost selected
