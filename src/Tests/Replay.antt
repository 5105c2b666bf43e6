-- ===== src/Tests/Replay.antt =====
-- The replay of a trace at concrete inputs.
use langgraph_agent.Base.{String, Option, none, some, List, [], ◌∷◌, length, All, ◌<>◌, ◌≡◌, refl}
use langgraph_agent.Types.{Json, JsonMembers}
use langgraph_agent.ApiClient.Trace.{TextResponse, get_task_trace}
use langgraph_agent.TraceTab.Rows.{TraceCategory, counts, count_of, filtered}
use langgraph_agent.TraceTab.State.{
  TraceState, TraceReply, initial_trace, switch_trace, finish_trace, on_export,
}
use langgraph_agent.TraceTab.Counted.{InPlace, filtered_lem}
use langgraph_agent.TraceTab.Own.{
  TraceRequest, request, newest, older, TraceReachable, mounted, switched, answered, HoldsOwn,
  TraceReachable-own,
}
use langgraph_agent.TraceTab.Exported.{replies, on_export-own}

abbrev event_of : String → Json
event_of t = Json.obj (JsonMembers.member "type" (Json.str t) JsonMembers.no_more)

abbrev trace : List Json
trace =
    event_of "step_start"
    ∷ event_of "tool_call"
    ∷ event_of "tool_result_evicted"
    ∷ event_of "tool_result"
    ∷ []

filtered_lem_example :
    (count_of TraceCategory.tool (counts trace) ≡ length (filtered TraceCategory.tool trace))
    × All (InPlace trace) (filtered TraceCategory.tool trace)
filtered_lem_example = filtered_lem TraceCategory.tool trace

two_rows : length (filtered TraceCategory.tool trace) ≡ 2
unfolding filtered
two_rows = refl

-- A type without an entry is shown with the badge of the task's events, and counted under no filter but
-- the one that shows all.
one_row : length (filtered TraceCategory.task trace) ≡ 1
unfolding filtered
one_row = refl

abbrev no_parse : String → Option Json
no_parse _ = none

abbrev no_text : Json → String
no_text _ = ""

unfoldable log_of : TraceRequest → TextResponse
unfolding ◌<>◌
log_of q = record { status = 200; text = q.task_id <> " log" }

abbrev answers : TraceRequest → TraceReply
answers = replies no_parse no_text log_of

-- The answer for the task before comes first.
abbrev switched_replay : TraceState
switched_replay =
    finish_trace 1 (answers (request "b" 1))
      (finish_trace 0 (answers (request "a" 0)) (switch_trace "b" (initial_trace "a")))

abbrev requests : List TraceRequest
requests = request "b" 1 ∷ request "a" 0 ∷ []

reached : TraceReachable answers switched_replay requests
unfolding initial_trace
reached =
    answered (request "b" 1) newest
      (answered (request "a" 0) (older newest) (switched "b" (mounted "a")))

TraceReachable-own_example : HoldsOwn answers switched_replay
TraceReachable-own_example = TraceReachable-own answers reached

abbrev log_file : String × String
log_file = ("b.trace.jsonl", "b log")

exported : on_export switched_replay ≡ some log_file
unfolding on_export finish_trace switch_trace initial_trace get_task_trace log_of
exported = refl

on_export-own_example : log_file ≡ (
  switched_replay.task_id <> ".trace.jsonl",
  (log_of (request switched_replay.task_id switched_replay.reads)).text,
)
on_export-own_example = on_export-own no_parse no_text log_of log_file reached exported
