-- ===== src/TraceTab/State.antt =====
-- The state of frontend/src/components/TraceTab.tsx and what changes it: the effect that loads a trace,
-- its answer, the rows that are folded out, the filter, and the export.
use langgraph_agent.Base.{
  ℕ, ◌+◌, String, Bool, true, false, not, Option, none, some, List, [], ◌∷◌, any, filter, eqb,
  truthy, or_text, length, show, ◌<>◌, if◌then◌else◌,
}
use langgraph_agent.Types.{Json}
use langgraph_agent.ApiClient.Trace.{TraceResult, trace_fetch_error, trace_read}
use langgraph_agent.TraceTab.Rows.{TraceCategory, filtered}

pub record TraceErrorState : Type 0 where
  pub status : ℕ
  pub message : String

-- `reads` is the number of the load whose effect has not been cleaned up.
pub record TraceState : Type 0 where
  pub task_id : String
  pub loading : Bool
  pub error : Option TraceErrorState
  pub events : List Json
  pub raw : String
  pub shown : TraceCategory
  pub expanded : List ℕ
  pub reads : ℕ

-- The promise of a load settles: what `getTaskTrace` gives, or another thrown value, with the message of
-- one that is an `Error`.
pub data TraceReply : Type 0 where
  got : TraceResult → TraceReply
  thrown : Option String → TraceReply

unfoldable pub initial_trace : String → TraceState
initial_trace id = record {
  task_id = id;
  loading = true;
  error = none;
  events = [];
  raw = "";
  shown = TraceCategory.every;
  expanded = [];
  reads = 0;
}

-- The effect of another task: the load before is cancelled, and all but the filter is reset.
unfoldable pub switch_trace : String → TraceState → TraceState
switch_trace id s = record s {
  task_id = id;
  loading = true;
  error = none;
  events = [];
  raw = "";
  expanded = [];
  reads = s.reads + 1;
}

abbrev pub trace_error : ℕ → String → Option TraceErrorState
trace_error status message = some (record { status = status; message = message })

-- `.then`, `.catch` and `.finally` of a load that was not cancelled.
unfoldable pub take_reply : TraceReply → TraceState → TraceState
take_reply (got (trace_read events raw)) s = record s {
  events = events;
  raw = raw;
  loading = false;
}
take_reply (got (trace_fetch_error status message)) s = record s {
  error = trace_error status message;
  loading = false;
}
take_reply (thrown (some message)) s = record s { error = trace_error 0 message; loading = false }
take_reply (thrown none) s = record s { error = trace_error 0 "加载失败"; loading = false }

unfoldable pub finish_trace : ℕ → TraceReply → TraceState → TraceState
unfolding take_reply
finish_trace read r s = if eqb read s.reads then take_reply r s else s

-- `next.has(index)`, and `toggle(index)`
abbrev pub is_open : List ℕ → ℕ → Bool
is_open xs i = any (λ x. eqb x i) xs

unfoldable pub toggle_row : ℕ → List ℕ → List ℕ
toggle_row i xs = if is_open xs i then filter (λ x. not (eqb x i)) xs else i ∷ xs

unfoldable pub toggle : ℕ → TraceState → TraceState
unfolding toggle_row
toggle i s = record s { expanded = toggle_row i s.expanded }

unfoldable pub pick_filter : TraceCategory → TraceState → TraceState
pick_filter f s = record s { shown = f }

-- The file that is downloaded, if one is: its name and its text.
unfoldable pub on_export : TraceState → Option (String × String)
unfolding ◌<>◌
on_export s = if truthy s.raw then some (s.task_id <> ".trace.jsonl", s.raw) else none

-- What is rendered: the loading text, an error, a trace without events, a filter without rows, or rows.
pub data TraceFace : Type 0 where
  loading_face no_events_face none_match_face rows_face : TraceFace
  no_trace_face failed_face : String → TraceFace

abbrev error_face : TraceErrorState → TraceFace
error_face e =
    if eqb e.status 404
    then TraceFace.no_trace_face (if truthy e.message then "（" <> e.message <> "）" else "")
    else TraceFace.failed_face (or_text e.message ("HTTP " <> show e.status))

abbrev list_face : Bool → Bool → TraceFace
list_face no_events no_rows =
    if no_events
    then TraceFace.no_events_face
    else if no_rows
    then TraceFace.none_match_face
    else TraceFace.rows_face

unfoldable pub trace_face : TraceState → TraceFace
unfolding filtered ◌<>◌ show
trace_face s = if s.loading then TraceFace.loading_face else elim s.error [
  | some e ↦ error_face e
  | none ↦ list_face (eqb (length s.events) 0) (eqb (length (filtered s.shown s.events)) 0)
]

-- `disabled={events.length === 0}` of the export's button.
unfoldable pub export_disabled : TraceState → Bool
export_disabled s = eqb (length s.events) 0
