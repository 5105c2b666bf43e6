-- ===== src/Tests/Data.antt =====
-- The tasks, steps and frames that the tests share.
use langgraph_agent.Base.{ℕ, String, false, none, some, List, [], ◌∷◌, ◌==◌, eq_iff, ◌≡◌, ◌≢◌}
use langgraph_agent.Types.{
  Json, Task, StepRecord, ToolCallRecord, SseEvent, Payload, SubtaskData, TraceMarker,
  ContextCompressedData, running, build, missing,
}

abbrev pub call : String → ToolCallRecord
call id = record {
  id = id;
  tool_name = "read_file";
  input = Json.null;
  output = Json.null;
  status = "pending";
  error = missing;
}

abbrev pub step_with : ℕ → List ToolCallRecord → StepRecord
step_with index calls = record {
  index = index;
  round = some 1;
  thought = "";
  tool_calls = calls;
  status = "running";
}

abbrev pub task_of : String → String → List StepRecord → Task
task_of id workspace steps = record {
  id = id;
  title = "report";
  user_input = "write a report";
  workspace = workspace;
  model = "";
  status = running;
  mode = build;
  steps = steps;
  plan_version = 2;
  plan_hash = none;
  conversation = [];
  final_answer = "";
  error = none;
  created_at = "";
  updated_at = "";
  subtasks = none;
}

abbrev pub two_steps : Task
two_steps = task_of "t1" "/work" (step_with 1 (call "c1" ∷ []) ∷ step_with 3 [] ∷ [])

abbrev pub frame : String → Payload → SseEvent
frame id payload = record {
  data_of = record { task_id = some id; payload = payload; rest = Json.null };
  ts = none;
}

abbrev pub step_two : SseEvent
step_two =
    frame "t1" (Payload.step_start record { index = 2; round = some 1; thought = some "look" })

abbrev pub result_one : ToolCallRecord
result_one = record (call "c1") { output = Json.str "text"; status = "success" }

abbrev pub delegated : SubtaskData
delegated = record {
  subtask_id = some "s1";
  name = some "search";
  status = none;
  summary = none;
  artifacts = none;
  error = none;
}

abbrev pub squeezed : ℕ → ContextCompressedData
squeezed index = record {
  step_index = index;
  dropped = 4;
  band_evicted = none;
  converged = none;
  context_tokens = 900;
  strategy = "band";
  model = none;
  model_profile = none;
}

abbrev pub marker_at : ℕ → TraceMarker
marker_at index = record {
  ts = none;
  compressed = squeezed index;
  task_id = some "t1";
  rest = Json.null;
}

-- Two texts that the test tells apart differ.
pub differ : (s t : String) → (s == t) ≡ false → s ≢ t
differ s t h e = cc (h, (eq_iff s t).1 e)
