-- ===== src/Types/Event.antt =====
-- frontend/src/types/index.ts, lines 226 to 289: the frames of the event stream. The wire carries
-- unvalidated JSON; a payload here has the members that the client reads, at the types that the
-- source casts them to, `rest` holds the others, and an absent member is `none`.
use langgraph_agent.Base.{ℕ, ℕ_discrete, String, Bool, true, false, List, Option, ◌≡◌, ◌↔◌, refl}
use langgraph_agent.Types.Values.{Json, Json-discrete, String-discrete}
use langgraph_agent.Types.Records.{TaskStatus, ToolCallRecord}

pub data SseEventType : Type 0 where
  task_created step_start tool_call tool_result context_compressed : SseEventType
  final_answer task_failed task_interrupted task_resumed : SseEventType
  tool_result_evicted subtask_start subtask_result subtask_failed : SseEventType
  trace_end heartbeat : SseEventType

pub record TaskCreatedData : Type 0 where
  pub title : Option String
  pub status : Option TaskStatus

pub record StepStartData : Type 0 where
  pub index : ℕ
  pub round : Option ℕ
  pub thought : Option String

-- The one shape that the three `subtask_*` frames are cast to.
pub record SubtaskData : Type 0 where
  pub subtask_id : Option String
  pub name : Option String
  pub status : Option String
  pub summary : Option String
  pub artifacts : Option (List String)
  pub error : Option String

pub record ContextCompressedData : Type 0 where
  pub step_index : ℕ
  pub dropped : ℕ
  pub band_evicted : Option ℕ
  pub converged : Option Bool
  pub context_tokens : ℕ
  pub strategy : String
  pub model : Option String
  pub model_profile : Option String

-- The type of a frame together with the part of its `data` that the client reads.
pub data Payload : Type 0 where
  task_created : TaskCreatedData → Payload
  step_start : StepStartData → Payload
  tool_call tool_result : ToolCallRecord → Payload
  context_compressed : ContextCompressedData → Payload
  final_answer : Option String → Payload
  task_failed : Option String → Payload
  task_interrupted task_resumed tool_result_evicted : Payload
  subtask_start subtask_result subtask_failed : SubtaskData → Payload
  trace_end heartbeat : Payload

-- `data`: `task_id` is read on every type of frame.
pub record EventData : Type 0 where
  pub task_id : Option String
  pub payload : Payload
  pub rest : Json

pub record SseEvent : Type 0 where
  pub data_of : EventData
  pub open data_of use *
  pub ts : Option ℕ

-- A live marker in the task flow: its type is always `context_compressed`, and its `data` is the
-- whole payload of that frame.
pub record TraceMarker : Type 0 where
  pub ts : Option ℕ
  pub compressed : ContextCompressedData
  pub task_id : Option String
  pub rest : Json

payload_type : Payload → SseEventType
payload_type (task_created _) = task_created
payload_type (step_start _) = step_start
payload_type (tool_call _) = tool_call
payload_type (tool_result _) = tool_result
payload_type (context_compressed _) = context_compressed
payload_type (final_answer _) = final_answer
payload_type (task_failed _) = task_failed
payload_type task_interrupted = task_interrupted
payload_type task_resumed = task_resumed
payload_type tool_result_evicted = tool_result_evicted
payload_type (subtask_start _) = subtask_start
payload_type (subtask_result _) = subtask_result
payload_type (subtask_failed _) = subtask_failed
payload_type trace_end = trace_end
payload_type heartbeat = heartbeat

-- `ev.type`
unfoldable pub type_of : SseEvent → SseEventType
unfolding payload_type
type_of ev = payload_type ev.payload

unfoldable pub EventData-discrete : Discrete EventData
EventData-discrete = hlevel (ℕ_discrete, String-discrete, Json-discrete)

-- Whether two frames have the key `${type}:${JSON.stringify(data)}` in common. Parsed JSON is
-- printed back member by member, so equal texts mean equal data; the arrival time is no part.
unfoldable pub same_fact : EventData → EventData → Bool
same_fact a b = elim (EventData-discrete a b) [ yes _ ↦ true | no _ ↦ false ]

pub same_fact_iff : (a b : EventData) → (same_fact a b ≡ true) ↔ (a ≡ b)
unfolding same_fact
same_fact_iff a b =
    elim (EventData-discrete a b)
      as (λ d. ((elim d [ yes _ ↦ true | no _ ↦ false ]) ≡ true) ↔ (a ≡ b)) [
        | yes e ↦ (λ _. e, λ _. refl)
        | no n ↦ (λ h. cc h, λ e. absurd (n e))
      ]
