-- ===== src/Types.antt =====
-- frontend/src/types/index.ts: the records that the client keeps and the frames that it receives.
mod Values
mod Records
mod Event
mod Models
pub use Values.*
pub use Records.*
unfoldable pub use Event.{type_of}
pub use Event.{
  SseEventType, TaskCreatedData, StepStartData, SubtaskData, ContextCompressedData, Payload,
  EventData, SseEvent, TraceMarker, EventData-discrete, same_fact, same_fact_iff, heartbeat,
}
pub use Models.*
