-- ===== src/Types/Records.antt =====
-- frontend/src/types/index.ts, lines 3 to 126: a task as REST serves it, its steps, tool calls,
-- conversation turns and subtasks. A member `f?: T | null` is an `Option`, except where a spread
-- tells an absent member from `null`.
use langgraph_agent.Base.{ℕ, String, List, Option}
use langgraph_agent.Types.Values.{Json}

pub data TaskStatus : Type 0 where
  pending running failed interrupted : TaskStatus

pub data TaskMode : Type 0 where
  plan build : TaskMode

pub data Role : Type 0 where
  user assistant : Role

pub record ChatTurn : Type 0 where
  pub role : Role
  pub content : String

-- A member of type `T | null` that may be missing: `{...a, ...b}` keeps a's where b's is missing.
pub data Member (A : Type 0) : Type 0 where
  missing : Member A
  null : Member A
  value : A → Member A

pub record ToolCallRecord : Type 0 where
  pub id : String
  pub tool_name : String
  pub input : Json
  pub output : Json
  pub status : String
  pub error : Member String

pub record StepRecord : Type 0 where
  pub index : ℕ
  pub round : Option ℕ
  pub thought : String
  pub tool_calls : List ToolCallRecord
  pub status : String

pub record SubTask : Type 0 where
  pub subtask_id : String
  pub name : String
  pub status : String
  pub summary : String
  pub artifacts : List String
  pub error : Option String

pub record Task : Type 0 where
  pub id : String
  pub title : String
  pub user_input : String
  pub workspace : String
  pub model : String
  pub status : TaskStatus
  pub mode : TaskMode
  pub steps : List StepRecord
  pub plan_version : ℕ
  pub plan_hash : Option String
  pub conversation : List ChatTurn
  pub final_answer : String
  pub error : Option String
  pub created_at : String
  pub updated_at : String
  pub subtasks : Option (List SubTask)

pub record WorkspaceFile : Type 0 where
  pub path : String
  pub size : ℕ
