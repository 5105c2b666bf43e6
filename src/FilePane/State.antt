-- ===== src/FilePane/State.antt =====
-- The state and the effects of frontend/src/components/dash/FilePane.tsx, lines 24 to 90, and the requests
-- for files that each step sends.
use langgraph_agent.Base.{
  ℕ, ◌+◌, String, Bool, true, false, not, ◌&&◌, Option, none, some, List, [], ◌∷◌, length, eqb,
  ◌==◌, ◌or◌, or_text, truthy, if◌then◌else◌,
}
use langgraph_agent.Types.{Json, TaskStatus, pending, running, failed, interrupted}
use langgraph_agent.TaskState.{should_poll_files}
use langgraph_agent.ApiClient.Answers.{StatusResult, FilesData}
use langgraph_agent.FailureStates.Lists.{
  FilesPaneState, files_loading, files_empty, files_pane_state, files_pane_status_text,
}
use langgraph_agent.FailureStates.Details.{files_load_failure}

-- `reads` is the number of the load effect that has not been cleaned up, `timer` whether it polls.
pub record FileState : Type 0 where
  pub task_id : String
  pub status : TaskStatus
  pub visible : Bool
  pub files : List Json
  pub truncated : Bool
  pub note : Option String
  pub loading : Bool
  pub reads : ℕ
  pub timer : Bool

-- A request for the files of a task, with the number of the effect that sends it.
pub record FilesRequest : Type 0 where
  pub task_id : String
  pub read : ℕ

-- What `listFiles` resolves to; `none` is a rejection.
abbrev pub FilesReply : Type 0
FilesReply = Option (StatusResult FilesData)

abbrev pub request : FileState → FilesRequest
request s = record { task_id = s.task_id; read = s.reads }

-- The load effect runs: the one before is cancelled, and its timer ends.
unfoldable pub load_effect : FileState → FileState × List FilesRequest
unfolding should_poll_files
load_effect s =
    let t = record s {
      reads = s.reads + 1;
      loading = true;
      timer = should_poll_files s.status s.visible;
    } in
    (t, if t.visible then request t ∷ [] else [])

unfoldable pub clear_files : FileState → FileState
clear_files s = record s { files = []; truncated = false; note = none; loading = true }

abbrev pub same_status : TaskStatus → TaskStatus → Bool
same_status pending pending = true
same_status running running = true
same_status failed failed = true
same_status interrupted interrupted = true
same_status _ _ = false

abbrev pub same_bool : Bool → Bool → Bool
same_bool true b = b
same_bool false b = not b

-- The effects of a render with other props.
unfoldable pub file_props : String → TaskStatus → Bool → FileState → FileState × List FilesRequest
unfolding load_effect clear_files
file_props id status visible s =
    let t = record s { task_id = id; status = status; visible = visible } in
    if id == s.task_id
    then if same_status status s.status && same_bool visible s.visible
      then (t, [])
      else load_effect t
    else load_effect (clear_files t)

-- The first render, whose two effects both run.
unfoldable pub initial_files : String → TaskStatus → Bool → FileState × List FilesRequest
unfolding load_effect
initial_files id status visible = load_effect (record {
  task_id = id;
  status = status;
  visible = visible;
  files = [];
  truncated = false;
  note = none;
  loading = true;
  reads = 0;
  timer = false;
})

-- The timer calls `load` again.
unfoldable pub tick : FileState → FileState × List FilesRequest
tick s = (s, if s.timer then request s ∷ [] else [])

abbrev pub take_files : Option FilesData → ℕ → String → FileState → FileState
take_files none status detail s = record s { note = some (files_load_failure status (some detail)) }
take_files (some listing) status detail s = record s {
  note = none;
  files = listing.files;
  truncated = listing.truncated;
}

abbrev pub settle_files : FilesReply → FileState → FileState
settle_files none s = record s { note = some (files_load_failure 0 none); loading = false }
settle_files (some r) s = record (take_files r.body r.status r.detail s) { loading = false }

-- The answer of a request, of which nothing is taken when its effect was cleaned up.
unfoldable pub finish_files : ℕ → FilesReply → FileState → FileState
unfolding files_load_failure
finish_files read r s = if eqb read s.reads then settle_files r s else s

unfoldable pub file_face : FileState → FilesPaneState
unfolding files_pane_state
file_face s =
    files_pane_state (record { error = s.note or ""; loading = s.loading; count = length s.files })

abbrev pub face_copy : FilesPaneState → TaskStatus → String
face_copy files_loading status = "加载中…"
face_copy files_empty running = "任务运行中；写入工作区的文件会出现在这里。"
face_copy files_empty status = "工作区还没有文件。任务写下文件后会出现在这里。"
face_copy _ status = ""

unfoldable pub file_status_text : FileState → String
unfolding file_face files_pane_status_text
file_status_text s =
    or_text (files_pane_status_text (file_face s) (s.note or "")) (face_copy (file_face s) s.status)

-- The retry button is there with a note, and enabled when nothing is loading.
unfoldable pub may_retry : FileState → Bool
may_retry s = truthy (s.note or "") && not s.loading
