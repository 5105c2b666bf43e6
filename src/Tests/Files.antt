-- ===== src/Tests/Files.antt =====
-- The file pane at a concrete run: a task's files are answered after another task was selected.
use langgraph_agent.Base.{String, true, some, List, [], ◌∷◌, ◌≡◌, refl, ◌==◌, if◌then◌else◌}
use langgraph_agent.Types.{Json, TaskStatus}
use langgraph_agent.TaskState.{should_poll_files}
use langgraph_agent.FilePane.State.{
  FileState, FilesRequest, FilesReply, request, initial_files, file_props, finish_files, tick,
}
use langgraph_agent.FilePane.Reachable.{
  newest, older, FileReachable, opened, rendered, answered, FilesOwn,
}
use langgraph_agent.FilePane.Own.{FileReachable-own}

-- The only file of a workspace has the task's name.
abbrev files_of : String → FilesReply
files_of id = some (record {
  status = 200;
  body = some (record { files = Json.str id ∷ []; truncated = true });
  detail = "";
})

abbrev Gave : String → FilesReply → Type 0
Gave id reply = reply ≡ files_of id

abbrev asked : String → FilesRequest
asked id = record { task_id = id; read = if id == "a" then 1 else 2 }

abbrev run : FileState
run = finish_files 2 (files_of "b") (
    finish_files 1 (files_of "a")
      (file_props "b" TaskStatus.running true (initial_files "a" TaskStatus.running true).0).0)

abbrev sent : List FilesRequest
sent = asked "b" ∷ asked "a" ∷ []

reached : FileReachable Gave run sent
unfolding file_props initial_files
reached = answered (asked "b") (files_of "b") newest refl (
    answered (asked "a") (files_of "a") (older newest) refl
      (rendered "b" TaskStatus.running true (opened "a" TaskStatus.running true)))

shown : run.files ≡ Json.str "b" ∷ []
unfolding finish_files file_props initial_files
shown = refl

FileReachable-own_example :
    FilesOwn Gave run
    × ((tick run).1 ≡ (if should_poll_files run.status run.visible then request run ∷ [] else []))
FileReachable-own_example = FileReachable-own Gave reached
