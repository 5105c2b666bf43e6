-- ===== src/FilePane/Reachable.antt =====
-- The states of frontend/src/components/dash/FilePane.tsx, with the requests for files sent so far.
use langgraph_agent.Base.{String, Bool, true, false, some, ◌⊎◌, List, [], ◌∷◌, ◌++◌, ◌≡◌}
use langgraph_agent.Types.{TaskStatus}
use langgraph_agent.ApiClient.Answers.{StatusResult, FilesData}
use langgraph_agent.FilePane.State.{
  FileState, FilesRequest, FilesReply, load_effect, file_props, initial_files, tick, finish_files,
  may_retry,
}

pub data Asked : FilesRequest → List FilesRequest → Type 0 where
  newest : {q : FilesRequest} {sent : List FilesRequest} → Asked q (q ∷ sent)
  older : {q p : FilesRequest} {sent : List FilesRequest} → Asked q sent → Asked q (p ∷ sent)

-- `Gave id reply`: the server answers a request for the files of the task `id` with `reply`.
module _ (Gave : String → FilesReply → Type 0) where
  -- The states of the pane, with the requests sent so far; a request may be answered at any time.
  pub data FileReachable : FileState → List FilesRequest → Type 0 where
    opened :
        (id : String) (status : TaskStatus) (visible : Bool)
        → FileReachable (initial_files id status visible).0 (initial_files id status visible).1
    rendered :
        {s : FileState} {sent : List FilesRequest} (id : String) (status : TaskStatus)
        (visible : Bool)
        → FileReachable s sent
        → FileReachable
            (file_props id status visible s).0
            ((file_props id status visible s).1 ++ sent)
    retried :
        {s : FileState} {sent : List FilesRequest}
        → may_retry s ≡ true
        → FileReachable s sent
        → FileReachable (load_effect s).0 ((load_effect s).1 ++ sent)
    ticked :
        {s : FileState} {sent : List FilesRequest}
        → FileReachable s sent
        → FileReachable (tick s).0 ((tick s).1 ++ sent)
    answered :
        {s : FileState} {sent : List FilesRequest} (q : FilesRequest) (reply : FilesReply)
        → Asked q sent
        → Gave q.task_id reply
        → FileReachable s sent
        → FileReachable (finish_files q.read reply s) sent

  -- No files, or those of an answer about the task that is shown.
  abbrev pub FilesOwn : FileState → Type 0
  FilesOwn s =
      ((s.files ≡ []) × (s.truncated ≡ false))
      ⊎ ((r : StatusResult FilesData) × (listing : FilesData) × Gave s.task_id (some r)
          × (r.body ≡ some listing)
          × (s.files ≡ listing.files)
          × (s.truncated ≡ listing.truncated))
