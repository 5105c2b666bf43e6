-- ===== src/TaskView/Refetch.antt =====
-- frontend/src/pages/TaskView.tsx, lines 155 to 176: a frame that arrives while the snapshot still says
-- PENDING asks for the task's status, once per task.
pub mod Once
use langgraph_agent.Base.{
  String, Bool, true, false, not, ◌&&◌, Option, none, some, List, [], ◌∷◌, includes, truthy,
  or_else, ◌or◌, if◌then◌else◌,
}
use langgraph_agent.Types.{Task, SseEvent}
use langgraph_agent.Dict.{get}
use langgraph_agent.ReduceTask.{needs_status_refetch}
use langgraph_agent.TaskStore.{TaskState, Action, step}

-- The store, and the set `statusRefetched`.
pub record RefetchState : Type 0 where
  pub store : TaskState
  pub refetched : List String

-- `ev.data?.task_id ?? state.currentTaskId ?? undefined`
unfoldable pub id_of : SseEvent → TaskState → String
id_of ev s = or_else ev.task_id s.current_task_id or ""

-- Whether the status of that task has to be read again, given its snapshot.
unfoldable pub refetchable : String → SseEvent → Option Task → Bool
unfolding needs_status_refetch
refetchable id ev none = false
refetchable id ev (some task) = truthy id && needs_status_refetch task ev

-- The same in the store that the frame was applied to.
unfoldable pub wanted : SseEvent → TaskState → Bool
unfolding id_of refetchable
wanted ev s = refetchable (id_of ev s) ev (get s.detail (id_of ev s))

-- The id whose status is asked for, if it is.
unfoldable pub on_event : SseEvent → RefetchState → Option String × RefetchState
unfolding id_of wanted step
on_event ev s =
    let store = step (Action.apply_event ev) s.store in
    if wanted ev store && not (includes s.refetched (id_of ev store))
    then (some (id_of ev store), record { store = store; refetched = id_of ev store ∷ s.refetched })
    else (none, record s { store = store })

-- The answer of `getTask`; one without data, or none, changes nothing.
unfoldable pub status_answered : Option Task → RefetchState → RefetchState
unfolding step
status_answered none s = s
status_answered (some task) s = record s { store = step (Action.merge_task_status task) s.store }

-- What happens on a page: frames, answers, and whatever else acts on the store.
pub data PageEvent : Type 0 where
  frame : SseEvent → PageEvent
  answered : Option Task → PageEvent
  acted : Action → PageEvent

unfoldable pub next : PageEvent → RefetchState → Option String × RefetchState
unfolding on_event status_answered step
next (frame ev) s = on_event ev s
next (answered task) s = (none, status_answered task s)
next (acted action) s = (none, record s { store = step action s.store })

abbrev pub asked : Option String → List String → List String
asked none ids = ids
asked (some id) ids = id ∷ ids

-- The ids that a run asks for, in order, and the state that it ends in.
unfoldable pub run_page : List PageEvent → RefetchState → List String × RefetchState
unfolding next
run_page [] s = ([], s)
run_page (e ∷ es) s =
    let first = next e s in let rest = run_page es first.1 in (asked first.0 rest.0, rest.1)
