-- ===== src/TaskView/History.antt =====
-- frontend/src/pages/TaskView.tsx, lines 117 to 153: the list of tasks is read again whenever what it
-- depends on changes; `cast` is the cast of the parsed array to tasks.
use langgraph_agent.Base.{
  ℕ, ◌+◌, String, true, false, Option, none, some, is_some, List, eqb, or_text, truthy, truthy-cons,
  ◌<>◌, ◌or◌, if◌then◌else◌, ◌≡◌, ◌⊎◌, refl, eqb_refl, Bool-cases, Option-cases, inl, inr,
}
use langgraph_agent.Types.{Json, null, Task}
use langgraph_agent.ApiClient.Answers.{Response, req_with_status, parse_tasks}
use langgraph_agent.ApiClient.Requests.{ApiCall, list_tasks}
use langgraph_agent.FailureStates.Lists.{
  ListLoadOutcome, loaded, failed_load, is_success, list_load_outcome, list_load_failure,
}
use langgraph_agent.TaskStore.{TaskState, RailFilter, AuthSource, Action, step, mark_auth}

-- The store, and the number of the read whose effect has not been cancelled.
pub record HistoryLoad : Type 0 where
  pub store : TaskState
  pub current : ℕ

unfoldable pub list_dir : RailFilter → String → String
list_dir RailFilter.all workspace = "all"
list_dir RailFilter.current workspace = or_text workspace "current"

-- The effect runs again: the read before is cancelled and a new one begins.
unfoldable pub start_list : HistoryLoad → ApiCall × HistoryLoad
unfolding step list_dir
start_list s = (
  list_tasks 50 (list_dir s.store.history_filter s.store.workspace_dir),
  record { store = step (Action.set_list_loading true) s.store; current = s.current + 1 },
)

-- `r.data?.tasks ?? null`, as tasks.
abbrev pub cast_tasks : (List Json → List Task) → Option (List Json) → Option (List Task)
cast_tasks cast none = none
cast_tasks cast (some tasks) = some (cast tasks)

unfoldable pub show_outcome : ListLoadOutcome → TaskState → TaskState
unfolding step
show_outcome (loaded tasks) s =
    step (Action.set_auth_expired AuthSource.list false)
      (step (Action.set_list_error "") (step (Action.set_tasks tasks) s))
show_outcome (failed_load error expired) s =
    step (Action.set_auth_expired AuthSource.list expired) (step (Action.set_list_error error) s)

-- What the answer says, as the effect reads it.
unfoldable pub list_outcome : (List Json → List Task) → Option Response → ListLoadOutcome
unfolding list_load_outcome req_with_status parse_tasks
list_outcome cast fetched =
    let result = req_with_status parse_tasks fetched in
    list_load_outcome result.status (cast_tasks cast result.body)

-- The answer of a read: of one that was cancelled, nothing is taken.
unfoldable pub finish_list :
    (List Json → List Task) → ℕ → Option Response → HistoryLoad → HistoryLoad
unfolding step list_outcome show_outcome
finish_list cast read fetched s =
    if eqb read s.current
    then record s {
      store =
          step (Action.set_list_loading false) (show_outcome (list_outcome cast fetched) s.store);
    }
    else s

-- An answer in which the server lists its tasks: a status of success, and an array of tasks.
pub data Lists (cast : List Json → List Task) : Option Response → List Task → Type 0 where
  lists :
      (response : Response) (found : List Json)
      → is_success response.status ≡ true
      → parse_tasks (response.json or null) ≡ some found
      → Lists cast (some response) (cast found)

-- The status that `reqWithStatus` reports.
abbrev pub status_of : Option Response → ℕ
status_of none = 0
status_of (some response) = response.status

no_answer : {cast : List Json → List Task} {tasks : List Task} → ¬ Lists cast none tasks
no_answer l = elim l [ ]

listing :
    {cast : List Json → List Task} {response : Response} {tasks : List Task}
    → Lists cast (some response) tasks
    → (is_success response.status ≡ true) × is_some (parse_tasks (response.json or null)) ≡ true
listing (lists response found ok array) = (ok, rw array refl)

-- How an answer reads: it lists the tasks, or it is told as a failure of its status.
outcome-cases :
    (cast : List Json → List Task) (fetched : Option Response)
    → ((tasks : List Task) × Lists cast fetched tasks × (list_outcome cast fetched ≡ loaded tasks))
      ⊎ (((tasks : List Task) → ¬ Lists cast fetched tasks)
          × (list_outcome cast fetched
              ≡ failed_load (list_load_failure (status_of fetched)) (eqb (status_of fetched) 401)))
unfolding list_outcome req_with_status list_load_outcome
outcome-cases cast none = inr (λ tasks l. no_answer l, refl)
outcome-cases cast (some response) = elim (Option-cases (parse_tasks (response.json or null))) [
  | inl absent ↦ inr (λ tasks l. cc (absent, (listing l).1), rw absent refl)
  | inr (found, array) ↦ elim (Bool-cases (is_success response.status)) [
    | inl ok ↦ inl (cast found, lists response found ok array, rw (array, ok) refl)
    | inr bad ↦ inr (λ tasks l. cc (bad, (listing l).0), rw (array, bad) refl)
  ]
]

list_load_failure-truthy : (status : ℕ) → truthy (list_load_failure status) ≡ true
unfolding list_load_failure ◌<>◌
list_load_failure-truthy status = elim (Bool-cases (eqb status 0)) [
  | inl lost ↦ rw lost refl
  | inr sent ↦ elim (Bool-cases (eqb status 401)) [
    | inl expired ↦ rw (sent, expired) refl
    | inr known ↦ elim (Bool-cases (is_success status)) [
      | inl ok ↦ rw (sent, known, ok) refl
      | inr bad ↦ rw (sent, known, bad) (truthy-cons _ _)
    ]
  ]
]

-- The answer of the read that has not been cancelled ends the loading. If the server lists its tasks
-- in it, with a status of success, then these are shown and no error is; otherwise the tasks that were
-- shown stay, an error is told, and the login is asked for exactly when the status is 401.
pub finish_list_lem :
    (cast : List Json → List Task) (fetched : Option Response) (s : HistoryLoad)
    → let t = (finish_list cast s.current fetched s).store in
      (t.list_loading ≡ false)
      × (((tasks : List Task) × Lists cast fetched tasks
            × (t.tasks ≡ tasks)
            × (t.list_error ≡ "")
            × (t.auth_expired.list ≡ false))
          ⊎ (((tasks : List Task) → ¬ Lists cast fetched tasks)
              × (t.tasks ≡ s.store.tasks)
              × (truthy t.list_error ≡ true)
              × (t.auth_expired.list ≡ eqb (status_of fetched) 401)))
unfolding finish_list show_outcome step mark_auth
finish_list_lem cast fetched s = elim (outcome-cases cast fetched) [
  | inl (tasks, l, e) ↦ rw (eqb_refl s.current, e) (refl, inl (tasks, l, refl, refl, refl))
  | inr (none_listed, e) ↦
      rw (eqb_refl s.current, e)
        (refl, inr (none_listed, refl, list_load_failure-truthy (status_of fetched), refl))
]
