-- ===== src/TaskStore/Refinement/Parts.antt =====
-- The views of taskStore.ts, part by part, and what an operation on one task leaves of them.
use langgraph_agent.Base.{
  String, Option, none, some, [], ◌∷◌, ◌++◌, find?, last_n, ◌==◌, eq_iff, eq_refl, ◌or◌,
  if◌then◌else◌, ◌≡◌, ◌≢◌, refl, sym, ap, ◌∙◌, fun_ext, arith, Bool-cases, inl, inr,
}
use mathlib.Core.Path.{subst}
use langgraph_agent.Types.{Task, SseEvent, Payload}
use langgraph_agent.Dict.{get, get-put}
use langgraph_agent.TaskStore.{
  TaskState, row_of, remove_task, keep_selection, drop_tasks, event_limit,
}
use langgraph_agent.TaskStore.Frames.{record_event, next_events, next_markers, next_rows, next_task}
use langgraph_agent.TaskStore.Isolation.{SameTask}
use langgraph_agent.TaskStore.Snapshots.{Stored, find?-replace_row-other}
use langgraph_agent.TaskStore.Spec.{
  View, Views, view_of, views_of, showing, marked, at_task, unselected,
}

-- Views and stores of views are what their parts are.
pub view_eq :
    (v w : View)
    → v.snapshot ≡ w.snapshot
    → v.row ≡ w.row
    → v.events ≡ w.events
    → v.markers ≡ w.markers
    → v.error ≡ w.error
    → v ≡ w
view_eq v w a b c d e =
    λ i. record { snapshot = a i; row = b i; events = c i; markers = d i; error = e i }

pub views_eq :
    (a b : Views) → a.selected ≡ b.selected → ((j : String) → a.view j ≡ b.view j) → a ≡ b
views_eq a b e f = λ i. record { selected = e i; view = fun_ext f i }

-- A task whose keepings and row are the same has the same view.
pub view-SameTask :
    (s t : TaskState) (j : String)
    → SameTask s t j
    → row_of s j ≡ row_of t j
    → view_of s j ≡ view_of t j
view-SameTask s t j same row =
    view_eq (view_of s j) (view_of t j) same.detail row (ap (λ o. o or []) same.events)
      (ap (λ o. o or []) same.markers) same.error

-- One task's view changes as told, and the others' do not.
pub at_task-lem :
    (id : String) (f : View → View) (s t : TaskState)
    → view_of t id ≡ f (view_of s id)
    → ((j : String) → id ≢ j → view_of t j ≡ view_of s j)
    → (j : String) → view_of t j ≡ (if id == j then f (view_of s j) else view_of s j)
at_task-lem id f s t own others j = elim (Bool-cases (id == j)) [
  | inl same ↦ rw same (subst (λ k. view_of t k ≡ f (view_of s k)) ((eq_iff id j).0 same) own)
  | inr other ↦ rw other (others j (λ e. cc (other, (eq_iff id j).1 e)))
]

-- A stored task is shown, where that is what is promised of the task's view.
pub view-Stored :
    (s t : TaskState) (id : String) (task : Task) (f : View → View)
    → f (view_of s id) ≡ showing task (view_of s id)
    → Stored s t id task
    → views_of t ≡ at_task id f (views_of s)
view-Stored s t id task f e stored = views_eq (views_of t) _ stored.selection (
    at_task-lem id f s t
      (view_eq (view_of t id) (showing task (view_of s id)) stored.detail stored.row
          (ap (λ o. o or []) stored.kept.0) (ap (λ o. o or []) stored.kept.1) stored.kept.2
        ∙ sym e)
      (λ j ne. view-SameTask t s j (stored.others j ne).0 (stored.others j ne).1))

-- A task's view that is not changed.
pub at_task-same :
    (id : String) (f : View → View) (a : Views) → f (a.view id) ≡ a.view id → at_task id f a ≡ a
at_task-same id f a e = views_eq (at_task id f a) a refl (λ j. elim (Bool-cases (id == j)) [
  | inl same ↦ rw same (subst (λ k. f (a.view k) ≡ a.view k) ((eq_iff id j).0 same) e)
  | inr other ↦ rw other refl
])

pub row-next_rows-other :
    (s : TaskState) (id j : String) (ev : SseEvent)
    → (next_task s id ev).id ≡ id
    → id ≢ j
    → find? (λ t. t.id == j) (next_rows s id ev) ≡ row_of s j
unfolding next_rows
row-next_rows-other s id j ev e ne =
    ground (arith, find?-replace_row-other id j (next_task s id ev) s.tasks e ne)

pub markers-next :
    (s : TaskState) (id : String) (ev : SseEvent) (payload : Payload)
    → (get (next_markers s id ev payload) id or []) ≡ marked ev payload (get s.markers id or [])
unfolding next_markers
markers-next s id ev (Payload.context_compressed d) =
    rw (get-put s.markers id id _, eq_refl id) refl
markers-next s id ev _ = refl

pub events-next :
    (s : TaskState) (id : String) (ev : SseEvent)
    → (get (next_events s id ev) id or [])
      ≡ last_n event_limit ((get s.events_by_task id or []) ++ ev ∷ [])
unfolding next_events
events-next s id ev = rw (get-put s.events_by_task id id _, eq_refl id) refl

-- The parts of a filed frame that `Filed` leaves out.
pub record_event-rest :
    (id : String) (ev : SseEvent) (s : TaskState)
    → ((get (record_event id ev s).events_by_task id or [])
        ≡ last_n event_limit ((get s.events_by_task id or []) ++ ev ∷ []))
      × ((get (record_event id ev s).markers id or [])
          ≡ marked ev ev.payload (get s.markers id or []))
      × ((record_event id ev s).detail_error ≡ s.detail_error)
unfolding record_event
record_event-rest id ev s = (events-next s id ev, markers-next s id ev ev.payload, refl)

pub record_event-rows :
    (id j : String) (ev : SseEvent) (s : TaskState)
    → (next_task s id ev).id ≡ id
    → id ≢ j
    → row_of (record_event id ev s) j ≡ row_of s j
unfolding record_event
record_event-rows id j ev s e ne = row-next_rows-other s id j ev e ne

pub unselected-keep :
    (id : String) (o : Option String) → keep_selection (id ∷ []) o ≡ unselected id o
unfolding keep_selection
unselected-keep id none = refl
unselected-keep id (some j) = ground arith

pub selected-remove_task :
    (id : String) (s : TaskState)
    → (remove_task id s).current_task_id ≡ unselected id s.current_task_id
unfolding remove_task drop_tasks
selected-remove_task id s = unselected-keep id s.current_task_id
