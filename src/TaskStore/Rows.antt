-- ===== src/TaskStore/Rows.antt =====
-- The rows of the history list and the task that a frame belongs to.
use langgraph_agent.Base.{
  ℕ, ◌≤◌, String, Bool, true, false, not, ◌&&◌, Option, none, some, List, [], ◌∷◌, ◌++◌, map, find?,
  last?, ◌==◌, if◌then◌else◌, ◌≡◌, refl, sym, ◌∙◌, ap, arith, eq_iff, Bool-cases, Option-cases, inl,
  inr, truthy, is_some, ◌or◌, or_else, eq_refl, last_n, length, length-append, drop, suc, zero,
}
use langgraph_agent.Types.{Task, SseEvent, type_of}
use langgraph_agent.Dict.{get, put, get-put}
use langgraph_agent.EventLedger.{is_ledger_type}
use langgraph_agent.ReduceTask.{keeps_reference}
use langgraph_agent.TaskStore.State.{TaskState}
use langgraph_agent.TaskStore.Detail.{replace_row}
use langgraph_agent.TaskStore.Frames.{
  event_task_id, row_of, next_task, next_detail, next_rows, next_events, record_event, apply_event,
  event_limit,
}
use langgraph_agent.TaskStore.Identity.{id-next_task}
use langgraph_agent.TaskStore.Invariant.{IsValid}
use langgraph_agent.TaskStore.Invariant.Preserved.{HasId-get}
use langgraph_agent.TaskStore.Isolation.{apply_event-files}
use langgraph_agent.TaskStore.References.{apply_to_task-keeps}

next_detail-kept :
    (s : TaskState) (id : String) (ev : SseEvent)
    → (is_some (get s.detail id) && keeps_reference ev.payload) ≡ true
    → next_detail s id ev ≡ s.detail
next_detail-kept s id ev h = unfold next_detail in rw h

next_detail-put :
    (s : TaskState) (id : String) (ev : SseEvent)
    → (is_some (get s.detail id) && keeps_reference ev.payload) ≡ false
    → next_detail s id ev ≡ put s.detail id (next_task s id ev)
next_detail-put s id ev h = unfold next_detail in rw h

next_task-kept :
    (s : TaskState) (id : String) (ev : SseEvent) (t : Task)
    → or_else (get s.detail id) (row_of s id) ≡ some t
    → keeps_reference ev.payload ≡ true
    → next_task s id ev ≡ t
next_task-kept s id ev t found kept =
    unfold next_task in rw found (apply_to_task-keeps t id ev kept)

get-next_detail :
    (s : TaskState) (id : String) (ev : SseEvent)
    → get (next_detail s id ev) id ≡ some (next_task s id ev)
get-next_detail s id ev =
    elim (Bool-cases (is_some (get s.detail id) && keeps_reference ev.payload)) [
      | inl kept ↦ rw (next_detail-kept s id ev kept) (stored (get s.detail id) refl kept)
      | inr changed ↦ rw (next_detail-put s id ev changed) (get-put s.detail id id _ ∙ rw eq_refl)
    ]
  where
    stored :
        (o : Option Task)
        → get s.detail id ≡ o
        → (is_some o && keeps_reference ev.payload) ≡ true
        → get s.detail id ≡ some (next_task s id ev)
    stored none e k = cc
    stored (some t) e k =
        e ∙ ap some (sym (next_task-kept s id ev t (ap (λ o. or_else o (row_of s id)) e) k))

find?-replace_row :
    (id : String) (next : Task) (rows : List Task) (row : Task)
    → next.id ≡ id
    → find? (λ t. t.id == id) rows ≡ some row
    → find? (λ t. t.id == id) (replace_row id next rows) ≡ some next
find?-replace_row id next [] row e h = cc
find?-replace_row id next (t ∷ rows) row e h =
    ground (arith, eq_iff next.id id, find?-replace_row id next rows row e)

-- The row is the object that `applyToTask` was given and hands back.
abbrev same_row : TaskState → String → SseEvent → Bool
same_row s id ev = not (is_some (get s.detail id)) && keeps_reference ev.payload

next_rows-kept :
    (s : TaskState) (id : String) (ev : SseEvent)
    → same_row s id ev ≡ true
    → next_rows s id ev ≡ s.tasks
next_rows-kept s id ev h = unfold next_rows in ground arith

next_rows-replaced :
    (s : TaskState) (id : String) (ev : SseEvent) (row : Task)
    → row_of s id ≡ some row
    → same_row s id ev ≡ false
    → next_rows s id ev ≡ replace_row id (next_task s id ev) s.tasks
next_rows-replaced s id ev row found h = unfold next_rows in rw (found, h)

no_snapshot :
    (s : TaskState) (id : String) (ev : SseEvent) (row : Task)
    → row_of s id ≡ some row
    → same_row s id ev ≡ true
    → or_else (get s.detail id) (row_of s id) ≡ some row
no_snapshot s id ev row found h = ground arith

row-next_rows :
    (s : TaskState) (id : String) (ev : SseEvent)
    → (next_task s id ev).id ≡ id
    → find? (λ t. t.id == id) (next_rows s id ev)
      ≡ (if is_some (row_of s id) then some (next_task s id ev) else none)
row-next_rows s id ev e = elim (Option-cases (row_of s id)) [
  | inl absent ↦ rw absent (unfold next_rows in rw absent absent)
  | inr (row, found) ↦ rw found (replaced row found)
]
  where
    replaced :
        (row : Task)
        → row_of s id ≡ some row
        → find? (λ t. t.id == id) (next_rows s id ev) ≡ some (next_task s id ev)
    replaced row found = elim (Bool-cases (same_row s id ev)) [
      | inl kept ↦ rw (next_rows-kept s id ev kept) (
          found
          ∙ ap some (
              sym (next_task-kept s id ev row (no_snapshot s id ev row found kept) (ground arith))))
      | inr changed ↦
          rw (next_rows-replaced s id ev row found changed)
            (find?-replace_row id (next_task s id ev) s.tasks row e found)
    ]

ids-replace_row :
    (id : String) (next : Task) (rows : List Task)
    → next.id ≡ id
    → map (λ t. t.id) (replace_row id next rows) ≡ map (λ t. t.id) rows
ids-replace_row id next [] e = refl
ids-replace_row id next (t ∷ rows) e =
    ground (arith, eq_iff t.id id, ids-replace_row id next rows e)

ids-next_rows :
    (s : TaskState) (id : String) (ev : SseEvent)
    → (next_task s id ev).id ≡ id
    → map (λ t. t.id) (next_rows s id ev) ≡ map (λ t. t.id) s.tasks
unfolding next_rows
ids-next_rows s id ev e = ground (arith, ids-replace_row id (next_task s id ev) s.tasks e)

last?-append : (evs : List SseEvent) (ev : SseEvent) → last? (evs ++ ev ∷ []) ≡ some ev
last?-append [] ev = refl
last?-append (e ∷ []) ev = refl
last?-append (e ∷ f ∷ evs) ev = last?-append (f ∷ evs) ev

last?-drop : (n : ℕ) (evs : List SseEvent) → suc n ≤ length evs → last? (drop n evs) ≡ last? evs
last?-drop zero evs h = refl
last?-drop (suc n) [] h = refl
last?-drop (suc n) (e ∷ []) h = absurd (omega arith)
last?-drop (suc n) (e ∷ f ∷ evs) h = last?-drop n (f ∷ evs) (omega arith)

newest :
    (evs : List SseEvent) (ev : SseEvent) → last? (last_n event_limit (evs ++ ev ∷ [])) ≡ some ev
newest evs ev =
    last?-drop _ (evs ++ ev ∷ []) (omega (arith, length-append evs (ev ∷ []))) ∙ last?-append evs ev

-- What a frame does to its own task. `next_task` is `applyToTask` on the snapshot, or on the row
-- where there is no snapshot.
pub record Filed (s t : TaskState) (id : String) (ev : SseEvent) : Type 0 where
  pub detail : get t.detail id ≡ some (next_task s id ev)
  pub row : row_of t id ≡ (if is_some (row_of s id) then some (next_task s id ev) else none)
  pub ids : map (λ r. r.id) t.tasks ≡ map (λ r. r.id) s.tasks
  pub event : last? (get t.events_by_task id or []) ≡ some ev
  pub selection : t.current_task_id ≡ s.current_task_id

record_event-Filed :
    (id : String) (ev : SseEvent) (s : TaskState)
    → (next_task s id ev).id ≡ id
    → Filed s (record_event id ev s) id ev
unfolding record_event
record_event-Filed id ev s e = record {
  detail = get-next_detail s id ev;
  row = row-next_rows s id ev e;
  ids = ids-next_rows s id ev e;
  event =
      unfold next_events in
      rw (get-put s.events_by_task id id _, eq_refl id) (newest (get s.events_by_task id or []) ev);
  selection = refl;
}

-- A frame that counts for the ledger and belongs to a task becomes the newest event of that task and
-- is applied to its snapshot; the task's row, if the list has one, shows the same snapshot, and no row
-- is added, removed or moved, nor the selection changed.
pub apply_event-Filed :
    (ev : SseEvent) (s : TaskState)
    → IsValid s
    → (is_ledger_type (type_of ev) && truthy (event_task_id s ev)) ≡ true
    → Filed s (apply_event ev s) (event_task_id s ev) ev
apply_event-Filed ev s v h = rw (apply_event-files ev s h) (
    record_event-Filed (event_task_id s ev) ev s
      (id-next_task s ev (HasId-get s (event_task_id s ev) v.keyed)))
