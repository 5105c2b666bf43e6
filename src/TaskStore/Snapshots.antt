-- ===== src/TaskStore/Snapshots.antt =====
-- What a refetched snapshot, a status refetch and a saved plan version leave in the store.
use langgraph_agent.Base.{
  ℕ, String, false, none, some, List, [], ◌∷◌, find?, any, ◌==◌, if◌then◌else◌, ◌≡◌, refl, ◌∙◌,
  arith, eq_iff, Bool-cases, inl, inr, ◌≢◌, is_some, eq_refl, eqb, eqb_iff,
}
use langgraph_agent.Types.{Task}
use langgraph_agent.Dict.{get, put, get-put}
use langgraph_agent.TaskStore.State.{TaskState}
use langgraph_agent.TaskStore.Detail.{
  replace_row, upserted, upsert_task, status_merged, merge_task_status, set_plan_version,
}
use langgraph_agent.TaskStore.Frames.{row_of}
use langgraph_agent.TaskStore.Isolation.{SameTask}
use langgraph_agent.TaskStore.Invariant.{IsValid}
use langgraph_agent.TaskStore.Invariant.Preserved.{HasId-get, id-upserted, id-status_merged}

pub find?-replace_row-other :
    (id j : String) (next : Task) (rows : List Task)
    → next.id ≡ id
    → id ≢ j
    → find? (λ t. t.id == j) (replace_row id next rows) ≡ find? (λ t. t.id == j) rows
find?-replace_row-other id j next [] e ne = refl
find?-replace_row-other id j next (t ∷ rows) e ne = ground (
  arith,
  eq_iff t.id id,
  eq_iff t.id j,
  eq_iff next.id j,
  find?-replace_row-other id j next rows e ne,
)

find?-replace_row_self :
    (id : String) (next : Task) (rows : List Task)
    → next.id ≡ id
    → find? (λ t. t.id == id) (replace_row id next rows)
      ≡ (if is_some (find? (λ t. t.id == id) rows) then some next else none)
find?-replace_row_self id next [] e = refl
find?-replace_row_self id next (t ∷ rows) e =
    ground (arith, eq_iff next.id id, find?-replace_row_self id next rows e)

any-find? :
    (id : String) (rows : List Task)
    → any (λ t. t.id == id) rows ≡ is_some (find? (λ t. t.id == id) rows)
any-find? id [] = refl
any-find? id (t ∷ rows) = ground (arith, any-find? id rows)

-- The store holds one value as the snapshot and, if the list has one, the row of a task; the task's
-- events, markers and load error, and all that it keeps of the other tasks, are what they were.
pub record Stored (s t : TaskState) (id : String) (task : Task) : Type 0 where
  pub detail : get t.detail id ≡ some task
  pub row : row_of t id ≡ (if is_some (row_of s id) then some task else none)
  pub kept :
      (get t.events_by_task id ≡ get s.events_by_task id)
      × (get t.markers id ≡ get s.markers id)
      × (get t.detail_error id ≡ get s.detail_error id)
  pub selection : t.current_task_id ≡ s.current_task_id
  pub others : (j : String) → id ≢ j → SameTask t s j × (row_of t j ≡ row_of s j)

stored :
    (s : TaskState) (id : String) (task : Task)
    → task.id ≡ id
    → Stored s
        (record s { detail = put s.detail id task; tasks = replace_row id task s.tasks })
        id
        task
stored s id task e = record {
  detail = get-put s.detail id id task ∙ rw eq_refl;
  row = find?-replace_row_self id task s.tasks e;
  kept = (refl, refl, refl);
  selection = refl;
  others = λ j ne. (
    record {
      detail = get-put s.detail id j task ∙ ground (arith, eq_iff id j);
      events = refl;
      markers = refl;
      error = refl;
    },
    find?-replace_row-other id j task s.tasks e ne,
  );
}

replace_row-absent :
    (id : String) (next : Task) (rows : List Task)
    → any (λ t. t.id == id) rows ≡ false
    → replace_row id next rows ≡ rows
replace_row-absent id next [] h = refl
replace_row-absent id next (t ∷ rows) h = ground (arith, replace_row-absent id next rows)

-- Both branches of `upsertTask` write the row that is there, if one is.
pub upsert_task_lem :
    (task : Task) (s : TaskState)
    → upsert_task task s ≡ record s {
      detail = put s.detail task.id (upserted (get s.detail task.id) task);
      tasks = replace_row task.id (upserted (get s.detail task.id) task) s.tasks;
    }
upsert_task_lem task s = elim (Bool-cases (any (λ t. t.id == task.id) s.tasks)) [
  | inl listed ↦ unfold upsert_task in rw listed
  | inr unlisted ↦
      unfold upsert_task in rw (unlisted, replace_row-absent task.id _ s.tasks unlisted)
]

-- A refetched snapshot is stored as it is where the store has none, and merged with the one that it
-- has; the row shows the same, and a task that the list does not hold is not put into it.
pub upsert_task-Stored :
    (task : Task) (s : TaskState)
    → Stored s (upsert_task task s) task.id (upserted (get s.detail task.id) task)
upsert_task-Stored task s = rw (upsert_task_lem task s) (
    stored s task.id (upserted (get s.detail task.id) task)
      (id-upserted (get s.detail task.id) task))

-- A status refetch stores the merge of its three fields, in the snapshot and in the row.
pub merge_task_status-Stored :
    (task : Task) (s : TaskState)
    → IsValid s
    → Stored s (merge_task_status task s) task.id (status_merged (get s.detail task.id) task)
merge_task_status-Stored task s v =
    unfold merge_task_status in
    stored s task.id (status_merged (get s.detail task.id) task)
      (id-status_merged _ task (HasId-get s task.id v.keyed))

ne-eqb : (a b : ℕ) → a ≢ b → eqb a b ≡ false
ne-eqb a b h = ground arith

-- A saved plan version is stored in the snapshot and shown by the row; where the store has no
-- snapshot, or has that version already, nothing changes.
pub set_plan_version_lem :
    (id : String) (version : ℕ) (s : TaskState)
    → IsValid s
    → (get s.detail id ≡ none → set_plan_version id version s ≡ s)
      × ((t : Task)
          → get s.detail id ≡ some t
          → (t.plan_version ≡ version → set_plan_version id version s ≡ s)
            × (t.plan_version ≢ version
                → Stored s
                    (set_plan_version id version s)
                    id
                    (record t { plan_version = version })))
unfolding set_plan_version
set_plan_version_lem id version s v = (
  λ absent. rw (absent, set_plan_version),
  λ t found. (
    λ same. rw (found, set_plan_version) (ground (arith, eqb_iff t.plan_version version)),
    λ differs.
        rw (found, set_plan_version)
          (rw (ne-eqb t.plan_version version differs)
            (stored s id (record t { plan_version = version }) (v.keyed.at_key id t found))),
  ),
)
