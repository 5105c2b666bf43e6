-- ===== src/TaskStore/Removal.antt =====
-- What `removeTask` and `removeWorkspaceTasks` take out of the store, and what they leave.
use langgraph_agent.Base.{
  String, Bool, true, false, not, ◌&&◌, ◌||◌, Option, none, some, List, [], ◌∷◌, ◌++◌, map, find?,
  filter, any, ◌==◌, ◌≡◌, refl, sym, ◌∙◌, ap, arith, eq_iff, Bool-cases, inl, inr, ◌≢◌, truthy,
  includes, any-append, eq_refl,
}
use mathlib.Core.Path.{ap₂}
use langgraph_agent.Types.{Task}
use langgraph_agent.Dict.{get, values, get-remove_all, any-values}
use langgraph_agent.TaskStore.State.{TaskState}
use langgraph_agent.TaskStore.Drop.{
  keep_selection, drop_tasks, remove_task, workspace_ids, remove_workspace_tasks,
}
use langgraph_agent.TaskStore.Frames.{row_of}
use langgraph_agent.TaskStore.Isolation.{SameTask}
use langgraph_agent.TaskStore.Invariant.{IsValid}

-- Nothing is left of a task.
pub record Gone (s : TaskState) (j : String) : Type 0 where
  pub row : row_of s j ≡ none
  pub detail : get s.detail j ≡ none
  pub events : get s.events_by_task j ≡ none
  pub markers : get s.markers j ≡ none
  pub error : get s.detail_error j ≡ none
  pub unselected : truthy j ≡ true → s.current_task_id ≢ some j

-- Everything is left of a task.
pub record Kept (s t : TaskState) (j : String) : Type 0 where
  pub same : SameTask s t j
  pub row : row_of s j ≡ row_of t j
  pub selected : t.current_task_id ≡ some j → s.current_task_id ≡ some j

find?-dropped :
    (ids : List String) (j : String) (rows : List Task)
    → includes ids j ≡ true
    → find? (λ t. t.id == j) (filter (λ t. not (includes ids t.id)) rows) ≡ none
find?-dropped ids j [] h = refl
find?-dropped ids j (t ∷ rows) h = elim (Bool-cases (t.id == j)) [
  | inl same ↦ rw ((eq_iff t.id j).0 same, h) (find?-dropped ids j rows h)
  | inr other ↦ ground (arith, find?-dropped ids j rows h)
]

find?-kept :
    (ids : List String) (j : String) (rows : List Task)
    → includes ids j ≡ false
    → find? (λ t. t.id == j) (filter (λ t. not (includes ids t.id)) rows)
      ≡ find? (λ t. t.id == j) rows
find?-kept ids j [] h = refl
find?-kept ids j (t ∷ rows) h = elim (Bool-cases (t.id == j)) [
  | inl same ↦
      let kept : includes ids t.id ≡ false = ap (includes ids) ((eq_iff t.id j).0 same) ∙ h in
      rw (kept, same)
  | inr other ↦ ground (arith, find?-kept ids j rows h)
]

cleared :
    (ids : List String) (id : String)
    → (truthy id && includes ids id) ≡ true
    → keep_selection ids (some id) ≡ none
unfolding keep_selection
cleared ids id h = rw h

uncleared :
    (ids : List String) (id : String)
    → (truthy id && includes ids id) ≡ false
    → keep_selection ids (some id) ≡ some id
unfolding keep_selection
uncleared ids id h = rw h

keep_selection-ne :
    (ids : List String) (o : Option String) (j : String)
    → includes ids j ≡ true
    → truthy j ≡ true
    → keep_selection ids o ≢ some j
keep_selection-ne ids none j h t e = unfold keep_selection in cc
keep_selection-ne ids (some id) j h t e = elim (Bool-cases (truthy id && includes ids id)) [
  | inl gone ↦ cc (cleared ids id gone)
  | inr stays ↦
      let same : id ≡ j = cc (sym (uncleared ids id stays) ∙ e) in
      cc (stays, ap (λ k. truthy k && includes ids k) same, ap₂ ◌&&◌ t h)
]

drop_tasks-Gone :
    (ids : List String) (s : TaskState) (j : String)
    → includes ids j ≡ true
    → Gone (drop_tasks ids s) j
unfolding drop_tasks
drop_tasks-Gone ids s j h = record {
  row = find?-dropped ids j s.tasks h;
  detail = get-remove_all s.detail ids j ∙ rw h;
  events = get-remove_all s.events_by_task ids j ∙ rw h;
  markers = get-remove_all s.markers ids j ∙ rw h;
  error = get-remove_all s.detail_error ids j ∙ rw h;
  unselected = λ t e. keep_selection-ne ids s.current_task_id j h t e;
}

drop_tasks-Kept :
    (ids : List String) (s : TaskState) (j : String)
    → includes ids j ≡ false
    → Kept (drop_tasks ids s) s j
unfolding drop_tasks
drop_tasks-Kept ids s j h = record {
  same = record {
    detail = get-remove_all s.detail ids j ∙ rw h;
    events = get-remove_all s.events_by_task ids j ∙ rw h;
    markers = get-remove_all s.markers ids j ∙ rw h;
    error = get-remove_all s.detail_error ids j ∙ rw h;
  };
  row = find?-kept ids j s.tasks h;
  selected = λ e. rw e (rw h (ground arith));
}

-- After `removeTask` nothing is left of the task: no row, snapshot, events, markers or load error, and
-- it is not selected; of every other task all is left, its selection too.
pub remove_task_lem :
    (id : String) (s : TaskState)
    → Gone (remove_task id s) id × ((j : String) → id ≢ j → Kept (remove_task id s) s j)
unfolding remove_task
remove_task_lem id s = (
  drop_tasks-Gone (id ∷ []) s id (ground (arith, eq_refl id)),
  λ j ne. drop_tasks-Kept (id ∷ []) s j (ground (arith, eq_iff id j)),
)

any-row :
    (p : Task → Bool) (rows : List Task) (j : String) (row : Task)
    → find? (λ t. t.id == j) rows ≡ some row
    → p row ≡ true
    → any (λ t. p t && (t.id == j)) rows ≡ true
any-row p [] j row h k = cc
any-row p (t ∷ rows) j row h k = ground (arith, any-row p rows j row)

includes-append :
    (xs ys : List String) (j : String) → includes (xs ++ ys) j ≡ (includes xs j || includes ys j)
includes-append xs ys j = any-append (λ x. x == j) xs ys

abbrev in_workspace : String → Task → Bool
in_workspace workspace t = t.workspace == workspace

-- The tasks with the id, among the rows and the snapshots, that are in the workspace.
abbrev pub hits : String → String → TaskState → Bool
hits workspace j s =
    any (λ t. t.workspace == workspace && (t.id == j)) s.tasks
    || any (λ t. t.workspace == workspace && (t.id == j)) (values s.detail)

includes-ids_iff :
    (p : Task → Bool) (rows : List Task) (j : String)
    → includes (map (λ t. t.id) (filter p rows)) j ≡ any (λ t. p t && (t.id == j)) rows
includes-ids_iff p [] j = refl
includes-ids_iff p (t ∷ rows) j = ground (arith, includes-ids_iff p rows j)

includes-workspace_ids :
    (workspace : String) (s : TaskState) (j : String)
    → includes (workspace_ids workspace s) j ≡ hits workspace j s
unfolding workspace_ids
includes-workspace_ids workspace s j =
    includes-append (map (λ t. t.id) (filter (in_workspace workspace) s.tasks)) _ j
    ∙ ap₂ ◌||◌ (includes-ids_iff (in_workspace workspace) s.tasks j)
        (includes-ids_iff (in_workspace workspace) (values s.detail) j)

-- The row or the snapshot of a task is in the workspace.
pub data Belongs (workspace : String) (s : TaskState) (j : String) : Type 0 where
  by_row : (t : Task) → row_of s j ≡ some t → t.workspace ≡ workspace → Belongs workspace s j
  by_snapshot :
      (t : Task) → get s.detail j ≡ some t → t.workspace ≡ workspace → Belongs workspace s j

Belongs-hits :
    (workspace : String) (s : TaskState) (j : String)
    → IsValid s
    → Belongs workspace s j
    → hits workspace j s ≡ true
Belongs-hits workspace s j v (by_row t found here) = ground (
  arith,
  any-row (in_workspace workspace) s.tasks j t found ((eq_iff t.workspace workspace).1 here),
)
Belongs-hits workspace s j v (by_snapshot t found here) = ground (
  arith,
  any-values (λ (u : Task). u.workspace == workspace && (u.id == j)) s.detail j t found
      (ap₂ ◌&&◌ ((eq_iff t.workspace workspace).1 here)
        ((eq_iff t.id j).1 (v.keyed.at_key j t found))),
)

-- After `removeWorkspaceTasks` nothing is left of a task whose row or snapshot is in the workspace,
-- also where only the snapshot was left of it, and all is left of a task that has neither there.
pub remove_workspace_tasks_lem :
    (workspace : String) (s : TaskState) (j : String)
    → IsValid s
    → (Belongs workspace s j → Gone (remove_workspace_tasks workspace s) j)
      × (hits workspace j s ≡ false → Kept (remove_workspace_tasks workspace s) s j)
unfolding remove_workspace_tasks
remove_workspace_tasks_lem workspace s j v = (
  λ b.
      drop_tasks-Gone (workspace_ids workspace s) s j
        (includes-workspace_ids workspace s j ∙ Belongs-hits workspace s j v b),
  λ h. drop_tasks-Kept (workspace_ids workspace s) s j (includes-workspace_ids workspace s j ∙ h),
)
