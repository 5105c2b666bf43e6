-- ===== src/ReduceTask/SubtaskLaws.antt =====
-- What the `subtask_*` frames of reduceTask.ts leave under each subtask id.
use langgraph_agent.Base.{
  String, true, Option, none, some, or_else, List, [], ◌∷◌, ◌++◌, map, find?, ◌==◌, ◌≡◌, refl, sym,
  ◌∙◌, ap, arith, Option-cases, inl, inr, ◌≢◌, eq_iff, ◌or◌, truthy,
}
use langgraph_agent.Types.{Task, SubTask, SubtaskData}
use langgraph_agent.ReduceTask.Subtasks.{
  SubtaskKind, started, returned, broken, new_subtask, next_subtask, put_subtask, on_subtask,
}
use langgraph_agent.ReduceTask.Replay.SubtaskFrames.{
  find?-put_subtask, id-next_subtask, on_subtask-named, put_subtask-old, put_subtask-new, write,
  id-find?,
}

-- The snapshot's record of a subtask.
abbrev pub subtask_of : String → Task → Option SubTask
subtask_of id task = find? (λ s. s.subtask_id == id) (task.subtasks or [])

find?-write-other :
    (id j : String) (x : SubTask) (list : List SubTask)
    → x.subtask_id ≡ id
    → id ≢ j
    → find? (λ s. s.subtask_id == j) (map (write id x) list) ≡ find? (λ s. s.subtask_id == j) list
find?-write-other id j x [] e ne = refl
find?-write-other id j x (s ∷ list) e ne = ground (
  arith,
  eq_iff s.subtask_id id,
  eq_iff s.subtask_id j,
  eq_iff x.subtask_id j,
  find?-write-other id j x list e ne,
)

find?-append-other :
    (j : String) (x : SubTask) (list : List SubTask)
    → x.subtask_id ≢ j
    → find? (λ s. s.subtask_id == j) (list ++ x ∷ []) ≡ find? (λ s. s.subtask_id == j) list
find?-append-other j x [] ne = ground (arith, eq_iff x.subtask_id j)
find?-append-other j x (s ∷ list) ne = ground (arith, find?-append-other j x list ne)

id-new_subtask :
    (kind : SubtaskKind) (id : String) (d : SubtaskData)
    → (next_subtask kind d (new_subtask id d)).subtask_id ≡ id
id-new_subtask kind id d = id-next_subtask kind d _ ∙ unfold new_subtask in refl

find?-put_subtask-other :
    (kind : SubtaskKind) (id j : String) (d : SubtaskData) (list : List SubTask)
    → id ≢ j
    → find? (λ s. s.subtask_id == j) (put_subtask kind id d list)
      ≡ find? (λ s. s.subtask_id == j) list
find?-put_subtask-other kind id j d list ne =
    elim (Option-cases (find? (λ s. s.subtask_id == id) list)) [
      | inl new ↦
          rw (put_subtask-new kind id d list new)
            (find?-append-other j _ list (λ e. ne (sym (id-new_subtask kind id d) ∙ e)))
      | inr (old, found) ↦ rw (put_subtask-old kind id d list old found) (
          find?-write-other id j _ list (id-next_subtask kind d old ∙ id-find? id list old found)
            ne)
    ]

on_subtask-id :
    (kind : SubtaskKind) (d : SubtaskData) (id : String) (task : Task)
    → d.subtask_id ≡ some id
    → truthy id ≡ true
    → on_subtask kind d task
      ≡ record task { subtasks = some (put_subtask kind id d (task.subtasks or [])) }
on_subtask-id kind d id task e t =
    let named : (d.subtask_id or "") ≡ id = ap (λ (o : Option String). o or "") e in
    on_subtask-named kind d task (ap truthy named ∙ t)
    ∙ ap {B = Task}
        (λ k. record task { subtasks = some (put_subtask kind k d (task.subtasks or [])) }) named

-- What is known of a subtask before its first frame.
abbrev pub name_before : Option SubTask → String
name_before none = ""
name_before (some base) = base.name

abbrev pub summary_before : Option SubTask → String
summary_before none = ""
summary_before (some base) = base.summary

abbrev pub artifacts_before : Option SubTask → List String
artifacts_before none = []
artifacts_before (some base) = base.artifacts

abbrev pub error_before : Option SubTask → Option String
error_before none = none
error_before (some base) = base.error

-- The record after a frame, from the one before: a start forgets what an earlier run left, a result keeps
-- what it does not name, and a failure keeps all but the error.
abbrev pub record_after : SubtaskKind → String → SubtaskData → Option SubTask → SubTask
record_after started id d before = record {
  subtask_id = id;
  name = d.name or name_before before;
  status = d.status or "running";
  summary = "";
  artifacts = [];
  error = none;
}
record_after returned id d before = record {
  subtask_id = id;
  name = d.name or name_before before;
  status = d.status or "completed";
  summary = d.summary or summary_before before;
  artifacts = d.artifacts or artifacts_before before;
  error = error_before before;
}
record_after broken id d before = record {
  subtask_id = id;
  name = d.name or name_before before;
  status = "failed";
  summary = summary_before before;
  artifacts = artifacts_before before;
  error = or_else d.error (error_before before);
}

or_twice : (o : Option String) → (o or (o or "")) ≡ (o or "")
or_twice none = refl
or_twice (some name) = refl

next-new :
    (kind : SubtaskKind) (id : String) (d : SubtaskData)
    → next_subtask kind d (new_subtask id d) ≡ record_after kind id d none
unfolding next_subtask new_subtask
next-new started id d = rw (or_twice d.name) refl
next-new returned id d = rw (or_twice d.name) refl
next-new broken id d = rw (or_twice d.name) refl

next-old :
    (kind : SubtaskKind) (id : String) (d : SubtaskData) (base : SubTask)
    → base.subtask_id ≡ id
    → next_subtask kind d base ≡ record_after kind id d (some base)
unfolding next_subtask
next-old started id d base same = rw (sym same) refl
next-old returned id d base same = rw (sym same) refl
next-old broken id d base same = rw (sym same) refl

next-after :
    (kind : SubtaskKind) (id : String) (d : SubtaskData) (list : List SubTask)
    (before : Option SubTask)
    → find? (λ s. s.subtask_id == id) list ≡ before
    → next_subtask kind d (before or new_subtask id d) ≡ record_after kind id d before
next-after kind id d list none found = next-new kind id d
next-after kind id d list (some base) found = next-old kind id d base (id-find? id list base found)

-- A subtask frame with a non-empty id leaves under that id the record that the frame and the record before
-- determine: a start has no summary, artifacts or error of an earlier run, a result keeps the members that
-- it does not name, and a failure is told with its error and keeps the summary and the artifacts. The
-- record under every other id is left alone.
pub subtask_of-on_subtask :
    (kind : SubtaskKind) (d : SubtaskData) (id : String) (task : Task)
    → d.subtask_id ≡ some id
    → truthy id ≡ true
    → (subtask_of id (on_subtask kind d task) ≡ some (record_after kind id d (subtask_of id task)))
      × ((j : String) → id ≢ j → subtask_of j (on_subtask kind d task) ≡ subtask_of j task)
subtask_of-on_subtask kind d id task e t = rw (on_subtask-id kind d id task e t) (
  find?-put_subtask kind id d (task.subtasks or [])
      ∙ ap some (next-after kind id d (task.subtasks or []) (subtask_of id task) refl),
  λ j ne. find?-put_subtask-other kind id j d (task.subtasks or []) ne,
)
