-- ===== src/ReduceTask/Replay/SubtaskFrames.antt =====
-- A second frame of the same subtask.
use langgraph_agent.Base.{
  String, Bool, true, false, none, some, List, [], ◌∷◌, ◌++◌, map, find?, ◌==◌, if◌then◌else◌, ◌≡◌,
  refl, ◌∙◌, arith, eq_iff, Bool-cases, inl, inr, ◌or◌, truthy, Option-cases, map_idem,
}
use langgraph_agent.Types.{Task, SubTask, SubtaskData}
use langgraph_agent.ReduceTask.Subtasks.{
  SubtaskKind, started, returned, broken, new_subtask, next_subtask, put_subtask, on_subtask,
}

abbrev pub is_subtask : String → SubTask → Bool
is_subtask id s = s.subtask_id == id

-- A second frame of one kind finds what the first one left.
next_subtask_idem :
    (kind : SubtaskKind) (d : SubtaskData) (base : SubTask)
    → next_subtask kind d (next_subtask kind d base) ≡ next_subtask kind d base
unfolding next_subtask
next_subtask_idem started d base = ground arith
next_subtask_idem returned d base = ground arith
next_subtask_idem broken d base = ground arith

pub id-next_subtask :
    (kind : SubtaskKind) (d : SubtaskData) (base : SubTask)
    → (next_subtask kind d base).subtask_id ≡ base.subtask_id
unfolding next_subtask
id-next_subtask started d base = refl
id-next_subtask returned d base = refl
id-next_subtask broken d base = refl

find?-put :
    (id : String) (x : SubTask) (list : List SubTask) (old : SubTask)
    → x.subtask_id ≡ id
    → find? (is_subtask id) list ≡ some old
    → find? (is_subtask id) (map (λ s. if is_subtask id s then x else s) list) ≡ some x
find?-put id x [] old e h = cc
find?-put id x (s ∷ list) old e h =
    ground (arith, eq_iff x.subtask_id id, find?-put id x list old e)

find?-last :
    (id : String) (x : SubTask) (list : List SubTask)
    → x.subtask_id ≡ id
    → find? (is_subtask id) list ≡ none
    → find? (is_subtask id) (list ++ x ∷ []) ≡ some x
find?-last id x [] e h = ground (arith, eq_iff x.subtask_id id)
find?-last id x (s ∷ list) e h = ground (arith, find?-last id x list e)

map-put :
    (id : String) (x : SubTask) (list : List SubTask)
    → x.subtask_id ≡ id
    → find? (is_subtask id) list ≡ none
    → map (λ s. if is_subtask id s then x else s) (list ++ x ∷ []) ≡ list ++ x ∷ []
map-put id x [] e h = ground (arith, eq_iff x.subtask_id id)
map-put id x (s ∷ list) e h = ground (arith, map-put id x list e)

pub put_subtask-old :
    (kind : SubtaskKind) (id : String) (d : SubtaskData) (list : List SubTask) (old : SubTask)
    → find? (is_subtask id) list ≡ some old
    → put_subtask kind id d list
      ≡ map (λ s. if is_subtask id s then next_subtask kind d old else s) list
unfolding put_subtask
put_subtask-old kind id d list old h = rw (h, put_subtask)

pub put_subtask-new :
    (kind : SubtaskKind) (id : String) (d : SubtaskData) (list : List SubTask)
    → find? (is_subtask id) list ≡ none
    → put_subtask kind id d list ≡ list ++ next_subtask kind d (new_subtask id d) ∷ []
unfolding put_subtask
put_subtask-new kind id d list h = rw (h, put_subtask)

pub id-find? :
    (id : String) (list : List SubTask) (old : SubTask)
    → find? (is_subtask id) list ≡ some old
    → old.subtask_id ≡ id
id-find? id [] old h = cc
id-find? id (s ∷ list) old h = ground (arith, eq_iff s.subtask_id id, id-find? id list old)

-- After the frame, the record under its id is the updated one.
pub find?-put_subtask :
    (kind : SubtaskKind) (id : String) (d : SubtaskData) (list : List SubTask)
    → find? (is_subtask id) (put_subtask kind id d list)
      ≡ some (next_subtask kind d (find? (is_subtask id) list or new_subtask id d))
find?-put_subtask kind id d list = elim (Option-cases (find? (is_subtask id) list)) [
  | inl new ↦
      rw (put_subtask-new kind id d list new, new)
        (find?-last id _ list (id-next_subtask kind d _ ∙ unfold new_subtask in refl) new)
  | inr (old, found) ↦
      rw (put_subtask-old kind id d list old found, found)
        (find?-put id _ list old (id-next_subtask kind d old ∙ id-find? id list old found) found)
]

pub on_subtask-named :
    (kind : SubtaskKind) (d : SubtaskData) (task : Task)
    → truthy (d.subtask_id or "") ≡ true
    → on_subtask kind d task ≡ record task {
      subtasks = some (put_subtask kind (d.subtask_id or "") d (task.subtasks or []));
    }
on_subtask-named kind d task h = unfold on_subtask in rw h

on_subtask-unnamed :
    (kind : SubtaskKind) (d : SubtaskData) (task : Task)
    → truthy (d.subtask_id or "") ≡ false
    → on_subtask kind d task ≡ task
on_subtask-unnamed kind d task h = unfold on_subtask in rw h

-- Writing one record over all that have its id.
abbrev pub write : String → SubTask → SubTask → SubTask
write id x s = if is_subtask id s then x else s

write_idem :
    (id : String) (x s : SubTask) → x.subtask_id ≡ id → write id x (write id x s) ≡ write id x s
write_idem id x s e = ground (arith, eq_iff x.subtask_id id)

map-write :
    (kind : SubtaskKind) (id : String) (d : SubtaskData) (list : List SubTask)
    → let x = next_subtask kind d (find? (is_subtask id) list or new_subtask id d) in
      map (write id x) (put_subtask kind id d list) ≡ put_subtask kind id d list
map-write kind id d list = elim (Option-cases (find? (is_subtask id) list)) [
  | inl new ↦
      rw (put_subtask-new kind id d list new, new)
        (map-put id _ list (id-next_subtask kind d _ ∙ unfold new_subtask in refl) new)
  | inr (old, found) ↦
      rw (put_subtask-old kind id d list old found, found)
        (map_idem (write id (next_subtask kind d old))
          (λ s. write_idem id _ s (id-next_subtask kind d old ∙ id-find? id list old found)) list)
]

put_subtask_idem :
    (kind : SubtaskKind) (id : String) (d : SubtaskData) (list : List SubTask)
    → put_subtask kind id d (put_subtask kind id d list) ≡ put_subtask kind id d list
put_subtask_idem kind id d list =
    put_subtask-old kind id d _ _ (find?-put_subtask kind id d list)
    ∙ rw (next_subtask_idem kind d (find? (is_subtask id) list or new_subtask id d))
        (map-write kind id d list)

pub on_subtask_idem :
    (kind : SubtaskKind) (d : SubtaskData) (task : Task)
    → on_subtask kind d (on_subtask kind d task) ≡ on_subtask kind d task
on_subtask_idem kind d task = elim (Bool-cases (truthy (d.subtask_id or ""))) [
  | inl named ↦
      rw (on_subtask-named kind d task named, on_subtask-named kind d _ named)
        (λ i. record task {
          subtasks = some (put_subtask_idem kind (d.subtask_id or "") d (task.subtasks or []) i);
        })
  | inr unnamed ↦ on_subtask-unnamed kind d _ unnamed
]
