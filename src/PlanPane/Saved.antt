-- ===== src/PlanPane/Saved.antt =====
-- Which writes frontend/src/components/dash/PlanPane.tsx makes.
use langgraph_agent.Base.{
  ◌&&◌, not, String, List, [], ◌∷◌, Option, Bool, true, false, none, some, is_some, ◌or◌, ◌==◌,
  eq_iff, ◌≡◌, if◌then◌else◌, ◌⊎◌, inl, inr, refl, sym, ap, ◌∙◌, arith, Option-cases, Bool-cases,
}
use mathlib.Core.Path.{subst}
use langgraph_agent.TaskStore.{TaskState}
use langgraph_agent.ApiClient.Answers.{StatusResult, PlanData}
use langgraph_agent.ApiClient.Requests.{ApiCall, put_plan, get_plan_snapshot}
use langgraph_agent.PlanPane.{
  PaneState, Save, PaneCall, PaneRequest, no_request, reread, write, writing, allowed, pane_call,
  pane_step, readable, finish_reread, start_save, start_load, initial_pane,
}

-- The states of the pane in which a save was clicked and began.
unfoldable pub note_click : PaneCall → PaneState → List PaneState → List PaneState
unfolding allowed
note_click PaneCall.save_clicked s clicked =
    if allowed PaneCall.save_clicked s then s ∷ clicked else clicked
note_click _ s clicked = clicked

pub data Clicked (s : PaneState) : List PaneState → Type 0 where
  here : {rest : List PaneState} → Clicked s (s ∷ rest)
  there : {t : PaneState} {rest : List PaneState} → Clicked s rest → Clicked s (t ∷ rest)

-- The answer of the read before a save is one to a request that a click made; the rest comes freely.
abbrev pub Answers : List PaneState → PaneCall → Type 0
Answers clicked (PaneCall.reread_answered save r) =
    (c : PaneState) × Clicked c clicked
    × ((pane_step PaneCall.save_clicked c).0 ≡ reread save (get_plan_snapshot c.task_id))
Answers clicked _ = Unit {0}

-- A run of the pane, with the states in which a save was clicked.
pub data PaneRun : PaneState → List PaneState → Type 0 where
  opened : (id : String) (store : TaskState) → PaneRun (start_load (initial_pane id store)) []
  next :
      {s : PaneState} {clicked : List PaneState} (call : PaneCall)
      → Answers clicked call
      → PaneRun s clicked
      → PaneRun (pane_step call s).1 (note_click call s clicked)

-- What a call writes, and why it may: the task, the text and the loaded text are those of the click.
pub data Writes (s : PaneState) (clicked : List PaneState) : PaneCall → ApiCall → Type 0 where
  unchanged :
      (c : PaneState) (save : Save) (r : StatusResult PlanData) (fresh : PlanData)
      → Clicked c clicked
      → (c.editing ≡ true) × (c.busy ≡ false)
      → readable r ≡ some fresh
      → fresh.text ≡ c.loaded
      → Writes s clicked (PaneCall.reread_answered save r) (put_plan c.task_id c.text)
  overwritten :
      (is_some s.conflict ≡ true) × (s.busy ≡ false)
      → Writes s clicked PaneCall.overwrite_clicked (put_plan s.task_id s.text)

-- The request that a step sends, if it is a write.
abbrev pub write_of : PaneRequest → Option ApiCall
write_of (write save call) = some call
write_of _ = none

-- A fresh read of the plan that is the text that a save closes over.
record Unchanged (save : Save) (r : StatusResult PlanData) : Type 0 where
  fresh : PlanData
  read : readable r ≡ some fresh
  same : fresh.text ≡ save.loaded

-- The answer of the read before a save, on each branch.
reread-cases :
    (save : Save) (r : StatusResult PlanData) (s : PaneState)
    → ((finish_reread save r s).0 ≡ none)
      ⊎ (Unchanged save r × ((finish_reread save r s).0 ≡ some (put_plan save.task_id save.text)))
unfolding finish_reread
reread-cases save r s = elim (Option-cases (readable r)) [
  | inl lost ↦ inl (rw (finish_reread, lost) refl)
  | inr (fresh, read) ↦ elim (Bool-cases (fresh.text == save.loaded)) [
    | inl same ↦ inr (
      record { fresh = fresh; read = read; same = (eq_iff fresh.text save.loaded).0 same },
      rw (finish_reread, read, same) refl,
    )
    | inr other ↦ inl (rw (finish_reread, read, other) refl)
  ]
]

abbrev saves : PaneRequest → Save → Save
saves (reread save call) other = save
saves _ other = other

abbrev reads : PaneRequest → Bool
reads (reread save call) = true
reads _ = false

request-pane_step :
    (call : PaneCall) (s : PaneState)
    → (pane_step call s).0 ≡ (if allowed call s then (pane_call call s).0 else no_request)
unfolding pane_step
request-pane_step call s = elim (Bool-cases (allowed call s)) [
  | inl may ↦ rw may refl
  | inr barred ↦ rw barred refl
]

-- A click whose request reads the plan again was allowed, and what waits for the answer is its state.
record ClickOf (c : PaneState) (save : Save) : Type 0 where
  idle : (c.editing ≡ true) × (c.busy ≡ false)
  task_id : save.task_id ≡ c.task_id
  text : save.text ≡ c.text
  loaded : save.loaded ≡ c.loaded

ClickOf-request :
    (may : Bool) (c : PaneState) (save : Save) (call : ApiCall)
    → (c.editing && not c.busy) ≡ may
    → (if may then (pane_call PaneCall.save_clicked c).0 else no_request) ≡ reread save call
    → ClickOf c save
unfolding pane_call start_save
ClickOf-request true c save call may e = record {
  idle = (ground (arith, may), ground (arith, may));
  task_id = sym (ap (λ q. (saves q save).task_id) e);
  text = sym (ap (λ q. (saves q save).text) e);
  loaded = sym (ap (λ q. (saves q save).loaded) e);
}
ClickOf-request false c save call may e = absurd (ground (arith, ap reads e))

ClickOf-step :
    (c : PaneState) (save : Save) (call : ApiCall)
    → (pane_step PaneCall.save_clicked c).0 ≡ reread save call
    → ClickOf c save
unfolding allowed
ClickOf-step c save call e =
    ClickOf-request (c.editing && not c.busy) c save call refl
      (sym (request-pane_step PaneCall.save_clicked c) ∙ e)

-- The write after the answer of a read that a click asked for.
Writes-reread :
    (save : Save) (r : StatusResult PlanData) (s c : PaneState) (clicked : List PaneState)
    (put : ApiCall)
    → Clicked c clicked
    → ClickOf c save
    → Unchanged save r
    → some put ≡ some (put_plan save.task_id save.text)
    → Writes s clicked (PaneCall.reread_answered save r) put
Writes-reread save r s c clicked put was click u e =
    subst (Writes s clicked (PaneCall.reread_answered save r)) (sym same)
      (unchanged c save r u.fresh was click.idle u.read (u.same ∙ click.loaded))
  where
    same : put ≡ put_plan c.task_id c.text
    same = ap (λ o. o or put) e ∙ rw (click.task_id, click.text) refl

Writes-pane_call :
    (call : PaneCall) (s : PaneState) (clicked : List PaneState) (put : ApiCall)
    → Answers clicked call
    → allowed call s ≡ true
    → write_of (pane_call call s).0 ≡ some put
    → Writes s clicked call put
unfolding pane_call allowed start_save
Writes-pane_call PaneCall.overwrite_clicked s clicked put a may h =
    subst (Writes s clicked PaneCall.overwrite_clicked) (ap (λ o. o or put) h)
      (overwritten (ground (arith, may), ground (arith, may)))
Writes-pane_call (PaneCall.reread_answered save r) s clicked put a may h =
    elim (reread-cases save r s) [
      | inl e ↦ cc (ap (λ o. write_of (writing save o)) e, h)
      | inr (u, e) ↦
          Writes-reread save r s a.0 clicked put a.1
            (ClickOf-step a.0 save (get_plan_snapshot a.0.task_id) a.2) u
            (sym h ∙ ap (λ o. write_of (writing save o)) e)
    ]
Writes-pane_call _ s clicked put a may h = cc h

Writes-request :
    (call : PaneCall) (s : PaneState) (clicked : List PaneState) (put : ApiCall) (may : Bool)
    → Answers clicked call
    → allowed call s ≡ may
    → write_of (if may then (pane_call call s).0 else no_request) ≡ some put
    → Writes s clicked call put
Writes-request call s clicked put true answers may h =
    Writes-pane_call call s clicked put answers may h
Writes-request call s clicked put false answers barred h = cc h

-- Every write that the pane makes in a run has a reason. Either a save was clicked before, while the plan
-- was edited and nothing was being saved, the answer of the read that this click asked for has come with a
-- plan, whose text is the one that was loaded at the click, and the text of the click is written for the
-- task of the click; or the pane shows a conflict, nothing is being saved, and the user chose to write the
-- present text over the plan.
pub pane_step-Writes :
    (call : PaneCall) {s : PaneState} {clicked : List PaneState} (put : ApiCall)
    → PaneRun s clicked
    → Answers clicked call
    → write_of (pane_step call s).0 ≡ some put
    → Writes s clicked call put
pane_step-Writes call {s} {clicked} put run answers h =
    Writes-request call s clicked put (allowed call s) answers refl
      (ap write_of (sym (request-pane_step call s)) ∙ h)
