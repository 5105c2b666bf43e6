-- ===== src/ComposerControls.antt =====
-- frontend/src/hooks/useComposerControls.ts: the switches of mode and model. A handler is what it does
-- at once, and what it does when its answers are there.
use langgraph_agent.Base.{
  String, Bool, true, false, not, ◌||◌, Option, none, some, ◌≡◌, refl, arith, ◌==◌, or_text, trim,
  truthy, ◌<>◌, if◌then◌else◌, Option-cases,
}
use langgraph_agent.Types.{Task, TaskMode, ModelEntry}
use langgraph_agent.TaskState.{is_stoppable}
use langgraph_agent.TaskStore.{TaskState, Action, step}
use langgraph_agent.ModelCatalog.Entries.{find_entry_by_model}
use langgraph_agent.ModelCatalog.Failures.{
  backend_unreachable, model_switch_success, model_switch_failure,
}
use langgraph_agent.ModelStore.{Answer, ModelState, api_error_text}

pub record ControlState : Type 0 where
  pub draft_mode : TaskMode
  pub draft_model : String
  pub switch_note : Option String
  pub store : TaskState

-- The requests that the handlers make.
pub data ControlRequest : Type 0 where
  put_mode : String → TaskMode → ControlRequest
  put_model : String → String → ControlRequest
  put_custom_model : String → String → String → ControlRequest
  add_model : String → String → ControlRequest

-- A handler that waits for answers, or one that is done: with a request that is none, and whether the
-- picker can close.
pub data Started : Type 0 where
  waits : ControlRequest → ControlState → Started
  done : Bool → ControlState → Started

-- `r.data?.ok`, then the refetched task; a request that is not answered is a rejection.
pub data SwitchReply : Type 0 where
  accepted : Option Task → SwitchReply
  declined : Answer Bool → SwitchReply
  unanswered : SwitchReply

abbrev noted : String → ControlState → ControlState
noted note s = record s { switch_note = some note }

unfoldable pub start_mode : Option Task → TaskMode → ControlState → Started
start_mode none next s = done true (record s { switch_note = none; draft_mode = next })
start_mode (some task) next s = waits (put_mode task.id next) (record s { switch_note = none })

unfoldable pub start_model : Option Task → String → String → ControlState → Started
start_model none default_id next s = done true (record s { switch_note = none; draft_model = next })
start_model (some task) default_id next s =
    if next == or_text task.model default_id
    then done true (record s { switch_note = none })
    else waits (put_model task.id next) (record s { switch_note = none })

-- `if (fresh.data) upsert(fresh.data)`
unfoldable pub refetched : Option Task → ControlState → ControlState
unfolding step
refetched none s = s
refetched (some task) s = record s { store = step (Action.upsert_task task) s.store }

unfoldable pub finish_mode : Task → SwitchReply → ControlState → ControlState
unfolding refetched api_error_text is_stoppable ◌<>◌
finish_mode task (accepted fresh) s =
    if is_stoppable task.status then noted "下一轮生效" (refetched fresh s) else refetched fresh s
finish_mode task (declined answer) s = noted (api_error_text answer) s
finish_mode task unanswered s = noted ("切换失败：" <> backend_unreachable) s

-- The end of `onModel`, and of `onCustomModel` on a task, which refreshes the catalog too.
unfoldable pub finish_model : Task → SwitchReply → ControlState → ControlState
unfolding refetched api_error_text is_stoppable model_switch_success model_switch_failure ◌<>◌
finish_model task (accepted fresh) s =
    noted (model_switch_success (is_stoppable task.status)) (refetched fresh s)
finish_model task (declined answer) s = noted (model_switch_failure (api_error_text answer)) s
finish_model task unanswered s = noted ("切换失败：" <> backend_unreachable) s

-- Whether the picker can close.
unfoldable pub custom_closes : SwitchReply → Bool
custom_closes (accepted fresh) = true
custom_closes _ = false

unfoldable pub picked_entry : ModelEntry → ControlState → ControlState
unfolding ◌<>◌
picked_entry entry s = record s {
  draft_model = entry.id;
  switch_note = some ("新任务将使用 " <> or_text entry.name entry.model);
}

unfoldable pub start_custom : Option Task → ModelState → String → String → ControlState → Started
unfolding find_entry_by_model picked_entry trim
start_custom task models provider_id raw s =
    if not (truthy provider_id) || not (truthy (trim raw))
    then done false (record s { switch_note = none })
    else elim task [
      | some t ↦
          waits (put_custom_model t.id provider_id (trim raw)) (record s { switch_note = none })
      | none ↦ elim (find_entry_by_model models.models provider_id (trim raw)) [
        | some entry ↦ done true (picked_entry entry s)
        | none ↦ waits (add_model provider_id (trim raw)) (record s { switch_note = none })
      ]
    ]

-- The end of `onCustomModel` without a task; no answer is `none`.
unfoldable pub finish_added : Option (Answer ModelEntry) → ControlState → Bool × ControlState
unfolding api_error_text model_switch_failure ◌<>◌
finish_added none s = (false, noted ("切换失败：" <> backend_unreachable) s)
finish_added (some answer) s = elim answer.body [
  | none ↦ (false, noted (model_switch_failure (api_error_text answer)) s)
  | some entry ↦ (
    true,
    record s {
      draft_model = entry.id;
      switch_note = some ("已把「" <> entry.model <> "」加入目录；新任务将使用它");
    },
  )
]

-- A switch on a task never touches the drafts of a new task, whatever is answered.
pub drafts_kept :
    (task : Task) (reply : SwitchReply) (s : ControlState)
    → ((finish_mode task reply s).draft_mode ≡ s.draft_mode)
      × ((finish_mode task reply s).draft_model ≡ s.draft_model)
      × ((finish_model task reply s).draft_mode ≡ s.draft_mode)
      × ((finish_model task reply s).draft_model ≡ s.draft_model)
unfolding finish_mode finish_model refetched
drafts_kept task (accepted fresh) s = ground (arith, Option-cases fresh)
drafts_kept task (declined answer) s = (refl, refl, refl, refl)
drafts_kept task unanswered s = (refl, refl, refl, refl)
