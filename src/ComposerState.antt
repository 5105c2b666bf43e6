-- ===== src/ComposerState.antt =====
-- frontend/src/lib/composerState.ts: what the composer shows and allows.
use langgraph_agent.Base.{
  String, Bool, true, false, not, ◌&&◌, ◌||◌, Option, none, some, ◌==◌, ◌or◌, or_else, trim, truthy,
  is_some, if◌then◌else◌, ◌≡◌, ◌⊎◌, refl, arith, Option-cases, eq_iff,
}
use langgraph_agent.Types.{Task, TaskStatus, pending, running, failed, interrupted}
use langgraph_agent.TaskState.{is_parked, is_stoppable}

pub record ComposerViewInput : Type 0 where
  pub task : Option Task
  pub current_task_id : Option String
  pub detail_error : String
  pub detail_auth_expired : Bool
  pub text : String
  pub busy : Bool
  pub send_error : Option String

pub record ComposerView : Type 0 where
  pub parked : Bool
  pub has_failed : Bool
  pub is_live : Bool
  pub loading : Bool
  pub input_disabled : Bool
  pub can_send : Bool
  pub disabled_reason : Option String
  pub placeholder : String
  pub bottom_note : Option String

abbrev pub status_is : (TaskStatus → Bool) → Option Task → Bool
status_is p none = false
status_is p (some task) = p task.status

abbrev is_failed : TaskStatus → Bool
is_failed failed = true
is_failed _ = false

-- The reason that the task's status gives.
unfoldable pub reason_of : TaskStatus → Option String
reason_of pending = some "任务启动中，稍等片刻…"
reason_of running = some "任务运行中；停下或等这一轮结束再发"
reason_of _ = none

unfoldable pub status_reason : Option Task → Option String
unfolding reason_of
status_reason none = none
status_reason (some task) = reason_of task.status

unfoldable pub composer_view : ComposerViewInput → ComposerView
unfolding is_parked is_stoppable status_reason trim
composer_view input =
    let parked = status_is is_parked input.task in
    let has_failed = status_is is_failed input.task in
    let loading =
      truthy (input.current_task_id or "")
      && not (is_some input.task)
      && not (truthy input.detail_error) in
    let input_disabled =
      truthy input.detail_error || loading || (is_some input.task && not parked) in
    let disabled_reason =
      if truthy input.detail_error
      then if input.detail_auth_expired then some "登录已失效；重新登录后再试" else some "任务加载失败；重试或新建任务"
      else if loading
      then some "正在加载任务…"
      else status_reason input.task in
    record {
      parked = parked;
      has_failed = has_failed;
      is_live = status_is is_stoppable input.task;
      loading = loading;
      input_disabled = input_disabled;
      can_send = not input.busy && not input_disabled && truthy (trim input.text);
      disabled_reason = disabled_reason;
      placeholder =
          if loading || truthy input.detail_error
          then "…"
          else if not (is_some input.task)
          then "用自然语言描述一个任务，例如：联网查资料并写一份报告…"
          else if has_failed
          then "任务出错，接着说一句继续…"
          else if parked
          then "接着说一句，任务从这里继续…"
          else "…";
      bottom_note = or_else disabled_reason input.send_error;
    }

unfoldable pub cleared_draft : String → String → String
unfolding trim
cleared_draft prev sent = if trim prev == sent then "" else prev

is_some-reason_of : (status : TaskStatus) → is_some (reason_of status) ≡ not (is_parked status)
unfolding reason_of is_parked
is_some-reason_of pending = refl
is_some-reason_of running = refl
is_some-reason_of failed = refl
is_some-reason_of interrupted = refl

is_some-status_reason :
    (task : Option Task)
    → is_some (status_reason task) ≡ (is_some task && not (status_is is_parked task))
unfolding status_reason
is_some-status_reason none = refl
is_some-status_reason (some task) = is_some-reason_of task.status

-- The input is disabled exactly when a reason is shown.
pub input_disabled-reason :
    (input : ComposerViewInput)
    → (composer_view input).input_disabled ≡ is_some (composer_view input).disabled_reason
unfolding composer_view
input_disabled-reason input = ground (arith, is_some-status_reason input.task)

-- A message may be sent only when no request is under way, the text is not blank and the task's
-- snapshot did not fail; and then either a parked task is continued, or no task is selected.
pub can_send_lem :
    (input : ComposerViewInput)
    → (composer_view input).can_send ≡ true
    → (input.busy ≡ false)
      × (truthy (trim input.text) ≡ true)
      × (input.detail_error ≡ "")
      × ((status_is is_parked input.task ≡ true)
          ⊎ ((input.task ≡ none) × (truthy (input.current_task_id or "") ≡ false)))
unfolding composer_view
can_send_lem input h = ground (arith, Option-cases input.task, eq_iff input.detail_error "")
