-- ===== src/PlanPane/Saving.antt =====
-- `save` and `doPut` of frontend/src/components/dash/PlanPane.tsx: what each of them does up to its next
-- `await`. Only `save` reads the plan again before it writes.
use langgraph_agent.Base.{String, true, false, Option, none, some, ◌==◌, if◌then◌else◌}
use langgraph_agent.ApiClient.Answers.{StatusResult, PlanData}
use langgraph_agent.ApiClient.Requests.{ApiCall, put_plan}
use langgraph_agent.FailureStates.Details.{plan_load_failure}
use langgraph_agent.ModelStore.{api_error_text}
use langgraph_agent.PlanPane.State.{PaneState, Save, PutReply, PutData, apply_version}
use langgraph_agent.PlanPane.Loading.{readable}
use langgraph_agent.PlanPane.Editing.{leave_edit}

-- The start of both.
unfoldable pub start_save : PaneState → Save × PaneState
start_save s = (
  record { task_id = s.task_id; text = s.text; loaded = s.loaded },
  record s { busy = true; note = none },
)

unfoldable pub not_saved : String → PaneState → PaneState
not_saved message s = record s { note = some message; busy = false }

-- `save` from the answer of its read to its end, or to the request that writes the plan.
unfoldable pub finish_reread : Save → StatusResult PlanData → PaneState → Option ApiCall × PaneState
unfolding readable plan_load_failure not_saved
finish_reread save r s = elim (readable r) [
  | none ↦ (none, not_saved (plan_load_failure r.status (some r.detail)) s)
  | some fresh ↦
      if fresh.text == save.loaded then (some (put_plan save.task_id save.text), s) else (
        none,
        not_saved "计划文件在编辑期间被外部修改；请选择载入新版或覆盖保存。"
            (record s { conflict = some (record { text = fresh.text; version = fresh.version }) }),
      )
]

unfoldable pub saved : Save → PutData → PaneState → PaneState
unfolding apply_version leave_edit
saved save put s =
    record (leave_edit (record (apply_version save.task_id put.version s) { loaded = save.text })) {
      conflict = none;
      note = some "已保存；下一条消息生效";
      busy = false;
    }

-- From the answer of the write to the end.
unfoldable pub finish_put : Save → PutReply → PaneState → PaneState
unfolding saved not_saved api_error_text
finish_put save none s = not_saved "保存失败" s
finish_put save (some answer) s = elim answer.body [
  | none ↦ not_saved (api_error_text answer) s
  | some put ↦ if put.ok then saved save put s else not_saved (api_error_text answer) s
]
