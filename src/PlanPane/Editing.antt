-- ===== src/PlanPane/Editing.antt =====
-- `startEdit`, `cancel` and `loadFresh` of frontend/src/components/dash/PlanPane.tsx.
use langgraph_agent.Base.{Bool, true, false, Option, none, some, truthy, if◌then◌else◌}
use langgraph_agent.PlanPane.State.{Conflict, PaneState, apply_version}
use langgraph_agent.PlanPane.Loading.{start_load}

-- The load effect of the render that edits cancels a load.
unfoldable pub start_edit : PaneState → PaneState
unfolding start_load
start_edit s =
    start_load (record s { loaded = s.text; editing = true; note = none; conflict = none })

-- `setEditing(false)`: the plan is read again if it was being edited.
unfoldable pub leave_edit : PaneState → PaneState
unfolding start_load
leave_edit s = if s.editing then start_load (record s { editing = false }) else s

unfoldable pub cancel_edit : PaneState → PaneState
unfolding leave_edit
cancel_edit s = leave_edit (record s { text = s.loaded; note = none; conflict = none })

unfoldable pub take_conflict : Option Conflict → PaneState → PaneState
unfolding apply_version
take_conflict none s = s
take_conflict (some fresh) s =
    record (apply_version s.task_id fresh.version
      (record s { text = fresh.text; loaded = fresh.text })) {
        conflict = none;
        note = some "已载入新版；继续编辑后再保存。";
      }

unfoldable pub load_fresh : PaneState → PaneState
unfolding take_conflict
load_fresh s = take_conflict s.conflict s

unfoldable pub save_blocked : PaneState → Bool
save_blocked s = truthy s.load_error
