-- ===== src/Tests/Reducer.antt =====
-- The reducer's theorems at concrete snapshots and frames.
use langgraph_agent.Base.{
  ◌+◌, ◌≤◌, String, some, [], ◌∷◌, length, ◌≡◌, ◌≢◌, refl, arith, if◌then◌else◌,
}
use langgraph_agent.ReduceTask.{apply_to_task, on_tool_call, on_tool_result, on_subtask, started}
use langgraph_agent.ReduceTask.Replay.{apply_to_task_idem}
use langgraph_agent.ReduceTask.Order.{InOrder, apply_to_task-InOrder}
use langgraph_agent.ReduceTask.Results.{find_call, result_on, find_call-on_tool_result}
use langgraph_agent.ReduceTask.Attribution.{holders, last_holds, holders-on_tool_call}
use langgraph_agent.ReduceTask.SubtaskLaws.{subtask_of, record_after, subtask_of-on_subtask}
use langgraph_agent.ReduceTask.MergeLaws.{merge_all, merge_all_grows}
use langgraph_agent.Tests.Data.{call, task_of, two_steps, step_two, result_one, delegated}

apply_to_task_idem_example :
    apply_to_task (some (apply_to_task (some two_steps) "t1" step_two)) "t1" step_two
    ≡ apply_to_task (some two_steps) "t1" step_two
apply_to_task_idem_example = apply_to_task_idem (some two_steps) "t1" step_two

apply_to_task-InOrder_example : InOrder (apply_to_task (some two_steps) "t1" step_two).steps
apply_to_task-InOrder_example =
    apply_to_task-InOrder (some two_steps) "t1" step_two ((omega arith, tt), (tt, tt))

find_call-on_tool_result_example :
    find_call "c1" (on_tool_result result_one two_steps).steps
    ≡ result_on "c1" result_one (find_call "c1" two_steps.steps)
find_call-on_tool_result_example = find_call-on_tool_result "c1" result_one two_steps

-- The first step holds the call, the last does not.
holders-on_tool_call_example :
    (holders "c1" (on_tool_call (call "c1") two_steps).steps ≡ (
      if last_holds "c1" two_steps.steps
      then holders "c1" two_steps.steps
      else holders "c1" two_steps.steps + 1))
    × ((id : String)
        → "c1" ≢ id
        → holders id (on_tool_call (call "c1") two_steps).steps ≡ holders id two_steps.steps)
holders-on_tool_call_example = holders-on_tool_call (call "c1") two_steps

subtask_of-on_subtask_example :
    (subtask_of "s1" (on_subtask started delegated two_steps)
      ≡ some (record_after started "s1" delegated (subtask_of "s1" two_steps)))
    × ((j : String)
        → "s1" ≢ j
        → subtask_of j (on_subtask started delegated two_steps) ≡ subtask_of j two_steps)
subtask_of-on_subtask_example = subtask_of-on_subtask started delegated "s1" two_steps refl refl

merge_all_grows_example :
    (length two_steps.steps ≤ length (merge_all two_steps (task_of "t1" "/work" [] ∷ [])).steps)
    × (two_steps.plan_version ≤ (merge_all two_steps (task_of "t1" "/work" [] ∷ [])).plan_version)
merge_all_grows_example = merge_all_grows two_steps (task_of "t1" "/work" [] ∷ [])
