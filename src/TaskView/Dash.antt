-- ===== src/TaskView/Dash.antt =====
-- frontend/src/pages/TaskView.tsx, lines 50 to 112 and 232 to 263: the panes, the file tabs and the
-- drawers of the page.
pub mod Reachable
use langgraph_agent.Base.{
  String, Bool, true, false, ◌||◌, Option, none, some, List, [], is_some, if◌then◌else◌,
}
use langgraph_agent.DashTabs.{
  DashTab, files, plan, file_tab_id, file_tab_path, open_file_tab, close_file_tab,
  tab_after_closing,
}
use langgraph_agent.Drawer.{DrawerSide, left, right, DrawerViewInput, drawer_view}

-- `dash`, `traceOpen` and `open`, and whether the columns are narrow.
pub record PageState : Type 0 where
  pub opened_files : List String
  pub tab : DashTab
  pub trace_open : Bool
  pub opened : Option DrawerSide
  pub left_narrow : Bool
  pub right_narrow : Bool

unfoldable pub initial_page : Bool → Bool → PageState
initial_page left_narrow right_narrow = record {
  opened_files = [];
  tab = files;
  trace_open = false;
  opened = none;
  left_narrow = left_narrow;
  right_narrow = right_narrow;
}

unfoldable pub view_input : PageState → DrawerViewInput
view_input s = record {
  left_narrow = s.left_narrow;
  right_narrow = s.right_narrow;
  opened = s.opened;
  trace_open = s.trace_open;
}

-- Switching tasks closes the replay face and every file tab.
unfoldable pub switch_task : PageState → PageState
unfolding file_tab_path
switch_task s = record s {
  trace_open = false;
  opened_files = [];
  tab = if is_some (file_tab_path s.tab) then files else s.tab;
}

unfoldable pub open_file : String → PageState → PageState
unfolding open_file_tab file_tab_id
open_file path s = record s {
  opened_files = open_file_tab s.opened_files path;
  tab = file_tab_id path;
  opened = some right;
}

unfoldable pub close_file : String → PageState → PageState
unfolding close_file_tab tab_after_closing
close_file path s = record s {
  opened_files = close_file_tab s.opened_files path;
  tab = tab_after_closing s.opened_files path s.tab;
}

unfoldable pub change_tab : DashTab → PageState → PageState
change_tab tab s = record s { tab = tab }

-- `setOpen((v) => (v === side ? null : side))`
unfoldable pub toggled : DrawerSide → Option DrawerSide → Option DrawerSide
toggled left (some left) = none
toggled right (some right) = none
toggled side _ = some side

pub data PageCall : Type 0 where
  task_switched plan_asked drawer_closed trace_opened trace_closed : PageCall
  file_opened file_closed : String → PageCall
  tab_picked : DashTab → PageCall
  drawer_toggled : DrawerSide → PageCall
  resized : Bool → Bool → PageCall

unfoldable pub act : PageCall → PageState → PageState
unfolding switch_task open_file close_file change_tab toggled
act task_switched s = switch_task s
act plan_asked s = record (change_tab plan s) { opened = some right }
act drawer_closed s = record s { opened = none }
act trace_opened s = record s { trace_open = true }
act trace_closed s = record s { trace_open = false }
act (file_opened path) s = open_file path s
act (file_closed path) s = close_file path s
act (tab_picked tab) s = change_tab tab s
act (drawer_toggled side) s = record s { opened = toggled side s.opened }
act (resized l r) s = record s { left_narrow = l; right_narrow = r }

-- The effect of the render after a call: a drawer without a reason is closed.
unfoldable pub settle : PageState → PageState
unfolding drawer_view view_input
settle s =
    if (drawer_view (view_input s)).close_on_widen || (drawer_view (view_input s)).close_for_trace
    then record s { opened = none }
    else s

unfoldable pub page_step : PageCall → PageState → PageState
unfolding act settle
page_step call s = settle (act call s)
