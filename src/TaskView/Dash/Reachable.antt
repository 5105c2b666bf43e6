-- ===== src/TaskView/Dash/Reachable.antt =====
-- What holds of the page of frontend/src/pages/TaskView.tsx after any sequence of calls.
use langgraph_agent.Base.{
  String, Bool, true, false, not, ◌&&◌, is_some, List, [], ◌∷◌, ◌++◌, includes, ◌==◌, eq_iff, ◌≡◌,
  refl, arith, if◌then◌else◌, any-append,
}
use langgraph_agent.DashTabs.{
  DashTab, file, file_tab_path, file_tab_id, open_file_tab, close_file_tab,
}
use langgraph_agent.DashTabs.Closing.{on_bar, tab_after_closing_lem}
use langgraph_agent.Drawer.{drawer_view}
use langgraph_agent.TaskView.Dash.{
  PageState, initial_page, view_input, PageCall, tab_picked, act, settle, page_step, switch_task,
  open_file, close_file, change_tab,
}

unfoldable pub distinct : List String → Bool
distinct [] = true
distinct (x ∷ xs) = not (includes xs x) && distinct xs

-- The bar offers the tabs that are on it.
unfoldable pub offered : PageCall → PageState → Bool
unfolding on_bar
offered (tab_picked tab) s = on_bar s.opened_files tab
offered _ s = true

pub data PageReachable : PageState → Type 0 where
  start : (l r : Bool) → PageReachable (initial_page l r)
  next :
      {s : PageState} (call : PageCall)
      → offered call s ≡ true
      → PageReachable s
      → PageReachable (page_step call s)

pub record PageValid (s : PageState) : Type 0 where
  pub shown : on_bar s.opened_files s.tab ≡ true
  pub tabs : distinct s.opened_files ≡ true
  pub drawer : is_some s.opened ≡ (drawer_view (view_input s)).overlay_visible
  pub background : is_some s.opened ≡ (drawer_view (view_input s)).background_inert

distinct-append :
    (xs : List String) (x : String) → distinct (xs ++ x ∷ []) ≡ (distinct xs && not (includes xs x))
unfolding distinct
distinct-append [] x = refl
distinct-append (y ∷ ys) x =
    ground
      (arith, distinct-append ys x, any-append (λ z. z == y) ys (x ∷ []), eq_iff x y, eq_iff y x)

distinct-open :
    (xs : List String) (x : String)
    → distinct xs ≡ true
    → (distinct (open_file_tab xs x) ≡ true) × (includes (open_file_tab xs x) x ≡ true)
unfolding open_file_tab
distinct-open xs x h =
    ground (arith, distinct-append xs x, any-append (λ z. z == x) xs (x ∷ []), eq_iff x x)

includes-close :
    (xs : List String) (x y : String)
    → includes xs y ≡ false
    → includes (close_file_tab xs x) y ≡ false
unfolding close_file_tab
includes-close [] x y h = refl
includes-close (z ∷ zs) x y h = ground (arith, includes-close zs x y)

distinct-close :
    (xs : List String) (x : String) → distinct xs ≡ true → distinct (close_file_tab xs x) ≡ true
unfolding close_file_tab distinct
distinct-close [] x h = refl
distinct-close (y ∷ ys) x h = ground (arith, distinct-close ys x, includes-close ys x y)

-- A settled page shows the drawer that is open.
drawer-settle :
    (s : PageState)
    → (is_some (settle s).opened ≡ (drawer_view (view_input (settle s))).overlay_visible)
      × (is_some (settle s).opened ≡ (drawer_view (view_input (settle s))).background_inert)
unfolding settle drawer_view view_input
drawer-settle s = ground arith

tabs-settle :
    (s : PageState) → ((settle s).opened_files ≡ s.opened_files) × ((settle s).tab ≡ s.tab)
unfolding settle
tabs-settle s = ground arith

-- What a call leaves of the tabs.
abbrev TabsValid : PageState → Type 0
TabsValid s = (on_bar s.opened_files s.tab ≡ true) × (distinct s.opened_files ≡ true)

bar-switch :
    (tab : DashTab) → on_bar [] (if is_some (file_tab_path tab) then DashTab.files else tab) ≡ true
unfolding on_bar file_tab_path
bar-switch (file path) = refl
bar-switch DashTab.files = refl
bar-switch DashTab.plan = refl
bar-switch DashTab.events = refl

TabsValid-act :
    (call : PageCall) (s : PageState) → offered call s ≡ true → TabsValid s → TabsValid (act call s)
unfolding act
TabsValid-act PageCall.task_switched s h v = unfold switch_task distinct in (bar-switch s.tab, refl)
TabsValid-act PageCall.plan_asked s h v = unfold change_tab on_bar file_tab_path in (refl, v.1)
TabsValid-act PageCall.drawer_closed s h v = v
TabsValid-act PageCall.trace_opened s h v = v
TabsValid-act PageCall.trace_closed s h v = v
TabsValid-act (PageCall.file_opened path) s h v =
    unfold open_file on_bar file_tab_path file_tab_id in
    ((distinct-open s.opened_files path v.1).1, (distinct-open s.opened_files path v.1).0)
TabsValid-act (PageCall.file_closed path) s h v =
    unfold close_file in
    (
      (tab_after_closing_lem s.opened_files path s.tab v.0).0,
      distinct-close s.opened_files path v.1,
    )
TabsValid-act (tab_picked tab) s h v = unfold change_tab offered in (h, v.1)
TabsValid-act (PageCall.drawer_toggled side) s h v = v
TabsValid-act (PageCall.resized l r) s h v = v

PageValid-page_step :
    (call : PageCall) (s : PageState)
    → offered call s ≡ true
    → PageValid s
    → PageValid (page_step call s)
unfolding page_step
PageValid-page_step call s allowed v = record {
  shown = rw ((tabs-settle (act call s)).0, (tabs-settle (act call s)).1) valid.0;
  tabs = rw ((tabs-settle (act call s)).0) valid.1;
  drawer = (drawer-settle (act call s)).0;
  background = (drawer-settle (act call s)).1;
}
  where
    valid : TabsValid (act call s)
    valid = TabsValid-act call s allowed (v.shown, v.tabs)

PageValid-initial_page : (l r : Bool) → PageValid (initial_page l r)
unfolding initial_page view_input drawer_view on_bar file_tab_path distinct
PageValid-initial_page l r = record { shown = refl; tabs = refl; drawer = refl; background = refl }

-- After any calls from the page's start, each of which picks at most a tab that is on the bar, the tab
-- shown is on the bar, no file has two tabs, and a drawer is open exactly while the narrow layout shows
-- it, and exactly while the background is inert.
pub PageReachable-PageValid : {s : PageState} → PageReachable s → PageValid s
PageReachable-PageValid (start l r) = PageValid-initial_page l r
PageReachable-PageValid (next {s} call allowed reachable) =
    PageValid-page_step call s allowed (PageReachable-PageValid reachable)
