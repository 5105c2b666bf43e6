-- ===== src/TaskView/Refetch/Once.antt =====
-- How often frontend/src/pages/TaskView.tsx asks for a task's status.
use langgraph_agent.Base.{
  ℕ, ◌+◌, ◌≤◌, String, Bool, true, false, none, some, List, [], ◌∷◌, ◌++◌, includes, ◌==◌, eq_iff,
  ◌≡◌, arith, if◌then◌else◌,
}
use langgraph_agent.TaskView.Refetch.{
  RefetchState, PageEvent, frame, answered, acted, next, run_page, on_event, status_answered, asked,
  wanted, id_of,
}
use langgraph_agent.Types.{SseEvent}
use langgraph_agent.TaskStore.{step, Action}

-- How often an id was asked for.
abbrev pub times : String → List String → ℕ
times id [] = 0
times id (x ∷ xs) = (if x == id then 1 else 0) + times id xs

one : Bool → ℕ
one b = if b then 1 else 0

-- One event asks for an id only if it was not asked for before, and then it is remembered.
times-next :
    (id : String) (e : PageEvent) (s : RefetchState)
    → times id (asked (next e s).0 []) + one (includes s.refetched id)
      ≡ one (includes (next e s).1.refetched id)
unfolding next one on_event status_answered
times-next id (frame ev) s =
    ground (arith, eq_iff (id_of ev (step (Action.apply_event ev) s.store)) id)
times-next id (answered none) s = omega arith
times-next id (answered (some task)) s = omega arith
times-next id (acted action) s = omega arith

times-run :
    (id : String) (es : List PageEvent) (s : RefetchState)
    → times id (run_page es s).0 + one (includes s.refetched id)
      ≡ one (includes (run_page es s).1.refetched id)
unfolding run_page
times-run id [] s = omega arith
times-run id (e ∷ es) s = ground (arith, times-run id es (next e s).1, times-next id e s)

-- What was asked for stays remembered.
includes-run :
    (id : String) (es : List PageEvent) (s : RefetchState)
    → includes s.refetched id ≡ true
    → includes (run_page es s).1.refetched id ≡ true
unfolding one
includes-run id es s h = ground (arith, times-run id es s)

-- The frame that is wanted, in the store that it is applied to.
abbrev pub then_wanted : SseEvent → RefetchState → Bool
then_wanted ev s = wanted ev (step (Action.apply_event ev) s.store)

abbrev pub then_id : SseEvent → RefetchState → String
then_id ev s = id_of ev (step (Action.apply_event ev) s.store)

includes-frame :
    (ev : SseEvent) (s : RefetchState)
    → then_wanted ev s ≡ true
    → includes (next (frame ev) s).1.refetched (then_id ev s) ≡ true
unfolding next on_event
includes-frame ev s h = ground (arith, eq_iff (then_id ev s) (then_id ev s))

includes-wanted :
    (es : List PageEvent) (ev : SseEvent) (later : List PageEvent) (s : RefetchState)
    → then_wanted ev (run_page es s).1 ≡ true
    → includes (run_page (es ++ frame ev ∷ later) s).1.refetched (then_id ev (run_page es s).1)
      ≡ true
unfolding run_page
includes-wanted [] ev later s h = includes-run _ later (next (frame ev) s).1 (includes-frame ev s h)
includes-wanted (e ∷ es) ev later s h = includes-wanted es ev later (next e s).1 h

-- Over any run, whatever frames, answers and calls arrive, an id's status is asked for at most once,
-- and not at all if it was asked for before the run.
pub times-run_page :
    (id : String) (es : List PageEvent) (s : RefetchState)
    → (times id (run_page es s).0 ≤ 1)
      × (includes s.refetched id ≡ true → times id (run_page es s).0 ≡ 0)
unfolding one
times-run_page id es s = (ground (arith, times-run id es s), ground (arith, times-run id es s))

-- A task whose frame arrives in a run while its snapshot, with the frame applied, still calls for it, has its
-- status asked for exactly once in that run, if it was not asked for before.
pub times-wanted :
    (es : List PageEvent) (ev : SseEvent) (later : List PageEvent) (s : RefetchState)
    → then_wanted ev (run_page es s).1 ≡ true
    → includes s.refetched (then_id ev (run_page es s).1) ≡ false
    → times (then_id ev (run_page es s).1) (run_page (es ++ frame ev ∷ later) s).0 ≡ 1
unfolding one
times-wanted es ev later s h fresh = ground (
  arith,
  times-run (then_id ev (run_page es s).1) (es ++ frame ev ∷ later) s,
  includes-wanted es ev later s h,
)
