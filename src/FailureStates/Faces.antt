-- ===== src/FailureStates/Faces.antt =====
-- frontend/src/lib/failureStates.ts: failure, loading and empty never look alike.
use langgraph_agent.Base.{true, false, truthy, ◌≡◌, ◌<◌, ◌↔◌, ◌⊎◌, arith, eqb_iff}
use langgraph_agent.FailureStates.Lists.{
  error, empty, HistoryInput, history_list_state, list_banner_visible,
}

-- A failed load of the list is always told, by the error face or by the banner and never by both;
-- and when nothing was found the list is called empty only after a load that succeeded, or because
-- the search hides every row.
pub failure_is_told :
    (input : HistoryInput)
    → (truthy input.error ≡ true
        → (history_list_state input ≡ error)
          ↔ (list_banner_visible input.error (history_list_state input) ≡ false))
      × (history_list_state input ≡ empty
          → ((truthy input.error ≡ false) × (input.loading ≡ false) × (input.rows ≡ 0))
            ⊎ ((0 < input.rows) × (input.visible ≡ 0)))
unfolding history_list_state list_banner_visible
failure_is_told input =
    (ground arith, ground (arith, eqb_iff input.rows 0, eqb_iff input.visible 0))
