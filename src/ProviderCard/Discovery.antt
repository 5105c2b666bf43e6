-- ===== src/ProviderCard/Discovery.antt =====
-- `discover` of frontend/src/components/settings/ProviderCard.tsx, and runs in which a new configuration
-- or another discovery overtakes an answer.
use langgraph_agent.Base.{
  ℕ, ◌+◌, String, true, false, Option, none, some, List, [], ◌∷◌, eqb, ◌or◌, if◌then◌else◌,
}
use langgraph_agent.Types.{DiscoverCandidate}
use langgraph_agent.ModelCatalog.Discovery.{initial_discovery_selection, toggle_discovery_pick}
use langgraph_agent.ModelCatalog.Failures.{discovery_failure_note}
use langgraph_agent.ModelStore.{Answer, api_error_text}
use langgraph_agent.ProviderCard.State.{CardState, report, reset_card}

-- The request's number is the new counter.
unfoldable pub start_discover : CardState → CardState
start_discover s = record s {
  discovery_seq = s.discovery_seq + 1;
  discovering = true;
  discover_error = "";
  candidates = none;
  picked = [];
}

-- An empty list is told, and shows no preview.
unfoldable pub take_candidates : List DiscoverCandidate → CardState → CardState
unfolding initial_discovery_selection
take_candidates [] s = report "上游没有返回模型；可以手动添加模型 ID。" (record s { candidates = none; picked = [] })
take_candidates (c ∷ list) s = record s {
  candidates = some (c ∷ list);
  picked = initial_discovery_selection (c ∷ list);
}

-- From the answer on: `none` is a call that rejects, and `result.data.models` may be absent.
unfoldable pub finish_discover :
    ℕ → Option (Answer (Option (List DiscoverCandidate))) → CardState → CardState
unfolding take_candidates discovery_failure_note api_error_text
finish_discover seq answer s =
    if eqb seq s.discovery_seq
    then record (elim answer [
      | none ↦ record s { discover_error = discovery_failure_note "" }
      | some r ↦ elim r.body [
        | none ↦ record s { discover_error = discovery_failure_note (api_error_text r) }
        | some models ↦ take_candidates (models or []) s
      ]
    ]) { discovering = false }
    else s

unfoldable pub pick : String → CardState → CardState
unfolding toggle_discovery_pick
pick model s = record s { picked = toggle_discovery_pick s.picked model }

-- What happens to the preview.
pub data CardCall : Type 0 where
  configured : CardCall
  discovered : CardCall
  answered : ℕ → Option (Answer (Option (List DiscoverCandidate))) → CardCall
  toggled : String → CardCall
  discarded : CardCall

unfoldable pub card_call : CardCall → CardState → CardState
unfolding reset_card start_discover finish_discover pick
card_call configured s = reset_card s
card_call discovered s = start_discover s
card_call (answered seq answer) s = finish_discover seq answer s
card_call (toggled model) s = pick model s
card_call discarded s = record s { candidates = none; picked = [] }

unfoldable pub run_card : List CardCall → CardState → CardState
unfolding card_call
run_card [] s = s
run_card (c ∷ cs) s = run_card cs (card_call c s)
