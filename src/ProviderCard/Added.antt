-- ===== src/ProviderCard/Added.antt =====
-- What adding the picked models leaves of the preview of
-- frontend/src/components/settings/ProviderCard.tsx.
use langgraph_agent.Base.{
  ◌<>◌, All, filter, ◌+◌, String, Bool, true, false, not, Option, none, some, ◌or◌, List, [], all,
  includes, length, ◌≡◌,
}
use langgraph_agent.Types.{DiscoverCandidate}
use langgraph_agent.ModelCatalog.Discovery.{pickable_candidates}
use langgraph_agent.ModelCatalog.Failures.{backend_unreachable}
use langgraph_agent.ModelStore.{api_error_text}
use langgraph_agent.ProviderCard.{
  Note, CardState, Reply, is_added, added_models, failures, mark_added,
}

-- A text stands in another.
pub record Within (x text : String) : Type 0 where
  pub before : String
  pub after : String
  pub parts : text ≡ before <> x <> after

-- A reply that is none of success, and what is told of it: the model and the reason.
abbrev pub failed : DiscoverCandidate × Reply → Bool
failed o = not (is_added o.1)

abbrev pub reason_of : Reply → String
reason_of none = backend_unreachable
reason_of (some answer) = api_error_text answer

abbrev pub failure_text : DiscoverCandidate × Reply → String
failure_text o = o.0.model <> "（" <> reason_of o.1 <> "）"

abbrev pub is_ok : Option Note → Bool
is_ok none = false
is_ok (some note) = note.ok

abbrev pub text_of : Option Note → String
text_of none = ""
text_of (some note) = note.text

-- The card after the replies.
pub record PickedAdded (outcomes : List (DiscoverCandidate × Reply)) (cs : List DiscoverCandidate)
    (t : CardState) : Type 0 where
  pub preview : t.candidates ≡ some (mark_added (added_models outcomes) cs)
  pub named : All (λ o. Within (failure_text o) (text_of t.note)) (filter failed outcomes)
  pub told : is_ok t.note ≡ all (λ o. is_added o.1) outcomes
  pub ended : (t.adding_picked ≡ false) × (t.picked ≡ [])
  pub counted : length (added_models outcomes) + length (failures outcomes) ≡ length outcomes
  pub once :
      (picked : List String)
      → all
          (λ c. not (includes (added_models outcomes) c.model))
          (pickable_candidates (t.candidates or []) picked)
        ≡ true
