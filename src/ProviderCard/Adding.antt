-- ===== src/ProviderCard/Adding.antt =====
-- `addPicked` of frontend/src/components/settings/ProviderCard.tsx: the picked models are added one
-- after the other, whatever becomes of each.
use langgraph_agent.Base.{
  ℕ, ◌+◌, String, Bool, true, false, Option, none, some, List, [], ◌∷◌, map, includes, length, ltb,
  ◌<>◌, show, ◌or◌, if◌then◌else◌,
}
use langgraph_agent.Types.{DiscoverCandidate, ModelEntry}
use langgraph_agent.ModelCatalog.Discovery.{pickable_candidates}
use langgraph_agent.ModelCatalog.Failures.{backend_unreachable}
use langgraph_agent.ModelStore.{Answer, api_error_text}
use langgraph_agent.ApiClient.Requests.{ApiCall, add_provider_model}
use langgraph_agent.ProviderCard.Actions.{model_body}
use langgraph_agent.ProviderCard.State.{CardState, report, report_error, refreshed}

-- What `addProviderModel` resolves to, or no answer.
abbrev pub Reply : Type 0
Reply = Option (Answer ModelEntry)

unfoldable pub chosen_of : CardState → List DiscoverCandidate
unfolding pickable_candidates
chosen_of s = pickable_candidates (s.candidates or []) s.picked

-- The request for one model.
unfoldable pub add_request : String → DiscoverCandidate → ApiCall
unfolding model_body
add_request id c = add_provider_model id (model_body c.model c.name)

-- The start: nothing where nothing can be picked, or the requests, to be made one after the other.
unfoldable pub start_picked : String → CardState → Option (List ApiCall × CardState)
unfolding chosen_of add_request
start_picked id s = elim (chosen_of s) [
  | [] ↦ none
  | c ∷ rest ↦ some (map (add_request id) (c ∷ rest), record s { adding_picked = true })
]

abbrev pub is_added : Reply → Bool
is_added none = false
is_added (some answer) = elim answer.body [ none ↦ false | some _ ↦ true ]

-- The models that were added, of the chosen ones with their replies.
unfoldable pub added_models : List (DiscoverCandidate × Reply) → List String
added_models [] = []
added_models ((c, reply) ∷ rest) =
    let others = added_models rest in if is_added reply then c.model ∷ others else others

unfoldable pub failure_of : DiscoverCandidate → Reply → String
unfolding api_error_text ◌<>◌
failure_of c none = c.model <> "（" <> backend_unreachable <> "）"
failure_of c (some answer) = c.model <> "（" <> api_error_text answer <> "）"

unfoldable pub failures : List (DiscoverCandidate × Reply) → List String
unfolding failure_of
failures [] = []
failures ((c, reply) ∷ rest) =
    let others = failures rest in if is_added reply then others else failure_of c reply ∷ others

-- `failed.join("；")`
unfoldable pub joined : List String → String
unfolding ◌<>◌
joined [] = ""
joined (text ∷ []) = text
joined (text ∷ next ∷ rest) = text <> "；" <> joined (next ∷ rest)

unfoldable pub mark_added : List String → List DiscoverCandidate → List DiscoverCandidate
mark_added added = map (λ c. if includes added c.model then record c { added = true } else c)

abbrev pub marked_preview :
    List String → Option (List DiscoverCandidate) → Option (List DiscoverCandidate)
marked_preview added none = none
marked_preview added (some candidates) = some (mark_added added candidates)

-- `added.size`: a set counts a model once.
unfoldable pub set_size : List String → ℕ
set_size [] = 0
set_size (x ∷ xs) = let rest = set_size xs in if includes xs x then rest else rest + 1

-- The end, given the replies to the chosen models in their order.
unfoldable pub finish_picked : List (DiscoverCandidate × Reply) → CardState → CardState
unfolding added_models failures mark_added joined show set_size ◌<>◌
finish_picked outcomes s =
    let added = added_models outcomes in
    let count = set_size added in
    let failed = failures outcomes in
    let cleared = record s { adding_picked = false; picked = [] } in
    let shown =
      if ltb 0 count
      then refreshed (record cleared { candidates = marked_preview added cleared.candidates })
      else cleared in
    if ltb 0 (length failed)
    then report_error
        ("加入目录：成功 "
          <> show count
          <> " 个，失败 "
          <> show (length failed)
          <> " 个（"
          <> joined failed
          <> "）")
        shown
    else report ("已加入目录 " <> show count <> " 个模型") shown
