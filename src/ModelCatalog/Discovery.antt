-- ===== src/ModelCatalog/Discovery.antt =====
-- frontend/src/lib/modelCatalog.ts, lines 332 to 367: the discovery preview.
use langgraph_agent.Base.{
  String, true, not, ◌&&◌, List, [], ◌∷◌, ◌++◌, map, filter, includes, any-append, ◌==◌, eq_iff,
  eq_refl, if◌then◌else◌, ◌≡◌, refl, arith, Bool-cases, inl, inr,
}
use langgraph_agent.Types.{DiscoverCandidate, ModelProtocol, openai_compatible, anthropic}

unfoldable pub initial_discovery_selection : List DiscoverCandidate → List String
initial_discovery_selection candidates =
    map (λ candidate. candidate.model) (filter (λ candidate. not candidate.added) candidates)

unfoldable pub toggle_discovery_pick : List String → String → List String
toggle_discovery_pick picked model =
    if includes picked model
    then filter (λ candidate. not (candidate == model)) picked
    else picked ++ model ∷ []

-- `new Set(picked).has(model)` is `includes picked model`.
unfoldable pub pickable_candidates : List DiscoverCandidate → List String → List DiscoverCandidate
pickable_candidates candidates picked =
    filter (λ candidate. not candidate.added && includes picked candidate.model) candidates

unfoldable pub discovery_blocked_reason : ModelProtocol → String
discovery_blocked_reason anthropic = "Anthropic 协议暂不支持自动获取模型目录（当前仅 OpenAI 兼容支持）；请手动添加模型 ID。"
discovery_blocked_reason openai_compatible = ""

includes-filter_other :
    (picked : List String) (model other : String)
    → includes (filter (λ candidate. not (candidate == model)) picked) other
      ≡ (includes picked other && not (other == model))
includes-filter_other [] model other = refl
includes-filter_other (p ∷ picked) model other = ground (
  arith,
  includes-filter_other picked model other,
  eq_iff p other,
  eq_iff p model,
  eq_iff other model,
)

-- Toggling a model flips whether it is picked and leaves every other model as it was.
pub includes-toggle_discovery_pick :
    (picked : List String) (model other : String)
    → includes (toggle_discovery_pick picked model) other
      ≡ (if other == model then not (includes picked model) else includes picked other)
unfolding toggle_discovery_pick
includes-toggle_discovery_pick picked model other = ground (
  arith,
  includes-filter_other picked model other,
  any-append (λ x. x == other) picked (model ∷ []),
  eq_iff other model,
  eq_iff model other,
)

selected-picked :
    (candidates : List DiscoverCandidate) (picked : List String)
    → ((model : String)
        → includes (initial_discovery_selection candidates) model ≡ true
        → includes picked model ≡ true)
    → pickable_candidates candidates picked ≡ filter (λ candidate. not candidate.added) candidates
unfolding initial_discovery_selection pickable_candidates
selected-picked [] picked h = refl
selected-picked (c ∷ candidates) picked h = elim (Bool-cases c.added) [
  | inl old ↦ rw old (selected-picked candidates picked (λ model k. h model (rw old k)))
  | inr new ↦
      rw (new, h c.model (rw new (ground (arith, eq_refl c.model))))
        (cc (selected-picked candidates picked (λ model k. h model (rw new (ground (arith, k))))))
]

-- Before any click the candidates that "add" takes are those that the catalog lacks.
pub pickable_candidates-initial_discovery_selection :
    (candidates : List DiscoverCandidate)
    → pickable_candidates candidates (initial_discovery_selection candidates)
      ≡ filter (λ candidate. not candidate.added) candidates
pickable_candidates-initial_discovery_selection candidates =
    selected-picked candidates (initial_discovery_selection candidates) (λ model h. h)
