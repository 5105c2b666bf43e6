-- ===== src/ProviderDialog/Sent.antt =====
-- What frontend/src/components/settings/ProviderDialog.tsx sends.
use langgraph_agent.Base.{
  String, Bool, true, false, not, ◌&&◌, ◌||◌, Option, none, some, is_some, List, map, includes,
  trim, truthy, or_text, ◌or◌, if◌then◌else◌, ◌≡◌, ◌≢◌, refl, ◌∙◌, arith, Bool-cases, inl, inr, ◌⊎◌,
}
use mathlib.Core.Path.{subst}
use langgraph_agent.Types.{Provider}
use langgraph_agent.ModelCatalog.Form.{matches_provider_id, matches_http_url, matches_env_name}
use langgraph_agent.ModelCatalog.Validated.{
  accepts, first_form_error-validate_provider_form, provider_update_body-accepts,
}
use langgraph_agent.ProviderDialog.{
  DialogMode, create, edit, DialogProps, DialogState, DialogRequest, update_provider,
  create_provider, clear_provider_key, is_edit, options_of, preset_missing, update_body,
  create_request, request_of, submit,
}

-- A request that the server's checks of the form would let pass; a key that is sent is not empty.
abbrev pub IsFit : DialogProps → DialogState → DialogRequest → Type 0
IsFit props s (update_provider id body) =
    (p : Provider) × (props.provider ≡ some p)
    × (id ≡ p.id)
    × (matches_http_url body.base_url ≡ true)
    × (matches_env_name body.api_key_env ≡ true)
    × ((body.protocol or p.protocol) ≡ s.values.protocol)
    × (body.key ≢ some "")
IsFit props s (create_provider r) =
    (matches_provider_id r.id ≡ true)
    × (includes (map (λ p. p.id) props.providers) r.id ≡ false)
    × (matches_http_url r.base_url ≡ true)
    × (matches_env_name r.api_key_env ≡ true)
IsFit props s (clear_provider_key id) = ⊥

abbrev pub may_send : DialogProps → DialogState → Bool
may_send props s = not (s.saving || preset_missing props s) && accepts s.values (options_of props)

submit-cases :
    (props : DialogProps) (s : DialogState)
    → ((may_send props s ≡ true)
        × ((submit props s).0 ≡ some (request_of props.mode props.provider s)))
      ⊎ ((may_send props s ≡ false) × ((submit props s).0 ≡ none))
unfolding submit
submit-cases props s = elim (Bool-cases (s.saving || preset_missing props s)) [
  | inl busy ↦ inr (rw busy refl, rw (submit, busy) refl)
  | inr free ↦ elim (Bool-cases (accepts s.values (options_of props))) [
    | inl ok ↦ inl (
      rw (free, ok) refl,
      rw (submit, free, first_form_error-validate_provider_form s.values (options_of props), ok)
          refl,
    )
    | inr bad ↦ inr (
      rw (free, bad) refl,
      rw (submit, free, first_form_error-validate_provider_form s.values (options_of props), bad)
          refl,
    )
  ]
]

not_blank : (s : String) → (if truthy s then some s else none) ≢ some ""
not_blank s e = elim (Bool-cases (truthy s)) [
  | inl shown ↦ cc (shown, if_true shown ∙ e)
  | inr blank ↦ cc (if_false blank ∙ e)
]
  where
    if_true : truthy s ≡ true → some s ≡ (if truthy s then some s else none)
    if_true h = rw h refl

    if_false : truthy s ≡ false → none ≡ (if truthy s then some s else none)
    if_false h = rw h refl

abbrev props_of : DialogMode → Option Provider → List Provider → DialogProps
props_of mode provider providers = record {
  mode = mode;
  provider = provider;
  providers = providers;
}

env_default :
    (name : String)
    → matches_env_name name ≡ true
    → matches_env_name (or_text name "LLM_API_KEY") ≡ true
env_default name h = elim (Bool-cases (truthy name)) [
  | inl shown ↦ rw shown h
  | inr blank ↦ rw blank (unfold matches_env_name in refl)
]

IsFit-request_of :
    (mode : DialogMode) (provider : Option Provider) (providers : List Provider) (s : DialogState)
    → is_some provider ≡ is_edit mode
    → accepts s.values (options_of (props_of mode provider providers)) ≡ true
    → IsFit (props_of mode provider providers) s (request_of mode provider s)
unfolding request_of update_body create_request
IsFit-request_of edit (some p) providers s e h =
    let body =
      provider_update_body-accepts p.protocol s.values
        (options_of (props_of edit (some p) providers)) h in
    (p, refl, refl, body.0, body.1, body.3, not_blank (trim s.key_draft))
IsFit-request_of edit none providers s e h = cc e
IsFit-request_of create (some p) providers s e h = cc e
IsFit-request_of create none providers s e h = (
  ground (arith, h),
  ground (arith, h),
  ground (arith, h),
  env_default (trim s.values.api_key_env) (ground (arith, h)),
)

and_right : (a b : Bool) → (not a && b) ≡ true → b ≡ true
and_right a b h = ground arith

-- The form sends a request exactly when it is not saving, a preset is chosen where one is needed, and its
-- values are accepted; and what it sends then is fit: an edit is of the card's own id, leaves its
-- protocol as the form shows it and never sends an empty key, which would clear the stored one; a new
-- provider has a well-formed id that no card has; both have a well-formed address and variable name.
pub submit-IsFit :
    (props : DialogProps) (s : DialogState)
    → is_some props.provider ≡ is_edit props.mode
    → (is_some (submit props s).0 ≡ may_send props s)
      × ((request : DialogRequest) → (submit props s).0 ≡ some request → IsFit props s request)
submit-IsFit props s e = elim (submit-cases props s) [
  | inl (may, sent) ↦ (
    rw (sent, may) refl,
    λ request h.
        let same : request_of props.mode props.provider s ≡ request = cc (sent, h) in
        subst (IsFit props s) same (
          IsFit-request_of props.mode props.provider props.providers s e
            (and_right (s.saving || preset_missing props s) _ may)),
  )
  | inr (barred, unsent) ↦ (rw (unsent, barred) refl, λ request h. cc (unsent, h))
]
