-- ===== src/ModelCatalog/Validated.antt =====
-- frontend/src/lib/modelCatalog.ts: a form without an error, and the body sent for it.
use langgraph_agent.Base.{
  String, Bool, true, false, not, ◌&&◌, Option, none, List, includes, ◌or◌, or_else, trim, truthy,
  truthy-cons, if◌then◌else◌, ◌≡◌, ◌⊎◌, refl, arith, Bool-cases, inl, inr,
}
use langgraph_agent.Types.{ModelProtocol, openai_compatible, anthropic}
use langgraph_agent.ModelCatalog.Form.{
  ProviderFormValues, ProviderFormOptions, matches_provider_id, matches_http_url, matches_env_name,
  id_error, url_error, env_error, validate_provider_form, first_form_error, provider_update_body,
  same_protocol,
}

-- What the form asks for: a free, well-formed id when a provider is made, an address and a name of
-- a variable.
abbrev pub accepts : ProviderFormValues → ProviderFormOptions → Bool
accepts values options =
    (if options.editing
      then true
      else matches_provider_id (trim values.id)
        && not (includes options.existing_ids (trim values.id)))
    && matches_http_url (trim values.base_url)
    && matches_env_name (trim values.api_key_env)

matches_provider_id-truthy : (id : String) → matches_provider_id id ≡ true → truthy id ≡ true
unfolding matches_provider_id
matches_provider_id-truthy String.[] h = h
matches_provider_id-truthy (String.◌∷◌ c s) h = truthy-cons c s

matches_env_name-truthy : (name : String) → matches_env_name name ≡ true → truthy name ≡ true
unfolding matches_env_name
matches_env_name-truthy String.[] h = h
matches_env_name-truthy (String.◌∷◌ c s) h = truthy-cons c s

matches_http_url-truthy : (url : String) → matches_http_url url ≡ true → truthy url ≡ true
unfolding matches_http_url
matches_http_url-truthy String.[] h = h
matches_http_url-truthy (String.◌∷◌ c s) h = truthy-cons c s

-- A check of a field: no error and the field fits, or a text and it does not.
Judged : Option String → Bool → Type 0
Judged message fits =
    ((message ≡ none) × (fits ≡ true)) ⊎ ((truthy (message or "") ≡ true) × (fits ≡ false))

id_error_lem :
    (editing : Bool) (existing : List String) (id : String)
    → Judged
        (id_error editing existing id)
        (if editing then true else matches_provider_id id && not (includes existing id))
unfolding id_error Judged
id_error_lem true existing id = inl (refl, refl)
id_error_lem false existing id = elim (Bool-cases (matches_provider_id id)) [
  | inl fits ↦ elim (Bool-cases (includes existing id)) [
    | inl taken ↦ rw (matches_provider_id-truthy id fits, fits, taken) (inr (refl, refl))
    | inr free ↦ rw (matches_provider_id-truthy id fits, fits, free) (inl (refl, refl))
  ]
  | inr other ↦ elim (Bool-cases (truthy id)) [
    | inl text ↦ rw (text, other) (inr (refl, refl))
    | inr blank ↦ rw (blank, other) (inr (refl, refl))
  ]
]

url_error_lem : (url : String) → Judged (url_error url) (matches_http_url url)
unfolding url_error Judged
url_error_lem url = elim (Bool-cases (matches_http_url url)) [
  | inl fits ↦ rw (matches_http_url-truthy url fits, fits) (inl (refl, refl))
  | inr other ↦ elim (Bool-cases (truthy url)) [
    | inl text ↦ rw (text, other) (inr (refl, refl))
    | inr blank ↦ rw (blank, other) (inr (refl, refl))
  ]
]

env_error_lem : (name : String) → Judged (env_error name) (matches_env_name name)
unfolding env_error Judged
env_error_lem name = elim (Bool-cases (matches_env_name name)) [
  | inl fits ↦ rw (matches_env_name-truthy name fits, fits) (inl (refl, refl))
  | inr other ↦ elim (Bool-cases (truthy name)) [
    | inl text ↦ rw (text, other) (inr (refl, refl))
    | inr blank ↦ rw (blank, other) (inr (refl, refl))
  ]
]

first_told :
    (a b c : Option String) (x y z : Bool)
    → Judged a x
    → Judged b y
    → Judged c z
    → truthy (or_else a (or_else b c) or "") ≡ not (x && y && z)
unfolding Judged
first_told a b c x y z (inl (e, h)) (inl (f, k)) (inl (g, l)) = rw (e, f, g, h, k, l) refl
first_told a b c x y z (inl (e, h)) (inl (f, k)) (inr (g, l)) = rw (e, f, h, k, l) g
first_told a b c x y z (inl (e, h)) (inr (f, k)) m = ground arith
first_told a b c x y z (inr (e, h)) l m = ground arith

-- The form shows an error exactly when its trimmed fields are not acceptable.
pub first_form_error-validate_provider_form :
    (values : ProviderFormValues) (options : ProviderFormOptions)
    → truthy (first_form_error (validate_provider_form values options))
      ≡ not (accepts values options)
unfolding first_form_error validate_provider_form
first_form_error-validate_provider_form values options =
    first_told _ _ _ _ _ _ (id_error_lem options.editing options.existing_ids (trim values.id))
      (url_error_lem (trim values.base_url)) (env_error_lem (trim values.api_key_env))

-- The body sent for an accepted form holds a well-formed address and variable name, those of the
-- form, and names the protocol only when the form changes it.
pub provider_update_body-accepts :
    (original : ModelProtocol) (values : ProviderFormValues) (options : ProviderFormOptions)
    → accepts values options ≡ true
    → (matches_http_url (provider_update_body original values).base_url ≡ true)
      × (matches_env_name (provider_update_body original values).api_key_env ≡ true)
      × ((provider_update_body original values).api_key_env ≡ trim values.api_key_env)
      × (((provider_update_body original values).protocol or original) ≡ values.protocol)
unfolding provider_update_body
provider_update_body-accepts original values options h =
    ground
      (arith, h, matches_env_name-truthy (trim values.api_key_env), same original values.protocol)
  where
    same : (p q : ModelProtocol) → same_protocol q p ≡ true → p ≡ q
    same openai_compatible openai_compatible h = refl
    same anthropic anthropic h = refl
    same _ _ h = ground arith
