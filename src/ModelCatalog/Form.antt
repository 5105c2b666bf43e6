-- ===== src/ModelCatalog/Form.antt =====
-- frontend/src/lib/modelCatalog.ts, lines 226 to 330: the provider form and the manual entry.
use Prim.Native.Char.{code}
use langgraph_agent.Base.{
  ℕ, ◌+◌, String, Bool, true, false, not, ◌&&◌, ◌||◌, Option, none, some, List, any, includes,
  is_space, leb, eqb, ◌==◌, ◌or◌, or_else, or_text, trim, truthy, if◌then◌else◌,
}
use langgraph_agent.Types.{ModelProtocol, openai_compatible, anthropic, ModelEntry}

pub record ProviderFormValues : Type 0 where
  pub id : String
  pub name : String
  pub protocol : ModelProtocol
  pub base_url : String
  pub api_key_env : String

pub record ProviderFormErrors : Type 0 where
  pub id : Option String
  pub base_url : Option String
  pub api_key_env : Option String

pub record ProviderFormOptions : Type 0 where
  pub editing : Bool
  pub existing_ids : List String

abbrev pub all_chars : (ℕ → Bool) → String → Bool
all_chars p String.[] = true
all_chars p (String.◌∷◌ c s) = p (code c) && all_chars p s

abbrev is_digit : ℕ → Bool
is_digit c = leb b'0' c && leb c b'9'

abbrev is_lower : ℕ → Bool
is_lower c = leb b'a' c && leb c b'z'

abbrev is_upper : ℕ → Bool
is_upper c = leb b'A' c && leb c b'Z'

-- /^[a-z][a-z0-9_-]*$/
unfoldable pub matches_provider_id : String → Bool
matches_provider_id String.[] = false
matches_provider_id (String.◌∷◌ c s) =
    is_lower (code c) && all_chars (λ d. is_lower d || is_digit d || eqb d b'_' || eqb d b'-') s

-- /^[A-Za-z_][A-Za-z0-9_]*$/
unfoldable pub matches_env_name : String → Bool
matches_env_name String.[] = false
matches_env_name (String.◌∷◌ c s) =
    (is_upper (code c) || is_lower (code c) || eqb (code c) b'_')
    && all_chars (λ d. is_upper d || is_lower d || is_digit d || eqb d b'_') s

-- One character of a pattern under the flag `i`, and what follows it.
eat : ℕ → Option String → Option String
eat low none = none
eat low (some String.[]) = none
eat low (some (String.◌∷◌ c s)) =
    if eqb (code c) low || (is_upper (code c) && eqb (code c + 32) low) then some s else none

-- `\S+$`
ends_solid : Option String → Bool
ends_solid none = false
ends_solid (some s) = truthy s && all_chars (λ d. not (is_space d)) s

-- `:\/\/`
eat_slashes : Option String → Option String
unfolding eat
eat_slashes s = eat b'/' (eat b'/' (eat b':' s))

-- /^https?:\/\/\S+$/i
unfoldable pub matches_http_url : String → Bool
unfolding eat ends_solid eat_slashes
matches_http_url s =
    let http = eat b'p' (eat b't' (eat b't' (eat b'h' (some s)))) in
    ends_solid (eat_slashes http) || ends_solid (eat_slashes (eat b's' http))

unfoldable pub id_error : Bool → List String → String → Option String
unfolding matches_provider_id
id_error editing existing id =
    if editing
    then none
    else if not (truthy id)
    then some "Provider ID 必填"
    else if not (matches_provider_id id)
    then some "ID 需以小写字母开头，只含小写字母、数字、- 和 _"
    else if includes existing id
    then some "这个 ID 已被占用，换一个"
    else none

unfoldable pub url_error : String → Option String
unfolding matches_http_url
url_error url =
    if not (truthy url)
    then some "API 地址必填"
    else if not (matches_http_url url)
    then some "地址需以 http:// 或 https:// 开头"
    else none

unfoldable pub env_error : String → Option String
unfolding matches_env_name
env_error name =
    if not (truthy name)
    then some "环境变量名必填（没有可填 LLM_API_KEY）"
    else if not (matches_env_name name)
    then some "需是合法的环境变量名，例如 LLM_API_KEY"
    else none

unfoldable pub validate_provider_form :
    ProviderFormValues → ProviderFormOptions → ProviderFormErrors
unfolding id_error url_error env_error trim
validate_provider_form values options = record {
  id = id_error options.editing options.existing_ids (trim values.id);
  base_url = url_error (trim values.base_url);
  api_key_env = env_error (trim values.api_key_env);
}

unfoldable pub first_form_error : ProviderFormErrors → String
first_form_error errors = or_else errors.id (or_else errors.base_url errors.api_key_env) or ""

abbrev pub same_protocol : ModelProtocol → ModelProtocol → Bool
same_protocol openai_compatible openai_compatible = true
same_protocol anthropic anthropic = true
same_protocol _ _ = false

-- An absent member is `none`.
pub record ProviderUpdateBody : Type 0 where
  pub name : String
  pub base_url : String
  pub api_key_env : String
  pub protocol : Option ModelProtocol
  pub key : Option String

unfoldable pub provider_update_body : ModelProtocol → ProviderFormValues → ProviderUpdateBody
unfolding trim
provider_update_body original values = record {
  name = trim values.name;
  protocol = if same_protocol values.protocol original then none else some values.protocol;
  base_url = trim values.base_url;
  api_key_env = or_text (trim values.api_key_env) "LLM_API_KEY";
  key = none;
}

unfoldable pub manual_model_error : String → List ModelEntry → String
unfolding trim
manual_model_error model existing =
    if not (truthy (trim model))
    then "模型 ID 必填"
    else if any (λ entry. entry.model == trim model) existing
    then "该模型已在目录中"
    else ""

unfoldable pub custom_model_error : String → String → String
unfolding trim
custom_model_error provider_id model =
    if not (truthy provider_id)
    then "先选择一个 Provider"
    else if not (truthy (trim model))
    then "填入目录外的模型 ID"
    else ""
