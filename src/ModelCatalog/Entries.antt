-- ===== src/ModelCatalog/Entries.antt =====
-- frontend/src/lib/modelCatalog.ts, lines 23 to 222: the catalog's projections, the labels, the
-- card's default action and the picker's groups.
use langgraph_agent.Base.{
  String, Bool, true, false, ◌&&◌, Option, none, some, List, [], ◌∷◌, ◌++◌, map, filter, any, find?,
  is_some, ◌==◌, ◌or◌, or_text, ltb, length, trim, truthy, ◌<>◌, if◌then◌else◌,
}
use langgraph_agent.Dict
use langgraph_agent.Dict.{Dict}
use langgraph_agent.Types.{
  Provider, ModelEntry, ModelProfile, ModelProtocol, openai_compatible, anthropic, KeySource,
  pasted, env, no_key,
}

unfoldable pub entry_of_profile : ModelProfile → ModelEntry
entry_of_profile profile = record {
  id = profile.id;
  provider_id = or_text profile.provider_id profile.id;
  model = profile.model;
  name = profile.name;
}

unfoldable pub entries_from_profiles : List ModelProfile → List ModelEntry
unfolding entry_of_profile
entries_from_profiles profiles = map entry_of_profile profiles

pub record ProviderGroup : Type 0 where
  pub provider : Provider
  pub models : List ModelEntry

-- The loop of `groupByProvider`: a bucket is pushed to, or made.
unfoldable pub fill_buckets : Dict (List ModelEntry) → List ModelEntry → Dict (List ModelEntry)
fill_buckets grouped [] = grouped
fill_buckets grouped (entry ∷ entries) =
    fill_buckets
      (Dict.put grouped entry.provider_id
        ((Dict.get grouped entry.provider_id or []) ++ entry ∷ []))
      entries

unfoldable pub group_by_provider : List Provider → List ModelEntry → List ProviderGroup
unfolding fill_buckets
group_by_provider providers models =
    map
      (λ provider. record {
        provider = provider;
        models = Dict.get (fill_buckets Dict.empty models) provider.id or [];
      })
      providers

unfoldable pub find_entry : List ModelEntry → String → Option ModelEntry
find_entry models id = find? (λ entry. entry.id == id) models

unfoldable pub has_entry : List ModelEntry → String → Bool
unfolding find_entry
has_entry models id = is_some (find_entry models id)

unfoldable pub find_entry_by_model : List ModelEntry → String → String → Option ModelEntry
unfolding trim
find_entry_by_model models provider_id model =
    find? (λ entry. (entry.provider_id == provider_id) && (entry.model == trim model)) models

unfoldable pub entry_provider_id : List ModelEntry → String → String
unfolding find_entry
entry_provider_id models id = elim (find_entry models id) [
  | none ↦ ""
  | some entry ↦ entry.provider_id
]

unfoldable pub model_label : List ModelEntry → String → String
unfolding find_entry
model_label models id =
    if truthy id
    then elim (find_entry models id) [ none ↦ id | some entry ↦ or_text entry.name id ]
    else "默认"

unfoldable pub selected_model_id : Bool → String → String → String → String
selected_model_id has_task task_model draft_model default_id =
    or_text (if has_task then task_model else draft_model) default_id

unfoldable pub is_model_protocol : String → Bool
is_model_protocol value = if value == "openai-compatible" then true else value == "anthropic"

unfoldable pub protocol_label : ModelProtocol → String
protocol_label openai_compatible = "OpenAI Chat Completions"
protocol_label anthropic = "Anthropic 原生"

unfoldable pub key_source_label : KeySource → String
key_source_label pasted = "粘贴"
key_source_label env = "环境变量"
key_source_label no_key = "无"

unfoldable pub provider_label : Provider → String
unfolding trim ◌<>◌
provider_label provider =
    let name = trim provider.name in
    if truthy name
    then if name == provider.id then provider.id else name <> "（" <> provider.id <> "）"
    else provider.id

unfoldable pub key_state_text : Provider → String
unfolding key_source_label ◌<>◌
key_state_text provider =
    if provider.key_set then "已设（" <> key_source_label provider.key_source <> "）" else "未设"

pub record ProviderDefaultAction : Type 0 where
  pub entry_id : Option String
  pub is_default : Bool
  pub disabled_reason : String

unfoldable pub provider_default_action : List ModelEntry → String → ProviderDefaultAction
provider_default_action [] default_id = record {
  entry_id = none;
  is_default = false;
  disabled_reason = "先给这个 Provider 添加模型";
}
provider_default_action (first ∷ others) default_id =
    if any (λ entry. entry.id == default_id) (first ∷ others)
    then record { entry_id = none; is_default = true; disabled_reason = "已是默认模型" }
    else record { entry_id = some first.id; is_default = false; disabled_reason = "" }

pub record ModelSelectGroup : Type 0 where
  pub provider_id : String
  pub provider_name : String
  pub models : List ModelEntry

unfoldable pub select_group : ProviderGroup → ModelSelectGroup
select_group group = record {
  provider_id = group.provider.id;
  provider_name = or_text group.provider.name group.provider.id;
  models = group.models;
}

unfoldable pub select_groups : List Provider → List ModelEntry → List ModelSelectGroup
unfolding group_by_provider select_group
select_groups providers models =
    map select_group
      (filter (λ group. ltb 0 (length group.models)) (group_by_provider providers models))
