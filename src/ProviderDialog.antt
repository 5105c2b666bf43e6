-- ===== src/ProviderDialog.antt =====
-- frontend/src/components/settings/ProviderDialog.tsx: the form that creates or edits a provider.
pub mod Sent
use langgraph_agent.Base.{
  ℕ, ◌+◌, String, Bool, true, false, not, ◌&&◌, ◌||◌, Option, none, some, List, map, filter, any,
  ◌==◌, ◌<>◌, ◌or◌, or_text, trim, truthy, if◌then◌else◌,
}
use langgraph_agent.Types.{Provider, ModelProtocol, openai_compatible}
use langgraph_agent.ModelCatalog.Entries.{key_source_label, is_model_protocol}
use langgraph_agent.ModelCatalog.Form.{
  ProviderFormValues, ProviderFormErrors, ProviderFormOptions, ProviderUpdateBody,
  validate_provider_form, first_form_error, provider_update_body,
}
use langgraph_agent.ModelStore.{Answer, api_error_text}

pub data DialogMode : Type 0 where
  create edit : DialogMode

pub data DialogTab : Type 0 where
  preset custom : DialogTab

pub record DialogProps : Type 0 where
  pub mode : DialogMode
  pub provider : Option Provider
  pub providers : List Provider

pub record DialogNote : Type 0 where
  pub ok : Bool
  pub text : String

-- `saves` counts the calls of `onSaved`, `closes` those of `onClose`.
pub record DialogState : Type 0 where
  pub tab : DialogTab
  pub preset_id : String
  pub values : ProviderFormValues
  pub key_draft : String
  pub errors : ProviderFormErrors
  pub note : Option DialogNote
  pub saving : Bool
  pub clear_armed : Bool
  pub saves : ℕ
  pub closes : ℕ

pub record ProviderCreateRequest : Type 0 where
  pub id : String
  pub name : String
  pub protocol : ModelProtocol
  pub base_url : String
  pub api_key_env : String
  pub key : String

-- `{ key: "" }` is the update that clears the key.
pub data DialogRequest : Type 0 where
  update_provider : String → ProviderUpdateBody → DialogRequest
  create_provider : ProviderCreateRequest → DialogRequest
  clear_provider_key : String → DialogRequest

unfoldable pub empty_values : ProviderFormValues
empty_values = record {
  id = "";
  name = "";
  protocol = openai_compatible;
  base_url = "";
  api_key_env = "LLM_API_KEY";
}

unfoldable pub values_of : Option Provider → ProviderFormValues
unfolding empty_values
values_of none = empty_values
values_of (some p) = record {
  id = p.id;
  name = p.name;
  protocol = p.protocol;
  base_url = p.base_url;
  api_key_env = p.api_key_env;
}

abbrev pub no_errors : ProviderFormErrors
no_errors = record { id = none; base_url = none; api_key_env = none }

-- The effect of every opening: a fresh form.
unfoldable pub open_dialog : DialogProps → DialogState → DialogState
unfolding values_of
open_dialog props s = record s {
  values = values_of props.provider;
  tab = if any (λ candidate. candidate.preset) props.providers then preset else custom;
  preset_id = "";
  key_draft = "";
  errors = no_errors;
  note = none;
  saving = false;
  clear_armed = false;
}

unfoldable pub apply_preset : Provider → DialogState → DialogState
apply_preset p s = record s {
  preset_id = p.id;
  errors = no_errors;
  values = record s.values {
    protocol = p.protocol;
    base_url = p.base_url;
    api_key_env = p.api_key_env;
    name = or_text s.values.name p.name;
  };
}

abbrev pub is_edit : DialogMode → Bool
is_edit edit = true
is_edit create = false

abbrev pub is_preset : DialogTab → Bool
is_preset preset = true
is_preset custom = false

unfoldable pub preset_missing : DialogProps → DialogState → Bool
preset_missing props s = not (is_edit props.mode) && is_preset s.tab && (s.preset_id == "")

abbrev pub options_of : DialogProps → ProviderFormOptions
options_of props = record {
  editing = is_edit props.mode;
  existing_ids = map (λ candidate. candidate.id) props.providers;
}

-- A blank draft leaves the stored key alone.
unfoldable pub update_body : Provider → DialogState → ProviderUpdateBody
unfolding provider_update_body trim
update_body p s = record (provider_update_body p.protocol s.values) {
  key = if truthy (trim s.key_draft) then some (trim s.key_draft) else none;
}

unfoldable pub create_request : DialogState → ProviderCreateRequest
unfolding trim
create_request s = record {
  id = trim s.values.id;
  name = trim s.values.name;
  protocol = s.values.protocol;
  base_url = trim s.values.base_url;
  api_key_env = or_text (trim s.values.api_key_env) "LLM_API_KEY";
  key = trim s.key_draft;
}

unfoldable pub request_of : DialogMode → Option Provider → DialogState → DialogRequest
unfolding update_body create_request
request_of edit (some p) s = update_provider p.id (update_body p s)
request_of _ _ s = create_provider (create_request s)

abbrev failed_note : String → Option DialogNote
failed_note text = some (record { ok = false; text = text })

-- `submit` up to its `await`; the button that submits is disabled while saving or without a preset.
unfoldable pub submit : DialogProps → DialogState → Option DialogRequest × DialogState
unfolding validate_provider_form first_form_error request_of preset_missing
submit props s =
    let errors = validate_provider_form s.values (options_of props) in
    let first = first_form_error errors in
    if s.saving || preset_missing props s
    then (none, s)
    else if truthy first
    then (none, record s { errors = errors; note = failed_note first })
    else (
      some (request_of props.mode props.provider s),
      record s { errors = errors; saving = true; note = none },
    )

-- From the answer on; `none` is a call that rejects.
unfoldable pub finish_submit : Option (Answer Provider) → DialogState → DialogState
unfolding api_error_text
finish_submit none s = record s { note = failed_note "保存失败：无法连接后台；确认服务在运行后再试。"; saving = false }
finish_submit (some answer) s = elim answer.body [
  | none ↦ record s { note = failed_note (api_error_text answer); saving = false }
  | some _ ↦ record s { saves = s.saves + 1; closes = s.closes + 1; saving = false }
]

unfoldable pub clear_key : DialogProps → DialogState → Option DialogRequest × DialogState
clear_key props s = elim props.provider [
  | none ↦ (none, s)
  | some p ↦
      (some (clear_provider_key p.id), record s { clear_armed = false; saving = true; note = none })
]

unfoldable pub cleared_text : Provider → String
unfolding key_source_label ◌<>◌
cleared_text p =
    if p.key_set then "已清除粘贴的 Key，回退到" <> key_source_label p.key_source else "已清除粘贴的 Key；当前未设置 Key"

unfoldable pub finish_clear : Option (Answer Provider) → DialogState → DialogState
unfolding api_error_text cleared_text
finish_clear none s = record s { note = failed_note "清除 Key 失败：无法连接后台；确认服务在运行后再试。"; saving = false }
finish_clear (some answer) s = elim answer.body [
  | none ↦ record s { note = failed_note (api_error_text answer); saving = false }
  | some p ↦ record s {
    saves = s.saves + 1;
    note = some (record { ok = true; text = cleared_text p });
    saving = false;
  }
]
