-- ===== src/ProviderCard/Actions.antt =====
-- The handlers of frontend/src/components/settings/ProviderCard.tsx, lines 106 to 181, each up to its
-- `await` and from the answer on; `none` is a call that rejects.
use langgraph_agent.Base.{
  String, Bool, true, false, Option, none, some, List, ◌<>◌, ◌or◌, trim, truthy, if◌then◌else◌,
}
use langgraph_agent.Types.{ModelEntry, Json, str, obj, no_more, member}
use langgraph_agent.ApiClient.Answers.{StatusResult}
use langgraph_agent.ApiClient.Requests.{
  ApiCall, set_default_model, delete_provider, delete_provider_model, test_model,
  add_provider_model,
}
use langgraph_agent.ModelCatalog.Entries.{provider_default_action}
use langgraph_agent.ModelCatalog.Failures.{
  backend_unreachable, provider_delete_failure, model_delete_failure,
}
use langgraph_agent.ModelCatalog.Form.{manual_model_error}
use langgraph_agent.ModelStore.{Answer, api_error_text}
use langgraph_agent.ProviderCard.State.{CardState, report, report_error, refreshed}

unfoldable pub make_default : List ModelEntry → String → Option ApiCall
unfolding provider_default_action
make_default models default_id = elim (provider_default_action models default_id).entry_id [
  | none ↦ none
  | some id ↦ if truthy id then some (set_default_model id) else none
]

unfoldable pub finish_default : Option (Answer Json) → CardState → CardState
unfolding api_error_text ◌<>◌
finish_default none s = report_error ("设置默认失败：" <> backend_unreachable) s
finish_default (some answer) s = elim answer.body [
  | none ↦ report_error (api_error_text answer) s
  | some _ ↦ refreshed (report "已设为默认" s)
]

unfoldable pub start_remove_provider : String → CardState → ApiCall × CardState
start_remove_provider id s = (delete_provider id, record s { armed = false })

unfoldable pub finish_remove_provider : StatusResult Bool → CardState → CardState
unfolding provider_delete_failure
finish_remove_provider r s = elim r.body [
  | none ↦ report_error (provider_delete_failure r.status r.detail) s
  | some _ ↦ refreshed s
]

unfoldable pub start_remove_model : String → String → CardState → ApiCall × CardState
start_remove_model id model s = (delete_provider_model id model, record s { model_armed = none })

unfoldable pub finish_remove_model : StatusResult Bool → CardState → CardState
unfolding model_delete_failure
finish_remove_model r s = elim r.body [
  | none ↦ report_error (model_delete_failure r.status r.detail) s
  | some _ ↦ refreshed (report "已删除模型" s)
]

pub record TestData : Type 0 where
  pub ok : Bool
  pub error : Option String
  pub note : Option String

unfoldable pub start_test : String → CardState → ApiCall × CardState
start_test id s = (test_model id, report "测试中…" s)

unfoldable pub finish_test : Option (Answer TestData) → CardState → CardState
unfolding api_error_text ◌<>◌
finish_test none s = report_error ("测试失败：" <> backend_unreachable) s
finish_test (some answer) s = elim answer.body [
  | none ↦ report_error (api_error_text answer) s
  | some result ↦
      if result.ok
      then report (result.note or "连接正常") s
      else report_error (result.error or api_error_text answer) s
]

-- `{ model, name: name || undefined }`
unfoldable pub model_body : String → String → Json
model_body model name =
    obj (
      member "model" (str model)
        (if truthy name then member "name" (str name) no_more else no_more))

-- A request only where no other is under way and the form has no error.
unfoldable pub submit_model : String → List ModelEntry → CardState → Option ApiCall × CardState
unfolding manual_model_error model_body trim
submit_model id models s =
    let error = manual_model_error s.add_model models in
    if s.adding_model
    then (none, s)
    else if truthy error
    then (none, record s { add_error = error })
    else (
      some (add_provider_model id (model_body (trim s.add_model) (trim s.add_name))),
      record s { add_error = error; adding_model = true },
    )

unfoldable pub finish_model : Option (Answer ModelEntry) → CardState → CardState
unfolding api_error_text ◌<>◌
finish_model none s = record s { add_error = "添加失败：" <> backend_unreachable; adding_model = false }
finish_model (some answer) s = elim answer.body [
  | none ↦ record s { add_error = api_error_text answer; adding_model = false }
  | some entry ↦
      record (refreshed (
        report ("已添加模型 " <> entry.model)
          (record s { add_open = false; add_model = ""; add_name = ""; add_error = "" }))) {
            adding_model = false;
          }
]
