-- ===== src/ModelStore.antt =====
-- frontend/src/store/modelStore.ts, with `apiErrorText` of frontend/src/api/client.ts: refreshes that
-- may be answered out of order.
pub mod Superseded
use langgraph_agent.Base.{
  ℕ, suc, String, Bool, true, false, Option, none, some, List, [], ◌∷◌, eqb, ◌==◌, ◌or◌, or_text,
  ◌<>◌, if◌then◌else◌,
}
use langgraph_agent.Types.{Provider, ModelEntry, ModelProfile}
use langgraph_agent.ModelCatalog.Entries.{entries_from_profiles}

-- What an answer's body holds: the members that are read, `none` where absent or not a text.
pub record Answer (A : Type 0) : Type 0 where
  pub body : Option A
  pub detail : Option String
  pub message : Option String

pub record ProvidersData : Type 0 where
  pub providers : Option (List Provider)
  pub default_id : Option String

pub record ModelsData : Type 0 where
  pub models : Option (List ModelProfile)
  pub default_id : Option String

unfoldable pub detail_text : {A : Type 0} → Answer A → String
detail_text r = elim r.detail [
  | some text ↦ text
  | none ↦ elim r.message [ none ↦ "" | some text ↦ if text == "ok" then "" else text ]
]

unfoldable pub api_error_text : {A : Type 0} → Answer A → String
unfolding detail_text
api_error_text r = or_text (detail_text r) "操作失败"

-- The store, and the counter `refreshSeq` that it closes over.
pub record ModelState : Type 0 where
  pub providers : List Provider
  pub models : List ModelEntry
  pub default_id : String
  pub loading : Bool
  pub error : String
  pub refresh_seq : ℕ

abbrev pub initial_models : ModelState
initial_models = record {
  providers = [];
  models = [];
  default_id = "";
  loading = false;
  error = "";
  refresh_seq = 0;
}

-- `Promise.all` of the two reads: both bodies, or a rejection.
pub data Outcome : Type 0 where
  answered : Answer ProvidersData → Answer ModelsData → Outcome
  rejected : Outcome

-- Up to the `await`: the request's number is the new counter.
unfoldable pub start_refresh : ModelState → ModelState
start_refresh s = record s { refresh_seq = suc s.refresh_seq; loading = true }

abbrev load_failure : String → String
load_failure detail = if detail == "操作失败" then "加载模型配置失败" else "加载模型配置失败：" <> detail

-- The body of the `try` once both answers are there.
unfoldable pub take_answers : Answer ProvidersData → Answer ModelsData → ModelState → ModelState
unfolding api_error_text ◌<>◌
take_answers p m s = elim p.body [
  | none ↦ record s { error = load_failure (api_error_text p) }
  | some providers ↦ elim m.body [
    | none ↦ record s { error = load_failure (api_error_text m) }
    | some models ↦ record s {
      providers = providers.providers or [];
      models = entries_from_profiles (models.models or []);
      default_id = or_text (providers.default_id or "") (or_text (models.default_id or "") "");
      error = "";
    }
  ]
]

-- The `try` and the `catch` of a request that is still the newest.
unfoldable pub settled : Outcome → ModelState → ModelState
unfolding take_answers
settled (answered p m) s = take_answers p m s
settled rejected s = record s { error = "加载模型配置失败：无法连接后台；确认服务在运行后再试。" }

-- What follows the `await` of the request numbered `seq`, its `finally` included.
unfoldable pub finish_refresh : ℕ → Outcome → ModelState → ModelState
unfolding settled
finish_refresh seq outcome s =
    if eqb seq s.refresh_seq then record (settled outcome s) { loading = false } else s

-- A run of the store: requests start, and end in any order.
pub data Event : Type 0 where
  start : Event
  finish : ℕ → Outcome → Event

unfoldable pub run : List Event → ModelState → ModelState
unfolding start_refresh finish_refresh
run [] s = s
run (start ∷ events) s = run events (start_refresh s)
run (finish seq outcome ∷ events) s = run events (finish_refresh seq outcome s)
