-- ===== src/ProviderCard/State.antt =====
-- The state of frontend/src/components/settings/ProviderCard.tsx, lines 54 to 104.
use langgraph_agent.Base.{ℕ, ◌+◌, String, Bool, true, false, Option, none, some, List, []}
use langgraph_agent.Types.{DiscoverCandidate}

pub record Note : Type 0 where
  pub ok : Bool
  pub text : String

-- `refreshes` counts the calls of `onRefresh`.
pub record CardState : Type 0 where
  pub armed : Bool
  pub note : Option Note
  pub add_open : Bool
  pub add_model : String
  pub add_name : String
  pub add_error : String
  pub adding_model : Bool
  pub discovering : Bool
  pub discover_error : String
  pub candidates : Option (List DiscoverCandidate)
  pub picked : List String
  pub adding_picked : Bool
  pub model_armed : Option String
  pub discovery_seq : ℕ
  pub refreshes : ℕ

-- The effect of another configuration, which is also that of the first render.
unfoldable pub reset_card : CardState → CardState
reset_card s = record {
  armed = false;
  note = none;
  add_open = false;
  add_model = "";
  add_name = "";
  add_error = "";
  adding_model = false;
  discovering = false;
  discover_error = "";
  candidates = none;
  picked = [];
  adding_picked = false;
  model_armed = none;
  discovery_seq = s.discovery_seq + 1;
  refreshes = s.refreshes;
}

unfoldable pub initial_card : CardState
initial_card = record {
  armed = false;
  note = none;
  add_open = false;
  add_model = "";
  add_name = "";
  add_error = "";
  adding_model = false;
  discovering = false;
  discover_error = "";
  candidates = none;
  picked = [];
  adding_picked = false;
  model_armed = none;
  discovery_seq = 0;
  refreshes = 0;
}

abbrev pub report : String → CardState → CardState
report text s = record s { note = some (record { ok = true; text = text }) }

abbrev pub report_error : String → CardState → CardState
report_error text s = record s { note = some (record { ok = false; text = text }) }

-- `await onRefresh()`
abbrev pub refreshed : CardState → CardState
refreshed s = record s { refreshes = s.refreshes + 1 }
