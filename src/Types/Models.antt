-- ===== src/Types/Models.antt =====
-- frontend/src/types/index.ts, lines 128 to 190: providers, model entries and discovery candidates.
use langgraph_agent.Base.{String, Bool}

pub data KeySource : Type 0 where
  pasted env no_key : KeySource

pub data ModelProtocol : Type 0 where
  openai_compatible anthropic : ModelProtocol

pub record ModelProfile : Type 0 where
  pub id : String
  pub name : String
  pub base_url : String
  pub model : String
  pub api_key_env : String
  pub preset : Bool
  pub key_set : Bool
  pub key_source : KeySource
  pub provider_id : String
  pub protocol : ModelProtocol

pub record Provider : Type 0 where
  pub id : String
  pub name : String
  pub protocol : ModelProtocol
  pub base_url : String
  pub api_key_env : String
  pub preset : Bool
  pub key_set : Bool
  pub key_source : KeySource

pub record ModelEntry : Type 0 where
  pub id : String
  pub provider_id : String
  pub model : String
  pub name : String

pub record DiscoverCandidate : Type 0 where
  pub model : String
  pub name : String
  pub added : Bool
