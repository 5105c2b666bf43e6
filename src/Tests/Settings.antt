-- ===== src/Tests/Settings.antt =====
-- The theorems of the settings page and of the plan's outline at concrete inputs.
use langgraph_agent.Base.{
  String, true, false, none, some, is_some, List, [], ◌∷◌, map, ◌≡◌, refl, split_lines, trim, ◌<>◌,
  show,
}
use langgraph_agent.Types.{DiscoverCandidate, Provider, openai_compatible, KeySource}
use langgraph_agent.ProviderCard.{CardState, CardCall, initial_card, card_call, run_card, Reply}
use langgraph_agent.ProviderCard.Previewed.{begun, candidates-run_card}
use langgraph_agent.ProviderDialog.{
  DialogMode, DialogProps, DialogState, DialogRequest, submit, no_errors, DialogTab,
}
use langgraph_agent.ProviderDialog.Sent.{IsFit, may_send, submit-IsFit}
use langgraph_agent.PlanToc.{
  TocItem, parse_plan_toc, fence_marker, toggled, heading, hashes, drop_spaces, one_line, base_of,
}
use langgraph_agent.PlanToc.Outline.{Outline, parse_plan_toc-Outline}
use langgraph_agent.PlanToc.Counted.{Heading, numbered, parse_plan_toc-numbered}

abbrev late : List CardCall
late =
    CardCall.answered 2 (some (record { body = some none; detail = none; message = none }))
    ∷ CardCall.toggled "m1"
    ∷ []

abbrev early : List CardCall
early = CardCall.configured ∷ CardCall.discovered ∷ []

candidates-run_card_example :
    (run_card late (card_call CardCall.configured (run_card early initial_card))).candidates ≡ none
unfolding begun card_call initial_card
candidates-run_card_example = candidates-run_card early late refl

abbrev found : List DiscoverCandidate
found =
    record { model = "m1"; name = "One"; added = false }
    ∷ record { model = "m2"; name = ""; added = false }
    ∷ []

abbrev previewed : CardState
previewed = record initial_card {
  candidates = some found;
  picked = "m1" ∷ "m2" ∷ [];
  adding_picked = true;
}

abbrev outcomes : List (DiscoverCandidate × Reply)
outcomes =
    (
      record { model = "m1"; name = "One"; added = false },
      some (record {
        body = some (record { id = "e1"; provider_id = "p"; model = "m1"; name = "One" });
        detail = none;
        message = none;
      }),
    )
    ∷ (record { model = "m2"; name = ""; added = false }, none)
    ∷ []

abbrev card : Provider
card = record {
  id = "deepseek";
  name = "DeepSeek";
  protocol = openai_compatible;
  base_url = "https://api.deepseek.com/v1";
  api_key_env = "LLM_API_KEY";
  preset = false;
  key_set = true;
  key_source = KeySource.pasted;
}

abbrev editing : DialogProps
editing = record { mode = DialogMode.edit; provider = some card; providers = card ∷ [] }

abbrev form : DialogState
form = record {
  tab = DialogTab.custom;
  preset_id = "";
  values = record {
    id = "deepseek";
    name = "DeepSeek";
    protocol = openai_compatible;
    base_url = " https://api.deepseek.com/v1 ";
    api_key_env = "LLM_API_KEY";
  };
  key_draft = "  ";
  errors = no_errors;
  note = none;
  saving = false;
  clear_armed = false;
  saves = 0;
  closes = 0;
}

submit-IsFit_example :
    (is_some (submit editing form).0 ≡ may_send editing form)
    × ((request : DialogRequest)
        → (submit editing form).0 ≡ some request
        → IsFit editing form request)
submit-IsFit_example = submit-IsFit editing form refl

abbrev same : String → String
same s = s

abbrev outline : String
outline = "# Plan\n## a\n```\n## b\n```\n### a\n## a-2"

parse_plan_toc-Outline_example :
    (found : List Heading) × Outline same same none 1 (split_lines outline) found
    × (parse_plan_toc same same outline ≡ numbered [] found)
parse_plan_toc-Outline_example = parse_plan_toc-Outline same same outline

-- Two headings of this outline have the same anchor.
slugs_of_outline :
    map (λ (item : TocItem). item.slug) (parse_plan_toc same same outline)
    ≡ "a" ∷ "a-2" ∷ "a-2" ∷ []
unfolding split_lines trim fence_marker toggled heading hashes drop_spaces one_line base_of show
    ◌<>◌
slugs_of_outline = rw (parse_plan_toc-numbered same same outline) refl
