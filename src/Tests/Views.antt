-- ===== src/Tests/Views.antt =====
-- The conversation, the composer, the tabs and the lists at concrete inputs.
use langgraph_agent.Base.{
  true, false, not, none, some, List, [], ◌∷◌, filter, trim, truthy, is_some, ◌≡◌, ◌⊎◌, ◌or◌, ◌==◌,
  ◌&&◌, if◌then◌else◌, refl,
}
use langgraph_agent.Types.{ChatTurn, Role, build}
use langgraph_agent.TaskState.{is_parked}
use langgraph_agent.TaskStore.{initial_state}
use langgraph_agent.Rounds.{split_rounds}
use langgraph_agent.Rounds.Split.{all_turns, all_turns-split_rounds}
use langgraph_agent.MarkerGroups.{group_markers, bucket, of_step, owned, group_markers_lem}
use langgraph_agent.ComposerState.{ComposerViewInput, composer_view, status_is, can_send_lem}
use langgraph_agent.ComposerSend.{SendOptions, SendState, create_task, submit, finish, no_reply}
use langgraph_agent.ComposerSend.InFlight.{submit_lem, accepted, finish_lem}
use langgraph_agent.Tests.Data.{two_steps, marker_at}

abbrev talk : List ChatTurn
talk =
    record { role = Role.assistant; content = "hello" }
    ∷ record { role = Role.user; content = "go on" }
    ∷ record { role = Role.assistant; content = "done" }
    ∷ []

all_turns-split_rounds_example : all_turns (split_rounds talk) ≡ talk
all_turns-split_rounds_example = all_turns-split_rounds talk

group_markers_lem_example :
    ((bucket 3 (group_markers (marker_at 3 ∷ marker_at 9 ∷ []) two_steps.steps).by_step or [])
      ≡ of_step 3 two_steps.steps (marker_at 3 ∷ marker_at 9 ∷ []))
    × ((group_markers (marker_at 3 ∷ marker_at 9 ∷ []) two_steps.steps).loose
        ≡ filter (λ m. not (owned two_steps.steps m)) (marker_at 3 ∷ marker_at 9 ∷ []))
group_markers_lem_example = group_markers_lem (marker_at 3 ∷ marker_at 9 ∷ []) two_steps.steps 3

abbrev new_message : ComposerViewInput
new_message = record {
  task = none;
  current_task_id = none;
  detail_error = "";
  detail_auth_expired = false;
  text = " write ";
  busy = false;
  send_error = none;
}

can_send_lem_example :
    (new_message.busy ≡ false)
    × (truthy (trim new_message.text) ≡ true)
    × (new_message.detail_error ≡ "")
    × ((status_is is_parked new_message.task ≡ true)
        ⊎ ((new_message.task ≡ none) × (truthy (new_message.current_task_id or "") ≡ false)))
unfolding composer_view trim
can_send_lem_example = can_send_lem new_message refl

abbrev options : SendOptions
options = record {
  task = none;
  current_task_id = none;
  detail_error = "";
  detail_auth_expired = false;
  draft_mode = build;
  draft_model = "";
  default_model_id = "";
}

abbrev drafting : SendState
drafting = record {
  text = " write ";
  busy = false;
  send_error = some "refused";
  store = initial_state none;
}

abbrev waiting : SendState
waiting = record drafting { busy = true; send_error = none }

submit_lem_example :
    (drafting.busy ≡ false)
    × (truthy (trim drafting.text) ≡ true)
    × (waiting.text ≡ drafting.text)
    × (waiting.store ≡ drafting.store)
    × (submit options (record waiting { text = "more" }) ≡ none)
unfolding submit trim initial_state
submit_lem_example =
    submit_lem options options drafting waiting (create_task "write" build none none) "more" refl

abbrev ended : SendState
ended = finish "write" no_reply (record waiting { text = "more"; store = initial_state none })

finish_lem_example :
    (ended.busy ≡ false)
    × (is_some ended.send_error ≡ true)
    × (ended.text
        ≡ (if accepted no_reply && (trim "more" == trim drafting.text) then "" else "more"))
unfolding submit trim initial_state
finish_lem_example =
    finish_lem options drafting waiting (create_task "write" build none none) "more"
      (initial_state none) no_reply refl
