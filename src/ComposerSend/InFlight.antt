-- ===== src/ComposerSend/InFlight.antt =====
-- frontend/src/hooks/useComposerSend.ts: one request at a time, and no draft lost.
use langgraph_agent.Base.{
  String, Bool, true, false, not, ◌||◌, Option, none, some, trim, truthy, is_some, if◌then◌else◌,
  ◌&&◌, ◌==◌, ◌or◌, ◌≡◌, inl, inr, refl, sym, ◌∙◌, arith, Option-cases, Bool-cases,
}
use langgraph_agent.TaskStore.{TaskState}
use langgraph_agent.ComposerState.{cleared_draft}
use langgraph_agent.ComposerSend.{
  SendOptions, SendState, Request, Reply, created, continued, no_reply, view_of, request_of, submit,
  finish,
}

submit-busy : (options : SendOptions) (s : SendState) → s.busy ≡ true → submit options s ≡ none
unfolding submit
submit-busy options s h = elim (Bool-cases (truthy (trim s.text))) [
  | inl e ↦ rw (e, h) refl
  | inr e ↦ rw e refl
]

-- What the guard and the request decide.
abbrev made : Bool → Bool → Bool → Option Request → SendState → Option (Request × SendState)
made text busy disabled request s = if not text || busy || disabled then none else elim request [
  | none ↦ none
  | some r ↦ some (r, record s { busy = true; send_error = none })
]

made-some :
    (text busy disabled : Bool) (found : Option Request) (s waiting : SendState) (request : Request)
    → made text busy disabled found s ≡ some (request, waiting)
    → (busy ≡ false)
      × (text ≡ true)
      × (waiting.text ≡ s.text)
      × (waiting.store ≡ s.store)
      × (waiting.busy ≡ true)
made-some text busy disabled found s waiting request h = ground (arith, Option-cases found)

made-quiet :
    (text busy disabled : Bool) (found : Option Request) (s waiting : SendState) (request : Request)
    → made text busy disabled found s ≡ some (request, waiting)
    → waiting.send_error ≡ none
made-quiet text busy disabled found s waiting request h = ground (arith, Option-cases found)

submit-made :
    (options : SendOptions) (s : SendState)
    → submit options s
      ≡ made
          (truthy (trim s.text))
          s.busy
          (view_of options s).input_disabled
          (request_of options s)
          s
unfolding submit
submit-made options s = refl

-- A submission that makes a request leaves the store and the draft unchanged, starts from a text that
-- is not blank and from no other request under way, and, whatever is typed meanwhile, a further
-- submission does nothing while that request is under way.
pub submit_lem :
    (options later : SendOptions) (s waiting : SendState) (request : Request) (typed : String)
    → submit options s ≡ some (request, waiting)
    → (s.busy ≡ false)
      × (truthy (trim s.text) ≡ true)
      × (waiting.text ≡ s.text)
      × (waiting.store ≡ s.store)
      × (submit later (record waiting { text = typed }) ≡ none)
submit_lem options later s waiting request typed h = (
  facts.0,
  facts.1,
  facts.2,
  facts.3,
  submit-busy later (record waiting { text = typed }) facts.4,
)
  where
    facts :
        (s.busy ≡ false)
        × (truthy (trim s.text) ≡ true)
        × (waiting.text ≡ s.text)
        × (waiting.store ≡ s.store)
        × (waiting.busy ≡ true)
    facts =
        made-some _ _ _ (request_of options s) s waiting request (sym (submit-made options s) ∙ h)

-- A reply that the server took the text with: the id of a task, or the continued task.
abbrev pub accepted : Reply → Bool
accepted (created answer) = truthy (answer.body or "")
accepted (continued answer) = is_some answer.body
accepted no_reply = false

finish-waiting :
    (input : String) (reply : Reply) (s : SendState)
    → s.send_error ≡ none
    → ((finish input reply s).busy ≡ false)
      × (is_some (finish input reply s).send_error ≡ not (accepted reply))
      × ((finish input reply s).text
          ≡ (if accepted reply && (trim s.text == input) then "" else s.text))
unfolding finish cleared_draft
finish-waiting input no_reply s e = (refl, refl, refl)
finish-waiting input (created answer) s e = ground (arith, e)
finish-waiting input (continued answer) s e = ground (arith, e, Option-cases answer.body)

-- After a submission that makes a request, whatever was typed and stored meanwhile, the end of the request
-- lets the next one start; it tells an error exactly if the reply did not accept the text; and it empties
-- the draft exactly if the text was accepted and the draft still is what was sent, and keeps it otherwise.
pub finish_lem :
    (options : SendOptions) (s waiting : SendState) (request : Request) (typed : String)
    (store : TaskState) (reply : Reply)
    → submit options s ≡ some (request, waiting)
    → let t = finish (trim s.text) reply (record waiting { text = typed; store = store }) in
      (t.busy ≡ false)
      × (is_some t.send_error ≡ not (accepted reply))
      × (t.text ≡ (if accepted reply && (trim typed == trim s.text) then "" else typed))
finish_lem options s waiting request typed store reply h =
    finish-waiting (trim s.text) reply (record waiting { text = typed; store = store })
      (made-quiet (truthy (trim s.text)) s.busy (view_of options s).input_disabled
        (request_of options s) s waiting request (sym (submit-made options s) ∙ h))
