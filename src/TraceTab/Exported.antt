-- ===== src/TraceTab/Exported.antt =====
-- The file that frontend/src/components/TraceTab.tsx exports, composed with `getTaskTrace` of
-- frontend/src/api/client.ts.
use langgraph_agent.Base.{
  String, Option, some, ◌⊎◌, List, Bool-cases, inl, inr, eq_iff, ◌≢◌, ◌≡◌, refl, ◌∙◌, ap, arith,
  ◌<>◌,
}
use langgraph_agent.Types.{Json}
use langgraph_agent.FailureStates.Lists.{is_success}
use langgraph_agent.ApiClient.Trace.{TextResponse, get_task_trace}
use langgraph_agent.TraceTab.State.{TraceState, TraceReply, got, on_export}
use langgraph_agent.TraceTab.Own.{
  TraceRequest, current_request, held_from, TraceReachable, HoldsOwn, TraceReachable-own,
}

module _ (parse : String → Option Json) (to_text : Json → String) where
  -- What `getTaskTrace` makes of the response to a request.
  abbrev pub replies : (TraceRequest → TextResponse) → TraceRequest → TraceReply
  replies responses q = got (get_task_trace parse to_text (responses q))

  text-held :
      (responses : TraceRequest → TextResponse) (q : TraceRequest)
      → ((held_from (replies responses q)).1 ≡ (responses q).text)
        ⊎ ((held_from (replies responses q)).1 ≡ "")
  unfolding held_from get_task_trace
  text-held responses q = elim (Bool-cases (is_success (responses q).status)) [
    | inl ok ↦ inl (rw ok refl)
    | inr failed ↦ inr (rw failed refl)
  ]

  raw-reachable :
      (responses : TraceRequest → TextResponse) (s : TraceState)
      → HoldsOwn (replies responses) s
      → (s.raw ≡ (responses (current_request s)).text) ⊎ (s.raw ≡ "")
  raw-reachable responses s own = elim (Bool-cases s.loading) [
    | inl waiting ↦ inr (ap (λ h. h.1) own ∙ rw waiting refl)
    | inr done ↦
        let e = ap (λ h. h.1) own ∙ rw done refl in
        elim (text-held responses (current_request s)) [
          | inl ok ↦ inl (e ∙ ok)
          | inr failed ↦ inr (e ∙ failed)
        ]
  ]

  exported-raw :
      (s : TraceState) (file : String × String)
      → on_export s ≡ some file
      → (s.raw ≢ "") × (file ≡ (s.task_id <> ".trace.jsonl", s.raw))
  unfolding on_export
  exported-raw s file h = ground (arith, eq_iff s.raw "")

  -- A file is exported under the name of the task that is shown, and its text is the text of the response
  -- to the request for that task's trace.
  pub on_export-own :
      (responses : TraceRequest → TextResponse) {s : TraceState} {sent : List TraceRequest}
      (file : String × String)
      → TraceReachable (replies responses) s sent
      → on_export s ≡ some file
      → file ≡ (s.task_id <> ".trace.jsonl", (responses (current_request s)).text)
  on_export-own responses {s} file reached exported =
      let out = exported-raw s file exported in
      elim (raw-reachable responses s (TraceReachable-own (replies responses) reached)) [
        | inl text ↦ out.1 ∙ ap (λ t. (s.task_id <> ".trace.jsonl", t)) text
        | inr empty ↦ absurd (out.0 empty)
      ]
