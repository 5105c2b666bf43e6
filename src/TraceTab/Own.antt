-- ===== src/TraceTab/Own.antt =====
-- Whose trace frontend/src/components/TraceTab.tsx shows, composed with `getTaskTrace` of
-- frontend/src/api/client.ts. `answers` gives what each request is answered with.
use langgraph_agent.Base.{
  ℕ, ◌+◌, ◌≤◌, String, Bool, true, false, Option, none, some, ◌⊎◌, List, [], ◌∷◌, All, eqb, eqb_iff,
  ◌≡◌, refl, sym, ◌∙◌, ap, arith, Bool-cases, inl, inr, if◌then◌else◌,
}
use langgraph_agent.Types.{Json}
use langgraph_agent.ApiClient.Trace.{trace_fetch_error, trace_read}
use langgraph_agent.TraceTab.Rows.{TraceCategory}
use langgraph_agent.TraceTab.State.{
  TraceState, TraceErrorState, TraceReply, got, thrown, trace_error, initial_trace, switch_trace,
  take_reply, finish_trace, toggle, pick_filter,
}

-- A request that a load has made, with the load's number.
pub record TraceRequest : Type 0 where
  pub task_id : String
  pub read : ℕ

abbrev pub request : String → ℕ → TraceRequest
request id read = record { task_id = id; read = read }

-- The request of the load that has not been cancelled.
abbrev pub current_request : TraceState → TraceRequest
current_request s = request s.task_id s.reads

pub data Sent : TraceRequest → List TraceRequest → Type 0 where
  newest : {q : TraceRequest} {sent : List TraceRequest} → Sent q (q ∷ sent)
  older : {q p : TraceRequest} {sent : List TraceRequest} → Sent q sent → Sent q (p ∷ sent)

-- The events, the text and the error that the replay holds.
abbrev pub Held : Type 0
Held = List Json × String × Option TraceErrorState

abbrev pub held : TraceState → Held
held s = (s.events, s.raw, s.error)

abbrev pub nothing_held : Held
nothing_held = ([], "", none)

unfoldable pub held_from : TraceReply → Held
held_from (got (trace_read events raw)) = (events, raw, none)
held_from (got (trace_fetch_error status message)) = ([], "", trace_error status message)
held_from (thrown (some message)) = ([], "", trace_error 0 message)
held_from (thrown none) = ([], "", trace_error 0 "加载失败")

module _ (answers : TraceRequest → TraceReply) where
  -- The states of the replay, with the requests made so far.
  pub data TraceReachable : TraceState → List TraceRequest → Type 0 where
    mounted : (id : String) → TraceReachable (initial_trace id) (request id 0 ∷ [])
    switched :
        {s : TraceState} {sent : List TraceRequest} (id : String)
        → TraceReachable s sent
        → TraceReachable (switch_trace id s) (request id (s.reads + 1) ∷ sent)
    answered :
        {s : TraceState} {sent : List TraceRequest} (q : TraceRequest)
        → Sent q sent
        → TraceReachable s sent
        → TraceReachable (finish_trace q.read (answers q) s) sent
    folded :
        {s : TraceState} {sent : List TraceRequest} (i : ℕ)
        → TraceReachable s sent
        → TraceReachable (toggle i s) sent
    picked :
        {s : TraceState} {sent : List TraceRequest} (f : TraceCategory)
        → TraceReachable s sent
        → TraceReachable (pick_filter f s) sent

  -- A load of before, or the current one.
  abbrev Known : TraceRequest → TraceRequest → Type 0
  Known current q = (q.read ≤ current.read) × (q.read ≡ current.read → q ≡ current)

  abbrev pub HoldsOwn : TraceState → Type 0
  HoldsOwn s =
      held s ≡ (if s.loading then nothing_held else held_from (answers (current_request s)))

  Known-Sent :
      (current : TraceRequest) {sent : List TraceRequest} (q : TraceRequest)
      → Sent q sent
      → All (Known current) sent
      → Known current q
  Known-Sent current q newest known = known.0
  Known-Sent current q (older sent) known = Known-Sent current q sent known.1

  -- Of another task's load, all requests before are old.
  Known-switch :
      (id : String) (current : TraceRequest) (sent : List TraceRequest)
      → All (Known current) sent
      → All (Known (request id (current.read + 1))) sent
  Known-switch id current [] known = tt
  Known-switch id current (q ∷ sent) known = (
    (omega (arith, known.0.0), λ same. absurd (omega (arith, known.0.0, same))),
    Known-switch id current sent known.1,
  )

  current-take_reply :
      (r : TraceReply) (s : TraceState) → current_request (take_reply r s) ≡ current_request s
  unfolding take_reply
  current-take_reply (got (trace_read events raw)) s = refl
  current-take_reply (got (trace_fetch_error status message)) s = refl
  current-take_reply (thrown (some message)) s = refl
  current-take_reply (thrown none) s = refl

  current-finish_trace :
      (read : ℕ) (r : TraceReply) (s : TraceState)
      → current_request (finish_trace read r s) ≡ current_request s
  unfolding finish_trace
  current-finish_trace read r s = elim (Bool-cases (eqb read s.reads)) [
    | inl same ↦ rw same (current-take_reply r s)
    | inr old ↦ rw old refl
  ]

  -- What was held before an answer is nothing, or what the same answer gave.
  before-answer :
      (loading : Bool) (h : Held) (r : TraceReply)
      → h ≡ (if loading then nothing_held else held_from r)
      → (h ≡ nothing_held) ⊎ (h ≡ held_from r)
  before-answer true h r e = inl e
  before-answer false h r e = inr e

  held-take_reply :
      (r : TraceReply) (s : TraceState)
      → (held s ≡ nothing_held) ⊎ (held s ≡ held_from r)
      → (held (take_reply r s) ≡ held_from r) × ((take_reply r s).loading ≡ false)
  unfolding take_reply held_from
  held-take_reply (got (trace_read events raw)) s (inl e) = (ap (λ h. (events, raw, h.2)) e, refl)
  held-take_reply (got (trace_read events raw)) s (inr e) = (ap (λ h. (events, raw, h.2)) e, refl)
  held-take_reply (got (trace_fetch_error status message)) s (inl e) =
      (ap (λ h. (h.0, h.1, trace_error status message)) e, refl)
  held-take_reply (got (trace_fetch_error status message)) s (inr e) =
      (ap (λ h. (h.0, h.1, trace_error status message)) e, refl)
  held-take_reply (thrown (some message)) s (inl e) =
      (ap (λ h. (h.0, h.1, trace_error 0 message)) e, refl)
  held-take_reply (thrown (some message)) s (inr e) =
      (ap (λ h. (h.0, h.1, trace_error 0 message)) e, refl)
  held-take_reply (thrown none) s (inl e) = (ap (λ h. (h.0, h.1, trace_error 0 "加载失败")) e, refl)
  held-take_reply (thrown none) s (inr e) = (ap (λ h. (h.0, h.1, trace_error 0 "加载失败")) e, refl)

  HoldsOwn-finish :
      (q : TraceRequest) (s : TraceState)
      → Known (current_request s) q
      → HoldsOwn s
      → HoldsOwn (finish_trace q.read (answers q) s)
  HoldsOwn-finish q s known own = elim (Bool-cases (eqb q.read s.reads)) [
    | inl same ↦ unfold finish_trace in rw same (taken ((eqb_iff q.read s.reads).0 same))
    | inr old ↦ unfold finish_trace in rw old own
  ]
    where
      reply : q.read ≡ s.reads → answers (current_request s) ≡ answers q
      reply same = ap answers (sym (known.1 same))

      taken : q.read ≡ s.reads → HoldsOwn (take_reply (answers q) s)
      taken same =
          let before =
            own ∙ ap (λ r. if s.loading then nothing_held else held_from r) (reply same) in
          let after =
            held-take_reply (answers q) s (before-answer s.loading (held s) (answers q) before) in
          after.0 ∙ rw (after.1, current-take_reply (answers q) s) (ap held_from (sym (reply same)))

  TraceReachable-Known :
      {s : TraceState} {sent : List TraceRequest}
      → TraceReachable s sent
      → All (Known (current_request s)) sent
  unfolding initial_trace switch_trace toggle pick_filter
  TraceReachable-Known (mounted id) = ((omega arith, λ same. refl), tt)
  TraceReachable-Known (switched {s} {sent} id r) = (
    (omega arith, λ same. refl),
    Known-switch id (current_request s) sent (TraceReachable-Known r),
  )
  TraceReachable-Known (answered {s} {sent} q asked r) =
      rw (current-finish_trace q.read (answers q) s) (TraceReachable-Known r)
  TraceReachable-Known (folded i r) = TraceReachable-Known r
  TraceReachable-Known (picked f r) = TraceReachable-Known r

  -- However the loads of the tasks that were shown before are answered, and in whatever order, the events,
  -- the text and the error that are held are those of the answer to the request for the task that is shown,
  -- or nothing while that is awaited.
  pub TraceReachable-own :
      {s : TraceState} {sent : List TraceRequest} → TraceReachable s sent → HoldsOwn s
  unfolding initial_trace switch_trace toggle pick_filter
  TraceReachable-own (mounted id) = refl
  TraceReachable-own (switched id r) = refl
  TraceReachable-own (answered {s} {sent} q asked r) =
      HoldsOwn-finish q s (Known-Sent (current_request s) q asked (TraceReachable-Known r))
        (TraceReachable-own r)
  TraceReachable-own (folded i r) = TraceReachable-own r
  TraceReachable-own (picked f r) = TraceReachable-own r
