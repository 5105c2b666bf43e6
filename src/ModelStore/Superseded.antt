-- ===== src/ModelStore/Superseded.antt =====
-- frontend/src/store/modelStore.ts: an answer that a newer refresh has overtaken changes nothing.
use langgraph_agent.Base.{
  ℕ, suc, false, List, [], ◌∷◌, eqb, if◌then◌else◌, ◌≡◌, refl, ap, sym, Option-cases, ◌∙◌, arith,
  Bool-cases, inl, inr,
}
use langgraph_agent.ModelStore.{
  ModelState, Outcome, answered, rejected, Answer, ProvidersData, ModelsData, Event, start, finish,
  start_refresh, finish_refresh, settled, take_answers, run,
}

-- The run without the answers that are not to the newest refresh at their time.
abbrev pub current_only : ℕ → List Event → List Event
current_only seq [] = []
current_only seq (start ∷ events) = start ∷ current_only (suc seq) events
current_only seq (finish n outcome ∷ events) =
    let rest = current_only seq events in if eqb n seq then finish n outcome ∷ rest else rest

refresh_seq-take_answers :
    (p : Answer ProvidersData) (m : Answer ModelsData) (s : ModelState)
    → (take_answers p m s).refresh_seq ≡ s.refresh_seq
unfolding take_answers
refresh_seq-take_answers p m s = ground (arith, Option-cases p.body, Option-cases m.body)

refresh_seq-finish :
    (seq : ℕ) (outcome : Outcome) (s : ModelState)
    → (finish_refresh seq outcome s).refresh_seq ≡ s.refresh_seq
unfolding finish_refresh settled
refresh_seq-finish seq (answered p m) s = ground (arith, refresh_seq-take_answers p m s)
refresh_seq-finish seq rejected s = ground arith

finish-overtaken :
    (seq : ℕ) (outcome : Outcome) (s : ModelState)
    → eqb seq s.refresh_seq ≡ false
    → finish_refresh seq outcome s ≡ s
unfolding finish_refresh
finish-overtaken seq outcome s h = rw h refl

run-start :
    (events : List Event) (s : ModelState) → run (start ∷ events) s ≡ run events (start_refresh s)
unfolding run
run-start events s = refl

run-finish :
    (n : ℕ) (outcome : Outcome) (events : List Event) (s : ModelState)
    → run (finish n outcome ∷ events) s ≡ run events (finish_refresh n outcome s)
unfolding run
run-finish n outcome events s = refl

refresh_seq-start : (s : ModelState) → (start_refresh s).refresh_seq ≡ suc s.refresh_seq
unfolding start_refresh
refresh_seq-start s = refl

-- In any run, the answers that a newer refresh has overtaken may be left out: the store ends the same.
pub run-current_only :
    (events : List Event) (s : ModelState)
    → run (current_only s.refresh_seq events) s ≡ run events s
run-current_only [] s = refl
run-current_only (start ∷ events) s =
    run-start (current_only (suc s.refresh_seq) events) s
    ∙ ap (λ seq. run (current_only seq events) (start_refresh s)) (sym (refresh_seq-start s))
    ∙ run-current_only events (start_refresh s)
    ∙ sym (run-start events s)
run-current_only (finish n outcome ∷ events) s = elim (Bool-cases (eqb n s.refresh_seq)) [
  | inl same ↦ rw same (
      run-finish n outcome (current_only s.refresh_seq events) s
      ∙ ap (λ seq. run (current_only seq events) (finish_refresh n outcome s))
          (sym (refresh_seq-finish n outcome s))
      ∙ run-current_only events (finish_refresh n outcome s)
      ∙ sym (run-finish n outcome events s))
  | inr other ↦ rw other (
      run-current_only events s
      ∙ ap (run events) (sym (finish-overtaken n outcome s other))
      ∙ sym (run-finish n outcome events s))
]
