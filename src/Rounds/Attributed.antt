-- ===== src/Rounds/Attributed.antt =====
-- Every step belongs to one round, or to the legacy block.
use langgraph_agent.Base.{
  ℕ, zero, suc, ◌+◌, Bool, true, List, [], ◌∷◌, all, leb, ltb, ◌or◌, ◌&&◌, length, if◌then◌else◌,
  ◌≡◌, refl, arith,
}
use langgraph_agent.Types.{StepRecord}
use langgraph_agent.Rounds.{steps_for_round, legacy_steps}

-- The steps of the rounds 1 to n, counted.
abbrev pub count_rounds : List StepRecord → ℕ → ℕ
count_rounds steps zero = 0
count_rounds steps (suc n) = count_rounds steps n + length (steps_for_round steps (suc n))

-- Every number of a round is at most n.
abbrev pub rounds_within : ℕ → List StepRecord → Bool
rounds_within n steps = all (λ s. leb (s.round or 0) n) steps

count_rounds-none : (n : ℕ) → count_rounds [] n ≡ 0
unfolding steps_for_round
count_rounds-none zero = refl
count_rounds-none (suc n) = omega (arith, count_rounds-none n)

-- One step more counts once, if its round is among them.
count_rounds-cons :
    (s : StepRecord) (steps : List StepRecord) (n : ℕ)
    → count_rounds (s ∷ steps) n
      ≡ count_rounds steps n + (if ltb 0 (s.round or 0) && leb (s.round or 0) n then 1 else 0)
unfolding steps_for_round
count_rounds-cons s steps zero = ground arith
count_rounds-cons s steps (suc n) = ground (arith, count_rounds-cons s steps n)

-- If no step's round is above n, the legacy block and the rounds 1 to n hold every step exactly once:
-- together they are as many as the steps.
pub length-rounds :
    (steps : List StepRecord) (n : ℕ)
    → rounds_within n steps ≡ true
    → length (legacy_steps steps) + count_rounds steps n ≡ length steps
unfolding legacy_steps
length-rounds [] n h = omega (arith, count_rounds-none n)
length-rounds (s ∷ steps) n h = ground (arith, count_rounds-cons s steps n, length-rounds steps n)
