-- ===== src/Rounds.antt =====
-- frontend/src/lib/rounds.ts: the conversation split into rounds, and the steps of each.
pub mod Split
pub mod Attributed
pub mod PlanNotice
use Prim.Native.Char.{code}
use langgraph_agent.Base.{
  ℕ, zero, suc, ◌+◌, String, Bool, true, false, ◌&&◌, ◌||◌, Option, none, some, List, [], ◌∷◌, ◌++◌,
  filter, eqb, leb, trim, if◌then◌else◌,
}
use langgraph_agent.Types.{ChatTurn, Role, user, assistant, StepRecord}

pub record Round : Type 0 where
  pub index : ℕ
  pub user : Option ChatTurn
  pub answers : List ChatTurn

abbrev pub is_user : Role → Bool
is_user Role.user = true
is_user assistant = false

-- The round that a turn opens: a user turn is numbered, an assistant turn before any user turn is not.
abbrev pub opened : ℕ → ChatTurn → Round
opened user_rounds turn =
    if is_user turn.role
    then record { index = user_rounds + 1; user = some turn; answers = [] }
    else record { index = 0; user = none; answers = turn ∷ [] }

-- `current.answers.push(turn)` on the last round
unfoldable pub add_answer : ChatTurn → List Round → List Round
add_answer turn [] = []
add_answer turn (r ∷ []) = record r { answers = r.answers ++ turn ∷ [] } ∷ []
add_answer turn (r ∷ q ∷ rs) = r ∷ add_answer turn (q ∷ rs)

abbrev pub no_rounds : List Round → Bool
no_rounds [] = true
no_rounds (r ∷ rs) = false

-- The loop, over the rounds so far and the number of user turns.
unfoldable pub split_from : List Round → ℕ → List ChatTurn → List Round
unfolding add_answer
split_from rounds n [] = rounds
split_from rounds n (turn ∷ turns) =
    split_from
      (if is_user turn.role || no_rounds rounds
        then rounds ++ opened n turn ∷ []
        else add_answer turn rounds)
      (if is_user turn.role then n + 1 else n) turns

unfoldable pub split_rounds : List ChatTurn → List Round
unfolding split_from
split_rounds conversation = split_from [] 0 conversation

abbrev pub has_round : ℕ → Option ℕ → Bool
has_round n none = false
has_round n (some r) = eqb r n

unfoldable pub steps_for_round : List StepRecord → ℕ → List StepRecord
steps_for_round steps round = filter (λ s. has_round round s.round) steps

abbrev pub is_legacy : Option ℕ → Bool
is_legacy none = true
is_legacy (some r) = eqb r 0

unfoldable pub legacy_steps : List StepRecord → List StepRecord
legacy_steps steps = filter (λ s. is_legacy s.round) steps
