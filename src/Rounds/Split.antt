-- ===== src/Rounds/Split.antt =====
-- `splitRounds` loses and invents no turn, and numbers the rounds as the backend counts user turns.
use langgraph_agent.Base.{
  ℕ, ◌+◌, false, ◌||◌, Option, none, some, List, [], ◌∷◌, ◌++◌, if◌then◌else◌, ◌≡◌, refl, ◌∙◌, sym,
  ap, arith, Bool-cases, inl, inr,
}
use mathlib.Core.List.{append_assoc, append-nil}
use langgraph_agent.Types.{ChatTurn}
use langgraph_agent.Rounds.{Round, opened, is_user, no_rounds, add_answer, split_from, split_rounds}

-- The turns of a round, and of all rounds, in order.
abbrev pub round_turns : Round → List ChatTurn
round_turns r = elim r.user [ none ↦ r.answers | some turn ↦ turn ∷ r.answers ]

abbrev pub all_turns : List Round → List ChatTurn
all_turns [] = []
all_turns (r ∷ rs) = round_turns r ++ all_turns rs

all_turns-append :
    (rs : List Round) (r : Round) → all_turns (rs ++ r ∷ []) ≡ all_turns rs ++ round_turns r
all_turns-append [] r = append-nil (round_turns r)
all_turns-append (q ∷ rs) r =
    ap (round_turns q ++◌) (all_turns-append rs r) ∙ sym (append_assoc (round_turns q) _ _)

round_turns-opened : (n : ℕ) (turn : ChatTurn) → round_turns (opened n turn) ≡ turn ∷ []
round_turns-opened n turn = ground arith

answered :
    (u : Option ChatTurn) (answers : List ChatTurn) (turn : ChatTurn)
    → (elim u [ none ↦ answers ++ turn ∷ [] | some t ↦ t ∷ (answers ++ turn ∷ []) ])
      ≡ (elim u [ none ↦ answers | some t ↦ t ∷ answers ]) ++ turn ∷ []
answered none answers turn = refl
answered (some t) answers turn = refl

all_turns-add_answer :
    (turn : ChatTurn) (rs : List Round)
    → no_rounds rs ≡ false
    → all_turns (add_answer turn rs) ≡ all_turns rs ++ turn ∷ []
unfolding add_answer
all_turns-add_answer turn [] h = cc
all_turns-add_answer turn (r ∷ []) h =
    append-nil (round_turns (record r { answers = r.answers ++ turn ∷ [] }))
    ∙ answered r.user r.answers turn
    ∙ ap (◌++ turn ∷ []) (sym (append-nil (round_turns r)))
all_turns-add_answer turn (r ∷ q ∷ rs) h =
    ap (round_turns r ++◌) (all_turns-add_answer turn (q ∷ rs) refl)
    ∙ sym (append_assoc (round_turns r) _ _)

-- The rounds after one turn more.
abbrev next_rounds : List Round → ℕ → ChatTurn → List Round
next_rounds rounds n turn =
    if is_user turn.role || no_rounds rounds
    then rounds ++ opened n turn ∷ []
    else add_answer turn rounds

all_turns-next :
    (rounds : List Round) (n : ℕ) (turn : ChatTurn)
    → all_turns (next_rounds rounds n turn) ≡ all_turns rounds ++ turn ∷ []
all_turns-next rounds n turn = elim (Bool-cases (is_user turn.role || no_rounds rounds)) [
  | inl opens ↦ rw opens (
      all_turns-append rounds (opened n turn)
      ∙ ap (all_turns rounds ++◌) (round_turns-opened n turn))
  | inr joins ↦ rw joins (all_turns-add_answer turn rounds (ground arith))
]

all_turns-split_from :
    (rounds : List Round) (n : ℕ) (turns : List ChatTurn)
    → all_turns (split_from rounds n turns) ≡ all_turns rounds ++ turns
unfolding split_from
all_turns-split_from rounds n [] = sym (append-nil (all_turns rounds))
all_turns-split_from rounds n (turn ∷ turns) =
    all_turns-split_from (next_rounds rounds n turn) (if is_user turn.role then n + 1 else n) turns
    ∙ ap (◌++ turns) (all_turns-next rounds n turn)
    ∙ append_assoc (all_turns rounds) (turn ∷ []) turns

-- Written one after the other, the rounds are the conversation: no turn is lost, doubled or moved.
pub all_turns-split_rounds :
    (conversation : List ChatTurn) → all_turns (split_rounds conversation) ≡ conversation
unfolding split_rounds
all_turns-split_rounds conversation = all_turns-split_from [] 0 conversation

-- The numbers of the rounds that have a user turn.
abbrev pub numbers : List Round → List ℕ
numbers [] = []
numbers (r ∷ rs) = let rest = numbers rs in elim r.user [ none ↦ rest | some turn ↦ r.index ∷ rest ]

-- m, m + 1, …, one for each user turn.
abbrev pub counted : ℕ → List ChatTurn → List ℕ
counted m [] = []
counted m (turn ∷ turns) =
    let here = m ∷ counted (m + 1) turns in
    let skipped = counted m turns in if is_user turn.role then here else skipped

numbers-append : (rs qs : List Round) → numbers (rs ++ qs) ≡ numbers rs ++ numbers qs
numbers-append [] qs = refl
numbers-append (r ∷ rs) qs = ground (arith, numbers-append rs qs)

numbers-add_answer : (turn : ChatTurn) (rs : List Round) → numbers (add_answer turn rs) ≡ numbers rs
unfolding add_answer
numbers-add_answer turn [] = refl
numbers-add_answer turn (r ∷ []) = ground arith
numbers-add_answer turn (r ∷ q ∷ rs) = ground (arith, numbers-add_answer turn (q ∷ rs))

numbers-next :
    (rounds : List Round) (n : ℕ) (turn : ChatTurn)
    → numbers (next_rounds rounds n turn)
      ≡ numbers rounds ++ (if is_user turn.role then (n + 1) ∷ [] else [])
numbers-next rounds n turn = ground (
  arith,
  numbers-append rounds (opened n turn ∷ []),
  numbers-add_answer turn rounds,
  append-nil (numbers rounds),
)

numbers-split_from :
    (rounds : List Round) (n : ℕ) (turns : List ChatTurn)
    → numbers (split_from rounds n turns) ≡ numbers rounds ++ counted (n + 1) turns
unfolding split_from
numbers-split_from rounds n [] = sym (append-nil (numbers rounds))
numbers-split_from rounds n (turn ∷ turns) =
    numbers-split_from (next_rounds rounds n turn) (if is_user turn.role then n + 1 else n) turns
    ∙ ap (◌++ counted ((if is_user turn.role then n + 1 else n) + 1) turns)
        (numbers-next rounds n turn)
    ∙ append_assoc (numbers rounds) _ _
    ∙ ap (numbers rounds ++◌) (ground arith)

-- The rounds that have a user turn are numbered 1, 2, 3, … in the order of the user turns, one for
-- each, whatever assistant turns stand before or between them.
pub numbers-split_rounds :
    (conversation : List ChatTurn) → numbers (split_rounds conversation) ≡ counted 1 conversation
unfolding split_rounds
numbers-split_rounds conversation = numbers-split_from [] 0 conversation
