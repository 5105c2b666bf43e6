-- ===== src/RequestGate.antt =====
-- frontend/src/lib/requestGate.ts: which answers of requests that can be cancelled still count.
use langgraph_agent.Base.{ℕ, ◌+◌, ◌≤◌, Bool, true, false, List, [], ◌∷◌, eqb, ◌≡◌, arith}

-- The gate is the number `current`; a token is what it was when the request began.
unfoldable pub begin_request : ℕ → ℕ
begin_request current = current + 1

unfoldable pub is_current : ℕ → ℕ → Bool
is_current current token = eqb token current

unfoldable pub invalidate : ℕ → ℕ
invalidate current = current + 1

-- What the dialog may do after a request began.
pub data GateCall : Type 0 where
  began invalidated : GateCall

unfoldable pub gate_call : GateCall → ℕ → ℕ
unfolding begin_request invalidate
gate_call began current = begin_request current
gate_call invalidated current = invalidate current

unfoldable pub gate_calls : List GateCall → ℕ → ℕ
unfolding gate_call
gate_calls [] current = current
gate_calls (c ∷ cs) current = gate_calls cs (gate_call c current)

abbrev pub is_empty : List GateCall → Bool
is_empty [] = true
is_empty (c ∷ cs) = false

gate_calls-grows : (cs : List GateCall) (current : ℕ) → current ≤ gate_calls cs current
unfolding gate_calls
gate_calls-grows [] current = omega arith
gate_calls-grows (began ∷ cs) current = omega (arith, gate_calls-grows cs (current + 1))
gate_calls-grows (invalidated ∷ cs) current = omega (arith, gate_calls-grows cs (current + 1))

-- The answer of a request counts exactly as long as nothing has begun or been invalidated since: the
-- token that `begin` handed out is current after no call, and after one or more calls never again.
pub is_current-gate_calls :
    (current : ℕ) (cs : List GateCall)
    → is_current (gate_calls cs (begin_request current)) (begin_request current) ≡ is_empty cs
unfolding is_current gate_calls
is_current-gate_calls current [] = ground arith
is_current-gate_calls current (began ∷ cs) = ground (arith, gate_calls-grows cs (current + 1 + 1))
is_current-gate_calls current (invalidated ∷ cs) =
    ground (arith, gate_calls-grows cs (current + 1 + 1))
