-- ===== src/Types/Values.antt =====
-- The values of `any` that reach the client: parsed JSON, with the members of an object in order.
-- A number is kept as a natural number, which is what the publishers put in these places.
use langgraph_agent.Base.{ℕ, String, Bool, ℕ_discrete, eq_iff, ◌==◌, Bool-cases, inl, inr}

-- Two texts are equal or not.
unfoldable pub String-discrete : Discrete String
String-discrete s t = elim (Bool-cases (s == t)) [
  | inl same ↦ yes ((eq_iff s t).0 same)
  | inr other ↦ no (λ e. cc (other, (eq_iff s t).1 e))
]

mutual
  pub data Json : Type 0 where
    null : Json
    bool : Bool → Json
    num : ℕ → Json
    str : String → Json
    arr : JsonItems → Json
    obj : JsonMembers → Json

  pub data JsonItems : Type 0 where
    none_left : JsonItems
    item : Json → JsonItems → JsonItems

  pub data JsonMembers : Type 0 where
    no_more : JsonMembers
    member : String → Json → JsonMembers → JsonMembers

unfoldable pub Json-discrete : Discrete Json
Json-discrete = hlevel (ℕ_discrete, String-discrete)
