-- ===== src/Grouping.antt =====
-- The grouping loop that components/rail/group.ts and components/dash/fileGroup.ts of frontend/src
-- share: groups in first-seen order, found again by their key.
pub mod Groups
use langgraph_agent.Base.{
  String, Bool, true, false, List, [], ◌∷◌, ◌++◌, any, map, ◌==◌, if◌then◌else◌,
}

pub record Group {ℓ} (A : Type ℓ) : Type ℓ where
  pub key : String
  pub members : List A

module _ {ℓ} {A : Type ℓ} where
  -- The body of the loop: the group of the key is pushed to, or a new one is put last.
  unfoldable pub add_to : String → A → List (Group A) → List (Group A)
  add_to key x groups =
      if any (λ g. g.key == key) groups
      then map (λ g. if g.key == key then record g { members = g.members ++ x ∷ [] } else g) groups
      else groups ++ record { key = key; members = x ∷ [] } ∷ []

  unfoldable pub group_onto : (A → String) → List A → List (Group A) → List (Group A)
  unfolding add_to
  group_onto key_of [] groups = groups
  group_onto key_of (x ∷ xs) groups = group_onto key_of xs (add_to (key_of x) x groups)

  unfoldable pub group_by : (A → String) → List A → List (Group A)
  unfolding group_onto
  group_by key_of xs = group_onto key_of xs []
