-- ===== src/Focus.antt =====
-- frontend/src/lib/focus.ts, frontend/src/lib/keys.ts and frontend/src/lib/toolInput.ts: what a key
-- means, and where the focus goes.
use Prim.Native.String.{[], ◌∷◌}
use native.Mathlib.Nat.{mod-eq_of_lt, mod_self, add-mod_right}
use langgraph_agent.Base.{
  ℕ, zero, suc, ◌+◌, ◌-◌, ◌%◌, ◌≤◌, ◌<◌, String, Bool, true, false, not, ◌&&◌, Option, none, some,
  ltb, leb, ◌==◌, if◌then◌else◌, ◌≡◌, arith, ◌∙◌, Bool-cases, inl, inr,
}

pub data DrawerKeyAction : Type 0 where
  close cycle_backward cycle_forward : DrawerKeyAction

-- `null` is `none`.
unfoldable pub drawer_key_action : String → Bool → Option DrawerKeyAction
drawer_key_action key shift =
    if key == "Escape"
    then some close
    else if key == "Tab"
    then some (if shift then cycle_backward else cycle_forward)
    else none

-- An index that is -1 or stale is `none` or too large; no element to focus is `none`.
unfoldable pub next_focus_index : ℕ → Option ℕ → Bool → Option ℕ
next_focus_index zero current shift = none
next_focus_index (suc n) none shift = some (if shift then n else 0)
next_focus_index (suc n) (some i) shift =
    if leb (suc n) i
    then some (if shift then n else 0)
    else some (if shift then (i + suc n - 1) % suc n else (i + 1) % suc n)

unfoldable pub should_send_on_enter : String → Bool → Bool → Bool
should_send_on_enter key shift composing = key == "Enter" && not shift && not composing

-- TOOL_INPUT_PREVIEW_LIMIT
abbrev pub tool_input_preview_limit : ℕ
tool_input_preview_limit = 800

-- `[...text].length`: a text here is its code points.
unfoldable pub code_points : String → ℕ
code_points [] = 0
code_points (c ∷ s) = suc (code_points s)

unfoldable pub input_needs_expand : String → ℕ → Bool
unfolding code_points
input_needs_expand text limit = ltb limit (code_points text)

wrap_forward : (n i : ℕ) → i ≤ n → (i + 1) % suc n ≡ (if leb n i then 0 else i + 1)
wrap_forward n i h = elim (Bool-cases (leb n i)) [
  | inl last ↦ let e : i + 1 ≡ suc n = ground arith in rw (last, e) (mod_self (suc n))
  | inr inner ↦ rw inner (mod-eq_of_lt (ground arith))
]

wrap_back : (n i : ℕ) → i ≤ n → (i + suc n - 1) % suc n ≡ (if leb i 0 then n else i - 1)
wrap_back n i h = elim (Bool-cases (leb i 0)) [
  | inl first ↦
      let e : i + suc n - 1 ≡ n = ground arith in rw (first, e) (mod-eq_of_lt (omega arith))
  | inr inner ↦
      let e : i + suc n - 1 ≡ (i - 1) + suc n = ground arith in
      rw (inner, e) (add-mod_right (i - 1) (suc n) ∙ mod-eq_of_lt (omega arith))
]

-- Tab and Shift+Tab stay inside the list, and undo one another: from an element of a list that is not
-- empty each goes to an element, and the other one goes back from there.
pub next_focus_index_inverse :
    (n i : ℕ) (shift : Bool)
    → i < n
    → (j : ℕ) × (next_focus_index n (some i) shift ≡ some j)
      × (j < n)
      × (next_focus_index n (some j) (not shift) ≡ some i)
unfolding next_focus_index
next_focus_index_inverse zero i shift h = absurd (omega arith)
next_focus_index_inverse (suc n) i true h = (
  (if leb i 0 then n else i - 1),
  ground (arith, wrap_back n i),
  ground arith,
  ground (arith, wrap_forward n (if leb i 0 then n else i - 1)),
)
next_focus_index_inverse (suc n) i false h = (
  (if leb n i then 0 else i + 1),
  ground (arith, wrap_forward n i),
  ground arith,
  ground (arith, wrap_back n (if leb n i then 0 else i + 1)),
)
