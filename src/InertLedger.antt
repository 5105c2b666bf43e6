-- ===== src/InertLedger.antt =====
-- frontend/src/lib/inertLedger.ts: the ledger of elements that a drawer has made inert. An element is
-- a number, and the document a function from elements to their two attributes.
use langgraph_agent.Base.{
  ℕ, String, Bool, true, false, Option, none, some, List, [], ◌∷◌, any, eqb, ◌||◌, eqb_iff,
  if◌then◌else◌, ◌≡◌, refl, sym, ◌∙◌, ap, arith, fun_ext, Bool-cases, inl, inr,
}

-- `inert` and `aria-hidden`, which is also what the ledger saves of an element.
pub record ElementState : Type 0 where
  pub inert : Bool
  pub aria_hidden : Option String

pub record Ledger : Type 0 where
  pub dom : ℕ → ElementState
  pub saved : List (ℕ × ElementState)

unfoldable pub set_element : ℕ → ElementState → (ℕ → ElementState) → ℕ → ElementState
set_element el state dom e = if eqb e el then state else dom e

abbrev pub has_saved : ℕ → List (ℕ × ElementState) → Bool
has_saved el saved = any (λ entry. eqb entry.0 el) saved

-- `saved.set(el, …)`: a new key goes last.
unfoldable pub remember : ℕ → ElementState → List (ℕ × ElementState) → List (ℕ × ElementState)
remember el state [] = (el, state) ∷ []
remember el state (entry ∷ saved) = entry ∷ remember el state saved

unfoldable pub apply_inert : Option ℕ → Bool → Ledger → Ledger
unfolding set_element remember
apply_inert none inert l = l
apply_inert (some el) inert l = record {
  dom =
      set_element el (record { inert = inert; aria_hidden = if inert then some "true" else none })
        l.dom;
  saved = if has_saved el l.saved then l.saved else remember el (l.dom el) l.saved;
}

unfoldable pub restore_saved : List (ℕ × ElementState) → (ℕ → ElementState) → ℕ → ElementState
unfolding set_element
restore_saved [] dom = dom
restore_saved ((el, original) ∷ saved) dom = restore_saved saved (set_element el original dom)

unfoldable pub restore_all : Ledger → Ledger
unfolding restore_saved
restore_all l = record { dom = restore_saved l.saved l.dom; saved = [] }

-- A drawer's life: calls of `apply`, in any order and on any elements.
unfoldable pub apply_all : List (Option ℕ × Bool) → Ledger → Ledger
unfolding apply_inert
apply_all [] l = l
apply_all ((el, inert) ∷ calls) l = apply_all calls (apply_inert el inert l)

-- The document as it was before the ledger touched it: what is saved, and elsewhere what is there.
original : List (ℕ × ElementState) → (ℕ → ElementState) → ℕ → ElementState
original [] dom e = dom e
original ((el, state) ∷ saved) dom e = if eqb e el then state else original saved dom e

Distinct : List (ℕ × ElementState) → Type 0
Distinct [] = Unit {0}
Distinct ((el, state) ∷ saved) = (has_saved el saved ≡ false) × Distinct saved

restore_saved-absent :
    (saved : List (ℕ × ElementState)) (dom : ℕ → ElementState) (e : ℕ)
    → has_saved e saved ≡ false
    → restore_saved saved dom e ≡ dom e
unfolding restore_saved
restore_saved-absent [] dom e h = refl
restore_saved-absent ((el, state) ∷ saved) dom e h =
    ground (arith, restore_saved-absent saved (set_element el state dom) e)

original-agree :
    (saved : List (ℕ × ElementState)) (dom dom' : ℕ → ElementState) (e : ℕ)
    → dom e ≡ dom' e
    → original saved dom e ≡ original saved dom' e
unfolding original
original-agree [] dom dom' e h = h
original-agree ((el, state) ∷ saved) dom dom' e h =
    ground (arith, original-agree saved dom dom' e h)

restore_saved-original :
    (saved : List (ℕ × ElementState)) (dom : ℕ → ElementState) (e : ℕ)
    → Distinct saved
    → restore_saved saved dom e ≡ original saved dom e
unfolding restore_saved original Distinct
restore_saved-original [] dom e d = refl
restore_saved-original ((el, state) ∷ saved) dom e d = elim (Bool-cases (eqb e el)) [
  | inl same ↦ rw same (
      restore_saved-absent saved (set_element el state dom) e
        (ap (λ k. has_saved k saved) ((eqb_iff e el).0 same) ∙ d.0)
      ∙ unfold set_element in rw same)
  | inr other ↦ rw other (
      restore_saved-original saved (set_element el state dom) e d.1
      ∙ original-agree saved (set_element el state dom) dom e (unfold set_element in rw other))
]

has_saved-remember :
    (el k : ℕ) (state : ElementState) (saved : List (ℕ × ElementState))
    → has_saved k (remember el state saved) ≡ (has_saved k saved || eqb el k)
unfolding remember
has_saved-remember el k state [] = ground arith
has_saved-remember el k state (entry ∷ saved) = ground (arith, has_saved-remember el k state saved)

remember-Distinct :
    (el : ℕ) (state : ElementState) (saved : List (ℕ × ElementState))
    → has_saved el saved ≡ false
    → Distinct saved
    → Distinct (remember el state saved)
unfolding remember Distinct
remember-Distinct el state [] h d = (refl, tt)
remember-Distinct el state (entry ∷ saved) h d =
    ground (arith, has_saved-remember el entry.0 state saved, remember-Distinct el state saved)

-- What is saved hides what the document shows now.
original-saved :
    (saved : List (ℕ × ElementState)) (dom dom' : ℕ → ElementState) (e : ℕ)
    → has_saved e saved ≡ true
    → original saved dom e ≡ original saved dom' e
unfolding original
original-saved [] dom dom' e h = cc
original-saved ((el, state) ∷ saved) dom dom' e h = ground (arith, original-saved saved dom dom' e)

original-remember :
    (saved : List (ℕ × ElementState)) (el : ℕ) (dom dom' : ℕ → ElementState) (e : ℕ)
    → has_saved el saved ≡ false
    → (eqb e el ≡ false → dom' e ≡ dom e)
    → original (remember el (dom el) saved) dom' e ≡ original saved dom e
unfolding original remember
original-remember [] el dom dom' e h off = elim (Bool-cases (eqb e el)) [
  | inl same ↦ rw same (ap dom (sym ((eqb_iff e el).0 same)))
  | inr other ↦ rw other (off other)
]
original-remember ((k, state) ∷ saved) el dom dom' e h off =
    ground (arith, original-remember saved el dom dom' e (ground arith) off)

-- The ledger knows what every element was like.
pub record Knows (before : ℕ → ElementState) (l : Ledger) : Type 0 where
  distinct : Distinct l.saved
  known : (e : ℕ) → original l.saved l.dom e ≡ before e

apply_inert-Knows :
    (before : ℕ → ElementState) (el : Option ℕ) (inert : Bool) (l : Ledger)
    → Knows before l
    → Knows before (apply_inert el inert l)
unfolding apply_inert
apply_inert-Knows before none inert l k = k
apply_inert-Knows before (some el) inert l k = elim (Bool-cases (has_saved el l.saved)) [
  | inl old ↦ rw old (record {
    distinct = k.distinct;
    known = λ e. elim (Bool-cases (eqb e el)) [
      | inl same ↦
          original-saved l.saved _ l.dom e
            (ap (λ j. has_saved j l.saved) ((eqb_iff e el).0 same) ∙ old)
          ∙ k.known e
      | inr other ↦ original-agree l.saved _ l.dom e (rw other) ∙ k.known e
    ];
  })
  | inr new ↦ rw new (record {
    distinct = remember-Distinct el (l.dom el) l.saved new k.distinct;
    known = λ e. original-remember l.saved el l.dom _ e new (λ other. rw other) ∙ k.known e;
  })
]

pub apply_all-Knows :
    (before : ℕ → ElementState) (calls : List (Option ℕ × Bool)) (l : Ledger)
    → Knows before l
    → Knows before (apply_all calls l)
unfolding apply_all
apply_all-Knows before [] l k = k
apply_all-Knows before ((el, inert) ∷ calls) l k =
    apply_all-Knows before calls (apply_inert el inert l) (apply_inert-Knows before el inert l k)

pub fresh-Knows : (dom : ℕ → ElementState) → Knows dom (record { dom = dom; saved = [] })
fresh-Knows dom = record { distinct = unfold Distinct in tt; known = λ e. unfold original in refl }

pub restore_all-Knows :
    (before : ℕ → ElementState) (l : Ledger)
    → Knows before l
    → restore_all l ≡ record { dom = before; saved = [] }
unfolding restore_all
restore_all-Knows before l k = λ i. record { dom = restored i; saved = [] }
  where
    restored : restore_saved l.saved l.dom ≡ before
    restored = fun_ext λ e. restore_saved-original l.saved l.dom e k.distinct ∙ k.known e

-- Whatever elements were made inert or live again since the ledger was empty, in whatever order and
-- however often, `restoreAll` gives every element both attributes that it had then, and forgets all.
pub restore_all-apply_all :
    (dom : ℕ → ElementState) (calls : List (Option ℕ × Bool))
    → restore_all (apply_all calls (record { dom = dom; saved = [] }))
      ≡ record { dom = dom; saved = [] }
restore_all-apply_all dom calls =
    restore_all-Knows dom _ (apply_all-Knows dom calls _ (fresh-Knows dom))
