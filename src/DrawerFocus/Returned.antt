-- ===== src/DrawerFocus/Returned.antt =====
-- What frontend/src/hooks/useDrawerFocus.ts gives back when a drawer closes.
use langgraph_agent.Base.{
  not, if◌then◌else◌, ℕ, String, Bool, true, Option, none, some, ◌≡◌, is_some, refl, ap, ◌&&◌,
  arith, Bool-cases, inl, inr,
}
use langgraph_agent.InertLedger.{
  ElementState, Knows, apply_all-Knows, fresh-Knows, restore_all, restore_all-Knows,
}
use langgraph_agent.Focus.{DrawerKeyAction, close, cycle_backward, cycle_forward, drawer_key_action}
use langgraph_agent.DrawerFocus.State.{
  Page, HookState, HookRender, contains, first_of, initial_hook, takes_focus, focus_on, focus_first,
  enter, enter_in, clean_up_from, entering, same_flag, same_ref, return_focus, clean_up, leave,
  start, drawer_effect, marks, commit, cycle, act_on_key, on_key_down, on_focus_in,
}

-- Does the first effect run again in a render?
abbrev pub reruns : HookState → HookRender → Bool
reruns s r = not (same_flag s.dep_active r.active && same_ref s.dep_ref r.container_ref)

-- The element that has the focus when a drawer opens: the one that has it once the drawer of before, if
-- there is one, is closed.
abbrev pub focused_at : Page → HookRender → HookState → Option ℕ → Option ℕ
focused_at page r s before = if reruns s r then (leave page s).focus else before

-- The states of the hook in a document that had the attributes `dom`, with its own moments: renders, keys
-- while a drawer's listeners are installed, and focus that moves, which the drawer may pull back. The
-- last index is the element that had the focus when the effect last ran.
pub data HookReachable (dom : ℕ → ElementState) : HookState → Option ℕ → Type 0 where
  mounted :
      (tab_index : ℕ → Option String) (focus : Option ℕ)
      → HookReachable dom (initial_hook dom tab_index focus) none
  committed :
      {s : HookState} {opener : Option ℕ} (page : Page) (r : HookRender)
      → HookReachable dom s opener
      → HookReachable dom (commit page r s) (focused_at page r s opener)
  keyed :
      {s : HookState} {opener : Option ℕ} (page : Page) (container : ℕ) (key : String)
      (shift : Bool)
      → s.opened ≡ some container
      → HookReachable dom s opener
      → HookReachable dom (on_key_down page container key shift s) opener
  pulled :
      {s : HookState} {opener : Option ℕ} (page : Page) (container target : ℕ)
      → s.opened ≡ some container
      → HookReachable dom s opener
      → HookReachable dom
          (on_focus_in page container target (record s { focus = some target }))
          opener
  blurred :
      {s : HookState} {opener : Option ℕ}
      → HookReachable dom s opener
      → HookReachable dom (record s { focus = none }) opener
  moved :
      {s : HookState} {opener : Option ℕ} (focus : Option ℕ)
      → s.opened ≡ none
      → HookReachable dom s opener
      → HookReachable dom (record s { focus = focus }) opener

-- What moving the focus leaves alone.
abbrev SameMarks : HookState → HookState → Type 0
SameMarks s t =
    (t.ledger ≡ s.ledger)
    × (t.opened ≡ s.opened)
    × (t.dep_active ≡ s.dep_active)
    × (t.trigger ≡ s.trigger)

SameMarks-focus_on : (page : Page) (el : ℕ) (s : HookState) → SameMarks s (focus_on page el s)
unfolding focus_on
SameMarks-focus_on page el s = elim (Bool-cases (takes_focus page s.ledger.dom s.tab_index el)) [
  | inl takes ↦ rw takes (refl, refl, refl, refl)
  | inr refuses ↦ rw refuses (refl, refl, refl, refl)
]

-- The focus goes to an element that may be missing.
SameMarks-found :
    (page : Page) (found : Option ℕ) (s : HookState)
    → SameMarks s (elim found [ none ↦ s | some target ↦ focus_on page target s ])
SameMarks-found page none s = (refl, refl, refl, refl)
SameMarks-found page (some target) s = SameMarks-focus_on page target s

SameMarks-cycle :
    (page : Page) (container : ℕ) (shift : Bool) (s : HookState)
    → SameMarks s (cycle page container shift s)
unfolding cycle
SameMarks-cycle page container shift s = SameMarks-found page _ s

SameMarks-act_on_key :
    (page : Page) (container : ℕ) (shift : Bool) (action : Option DrawerKeyAction) (s : HookState)
    → SameMarks s (act_on_key page container shift action s)
SameMarks-act_on_key page container shift none s = (refl, refl, refl, refl)
SameMarks-act_on_key page container shift (some close) s = (refl, refl, refl, refl)
SameMarks-act_on_key page container shift (some cycle_backward) s =
    SameMarks-cycle page container shift s
SameMarks-act_on_key page container shift (some cycle_forward) s =
    SameMarks-cycle page container shift s

SameMarks-on_focus_in :
    (page : Page) (container target : ℕ) (s : HookState)
    → SameMarks s (on_focus_in page container target s)
unfolding on_focus_in
SameMarks-on_focus_in page container target s = elim (Bool-cases (contains page container target)) [
  | inl inside ↦ rw inside (refl, refl, refl, refl)
  | inr outside ↦ rw outside (SameMarks-focus_on page _ s)
]

SameMarks-return_focus :
    (page : Page) (trigger : Option ℕ) (s : HookState) → SameMarks s (return_focus page trigger s)
SameMarks-return_focus page none s = (refl, refl, refl, refl)
SameMarks-return_focus page (some trigger) s = elim (Bool-cases (page.connected trigger)) [
  | inl connected ↦ rw connected (SameMarks-focus_on page trigger s)
  | inr gone ↦ rw gone (refl, refl, refl, refl)
]

pub ledger-clean_up :
    (page : Page) (container : ℕ) (s : HookState)
    → (clean_up page container s).ledger ≡ restore_all s.ledger
unfolding clean_up
ledger-clean_up page container s = (SameMarks-return_focus page s.trigger _).0

ledger-focus_first :
    (page : Page) (container : ℕ) (first : Option ℕ) (s : HookState)
    → SameMarks s (focus_first page container first s)
ledger-focus_first page container (some first) s = SameMarks-focus_on page first s
ledger-focus_first page container none s = SameMarks-focus_on page container _

opened-clean_up_from :
    (page : Page) (opened : Option ℕ) (s : HookState)
    → s.opened ≡ opened
    → (clean_up_from page opened s).opened ≡ none
unfolding clean_up
opened-clean_up_from page none s e = e
opened-clean_up_from page (some container) s e = refl

-- The ledger knows the document as it was, listeners are there only while the hook is active, and then
-- the element that had the focus is remembered.
pub record HookSound (dom : ℕ → ElementState) (s : HookState) (opener : Option ℕ) : Type 0 where
  pub knows : Knows dom s.ledger
  pub active : is_some s.opened ≡ true → s.dep_active ≡ true
  pub remembered : is_some s.opened ≡ true → s.trigger ≡ opener

HookSound-marked :
    (dom : ℕ → ElementState) (opener : Option ℕ) (s t : HookState)
    → SameMarks s t
    → HookSound dom s opener
    → HookSound dom t opener
HookSound-marked dom opener s t same sound = record {
  knows = rw same.0 sound.knows;
  active = rw (same.1, same.2) sound.active;
  remembered = rw (same.1, same.3) sound.remembered;
}

-- The focus alone changes.
HookSound-focused :
    (dom : ℕ → ElementState) (opener focus : Option ℕ) (s : HookState)
    → HookSound dom s opener
    → HookSound dom (record s { focus = focus }) opener
HookSound-focused dom opener focus s sound = record {
  knows = sound.knows;
  active = sound.active;
  remembered = sound.remembered;
}

never_open : {P : Type 0} (opened : Option ℕ) → opened ≡ none → is_some opened ≡ true → P
never_open opened shut is_open = absurd (ground (arith, is_open, ap is_some shut))

Knows-clean_up_from :
    (dom : ℕ → ElementState) (page : Page) (opened : Option ℕ) (s : HookState)
    → Knows dom s.ledger
    → Knows dom (clean_up_from page opened s).ledger
Knows-clean_up_from dom page none s knows = knows
Knows-clean_up_from dom page (some container) s knows =
    rw (ledger-clean_up page container s, restore_all-Knows dom s.ledger knows) (fresh-Knows dom)

HookSound-enter_in :
    (dom : ℕ → ElementState) (page : Page) (container : Option ℕ) (s : HookState)
    → Knows dom s.ledger
    → s.dep_active ≡ true
    → s.opened ≡ none
    → HookSound dom (enter_in page container s) s.focus
unfolding enter
HookSound-enter_in dom page none s knows on shut = record {
  knows = knows;
  active = λ _. on;
  remembered = never_open s.opened shut;
}
HookSound-enter_in dom page (some container) s knows on shut =
    HookSound-marked dom s.focus (entering container s) _
      (ledger-focus_first page container (first_of page container) (entering container s))
      (record { knows = knows; active = λ _. on; remembered = λ _. refl })

HookSound-start :
    (dom : ℕ → ElementState) (page : Page) (r : HookRender) (s : HookState)
    → Knows dom s.ledger
    → s.opened ≡ none
    → HookSound dom (start page r s) s.focus
unfolding start
HookSound-start dom page r s knows shut = elim (Bool-cases r.active) [
  | inl on ↦ rw on (HookSound-enter_in dom page (page.current r.container_ref) _ knows refl shut)
  | inr off ↦ rw off (record {
    knows = knows;
    active = never_open s.opened shut;
    remembered = never_open s.opened shut;
  })
]

HookSound-drawer_effect :
    (dom : ℕ → ElementState) (opener : Option ℕ) (page : Page) (r : HookRender) (s : HookState)
    → HookSound dom s opener
    → HookSound dom (drawer_effect page r s) (focused_at page r s opener)
unfolding drawer_effect leave
HookSound-drawer_effect dom opener page r s sound =
    elim (Bool-cases (same_flag s.dep_active r.active && same_ref s.dep_ref r.container_ref)) [
      | inl same ↦ rw same sound
      | inr changed ↦ rw changed (
          HookSound-start dom page r (clean_up_from page s.opened s)
            (Knows-clean_up_from dom page s.opened s sound.knows)
            (opened-clean_up_from page s.opened s refl))
    ]

HookSound-commit :
    (dom : ℕ → ElementState) (opener : Option ℕ) (page : Page) (r : HookRender) (s : HookState)
    → HookSound dom s opener
    → HookSound dom (commit page r s) (focused_at page r s opener)
unfolding commit
HookSound-commit dom opener page r s sound =
    let t = HookSound-drawer_effect dom opener page r s sound in
    record {
      knows = apply_all-Knows dom (marks r) _ t.knows;
      active = t.active;
      remembered = t.remembered;
    }

pub HookReachable-Sound :
    (dom : ℕ → ElementState) {s : HookState} {opener : Option ℕ}
    → HookReachable dom s opener
    → HookSound dom s opener
unfolding initial_hook on_key_down
HookReachable-Sound dom (mounted tab_index focus) = record {
  knows = fresh-Knows dom;
  active = never_open none refl;
  remembered = never_open none refl;
}
HookReachable-Sound dom (committed {s} {opener} page r reached) =
    HookSound-commit dom opener page r s (HookReachable-Sound dom reached)
HookReachable-Sound dom (keyed {s} {opener} page container key shift opened reached) =
    HookSound-marked dom opener s _
      (SameMarks-act_on_key page container shift (drawer_key_action key shift) s)
      (HookReachable-Sound dom reached)
HookReachable-Sound dom (pulled {s} {opener} page container target opened reached) =
    HookSound-marked dom opener (record s { focus = some target }) _
      (SameMarks-on_focus_in page container target (record s { focus = some target }))
      (HookSound-focused dom opener (some target) s (HookReachable-Sound dom reached))
HookReachable-Sound dom (blurred {s} {opener} reached) =
    HookSound-focused dom opener none s (HookReachable-Sound dom reached)
HookReachable-Sound dom (moved {s} {opener} focus shut reached) =
    HookSound-focused dom opener focus s (HookReachable-Sound dom reached)
