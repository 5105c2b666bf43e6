-- ===== src/DrawerFocus/State.antt =====
-- The two effects and the listeners of frontend/src/hooks/useDrawerFocus.ts, with the ledger of
-- frontend/src/lib/inertLedger.ts and the keys of frontend/src/lib/focus.ts. An element is a number.
use langgraph_agent.Base.{
  ℕ, ◌+◌, String, Bool, true, false, not, ◌&&◌, ◌||◌, Option, none, some, List, [], ◌∷◌, ◌++◌, map,
  any, length, get_elem?, eqb, is_some, ◌or◌, if◌then◌else◌, ◌>>=◌,
}
use langgraph_agent.InertLedger.{ElementState, Ledger, apply_all, restore_all}
use langgraph_agent.Focus.{
  DrawerKeyAction, close, cycle_backward, cycle_forward, drawer_key_action, next_focus_index,
}

-- The document at a moment: what a ref holds, whether an element is connected or takes the focus by its
-- kind, the elements that it stands in, itself first, and those inside that the selector finds.
pub record Page : Type 0 where
  pub current : ℕ → Option ℕ
  pub connected : ℕ → Bool
  pub natural : ℕ → Bool
  pub ancestors : ℕ → List ℕ
  pub focusables : ℕ → List ℕ

-- `opened` is the container whose listeners are installed; `dep_active` and `dep_ref` are what the effect
-- last ran with; `closes` counts the calls of `onClose`; `focus` is `document.activeElement`.
pub record HookState : Type 0 where
  pub ledger : Ledger
  pub focus : Option ℕ
  pub tab_index : ℕ → Option String
  pub trigger : Option ℕ
  pub opened : Option ℕ
  pub temporary : Bool
  pub dep_active : Bool
  pub dep_ref : Option ℕ
  pub closes : ℕ

pub record HookRender : Type 0 where
  pub active : Bool
  pub container_ref : ℕ
  pub inert_targets : List (Option ℕ)
  pub background_inert : Bool
  pub edges : List (Option ℕ × Bool)

unfoldable pub initial_hook : (ℕ → ElementState) → (ℕ → Option String) → Option ℕ → HookState
initial_hook dom tab_index focus = record {
  ledger = record { dom = dom; saved = [] };
  focus = focus;
  tab_index = tab_index;
  trigger = none;
  opened = none;
  temporary = false;
  dep_active = false;
  dep_ref = none;
  closes = 0;
}

abbrev pub contains : Page → ℕ → ℕ → Bool
contains page container el = any (λ a. eqb a container) (page.ancestors el)

-- `el.focus()`: nothing happens where an element is inert, or takes no focus.
abbrev pub takes_focus : Page → (ℕ → ElementState) → (ℕ → Option String) → ℕ → Bool
takes_focus page dom tab_index el =
    page.connected el
    && (page.natural el || is_some (tab_index el))
    && not (any (λ a. (dom a).inert) (page.ancestors el))

unfoldable pub focus_on : Page → ℕ → HookState → HookState
focus_on page el s =
    if takes_focus page s.ledger.dom s.tab_index el then record s { focus = some el } else s

unfoldable pub set_tab_index : ℕ → Option String → (ℕ → Option String) → ℕ → Option String
set_tab_index el value tab_index e = if eqb e el then value else tab_index e

abbrev pub first_of : Page → ℕ → Option ℕ
first_of page container = get_elem? (page.focusables container) 0

-- Without an element that takes the focus, the container itself is made one.
abbrev pub focus_first : Page → ℕ → Option ℕ → HookState → HookState
focus_first page container (some first) s = focus_on page first s
focus_first page container none s =
    focus_on page container
      (record s { temporary = true; tab_index = set_tab_index container (some "-1") s.tab_index })

abbrev pub entering : ℕ → HookState → HookState
entering container s = record s { trigger = s.focus; opened = some container; temporary = false }

-- The effect of an active render whose container is there.
unfoldable pub enter : Page → ℕ → HookState → HookState
unfolding focus_on set_tab_index
enter page container s = focus_first page container (first_of page container) (entering container s)

abbrev pub return_focus : Page → Option ℕ → HookState → HookState
return_focus page none s = s
return_focus page (some trigger) s = if page.connected trigger then focus_on page trigger s else s

-- The cleanup: the marks are withdrawn first, then the focus goes back.
unfoldable pub clean_up : Page → ℕ → HookState → HookState
unfolding focus_on set_tab_index restore_all
clean_up page container s =
    let t = return_focus page s.trigger (record s { ledger = restore_all s.ledger }) in
    record t {
      trigger = none;
      opened = none;
      tab_index = if s.temporary then set_tab_index container none t.tab_index else t.tab_index;
    }

abbrev pub clean_up_from : Page → Option ℕ → HookState → HookState
clean_up_from page none s = s
clean_up_from page (some container) s = clean_up page container s

unfoldable pub leave : Page → HookState → HookState
unfolding clean_up
leave page s = clean_up_from page s.opened s

abbrev pub enter_in : Page → Option ℕ → HookState → HookState
enter_in page none s = s
enter_in page (some container) s = enter page container s

unfoldable pub start : Page → HookRender → HookState → HookState
unfolding enter
start page r s =
    let t = record s { dep_active = r.active; dep_ref = some r.container_ref } in
    if r.active then enter_in page (page.current r.container_ref) t else t

abbrev pub same_flag : Bool → Bool → Bool
same_flag true b = b
same_flag false b = not b

abbrev pub same_ref : Option ℕ → ℕ → Bool
same_ref none ref = false
same_ref (some before) ref = eqb before ref

-- The first effect runs again when what it depends on has changed.
unfoldable pub drawer_effect : Page → HookRender → HookState → HookState
unfolding leave start
drawer_effect page r s =
    if same_flag s.dep_active r.active && same_ref s.dep_ref r.container_ref
    then s
    else start page r (leave page s)

-- The marks of the second effect, which runs on every render.
abbrev pub marks : HookRender → List (Option ℕ × Bool)
marks r = map (λ el. (el, r.background_inert)) r.inert_targets ++ r.edges

unfoldable pub commit : Page → HookRender → HookState → HookState
unfolding drawer_effect apply_all
commit page r s =
    let t = drawer_effect page r s in record t { ledger = apply_all (marks r) t.ledger }

abbrev pub index_from : ℕ → ℕ → List ℕ → Option ℕ
index_from i el [] = none
index_from i el (x ∷ xs) = if eqb x el then some i else index_from (i + 1) el xs

-- Tab goes round the elements of the container.
unfoldable pub cycle : Page → ℕ → Bool → HookState → HookState
unfolding next_focus_index focus_on
cycle page container shift s =
    let items = page.focusables container in
    let now = s.focus >>= (λ el. index_from 0 el items) in
    elim (next_focus_index (length items) now shift >>= get_elem? items) [
      | none ↦ s
      | some target ↦ focus_on page target s
    ]

abbrev pub act_on_key : Page → ℕ → Bool → Option DrawerKeyAction → HookState → HookState
act_on_key page container shift (some close) s = record s { closes = s.closes + 1 }
act_on_key page container shift none s = s
act_on_key page container shift (some cycle_backward) s = cycle page container shift s
act_on_key page container shift (some cycle_forward) s = cycle page container shift s

unfoldable pub on_key_down : Page → ℕ → String → Bool → HookState → HookState
unfolding cycle drawer_key_action
on_key_down page container key shift s =
    act_on_key page container shift (drawer_key_action key shift) s

-- A focus that leaves the drawer is pulled back.
unfoldable pub on_focus_in : Page → ℕ → ℕ → HookState → HookState
unfolding focus_on
on_focus_in page container target s =
    if contains page container target
    then s
    else focus_on page (first_of page container or container) s
