-- ===== src/Tests/Focused.antt =====
-- The focus of a drawer at a concrete document: the rail is element 1, a button in it 2, the main column 3,
-- and the button that opens the rail, in the main column, 4.
use langgraph_agent.Base.{
  ℕ, String, true, false, Option, none, some, [], ◌∷◌, eqb, ◌≡◌, refl, if◌then◌else◌,
}
use langgraph_agent.InertLedger.{ElementState, apply_all}
use langgraph_agent.DrawerFocus.State.{
  Page, HookState, HookRender, initial_hook, commit, leave, marks, on_key_down,
}
use langgraph_agent.DrawerFocus.Returned.{HookReachable, mounted, committed}
use langgraph_agent.DrawerFocus.Closed.{commit-closes}

abbrev page : Page
page = record {
  current = λ ref. some ref;
  connected = λ _. true;
  natural = λ el. if eqb el 2 then true else eqb el 4;
  ancestors = λ el. if eqb el 2 then 2 ∷ 1 ∷ [] else if eqb el 4 then 4 ∷ 3 ∷ [] else el ∷ [];
  focusables = λ el. if eqb el 1 then 2 ∷ [] else [];
}

abbrev plain : ℕ → ElementState
plain _ = record { inert = false; aria_hidden = none }

abbrev no_index : ℕ → Option String
no_index _ = none

abbrev shut_render : HookRender
shut_render = record {
  active = false;
  container_ref = 1;
  inert_targets = [];
  background_inert = false;
  edges = (some 1, true) ∷ [];
}

abbrev open_render : HookRender
open_render = record {
  active = true;
  container_ref = 1;
  inert_targets = some 3 ∷ [];
  background_inert = true;
  edges = (some 1, false) ∷ [];
}

abbrev before_open : HookState
before_open = commit page shut_render (initial_hook plain no_index (some 4))

abbrev opened_rail : HookState
opened_rail = commit page open_render before_open

reached : HookReachable plain opened_rail (some 4)
unfolding commit initial_hook leave
reached = committed page open_render (committed page shut_render (mounted no_index (some 4)))

-- The rail is still marked when the effect calls `focus()`, so the focus stays where it was.
focus_stays : opened_rail.focus ≡ some 4
unfolding commit initial_hook
focus_stays = refl

-- Tab then moves it into the rail.
tab_enters : (on_key_down page 1 "Tab" false opened_rail).focus ≡ some 2
unfolding on_key_down commit initial_hook
tab_enters = refl

is_opened : opened_rail.opened ≡ some 1
unfolding commit initial_hook
is_opened = refl

commit-closes_example :
    ((commit page shut_render opened_rail).focus ≡ some 4)
    × ((commit page shut_render opened_rail).ledger
        ≡ apply_all (marks shut_render) (record { dom = plain; saved = [] }))
    × ((commit page shut_render opened_rail).opened ≡ none)
    × ((commit page shut_render opened_rail).trigger ≡ none)
commit-closes_example =
    commit-closes plain page shut_render opened_rail 1 4 reached is_opened refl refl
