-- ===== src/DrawerFocus/Closed.antt =====
-- The render of frontend/src/hooks/useDrawerFocus.ts in which a drawer closes.
use langgraph_agent.Base.{ℕ, true, false, none, some, is_some, [], ◌≡◌, refl, ◌∙◌, ap, arith}
use langgraph_agent.InertLedger.{ElementState, apply_all, restore_all, restore_all-Knows}
use langgraph_agent.DrawerFocus.State.{
  Page, HookState, HookRender, takes_focus, focus_on, return_focus, clean_up, leave, start,
  drawer_effect, marks, commit,
}
use langgraph_agent.DrawerFocus.Returned.{HookReachable, HookReachable-Sound, ledger-clean_up}

-- An inactive render after an active one runs the cleanup.
drawer_effect-closes :
    (page : Page) (r : HookRender) (s : HookState) (container : ℕ)
    → s.opened ≡ some container
    → s.dep_active ≡ true
    → r.active ≡ false
    → drawer_effect page r s
      ≡ record (clean_up page container s) { dep_active = false; dep_ref = some r.container_ref }
unfolding drawer_effect leave start
drawer_effect-closes page r s container opened on off = rw (on, off, opened) refl

-- The focus returns to an element that takes it.
return_focus-takes :
    (page : Page) (trigger : ℕ) (s : HookState)
    → takes_focus page s.ledger.dom s.tab_index trigger ≡ true
    → (return_focus page (some trigger) s).focus ≡ some trigger
unfolding focus_on
return_focus-takes page trigger s takes = ground (arith, takes)

module _ (dom : ℕ → ElementState) (page : Page) (r : HookRender) (s : HookState)
    (container trigger : ℕ) where
  focus-clean_up :
      restore_all s.ledger ≡ record { dom = dom; saved = [] }
      → s.trigger ≡ some trigger
      → takes_focus page dom s.tab_index trigger ≡ true
      → (clean_up page container s).focus ≡ some trigger
  unfolding clean_up
  focus-clean_up restored from takes =
      let bare = record s { ledger = restore_all s.ledger } in
      ap (λ o. (return_focus page o bare).focus) from
      ∙ return_focus-takes page trigger bare
          (ap (λ l. takes_focus page l.dom s.tab_index trigger) restored ∙ takes)

  -- A drawer closes. Whatever renders, keys and moves of the focus came before, the render that makes the
  -- hook inactive first gives every element the attributes that it had before the hook's first mark, so
  -- that the element which had the focus when the drawer opened gets it back, if that one takes the focus
  -- in the document without marks; on top of that document stand only the marks of this render.
  pub commit-closes :
      HookReachable dom s (some trigger)
      → s.opened ≡ some container
      → r.active ≡ false
      → takes_focus page dom s.tab_index trigger ≡ true
      → ((commit page r s).focus ≡ some trigger)
        × ((commit page r s).ledger ≡ apply_all (marks r) (record { dom = dom; saved = [] }))
        × ((commit page r s).opened ≡ none)
        × ((commit page r s).trigger ≡ none)
  unfolding commit
  commit-closes reached opened off takes =
      let sound = HookReachable-Sound dom reached in
      let restored = restore_all-Knows dom s.ledger sound.knows in
      let is_open = ap is_some opened in
      rw (drawer_effect-closes page r s container opened (sound.active is_open) off) (
        focus-clean_up restored (sound.remembered is_open) takes,
        ap (apply_all (marks r)) (ledger-clean_up page container s ∙ restored),
        unfold clean_up in refl,
        unfold clean_up in refl,
      )
