-- ===== src/DashTabs/Labels.antt =====
-- frontend/src/lib/dashTabs.ts: two opened files never have the same label.
use langgraph_agent.Base.{
  String, true, not, ◌&&◌, none, some, List, [], ◌∷◌, any, includes, ◌==◌, eq_iff, or_text, ◌≡◌,
  ◌≢◌, refl, sym, ap, ◌∙◌, arith, inl, inr, Bool-cases, Option-cases,
}
use langgraph_agent.DashTabs.{after_last_slash, base_name, file_tab_label}

after_last_slash_stop : (s t : String) → after_last_slash s ≡ some t → after_last_slash t ≡ none
unfolding after_last_slash
after_last_slash_stop String.[] t h = ground arith
after_last_slash_stop (String.◌∷◌ c s) t h =
    ground (arith, after_last_slash_stop s t, Option-cases (after_last_slash s))

base_name-none : (path : String) → after_last_slash path ≡ none → base_name path ≡ path
unfolding base_name
base_name-none path h = ground (arith, h)

base_name-some :
    (path name : String) → after_last_slash path ≡ some name → base_name path ≡ or_text name path
unfolding base_name
base_name-some path name h = ground (arith, h)

base_name_idem : (path : String) → base_name (base_name path) ≡ base_name path
base_name_idem path = elim (Option-cases (after_last_slash path)) [
  | inl e ↦ ap base_name (base_name-none path e)
  | inr (name, e) ↦
      ground
        (arith, base_name-some path name e, base_name-none name (after_last_slash_stop path name e))
]

base_name-label :
    (p q : String) (opened : List String)
    → includes opened q ≡ true
    → p ≢ q
    → base_name p ≡ base_name q
    → file_tab_label p opened ≡ p
unfolding file_tab_label
base_name-label p q opened h ne same = rw (shares opened h) refl
  where
    here : (o : String) → o ≡ q → (not (o == p) && (base_name o == base_name p)) ≡ true
    here o e =
        ground
          (arith, eq_iff o p, eq_iff (base_name o) (base_name p), ap base_name e ∙ sym same, ne, e)

    shares :
        (os : List String)
        → includes os q ≡ true
        → any (λ other. not (other == p) && (base_name other == base_name p)) os ≡ true
    shares [] k = ground arith
    shares (o ∷ os) k = ground (arith, shares os, eq_iff o q, here o, k)

base_name-file_tab_label :
    (p : String) (opened : List String) → base_name (file_tab_label p opened) ≡ base_name p
unfolding file_tab_label
base_name-file_tab_label p opened =
    elim (Bool-cases (any (λ other. not (other == p) && (base_name other == base_name p)) opened)) [
      | inl e ↦ rw e refl
      | inr e ↦ rw e (base_name_idem p)
    ]

-- Two different files that are both opened have different labels on the tab bar.
pub file_tab_label-distinct :
    (p q : String) (opened : List String)
    → includes opened p ≡ true
    → includes opened q ≡ true
    → p ≢ q
    → file_tab_label p opened ≢ file_tab_label q opened
file_tab_label-distinct p q opened hp hq ne same = ne (
    sym (base_name-label p q opened hq ne bases)
    ∙ same
    ∙ base_name-label q p opened hp (λ e. ne (sym e)) (sym bases))
  where
    bases : base_name p ≡ base_name q
    bases =
        sym (base_name-file_tab_label p opened)
        ∙ ap base_name same
        ∙ base_name-file_tab_label q opened
