-- ===== src/DashTabs/Closing.antt =====
-- frontend/src/lib/dashTabs.ts: the tab that is shown after one is closed.
use langgraph_agent.Base.{
  ℕ, zero, suc, String, Bool, true, false, not, ◌&&◌, Option, none, some, List, [], ◌∷◌, get_elem?,
  includes, ◌==◌, eq_iff, or_else, ◌≡◌, ◌≢◌, refl, ap, arith, inl, inr, ◌⊎◌, Bool-cases,
  Option-cases,
}
use langgraph_agent.DashTabs.{
  DashTab, file, file_tab_path, file_tab_id, close_file_tab, index_of, left_of, is_file,
  tab_or_files, tab_after_closing,
}

-- A tab is on the bar: a fixed pane always, a file when it is opened.
unfoldable pub on_bar : List String → DashTab → Bool
unfolding file_tab_path
on_bar opened tab = elim (file_tab_path tab) [ none ↦ true | some path ↦ includes opened path ]

includes-close :
    (opened : List String) (closed path : String)
    → includes (close_file_tab opened closed) path ≡ (includes opened path && not (path == closed))
unfolding close_file_tab
includes-close [] closed path = refl
includes-close (o ∷ os) closed path =
    ground
      (arith, includes-close os closed path, eq_iff o path, eq_iff o closed, eq_iff path closed)

includes-get_elem :
    (opened : List String) (i : ℕ) (path : String)
    → get_elem? opened i ≡ some path
    → includes opened path ≡ true
includes-get_elem [] i path h = ground arith
includes-get_elem (o ∷ os) zero path h = ground (arith, eq_iff o path)
includes-get_elem (o ∷ os) (suc i) path h = ground (arith, includes-get_elem os i path h)

bar-tab_or_files :
    (opened : List String) (next : Option String)
    → ((path : String) → next ≡ some path → includes opened path ≡ true)
    → on_bar opened (tab_or_files next) ≡ true
unfolding on_bar file_tab_path file_tab_id
bar-tab_or_files opened none h = refl
bar-tab_or_files opened (some path) h = h path refl

left_of-includes :
    (opened : List String) (i : ℕ) (path : String)
    → or_else (left_of opened i) (get_elem? opened i) ≡ some path
    → includes opened path ≡ true
unfolding left_of
left_of-includes opened zero path h = includes-get_elem opened zero path h
left_of-includes opened (suc i) path h = ground (
  arith,
  includes-get_elem opened i path,
  includes-get_elem opened (suc i) path,
  Option-cases (get_elem? opened i),
)

bar-close :
    (opened : List String) (closed : String) (active : DashTab)
    → is_file active closed ≡ false
    → on_bar opened active ≡ true
    → on_bar (close_file_tab opened closed) active ≡ true
unfolding on_bar file_tab_path
bar-close opened closed (file path) h k = ground (arith, includes-close opened closed path)
bar-close opened closed _ h k = refl

index_of-none :
    (opened : List String) (path : String)
    → index_of opened path ≡ none
    → includes opened path ≡ false
unfolding index_of
index_of-none [] path h = refl
index_of-none (o ∷ os) path h =
    ground (arith, index_of-none os path, Option-cases (index_of os path))

is_file-bar :
    (opened : List String) (path : String) (tab : DashTab)
    → is_file tab path ≡ true
    → (tab ≡ file path) × (on_bar opened tab ≡ includes opened path)
unfolding on_bar file_tab_path
is_file-bar opened path (file p) h = (ap file e, ap (λ q. includes opened q) e)
  where
    e : p ≡ path
    e = (eq_iff p path).0 h
is_file-bar opened path _ h = ground arith

stays :
    (opened : List String) (closed : String) (active : DashTab)
    → (index_of opened closed ≡ none) ⊎ (is_file active closed ≡ false)
    → tab_after_closing opened closed active ≡ active
unfolding tab_after_closing
stays opened closed active h = ground (arith, h, Option-cases (index_of opened closed))

moves :
    (opened : List String) (closed : String) (active : DashTab) (i : ℕ)
    → index_of opened closed ≡ some i
    → is_file active closed ≡ true
    → tab_after_closing opened closed active
      ≡ tab_or_files (
          or_else
            (left_of (close_file_tab opened closed) i)
            (get_elem? (close_file_tab opened closed) i))
unfolding tab_after_closing
moves opened closed active i e same = ground (arith, e, same)

-- After a tab is closed, the tab shown is on the bar whenever the one shown before was, and the tab
-- shown before stays shown unless it is the closed one.
pub tab_after_closing_lem :
    (opened : List String) (closed : String) (active : DashTab)
    → on_bar opened active ≡ true
    → (on_bar (close_file_tab opened closed) (tab_after_closing opened closed active) ≡ true)
      × (active ≢ file closed → tab_after_closing opened closed active ≡ active)
tab_after_closing_lem opened closed active h = elim (Bool-cases (is_file active closed)) [
  | inr other ↦
      rw (stays opened closed active (inr other))
        (bar-close opened closed active other h, λ ne. refl)
  | inl same ↦ elim (Option-cases (index_of opened closed)) [
    | inl e ↦
        ground (arith, is_file-bar opened closed active same, h, index_of-none opened closed e)
    | inr (i, e) ↦ (
      rw (moves opened closed active i e same) (
          bar-tab_or_files (close_file_tab opened closed) _
            (left_of-includes (close_file_tab opened closed) i)),
      λ ne. absurd (ne (is_file-bar opened closed active same).0),
    )
  ]
]
