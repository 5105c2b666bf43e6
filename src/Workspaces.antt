-- ===== src/Workspaces.antt =====
-- frontend/src/lib/workspaces.ts, lines 1 to 13: the list of recent directories.
use langgraph_agent.Base.{
  ℕ, zero, suc, ◌≤◌, ◌<◌, String, Bool, true, false, not, ◌&&◌, some, List, [], ◌∷◌, filter,
  includes, take, length, get_elem?, ◌==◌, trim, truthy, if◌then◌else◌, ◌≡◌, refl, arith,
}

abbrev pub max_recent : ℕ
max_recent = 8

unfoldable pub add_recent_workspace : List String → String → ℕ → List String
unfolding trim
add_recent_workspace recents dir limit =
    let trimmed = trim dir in
    if truthy trimmed
    then take limit (trimmed ∷ filter (λ path. not (path == trimmed)) recents)
    else recents

-- No directory twice.
abbrev pub distinct : List String → Bool
distinct [] = true
distinct (x ∷ xs) = not (includes xs x) && distinct xs

includes-filter :
    (p : String → Bool) (xs : List String) (x : String)
    → includes xs x ≡ false
    → includes (filter p xs) x ≡ false
includes-filter p [] x h = refl
includes-filter p (y ∷ xs) x h = ground (arith, includes-filter p xs x)

distinct-filter :
    (p : String → Bool) (xs : List String) → distinct xs ≡ true → distinct (filter p xs) ≡ true
distinct-filter p [] h = refl
distinct-filter p (x ∷ xs) h = ground (arith, distinct-filter p xs, includes-filter p xs x)

includes-removed :
    (xs : List String) (x : String) → includes (filter (λ path. not (path == x)) xs) x ≡ false
includes-removed [] x = refl
includes-removed (y ∷ xs) x = ground (arith, includes-removed xs x)

includes-take :
    (n : ℕ) (xs : List String) (x : String) → includes xs x ≡ false → includes (take n xs) x ≡ false
includes-take zero xs x h = refl
includes-take (suc n) [] x h = refl
includes-take (suc n) (y ∷ xs) x h = ground (arith, includes-take n xs x)

distinct-take : (n : ℕ) (xs : List String) → distinct xs ≡ true → distinct (take n xs) ≡ true
distinct-take zero xs h = refl
distinct-take (suc n) [] h = refl
distinct-take (suc n) (x ∷ xs) h = ground (arith, distinct-take n xs, includes-take n xs x)

length-take : (n : ℕ) (xs : List String) → length (take n xs) ≤ n
length-take zero xs = omega arith
length-take (suc n) [] = omega arith
length-take (suc n) (x ∷ xs) = omega (arith, length-take n xs)

-- With a positive limit, adding a directory that is not blank puts its trimmed path first, keeps the
-- list within the limit, and keeps a list without repetitions free of them.
pub add_recent_workspace_lem :
    (recents : List String) (dir : String) (limit : ℕ)
    → truthy (trim dir) ≡ true
    → 0 < limit
    → distinct recents ≡ true
    → (get_elem? (add_recent_workspace recents dir limit) 0 ≡ some (trim dir))
      × (length (add_recent_workspace recents dir limit) ≤ limit)
      × (distinct (add_recent_workspace recents dir limit) ≡ true)
unfolding add_recent_workspace
add_recent_workspace_lem recents dir zero text h d = absurd (omega arith)
add_recent_workspace_lem recents dir (suc n) text h d = rw text (
  refl,
  length-take (suc n) (trim dir ∷ others),
  distinct-take (suc n) (trim dir ∷ others) (
      ground (
        arith,
        includes-removed recents (trim dir),
        distinct-filter (λ path. not (path == trim dir)) recents d,
      )),
)
  where
    others : List String
    others = filter (λ path. not (path == trim dir)) recents
