-- ===== src/Dict.antt =====
-- A plain JavaScript object used as a map from ids. The representation is private: clients have
-- `dict_laws`.
mod Entries
use Entries.{find, write, without, members, find-write, find-without, write-find, any-members}
use langgraph_agent.Base.{
  String, Bool, true, false, Option, none, some, List, [], ◌∷◌, any, includes, ◌==◌, ◌||◌,
  if◌then◌else◌, ◌≡◌, refl, arith,
}

pub record Dict {ℓ} (V : Type ℓ) : Type ℓ where
  entries : List (String × V)

module _ {ℓ} {V : Type ℓ} where
  pub empty : Dict V
  empty = record { entries = [] }

  -- `d[k]`
  pub get : Dict V → String → Option V
  get d k = find k d.entries

  -- `{ ...d, [k]: v }`
  pub put : Dict V → String → V → Dict V
  put d k v = record { entries = write k v d.entries }

  -- `delete d[k]`
  pub remove : Dict V → String → Dict V
  remove d k = record { entries = without k d.entries }

  -- `Object.values(d)`
  pub values : Dict V → List V
  values d = members d.entries

  -- `for (const id of ids) delete d[id]`
  pub remove_all : Dict V → List String → Dict V
  remove_all d [] = d
  remove_all d (k ∷ ks) = remove_all (remove d k) ks

  pub get-put :
      (d : Dict V) (k j : String) (v : V) → get (put d k v) j ≡ (if k == j then some v else get d j)
  unfolding get put
  get-put d k j v = find-write k j v d.entries

  pub get-remove :
      (d : Dict V) (k j : String) → get (remove d k) j ≡ (if k == j then none else get d j)
  unfolding get remove
  get-remove d k j = find-without k j d.entries

  pub get-remove_all :
      (d : Dict V) (ks : List String) (j : String)
      → get (remove_all d ks) j ≡ (if includes ks j then none else get d j)
  unfolding remove_all
  get-remove_all d [] j = refl
  get-remove_all d (k ∷ ks) j = ground (arith, get-remove_all (remove d k) ks j, get-remove d k j)

  pub put-get : (d : Dict V) (k : String) (v : V) → get d k ≡ some v → put d k v ≡ d
  unfolding get put
  put-get d k v h = λ i. record { entries = write-find k v d.entries h i }

  pub any-values :
      (p : V → Bool) (d : Dict V) (k : String) (v : V)
      → get d k ≡ some v
      → p v ≡ true
      → any p (values d) ≡ true
  unfolding get values
  any-values p d k v h t = any-members p k v d.entries h t

pub get-empty {ℓ} : {V : Type ℓ} (k : String) → get (empty {V = V}) k ≡ none
unfolding get empty find
get-empty k = refl

pub ruleset dict_laws = (get-empty, get-put, get-remove, get-remove_all)
