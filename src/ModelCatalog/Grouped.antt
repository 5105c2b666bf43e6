-- ===== src/ModelCatalog/Grouped.antt =====
-- frontend/src/lib/modelCatalog.ts, `groupByProvider` against a filter.
use langgraph_agent.Base.{
  String, List, [], ◌∷◌, ◌++◌, map, filter, ◌==◌, eq_iff, ◌or◌, ◌≡◌, refl, ap, fun_ext, sym, ◌∙◌,
  Bool-cases, inl, inr,
}
use langgraph_agent.Dict
use langgraph_agent.Dict.{Dict, dict_laws}
use langgraph_agent.Types.{Provider, ModelEntry}
use langgraph_agent.ModelCatalog.Entries.{fill_buckets, group_by_provider}

abbrev pub of_provider : String → List ModelEntry → List ModelEntry
of_provider id models = filter (λ entry. entry.provider_id == id) models

append_assoc : (xs ys zs : List ModelEntry) → (xs ++ ys) ++ zs ≡ xs ++ (ys ++ zs)
append_assoc [] ys zs = refl
append_assoc (x ∷ xs) ys zs = cc (append_assoc xs ys zs)

append_nil : (xs : List ModelEntry) → xs ++ [] ≡ xs
append_nil [] = refl
append_nil (x ∷ xs) = cc (append_nil xs)

get-fill_buckets :
    (grouped : Dict (List ModelEntry)) (models : List ModelEntry) (id : String)
    → (Dict.get (fill_buckets grouped models) id or [])
      ≡ (Dict.get grouped id or []) ++ of_provider id models
unfolding fill_buckets
get-fill_buckets grouped [] id = sym (append_nil _)
get-fill_buckets grouped (entry ∷ models) id = elim (Bool-cases (entry.provider_id == id)) [
  | inl same ↦
      rw
        (
          get-fill_buckets
              (Dict.put grouped entry.provider_id
                ((Dict.get grouped entry.provider_id or []) ++ entry ∷ []))
              models id,
          Dict.get-put grouped entry.provider_id id
              ((Dict.get grouped entry.provider_id or []) ++ entry ∷ []),
          same,
        )
        (ap (λ k. ((Dict.get grouped k or []) ++ entry ∷ []) ++ of_provider id models)
            ((eq_iff entry.provider_id id).0 same)
          ∙ append_assoc (Dict.get grouped id or []) (entry ∷ []) (of_provider id models))
  | inr other ↦
      rw
        (
          get-fill_buckets
              (Dict.put grouped entry.provider_id
                ((Dict.get grouped entry.provider_id or []) ++ entry ∷ []))
              models id,
          Dict.get-put grouped entry.provider_id id
              ((Dict.get grouped entry.provider_id or []) ++ entry ∷ []),
          other,
        )
        refl
]

-- Each provider's group holds the entries with its id, in the catalog's order; providers keep
-- theirs, and those without entries stay.
pub group_by_provider_lem :
    (providers : List Provider) (models : List ModelEntry)
    → group_by_provider providers models
      ≡ map
          (λ provider. record { provider = provider; models = of_provider provider.id models })
          providers
unfolding group_by_provider
group_by_provider_lem providers models =
    ap (λ f. map (λ provider. record { provider = provider; models = f provider }) providers)
      (fun_ext (λ provider.
        get-fill_buckets Dict.empty models provider.id
        ∙ rw (Dict.get-empty {V = List ModelEntry} provider.id) refl))
