-- ===== src/ModelCatalog/Offered.antt =====
-- frontend/src/lib/modelCatalog.ts: what the Composer's picker offers.
use langgraph_agent.Base.{
  String, Bool, false, ◌&&◌, ◌||◌, List, [], ◌∷◌, map, filter, any, length, ltb, ◌==◌, ◌≡◌, refl,
  sym, ◌∙◌, arith,
}
use langgraph_agent.Types.{Provider, ModelEntry}
use langgraph_agent.ModelCatalog.Entries.{
  ProviderGroup, ModelSelectGroup, select_group, select_groups,
}
use langgraph_agent.ModelCatalog.Grouped.{of_provider, group_by_provider_lem}

-- Some group lists an entry that passes the test.
abbrev pub offers : (ModelEntry → Bool) → List ModelSelectGroup → Bool
offers p groups = any (λ group. any p group.models) groups

any-of_provider :
    (p : ModelEntry → Bool) (id : String) (models : List ModelEntry)
    → any p (of_provider id models) ≡ any (λ entry. p entry && (entry.provider_id == id)) models
any-of_provider p id [] = refl
any-of_provider p id (entry ∷ models) = ground (arith, any-of_provider p id models)

offers-some :
    (p : ModelEntry → Bool) (provider : Provider) (models : List ModelEntry)
    (groups : List ProviderGroup)
    → offers p (
        map select_group (
          filter
            (λ group. ltb 0 (length group.models))
            (record { provider = provider; models = models } ∷ groups)))
      ≡ (any p models
          || offers p (map select_group (filter (λ group. ltb 0 (length group.models)) groups)))
unfolding select_group
offers-some p provider [] groups = refl
offers-some p provider (entry ∷ models) groups = ground arith

-- The picker offers exactly the entries whose provider is in the list: an entry that passes any test
-- is offered if and only if such an entry of a listed provider is in the catalog.
pub offers-select_groups :
    (p : ModelEntry → Bool) (providers : List Provider) (models : List ModelEntry)
    → offers p (select_groups providers models)
      ≡ any
          (λ entry. p entry && any (λ provider. entry.provider_id == provider.id) providers)
          models
unfolding select_groups
offers-select_groups p providers models = rw (group_by_provider_lem providers models) (go providers)
  where
    nobody : (ms : List ModelEntry) → false ≡ any (λ entry. p entry && false) ms
    nobody [] = refl
    nobody (m ∷ ms) = ground (arith, nobody ms)

    spread :
        (q r : ModelEntry → Bool) (ms : List ModelEntry)
        → any (λ entry. p entry && (q entry || r entry)) ms
          ≡ (any (λ entry. p entry && q entry) ms || any (λ entry. p entry && r entry) ms)
    spread q r [] = refl
    spread q r (m ∷ ms) = ground (arith, spread q r ms)

    go :
        (ps : List Provider)
        → offers p (
            map select_group (
              filter
                (λ group. ltb 0 (length group.models))
                (map
                  (λ provider. record {
                    provider = provider;
                    models = of_provider provider.id models;
                  })
                  ps)))
          ≡ any (λ entry. p entry && any (λ provider. entry.provider_id == provider.id) ps) models
    go [] = nobody models
    go (provider ∷ ps) =
        offers-some p provider (of_provider provider.id models) (
          map (λ provider. record { provider = provider; models = of_provider provider.id models })
            ps)
        ∙ rw (any-of_provider p provider.id models, go ps)
            (sym (
              spread (λ entry. entry.provider_id == provider.id)
                (λ entry. any (λ other. entry.provider_id == other.id) ps) models))
