-- ===== src/ReduceTask/Replay/ToolCalls.antt =====
-- A second `tool_call` or `tool_result` of the same call.
use langgraph_agent.Base.{
  String, true, false, List, [], ◌∷◌, ◌++◌, map, any, ◌==◌, ◌≡◌, refl, ◌∙◌, ap, arith, eq_refl,
  Bool-cases, inl, inr, any-append, map_idem, any-map, map-none, map-append_one,
}
use langgraph_agent.Types.{Task, StepRecord, ToolCallRecord, Member, missing, null, value}
use langgraph_agent.ReduceTask.Calls.{
  member_or, merge_call, refresh_call, put_call, record_call, update_last, on_tool_call,
  settle_call, settle_step, on_tool_result, holds_call, steps_or_first,
}

module _ {A : Type 0} where
  pub update_last_idem :
      (f : A → A)
      → ((x : A) → f (f x) ≡ f x)
      → (xs : List A) → update_last f (update_last f xs) ≡ update_last f xs
  unfolding update_last
  update_last_idem f h [] = refl
  update_last_idem f h (x ∷ []) = ap (◌∷ []) (h x)
  update_last_idem f h (x ∷ y ∷ []) = ap (λ z. x ∷ z ∷ []) (h y)
  update_last_idem f h (x ∷ y ∷ z ∷ xs) = ap (x ∷◌) (update_last_idem f h (y ∷ z ∷ xs))

member_or_idem : {A : Type 0} (a b : Member A) → member_or a (member_or a b) ≡ member_or a b
unfolding member_or
member_or_idem missing b = refl
member_or_idem null b = refl
member_or_idem (value a) b = refl

member_or_self : {A : Type 0} (a : Member A) → member_or a a ≡ a
unfolding member_or
member_or_self missing = refl
member_or_self null = refl
member_or_self (value a) = refl

refresh_call_idem :
    (rec tc : ToolCallRecord) → refresh_call rec (refresh_call rec tc) ≡ refresh_call rec tc
unfolding refresh_call
refresh_call_idem rec tc = ground (arith, eq_refl rec.id, member_or_idem rec.error tc.error)

id-refresh_call :
    (rec tc : ToolCallRecord) → ((refresh_call rec tc).id == rec.id) ≡ (tc.id == rec.id)
unfolding refresh_call
id-refresh_call rec tc = ground (arith, eq_refl rec.id)

refresh_call_self : (rec : ToolCallRecord) → refresh_call rec rec ≡ rec
unfolding refresh_call
refresh_call_self rec = rw eq_refl (λ i. record rec { error = member_or_self rec.error i })

pub put_call-present :
    (rec : ToolCallRecord) (calls : List ToolCallRecord)
    → any (λ tc. tc.id == rec.id) calls ≡ true
    → put_call rec calls ≡ map (refresh_call rec) calls
unfolding put_call
put_call-present rec calls h = rw h

pub put_call-absent :
    (rec : ToolCallRecord) (calls : List ToolCallRecord)
    → any (λ tc. tc.id == rec.id) calls ≡ false
    → put_call rec calls ≡ calls ++ rec ∷ []
unfolding put_call
put_call-absent rec calls h = rw h

-- After `put_call` the list holds a call with the id.
pub any-put_call :
    (rec : ToolCallRecord) (calls : List ToolCallRecord)
    → any (λ tc. tc.id == rec.id) (put_call rec calls) ≡ true
any-put_call rec calls = elim (Bool-cases (any (λ tc. tc.id == rec.id) calls)) [
  | inl old ↦
      rw (put_call-present rec calls old)
        (any-map _ (refresh_call rec) (id-refresh_call rec) calls ∙ old)
  | inr new ↦ rw (put_call-absent rec calls new) (any-append _ calls _ ∙ rw (new, eq_refl rec.id))
]

map-refresh_call-absent :
    (rec : ToolCallRecord) (calls : List ToolCallRecord)
    → any (λ tc. tc.id == rec.id) calls ≡ false
    → map (refresh_call rec) calls ≡ calls
unfolding refresh_call
map-refresh_call-absent rec calls new = map-none _ (λ tc. merge_call tc rec) calls new

map-refresh_call :
    (rec : ToolCallRecord) (calls : List ToolCallRecord)
    → map (refresh_call rec) (put_call rec calls) ≡ put_call rec calls
map-refresh_call rec calls = elim (Bool-cases (any (λ tc. tc.id == rec.id) calls)) [
  | inl old ↦
      rw (put_call-present rec calls old)
        (map_idem (refresh_call rec) (refresh_call_idem rec) calls)
  | inr new ↦
      rw (put_call-absent rec calls new) (map-append_one (refresh_call rec) calls rec ∙ kept new)
]
  where
    kept :
        any (λ tc. tc.id == rec.id) calls ≡ false
        → map (refresh_call rec) calls ++ refresh_call rec rec ∷ [] ≡ calls ++ rec ∷ []
    kept new = cc (map-refresh_call-absent rec calls new, refresh_call_self rec)

pub put_call_idem :
    (rec : ToolCallRecord) (calls : List ToolCallRecord)
    → put_call rec (put_call rec calls) ≡ put_call rec calls
put_call_idem rec calls =
    put_call-present rec (put_call rec calls) (any-put_call rec calls) ∙ map-refresh_call rec calls

record_call_idem :
    (rec : ToolCallRecord) (s : StepRecord)
    → record_call rec (record_call rec s) ≡ record_call rec s
unfolding record_call
record_call_idem rec s =
    λ i. record (record_call rec s) { tool_calls = put_call_idem rec s.tool_calls i }

steps_or_first-update_last :
    (f : StepRecord → StepRecord) (s : StepRecord) (ts : List StepRecord)
    → steps_or_first (update_last f (s ∷ ts)) ≡ update_last f (s ∷ ts)
unfolding update_last
steps_or_first-update_last f s [] = refl
steps_or_first-update_last f s (t ∷ ts) = refl

update_first_idem :
    (f : StepRecord → StepRecord)
    → ((s : StepRecord) → f (f s) ≡ f s)
    → (ts : List StepRecord)
    → update_last f (steps_or_first (update_last f (steps_or_first ts)))
      ≡ update_last f (steps_or_first ts)
update_first_idem f h [] = rw steps_or_first-update_last (update_last_idem f h _)
update_first_idem f h (t ∷ ts) = rw steps_or_first-update_last (update_last_idem f h _)

pub lem-on_tool_call :
    (rec : ToolCallRecord) (task : Task)
    → on_tool_call rec task
      ≡ record task { steps = update_last (record_call rec) (steps_or_first task.steps) }
unfolding on_tool_call
lem-on_tool_call rec task = refl

pub on_tool_call_idem :
    (rec : ToolCallRecord) (task : Task)
    → on_tool_call rec (on_tool_call rec task) ≡ on_tool_call rec task
on_tool_call_idem rec task = simp lem-on_tool_call (λ i. record task {
  steps = update_first_idem (record_call rec) (record_call_idem rec) task.steps i;
})

settle_call_idem :
    (rec tc : ToolCallRecord) → settle_call rec (settle_call rec tc) ≡ settle_call rec tc
unfolding settle_call
settle_call_idem rec tc = ground arith

id-settle_call : (rec tc : ToolCallRecord) → (settle_call rec tc).id ≡ tc.id
unfolding settle_call
id-settle_call rec tc = ground arith

-- A result changes neither which calls there are nor their order.
pub holds_call-settle_step :
    (rec : ToolCallRecord) (id : String) (s : StepRecord)
    → holds_call id (settle_step rec s) ≡ holds_call id s
unfolding holds_call
holds_call-settle_step rec id s = elim (Bool-cases (holds_call rec.id s)) [
  | inl has ↦
      unfold settle_step in
      rw has
        (any-map _ (settle_call rec) (λ tc. ap (λ k. k == id) (id-settle_call rec tc)) s.tool_calls)
  | inr lacks ↦ unfold settle_step in rw lacks refl
]

pub settle_step-holds :
    (rec : ToolCallRecord) (s : StepRecord)
    → holds_call rec.id s ≡ true
    → settle_step rec s ≡ record s { tool_calls = map (settle_call rec) s.tool_calls }
unfolding settle_step
settle_step-holds rec s has = rw has

pub settle_step-lacks :
    (rec : ToolCallRecord) (s : StepRecord) → holds_call rec.id s ≡ false → settle_step rec s ≡ s
unfolding settle_step
settle_step-lacks rec s lacks = rw lacks

settle_step_idem :
    (rec : ToolCallRecord) (s : StepRecord)
    → settle_step rec (settle_step rec s) ≡ settle_step rec s
settle_step_idem rec s = elim (Bool-cases (holds_call rec.id s)) [
  | inl has ↦
      settle_step-holds rec _ (holds_call-settle_step rec rec.id s ∙ has)
      ∙ simp (settle_step-holds rec s has) (λ i. record s {
        tool_calls = map_idem (settle_call rec) (settle_call_idem rec) s.tool_calls i;
      })
  | inr lacks ↦ settle_step-lacks rec _ (holds_call-settle_step rec rec.id s ∙ lacks)
]

pub on_tool_result_idem :
    (rec : ToolCallRecord) (task : Task)
    → on_tool_result rec (on_tool_result rec task) ≡ on_tool_result rec task
on_tool_result_idem rec task =
    unfold on_tool_result in
    λ i. record task { steps = map_idem (settle_step rec) (settle_step_idem rec) task.steps i }
