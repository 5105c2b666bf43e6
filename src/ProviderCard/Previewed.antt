-- ===== src/ProviderCard/Previewed.antt =====
-- A preview of frontend/src/components/settings/ProviderCard.tsx belongs to the configuration of the card.
use langgraph_agent.Base.{
  ℕ, ◌≤◌, ltb, leb, eqb, ◌+◌, any, Bool, true, false, none, List, [], ◌∷◌, all, ◌≡◌, refl, arith,
  eqb_refl, eqb_iff, Bool-cases, Option-cases, inl, inr, Option, some, ◌or◌,
}
use langgraph_agent.Types.{DiscoverCandidate}
use langgraph_agent.ModelStore.{Answer}
use langgraph_agent.ProviderCard.{
  take_candidates, CardState, CardCall, card_call, run_card, reset_card, initial_card,
  start_discover, finish_discover, pick,
}

-- A call that begins no discovery, and answers only to one that began before the number.
abbrev pub is_older : ℕ → CardCall → Bool
is_older n CardCall.discovered = false
is_older n (CardCall.answered seq answer) = ltb seq n
is_older n _ = true

finish_discover-other :
    (seq : ℕ) (answer : _) (s : CardState)
    → eqb seq s.discovery_seq ≡ false
    → finish_discover seq answer s ≡ s
unfolding finish_discover
finish_discover-other seq answer s h = rw h refl

no_preview :
    (n : ℕ) (call : CardCall) (s : CardState)
    → n ≤ s.discovery_seq
    → s.candidates ≡ none
    → is_older n call ≡ true
    → ((card_call call s).candidates ≡ none) × (n ≤ (card_call call s).discovery_seq)
unfolding card_call reset_card pick
no_preview n CardCall.configured s h e older = (refl, omega arith)
no_preview n CardCall.discovered s h e older = cc older
no_preview n (CardCall.answered seq answer) s h e older =
    rw (finish_discover-other seq answer s (ground (arith, h, older))) (e, h)
no_preview n (CardCall.toggled model) s h e older = (e, h)
no_preview n CardCall.discarded s h e older = (refl, h)

no_preview-run :
    (n : ℕ) (calls : List CardCall) (s : CardState)
    → n ≤ s.discovery_seq
    → s.candidates ≡ none
    → all (is_older n) calls ≡ true
    → (run_card calls s).candidates ≡ none
unfolding run_card
no_preview-run n [] s h e older = e
no_preview-run n (c ∷ calls) s h e older =
    no_preview-run n calls (card_call c s) (no_preview n c s h e (ground (arith, older))).1
      (no_preview n c s h e (ground (arith, older))).0 (ground (arith, older))

-- The numbers of the discoveries that calls begin.
unfoldable pub begun : List CardCall → CardState → List ℕ
unfolding card_call
begun [] s = []
begun (CardCall.discovered ∷ calls) s =
    (card_call CardCall.discovered s).discovery_seq ∷ begun calls (card_call CardCall.discovered s)
begun (c ∷ calls) s = begun calls (card_call c s)

-- A call that begins no discovery, and answers only to one of those.
abbrev pub answers_only : List ℕ → CardCall → Bool
answers_only numbers CardCall.discovered = false
answers_only numbers (CardCall.answered seq answer) = any (λ n. eqb n seq) numbers
answers_only numbers _ = true

seq-take_candidates :
    (list : List DiscoverCandidate) (s : CardState)
    → (take_candidates list s).discovery_seq ≡ s.discovery_seq
unfolding take_candidates
seq-take_candidates [] s = refl
seq-take_candidates (c ∷ list) s = refl

seq-answer :
    (answer : Option (Answer (Option (List DiscoverCandidate)))) (s : CardState)
    → (finish_discover s.discovery_seq answer s).discovery_seq ≡ s.discovery_seq
unfolding finish_discover
seq-answer none s = rw (eqb_refl s.discovery_seq) refl
seq-answer (some r) s = elim (Option-cases r.body) [
  | inl refused ↦ rw (eqb_refl s.discovery_seq, refused) refl
  | inr found ↦ rw (eqb_refl s.discovery_seq, found.1) (seq-take_candidates (found.0 or []) s)
]

seq-finish_discover :
    (seq : ℕ) (answer : Option (Answer (Option (List DiscoverCandidate)))) (s : CardState)
    → (finish_discover seq answer s).discovery_seq ≡ s.discovery_seq
seq-finish_discover seq answer s = elim (Bool-cases (eqb seq s.discovery_seq)) [
  | inl now ↦ rw ((eqb_iff seq s.discovery_seq).0 now) (seq-answer answer s)
  | inr old ↦ rw (finish_discover-other seq answer s old) refl
]

seq-card_call :
    (call : CardCall) (s : CardState) → s.discovery_seq ≤ (card_call call s).discovery_seq
unfolding card_call reset_card start_discover pick
seq-card_call CardCall.configured s = omega arith
seq-card_call CardCall.discovered s = omega arith
seq-card_call (CardCall.answered seq answer) s = omega (arith, seq-finish_discover seq answer s)
seq-card_call (CardCall.toggled model) s = omega arith
seq-card_call CardCall.discarded s = omega arith

seq-run_card :
    (calls : List CardCall) (s : CardState) → s.discovery_seq ≤ (run_card calls s).discovery_seq
unfolding run_card
seq-run_card [] s = omega arith
seq-run_card (c ∷ calls) s = omega (arith, seq-card_call c s, seq-run_card calls (card_call c s))

begun-le :
    (calls : List CardCall) (s : CardState)
    → all (λ n. leb n (run_card calls s).discovery_seq) (begun calls s) ≡ true
unfolding begun run_card
begun-le [] s = refl
begun-le (CardCall.discovered ∷ calls) s = ground (
  arith,
  seq-run_card calls (card_call CardCall.discovered s),
  begun-le calls (card_call CardCall.discovered s),
)
begun-le (CardCall.configured ∷ calls) s = begun-le calls (card_call CardCall.configured s)
begun-le (CardCall.answered seq answer ∷ calls) s =
    begun-le calls (card_call (CardCall.answered seq answer) s)
begun-le (CardCall.toggled model ∷ calls) s = begun-le calls (card_call (CardCall.toggled model) s)
begun-le (CardCall.discarded ∷ calls) s = begun-le calls (card_call CardCall.discarded s)

one_of-lt :
    (numbers : List ℕ) (m seq : ℕ)
    → all (λ n. leb n m) numbers ≡ true
    → any (λ n. eqb n seq) numbers ≡ true
    → ltb seq (m + 1) ≡ true
one_of-lt [] m seq bound only = cc only
one_of-lt (n ∷ numbers) m seq bound only = ground (arith, one_of-lt numbers m seq)

older-answers :
    (numbers : List ℕ) (m : ℕ) (call : CardCall)
    → all (λ n. leb n m) numbers ≡ true
    → answers_only numbers call ≡ true
    → is_older (m + 1) call ≡ true
older-answers numbers m CardCall.configured bound only = refl
older-answers numbers m CardCall.discovered bound only = cc only
older-answers numbers m (CardCall.answered seq answer) bound only =
    one_of-lt numbers m seq bound only
older-answers numbers m (CardCall.toggled model) bound only = refl
older-answers numbers m CardCall.discarded bound only = refl

older-all :
    (numbers : List ℕ) (m : ℕ) (calls : List CardCall)
    → all (λ n. leb n m) numbers ≡ true
    → all (answers_only numbers) calls ≡ true
    → all (is_older (m + 1)) calls ≡ true
older-all numbers m [] bound only = refl
older-all numbers m (c ∷ calls) bound only =
    ground (arith, older-answers numbers m c bound, older-all numbers m calls bound)

-- After a change of the provider's configuration, and until a discovery begins, nothing shows a preview:
-- no answer to a discovery that was begun before the change does, whatever happened before, in whatever
-- order the answers come and whatever is picked, discarded or configured in between.
pub candidates-run_card :
    (before after : List CardCall)
    → all (answers_only (begun before initial_card)) after ≡ true
    → (run_card after (card_call CardCall.configured (run_card before initial_card))).candidates
      ≡ none
unfolding card_call reset_card
candidates-run_card before after only =
    let s = run_card before initial_card in
    no_preview-run (s.discovery_seq + 1) after (reset_card s) (omega arith) refl (
      older-all (begun before initial_card) s.discovery_seq after (begun-le before initial_card)
        only)
