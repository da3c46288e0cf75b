-- ===== src/Ingester/Conserved.antt =====
-- internal/pipeline/ingester/ingester.go: what buildEventModels sends to the balances is what its
-- models say.
use multichain_indexer.Prelude.{
  if◌then◌else◌, Bool-cases, ℤ, pos, ◌+ℤ◌, eq_of_parts, +ℤ_parts, Text, codes, trim_space, ℕ, ◌≡◌,
  sym, ap, ◌∙◌, inl, inr, true, Option, none, some, List, [], ◌∷◌, ◌++◌, arith,
}
use multichain_indexer.Prelude.Decimal.{negate, parse_big}
use multichain_indexer.Identity.{negate_decimal_string, is_staking_activity}
use multichain_indexer.Store.{BalanceKey, same_key}
use multichain_indexer.Store.Sums.{at_key}
use multichain_indexer.Store.Adjust.{same_key→eq, +ℤ_zero}
use multichain_indexer.Ingester.Amounts.{add_decimal_strings}
use multichain_indexer.Ingester.Collect.{EventContext, has_text}
use multichain_indexer.Ingester.Build.{
  Prefetched, AdjustmentKey, AdjustmentAccum, EventModel, Building, same_adjustment, merge_accum,
  add_delta, event_model, adjustment_key, accum_of, adjusted, with_stake, with_model, with_balance,
  apply_model, add_model, judged, identified, build_event, build_event_models,
}
use multichain_indexer.Ingester.Trimmed.{none-some, bind-some, some-injective, stake_delta-negate}
use multichain_indexer.Ingester.Balanced.{to_left}

unfoldable pub aggregated_at : BalanceKey → List (AdjustmentKey × AdjustmentAccum) → ℤ
aggregated_at k [] = pos 0
aggregated_at k ((own, a) ∷ ds) = at_key k own.key a.delta +ℤ aggregated_at k ds

unfoldable pub number_of : Option ℤ → ℤ
number_of none = pos 0
number_of (some d) = d

-- What an applied model moves: its delta, and the same out of the staked balance for staking.
unfoldable pub model_at : BalanceKey → EventModel → ℤ
model_at k m =
    let d = number_of (parse_big (trim_space m.event.delta)) in
    at_key k (adjustment_key m []).key d
    +ℤ (if is_staking_activity m.event.activity_type
        then at_key k (adjustment_key m (codes "staked")).key (negate d)
        else pos 0)

unfoldable pub models_at : BalanceKey → List EventModel → ℤ
models_at k [] = pos 0
models_at k (m ∷ ms) = (if m.balance_applied then model_at k m else pos 0) +ℤ models_at k ms

unfoldable pub Conserved : Building → Type 0
Conserved s = (k : BalanceKey) → aggregated_at k s.aggregated_deltas ≡ models_at k s.event_models

+ℤ_comm : (a b : ℤ) → a +ℤ b ≡ b +ℤ a
+ℤ_comm a b = eq_of_parts _ _ (omega (arith, +ℤ_parts a b, +ℤ_parts b a))

+ℤ_last : (a b c : ℤ) → (a +ℤ b) +ℤ c ≡ (a +ℤ c) +ℤ b
+ℤ_last a b c =
    eq_of_parts _ _
      (omega (arith, +ℤ_parts a b, +ℤ_parts a c, +ℤ_parts (a +ℤ b) c, +ℤ_parts (a +ℤ c) b))

models_at-snoc :
    (k : BalanceKey) (ms : List EventModel) (m : EventModel)
    → models_at k (ms ++ m ∷ [])
      ≡ models_at k ms +ℤ (if m.balance_applied then model_at k m else pos 0)
unfolding models_at
models_at-snoc k [] m = +ℤ_comm _ _
models_at-snoc k (x ∷ ms) m = simp (models_at-snoc k ms m) (to_left _ _ _)

same_adjustment-key : (a b : AdjustmentKey) → same_adjustment a b ≡ true → a.key ≡ b.key
unfolding same_adjustment
same_adjustment-key a b h = ground (arith, same_key→eq a.key b.key)

at_key-sum :
    (k own : BalanceKey) (a b : ℤ) → at_key k own (a +ℤ b) ≡ at_key k own a +ℤ at_key k own b
unfolding at_key
at_key-sum k own a b = elim (Bool-cases (same_key k own)) [
  | inl h ↦ simp h
  | inr h ↦ simp (h, +ℤ_zero (pos 0))
]

aggregated_at-add_delta :
    (k : BalanceKey) (ak : AdjustmentKey) (a : AdjustmentAccum)
    (ds : List (AdjustmentKey × AdjustmentAccum))
    → aggregated_at k (add_delta ak a ds) ≡ aggregated_at k ds +ℤ at_key k ak.key a.delta
unfolding aggregated_at add_delta merge_accum
aggregated_at-add_delta k ak a [] = +ℤ_comm _ _
aggregated_at-add_delta k ak a ((own, b) ∷ ds) = elim (Bool-cases (same_adjustment ak own)) [
  | inl h ↦
      simp (h, same_adjustment-key ak own h, at_key-sum k own.key b.delta a.delta) (+ℤ_last _ _ _)
  | inr h ↦ simp (h, aggregated_at-add_delta k ak a ds) (to_left _ _ _)
]

-- Each part of a step keeps what is sent equal to what the models say.
with_stake-Conserved :
    (m : EventModel) (s t : Building) (d : ℤ)
    → parse_big (trim_space m.event.delta) ≡ some d
    → with_stake m s ≡ some t
    → (t.event_models ≡ s.event_models)
      × ((k : BalanceKey)
          → aggregated_at k t.aggregated_deltas
            ≡ aggregated_at k s.aggregated_deltas
              +ℤ at_key k (adjustment_key m (codes "staked")).key (negate d))
unfolding with_stake adjusted accum_of
with_stake-Conserved m s t d p h =
    let (inverted, n, rest) = bind-some (negate_decimal_string m.event.delta) _ h in
    let (stake, q, e) = bind-some (parse_big (trim_space inverted)) _ rest in
    let sent : stake ≡ negate d = stake_delta-negate m.event.delta inverted d stake n q p in
    let made : t ≡ adjusted m (codes "staked") stake s = sym (some-injective e) in
    (
      ap (λ (b : Building). b.event_models) made,
      λ k.
          ap (λ (b : Building). aggregated_at k b.aggregated_deltas) made
          ∙ aggregated_at-add_delta k (adjustment_key m (codes "staked")) (accum_of m stake)
              s.aggregated_deltas
          ∙ ap
              (λ x.
                aggregated_at k s.aggregated_deltas
                +ℤ at_key k (adjustment_key m (codes "staked")).key x)
              sent,
    )

models_at-applied :
    (k : BalanceKey) (ms : List EventModel) (m : EventModel) (d : ℤ)
    → m.balance_applied ≡ true
    → parse_big (trim_space m.event.delta) ≡ some d
    → models_at k (ms ++ m ∷ [])
      ≡ models_at k ms
        +ℤ (at_key k (adjustment_key m []).key d
            +ℤ (if is_staking_activity m.event.activity_type
                then at_key k (adjustment_key m (codes "staked")).key (negate d)
                else pos 0))
unfolding model_at number_of
models_at-applied k ms m d a p = models_at-snoc k ms m ∙ simp (a, p)

-- The liquid part of an applied model.
liquid : EventModel → Text → ℤ → Building → Building
liquid m after d s = adjusted m [] d (with_balance m after (with_model m s))

aggregated_at-liquid :
    (k : BalanceKey) (m : EventModel) (after : Text) (d : ℤ) (s : Building)
    → Conserved s
    → aggregated_at k (liquid m after d s).aggregated_deltas
      ≡ models_at k s.event_models +ℤ at_key k (adjustment_key m []).key d
unfolding Conserved liquid adjusted with_balance with_model accum_of
aggregated_at-liquid k m after d s c =
    aggregated_at-add_delta k (adjustment_key m []) (accum_of m d) s.aggregated_deltas
    ∙ ap (λ x. x +ℤ at_key k (adjustment_key m []).key d) (c k)

apply_model-Conserved :
    (m : EventModel) (after : Text) (s t : Building)
    → m.balance_applied ≡ true
    → Conserved s
    → apply_model m after s ≡ some t
    → Conserved t
unfolding Conserved apply_model liquid adjusted with_balance with_model
apply_model-Conserved m after s t a c h =
    let (d, p, rest) = bind-some (parse_big (trim_space m.event.delta)) _ h in
    let mid = liquid m after d s in
    elim (Bool-cases (is_staking_activity m.event.activity_type)) [
      | inl st ↦
          let (same, sums) = with_stake-Conserved m mid t d p (simp st at rest) in
          λ k.
            sums k
            ∙ simp
                (
                  aggregated_at-liquid k m after d s c,
                  same,
                  models_at-applied k s.event_models m d a p,
                  st,
                )
                (sym (to_left _ _ _))
      | inr st ↦
          let made : mid ≡ t = some-injective (simp st at rest) in
          λ k. rw (← made) (
            simp (
              aggregated_at-liquid k m after d s c,
              models_at-applied k s.event_models m d a p,
              st,
              +ℤ_zero (at_key k (adjustment_key m []).key d),
            ))
    ]

add_model-Conserved :
    (m : EventModel) (after : Text) (s t : Building)
    → Conserved s
    → add_model m after s ≡ some t
    → Conserved t
unfolding Conserved add_model with_model
add_model-Conserved m after s t c h = elim (Bool-cases m.balance_applied) [
  | inl a ↦ apply_model-Conserved m after s t a c (simp a at h)
  | inr a ↦
      let made : with_model m s ≡ t = some-injective (simp a at h) in
      λ k.
        rw (← made)
          (simp (models_at-snoc k s.event_models m, a, c k, +ℤ_zero (models_at k s.event_models)))
]

judged-Conserved :
    (p : Prefetched) (ec : EventContext) (token_id tx_id : ℕ) (before signal : Text)
    (s t : Building)
    → Conserved s
    → judged p ec token_id tx_id before signal s ≡ some t
    → Conserved t
unfolding Conserved judged
judged-Conserved p ec token_id tx_id before [] s t c h =
    let (after, e, rest) = bind-some (add_decimal_strings before ec.be.delta) _ h in
    add_model-Conserved (event_model p ec token_id tx_id before after) after s t c rest
judged-Conserved p ec token_id tx_id before (x ∷ signal) s t c h = elim (Bool-cases p.deny_works) [
  | inl d ↦
      let made : record s { denied = ec.be.contract_address ∷ s.denied } ≡ t =
        some-injective (simp d at h) in
      λ k. rw (← made) (c k)
  | inr d ↦ absurd (none-some (simp d at h))
]

identified-Conserved :
    (p : Prefetched) (ec : EventContext) (token_id tx_id : Option ℕ) (s t : Building)
    → Conserved s
    → identified p ec token_id tx_id s ≡ some t
    → Conserved t
unfolding identified
identified-Conserved p ec none tx_id s t c h = rw (← some-injective h) c
identified-Conserved p ec (some token_id) none s t c h = rw (← some-injective h) c
identified-Conserved p ec (some token_id) (some tx_id) s t c h =
    elim (Bool-cases (has_text ec.be.contract_address s.denied)) [
      | inl d ↦ let made : s ≡ t = some-injective (simp d at h) in rw (← made) c
      | inr d ↦ judged-Conserved p ec token_id tx_id _ _ s t c (simp d at h)
    ]

-- Where the aggregated deltas of a batch in the making sum, for every balance, to what its applied
-- event models move (a delta in, and for staking the same out of the staked balance), they still
-- do after the events that follow, as long as none is refused with an error.
pub build_event_models-Conserved :
    (p : Prefetched) (ecs : List EventContext) (s t : Building)
    → Conserved s
    → build_event_models p ecs s ≡ some t
    → Conserved t
unfolding build_event_models build_event
build_event_models-Conserved p [] s t c h = rw (← some-injective h) c
build_event_models-Conserved p (ec ∷ ecs) s t c h =
    let (u, e, rest) = bind-some (build_event p ec s) _ h in
    build_event_models-Conserved p ecs u t
      (identified-Conserved p ec (p.token_ids ec.be.contract_address)
        (p.tx_ids ec.canonical_tx_hash) s u c e)
      rest
