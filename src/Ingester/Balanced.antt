-- ===== src/Ingester/Balanced.antt =====
-- internal/pipeline/ingester/ingester.go: what a rollback leaves of the balances. They are sound
-- where each is the sum of the events that were applied to it.
use multichain_indexer.Prelude.{
  Bool-cases, ◌>>=◌, ℤ, pos, ◌+ℤ◌, eq_of_parts, +ℤ_parts, ◌≡◌, refl, sym, ◌∙◌, ◌⊎◌, inl, inr, Bool,
  true, false, ◌||◌, not, Option, none, some, List, [], ◌∷◌, arith,
}
use multichain_indexer.Store.{
  BalanceKey, BulkAdjustItem, BalanceRow, InputRow, cast_all, bulk_adjust_balance, EventRow,
}
use multichain_indexer.Store.Sums.{amount_at, delta_at, applied_at, DistinctRows, DistinctInput}
use multichain_indexer.Store.Adjust.{+ℤ_zero}
use multichain_indexer.Store.Bulk.{adjust_cast_lem}
use multichain_indexer.Ingester.Items.{select_events}
use multichain_indexer.Ingester.Reversal.{
  Tables, CommitOutcome, acknowledged, failed_committed, failed_rolled_back, Works, guard, settle,
  adjust_balances, revert_events,
}
use multichain_indexer.Ingester.Inputs.{
  reversal_input, build-reversal_input, reversal_input-applied_at,
}

unfoldable pub Sound : Tables → Type 0
Sound t =
    DistinctRows t.balances × ((k : BalanceKey) → amount_at k t.balances ≡ applied_at k t.events)

unfoldable pub all_work : Works
all_work = record {
  begin = true;
  query = true;
  adjust = true;
  adjust_staked = true;
  delete_events = true;
  delete_transactions = true;
  blocks = true;
  watermark = true;
  commit = acknowledged;
}

-- The two ways a step of a handler ends: an error, or the one result.
abbrev pub Ends {ℓ} : {A : Type ℓ} → Option A → A → Type ℓ
Ends o a = (o ≡ none) ⊎ (o ≡ some a)

-- What a handler returns: an error with the tables as before; or the one result, without an error
-- where the commit is acknowledged, and with one where it took place all the same.
unfoldable pub Settled : CommitOutcome → Tables → Tables → Tables × Bool → Type 0
Settled outcome before after r =
    (r ≡ (before, false))
    ⊎ ((outcome ≡ acknowledged) × (r ≡ (after, true)))
    ⊎ ((outcome ≡ failed_committed) × (r ≡ (after, false)))

settle-some-Settled :
    (outcome : CommitOutcome) (before after : Tables)
    → Settled outcome before after (settle (some after) outcome before)
unfolding Settled settle
settle-some-Settled acknowledged before after = inr (inl (refl, refl))
settle-some-Settled failed_committed before after = inr (inr (refl, refl))
settle-some-Settled failed_rolled_back before after = inl refl

pub settle-Settled :
    (outcome : CommitOutcome) (before after : Tables) (steps : Option Tables)
    → Ends steps after
    → Settled outcome before after (settle steps outcome before)
unfolding Settled settle
settle-Settled outcome before after steps (inl e) = simp e (inl refl)
settle-Settled outcome before after steps (inr e) =
    simp e (settle-some-Settled outcome before after)

pub guard-Ends :
    {A : Type 0} (b : Bool) {o : Option A} {a : A} → Ends o a → Ends (guard b >>= λ _. o) a
unfolding guard
guard-Ends true h = h
guard-Ends false h = inl refl

pub bind-Ends :
    {A B : Type 0} {m : Option A} (f : A → Option B) {a : A} {b : B}
    → Ends m a
    → Ends (f a) b
    → Ends (m >>= f) b
bind-Ends f (inl e) h = inl (simp e)
bind-Ends f (inr e) h = simp e h

pub guard_repo : (b : Bool) → guard (not b || true) ≡ some tt
unfolding guard
guard_repo true = refl
guard_repo false = refl

pub to_right : (a b c : ℤ) → a +ℤ (b +ℤ c) ≡ b +ℤ (a +ℤ c)
to_right a b c =
    eq_of_parts _ _
      (omega (arith, +ℤ_parts b c, +ℤ_parts a c, +ℤ_parts a (b +ℤ c), +ℤ_parts b (a +ℤ c)))

pub to_left : (a b c : ℤ) → a +ℤ (b +ℤ c) ≡ (a +ℤ b) +ℤ c
to_left a b c =
    eq_of_parts _ _
      (omega (arith, +ℤ_parts b c, +ℤ_parts a b, +ℤ_parts a (b +ℤ c), +ℤ_parts (a +ℤ b) c))

pub applied_at-select :
    (k : BalanceKey) (test : EventRow → Bool) (es : List EventRow)
    → applied_at k es
      ≡ applied_at k (select_events (λ e. not (test e)) es) +ℤ applied_at k (select_events test es)
unfolding applied_at select_events
applied_at-select k test [] = sym (+ℤ_zero (pos 0))
applied_at-select k test (e ∷ es) = elim (Bool-cases (test e)) [
  | inl h ↦ simp (h, applied_at-select k test es) (to_right _ _ _)
  | inr h ↦ simp (h, applied_at-select k test es) (to_left _ _ _)
]

pub reverted_sum : (a b c d : ℤ) → a ≡ b +ℤ c → c +ℤ d ≡ pos 0 → a +ℤ d ≡ b
reverted_sum a b c d p q = simp (p, sym (to_left b c d), q, +ℤ_zero b)

module _ (pick : InputRow → List InputRow → InputRow) (only : (i : InputRow) → pick i [] ≡ i) where
  pub adjust_balances_lem :
      (items : List BulkAdjustItem) (input : List InputRow) (rows : List BalanceRow)
      → cast_all items ≡ some input
      → DistinctRows rows
      → DistinctInput input
      → (new_rows : List BalanceRow) × ((works : Bool)
          → Ends (adjust_balances pick works items rows) new_rows)
        × (adjust_balances pick true items rows ≡ some new_rows)
        × DistinctRows new_rows
        × ((k : BalanceKey) → amount_at k new_rows ≡ amount_at k rows +ℤ delta_at k input)
  unfolding adjust_balances bulk_adjust_balance guard cast_all delta_at
  adjust_balances_lem [] input rows c d h =
      let e : input ≡ [] = cc in
      (rows, λ w. inr refl, refl, d, λ k. simp (e, +ℤ_zero (amount_at k rows)))
  adjust_balances_lem (i ∷ is) input rows c d h =
      let (r, e, dr, sums) = adjust_cast_lem pick only rows input d h in
      let sent : bulk_adjust_balance pick (i ∷ is) rows ≡ some r = simp (c, e) in
      (r, λ w. guard-Ends w (inr sent), sent, dr, sums)

  -- Taking out the events of a test, one of the two deletions of the source.
  pub revert_lem :
      (rolls_back : EventRow → Bool) (t : Tables)
      → Sound t
      → DistinctInput (reversal_input (select_events rolls_back t.events))
      → (u : Tables) × Sound u
        × (u.events ≡ select_events (λ e. not (rolls_back e)) t.events)
        × (u.watermark ≡ t.watermark)
        × ((w : Works) → Ends (revert_events pick rolls_back w t) u)
        × (revert_events pick rolls_back all_work t ≡ some u)
  unfolding Sound revert_events guard all_work
  revert_lem rolls_back t (d, sums) h =
      let (items, b, c) = build-reversal_input (select_events rolls_back t.events) in
      let (rows, any, all, dr, new_sums) =
        adjust_balances_lem items (reversal_input (select_events rolls_back t.events)) t.balances c
          d h in
      (
        record t { balances = rows; events = select_events (λ e. not (rolls_back e)) t.events },
        (
          dr,
          λ k.
              new_sums k
              ∙ simp (sums k) (
                  reverted_sum _ _ _ _ (applied_at-select k rolls_back t.events)
                    (reversal_input-applied_at k (select_events rolls_back t.events))),
        ),
        refl,
        refl,
        λ w. guard-Ends w.query (
            bind-Ends _ (inr b)
              (bind-Ends _ (any w.adjust) (guard-Ends w.delete_events (inr refl)))),
        simp (b, all),
      )
