-- ===== src/Replay/Balanced.antt =====
-- internal/pipeline/replay/service.go: what a purge leaves of the balances.
use multichain_indexer.Prelude.{
  if◌then◌else◌, length, ℤ, ◌+ℤ◌, ◌≡◌, refl, sym, ap, ◌∙◌, inr, Bool, true, false, ◌||◌, not, some,
  List, [],
}
use multichain_indexer.Store.{
  BalanceKey, BulkAdjustItem, BalanceRow, InputRow, rewind_watermark, EventRow,
}
use multichain_indexer.Store.Sums.{amount_at, delta_at, DistinctRows, DistinctInput}
use multichain_indexer.Ingester.Items.{select_events, reorg_rolls_back}
use multichain_indexer.Ingester.Inputs.{reversal_input, reversal_input-applied_at}
use multichain_indexer.Ingester.Reversal.{
  Tables, Works, rewind_to, keep_transactions, keep_blocks, guard, adjust_balances,
}
use multichain_indexer.Ingester.Balanced.{
  Sound, all_work, Ends, guard-Ends, bind-Ends, guard_repo, to_left, applied_at-select,
  reverted_sum, adjust_balances_lem,
}
use multichain_indexer.Replay.{
  PurgeResult, liquid_items, staked_items, purge_result, purge_tables, purge_steps,
}
use multichain_indexer.Replay.Inputs.{
  liquid_input, staked_input, liquid_items-input, staked_items-input, DistinctInput-two,
  delta_at-two,
}

module _ (pick : InputRow → List InputRow → InputRow) (only : (i : InputRow) → pick i [] ≡ i) where
  -- The two adjustments together take out of the balances what the events have put there.
  adjust_twice :
      (es : List EventRow) (rows : List BalanceRow)
      → DistinctRows rows
      → DistinctInput (reversal_input es)
      → (items : List BulkAdjustItem) × (mid : List BalanceRow) × (new_rows : List BalanceRow)
        × (liquid_items es ≡ some items)
        × ((works : Bool) → Ends (adjust_balances pick works items rows) mid)
        × (adjust_balances pick true items rows ≡ some mid)
        × ((works : Bool) → Ends (adjust_balances pick works (staked_items es) mid) new_rows)
        × (adjust_balances pick true (staked_items es) mid ≡ some new_rows)
        × DistinctRows new_rows
        × ((k : BalanceKey)
            → amount_at k new_rows ≡ amount_at k rows +ℤ delta_at k (reversal_input es))
  adjust_twice es rows d h =
      let (items, b, c) = liquid_items-input es in
      let (dl, ds) = DistinctInput-two es h in
      let (mid, any, all, dm, sums) =
        adjust_balances_lem pick only items (liquid_input es) rows c d dl in
      let (new_rows, any2, all2, dn, sums2) =
        adjust_balances_lem pick only (staked_items es) (staked_input es) mid
          (staked_items-input es) dm ds in
      (
        items,
        mid,
        new_rows,
        b,
        any,
        all,
        any2,
        all2,
        dn,
        λ k.
            sums2 k
            ∙ ap (λ a. a +ℤ delta_at k (staked_input es)) (sums k)
            ∙ sym (to_left _ _ _)
            ∙ ap (λ a. amount_at k rows +ℤ a) (delta_at-two k es),
      )

  pub purge_lem :
      (has_block_repo : Bool) (fork : ℤ) (t : Tables)
      → Sound t
      → DistinctInput (reversal_input (select_events (reorg_rolls_back fork) t.events))
      → (u : Tables) × (r : PurgeResult) × Sound u
        × (u.events ≡ select_events (λ e. not (reorg_rolls_back fork e)) t.events)
        × (u.watermark ≡ some (rewind_to fork))
        × (u.transactions ≡ keep_transactions fork t.transactions)
        × (u.blocks ≡ (if has_block_repo then keep_blocks fork t.blocks else t.blocks))
        × ((w : Works) → Ends (purge_steps pick has_block_repo w fork t) (u, r))
        × (purge_steps pick has_block_repo all_work fork t ≡ some (u, r))
  unfolding purge_steps purge_tables rewind_watermark guard all_work Sound
  purge_lem has_block_repo fork t (d, sums) h =
      let gone = select_events (reorg_rolls_back fork) t.events in
      let (items, mid, rows, b, any, all, any2, all2, dn, new_sums) =
        adjust_twice gone t.balances d h in
      let u = purge_tables has_block_repo fork rows t in
      (
        u,
        purge_result false (length items) t u fork,
        (
          dn,
          λ k.
              new_sums k
              ∙ simp (sums k) (
                  reverted_sum _ _ _ _ (applied_at-select k (reorg_rolls_back fork) t.events)
                    (reversal_input-applied_at k gone)),
        ),
        refl,
        refl,
        refl,
        refl,
        λ w. guard-Ends w.begin (
            guard-Ends w.query (
              bind-Ends _ (inr b) (
                bind-Ends _ (any w.adjust) (
                  bind-Ends _ (any2 w.adjust_staked) (
                    guard-Ends w.delete_events (
                      guard-Ends w.delete_transactions (
                        guard-Ends (not has_block_repo || w.blocks)
                          (guard-Ends w.watermark (inr refl))))))))),
        simp (b, all, all2, guard_repo has_block_repo),
      )
