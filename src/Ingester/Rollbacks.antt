-- ===== src/Ingester/Rollbacks.antt =====
-- internal/pipeline/ingester/ingester.go: handleReorg and rollbackCanonicalityDrift as wholes.
use mathlib.Core.Path.{subst}
use multichain_indexer.Ingester.Reorg.{delegated, handle_reorg}
use multichain_indexer.Replay.{
  PurgeResult, PurgeError, purge_failed, finish, purge_steps, run_purge, purge_from_block,
}
use multichain_indexer.Replay.Balanced.{purge_lem}
use multichain_indexer.Prelude.{
  if◌then◌else◌, Bool-cases, All, ℤ, pos, ◌+ℤ◌, ◌-ℤ◌, ◌≤ℤ◌, ◌<ℤ◌, ltb_ℤ, leb_ℤ, ltb_ℤ→lt, ltb_ℤ→ge,
  leb_ℤ→gt, InInt64, sub64_of_InInt64, int_laws, ◌≡◌, refl, sym, ◌⊎◌, inl, inr, Bool, true, false,
  ◌||◌, not, Option, none, some, List, [], ◌∷◌,
}
use multichain_indexer.Store.{InputRow, rewind_watermark, EventRow}
use multichain_indexer.Store.Sums.{DistinctInput}
use multichain_indexer.Ingester.Items.{select_events, reorg_rolls_back}
use multichain_indexer.Ingester.Reversal.{
  TransactionRow, IndexedBlock, Tables, CommitOutcome, acknowledged, failed_committed,
  failed_rolled_back, Works, rewind_to, keep_transactions, keep_blocks, guard, settle, rewind,
  reorg_steps,
}
use multichain_indexer.Ingester.Inputs.{reversal_input}
use multichain_indexer.Ingester.Balanced.{
  Sound, all_work, Ends, Settled, settle-Settled, guard-Ends, bind-Ends, guard_repo, revert_lem,
}

-- Every event lies below a block.
unfoldable pub AllBelow : ℤ → List EventRow → Type 0
AllBelow fork = All (λ (e : EventRow). e.block_cursor <ℤ fork)

if_not_keeps {ℓ κ} :
    {A : Type ℓ} (P : A → Type κ) (c : Bool) {x y : A}
    → (c ≡ false → P x)
    → P y
    → P (if not c then x else y)
if_not_keeps P true p q = q
if_not_keeps P false p q = p refl

select-AllBelow :
    (fork : ℤ) (es : List EventRow)
    → AllBelow fork (select_events (λ e. not (reorg_rolls_back fork e)) es)
unfolding AllBelow select_events reorg_rolls_back
select-AllBelow fork [] = tt
select-AllBelow fork (e ∷ es) =
    let rest = select-AllBelow fork es in
    if_not_keeps (AllBelow fork) (leb_ℤ fork e.block_cursor)
      (λ h. (leb_ℤ→gt fork e.block_cursor h, rest)) rest

-- A watermark stands one before a fork above zero, and at zero for any other.
unfoldable pub StandsBefore : ℤ → Option ℤ → Type 0
StandsBefore fork none = ⊥
StandsBefore fork (some sequence) =
    ((pos 0 <ℤ fork) × (sequence +ℤ pos 1 ≡ fork)) ⊎ ((fork ≤ℤ pos 0) × (sequence ≡ pos 0))

rewind_to-StandsBefore :
    (fork : ℤ) → InInt64 (fork -ℤ pos 1) → StandsBefore fork (some (rewind_to fork))
unfolding StandsBefore rewind_to
rewind_to-StandsBefore fork i = elim (Bool-cases (ltb_ℤ (fork -ℤ pos 1) (pos 0))) [
  | inl h ↦
      rw (sub64_of_InInt64 fork (pos 1) i, h)
        (inr (omega (int_laws, ltb_ℤ→lt (fork -ℤ pos 1) (pos 0) h), refl))
  | inr h ↦
      rw (sub64_of_InInt64 fork (pos 1) i, h)
        (inl (omega (int_laws, ltb_ℤ→ge (fork -ℤ pos 1) (pos 0) h), omega int_laws))
]

-- The tables once the events of a test are out: sound, with the other events as they were, and with
-- the watermark before the fork.
unfoldable pub Reverted : (EventRow → Bool) → ℤ → Tables → Tables → Type 0
Reverted rolls_back fork t u =
    Sound u
    × (u.events ≡ select_events (λ e. not (rolls_back e)) t.events)
    × StandsBefore fork u.watermark

-- Nothing of the fork's block or a later one is left: no event, no transaction and, where there is a
-- repository of blocks, no block.
unfoldable pub Cleared : Bool → ℤ → Tables → Type 0
Cleared has_block_repo fork u =
    AllBelow fork u.events
    × All (λ (r : TransactionRow). r.block_cursor <ℤ fork) u.transactions
    × ((has_block_repo ≡ false) ⊎ All (λ (b : IndexedBlock). b.block_number <ℤ fork) u.blocks)

keep_transactions_below :
    (fork : ℤ) (ts : List TransactionRow)
    → All (λ (r : TransactionRow). r.block_cursor <ℤ fork) (keep_transactions fork ts)
unfolding keep_transactions
keep_transactions_below fork [] = tt
keep_transactions_below fork (r ∷ ts) =
    let rest = keep_transactions_below fork ts in
    elim (Bool-cases (leb_ℤ fork r.block_cursor)) [
      | inl h ↦ simp h rest
      | inr h ↦ simp h (leb_ℤ→gt fork r.block_cursor h, rest)
    ]

keep_blocks_below :
    (fork : ℤ) (bs : List IndexedBlock)
    → All (λ (b : IndexedBlock). b.block_number <ℤ fork) (keep_blocks fork bs)
unfolding keep_blocks
keep_blocks_below fork [] = tt
keep_blocks_below fork (b ∷ bs) =
    let rest = keep_blocks_below fork bs in
    elim (Bool-cases (leb_ℤ fork b.block_number)) [
      | inl h ↦ simp h rest
      | inr h ↦ simp h (leb_ℤ→gt fork b.block_number h, rest)
    ]

blocks_below :
    (has_block_repo : Bool) (fork : ℤ) (bs : List IndexedBlock)
    → let kept = (if has_block_repo then keep_blocks fork bs else bs) in
      (has_block_repo ≡ false) ⊎ All (λ (b : IndexedBlock). b.block_number <ℤ fork) kept
blocks_below true fork bs = inr (keep_blocks_below fork bs)
blocks_below false fork bs = inl refl

kept-Cleared :
    (has_block_repo : Bool) (fork : ℤ) (t u : Tables)
    → u.events ≡ select_events (λ e. not (reorg_rolls_back fork e)) t.events
    → u.transactions ≡ keep_transactions fork t.transactions
    → u.blocks ≡ (if has_block_repo then keep_blocks fork t.blocks else t.blocks)
    → Cleared has_block_repo fork u
unfolding Cleared
kept-Cleared has_block_repo fork t u e r b = (
  subst (AllBelow fork) (sym e) (select-AllBelow fork t.events),
  subst (All (λ (x : TransactionRow). x.block_cursor <ℤ fork)) (sym r)
      (keep_transactions_below fork t.transactions),
  subst (λ bs. (has_block_repo ≡ false) ⊎ All (λ (x : IndexedBlock). x.block_number <ℤ fork) bs)
      (sym b) (blocks_below has_block_repo fork t.blocks),
)

delegated-Settled :
    (outcome : CommitOutcome) (before after : Tables) (r : PurgeResult)
    (steps : Option (Tables × PurgeResult)) (e : PurgeError)
    → Ends steps (after, r)
    → Settled outcome before after (delegated (finish steps outcome before e))
unfolding Settled delegated finish
delegated-Settled outcome before after r steps e (inl h) = simp h (inl refl)
delegated-Settled acknowledged before after r steps e (inr h) = simp h (inr (inl (refl, refl)))
delegated-Settled failed_committed before after r steps e (inr h) = simp h (inr (inr (refl, refl)))
delegated-Settled failed_rolled_back before after r steps e (inr h) = simp h (inl refl)

watermark_before :
    (fork : ℤ) (row : Option ℤ)
    → InInt64 (fork -ℤ pos 1)
    → row ≡ some (rewind_to fork)
    → StandsBefore fork row
watermark_before fork row i h = subst (StandsBefore fork) (sym h) (rewind_to-StandsBefore fork i)

module _ (pick : InputRow → List InputRow → InputRow) (only : (i : InputRow) → pick i [] ≡ i) where
  reorg_lem :
      (has_block_repo : Bool) (fork : ℤ) (t : Tables)
      → Sound t
      → DistinctInput (reversal_input (select_events (reorg_rolls_back fork) t.events))
      → InInt64 (fork -ℤ pos 1)
      → (u : Tables) × Reverted (reorg_rolls_back fork) fork t u
        × Cleared has_block_repo fork u
        × ((w : Works) → Ends (reorg_steps pick has_block_repo w fork t) u)
        × (reorg_steps pick has_block_repo all_work fork t ≡ some u)
  unfolding reorg_steps rewind rewind_watermark guard all_work Sound Reverted
  reorg_lem has_block_repo fork t s h i =
      let (v, sv, events, wm, any, all) = revert_lem pick only (reorg_rolls_back fork) t s h in
      (
        record v {
          transactions = keep_transactions fork t.transactions;
          blocks = if has_block_repo then keep_blocks fork t.blocks else t.blocks;
          watermark = some (rewind_to fork);
        },
        (sv, events, rewind_to-StandsBefore fork i),
        kept-Cleared has_block_repo fork t _ events refl refl,
        λ w. guard-Ends w.begin (
            bind-Ends _ (any w) (
              guard-Ends w.delete_transactions
                (guard-Ends (not has_block_repo || w.blocks) (guard-Ends w.watermark (inr refl))))),
        simp (all, guard_repo has_block_repo),
      )

  -- In tables where every balance is the sum of the applied events of its key, and where the
  -- events from a fork on adjust pairwise distinct balances, the reorg handler, with a replay
  -- service or without, aims at one set of tables: sound, with the events below the fork as they
  -- were and no others, with no transaction of the fork's block or a later one and, where there is
  -- a repository of blocks, no such block, and with the watermark one before the fork (at zero,
  -- for a fork of zero or below). Whichever statement fails, it returns an error and leaves the
  -- tables as before, or it leaves that set, without an error where the commit is acknowledged and
  -- with one where the commit fails but took place; where every statement goes through it leaves
  -- that set without an error. The fork less one fits an int64, and an UPDATE that joins one row
  -- takes that row.
  pub handle_reorg-Sound :
      (has_service has_block_repo : Bool) (fork : ℤ) (t : Tables)
      → Sound t
      → DistinctInput (reversal_input (select_events (reorg_rolls_back fork) t.events))
      → InInt64 (fork -ℤ pos 1)
      → (u : Tables) × Reverted (reorg_rolls_back fork) fork t u
        × Cleared has_block_repo fork u
        × ((w : Works)
            → Settled w.commit t u (handle_reorg pick has_service has_block_repo w fork t))
        × (handle_reorg pick has_service has_block_repo all_work fork t ≡ (u, true))
  unfolding handle_reorg settle Reverted all_work delegated purge_from_block run_purge finish
  handle_reorg-Sound false has_block_repo fork t s h i =
      let (u, reverted, cleared, any, all) = reorg_lem has_block_repo fork t s h i in
      (
        u,
        reverted,
        cleared,
        λ w. settle-Settled w.commit t u (reorg_steps pick has_block_repo w fork t) (any w),
        simp all,
      )
  handle_reorg-Sound true has_block_repo fork t s h i =
      let (u, r, su, events, wm, txs, blocks, any, all) =
        purge_lem pick only has_block_repo fork t s h in
      (
        u,
        (su, events, watermark_before fork u.watermark i wm),
        kept-Cleared has_block_repo fork t u events txs blocks,
        λ w.
            delegated-Settled w.commit t u r (purge_steps pick has_block_repo w fork t) purge_failed
              (any w),
        simp all,
      )
