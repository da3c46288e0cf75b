-- ===== src/Ingester/Forks.antt =====
-- internal/pipeline/ingester/ingester.go: where a rollback starts. processBatch moves the batch's
-- cursor to the fork, and the rollback handler computes the fork from the moved batch again.
use multichain_indexer.Prelude.{
  if◌then◌else◌, All, All-map, ℤ, pos, ◌≤ℤ◌, ◌<ℤ◌, ltb_ℤ, leb_ℤ, eqb_ℤ, ltb_ℤ→lt, ltb_ℤ→ge,
  leb_ℤ→le, leb_ℤ→gt, ge→ltb_ℤ, eq_text, ◌≡◌, refl, true, ◌||◌, List, [], ◌∷◌, arith,
}
use multichain_indexer.Ingester.{NormalizedTransaction, NormalizedBatch, chain_btc}
use multichain_indexer.Ingester.Cursors.{
  no_transactions, earliest_from, rollback_btc_earliest_competing_sequence, or_sequence,
  rollback_fork_cursor_sequence, with_rollback_fork_cursor,
}

or_sequence-le :
    (b : NormalizedBatch)
    → or_sequence (rollback_btc_earliest_competing_sequence b) b.new_cursor_sequence
      ≤ℤ b.new_cursor_sequence
unfolding or_sequence rollback_btc_earliest_competing_sequence
or_sequence-le b =
    ground (arith, leb_ℤ→gt b.new_cursor_sequence (earliest_from (pos 0) b.transactions))

fork-le :
    (b : NormalizedBatch)
    → (rollback_fork_cursor_sequence b ≤ℤ b.new_cursor_sequence)
      × (rollback_fork_cursor_sequence b ≤ℤ b.previous_cursor_sequence)
unfolding rollback_fork_cursor_sequence
fork-le b = ground (
  arith,
  ltb_ℤ→lt b.new_cursor_sequence b.previous_cursor_sequence,
  ltb_ℤ→ge b.new_cursor_sequence b.previous_cursor_sequence,
  or_sequence-le b,
)

fork_of_settled :
    (m : NormalizedBatch)
    → m.previous_cursor_sequence ≤ℤ m.new_cursor_sequence
    → rollback_fork_cursor_sequence m ≡ m.previous_cursor_sequence
unfolding rollback_fork_cursor_sequence
fork_of_settled m h = simp (ge→ltb_ℤ m.new_cursor_sequence m.previous_cursor_sequence h)

fork-moved :
    (b : NormalizedBatch)
    → rollback_fork_cursor_sequence (with_rollback_fork_cursor b) ≡ rollback_fork_cursor_sequence b
unfolding with_rollback_fork_cursor
fork-moved b = fork_of_settled (with_rollback_fork_cursor b) (fork-le b).0

-- Every block above zero lies at `first` or above, and `first` is above zero if there is one.
Covers : ℤ → List NormalizedTransaction → Type 0
Covers first = All (λ (t : NormalizedTransaction).
    pos 0 <ℤ t.block_cursor → (pos 0 <ℤ first) × (first ≤ℤ t.block_cursor))

step_to : ℤ → ℤ → ℤ
step_to start cursor =
    if leb_ℤ cursor (pos 0)
    then start
    else if eqb_ℤ start (pos 0) || ltb_ℤ cursor start
    then cursor
    else start

step_to_lem :
    (start cursor : ℤ)
    → pos 0 ≤ℤ start
    → (pos 0 ≤ℤ step_to start cursor)
      × (pos 0 <ℤ start → (pos 0 <ℤ step_to start cursor) × (step_to start cursor ≤ℤ start))
      × (pos 0 <ℤ cursor → (pos 0 <ℤ step_to start cursor) × (step_to start cursor ≤ℤ cursor))
unfolding step_to leb_ℤ eqb_ℤ ltb_ℤ
step_to_lem start cursor h = ground arith

earliest_from-Covers :
    (start : ℤ) (ts : List NormalizedTransaction)
    → pos 0 ≤ℤ start
    → (pos 0 <ℤ start → (pos 0 <ℤ earliest_from start ts) × (earliest_from start ts ≤ℤ start))
      × Covers (earliest_from start ts) ts
unfolding earliest_from Covers step_to
earliest_from-Covers start [] h = (λ p. (p, omega arith), tt)
earliest_from-Covers start (t ∷ ts) h =
    let (nonneg, kept, reached) = step_to_lem start t.block_cursor h in
    let (below, covered) = earliest_from-Covers (step_to start t.block_cursor) ts nonneg in
    (
      λ p. let (a, b) = kept p in let (c, d) = below a in (c, omega arith),
      (λ p. let (a, b) = reached p in let (c, d) = below a in (c, omega arith), covered),
    )

none-earliest :
    (ts : List NormalizedTransaction) → no_transactions ts ≡ true → earliest_from (pos 0) ts ≡ pos 0
unfolding no_transactions earliest_from
none-earliest [] h = refl
none-earliest (t ∷ ts) h = absurd cc

fork-first :
    (b : NormalizedBatch)
    → eq_text b.chain chain_btc ≡ true
    → ltb_ℤ b.new_cursor_sequence b.previous_cursor_sequence ≡ true
    → pos 0 <ℤ earliest_from (pos 0) b.transactions
    → rollback_fork_cursor_sequence b ≤ℤ earliest_from (pos 0) b.transactions
unfolding rollback_fork_cursor_sequence or_sequence rollback_btc_earliest_competing_sequence eqb_ℤ
fork-first b c d p = ground (
  arith,
  none-earliest b.transactions,
  leb_ℤ→le b.new_cursor_sequence (earliest_from (pos 0) b.transactions),
)

abbrev pub NotAfter : ℤ → NormalizedTransaction → Type 0
NotAfter fork t = pos 0 <ℤ t.block_cursor → fork ≤ℤ t.block_cursor

-- Where a Bitcoin batch goes back, its fork lies at the new sequence or below, and at or below
-- every positive block of its transactions; and the rollback handler, which computes the fork from
-- the batch moved to it, finds the same fork.
pub rollback_fork_cursor_sequence_lem :
    (b : NormalizedBatch)
    → eq_text b.chain chain_btc ≡ true
    → ltb_ℤ b.new_cursor_sequence b.previous_cursor_sequence ≡ true
    → let fork = rollback_fork_cursor_sequence b in
      (fork ≤ℤ b.new_cursor_sequence)
      × (rollback_fork_cursor_sequence (with_rollback_fork_cursor b) ≡ fork)
      × All (NotAfter fork) b.transactions
unfolding Covers
rollback_fork_cursor_sequence_lem b c d = (
  (fork-le b).0,
  fork-moved b,
  All-map (λ t h p. let (a, q) = h p in let e = fork-first b c d a in omega arith) b.transactions
      (earliest_from-Covers (pos 0) b.transactions (omega arith)).1,
)
