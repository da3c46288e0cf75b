-- ===== src/Ingester/Promotions.antt =====
-- internal/pipeline/ingester/ingester.go: a finality promotion lets in what was not applied before.
use multichain_indexer.Prelude.{
  if◌then◌else◌, Bool-cases, All, ℤ, pos, ◌+ℤ◌, codes, ◌≡◌, refl, sym, ◌∙◌, inl, inr, Bool, true,
  false, ◌||◌, not, some, List, [], ◌∷◌, arith,
}
use multichain_indexer.Prelude.Decimal.{negate, print_big}
use multichain_indexer.Identity.{is_staking_activity}
use multichain_indexer.Store.{BalanceKey, BulkAdjustItem, BalanceRow, InputRow, cast_all, EventRow}
use multichain_indexer.Store.Sums.{
  at_key, delta_at, liquid_key, event_at, applied_at, DistinctInput,
}
use multichain_indexer.Store.Adjust.{+ℤ_zero, zero_+ℤ}
use multichain_indexer.Ingester.Items.{
  select_events, adjust_item, promotion_of, build_promotion_adjust_items, finalizes,
  finalize_events, newly_applied, apply_events,
}
use multichain_indexer.Ingester.Promoted.{
  Promoted, apply_events-Promoted, BlocksFinal, finalize_blocks-BlocksFinal, finalize_events-again,
  apply_events-again, newly_applied-none, finalize_blocks-again,
}
use multichain_indexer.Ingester.Reversal.{
  IndexedBlock, Tables, Works, finalize_blocks, guard, settle, adjust_balances, promotion_steps,
  handle_finality_promotion,
}
use multichain_indexer.Ingester.Inputs.{input_row, negate_printed, cast-cons}
use multichain_indexer.Ingester.Balanced.{
  Sound, all_work, Ends, Settled, settle-Settled, guard-Ends, bind-Ends, guard_repo, to_right,
  to_left, adjust_balances_lem,
}

-- What a promotion of events sends to the database.
unfoldable pub promotion_input : List EventRow → List InputRow
promotion_input [] = []
promotion_input (e ∷ es) =
    let rest = promotion_input es in
    input_row e [] e.delta
    ∷ (if is_staking_activity e.activity_type
        then input_row e (codes "staked") (negate e.delta) ∷ rest
        else rest)

build-promotion_input :
    (es : List EventRow)
    → (items : List BulkAdjustItem) × (build_promotion_adjust_items es ≡ some items)
      × (cast_all items ≡ some (promotion_input es))
unfolding build_promotion_adjust_items promotion_input cast_all promotion_of
build-promotion_input [] = ([], refl, refl)
build-promotion_input (e ∷ es) =
    let (items, b, c) = build-promotion_input es in
    let staked = adjust_item e (codes "staked") (print_big (negate e.delta)) ∷ items in
    elim (Bool-cases (is_staking_activity e.activity_type)) [
      | inl a ↦ (
        adjust_item e [] (print_big e.delta) ∷ staked,
        simp (b, a, negate_printed e.delta),
        simp a (
            cast-cons e [] e.delta staked
              (input_row e (codes "staked") (negate e.delta) ∷ promotion_input es)
              (cast-cons e (codes "staked") (negate e.delta) items (promotion_input es) c)),
      )
      | inr a ↦ (
        adjust_item e [] (print_big e.delta) ∷ items,
        simp (b, a),
        simp a (cast-cons e [] e.delta items (promotion_input es) c),
      )
    ]

applied_at-finalize_events :
    (k : BalanceKey) (up_to : ℤ) (es : List EventRow)
    → applied_at k (finalize_events up_to es) ≡ applied_at k es
unfolding applied_at finalize_events event_at
applied_at-finalize_events k up_to [] = refl
applied_at-finalize_events k up_to (e ∷ es) = elim (Bool-cases (finalizes up_to e)) [
  | inl h ↦ simp (h, applied_at-finalize_events k up_to es)
  | inr h ↦ simp (h, applied_at-finalize_events k up_to es)
]

moved : (x a d : ℤ) → x +ℤ (a +ℤ d) ≡ (pos 0 +ℤ a) +ℤ (x +ℤ d)
moved x a d = simp (zero_+ℤ a, to_right x a d)

moved_two : (x y a d : ℤ) → (x +ℤ y) +ℤ (a +ℤ d) ≡ (pos 0 +ℤ a) +ℤ (x +ℤ (y +ℤ d))
moved_two x y a d = moved (x +ℤ y) a d ∙ simp (to_left x y d)

newly_applied-unapplied :
    (up_to : ℤ) (e : EventRow) → newly_applied up_to e ≡ true → e.balance_applied ≡ false
unfolding newly_applied
newly_applied-unapplied up_to e h = ground arith

-- Applying the events puts into a key what the input of the promotion holds for it.
applied_at-apply_events :
    (k : BalanceKey) (up_to : ℤ) (es : List EventRow)
    → applied_at k (apply_events up_to es)
      ≡ applied_at k es +ℤ delta_at k (promotion_input (select_events (newly_applied up_to) es))
unfolding applied_at apply_events select_events promotion_input delta_at event_at input_row
applied_at-apply_events k up_to [] = sym (+ℤ_zero (pos 0))
applied_at-apply_events k up_to (e ∷ es) =
    let rest = applied_at-apply_events k up_to es in
    elim (Bool-cases (newly_applied up_to e)) [
      | inl h ↦
          let u = newly_applied-unapplied up_to e h in
          elim (Bool-cases (is_staking_activity e.activity_type)) [
            | inl s ↦ simp (h, s, u, rest) (moved_two _ _ _ _)
            | inr s ↦ simp (h, s, u, rest, +ℤ_zero (at_key k (liquid_key e) e.delta)) (moved _ _ _)
          ]
      | inr h ↦ simp (h, rest) (to_left _ _ _)
    ]

module _ (pick : InputRow → List InputRow → InputRow) (only : (i : InputRow) → pick i [] ≡ i) where
  -- In tables that hold the promoted events and blocks, a promotion changes nothing.
  promotion_again :
      (has_block_repo : Bool) (block : ℤ) (u : Tables)
      → All (Promoted block) u.events
      → (if has_block_repo then finalize_blocks block u.blocks else u.blocks) ≡ u.blocks
      → handle_finality_promotion pick has_block_repo all_work block u ≡ (u, true)
  unfolding handle_finality_promotion settle promotion_steps guard all_work adjust_balances
      build_promotion_adjust_items
  promotion_again has_block_repo block u p h = simp (
    guard_repo has_block_repo,
    finalize_events-again block u.events p,
    newly_applied-none block u.events p,
    apply_events-again block u.events p,
    h,
  )

  repo_again :
      (has_block_repo : Bool) (block : ℤ) (bs : List IndexedBlock)
      → let once = (if has_block_repo then finalize_blocks block bs else bs) in
        (if has_block_repo then finalize_blocks block once else once) ≡ once
  repo_again true block bs = finalize_blocks-again block bs
  repo_again false block bs = refl

  module _ (has_block_repo : Bool) (block : ℤ) (t : Tables) (rows : List BalanceRow)
      (items : List BulkAdjustItem)
      (b : build_promotion_adjust_items
          (select_events (newly_applied block) (finalize_events block t.events))
        ≡ some items) where
    -- The tables of a promotion whose adjustment leaves the rows.
    abbrev promoted_tables : Tables
    promoted_tables = record t {
      events = apply_events block (finalize_events block t.events);
      balances = rows;
      blocks = if has_block_repo then finalize_blocks block t.blocks else t.blocks;
    }

    promotion-Settled :
        (w : Works)
        → Ends (adjust_balances pick w.adjust items t.balances) rows
        → Settled w.commit t promoted_tables
            (handle_finality_promotion pick has_block_repo w block t)
    unfolding handle_finality_promotion promotion_steps
    promotion-Settled w adjusts = settle-Settled w.commit t promoted_tables _ (
        guard-Ends w.begin (
          guard-Ends (not has_block_repo || w.blocks)
            (guard-Ends w.query (bind-Ends _ (inr b) (bind-Ends _ adjusts (inr refl))))))

    promotion-total :
        adjust_balances pick true items t.balances ≡ some rows
        → handle_finality_promotion pick has_block_repo all_work block t ≡ (promoted_tables, true)
    unfolding handle_finality_promotion promotion_steps settle guard all_work
    promotion-total adjusts = simp (guard_repo has_block_repo, b, adjusts)

  -- In tables where every balance is the sum of the applied events of its key, and where the
  -- events that a promotion newly applies adjust pairwise distinct balances, the promotion of a
  -- block aims at one set of tables: sound, with every event at the block or below that has a
  -- finality state finalized and applied and, where there is a repository of blocks, every block
  -- there finalized. Whichever statement fails, it returns an error and leaves the tables as
  -- before, or it leaves that set, without an error where the commit is acknowledged and with one
  -- where the commit fails but took place; where every statement goes through it leaves that set
  -- without an error, and then a second promotion of the block changes nothing. An UPDATE that
  -- joins one row takes that row.
  pub handle_finality_promotion-Sound :
      (has_block_repo : Bool) (block : ℤ) (t : Tables)
      → Sound t
      → DistinctInput
          (promotion_input (select_events (newly_applied block) (finalize_events block t.events)))
      → (u : Tables) × Sound u
        × All (Promoted block) u.events
        × BlocksFinal has_block_repo block u.blocks
        × ((w : Works)
            → Settled w.commit t u (handle_finality_promotion pick has_block_repo w block t))
        × (handle_finality_promotion pick has_block_repo all_work block t ≡ (u, true))
        × (handle_finality_promotion pick has_block_repo all_work block u ≡ (u, true))
  unfolding Sound
  handle_finality_promotion-Sound has_block_repo block t (d, sums) h =
      let finalized = finalize_events block t.events in
      let (items, b, c) = build-promotion_input (select_events (newly_applied block) finalized) in
      let (rows, any, all, dr, new_sums) =
        adjust_balances_lem pick only items
          (promotion_input (select_events (newly_applied block) finalized)) t.balances c d h in
      let u : Tables = record t {
        events = apply_events block finalized;
        balances = rows;
        blocks = if has_block_repo then finalize_blocks block t.blocks else t.blocks;
      } in
      (
        u,
        (
          dr,
          λ k.
              new_sums k
              ∙ simp (
                sums k,
                applied_at-apply_events k block finalized,
                applied_at-finalize_events k block t.events,
              ),
        ),
        apply_events-Promoted block t.events,
        finalize_blocks-BlocksFinal has_block_repo block t.blocks,
        λ w. promotion-Settled has_block_repo block t rows items b w (any w.adjust),
        promotion-total has_block_repo block t rows items b all,
        promotion_again has_block_repo block u (apply_events-Promoted block t.events)
            (repo_again has_block_repo block t.blocks),
      )
