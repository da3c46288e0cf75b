-- ===== src/Coordinator/Ranges.antt =====
-- coordinator.go: the block ranges of the jobs that a tick sends.
use multichain_indexer.Coordinator.Starts.{WatermarkFits, StartsAt, start_block_of-StartsAt}
use multichain_indexer.Prelude.{
  Bool-cases, All, ℤ, pos, ◌+ℤ◌, ◌-ℤ◌, ◌≤ℤ◌, ◌<ℤ◌, ltb_ℤ, ltb_ℤ→lt, ltb_ℤ→ge, leb_ℤ→gt, lt→ltb_ℤ,
  +ℤ_parts, InInt64, InInt64-between, add64, sub64, add64_of_InInt64, sub64_of_InInt64, int_laws,
  Text, ◌≡◌, refl, ◌⊎◌, inl, inr, Bool, Option, none, some, List, [], ◌∷◌, arith,
}
use multichain_indexer.Autotune.Types.{Inputs, Controller}
use multichain_indexer.Autotune.Clamp.{floor_zero_nonneg}
use multichain_indexer.Autotune.Resolve.{resolve}
use multichain_indexer.Coordinator.{
  Coordinator, Sent, sent_job, sent_backfill, World, head_of, start_after, watermark_start,
  start_near_head, start_from, start_block_of, tune_inputs, tune_by, tune, end_block_of, job_of,
  backfill_before, backfill_of, enqueue, scan_to, scan, tick_for, tick,
}

module _ (head start : ℤ) (p : pos 0 ≤ℤ start) (q : start ≤ℤ head)
    (i : InInt64 (head +ℤ pos 1)) where
  fits : (a : ℤ) → pos 0 ≤ℤ a → a ≤ℤ head +ℤ pos 1 → InInt64 a
  fits a l h = InInt64-between (pos 0) a (head +ℤ pos 1) (ground arith) i l h

  -- The number of blocks up to the head.
  blocks_left : add64 (sub64 head start) (pos 1) ≡ head -ℤ start +ℤ pos 1
  blocks_left =
      rw
        (sub64_of_InInt64 head start
          (fits (head -ℤ start) (omega (int_laws, q)) (omega (int_laws, p))))
        (add64_of_InInt64 (head -ℤ start) (pos 1)
          (fits (head -ℤ start +ℤ pos 1) (omega (int_laws, q)) (omega (int_laws, p))))

  -- The end of a scan that the batch cuts short.
  cut_end :
      (batch : ℤ)
      → pos 0 <ℤ batch
      → batch <ℤ head -ℤ start +ℤ pos 1
      → sub64 (add64 start batch) (pos 1) ≡ start +ℤ batch -ℤ pos 1
  cut_end batch b h =
      rw
        (add64_of_InInt64 start batch
          (fits (start +ℤ batch) (omega (int_laws, p, b)) (omega (int_laws, h))))
        (sub64_of_InInt64 (start +ℤ batch) (pos 1)
          (fits (start +ℤ batch -ℤ pos 1) (omega (int_laws, p, b)) (omega (int_laws, h))))

  -- The end is the head, or the batch cuts the scan short of it.
  pub end_block_of_cases :
      (batch : ℤ)
      → pos 0 <ℤ head
      → pos 0 <ℤ batch
      → (end_block_of head start batch ≡ head) × (head -ℤ start <ℤ batch)
        ⊎ (end_block_of head start batch ≡ start +ℤ batch -ℤ pos 1) × (start +ℤ batch ≤ℤ head)
  unfolding end_block_of
  end_block_of_cases batch n b = elim (Bool-cases (ltb_ℤ batch (head -ℤ start +ℤ pos 1))) [
    | inl h ↦
        let l = ltb_ℤ→lt batch (head -ℤ start +ℤ pos 1) h in
        inr (rw (lt→ltb_ℤ (pos 0) head n, blocks_left, h) (cut_end batch b l), omega (int_laws, l))
    | inr h ↦
        let l = ltb_ℤ→ge batch (head -ℤ start +ℤ pos 1) h in
        inl (rw (lt→ltb_ℤ (pos 0) head n, blocks_left, h) refl, omega (int_laws, l))
  ]

  pub end_block_of_range :
      (batch : ℤ)
      → pos 0 <ℤ head
      → pos 0 <ℤ batch
      → let e = end_block_of head start batch in (start ≤ℤ e) × (e ≤ℤ head) × (e -ℤ start <ℤ batch)
  end_block_of_range batch n b = elim (end_block_of_cases batch n b) [
    | inl (e, l) ↦ rw e (q, omega (arith), omega (int_laws, l))
    | inr (e, l) ↦ rw e (omega (int_laws, b), omega (int_laws, l), omega (int_laws, b))
  ]

-- A job's range lies between its start and the head and is as wide as its batch at most; a backfill
-- starts below the scan.
abbrev pub InRange : ℤ → ℤ → Sent → Type 0
InRange head start (sent_job j) =
    (j.start_block ≡ start)
    × (j.start_block ≤ℤ j.end_block)
    × (j.end_block ≤ℤ head)
    × (j.end_block -ℤ j.start_block <ℤ j.batch_size)
InRange head start (sent_backfill from) = from <ℤ start

tuned_pos :
    (c : Coordinator) (inputs : Inputs) (a : Option Controller)
    → pos 0 <ℤ c.batch_size
    → pos 0 <ℤ (tune_by c inputs a).1
unfolding tune_by
tuned_pos c inputs none h = h
tuned_pos c inputs (some a) h = ground (arith, leb_ℤ→gt (resolve a inputs).0.current_batch (pos 0))

tune_pos : (c : Coordinator) (inputs : Inputs) → pos 0 <ℤ c.batch_size → pos 0 <ℤ (tune c inputs).1
unfolding tune
tune_pos c inputs h = tuned_pos c inputs c.auto_tune h

backfill_before-InRange :
    (head start : ℤ) (taken : Bool) (pending : Option (List (Option ℤ)))
    → All (InRange head start) (backfill_before start taken pending)
unfolding backfill_before
backfill_before-InRange head start taken none = tt
backfill_before-InRange head start taken (some []) = tt
backfill_before-InRange head start taken (some (none ∷ rest)) = tt
backfill_before-InRange head start taken (some (some from ∷ rest)) =
    ground (arith, ltb_ℤ→lt from start)

backfill_of-InRange :
    (c : Coordinator) (w : World) (head start : ℤ)
    → All (InRange head start) (backfill_of c w start)
unfolding backfill_of
backfill_of-InRange c w head start =
    ground (arith, backfill_before-InRange head start w.backfill_taken w.pending)

start_near_head_nonneg : (c : Coordinator) (head : ℤ) → pos 0 ≤ℤ start_near_head c head
unfolding start_near_head
start_near_head_nonneg c head =
    ground (arith, floor_zero_nonneg (add64 (sub64 head c.max_initial_lookback_blocks) (pos 1)))

start_after_nonneg :
    (c : Coordinator) (head : ℤ) (m : Option (Option ℤ))
    → WatermarkFits m
    → pos 0 ≤ℤ start_from c head (start_after m)
unfolding start_after start_from
start_after_nonneg c head none f = start_near_head_nonneg c head
start_after_nonneg c head (some none) f = start_near_head_nonneg c head
start_after_nonneg c head (some (some n)) f = ground (
  arith,
  start_near_head_nonneg c head,
  ltb_ℤ→lt (pos 0) n,
  add64_of_InInt64 n (pos 1),
  +ℤ_parts n (pos 1),
)

start_nonneg :
    (c : Coordinator) (w : World) (head : ℤ)
    → WatermarkFits w.watermark
    → pos 0 ≤ℤ start_block_of c w head
unfolding start_block_of watermark_start start_from
start_nonneg c w head f = elim (Bool-cases c.has_wm_repo) [
  | inl e ↦ simp e (start_after_nonneg c head w.watermark f)
  | inr e ↦ simp e (start_near_head_nonneg c head)
]

enqueue-InRange :
    (c : Coordinator) (w : World) (addresses : List Text) (head batch start : ℤ)
    → let e = end_block_of head start batch in
      (start ≤ℤ e) × (e ≤ℤ head) × (e -ℤ start <ℤ batch)
      → All
          (InRange head start)
          (enqueue c w addresses batch start (end_block_of head start batch)).1
unfolding enqueue job_of
enqueue-InRange c w addresses head batch start r =
    ground (arith, r, backfill_of-InRange c w head start)

scan-InRange :
    (c : Coordinator) (w : World) (addresses : List Text) (head : ℤ)
    → pos 0 <ℤ head
    → InInt64 (head +ℤ pos 1)
    → pos 0 <ℤ c.batch_size
    → WatermarkFits w.watermark
    → All (InRange head (start_block_of c w head)) (scan_to c w addresses head).1
unfolding scan_to
scan-InRange c w addresses head n i b f =
    let start = start_block_of c w head in
    let tuned = tune c (tune_inputs c w head start) in
    elim (Bool-cases (ltb_ℤ head start)) [
      | inl e ↦ rw (lt→ltb_ℤ (pos 0) head n, e) tt
      | inr e ↦
          rw (lt→ltb_ℤ (pos 0) head n, e)
            (enqueue-InRange tuned.0 w addresses head tuned.1 start (
              end_block_of_range head start (start_nonneg c w head f) (ltb_ℤ→ge head start e) i
                tuned.1 n (tune_pos c (tune_inputs c w head start) b)))
    ]

scanned-InRange :
    (c : Coordinator) (w : World) (addresses : List Text) (head : ℤ) (h : Option ℤ)
    → h ≡ some head
    → pos 0 <ℤ head
    → InInt64 (head +ℤ pos 1)
    → pos 0 <ℤ c.batch_size
    → WatermarkFits w.watermark
    → All (InRange head (start_block_of c w head)) (scan c w addresses h).1
unfolding scan
scanned-InRange c w [] head h e n i b f = tt
scanned-InRange c w (a ∷ addresses) head none e n i b f = tt
scanned-InRange c w (a ∷ addresses) head (some k) e n i b f =
    let same : k ≡ head = cc in rw same (scan-InRange c w (a ∷ addresses) head n i b f)

ticked-InRange :
    (c : Coordinator) (w : World) (head : ℤ) (addresses : Option (List Text))
    → head_of c w ≡ some head
    → pos 0 <ℤ head
    → InInt64 (head +ℤ pos 1)
    → pos 0 <ℤ c.batch_size
    → WatermarkFits w.watermark
    → All (InRange head (start_block_of c w head)) (tick_for c w addresses).1
unfolding tick_for
ticked-InRange c w head none h n i b f = tt
ticked-InRange c w head (some addresses) h n i b f =
    scanned-InRange c w addresses head (head_of c w) h n i b f

-- With a head above zero and a positive base batch, a head and a watermark below the largest
-- int64, and an int64 look-back, there is one start: the block after the watermark where the
-- repository has one above zero, else the start of the look-back up to the head, at zero or above.
-- Every job that a tick sends starts there, ends at the head or before it and spans no more blocks
-- than its batch, with auto-tune or without; a backfill request lies below that start.
pub tick-InRange :
    (c : Coordinator) (w : World) (head : ℤ)
    → head_of c w ≡ some head
    → pos 0 <ℤ head
    → InInt64 (head +ℤ pos 1)
    → pos 0 <ℤ c.batch_size
    → WatermarkFits w.watermark
    → InInt64 c.max_initial_lookback_blocks
    → (start : ℤ) × StartsAt c w head start × All (InRange head start) (tick c w).1
unfolding tick
tick-InRange c w head h n i b f k = (
  start_block_of c w head,
  start_block_of-StartsAt c w head n i k f,
  ticked-InRange c w head w.addresses h n i b f,
)
