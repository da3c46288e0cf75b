-- ===== src/Tests/Coordinator.antt =====
-- The coordinator of internal/pipeline/coordinator on concrete ticks.
use multichain_indexer.Prelude.{
  All, ℤ, pos, ◌+ℤ◌, ◌-ℤ◌, ltb_ℤ, leb_ℤ, eqb_ℤ, wrap64, add64, sub64, codes, ◌≡◌, refl, true, false,
  none, some, [], ◌∷◌, arith,
}
use multichain_indexer.Autotune.Clamp.{floor_zero}
use multichain_indexer.Coordinator.{
  Coordinator, sent_job, sent_backfill, World, floored, head_of, start_after, watermark_start,
  has_watermark, start_near_head, start_from, start_block_of, tune_inputs, tune_by, tune,
  end_block_of, already_enqueued, job_of, backfill_before, backfill_of, enqueue, scan_to, scan,
  tick_for, tick,
}
use multichain_indexer.Coordinator.Starts.{StartsAt}
use multichain_indexer.Coordinator.Ranges.{InRange, tick-InRange}
use multichain_indexer.Coordinator.Repeats.{tick_again}
use multichain_indexer.Coordinator.CatchUp.{ingested, follow, Following, follow_reaches}

abbrev fresh : Coordinator
fresh = record {
  chain = codes "base";
  network = codes "mainnet";
  batch_size = pos 10;
  interval_ns = pos 1000;
  has_head_provider = true;
  has_wm_repo = true;
  has_backfill_ch = true;
  auto_tune = none;
  max_initial_lookback_blocks = pos 50;
  has_enqueued = false;
  last_enqueued_start = pos 0;
  last_enqueued_end = pos 0;
}

abbrev world : World
world = record {
  addresses = some (codes "0xab" ∷ []);
  head = some (pos 125);
  watermark = some (some (pos 100));
  queue_depth = pos 0;
  queue_capacity = pos 8;
  job_taken = true;
  pending = some (some (pos 7) ∷ []);
  backfill_taken = true;
}

ticking : Unit {0}
unfolding ◌+ℤ◌ ◌-ℤ◌ ltb_ℤ leb_ℤ eqb_ℤ wrap64 add64 sub64 floor_zero floored head_of start_after
    watermark_start start_near_head start_from start_block_of has_watermark tune_inputs tune_by tune
    end_block_of already_enqueued job_of backfill_before backfill_of enqueue scan_to scan tick_for
    tick ingested follow
ticking = tt

-- The scan goes on after the watermark, and the pending address asks for its older blocks.
scans :
    (tick fresh world).1
    ≡ sent_job (job_of fresh (codes "0xab" ∷ []) (pos 10) (pos 101) (pos 110))
      ∷ sent_backfill (pos 7)
      ∷ []
unfolding ticking
scans = refl

-- With no watermark the scan starts near the head.
starts_near_head : start_block_of fresh (record world { watermark = some none }) (pos 125) ≡ pos 76
unfolding ticking
starts_near_head = refl

head_is : head_of fresh world ≡ some (pos 125)
unfolding ticking
head_is = refl

tick-InRange_example :
    (start : ℤ) × StartsAt fresh world (pos 125) start
    × All (InRange (pos 125) start) (tick fresh world).1
unfolding ◌+ℤ◌
tick-InRange_example =
    tick-InRange fresh world (pos 125) head_is (omega arith) (ground arith) (omega arith)
      (ground arith) (omega arith)

tick_again_example : (tick (tick fresh world).0 world).1 ≡ []
tick_again_example = tick_again fresh world refl refl

follows : Following fresh world 125 100 10
follows = record {
  first = codes "0xab";
  others = [];
  repo = refl;
  no_controller = refl;
  batch = refl;
  head = head_is;
  watched = refl;
  room = refl;
  not_sent = omega arith;
  batch_pos = omega arith;
  m_pos = omega arith;
  fits = omega arith;
}

follow_reaches_example : follow 3 fresh world (pos 100) ≡ pos 125
follow_reaches_example = follow_reaches 3 fresh world 125 100 10 follows (omega arith)
