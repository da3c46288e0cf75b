-- ===== src/Coordinator/CatchUp.antt =====
-- coordinator.go: ticks whose jobs are ingested before the next tick.
use Prim.Native.Nat.{min}
use mathlib.Core.Path.{subst}
use multichain_indexer.Prelude.{
  ℤ, pos, ◌+ℤ◌, ◌-ℤ◌, ◌≤ℤ◌, lt→ltb_ℤ, ge→ltb_ℤ, eqb_ℤ_iff, wrap64, add64, Text, ℕ, zero, suc, ◌+◌,
  ◌*◌, ◌^◌, ◌≤◌, ◌<◌, ◌≡◌, refl, sym, ap, ◌∙◌, ◌⊎◌, inl, inr, true, none, some, List, [], ◌∷◌,
  arith,
}
use multichain_indexer.Coordinator.{
  Coordinator, Sent, sent_job, sent_backfill, World, head_of, start_after, watermark_start,
  start_from, start_block_of, tune_by, tune, end_block_of, already_enqueued, job_of, enqueue,
  scan_to, scan, tick_for, tick,
}
use multichain_indexer.Coordinator.Ranges.{end_block_of_cases}

-- The watermark once what a tick sent is ingested.
unfoldable pub ingested : ℤ → List Sent → ℤ
ingested m [] = m
ingested m (sent_job j ∷ rest) = j.end_block
ingested m (sent_backfill from ∷ rest) = ingested m rest

abbrev pub at : World → ℤ → World
at w m = record w { watermark = some (some m) }

-- The watermark after some ticks.
unfoldable pub follow : ℕ → Coordinator → World → ℤ → ℤ
follow zero c w m = m
follow (suc k) c w m = let r = tick c (at w m) in follow k r.0 w (ingested m r.1)

-- A coordinator with a watermark, no controller, a batch of `b` and nothing in flight after `m`,
-- in a world with addresses, the head `h` and room for jobs.
pub record Following (c : Coordinator) (w : World) (h m b : ℕ) : Type 0 where
  pub first : Text
  pub others : List Text
  pub repo : c.has_wm_repo ≡ true
  pub no_controller : c.auto_tune ≡ none
  pub batch : c.batch_size ≡ pos b
  pub head : head_of c w ≡ some (pos h)
  pub watched : (w.addresses ≡ some (first ∷ others))
  pub room : w.job_taken ≡ true
  pub not_sent : c.last_enqueued_start ≤ℤ pos m
  pub batch_pos : 0 < b
  pub m_pos : 0 < m
  pub fits : h + 1 < 2 ^ 63

tick_is_scan :
    (c : Coordinator) (w : World) (h m b : ℕ) (f : Following c w h m b)
    → tick c (at w (pos m)) ≡ scan_to c (at w (pos m)) (f.first ∷ f.others) (pos h)
unfolding tick tick_for scan head_of
tick_is_scan c w h m b f = simp (f.watched, f.head) refl

next_block : (h m : ℕ) → m ≤ h → h + 1 < 2 ^ 63 → add64 (pos m) (pos 1) ≡ pos (m + 1)
unfolding add64 wrap64 ◌+ℤ◌
next_block h m l f = ground arith

end_at :
    (h m b : ℕ)
    → m < h
    → h + 1 < 2 ^ 63
    → 0 < b
    → end_block_of (pos h) (pos (m + 1)) (pos b) ≡ pos (min h (m + b))
unfolding ◌+ℤ◌ ◌-ℤ◌
end_at h m b l f p = ground (
  arith,
  end_block_of_cases (pos h) (pos (m + 1)) (omega arith) (omega (arith, l)) (ground (arith, f))
      (pos b) (omega (arith, l)) (omega (arith, p)),
)

start_at :
    (c : Coordinator) (w : World) (h m b : ℕ)
    → Following c w h m b
    → m ≤ h
    → start_block_of c (at w (pos m)) (pos h) ≡ pos (m + 1)
unfolding start_block_of start_from watermark_start start_after
start_at c w h m b f l =
    simp (f.repo, lt→ltb_ℤ (pos 0) (pos m) (omega (arith, f.m_pos))) (next_block h m l f.fits)

-- The coordinator once a range is in flight.
abbrev marked : Coordinator → ℤ → ℤ → Coordinator
marked c start end = record c {
  has_enqueued = true;
  last_enqueued_start = start;
  last_enqueued_end = end;
}

-- One tick below the head.
tick_advances :
    (c : Coordinator) (w : World) (h m b : ℕ)
    → Following c w h m b
    → m < h
    → let r = tick c (at w (pos m)) in
      (r.0 ≡ marked c (pos (m + 1)) (pos (min h (m + b))))
      × (ingested (pos m) r.1 ≡ pos (min h (m + b)))
unfolding scan_to enqueue tune tune_by already_enqueued job_of ingested
tick_advances c w h m b f l = rw (tick_is_scan c w h m b f) (
    ground (
      arith,
      start_at c w h m b f (omega (arith, l)),
      end_at h m b l f.fits f.batch_pos,
      ge→ltb_ℤ (pos h) (pos (m + 1)) (omega (arith, l)),
      eqb_ℤ_iff (pos (m + 1)) c.last_enqueued_start,
      f.not_sent,
      f.room,
      f.batch,
      f.no_controller,
    ))

-- A tick at the head.
tick_rests :
    (c : Coordinator) (w : World) (h b : ℕ)
    → Following c w h h b
    → let r = tick c (at w (pos h)) in (r.0 ≡ c) × (ingested (pos h) r.1 ≡ pos h)
unfolding scan_to ingested
tick_rests c w h b f = rw (tick_is_scan c w h h b f) (
    ground (
      arith,
      start_at c w h h b f (omega arith),
      lt→ltb_ℤ (pos h) (pos (h + 1)) (omega arith),
      lt→ltb_ℤ (pos 0) (pos h) (omega (arith, f.m_pos)),
    ))

marked-Following :
    (c : Coordinator) (w : World) (h m b : ℕ)
    → Following c w h m b
    → m < h
    → Following (marked c (pos (m + 1)) (pos (min h (m + b)))) w h (min h (m + b)) b
unfolding head_of
marked-Following c w h m b f l = record {
  first = f.first;
  others = f.others;
  repo = f.repo;
  no_controller = f.no_controller;
  batch = f.batch;
  head = f.head;
  watched = f.watched;
  room = f.room;
  not_sent = omega (arith, l, f.batch_pos);
  batch_pos = f.batch_pos;
  m_pos = omega (arith, l, f.m_pos);
  fits = f.fits;
}

suc_times : (h m b k : ℕ) → min h (min h (m + b) + k * b) ≡ min h (m + suc k * b)
suc_times h m b k = let e : suc k * b ≡ k * b + b = omega arith in rw e (omega arith)

below_or_at : (m h : ℕ) → m ≤ h → (m < h) ⊎ (m ≡ h)
below_or_at m h l = omega arith

follow_stays :
    (k : ℕ) (c : Coordinator) (w : World) (h b : ℕ)
    → Following c w h h b
    → follow k c w (pos h) ≡ pos h
unfolding follow
follow_stays zero c w h b f = refl
follow_stays (suc k) c w h b f =
    let (state, end) = tick_rests c w h b f in rw (state, end) (follow_stays k c w h b f)

-- With the controller off, where every job is ingested before the next tick, k ticks carry the
-- watermark k batches further, and never past the head: enough ticks reach the head.
pub follow_reaches :
    (k : ℕ) (c : Coordinator) (w : World) (h m b : ℕ)
    → Following c w h m b
    → m ≤ h
    → follow k c w (pos m) ≡ pos (min h (m + k * b))
unfolding follow
follow_reaches zero c w h m b f l = ap pos (omega (arith, l))
follow_reaches (suc k) c w h m b f l = elim (below_or_at m h l) [
  | inl n ↦
      let (state, end) = tick_advances c w h m b f n in
      rw (state, end)
        (follow_reaches k (marked c (pos (m + 1)) (pos (min h (m + b)))) w h (min h (m + b)) b
            (marked-Following c w h m b f n) (omega arith)
          ∙ ap pos (suc_times h m b k))
  | inr e ↦
      subst (λ n. Following c w h n b → follow (suc k) c w (pos n) ≡ pos (min h (n + suc k * b)))
        (sym e) (λ g. follow_stays (suc k) c w h b g ∙ ap pos (omega arith)) f
]
