-- ===== src/Ingester/Commits.antt =====
-- internal/pipeline/ingester/ingester.go: what it takes for a batch to be done.
use multichain_indexer.Prelude.{
  if◌then◌else◌, Bool-cases, ℤ, ◌≤ℤ◌, leb_ℤ→le, ◌≡◌, refl, ◌⊎◌, inl, inr, Bool, true, false, ◌&&◌,
  not, Option, none, some, List, [], ◌∷◌,
}
use multichain_indexer.Ingester.{NormalizedBatch}
use multichain_indexer.Ingester.Cursors.{
  is_canonicality_drift, is_btc_restart_anchor_replay, rollback_fork_cursor_sequence,
  with_rollback_fork_cursor, should_continue_competing_branch_replay,
  should_advance_commit_checkpoint,
}
use multichain_indexer.Ingester.Collect.{collect_events}
use multichain_indexer.Ingester.Build.{Prefetched, Building, build_event_models}
use multichain_indexer.Ingester.Write.{
  Statement, roll_back, move_watermark, CommitAnswer, commit_ok, commit_refused, commit_ambiguous,
  Answers, Ending, committed, failed, failed_terminal, reached, commit_ending, send,
  write_bulk_and_commit, write_built, ingest_prefetched, ingest_batch, after_rollback, settle_batch,
  with_canonical_cursors, is_committed, process_batch,
}

unfoldable pub last_of {ℓ} : {A : Type ℓ} → List A → Option A
last_of [] = none
last_of (x ∷ []) = some x
last_of (x ∷ y ∷ xs) = last_of (y ∷ xs)

-- The commit was acknowledged, or the watermark read after it shows that it took place.
unfoldable pub CommitSure : NormalizedBatch → Answers → Type 0
CommitSure b w =
    (w.commit ≡ commit_ok)
    ⊎ ((w.commit ≡ commit_ambiguous)
        × ((ingested : ℤ) × (w.probe ≡ some (some ingested)) × (b.new_cursor_sequence ≤ℤ ingested)))

-- The batch was written: the watermark is what was sent last, and the commit is sure.
unfoldable pub Written : NormalizedBatch → Answers → List Statement × Ending → Type 0
Written b w r = (last_of r.0 ≡ some (move_watermark b.new_cursor_sequence)) × CommitSure b w

reached_lem :
    (b : NormalizedBatch) (probe : Option (Option ℤ))
    → reached b probe ≡ true
    → (ingested : ℤ) × (probe ≡ some (some ingested)) × (b.new_cursor_sequence ≤ℤ ingested)
unfolding reached
reached_lem b none h = absurd cc
reached_lem b (some none) h = absurd cc
reached_lem b (some (some ingested)) h = (ingested, refl, leb_ℤ→le _ _ h)

terminal-not-committed : ¬ (failed_terminal ≡ committed)
terminal-not-committed h = cc

failed-not-committed : ¬ (failed ≡ committed)
failed-not-committed h = cc

commit_ending-CommitSure :
    (b : NormalizedBatch) (w : Answers) (answer : CommitAnswer)
    → w.commit ≡ answer
    → commit_ending b answer w.probe ≡ committed
    → CommitSure b w
unfolding CommitSure commit_ending
commit_ending-CommitSure b w commit_ok e h = inl e
commit_ending-CommitSure b w commit_refused e h = absurd (failed-not-committed h)
commit_ending-CommitSure b w commit_ambiguous e h = elim (Bool-cases (reached b w.probe)) [
  | inl r ↦ inr (e, reached_lem b w.probe r)
  | inr r ↦ absurd (terminal-not-committed (simp r at h))
]

last_of-cons :
    (x y : Statement) (log : List Statement) → last_of log ≡ some y → last_of (x ∷ log) ≡ some y
unfolding last_of
last_of-cons x y [] h = absurd cc
last_of-cons x y (z ∷ log) h = h

-- A statement in front of what was written.
send-Written :
    (b : NormalizedBatch) (w : Answers) (needed works : Bool) (s : Statement)
    (rest : List Statement × Ending)
    → (rest.1 ≡ committed → Written b w rest)
    → (send needed s works rest).1 ≡ committed
    → Written b w (send needed s works rest)
unfolding send Written
send-Written b w false works s rest h e = h e
send-Written b w true false s rest h e = absurd (failed-not-committed e)
send-Written b w true true s (log, ending) h e =
    let (l, c) = h e in (last_of-cons s (move_watermark b.new_cursor_sequence) log l, c)

watermark-Written :
    (b : NormalizedBatch) (w : Answers) (works : Bool)
    → let r =
        send true
          (move_watermark b.new_cursor_sequence)
          works
          ([], commit_ending b w.commit w.probe) in
      r.1 ≡ committed → Written b w r
unfolding send Written last_of
watermark-Written b w false e = absurd (failed-not-committed e)
watermark-Written b w true e = (refl, commit_ending-CommitSure b w w.commit refl e)

write-Written :
    (b : NormalizedBatch) (w : Answers) (s : Building)
    → (write_bulk_and_commit b w s).1 ≡ committed
    → Written b w (write_bulk_and_commit b w s)
unfolding write_bulk_and_commit
write-Written b w s =
    send-Written b w _ _ _ _ (
      send-Written b w _ _ _ _ (send-Written b w _ _ _ _ (watermark-Written b w w.watermark_works)))

write_built-Written :
    (b : NormalizedBatch) (w : Answers) (s : Option Building)
    → (write_built b w s).1 ≡ committed
    → Written b w (write_built b w s)
unfolding write_built
write_built-Written b w none h = absurd (failed-not-committed h)
write_built-Written b w (some s) h = write-Written b w s h

ingest_prefetched-Written :
    (b : NormalizedBatch) (w : Answers) (p : Option Prefetched)
    → (ingest_prefetched b w p).1 ≡ committed
    → Written b w (ingest_prefetched b w p)
unfolding ingest_prefetched
ingest_prefetched-Written b w none h = absurd (failed-not-committed h)
ingest_prefetched-Written b w (some p) h =
    write_built-Written b w (build_event_models p (collect_events b).all_events w.start) h

ingest_batch-Written :
    (b : NormalizedBatch) (w : Answers)
    → (ingest_batch b w).1 ≡ committed
    → Written b w (ingest_batch b w)
unfolding ingest_batch
ingest_batch-Written b w h = elim (Bool-cases w.address_map) [
  | inl a ↦ simp a (ingest_prefetched-Written b w w.prefetched (simp a at h))
  | inr a ↦ absurd (failed-not-committed (simp a at h))
]

-- Only the rollback was sent, and its commit was acknowledged.
unfoldable pub RolledBack : NormalizedBatch → Answers → List Statement × Ending → Type 0
RolledBack b w r =
    (r.0 ≡ roll_back (rollback_fork_cursor_sequence b) ∷ [])
    × (w.rollback_works ≡ true)
    × (w.rollback_commit ≡ true)

Done : NormalizedBatch → Answers → List Statement × Ending → Type 0
Done b w r = RolledBack b w r ⊎ Written b w r

send-stops :
    (s : Statement) (rest : List Statement × Ending)
    → (send true s false rest).1 ≡ committed
    → failed ≡ committed
unfolding send
send-stops s rest h = h

stopped-Done :
    (b : NormalizedBatch) (w : Answers) (commit_works : Bool)
    → w.rollback_works ≡ true
    → w.rollback_commit ≡ commit_works
    → let r =
        send true
          (roll_back (rollback_fork_cursor_sequence b))
          true
          ([], if commit_works then committed else failed) in
      r.1 ≡ committed → Done b w r
unfolding send RolledBack Done
stopped-Done b w true e c h = inl (refl, e, c)
stopped-Done b w false e c h = absurd (failed-not-committed h)

after_rollback-Done :
    (b : NormalizedBatch) (w : Answers) (works : Bool)
    → w.rollback_works ≡ works
    → let r = send true (roll_back (rollback_fork_cursor_sequence b)) works (after_rollback b w) in
      r.1 ≡ committed → Done b w r
unfolding after_rollback Done
after_rollback-Done b w false e h = absurd (failed-not-committed (send-stops _ _ h))
after_rollback-Done b w true e h = elim (Bool-cases (should_continue_competing_branch_replay b)) [
  | inl c ↦ simp c (
      inr (
        send-Written b w true true (roll_back (rollback_fork_cursor_sequence b)) (ingest_batch b w)
          (ingest_batch-Written b w) (simp c at h)))
  | inr c ↦ simp c (stopped-Done b w w.rollback_commit e refl (simp c at h))
]

settle_batch-Done :
    (b : NormalizedBatch) (w : Answers)
    → (settle_batch b w).1 ≡ committed
    → Done b w (settle_batch b w)
unfolding settle_batch with_rollback_fork_cursor Done
settle_batch-Done b w h =
    elim (Bool-cases (is_canonicality_drift b && not (is_btc_restart_anchor_replay b))) [
      | inl c ↦ simp c (after_rollback-Done b w w.rollback_works refl (simp c at h))
      | inr c ↦ simp c (inr (ingest_batch-Written b w (simp c at h)))
    ]

-- A batch ends committed only if its rollback was all that was sent and its commit was
-- acknowledged, or if the watermark moved to the new sequence was sent last and the commit was
-- acknowledged or, where the answer left it open, the watermark read afterwards has reached the
-- new sequence; the turn is then released with whether the checkpoint advances.
pub process_batch-committed :
    (batch : NormalizedBatch) (w : Answers)
    → let b = with_canonical_cursors batch in
      let r = process_batch batch w in
      r.1 ≡ committed
      → (RolledBack b w (r.0, committed) ⊎ Written b w (r.0, committed))
        × (r.2 ≡ some (should_advance_commit_checkpoint b))
unfolding process_batch Done RolledBack Written is_committed
process_batch-committed batch w h = elim (Bool-cases w.acquired) [
  | inl a ↦ elim (Bool-cases w.begun) [
    | inl g ↦
        let done : (settle_batch (with_canonical_cursors batch) w).1 ≡ committed =
          simp (a, g) at h in
        (simp (a, g) (settle_batch-Done (with_canonical_cursors batch) w done), simp (a, g, done))
    | inr g ↦ absurd (failed-not-committed (simp (a, g) at h))
  ]
  | inr a ↦ absurd (failed-not-committed (simp a at h))
]
