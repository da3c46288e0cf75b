-- ===== src/Coordinator.antt =====
-- internal/pipeline/coordinator/coordinator.go: the ticks that turn the chain's head and the
-- watermark into fetch jobs. What the repositories, the head provider and the channels answer
-- during a tick is a record `World`; what a tick sends is returned.
use multichain_indexer.Prelude.{
  ltb, if◌then◌else◌, ℤ, pos, negsuc, ltb_ℤ, leb_ℤ, eqb_ℤ, add64, sub64, Text, ◌-◌, ◌%◌, ◌^◌, Bool,
  true, false, ◌&&◌, not, Option, none, some, List, [], ◌∷◌,
}
use multichain_indexer.Autotune.Types.{Inputs, Controller}
use multichain_indexer.Autotune.Clamp.{floor_zero}
use multichain_indexer.Autotune.Resolve.{resolve}
pub mod Tuning
pub mod Starts
pub mod Ranges
pub mod Repeats
pub mod CatchUp

-- The fields that say whether a provider, a repository or a channel is set are Booleans.
pub record Coordinator : Type 0 where
  pub chain : Text
  pub network : Text
  pub batch_size : ℤ
  pub interval_ns : ℤ
  pub has_head_provider : Bool
  pub has_wm_repo : Bool
  pub has_backfill_ch : Bool
  pub auto_tune : Option Controller
  pub max_initial_lookback_blocks : ℤ
  pub has_enqueued : Bool
  pub last_enqueued_start : ℤ
  pub last_enqueued_end : ℤ

-- The fields that a block scan leaves unset (address, cursor, wallet) are left out.
pub record FetchJob : Type 0 where
  pub chain : Text
  pub network : Text
  pub fetch_cutoff_seq : ℤ
  pub batch_size : ℤ
  pub block_scan_mode : Bool
  pub start_block : ℤ
  pub end_block : ℤ
  pub watched_addresses : List Text

-- A request of the backfill channel is its `FromBlock`; chain and network are the coordinator's.
pub data Sent : Type 0 where
  sent_job : FetchJob → Sent
  sent_backfill : ℤ → Sent

pub data Outcome : Type 0 where
  done addresses_failed head_failed context_done : Outcome

-- `none` where a call fails. `watermark` is the ingested sequence of a row, if there is one;
-- `pending` holds the `BackfillFromBlock` of the pending addresses.
pub record World : Type 0 where
  pub addresses : Option (List Text)
  pub head : Option ℤ
  pub watermark : Option (Option ℤ)
  pub queue_depth : ℤ
  pub queue_capacity : ℤ
  pub job_taken : Bool
  pub pending : Option (List (Option ℤ))
  pub backfill_taken : Bool

-- `head := int64(0); if c.headProvider != nil { … }`
unfoldable pub floored : Option ℤ → Option ℤ
floored none = none
floored (some head) = some (floor_zero head)

unfoldable pub head_of : Coordinator → World → Option ℤ
head_of c w = if c.has_head_provider then floored w.head else some (pos 0)

-- The start after the watermark, where there is one; a failed read is logged and counts as none.
unfoldable pub start_after : Option (Option ℤ) → Option ℤ
start_after (some (some ingested)) =
    if ltb_ℤ (pos 0) ingested then some (add64 ingested (pos 1)) else none
start_after _ = none

unfoldable pub watermark_start : Coordinator → World → Option ℤ
watermark_start c w = if c.has_wm_repo then start_after w.watermark else none

unfoldable pub has_watermark : Coordinator → World → Bool
has_watermark c w = elim (watermark_start c w) [ some start ↦ true | none ↦ false ]

-- The first run starts near the head.
unfoldable pub start_near_head : Coordinator → ℤ → ℤ
start_near_head c head =
    if ltb_ℤ (pos 0) head && ltb_ℤ (pos 0) c.max_initial_lookback_blocks
    then floor_zero (add64 (sub64 head c.max_initial_lookback_blocks) (pos 1))
    else pos 0

unfoldable pub start_from : Coordinator → ℤ → Option ℤ → ℤ
start_from c head none = start_near_head c head
start_from c head (some start) = start

unfoldable pub start_block_of : Coordinator → World → ℤ → ℤ
start_block_of c w head = start_from c head (watermark_start c w)

-- The inputs of the auto-tune controller; the fields that a tick does not set are zero.
unfoldable pub tune_inputs : Coordinator → World → ℤ → ℤ → Inputs
tune_inputs c w head start = record {
  chain = c.chain;
  network = c.network;
  has_head_signal = c.has_head_provider;
  head_sequence = head;
  has_min_cursor_signal = true;
  min_cursor_sequence = start;
  queue_depth = w.queue_depth;
  queue_capacity = w.queue_capacity;
  rpc_error_rate_bps = pos 0;
  db_commit_latency_p95_ms = pos 0;
  decision_epoch_ms = pos 0;
}

-- The batch of this tick, the controller having decided where there is one.
unfoldable pub tune_by : Coordinator → Inputs → Option Controller → Coordinator × ℤ
tune_by c inputs none = (c, c.batch_size)
tune_by c inputs (some a) =
    let a1 = (resolve a inputs).0 in
    (
      record c { auto_tune = some a1 },
      if leb_ℤ a1.current_batch (pos 0) then c.batch_size else a1.current_batch,
    )

unfoldable pub tune : Coordinator → Inputs → Coordinator × ℤ
tune c inputs = tune_by c inputs c.auto_tune

unfoldable pub end_block_of : ℤ → ℤ → ℤ → ℤ
end_block_of head start batch =
    if ltb_ℤ (pos 0) head && ltb_ℤ batch (add64 (sub64 head start) (pos 1))
    then sub64 (add64 start batch) (pos 1)
    else head

unfoldable pub already_enqueued : Coordinator → ℤ → ℤ → Bool
already_enqueued c start end =
    c.has_wm_repo
    && c.has_enqueued
    && eqb_ℤ start c.last_enqueued_start
    && eqb_ℤ end c.last_enqueued_end

unfoldable pub job_of : Coordinator → List Text → ℤ → ℤ → ℤ → FetchJob
job_of c addresses batch start end = record {
  chain = c.chain;
  network = c.network;
  fetch_cutoff_seq = end;
  batch_size = batch;
  block_scan_mode = true;
  start_block = start;
  end_block = end;
  watched_addresses = addresses;
}

-- The request for the addresses that wait for blocks before `start`.
unfoldable pub backfill_before : ℤ → Bool → Option (List (Option ℤ)) → List Sent
backfill_before start taken (some (some from ∷ rest)) =
    if ltb_ℤ from start && taken then sent_backfill from ∷ [] else []
backfill_before start taken _ = []

unfoldable pub backfill_of : Coordinator → World → ℤ → List Sent
backfill_of c w start =
    if c.has_backfill_ch && has_watermark c w
    then backfill_before start w.backfill_taken w.pending
    else []

-- From the test for a duplicate to the end of the tick.
unfoldable pub enqueue :
    Coordinator → World → List Text → ℤ → ℤ → ℤ → Coordinator × List Sent × Outcome
enqueue c w addresses batch start end =
    if already_enqueued c start end
    then (c, [], done)
    else if w.job_taken
    then (
      record c { has_enqueued = true; last_enqueued_start = start; last_enqueued_end = end },
      sent_job (job_of c addresses batch start end) ∷ backfill_of c w start,
      done,
    )
    else (c, [], context_done)

-- The tick once the addresses and the head are known.
unfoldable pub scan_to : Coordinator → World → List Text → ℤ → Coordinator × List Sent × Outcome
scan_to c w addresses head =
    let start = start_block_of c w head in
    let tuned = tune c (tune_inputs c w head start) in
    if ltb_ℤ (pos 0) head && ltb_ℤ head start
    then (c, [], done)
    else enqueue tuned.0 w addresses tuned.1 start (end_block_of head start tuned.1)

unfoldable pub scan : Coordinator → World → List Text → Option ℤ → Coordinator × List Sent × Outcome
scan c w [] head = (c, [], done)
scan c w (a ∷ addresses) none = (c, [], head_failed)
scan c w (a ∷ addresses) (some head) = scan_to c w (a ∷ addresses) head

unfoldable pub tick_for :
    Coordinator → World → Option (List Text) → Coordinator × List Sent × Outcome
tick_for c w none = (c, [], addresses_failed)
tick_for c w (some addresses) = scan c w addresses (head_of c w)

unfoldable pub tick : Coordinator → World → Coordinator × List Sent × Outcome
tick c w = tick_for c w w.addresses

-- `int32(n)`: two's complement at 32 bits.
unfoldable pub wrap32 : ℤ → ℤ
wrap32 (pos n) = let m = n % 2 ^ 32 in if ltb m (2 ^ 31) then pos m else negsuc (2 ^ 32 - 1 - m)
wrap32 (negsuc n) = let m = n % 2 ^ 32 in if ltb m (2 ^ 31) then negsuc m else pos (2 ^ 32 - 1 - m)

unfoldable pub update_batch_size : Coordinator → ℤ → Coordinator
update_batch_size c n = if leb_ℤ n (pos 0) then c else record c { batch_size = wrap32 n }

-- The flag is true where the interval changed, and then `Run` resets its ticker.
unfoldable pub update_interval : Coordinator → ℤ → Coordinator × Bool
update_interval c n =
    if leb_ℤ n (pos 0)
    then (c, false)
    else (record c { interval_ns = n }, not (eqb_ℤ c.interval_ns n))
