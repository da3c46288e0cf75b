-- ===== src/Autotune/Clamp.antt =====
-- autotune.go: the arithmetic helpers, with what they promise.
use multichain_indexer.Prelude.{
  if◌then◌else◌, ℤ, pos, ◌≤ℤ◌, ◌<ℤ◌, ltb_ℤ, leb_ℤ, eqb_ℤ, add64, sub64, mul64, Bool, false, ◌||◌,
  arith,
}

unfoldable pub clamp_int : ℤ → ℤ → ℤ → ℤ
clamp_int v min_v max_v =
    if ltb_ℤ max_v min_v
    then min_v
    else if ltb_ℤ v min_v
    then min_v
    else if ltb_ℤ max_v v
    then max_v
    else v

unfoldable pub min_int : ℤ → ℤ → ℤ
min_int a b = if ltb_ℤ a b then a else b

unfoldable pub max_int : ℤ → ℤ → ℤ
max_int a b = if ltb_ℤ b a then a else b

-- `x := cfg.X; if x <= 0 { x = d }`
unfoldable pub positive_or : ℤ → ℤ → ℤ
positive_or v d = if leb_ℤ v (pos 0) then d else v

-- `x := cfg.X; if x < 0 { x = 0 }`
unfoldable pub floor_zero : ℤ → ℤ
floor_zero v = if ltb_ℤ v (pos 0) then pos 0 else v

pub clamp_int_bounds :
    (v lo hi : ℤ) → lo ≤ℤ hi → (lo ≤ℤ clamp_int v lo hi) × (clamp_int v lo hi ≤ℤ hi)
unfolding clamp_int ltb_ℤ
clamp_int_bounds v lo hi h = ground arith

unfoldable pub is_queue_high : ℤ → ℤ → ℤ → Bool
is_queue_high depth capacity pct =
    if leb_ℤ capacity (pos 0) || ltb_ℤ depth (pos 0) || leb_ℤ pct (pos 0)
    then false
    else leb_ℤ (mul64 pct capacity) (mul64 depth (pos 100))

unfoldable pub is_queue_low : ℤ → ℤ → ℤ → Bool
is_queue_low depth capacity pct =
    if leb_ℤ capacity (pos 0) || ltb_ℤ depth (pos 0)
    then false
    else leb_ℤ (mul64 depth (pos 100)) (mul64 pct capacity)

unfoldable pub bounded_warm_start_batch : ℤ → ℤ → ℤ → ℤ → ℤ → ℤ → ℤ
unfolding clamp_int max_int
bounded_warm_start_batch base_batch seed_batch step_up step_down min_batch max_batch =
    let base = clamp_int base_batch min_batch max_batch in
    let seed = clamp_int seed_batch min_batch max_batch in
    let up = sub64 seed base in
    let up_limit = max_int step_up (pos 1) in
    let down = sub64 base seed in
    let down_limit = max_int step_down (pos 1) in
    if eqb_ℤ seed base
    then base
    else if ltb_ℤ base seed
    then clamp_int (add64 base (if ltb_ℤ up_limit up then up_limit else up)) min_batch max_batch
    else clamp_int (sub64 base (if ltb_ℤ down_limit down then down_limit else down)) min_batch
        max_batch

pub positive_or_pos : (v d : ℤ) → pos 0 <ℤ d → pos 0 <ℤ positive_or v d
unfolding positive_or leb_ℤ
positive_or_pos v d h = ground arith

pub floor_zero_nonneg : (v : ℤ) → pos 0 ≤ℤ floor_zero v
unfolding floor_zero ltb_ℤ
floor_zero_nonneg v = ground arith
