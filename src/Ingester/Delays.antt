-- ===== src/Ingester/Delays.antt =====
-- internal/pipeline/ingester/ingester.go: retryDelay. A duration is nanoseconds in an int64. What
-- rand.Int64N draws is the parameter `draw`; it panics for a bound of zero or less, and so `none`.
use multichain_indexer.Prelude.{
  leb, if◌then◌else◌, Bool-cases, ℤ, pos, negsuc, ◌+ℤ◌, ◌-ℤ◌, ◌*ℤ◌, ◌≤ℤ◌, ◌<ℤ◌, ltb_ℤ, leb_ℤ,
  ltb_ℤ→ge, leb_ℤ→gt, lt→ltb_ℤ, gt→leb_ℤ, +ℤ_parts, wrap64, InInt64-between, add64, mul64,
  add64_of_InInt64, ℕ, zero, suc, ◌-◌, ◌/◌, ◌^◌, ◌≡◌, inl, inr, false, ◌&&◌, Option, none, some,
  arith,
}

-- Go's division of an int64 by four, which drops the fraction
unfoldable pub quarter : ℤ → ℤ
quarter (pos n) = pos (n / 4)
quarter (negsuc n) = pos 0 -ℤ pos (suc n / 4)

-- The loop that doubles, of so many rounds
unfoldable pub doubled : ℕ → ℤ → ℤ → ℤ
doubled zero retry_delay_max delay = delay
doubled (suc rounds) retry_delay_max delay =
    let rest = doubled rounds retry_delay_max (mul64 delay (pos 2)) in
    if ltb_ℤ (pos 0) retry_delay_max && leb_ℤ retry_delay_max (mul64 delay (pos 2))
    then retry_delay_max
    else rest

unfoldable pub base_delay : ℤ → ℤ → ℕ → ℤ
base_delay retry_delay_start retry_delay_max attempt =
    if leb attempt 1
    then (if ltb_ℤ (pos 0) retry_delay_max && ltb_ℤ retry_delay_max retry_delay_start
        then retry_delay_max
        else retry_delay_start)
    else doubled (attempt - 1) retry_delay_max retry_delay_start

module _ (draw : ℤ → ℤ) where
  unfoldable pub with_jitter : ℤ → Option ℤ
  with_jitter delay =
      if leb_ℤ delay (pos 0)
      then some delay
      else if leb_ℤ (quarter delay) (pos 0)
      then none
      else some (add64 delay (draw (quarter delay)))

  unfoldable pub retry_delay : ℤ → ℤ → ℕ → Option ℤ
  retry_delay retry_delay_start retry_delay_max attempt =
      if leb_ℤ retry_delay_start (pos 0)
      then some (pos 0)
      else with_jitter (base_delay retry_delay_start retry_delay_max attempt)

double_lem : (d : ℤ) → pos 0 ≤ℤ d → d ≤ℤ pos (2 ^ 61) → mul64 d (pos 2) ≡ d +ℤ d
unfolding mul64 ◌*ℤ◌ ◌+ℤ◌ wrap64
double_lem (pos n) h k = ground arith
double_lem (negsuc n) h k = absurd (omega arith)

Within : ℤ → ℤ → Type 0
Within most d = (pos 4 ≤ℤ d) × (d ≤ℤ most)

-- A round from a delay that may exceed the cap, with what the rounds after it come to.
doubled-step :
    (rounds : ℕ) (most delay : ℤ)
    → pos 4 ≤ℤ most
    → most ≤ℤ pos (2 ^ 61)
    → pos 4 ≤ℤ delay
    → delay ≤ℤ pos (2 ^ 61)
    → ((d : ℤ) → Within most d → Within most (doubled rounds most d))
    → Within most (doubled (suc rounds) most delay)
unfolding doubled Within
doubled-step rounds most delay a b c d keep =
    let twice = double_lem delay (omega arith) d in
    let positive = lt→ltb_ℤ (pos 0) most (omega arith) in
    elim (Bool-cases (leb_ℤ most (delay +ℤ delay))) [
      | inl h ↦ simp (twice, positive, h) (a, omega arith)
      | inr h ↦
          let low = leb_ℤ→gt most (delay +ℤ delay) h in
          simp (twice, positive, h)
            (keep (delay +ℤ delay) (omega (arith, +ℤ_parts delay delay), omega arith))
    ]

doubled-Within :
    (rounds : ℕ) (most delay : ℤ)
    → pos 4 ≤ℤ most
    → most ≤ℤ pos (2 ^ 61)
    → Within most delay
    → Within most (doubled rounds most delay)
unfolding Within doubled
doubled-Within zero most delay a b w = w
doubled-Within (suc rounds) most delay a b (c, d) =
    doubled-step rounds most delay a b c (omega arith) (λ e w. doubled-Within rounds most e a b w)

base_delay-Within :
    (start most : ℤ) (attempt : ℕ)
    → pos 4 ≤ℤ most
    → most ≤ℤ pos (2 ^ 61)
    → pos 4 ≤ℤ start
    → start ≤ℤ pos (2 ^ 61)
    → Within most (base_delay start most attempt)
unfolding base_delay Within
base_delay-Within start most zero a b c d =
    ground (arith, ltb_ℤ→ge most start, ltb_ℤ→ge (pos 0) most)
base_delay-Within start most (suc zero) a b c d =
    ground (arith, ltb_ℤ→ge most start, ltb_ℤ→ge (pos 0) most)
base_delay-Within start most (suc (suc n)) a b c d =
    let late : leb (suc (suc n)) 1 ≡ false = ground arith in
    let rounds : suc (suc n) - 1 ≡ suc n = omega arith in
    simp (late, rounds) (doubled-step n most start a b c d (λ e w. doubled-Within n most e a b w))

with_jitter-bounds :
    (draw : ℤ → ℤ)
    → ((n : ℤ) → pos 0 <ℤ n → (pos 0 ≤ℤ draw n) × (draw n <ℤ n))
    → (d most : ℤ) → pos 4 ≤ℤ d
    → d ≤ℤ most
    → most ≤ℤ pos (2 ^ 61)
    → (delay : ℤ) × (with_jitter draw d ≡ some delay)
      × (pos 4 ≤ℤ delay)
      × (delay ≤ℤ most +ℤ quarter most)
unfolding with_jitter quarter
with_jitter-bounds draw law (negsuc n) most a b c = absurd (omega arith)
with_jitter-bounds draw law (pos n) (negsuc m) a b c = absurd (omega arith)
with_jitter-bounds draw law (pos n) (pos m) a b c =
    let (low, high) = law (pos (n / 4)) (omega arith) in
    let j = draw (pos (n / 4)) in
    let sum = +ℤ_parts (pos n) j in
    let cap = +ℤ_parts (pos m) (pos (m / 4)) in
    let exact : add64 (pos n) j ≡ pos n +ℤ j = add64_of_InInt64 (pos n) j (
      InInt64-between (pos 0) (pos n +ℤ j) (pos (2 ^ 62)) (omega arith, omega arith)
        (omega arith, omega arith) (omega arith) (omega arith)) in
    (
      pos n +ℤ j,
      simp (
        gt→leb_ℤ (pos n) (pos 0) (omega arith),
        gt→leb_ℤ (pos (n / 4)) (pos 0) (omega arith),
        exact,
      ),
      omega arith,
      omega arith,
    )

-- For a start and a cap of four nanoseconds at least and 2^61 at most, and draws inside their
-- bound, the pause before any attempt is computed with no panic and no overflow: four nanoseconds
-- at least, and the cap and a quarter of it at most.
pub retry_delay-bounds :
    (draw : ℤ → ℤ)
    → ((n : ℤ) → pos 0 <ℤ n → (pos 0 ≤ℤ draw n) × (draw n <ℤ n))
    → (start most : ℤ) (attempt : ℕ) → pos 4 ≤ℤ most
    → most ≤ℤ pos (2 ^ 61)
    → pos 4 ≤ℤ start
    → start ≤ℤ pos (2 ^ 61)
    → (delay : ℤ) × (retry_delay draw start most attempt ≡ some delay)
      × (pos 4 ≤ℤ delay)
      × (delay ≤ℤ most +ℤ quarter most)
unfolding retry_delay Within
retry_delay-bounds draw law start most attempt a b c d =
    let (low, high) = base_delay-Within start most attempt a b c d in
    simp (gt→leb_ℤ start (pos 0) (omega arith))
      (with_jitter-bounds draw law (base_delay start most attempt) most low high b)
