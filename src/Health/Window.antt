-- ===== src/Health/Window.antt =====
-- health.go: the ring of latencies and the percentile over it.
use mathlib.Core.List.{append-nil, append_assoc}
use multichain_indexer.Prelude.{
  ltb, if◌then◌else◌, length, set, take, length-append, length-set, length-take, ℤ, ℕ, zero, suc,
  ◌+◌, ◌-◌, ◌%◌, ◌≤◌, ◌<◌, ◌≡◌, refl, ap, ◌∙◌, ◌⊎◌, inl, inr, List, [], ◌∷◌, ◌++◌, arith,
}
use multichain_indexer.Health.{latency_window_size, PipelineHealth, push_latency}

-- The ring is full, or it has been filled from its start up to its head.
pub record HasRing (h : PipelineHealth) : Type 0 where
  pub ring : length h.latency_buf ≡ latency_window_size
  pub head : h.latency_head < latency_window_size
  pub count : h.latency_count ≤ latency_window_size
  pub filled : h.latency_count < latency_window_size → h.latency_head ≡ h.latency_count

abbrev pub drop {ℓ} : {A : Type ℓ} → ℕ → List A → List A
drop zero xs = xs
drop (suc n) [] = []
drop (suc n) (x ∷ xs) = drop n xs

-- The latencies of the window, oldest first.
unfoldable pub recent : PipelineHealth → List ℤ
recent h =
    if ltb h.latency_count latency_window_size
    then take h.latency_count h.latency_buf
    else drop h.latency_head h.latency_buf ++ take h.latency_head h.latency_buf

take-set :
    (xs : List ℤ) (i : ℕ) (v : ℤ)
    → i < length xs
    → take (suc i) (set xs i v) ≡ take i xs ++ (v ∷ [])
take-set [] i v h = absurd (omega arith)
take-set (x ∷ xs) zero v h = refl
take-set (x ∷ xs) (suc i) v h = ap (λ ys. x ∷ ys) (take-set xs i v (omega arith))

drop-set : (xs : List ℤ) (i : ℕ) (v : ℤ) → drop (suc i) (set xs i v) ≡ drop (suc i) xs
drop-set [] i v = refl
drop-set (x ∷ xs) zero v = refl
drop-set (x ∷ xs) (suc i) v = drop-set xs i v

drop-suc : (xs : List ℤ) (i : ℕ) → drop (suc i) xs ≡ drop 1 (drop i xs)
drop-suc [] zero = refl
drop-suc [] (suc i) = refl
drop-suc (x ∷ xs) zero = refl
drop-suc (x ∷ xs) (suc i) = drop-suc xs i

-- What a queue of at most ten latencies becomes when one more is recorded.
unfoldable pub enqueue : List ℤ → ℤ → List ℤ
enqueue q d = (if ltb (length q) latency_window_size then q else drop 1 q) ++ (d ∷ [])

pub push_latency-HasRing : (h : PipelineHealth) (d : ℤ) → HasRing h → HasRing (push_latency h d)
unfolding push_latency
push_latency-HasRing h d v = ground (arith, length-set h.latency_buf h.latency_head d)

full_cases : (n : ℕ) → n ≤ 10 → (n < 9) ⊎ (n ≡ 9) ⊎ (n ≡ 10)
full_cases n h = ground arith

take_whole : (n : ℕ) (xs : List ℤ) → length xs ≡ n → take n xs ≡ xs
take_whole zero [] h = refl
take_whole zero (x ∷ xs) h = absurd (omega arith)
take_whole (suc n) [] h = refl
take_whole (suc n) (x ∷ xs) h = ap (λ ys. x ∷ ys) (take_whole n xs (omega arith))

drop_one_append : (xs ys : List ℤ) → 0 < length xs → drop 1 (xs ++ ys) ≡ drop 1 xs ++ ys
drop_one_append [] ys h = absurd (omega arith)
drop_one_append (x ∷ xs) ys h = refl

length-drop : (n : ℕ) (xs : List ℤ) → length (drop n xs) ≡ length xs - n
length-drop zero xs = omega arith
length-drop (suc n) [] = omega arith
length-drop (suc n) (x ∷ xs) = omega (arith, length-drop n xs)

drop_all : (n : ℕ) (xs : List ℤ) → length xs ≡ n → drop n xs ≡ []
drop_all zero [] h = refl
drop_all zero (x ∷ xs) h = absurd (omega arith)
drop_all (suc n) [] h = refl
drop_all (suc n) (x ∷ xs) h = drop_all n xs (omega arith)

-- The three ways that a ring of ten takes one more.
ring_filling :
    (buf : List ℤ) (n : ℕ) (d : ℤ)
    → length buf ≡ 10
    → n < 9
    → take (n + 1) (set buf n d) ≡ enqueue (take n buf) d
unfolding enqueue
ring_filling buf n d l a = ground (arith, length-take n buf, take-set buf n d)

ring_filled : (buf : List ℤ) (d : ℤ) → length buf ≡ 10 → set buf 9 d ≡ enqueue (take 9 buf) d
unfolding enqueue
ring_filled buf d l =
    ground
      (arith, length-take 9 buf, length-set buf 9 d, take_whole 10 (set buf 9 d), take-set buf 9 d)

ring_turning :
    (buf : List ℤ) (i : ℕ) (d : ℤ)
    → length buf ≡ 10
    → i < 9
    → drop (i + 1) (set buf i d) ++ take (i + 1) (set buf i d)
      ≡ enqueue (drop i buf ++ take i buf) d
unfolding enqueue
ring_turning buf i d l h = ground (
  arith,
  length-drop i buf,
  length-take i buf,
  length-append (drop i buf) (take i buf),
  drop_one_append (drop i buf) (take i buf),
  drop-suc buf i,
  drop-set buf i d,
  take-set buf i d,
  append_assoc (drop 1 (drop i buf)) (take i buf) (d ∷ []),
)

ring_turned :
    (buf : List ℤ) (d : ℤ) → length buf ≡ 10 → set buf 9 d ≡ enqueue (drop 9 buf ++ take 9 buf) d
unfolding enqueue
ring_turned buf d l = ground (
  arith,
  length-drop 9 buf,
  length-take 9 buf,
  length-append (drop 9 buf) (take 9 buf),
  drop_one_append (drop 9 buf) (take 9 buf),
  drop-suc buf 9,
  length-drop 10 buf,
  drop_all 10 buf,
  length-set buf 9 d,
  take_whole 10 (set buf 9 d),
  take-set buf 9 d,
)

ring_cases :
    (buf : List ℤ) (i n : ℕ) (d : ℤ)
    → length buf ≡ 10
    → i < 10
    → n ≤ 10
    → (n < 10 → i ≡ n)
    → (let n' = if ltb n 10 then n + 1 else n in
        let i' = (i + 1) % 10 in
        let buf' = set buf i d in if ltb n' 10 then take n' buf' else drop i' buf' ++ take i' buf')
      ≡ enqueue (if ltb n 10 then take n buf else drop i buf ++ take i buf) d
unfolding enqueue
ring_cases buf i n d l hi hn f = elim (full_cases n hn) [
  | inl a ↦ let e : i ≡ n = f (omega (arith, a)) in ground (arith, a, e, ring_filling buf n d l a)
  | inr (inl b) ↦
      let e : i ≡ 9 = f (omega (arith, b)) ∙ b in
      ground (arith, b, e, ring_filled buf d l, append-nil (set buf 9 d))
  | inr (inr c) ↦ elim (full_cases i (omega (arith, hi))) [
    | inl a ↦
        let h : (i + 1) % 10 ≡ i + 1 = omega (arith, a) in
        ground (arith, c, h, ring_turning buf i d l a)
    | inr (inl b) ↦ ground (arith, b, c, ring_turned buf d l, append-nil (set buf 9 d))
    | inr (inr b) ↦ absurd (omega (arith, b, hi))
  ]
]

-- After a latency is recorded in a well-formed ring, the window read oldest first is what a queue
-- of ten would hold: the latency joins at the end, and the oldest leaves once ten are there.
pub recent-push_latency :
    (h : PipelineHealth) (d : ℤ) → HasRing h → recent (push_latency h d) ≡ enqueue (recent h) d
unfolding recent push_latency enqueue
recent-push_latency h d v =
    ring_cases h.latency_buf h.latency_head h.latency_count d v.ring v.head v.count v.filled
