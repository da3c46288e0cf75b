-- ===== src/Store/Adjust.antt =====
-- internal/store/postgres/balance_repo.go: what the UPDATE of BulkAdjustBalanceTx does to the sum of
-- a key.
use multichain_indexer.Prelude.{
  Bool-cases, ℤ, pos, ◌+ℤ◌, eq_of_parts, +ℤ_parts, eq_text_refl, eq_text→eq, ◌≡◌, refl, sym, ap,
  ◌∙◌, ◌⊎◌, inl, inr, Bool, true, false, List, [], ◌∷◌, arith,
}
use multichain_indexer.Store.{
  BalanceKey, same_key, BalanceRow, InputRow, joined, has_row, update_by, update_rows,
}
use multichain_indexer.Store.Sums.{
  at_key, amount_at, delta_at, DistinctRows, has_input, DistinctInput,
}

pub same_key_refl : (k : BalanceKey) → same_key k k ≡ true
unfolding same_key
same_key_refl k = ground (arith, eq_text_refl k.address, eq_text_refl k.balance_type)

pub same_key→eq : (a b : BalanceKey) → same_key a b ≡ true → a ≡ b
unfolding same_key
same_key→eq a b h =
    ground (arith, eq_text→eq a.address b.address, eq_text→eq a.balance_type b.balance_type)

-- Integers, for sums.
pub +ℤ_zero : (a : ℤ) → a +ℤ pos 0 ≡ a
unfolding ◌+ℤ◌
+ℤ_zero a = ground arith

pub zero_+ℤ : (a : ℤ) → pos 0 +ℤ a ≡ a
unfolding ◌+ℤ◌
zero_+ℤ a = ground arith

pub +ℤ_swap : (a b c d : ℤ) → (a +ℤ b) +ℤ (c +ℤ d) ≡ (a +ℤ c) +ℤ (b +ℤ d)
+ℤ_swap a b c d = eq_of_parts _ _ (
    omega (
      arith,
      +ℤ_parts a b,
      +ℤ_parts c d,
      +ℤ_parts a c,
      +ℤ_parts b d,
      +ℤ_parts (a +ℤ b) (c +ℤ d),
      +ℤ_parts (a +ℤ c) (b +ℤ d),
    ))

pub absent :
    (k : BalanceKey) (is : List InputRow)
    → has_input k is ≡ false
    → (joined k is ≡ []) × (delta_at k is ≡ pos 0)
unfolding has_input joined delta_at at_key
absent k [] h = (refl, refl)
absent k (i ∷ is) h = ground (arith, absent k is, zero_+ℤ (delta_at k is))

-- Of distinct keys, one input row at most joins a balance.
joined_one :
    (k : BalanceKey) (is : List InputRow)
    → DistinctInput is
    → ((joined k is ≡ []) × (delta_at k is ≡ pos 0))
      ⊎ ((i : InputRow) × (joined k is ≡ i ∷ []) × (delta_at k is ≡ i.delta))
unfolding DistinctInput joined delta_at at_key
joined_one k [] h = inl (refl, refl)
joined_one k (i ∷ is) (h, hs) = elim (Bool-cases (same_key k i.key)) [
  | inl e ↦
      let (j, d) = absent k is (ap (λ x. has_input x is) (same_key→eq k i.key e) ∙ h) in
      inr (i, simp (e, j), simp (e, d, +ℤ_zero i.delta))
  | inr e ↦ elim (joined_one k is hs) [
    | inl (j, d) ↦ inl (simp (e, j), simp (e, d, zero_+ℤ (pos 0)))
    | inr (r, j, d) ↦ inr (r, simp (e, j), simp (e, d, zero_+ℤ r.delta))
  ]
]

-- The sum over a key of the input, where the key has a row.
abbrev pub where_row : Bool → ℤ → ℤ
where_row true d = d
where_row false d = pos 0

abbrev pub where_none : Bool → ℤ → ℤ
where_none true d = pos 0
where_none false d = d

module _ (pick : InputRow → List InputRow → InputRow) (only : (i : InputRow) → pick i [] ≡ i) where
  update_by-amount :
      (b : BalanceRow) (is : List InputRow)
      → DistinctInput is
      → ((update_by pick b (joined b.key is)).key ≡ b.key)
        × ((update_by pick b (joined b.key is)).amount ≡ b.amount +ℤ delta_at b.key is)
  unfolding update_by
  update_by-amount b is h = elim (joined_one b.key is h) [
    | inl (j, d) ↦ (simp j, simp (j, d, +ℤ_zero b.amount))
    | inr (i, j, d) ↦ (simp j, simp (j, d, only i))
  ]

  pub has_row-update_rows :
      (k : BalanceKey) (is : List InputRow) (bs : List BalanceRow)
      → DistinctInput is
      → has_row k (update_rows pick is bs) ≡ has_row k bs
  unfolding has_row update_rows
  has_row-update_rows k is [] h = refl
  has_row-update_rows k is (b ∷ bs) h =
      simp ((update_by-amount b is h).0, has_row-update_rows k is bs h)

  pub update_rows-Distinct :
      (is : List InputRow) (bs : List BalanceRow)
      → DistinctInput is
      → DistinctRows bs
      → DistinctRows (update_rows pick is bs)
  unfolding DistinctRows update_rows
  update_rows-Distinct is [] h d = tt
  update_rows-Distinct is (b ∷ bs) h (n, d) = (
    simp ((update_by-amount b is h).0, has_row-update_rows b.key is bs h, n),
    update_rows-Distinct is bs h d,
  )

  pub amount_at-update_rows :
      (k : BalanceKey) (is : List InputRow) (bs : List BalanceRow)
      → DistinctInput is
      → DistinctRows bs
      → amount_at k (update_rows pick is bs)
        ≡ amount_at k bs +ℤ where_row (has_row k bs) (delta_at k is)
  unfolding amount_at update_rows DistinctRows has_row at_key
  amount_at-update_rows k is [] h d = sym (+ℤ_zero (pos 0))
  amount_at-update_rows k is (b ∷ bs) h (n, d) = elim (Bool-cases (same_key k b.key)) [
    | inl e ↦
        let k_absent : has_row k bs ≡ false = ap (λ x. has_row x bs) (same_key→eq k b.key e) ∙ n in
        let d_k : delta_at b.key is ≡ delta_at k is =
          ap (λ x. delta_at x is) (sym (same_key→eq k b.key e)) in
        simp (
          (update_by-amount b is h).0,
          (update_by-amount b is h).1,
          amount_at-update_rows k is bs h d,
          e,
          k_absent,
          d_k,
          +ℤ_swap b.amount (delta_at k is) (amount_at k bs) (pos 0),
          +ℤ_zero (delta_at k is),
        )
    | inr e ↦ simp (
      (update_by-amount b is h).0,
      amount_at-update_rows k is bs h d,
      e,
      zero_+ℤ (amount_at k bs),
      zero_+ℤ (amount_at k bs +ℤ where_row (has_row k bs) (delta_at k is)),
    )
  ]
