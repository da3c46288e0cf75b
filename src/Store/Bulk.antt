-- ===== src/Store/Bulk.antt =====
-- internal/store/postgres/balance_repo.go: the INSERT of BulkAdjustBalanceTx, and the whole statement.
use multichain_indexer.Prelude.{
  if◌then◌else◌, Bool-cases, All, All-map, ℤ, ◌+ℤ◌, eq_of_parts, +ℤ_parts, Text, eq_text, ◌≡◌, refl,
  sym, ap, ◌∙◌, inl, inr, Bool, true, false, some, List, [], ◌∷◌, arith,
}
use multichain_indexer.Store.{
  BalanceKey, same_key, BalanceRow, InputRow, has_row, insert_row, insert_rows, without_row,
  update_rows, adjust_cast,
}
use multichain_indexer.Store.Sums.{
  at_key, amount_at, delta_at, DistinctRows, has_input, DistinctInput,
}
use multichain_indexer.Store.Adjust.{
  same_key→eq, +ℤ_zero, zero_+ℤ, where_row, where_none, has_row-update_rows, update_rows-Distinct,
  amount_at-update_rows,
}

eq_text_comm : (s t : Text) → eq_text s t ≡ eq_text t s
unfolding eq_text
eq_text_comm [] [] = refl
eq_text_comm [] (b ∷ t) = refl
eq_text_comm (a ∷ s) [] = refl
eq_text_comm (a ∷ s) (b ∷ t) = ground (arith, eq_text_comm s t)

same_key_comm : (a b : BalanceKey) → same_key a b ≡ same_key b a
unfolding same_key
same_key_comm a b =
    ground (arith, eq_text_comm a.address b.address, eq_text_comm a.balance_type b.balance_type)

+ℤ_rotate : (a b c : ℤ) → (a +ℤ b) +ℤ c ≡ b +ℤ (a +ℤ c)
+ℤ_rotate a b c =
    eq_of_parts _ _
      (omega (arith, +ℤ_parts a b, +ℤ_parts a c, +ℤ_parts (a +ℤ b) c, +ℤ_parts b (a +ℤ c)))

-- No row of the input has its key in the table.
Fresh : List BalanceRow → List InputRow → Type 0
Fresh rows = All (λ (i : InputRow). has_row i.key rows ≡ false)

Fresh-insert :
    (i : InputRow) (is : List InputRow) (rows : List BalanceRow)
    → has_input i.key is ≡ false
    → Fresh rows is
    → Fresh (insert_row i ∷ rows) is
unfolding Fresh has_input has_row insert_row
Fresh-insert i [] rows n f = tt
Fresh-insert i (j ∷ is) rows n (f, fs) =
    (ground (arith, same_key_comm j.key i.key), Fresh-insert i is rows (ground arith) fs)

insert_rows_lem :
    (is : List InputRow) (rows : List BalanceRow)
    → DistinctInput is
    → Fresh rows is
    → DistinctRows rows
    → (new_rows : List BalanceRow) × (insert_rows is rows ≡ some new_rows)
      × DistinctRows new_rows
      × ((k : BalanceKey) → amount_at k new_rows ≡ amount_at k rows +ℤ delta_at k is)
unfolding DistinctInput Fresh insert_rows DistinctRows amount_at delta_at insert_row
insert_rows_lem [] rows h f d = (rows, refl, d, λ k. sym (+ℤ_zero (amount_at k rows)))
insert_rows_lem (i ∷ is) rows (n, h) (f, fs) d =
    let (r, e, dr, sums) =
      insert_rows_lem is (insert_row i ∷ rows) h (Fresh-insert i is rows n fs) (f, d) in
    let fresh : has_row i.key rows ≡ false = f in
    (
      r,
      ground (arith, e),
      dr,
      λ k. sums k ∙ +ℤ_rotate (at_key k i.key i.delta) (amount_at k rows) (delta_at k is),
    )

without_row_lem :
    (k : BalanceKey) (rows : List BalanceRow) (is : List InputRow)
    → delta_at k (without_row rows is) ≡ where_none (has_row k rows) (delta_at k is)
unfolding delta_at without_row at_key
without_row_lem k rows [] = elim (Bool-cases (has_row k rows)) [ inl e ↦ simp e | inr e ↦ simp e ]
without_row_lem k rows (i ∷ is) = elim (Bool-cases (same_key k i.key)) [
  | inl e ↦
      let same_row = ap (λ x. has_row x rows) (sym (same_key→eq k i.key e)) in
      elim (Bool-cases (has_row k rows)) [
        | inl r ↦ simp (same_row ∙ r, without_row_lem k rows is, r)
        | inr r ↦ simp (same_row ∙ r, e, without_row_lem k rows is, r)
      ]
  | inr e ↦ elim (Bool-cases (has_row i.key rows)) [
    | inl r ↦ simp (r, e, without_row_lem k rows is, zero_+ℤ (delta_at k is))
    | inr r ↦ simp (
      r,
      e,
      without_row_lem k rows is,
      zero_+ℤ (delta_at k is),
      zero_+ℤ (where_none (has_row k rows) (delta_at k is)),
    )
  ]
]

has_input-without_row :
    (k : BalanceKey) (rows : List BalanceRow) (is : List InputRow)
    → has_input k is ≡ false
    → has_input k (without_row rows is) ≡ false
unfolding has_input without_row
has_input-without_row k rows [] h = refl
has_input-without_row k rows (i ∷ is) h = ground (arith, has_input-without_row k rows is)

where_both : (b : Bool) (a d : ℤ) → (a +ℤ where_row b d) +ℤ where_none b d ≡ a +ℤ d
where_both true a d = +ℤ_zero (a +ℤ d)
where_both false a d = simp (+ℤ_zero a)

if_keeps {ℓ κ} :
    {A : Type ℓ} (P : A → Type κ) (c : Bool) {x y : A}
    → P x
    → (c ≡ false → P y)
    → P (if c then x else y)
if_keeps P true p q = p
if_keeps P false p q = q refl

without_row-DistinctInput :
    (rows : List BalanceRow) (is : List InputRow)
    → DistinctInput is
    → DistinctInput (without_row rows is)
unfolding DistinctInput without_row
without_row-DistinctInput rows [] h = tt
without_row-DistinctInput rows (i ∷ is) (n, h) =
    let rest = without_row-DistinctInput rows is h in
    if_keeps DistinctInput (has_row i.key rows) rest
      (λ r. (has_input-without_row i.key rows is n, rest))

without_row-Fresh : (rows : List BalanceRow) (is : List InputRow) → Fresh rows (without_row rows is)
unfolding Fresh without_row
without_row-Fresh rows [] = tt
without_row-Fresh rows (i ∷ is) =
    let rest = without_row-Fresh rows is in
    if_keeps (Fresh rows) (has_row i.key rows) rest (λ r. (r, rest))

-- For input rows of distinct keys the statement succeeds, keeps the rows distinct, and adds to each
-- key's balance what the input holds for it.
module _ (pick : InputRow → List InputRow → InputRow) (only : (i : InputRow) → pick i [] ≡ i) where
  Fresh-update_rows :
      (is js : List InputRow) (rows : List BalanceRow)
      → DistinctInput is
      → Fresh rows js
      → Fresh (update_rows pick is rows) js
  unfolding Fresh
  Fresh-update_rows is js rows h f =
      All-map (λ j e. has_row-update_rows pick only j.key is rows h ∙ e) js f

  pub adjust_cast_lem :
      (rows : List BalanceRow) (is : List InputRow)
      → DistinctRows rows
      → DistinctInput is
      → (new_rows : List BalanceRow) × (adjust_cast pick rows (some is) ≡ some new_rows)
        × DistinctRows new_rows
        × ((k : BalanceKey) → amount_at k new_rows ≡ amount_at k rows +ℤ delta_at k is)
  unfolding adjust_cast
  adjust_cast_lem rows is d h =
      let (r, e, dr, sums) =
        insert_rows_lem (without_row rows is) (update_rows pick is rows)
          (without_row-DistinctInput rows is h)
          (Fresh-update_rows is (without_row rows is) rows h (without_row-Fresh rows is))
          (update_rows-Distinct pick only is rows h d) in
      (
        r,
        e,
        dr,
        λ k.
            sums k
            ∙ simp (
              amount_at-update_rows pick only k is rows h d,
              without_row_lem k rows is,
              where_both (has_row k rows) (amount_at k rows) (delta_at k is),
            ),
      )
