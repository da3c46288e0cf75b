-- ===== src/ReorgDetector/Chain.antt =====
-- internal/pipeline/reorgdetector/detector.go: what a broken chain of parent hashes is, and what an
-- answer of the chain says.
use mathlib.Core.Path.{subst}
use multichain_indexer.Prelude.{
  Bool-cases, All, length, ℤ, pos, eqb_ℤ, eqb_ℤ_iff, sub64, Text, eq_text→eq, text-cases, ◌≤◌, ◌≡◌,
  refl, sym, ap, ◌⊎◌, inl, inr, true, false, Option, none, some, List, [], ◌∷◌, arith,
}
use multichain_indexer.Ingester.Reversal.{IndexedBlock}
use multichain_indexer.ReorgDetector.{
  ReorgEvent, agrees, differs, find_hash, hash_by_number, breaks_with, first_break,
  verify_parent_hash_chain, parents_differ, verdict_of, emit_reorg, known,
}

-- Some element of a list satisfies a predicate.
unfoldable pub Some : {A : Type 0} → (A → Type 0) → List A → Type 0
Some P [] = ⊥
Some P (x ∷ xs) = P x ⊎ Some P xs

-- The block that stands one below another, with a hash.
abbrev pub StandsBelow : IndexedBlock → Text → IndexedBlock → Type 0
StandsBelow b hash p = (p.block_number ≡ sub64 b.block_number (pos 1)) × (p.block_hash ≡ hash)

-- A block fits the list: it tells no parent hash, or the list has no block one below it, or the one
-- there has the hash that it tells. It breaks with the list where that one has another hash.
unfoldable pub FitsIn : List IndexedBlock → IndexedBlock → Type 0
FitsIn bs b =
    (b.parent_hash ≡ [])
    ⊎ All (λ (p : IndexedBlock). ¬ (p.block_number ≡ sub64 b.block_number (pos 1))) bs
    ⊎ Some (StandsBelow b b.parent_hash) bs

unfoldable pub BreaksIn : List IndexedBlock → IndexedBlock → Type 0
BreaksIn bs b =
    (¬ (b.parent_hash ≡ []))
    × (hash : Text) × (¬ (b.parent_hash ≡ hash))
    × Some (StandsBelow b hash) bs

-- What an event says: the number of the block, its hash in the table, and the hash seen instead.
unfoldable pub Reports : IndexedBlock → Text → ReorgEvent → Type 0
Reports b actual e =
    (e.fork_block_number ≡ b.block_number)
    × (e.expected_hash ≡ b.block_hash)
    × (e.actual_hash ≡ actual)

-- The event is about the first block that breaks with the list.
unfoldable pub Broken : List IndexedBlock → List IndexedBlock → Option ReorgEvent → Type 0
Broken all [] e = ⊥
Broken all (b ∷ bs) e =
    (BreaksIn all b × (r : ReorgEvent) × (e ≡ some r) × Reports b b.block_hash r)
    ⊎ (FitsIn all b × Broken all bs e)

-- The chain's answer has the block's hash, and the same parent hash where both are told.
unfoldable pub Agrees : IndexedBlock → Text → Text → Type 0
Agrees b hash parent =
    (hash ≡ b.block_hash) × ((b.parent_hash ≡ []) ⊎ (parent ≡ []) ⊎ (b.parent_hash ≡ parent))

-- It has another hash, or another parent hash where both are told.
unfoldable pub Differs : IndexedBlock → Text → Text → Type 0
Differs b hash parent =
    (¬ (hash ≡ b.block_hash))
    ⊎ ((¬ (b.parent_hash ≡ [])) × (¬ (parent ≡ [])) × (¬ (b.parent_hash ≡ parent)))

some_same : {A : Type 0} {a b : A} → some a ≡ some b → a ≡ b
some_same h = cc

parents_differ-cases :
    (a b : Text)
    → (parents_differ a b ≡ false) × ((a ≡ []) ⊎ (b ≡ []) ⊎ (a ≡ b))
      ⊎ (parents_differ a b ≡ true) × ((¬ (a ≡ [])) × (¬ (b ≡ [])) × (¬ (a ≡ b)))
unfolding parents_differ
parents_differ-cases a b = elim (text-cases a []) [
  | inl (h, e) ↦ inl (simp h, inl e)
  | inr (h, n) ↦ elim (text-cases b []) [
    | inl (k, e) ↦ inl (simp (h, k), inr (inl e))
    | inr (k, m) ↦ elim (text-cases a b) [
      | inl (l, e) ↦ inl (simp (h, k, l), inr (inr e))
      | inr (l, o) ↦ inr (simp (h, k, l), (n, m, o))
    ]
  ]
]

-- The verdict on an answer tells whether it agrees or differs.
pub answered :
    (b : IndexedBlock) (hash parent : Text)
    → (verdict_of b (some (hash, parent)) ≡ agrees hash) × Agrees b hash parent
      ⊎ (verdict_of b (some (hash, parent)) ≡ differs hash) × Differs b hash parent
unfolding verdict_of Agrees Differs
answered b hash parent = elim (text-cases hash b.block_hash) [
  | inr (h, n) ↦ inr (simp h, inl n)
  | inl (h, e) ↦ elim (parents_differ-cases b.parent_hash parent) [
    | inl (k, p) ↦ inl (simp (h, k), (e, p))
    | inr (k, p) ↦ inr (simp (h, k), inr p)
  ]
]

found-StandsBelow :
    (b : IndexedBlock) (bs : List IndexedBlock) (hash : Text)
    → find_hash (sub64 b.block_number (pos 1)) (hash_by_number bs) ≡ some hash
    → Some (StandsBelow b hash) bs
unfolding find_hash hash_by_number Some
found-StandsBelow b [] hash h = absurd cc
found-StandsBelow b (p ∷ bs) hash h =
    elim (Bool-cases (eqb_ℤ (sub64 b.block_number (pos 1)) p.block_number)) [
      | inl e ↦ inl (sym ((eqb_ℤ_iff _ _).0 e), some_same (simp e at h))
      | inr e ↦ inr (found-StandsBelow b bs hash (simp e at h))
    ]

some-not-none : {A : Type 0} {a : A} → ¬ (some a ≡ none)
some-not-none h = cc

none_below :
    (n : ℤ) (bs : List IndexedBlock)
    → find_hash n (hash_by_number bs) ≡ none
    → All (λ (p : IndexedBlock). ¬ (p.block_number ≡ n)) bs
unfolding find_hash hash_by_number
none_below n [] h = tt
none_below n (p ∷ bs) h = elim (Bool-cases (eqb_ℤ n p.block_number)) [
  | inl e ↦ absurd (some-not-none (simp e at h))
  | inr e ↦ (λ s. cc (e, (eqb_ℤ_iff n p.block_number).1 (sym s)), none_below n bs (simp e at h))
]

true-not-false : ¬ (true ≡ false)
true-not-false h = cc

false-not-true : ¬ (false ≡ true)
false-not-true h = cc

breaks_with-fits :
    (bs : List IndexedBlock) (b : IndexedBlock) (found : Option Text)
    → find_hash (sub64 b.block_number (pos 1)) (hash_by_number bs) ≡ found
    → breaks_with b found ≡ false
    → FitsIn bs b
unfolding breaks_with FitsIn
breaks_with-fits bs b none f h = inr (inl (none_below _ bs f))
breaks_with-fits bs b (some hash) f h = elim (text-cases b.parent_hash []) [
  | inl (k, e) ↦ inl e
  | inr (k, n) ↦ elim (text-cases b.parent_hash hash) [
    | inl (l, e) ↦
        inr (inr (subst (λ x. Some (StandsBelow b x) bs) (sym e) (found-StandsBelow b bs hash f)))
    | inr (l, m) ↦ absurd (true-not-false (simp (k, l) at h))
  ]
]

breaks_with-breaks :
    (bs : List IndexedBlock) (b : IndexedBlock) (found : Option Text)
    → find_hash (sub64 b.block_number (pos 1)) (hash_by_number bs) ≡ found
    → breaks_with b found ≡ true
    → BreaksIn bs b
unfolding breaks_with BreaksIn
breaks_with-breaks bs b none f h = absurd cc
breaks_with-breaks bs b (some hash) f h = elim (text-cases b.parent_hash []) [
  | inl (k, e) ↦ absurd (false-not-true (simp k at h))
  | inr (k, n) ↦ elim (text-cases b.parent_hash hash) [
    | inl (l, e) ↦ absurd (false-not-true (simp (k, l) at h))
    | inr (l, m) ↦ (n, hash, m, found-StandsBelow b bs hash f)
  ]
]

-- The first break of the blocks, or none.
first_break_lem :
    (all bs : List IndexedBlock)
    → ((b : IndexedBlock) × (first_break (hash_by_number all) bs ≡ some b)
        × Broken all bs (some (emit_reorg b b.block_hash)))
      ⊎ ((first_break (hash_by_number all) bs ≡ none) × All (FitsIn all) bs)
unfolding first_break Broken Reports emit_reorg
first_break_lem all [] = inr (refl, tt)
first_break_lem all (b ∷ bs) =
    let found = find_hash (sub64 b.block_number (pos 1)) (hash_by_number all) in
    elim (Bool-cases (breaks_with b found)) [
      | inl h ↦ inl (
        b,
        simp h,
        inl (
          breaks_with-breaks all b found refl h,
          emit_reorg b b.block_hash,
          refl,
          (refl, refl, refl),
        ),
      )
      | inr h ↦
          let fit = breaks_with-fits all b found refl h in
          elim (first_break_lem all bs) [
            | inl (x, e, broken) ↦ inl (x, simp (h, e), inr (fit, broken))
            | inr (e, fits) ↦ inr (simp (h, e), (fit, fits))
          ]
    ]

-- No block breaks with the list, or the list has fewer than two.
unfoldable pub Unbroken : List IndexedBlock → Type 0
Unbroken bs = (length bs ≤ 1) ⊎ All (FitsIn bs) bs

pub chain_lem :
    (bs : List IndexedBlock)
    → ((b : IndexedBlock) × (verify_parent_hash_chain bs ≡ some b)
        × Broken bs bs (some (emit_reorg b b.block_hash)))
      ⊎ ((verify_parent_hash_chain bs ≡ none) × Unbroken bs)
unfolding verify_parent_hash_chain Unbroken
chain_lem [] = inr (refl, inl (omega arith))
chain_lem (b ∷ []) = inr (refl, inl (omega arith))
chain_lem (a ∷ b ∷ bs) = elim (first_break_lem (a ∷ b ∷ bs) (a ∷ b ∷ bs)) [
  | inl h ↦ inl h
  | inr (e, fits) ↦ inr (e, inr fits)
]

pub known_lem : (found : Option Text) (hash : Text) → known found hash ≡ true → found ≡ some hash
unfolding known
known_lem none hash h = absurd cc
known_lem (some prev) hash h = ap some (eq_text→eq prev hash h)
