-- ===== src/Finalizer/Promotions.antt =====
-- finalizer.go: the promotions and purges of a run.
use mathlib.Core.Path.{subst}
use multichain_indexer.Prelude.{
  All, ℤ, pos, negsuc, ◌-ℤ◌, ◌≤ℤ◌, ◌<ℤ◌, ltb_ℤ→lt, leb_ℤ→gt, InInt64, InInt64-between, sub64,
  sub64_of_InInt64, int_laws, ◌-◌, ◌^◌, ◌≡◌, refl, sym, Bool, Option, none, some, List, [], ◌∷◌,
  ◌++◌, arith,
}
use multichain_indexer.Finalizer.{
  Finalizer, Action, promoted, purged_before, World, prune, promote, check_answer, check, run,
}

-- A row of actions after the finalized block `last`.
abbrev pub Ordered : ℤ → ℤ → List Action → Type 0
Ordered retention last [] = Unit
Ordered retention last (promoted b ∷ rest) = (last <ℤ b) × Ordered retention b rest
Ordered retention last (purged_before c ∷ rest) =
    (pos 0 <ℤ c) × (c ≡ last -ℤ retention) × (pos 0 <ℤ retention) × Ordered retention last rest

-- The blocks that the adapter answers are int64.
abbrev pub IsBlock : Option ℤ → Type 0
IsBlock none = Unit
IsBlock (some b) = InInt64 b

no_wrap :
    (f : Finalizer) (b : ℤ)
    → InInt64 b
    → pos 0 ≤ℤ b
    → InInt64 f.retention_blocks
    → pos 0 <ℤ f.retention_blocks
    → sub64 b f.retention_blocks ≡ b -ℤ f.retention_blocks
no_wrap f b i p r q = sub64_of_InInt64 _ _ (
    InInt64-between (negsuc (2 ^ 63 - 1)) _ b (ground arith) i (omega (int_laws, p, r, q))
      (omega (int_laws, p, q)))

-- The actions of one promotion, before those of the rest of the run.
promote-Ordered :
    (f : Finalizer) (b : ℤ) (taken : Bool) (rest : List Action)
    → pos 0 ≤ℤ f.last_finalized
    → InInt64 f.retention_blocks
    → InInt64 b
    → Ordered f.retention_blocks (promote f b taken).0.last_finalized rest
    → Ordered f.retention_blocks f.last_finalized ((promote f b taken).1 ++ rest)
unfolding promote prune
promote-Ordered f b taken rest n r i h = ground (
  arith,
  no_wrap f b,
  leb_ℤ→gt b f.last_finalized,
  ltb_ℤ→lt (pos 0) f.retention_blocks,
  ltb_ℤ→lt (pos 0) (b -ℤ f.retention_blocks),
)

promote_keeps :
    (f : Finalizer) (b : ℤ) (taken : Bool)
    → pos 0 ≤ℤ f.last_finalized
    → (pos 0 ≤ℤ (promote f b taken).0.last_finalized)
      × ((promote f b taken).0.retention_blocks ≡ f.retention_blocks)
unfolding promote
promote_keeps f b taken n = ground (arith, leb_ℤ→gt b f.last_finalized)

answer_keeps :
    (f : Finalizer) (answer : Option ℤ) (taken : Bool)
    → pos 0 ≤ℤ f.last_finalized
    → (pos 0 ≤ℤ (check_answer f answer taken).0.last_finalized)
      × ((check_answer f answer taken).0.retention_blocks ≡ f.retention_blocks)
unfolding check_answer
answer_keeps f none taken n = (n, refl)
answer_keeps f (some b) taken n = promote_keeps f b taken n

answer-Ordered :
    (f : Finalizer) (answer : Option ℤ) (taken : Bool) (rest : List Action)
    → pos 0 ≤ℤ f.last_finalized
    → InInt64 f.retention_blocks
    → IsBlock answer
    → Ordered f.retention_blocks (check_answer f answer taken).0.last_finalized rest
    → Ordered f.retention_blocks f.last_finalized ((check_answer f answer taken).1 ++ rest)
unfolding check_answer
answer-Ordered f none taken rest n r i h = h
answer-Ordered f (some b) taken rest n r i h = promote-Ordered f b taken rest n r i h

-- From a last finalized block at or above zero, whatever int64 blocks the adapter answers and
-- whichever promotions are taken, the promoted blocks of a run rise strictly, and what is purged
-- lies below the block promoted last by the retention.
pub run-Ordered :
    (f : Finalizer) (ws : List World)
    → pos 0 ≤ℤ f.last_finalized
    → InInt64 f.retention_blocks
    → All (λ w. IsBlock w.finalized) ws
    → Ordered f.retention_blocks f.last_finalized (run f ws)
unfolding run check
run-Ordered f [] n r bs = tt
run-Ordered f (w ∷ ws) n r (b, bs) =
    let f1 = (check_answer f w.finalized w.taken).0 in
    let (p, e) = answer_keeps f w.finalized w.taken n in
    answer-Ordered f w.finalized w.taken (run f1 ws) n r b (
      subst (λ k. Ordered k f1.last_finalized (run f1 ws)) e
        (run-Ordered f1 ws p (subst InInt64 (sym e) r) bs))
