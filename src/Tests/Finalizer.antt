-- ===== src/Tests/Finalizer.antt =====
-- The finalizer of internal/pipeline/finalizer on a concrete run.
use multichain_indexer.Prelude.{
  ℤ, pos, ◌+ℤ◌, ◌-ℤ◌, ltb_ℤ, leb_ℤ, wrap64, sub64, ◌≡◌, refl, Bool, true, false, some, List, [],
  ◌∷◌, arith,
}
use multichain_indexer.Finalizer.{
  Finalizer, promoted, purged_before, World, prune, promote, check_answer, check, run,
}
use multichain_indexer.Finalizer.Promotions.{Ordered, run-Ordered}

abbrev fresh : Finalizer
fresh = record { retention_blocks = pos 10; last_finalized = pos 0; interval = pos 60 }

abbrev at : ℤ → Bool → World
at b t = record { finalized = some b; taken = t }

abbrev days : List World
days = at (pos 25) true ∷ at (pos 20) true ∷ at (pos 30) false ∷ at (pos 31) true ∷ []

-- A block that goes back is ignored, and one that is not taken is promoted later.
promotes :
    run fresh days
    ≡ promoted (pos 25) ∷ purged_before (pos 15) ∷ promoted (pos 31) ∷ purged_before (pos 21) ∷ []
unfolding run check check_answer promote prune ltb_ℤ leb_ℤ sub64 wrap64 ◌-ℤ◌ ◌+ℤ◌
promotes = refl

run-Ordered_example : Ordered (pos 10) (pos 0) (run fresh days)
run-Ordered_example = run-Ordered fresh days (ground arith) (ground arith) (ground arith)
