-- ===== src/Finalizer.antt =====
-- internal/pipeline/finalizer/finalizer.go: the promotion of finalized blocks. What the adapter
-- answers and whether the ingester takes the promotion before the context ends are arguments.
use multichain_indexer.Prelude.{
  if◌then◌else◌, ℤ, pos, ltb_ℤ, leb_ℤ, sub64, Bool, ◌&&◌, Option, none, some, List, [], ◌∷◌, ◌++◌,
}
pub mod Promotions

pub record Finalizer : Type 0 where
  pub retention_blocks : ℤ
  pub last_finalized : ℤ
  pub interval : ℤ

abbrev pub default_interval : ℤ
default_interval = pos 60000000000

unfoldable pub new : ℤ → ℤ → Finalizer
new interval retention = record {
  retention_blocks = retention;
  last_finalized = pos 0;
  interval = if leb_ℤ interval (pos 0) then default_interval else interval;
}

-- What a check does to the world: a promotion is sent to the ingester, old blocks are purged.
pub data Action : Type 0 where
  promoted : ℤ → Action
  purged_before : ℤ → Action

pub data Outcome : Type 0 where
  done : Outcome
  adapter_failed : Outcome
  context_done : Outcome

-- What a check finds: the finalized block, unless the adapter fails, and whether the promotion is
-- taken.
pub record World : Type 0 where
  pub finalized : Option ℤ
  pub taken : Bool

-- A failed purge is logged and changes nothing here.
unfoldable pub prune : Finalizer → ℤ → List Action
prune f current =
    let cutoff = sub64 current f.retention_blocks in
    if ltb_ℤ (pos 0) f.retention_blocks && ltb_ℤ (pos 0) cutoff
    then purged_before cutoff ∷ []
    else []

unfoldable pub promote : Finalizer → ℤ → Bool → Finalizer × List Action × Outcome
promote f current taken =
    if leb_ℤ current f.last_finalized
    then (f, [], done)
    else if taken
    then (record f { last_finalized = current }, promoted current ∷ prune f current, done)
    else (f, [], context_done)

unfoldable pub check_answer : Finalizer → Option ℤ → Bool → Finalizer × List Action × Outcome
check_answer f none taken = (f, [], adapter_failed)
check_answer f (some current) taken = promote f current taken

unfoldable pub check : Finalizer → World → Finalizer × List Action × Outcome
check f w = check_answer f w.finalized w.taken

-- The checks of `Run`: an error is logged, and the next tick checks again.
unfoldable pub run : Finalizer → List World → List Action
run f [] = []
run f (w ∷ ws) = (check f w).1 ++ run (check f w).0 ws
