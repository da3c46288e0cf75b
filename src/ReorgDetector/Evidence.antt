-- ===== src/ReorgDetector/Evidence.antt =====
-- internal/pipeline/reorgdetector/detector.go: an event has its evidence, and silence has its reasons.
use multichain_indexer.Prelude.{All, ℤ, Text, ◌≡◌, ◌⊎◌, Option, none, some, List, [], ◌∷◌}
use multichain_indexer.Ingester.Reversal.{IndexedBlock}
use multichain_indexer.ReorgDetector.Chain.{Reports, Agrees, Differs}
use multichain_indexer.ReorgDetector.{ReorgEvent, Verdict, rpc_error, agrees, differs, find_hash}

module _ (get_block_hash : ℤ → Option (Text × Text)) where
  -- Why a block is passed over: it was verified in the last check under the same hash, the chain
  -- does not answer, or it agrees.
  abbrev pub Passes : List (ℤ × Text) → IndexedBlock → Type 0
  Passes last b =
      (find_hash b.block_number last ≡ some b.block_hash)
      ⊎ (get_block_hash b.block_number ≡ none)
      ⊎ ((hash : Text) × (parent : Text) × (get_block_hash b.block_number ≡ some (hash, parent))
          × Agrees b hash parent)

  -- The chain answers for a block with something else, and an event says so.
  abbrev pub Replaced : IndexedBlock → ReorgEvent → Type 0
  Replaced b e =
      (hash : Text) × (parent : Text) × (get_block_hash b.block_number ≡ some (hash, parent))
      × Differs b hash parent
      × Reports b hash e

  -- What the blocks say to an event, or to none.
  unfoldable pub Justified : List (ℤ × Text) → List IndexedBlock → Option ReorgEvent → Type 0
  Justified last bs none = All (Passes last) bs
  Justified last [] (some e) = ⊥
  Justified last (b ∷ bs) (some e) = Replaced b e ⊎ (Passes last b × Justified last bs (some e))

  -- What the verdict on a block tells of the chain's answer.
  Told : IndexedBlock → Verdict → Type 0
  Told b rpc_error = get_block_hash b.block_number ≡ none
  Told b (agrees h) =
      (parent : Text) × (get_block_hash b.block_number ≡ some (h, parent)) × Agrees b h parent
  Told b (differs h) =
      (parent : Text) × (get_block_hash b.block_number ≡ some (h, parent)) × Differs b h parent
