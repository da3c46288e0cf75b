-- ===== src/Coordinator/Repeats.antt =====
-- coordinator.go: ticks in a row, with the controller off.
use multichain_indexer.Prelude.{
  ℤ, eqb_ℤ, Text, ◌≡◌, refl, true, Option, none, some, List, [], ◌∷◌, arith,
}
use multichain_indexer.Coordinator.{
  Coordinator, World, head_of, watermark_start, start_near_head, start_from, start_block_of,
  tune_by, tune, already_enqueued, enqueue, scan_to, scan, tick_for, tick,
}

scan_again :
    (c : Coordinator) (w : World) (addresses : List Text) (head : ℤ)
    → c.has_wm_repo ≡ true
    → c.auto_tune ≡ none
    → (scan_to (scan_to c w addresses head).0 w addresses head).1 ≡ []
unfolding scan_to enqueue tune tune_by already_enqueued start_block_of start_from watermark_start
    start_near_head eqb_ℤ
scan_again c w addresses head e a = ground (arith, e, a)

scanned_again :
    (c : Coordinator) (w : World) (addresses : List Text) (head : Option ℤ)
    → c.has_wm_repo ≡ true
    → c.auto_tune ≡ none
    → (scan (scan c w addresses head).0 w addresses head).1 ≡ []
unfolding scan
scanned_again c w [] head e a = refl
scanned_again c w (x ∷ addresses) none e a = refl
scanned_again c w (x ∷ addresses) (some head) e a = scan_again c w (x ∷ addresses) head e a

-- A tick leaves the providers alone.
scan_keeps :
    (c : Coordinator) (w : World) (addresses : List Text) (head : Option ℤ)
    → c.auto_tune ≡ none
    → head_of (scan c w addresses head).0 w ≡ head_of c w
unfolding scan scan_to enqueue tune tune_by head_of
scan_keeps c w [] head a = refl
scan_keeps c w (x ∷ addresses) none a = refl
scan_keeps c w (x ∷ addresses) (some head) a = ground (arith, a)

ticked_again :
    (c : Coordinator) (w : World) (addresses : Option (List Text))
    → c.has_wm_repo ≡ true
    → c.auto_tune ≡ none
    → (tick_for (tick_for c w addresses).0 w addresses).1 ≡ []
unfolding tick_for
ticked_again c w none e a = refl
ticked_again c w (some addresses) e a =
    rw (scan_keeps c w addresses (head_of c w) a) (scanned_again c w addresses (head_of c w) e a)

-- With a watermark repository and the controller off, a second tick in an unchanged world sends
-- nothing.
pub tick_again :
    (c : Coordinator) (w : World)
    → c.has_wm_repo ≡ true
    → c.auto_tune ≡ none
    → (tick (tick c w).0 w).1 ≡ []
unfolding tick
tick_again c w e a = ticked_again c w w.addresses e a
