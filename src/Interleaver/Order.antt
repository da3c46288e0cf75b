-- ===== src/Interleaver/Order.antt =====
-- internal/pipeline/ingester/interleaver.go: the order of the keys.
use multichain_indexer.Prelude.{
  All, Text, eq_text, ℕ, zero, suc, ◌≡◌, refl, false, Option, none, some, List, [], ◌∷◌, ◌++◌,
  arith,
}
use multichain_indexer.Interleaver.{
  InterleaveTarget, commit_interleave_key, suc_index, order_index, add_key, add_targets,
}

-- A key is never the empty text, which stands for no key.
unfoldable pub Keys : List Text → Type 0
Keys = All (λ k. eq_text k [] ≡ false)

pub order_index-Keys :
    (key : Text) (ks : List Text) (i : ℕ)
    → Keys ks
    → order_index key ks ≡ some i
    → eq_text key [] ≡ false
unfolding order_index suc_index Keys eq_text
order_index-Keys [] [] i n h = absurd cc
order_index-Keys [] ([] ∷ ks) i (n, ns) h = absurd cc
order_index-Keys [] ((c ∷ k) ∷ ks) zero n h = ground arith
order_index-Keys [] ((c ∷ k) ∷ ks) (suc i) (n, ns) h = ground (arith, order_index-Keys [] ks i)
order_index-Keys (c ∷ key) ks i n h = refl

key-nonempty : (chain network : Text) → eq_text (commit_interleave_key chain network) [] ≡ false
unfolding commit_interleave_key eq_text
key-nonempty [] network = refl
key-nonempty (c ∷ chain) network = refl

append-Keys : (ks : List Text) (k : Text) → Keys ks → eq_text k [] ≡ false → Keys (ks ++ k ∷ [])
unfolding Keys
append-Keys [] k n h = (h, tt)
append-Keys (x ∷ ks) k (n, ns) h = (n, append-Keys ks k ns h)

add_key-Keys :
    (key : Text) (found : Option ℕ) (order : List Text)
    → eq_text key [] ≡ false
    → Keys order
    → Keys (add_key key found order)
unfolding add_key
add_key-Keys key none order h n = append-Keys order key n h
add_key-Keys key (some i) order h n = n

pub add_targets-Keys :
    (ts : List InterleaveTarget) (order : List Text) → Keys order → Keys (add_targets ts order)
unfolding add_targets
add_targets-Keys [] order n = n
add_targets-Keys (t ∷ ts) order n =
    let key = commit_interleave_key t.chain t.network in
    add_targets-Keys ts (add_key key (order_index key order) order)
      (add_key-Keys key (order_index key order) order (key-nonempty t.chain t.network) n)
