-- ===== src/Cache/Others.antt =====
-- lru.go: what a write does to the other keys.
use multichain_indexer.Prelude.{
  length, ℤ, pos, ◌<ℤ◌, gt→leb_ℤ, ◌≡◌, refl, ap, ◌∙◌, ◌↔◌, Bool, true, false, Option, none, some,
  List, [], ◌∷◌, arith,
}
use multichain_indexer.Cache.{Entry, Lru, find, remove_element, get_found, get, put_found, put}

module _ {K V : Type 0} (same : K → K → Bool)
    (agrees : (a b : K) → (same a b ≡ true) ↔ (a ≡ b)) where
  find-remove_element :
      (j k : K) (es : List (Entry K V))
      → same j k ≡ false
      → find same j (remove_element same k es) ≡ find same j es
  unfolding find remove_element
  find-remove_element j k [] n = refl
  find-remove_element j k (d ∷ es) n =
      ground (arith, find-remove_element j k es n, agrees k d.key, agrees j d.key, agrees j k)

  find_owns : (k : K) (es : List (Entry K V)) (e : Entry K V) → find same k es ≡ some e → k ≡ e.key
  unfolding find
  find_owns k [] e h = cc
  find_owns k (d ∷ es) e h = ground (arith, find_owns k es e, agrees k d.key)

  value_only :
      (c d : Lru K V) (now : ℤ) (j : K) (found : Option (Entry K V))
      → (get_found same c now j found).1 ≡ (get_found same d now j found).1
  unfolding get_found
  value_only c d now j none = refl
  value_only c d now j (some e) = ground arith

  put_found-other :
      (c : Lru K V) (now : ℤ) (j k : K) (v : V) (found : Option (Entry K V))
      → find same k c.order ≡ found
      → same j k ≡ false
      → pos (length c.order) <ℤ c.capacity
      → find same j (put_found same c now k v found).order ≡ find same j c.order
  unfolding put_found find
  put_found-other c now j k v none h n l =
      ground (arith, gt→leb_ℤ c.capacity (pos (length c.order)) l)
  put_found-other c now j k v (some e) h n l = ground (
    arith,
    find_owns k c.order e h,
    find-remove_element j k c.order n,
    agrees j e.key,
    agrees j k,
  )

  -- While there is room, and key equality is Go's, a write under one key changes nothing that
  -- another key reads.
  pub get-put_other :
      (c : Lru K V) (now later : ℤ) (j k : K) (v : V)
      → same j k ≡ false
      → pos (length c.order) <ℤ c.capacity
      → (get same (put same c now k v) later j).1 ≡ (get same c later j).1
  unfolding get put
  get-put_other c now later j k v n l =
      let e = put_found-other c now j k v (find same k c.order) refl n l in
      value_only (put_found same c now k v (find same k c.order)) c later j
        (find same j (put_found same c now k v (find same k c.order)).order)
      ∙ ap (λ found. (get_found same c later j found).1) e
