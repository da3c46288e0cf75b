-- ===== src/Cache/Laws.antt =====
-- lru.go: what is read after a write, and how large the cache grows.
use multichain_indexer.Prelude.{
  length, ℤ, pos, ◌+ℤ◌, ◌≤ℤ◌, ◌<ℤ◌, ge→ltb_ℤ, ◌+◌, ◌≤◌, ◌≡◌, refl, ◌⊎◌, Bool, true, Option, none,
  some, List, [], ◌∷◌, ◌++◌, arith,
}
use multichain_indexer.Cache.{Entry, Lru, find, remove_element, get_found, get, put_found, put}

module _ {K V : Type 0} (same : K → K → Bool) where
  find-same :
      (k : K) (es : List (Entry K V)) (e : Entry K V)
      → find same k es ≡ some e
      → same k e.key ≡ true
  unfolding find
  find-same k [] e h = cc
  find-same k (d ∷ es) e h = ground (arith, find-same k es e)

  get_found_kept :
      (c : Lru K V) (now : ℤ) (k : K) (e : Entry K V) (es : List (Entry K V))
      → c.order ≡ e ∷ es
      → same k e.key ≡ true
      → now ≤ℤ e.expires_at
      → (get same c now k).1 ≡ some e.value
  unfolding get find get_found
  get_found_kept c now k e es o s l = simp (o, s, ge→ltb_ℤ e.expires_at now l) refl

  put_found_read :
      (c : Lru K V) (now later : ℤ) (k : K) (v : V) (found : Option (Entry K V))
      → find same k c.order ≡ found
      → same k k ≡ true
      → later ≤ℤ now +ℤ c.ttl
      → (get same (put_found same c now k v found) later k).1 ≡ some v
  unfolding put_found
  put_found_read c now later k v none h s l =
      get_found_kept (put_found same c now k v none) later k _ _ refl s l
  put_found_read c now later k v (some e) h s l =
      get_found_kept (put_found same c now k v (some e)) later k _ _ refl (find-same k c.order e h)
        l

  -- A value that is put is read back under its key until it expires, whether the key was there or
  -- not and whatever was evicted, for keys equal to themselves.
  pub get-put :
      (c : Lru K V) (now later : ℤ) (k : K) (v : V)
      → same k k ≡ true
      → later ≤ℤ now +ℤ c.ttl
      → (get same (put same c now k v) later k).1 ≡ some v
  unfolding put
  get-put c now later k v s l = put_found_read c now later k v (find same k c.order) refl s l

-- The cache holds as many entries as its capacity at most, and one entry whatever its capacity.
abbrev pub IsBounded : {K V : Type 0} → Lru K V → Type 0
IsBounded c = (pos (length c.order) ≤ℤ c.capacity) ⊎ (length c.order ≤ 1)

module _ {K V : Type 0} (same : K → K → Bool) where
  length-remove_element :
      (k : K) (es : List (Entry K V)) (e : Entry K V)
      → find same k es ≡ some e
      → length (remove_element same k es) + 1 ≡ length es
  unfolding find remove_element
  length-remove_element k [] e h = cc
  length-remove_element k (d ∷ es) e h = ground (arith, length-remove_element k es e)

  -- How a write changes the order: with the key there, the entries are as many as before; with
  -- room, or in an empty cache, the new entry stands in front of the others; and a full cache loses
  -- its last entry.
  unfoldable pub Reordered : Lru K V → ℤ → K → V → List (Entry K V) → Type 0
  Reordered c now k v after =
      let new : Entry K V = record { key = k; value = v; expires_at = now +ℤ c.ttl } in
      ((e : Entry K V) × (find same k c.order ≡ some e) × (length after ≡ length c.order))
      ⊎ (((pos (length c.order) <ℤ c.capacity) ⊎ (c.order ≡ [])) × (after ≡ new ∷ c.order))
      ⊎ ((kept : List (Entry K V)) × (oldest : Entry K V) × (c.capacity ≤ℤ pos (length c.order))
          × (c.order ≡ kept ++ oldest ∷ [])
          × (after ≡ new ∷ kept))

  get_found-IsBounded :
      (c : Lru K V) (now : ℤ) (k : K) (found : Option (Entry K V))
      → find same k c.order ≡ found
      → IsBounded c
      → IsBounded (get_found same c now k found).0
  unfolding get_found
  get_found-IsBounded c now k none h b = b
  get_found-IsBounded c now k (some e) h b = ground (arith, length-remove_element k c.order e h)

  pub get-IsBounded : (c : Lru K V) (now : ℤ) (k : K) → IsBounded c → IsBounded (get same c now k).0
  unfolding get
  get-IsBounded c now k b = get_found-IsBounded c now k (find same k c.order) refl b
