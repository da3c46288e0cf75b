-- ===== src/Cache.antt =====
-- internal/cache/lru.go: a cache with a capacity and an expiry. The list is `order`, front first;
-- the map `items` points at its elements, so a look-up by key is a search of the list. The clock
-- `nowFn` is an argument, `same` is Go's `==` on keys, and a mutex is held for each whole method.
use multichain_indexer.Prelude.{
  if◌then◌else◌, length, ℤ, pos, ◌+ℤ◌, ltb_ℤ, leb_ℤ, add64, Bool, Option, none, some, List, [], ◌∷◌,
}
pub mod Laws
pub mod Others
pub mod Sharded

pub record Entry (K V : Type 0) : Type 0 where
  pub key : K
  pub value : V
  pub expires_at : ℤ

pub record Lru (K V : Type 0) : Type 0 where
  pub capacity : ℤ
  pub ttl : ℤ
  pub order : List (Entry K V)
  pub hits : ℤ
  pub misses : ℤ

unfoldable pub new_lru : {K V : Type 0} → ℤ → ℤ → Lru K V
new_lru capacity ttl = record {
  capacity = capacity;
  ttl = ttl;
  order = [];
  hits = pos 0;
  misses = pos 0;
}

module _ {K V : Type 0} (same : K → K → Bool) where
  unfoldable pub find : K → List (Entry K V) → Option (Entry K V)
  find k [] = none
  find k (e ∷ es) = let rest = find k es in if same k e.key then some e else rest

  -- The list less the element of a key.
  unfoldable pub remove_element : K → List (Entry K V) → List (Entry K V)
  remove_element k [] = []
  remove_element k (e ∷ es) =
      let rest = remove_element k es in if same k e.key then es else e ∷ rest

  unfoldable pub get_found : Lru K V → ℤ → K → Option (Entry K V) → Lru K V × Option V
  get_found c now k none = (record c { misses = add64 c.misses (pos 1) }, none)
  get_found c now k (some e) =
      if ltb_ℤ e.expires_at now
      then (record c { order = remove_element k c.order; misses = add64 c.misses (pos 1) }, none)
      else (
        record c { order = e ∷ remove_element k c.order; hits = add64 c.hits (pos 1) },
        some e.value,
      )

  unfoldable pub get : Lru K V → ℤ → K → Lru K V × Option V
  get c now k = get_found c now k (find k c.order)

unfoldable pub evict_oldest : {A : Type 0} → List A → List A
evict_oldest [] = []
evict_oldest (e ∷ []) = []
evict_oldest (e ∷ f ∷ es) = e ∷ evict_oldest (f ∷ es)

module _ {K V : Type 0} (same : K → K → Bool) where
  unfoldable pub put_found : Lru K V → ℤ → K → V → Option (Entry K V) → Lru K V
  put_found c now k v (some e) = record c {
    order = record e { value = v; expires_at = now +ℤ c.ttl } ∷ remove_element same k c.order;
  }
  put_found c now k v none = record c {
    order =
        record { key = k; value = v; expires_at = now +ℤ c.ttl }
        ∷ (if leb_ℤ c.capacity (pos (length c.order)) then evict_oldest c.order else c.order);
  }

  unfoldable pub put : Lru K V → ℤ → K → V → Lru K V
  put c now k v = put_found c now k v (find same k c.order)
