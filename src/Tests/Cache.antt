-- ===== src/Tests/Cache.antt =====
-- The cache of internal/cache on concrete calls.
use multichain_indexer.Prelude.{
  ◌==◌, ==_iff, pos, ◌+ℤ◌, leb_ℤ, ℕ, ◌≡◌, refl, none, some, [], ◌∷◌, arith,
}
use multichain_indexer.Cache.{Lru, find, get_found, get, evict_oldest, put_found, put}
use multichain_indexer.Cache.Others.{get-put_other}
use multichain_indexer.Cache.Laws.{get-put}

abbrev pair : Lru ℕ ℕ
pair = record {
  capacity = pos 2;
  ttl = pos 100;
  order =
      record { key = 1; value = 10; expires_at = pos 50 }
      ∷ record { key = 2; value = 20; expires_at = pos 60 }
      ∷ [];
  hits = pos 0;
  misses = pos 0;
}

-- A third key evicts the one at the back.
evicts : (get ◌==◌ (put ◌==◌ pair (pos 10) 3 30) (pos 20) 2).1 ≡ none
unfolding put put_found get get_found find evict_oldest leb_ℤ
evicts = refl

get-put_example : (get ◌==◌ (put ◌==◌ pair (pos 10) 2 25) (pos 90) 2).1 ≡ some 25
unfolding ◌+ℤ◌
get-put_example = get-put ◌==◌ pair (pos 10) (pos 90) 2 25 refl (omega arith)

abbrev roomy : Lru ℕ ℕ
roomy = record pair { capacity = pos 3 }

get-put_other_example :
    (get ◌==◌ (put ◌==◌ roomy (pos 10) 3 30) (pos 20) 2).1 ≡ (get ◌==◌ roomy (pos 20) 2).1
get-put_other_example = get-put_other ◌==◌ ==_iff roomy (pos 10) (pos 20) 2 3 30 refl (omega arith)
