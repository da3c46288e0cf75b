-- ===== src/Cache/Sharded.antt =====
-- internal/cache/sharded_lru.go: a cache in shards, chosen by the FNV-1a hash of a key's text.
use Prim.Native.Nat.{bit_xor}
use multichain_indexer.Prelude.{
  if◌then◌else◌, length, get_or, set, replicate, length-replicate, ℤ, pos, negsuc, pos_part, ◌-ℤ◌,
  ltb_ℤ, leb_ℤ, add64, Text, ℕ, suc, ◌+◌, ◌*◌, ◌/◌, ◌%◌, ◌^◌, ◌<◌, Bool, Option, List, [], ◌∷◌,
  arith,
}
use multichain_indexer.Cache.{Lru, new_lru, get, put}

abbrev pub default_shard_count : ℤ
default_shard_count = pos 16

pub record ShardedLru (K V : Type 0) : Type 0 where
  pub shards : List (Lru K V)
  pub count : ℤ

-- Go's division of a capacity by a positive count
unfoldable pub per_shard : ℤ → ℕ → ℤ
per_shard (pos n) count = pos (n / count)
per_shard (negsuc n) count = pos 0 -ℤ pos (suc n / count)

unfoldable pub effective_count : ℤ → ℤ
effective_count shard_count = if leb_ℤ shard_count (pos 0) then default_shard_count else shard_count

unfoldable pub new_sharded_lru : {K V : Type 0} → ℤ → ℤ → ℤ → ShardedLru K V
new_sharded_lru total_capacity ttl shard_count =
    let count = effective_count shard_count in
    let capacity = per_shard total_capacity (pos_part count) in
    record {
      shards =
          replicate (pos_part count)
            (new_lru (if ltb_ℤ capacity (pos 1) then pos 1 else capacity) ttl);
      count = count;
    }

-- The loop over the bytes, on 32 bits
unfoldable pub fnv_from : ℕ → Text → ℕ
fnv_from h [] = h
fnv_from h (c ∷ s) = fnv_from (bit_xor h c * 16777619 % 2 ^ 32) s

unfoldable pub shard_index : ℕ → Text → ℕ
shard_index count str = fnv_from 2166136261 str % count

module _ {K V : Type 0} (same : K → K → Bool) (key_to_str : K → Text) where
  unfoldable pub shard_of : ShardedLru K V → K → ℕ
  shard_of s key = shard_index (pos_part s.count) (key_to_str key)

  -- An index outside the shards, at which the source would panic, reads as an empty shard here.
  unfoldable pub get_sharded : ShardedLru K V → ℤ → K → ShardedLru K V × Option V
  get_sharded s now key =
      let i = shard_of s key in
      let (c, v) = get same (get_or s.shards i (new_lru (pos 1) (pos 0))) now key in
      (record s { shards = set s.shards i c }, v)

  unfoldable pub put_sharded : ShardedLru K V → ℤ → K → V → ShardedLru K V
  put_sharded s now key value =
      let i = shard_of s key in
      record s {
        shards =
            set s.shards i (put same (get_or s.shards i (new_lru (pos 1) (pos 0))) now key value);
      }

unfoldable pub total_len : {K V : Type 0} → List (Lru K V) → ℕ
total_len [] = 0
total_len (c ∷ cs) = length c.order + total_len cs

unfoldable pub total_stats : {K V : Type 0} → List (Lru K V) → ℤ × ℤ
total_stats [] = (pos 0, pos 0)
total_stats (c ∷ cs) =
    let (hits, misses) = total_stats cs in (add64 c.hits hits, add64 c.misses misses)

effective_count-positive : (n : ℤ) → 0 < pos_part (effective_count n)
unfolding effective_count leb_ℤ
effective_count-positive n = ground arith

-- The constructor makes as many shards as it counts, one at least, and every key's shard is one of
-- them.
pub shard_of-bound :
    {K : Type 0} (V : Type 0) (key_to_str : K → Text) (same : K → K → Bool)
    (total_capacity ttl shard_count : ℤ) (key : K)
    → let s : ShardedLru K V = new_sharded_lru total_capacity ttl shard_count in
      shard_of same key_to_str s key < length s.shards
unfolding shard_of shard_index new_sharded_lru
shard_of-bound {K = K} V key_to_str same total_capacity ttl shard_count key =
    let n = pos_part (effective_count shard_count) in
    let positive = effective_count-positive shard_count in
    let size = length-replicate n (
      new_lru {K = K} {V = V}
        (if ltb_ℤ (per_shard total_capacity n) (pos 1) then pos 1 else per_shard total_capacity n)
        ttl) in
    omega (arith, size)
