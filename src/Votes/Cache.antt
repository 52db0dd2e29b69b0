-- ===== src/Votes/Cache.antt =====
-- vochain/state/cache.go: the votes that passed `CheckTx` and wait for a block, in an LRU cache with
-- two keys for each: the identifier of the transaction, with the vote, and the nullifier, with nil.
pub mod Purge
use vocdoni_node.Base.{
  ℕ, ◌%◌, Bool, true, false, not, Option, none, some, List, [], ◌∷◌, ◌++◌, leb, ◌==◌, if◌then◌else◌,
}
use vocdoni_node.Base.Lists.{length}
use vocdoni_node.Base.Bytes.{Bytes, codes}
use vocdoni_node.Base.Words.{add32}
use vocdoni_node.Chain.{Vote}

-- The operations of the LRU cache that are called; `get` tells a missing key from a nil value.
pub record Lru (C : Type 0) : Type 0 where
  pub add : Bytes → Option Vote → C → C
  pub remove : Bytes → C → C
  pub get : Bytes → C → Option (Option Vote)
  pub keys : C → List Bytes

abbrev pub cache_purge_threshold : ℕ
cache_purge_threshold = 180

-- `cacheGetNullifierKey`
unfoldable pub cache_get_nullifier_key : Bytes → Bytes
cache_get_nullifier_key nullifier = codes "n_" ++ nullifier

-- `CacheGet`: a missing key and a nil value are one.
abbrev pub present : Option (Option Vote) → Option Vote
present none = none
present (some v) = v

module _ {C : Type 0} (lru : Lru C) (disabled : Bool) where
  -- `CacheAdd`; a nil nullifier is the empty one.
  unfoldable pub cache_add : Bytes → Option Vote → C → C
  unfolding cache_get_nullifier_key
  cache_add id none c = c
  cache_add id (some v) c =
      if disabled
      then c
      else if length v.nullifier == 0
      then c
      else lru.add (cache_get_nullifier_key v.nullifier) none (lru.add id (some v) c)

  unfoldable pub cache_get : Bytes → C → Option Vote
  cache_get id c = if disabled then none else present (lru.get id c)

  -- `CacheGetCopy`: the copy is the vote, since no cell is shared. The copy of a vote without a weight
  -- panics, which is with the caller.
  unfoldable pub cache_get_copy : Bytes → C → Option Vote
  cache_get_copy id c = if disabled then none else cache_get id c

  drop_nullifier : Option Vote → C → C
  drop_nullifier none c = c
  drop_nullifier (some v) c = lru.remove (cache_get_nullifier_key v.nullifier) c

  unfoldable pub cache_del : Bytes → C → C
  unfolding cache_get drop_nullifier
  cache_del id c = if disabled then c else lru.remove id (drop_nullifier (cache_get id c) c)

  unfoldable pub cache_has_nullifier : Bytes → C → Bool
  cache_has_nullifier nullifier c =
      if disabled
      then false
      else elim (lru.get (cache_get_nullifier_key nullifier) c) [ none ↦ false | some _ ↦ true ]

  purge_key : ℕ → Bytes → Option Vote → C → C
  purge_key height id none c = c
  purge_key height id (some v) c =
      if leb (add32 v.height cache_purge_threshold) height
      then lru.remove id (lru.remove (cache_get_nullifier_key v.nullifier) c)
      else c

  unfoldable pub purge_keys : ℕ → List Bytes → C → C
  unfolding purge_key
  purge_keys height [] c = c
  purge_keys height (id ∷ ids) c =
      purge_keys height ids (purge_key height id (present (lru.get id c)) c)

  -- `CachePurge`, at every 18th block.
  unfoldable pub cache_purge : ℕ → C → C
  cache_purge height c =
      if disabled then c else if not (height % 18 == 0) then c else purge_keys height (lru.keys c) c
