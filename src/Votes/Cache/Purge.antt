-- ===== src/Votes/Cache/Purge.antt =====
-- What the vote cache holds after a purge and after a deletion.
use vocdoni_node.Base.{
  ℕ, ◌%◌, ◌<◌, ◌≡◌, ◌≢◌, ◌⊎◌, ◌∙◌, inl, inr, refl, ap, sym, subst, false, Option, none, some, List,
  [], ◌∷◌, arith, Option-cases, Bool-cases,
}
use vocdoni_node.Base.Bytes.{Bytes, bytes_equal, bytes_equal_iff}
use vocdoni_node.Base.Words.{add32}
use vocdoni_node.Chain.{Vote}
use vocdoni_node.Votes.Cache.{
  Lru, present, cache_get_nullifier_key, cache_purge_threshold, purge_keys, purge_key, cache_purge,
  cache_get,
}

abbrev pub Among : Bytes → List Bytes → Type 0
Among k [] = ⊥
Among k (j ∷ js) = (k ≡ j) ⊎ Among k js

-- What is relied on of the LRU cache: a removed key is gone, a removal leaves other keys alone, and
-- every key that is found is listed.
pub record Lawful {C : Type 0} (lru : Lru C) : Type 0 where
  pub get-remove : (k : Bytes) (c : C) → lru.get k (lru.remove k c) ≡ none
  pub get-remove_other : (k j : Bytes) (c : C) → k ≢ j → lru.get j (lru.remove k c) ≡ lru.get j c
  pub listed : (k : Bytes) (v : Option Vote) (c : C) → lru.get k c ≡ some v → Among k (lru.keys c)

module _ {C : Type 0} (lru : Lru C) (lawful : Lawful lru) where
  -- Removing keys can only make a key missing.
  removed :
      (k j : Bytes) (c : C)
      → (lru.get j (lru.remove k c) ≡ lru.get j c) ⊎ (lru.get j (lru.remove k c) ≡ none)
  removed k j c = elim (Bool-cases (bytes_equal k j)) [
    | inl e ↦
        let same = (bytes_equal_iff k j).0 e in
        inr (ap (λ i. lru.get i (lru.remove k c)) (sym same) ∙ lawful.get-remove k c)
    | inr e ↦ inl (lawful.get-remove_other k j c (λ s. ground (arith, bytes_equal_iff k j, e, s)))
  ]

  -- The vote under a key is missing or too young for the height.
  abbrev Young : ℕ → Bytes → C → Type 0
  Young height id c =
      (present (lru.get id c) ≡ none)
      ⊎ ((v : Vote) × (present (lru.get id c) ≡ some v)
          × (height < add32 v.height cache_purge_threshold))

  abbrev Fewer : C → C → Type 0
  Fewer c' c = (j : Bytes) → (lru.get j c' ≡ lru.get j c) ⊎ (lru.get j c' ≡ none)

  Fewer-two : (k l : Bytes) (c : C) → Fewer (lru.remove k (lru.remove l c)) c
  Fewer-two k l c j = ground (arith, removed k j (lru.remove l c), removed l j c)

  purge_key-Fewer :
      (height : ℕ) (id : Bytes) (v : Option Vote) (c : C)
      → Fewer (purge_key lru false height id v c) c
  unfolding purge_key
  purge_key-Fewer height id none c j = inl refl
  purge_key-Fewer height id (some v) c j =
      ground (arith, Fewer-two id (cache_get_nullifier_key v.nullifier) c j)

  purge_keys-Fewer :
      (height : ℕ) (ids : List Bytes) (c : C) → Fewer (purge_keys lru false height ids c) c
  unfolding purge_keys
  purge_keys-Fewer height [] c j = inl refl
  purge_keys-Fewer height (id ∷ ids) c j = ground (
    arith,
    purge_key-Fewer height id (present (lru.get id c)) c j,
    purge_keys-Fewer height ids (purge_key lru false height id (present (lru.get id c)) c) j,
  )

  Young-Fewer :
      (height : ℕ) (id : Bytes) (c c' : C) → Fewer c' c → Young height id c → Young height id c'
  Young-Fewer height id c c' f y = ground (arith, f id, y)

  purge_key-Young :
      (height : ℕ) (id : Bytes) (c : C)
      → Young height id (purge_key lru false height id (present (lru.get id c)) c)
  unfolding purge_key
  purge_key-Young height id c = elim (Option-cases (present (lru.get id c))) [
    | inl e ↦ ground (arith, e)
    | inr (v, e) ↦
        ground (arith, e, lawful.get-remove id (lru.remove (cache_get_nullifier_key v.nullifier) c))
  ]

  purge_keys-Young :
      (height : ℕ) (ids : List Bytes) (c : C) (id : Bytes)
      → Among id ids
      → Young height id (purge_keys lru false height ids c)
  unfolding purge_keys
  purge_keys-Young height [] c id m = absurd m
  purge_keys-Young height (k ∷ ks) c id m =
      let c' = purge_key lru false height k (present (lru.get k c)) c in
      elim m [
        | inr later ↦ purge_keys-Young height ks c' id later
        | inl same ↦
            let here : Young height id c' =
              subst (λ i. Young height i c') (sym same) (purge_key-Young height k c) in
            Young-Fewer height id c' (purge_keys lru false height ks c')
              (purge_keys-Fewer height ks c') here
      ]

  -- After `CachePurge` at a height that is a multiple of 18, a vote that the cache still gives is one
  -- that was in it, and fewer than 180 blocks old, where that sum is taken in 32 bits.
  cache_purge_young :
      (height : ℕ) (id : Bytes) (c : C) (v : Vote)
      → height % 18 ≡ 0
      → cache_get lru false id (cache_purge lru false height c) ≡ some v
      → (cache_get lru false id c ≡ some v) × (height < add32 v.height cache_purge_threshold)
  unfolding cache_purge cache_get
  cache_purge_young height id c v due found =
      let c' = purge_keys lru false height (lru.keys c) c in
      let kept : present (lru.get id c') ≡ some v = ground (arith, due, found) in
      let was : present (lru.get id c) ≡ some v =
        ground (arith, kept, purge_keys-Fewer height (lru.keys c) c id) in
      let young = purge_keys-Young height (lru.keys c) c id (listed_there id v c was) in
      (was, ground (arith, kept, young))
    where
      listed_there :
          (id : Bytes) (v : Vote) (c : C) → present (lru.get id c) ≡ some v → Among id (lru.keys c)
      listed_there id v c h = elim (Option-cases (lru.get id c)) [
        | inl e ↦ absurd (ground (arith, e, h))
        | inr (o, e) ↦ lawful.listed id o c e
      ]
