-- ===== src/Sik/Roots/Kept.antt =====
-- What `UpdateSIKRoots` keeps and adds.
use vocdoni_node.Base.{
  ℕ, ◌-◌, ◌≤◌, ◌<◌, ◌≡◌, ◌≢◌, ◌⊎◌, ◌∙◌, refl, inl, inr, true, false, Bool, List, [], ◌∷◌, ◌++◌,
  arith, Bool-cases,
}
use vocdoni_node.Base.Bytes.{Bytes, bytes_equal_iff, bytes_equal_refl}
use vocdoni_node.Base.Dict.{Dict, lookup, insert, erase, lookup-insert, lookup-erase}
use vocdoni_node.Chain.{State, ok}
use vocdoni_node.Sik.Roots.{
  sikroot_hysteresis_blocks, listed_root, expired_sik_root_test, block_key, key_block, has_key,
  roots_in_order, select_purged, erase_each, purge_roots, update_sik_roots,
}

-- A key of a block that is purged is below the least block.
abbrev Listed : Bytes → List Bytes → Type 0
Listed k [] = ⊥
Listed k (j ∷ js) = (j ≡ k) ⊎ Listed k js

purged_old :
    (least : ℕ) (exact : Bool) (nearest : ℕ) (roots : Dict Bytes) (k : Bytes)
    → Listed k (select_purged least exact nearest roots)
    → key_block k < least
unfolding select_purged
purged_old least exact nearest [] k h = absurd h
purged_old least exact nearest ((j, r) ∷ rest) k h =
    ground
      (arith, purged_old least exact (key_block j) rest k, purged_old least exact nearest rest k, h)

erase_each-kept :
    (ks : List Bytes) (d : Dict Bytes) (k : Bytes)
    → ¬ Listed k ks
    → lookup k (erase_each ks d) ≡ lookup k d
unfolding erase_each
erase_each-kept [] d k h = refl
erase_each-kept (j ∷ js) d k h =
    erase_each-kept js (erase j d) k (λ m. h (inr m))
    ∙ ground (arith, lookup-erase j k d, bytes_equal_iff j k, h)

purge-kept :
    (current : ℕ) (roots : Dict Bytes) (k : Bytes)
    → current - sikroot_hysteresis_blocks ≤ key_block k
    → lookup k (purge_roots current roots) ≡ lookup k roots
unfolding purge_roots
purge-kept current roots k young =
    let least = current - sikroot_hysteresis_blocks in
    let taken =
      select_purged least (has_key (lookup (block_key least) roots)) 0 (roots_in_order roots) in
    let kept = erase_each-kept taken roots k (λ m. omega (
      arith,
      young,
      purged_old least (has_key (lookup (block_key least) roots)) 0 (roots_in_order roots) k m,
    )) in
    ground (arith, kept)

listed_last : (root : Bytes) (rs : List Bytes) → listed_root root (rs ++ root ∷ []) ≡ true
unfolding listed_root
listed_last root [] = ground (arith, bytes_equal_refl root)
listed_last root (r ∷ rs) = ground (arith, listed_last root rs)

listed_more :
    (root : Bytes) (rs : List Bytes) (r : Bytes)
    → listed_root root rs ≡ true
    → listed_root root (rs ++ r ∷ []) ≡ true
unfolding listed_root
listed_more root [] r h = ground (arith, h)
listed_more root (q ∷ rs) r h = ground (arith, h, listed_more root rs r)

-- `UpdateSIKRoots` succeeds; afterwards the root of the tree of keys has not expired, a second call
-- changes nothing, and every entry of the database but that of the current block is kept if it is not
-- more than 32 blocks old. No root that was valid expires, however old it is: the purge erases old
-- entries of the database, and the list of valid roots in memory, which `ExpiredSIKRoot` reads, only
-- grows.
pub update_sik_roots_keeps :
    (root_of : Dict Bytes → Bytes) (k old : Bytes) (s : State)
    → s.current_height - sikroot_hysteresis_blocks ≤ key_block k
    → k ≢ block_key s.current_height
    → expired_sik_root_test old s ≡ false
    → (s' : State) × (update_sik_roots root_of s ≡ (ok tt, s'))
      × (expired_sik_root_test (root_of s.siks) s' ≡ false)
      × (expired_sik_root_test old s' ≡ false)
      × (update_sik_roots root_of s' ≡ (ok tt, s'))
      × (lookup k s'.sik_roots ≡ lookup k s.sik_roots)
unfolding update_sik_roots expired_sik_root_test
update_sik_roots_keeps root_of k old s young other valid =
    let root = root_of s.siks in
    let at = block_key s.current_height in
    elim (Bool-cases (listed_root root s.valid_sik_roots)) [
      | inl known ↦
          (s, ground (arith, known), ground (arith, known), valid, ground (arith, known), refl)
      | inr new ↦
          let purged = purge_roots s.current_height s.sik_roots in
          let s' : State = record s {
            sik_roots = insert at root purged;
            valid_sik_roots = s.valid_sik_roots ++ root ∷ [];
          } in
          let last = listed_last root s.valid_sik_roots in
          let was : listed_root old s.valid_sik_roots ≡ true = ground (arith, valid) in
          let still = listed_more old s.valid_sik_roots root was in
          (
            s',
            ground (arith, new),
            ground (arith, last),
            ground (arith, still),
            ground (arith, last),
            ground (
              arith,
              lookup-insert at k root purged,
              bytes_equal_iff at k,
              other,
              purge-kept s.current_height s.sik_roots k young,
            ),
          )
    ]
