-- ===== src/Sik/Roots.antt =====
-- vochain/state/sik.go: the roots of the tree of secret identity keys that a proof may be made
-- against, kept for some blocks.
pub mod Kept
use vocdoni_node.Base.{
  ℕ, ◌-◌, ◌/◌, ◌%◌, ◌*◌, ◌+◌, ◌^◌, Bool, true, false, not, ◌||◌, Option, none, some, List, [], ◌∷◌,
  ◌++◌, ltb, if◌then◌else◌,
}
use vocdoni_node.Base.Lists.{replicate, get_or}
use vocdoni_node.Base.Bytes.{Bytes, bytes_equal, before}
use vocdoni_node.Base.Dict.{Dict, lookup, insert, erase}
use vocdoni_node.Chain.{State, Exec, ⊤, pure, gets, modify, ◌>>=◌}

abbrev pub sikroot_hysteresis_blocks : ℕ
sikroot_hysteresis_blocks = 32

unfoldable pub listed_root : Bytes → List Bytes → Bool
listed_root root [] = false
listed_root root (r ∷ rs) = bytes_equal r root || listed_root root rs

-- `ExpiredSIKRoot`
unfoldable pub expired_sik_root_test : Bytes → State → Bool
unfolding listed_root
expired_sik_root_test root s = not (listed_root root s.valid_sik_roots)

-- The 32-byte key of a block: its number in 4 bytes, the lowest first, and zeros.
unfoldable pub block_key : ℕ → Bytes
block_key n = n % 256 ∷ n / 2 ^ 8 % 256 ∷ n / 2 ^ 16 % 256 ∷ n / 2 ^ 24 % 256 ∷ replicate 28 0

unfoldable pub key_block : Bytes → ℕ
key_block k = get_or k 0 0 + get_or k 1 0 * 2 ^ 8 + get_or k 2 0 * 2 ^ 16 + get_or k 3 0 * 2 ^ 24

-- The entries in the order of their keys, as the database iterates.
unfoldable pub place_root : Bytes × Bytes → Dict Bytes → Dict Bytes
place_root e [] = e ∷ []
place_root e (x ∷ xs) =
    let rest = place_root e xs in if before e.0 x.0 then e ∷ (x ∷ xs) else x ∷ rest

unfoldable pub roots_in_order : Dict Bytes → Dict Bytes
unfolding place_root
roots_in_order [] = []
roots_in_order (e ∷ es) = place_root e (roots_in_order es)

-- `FetchValidSIKRoots`
unfoldable pub values : Dict Bytes → List Bytes
values [] = []
values ((_, root) ∷ rest) = root ∷ values rest

-- It reads the entries of the last committed version.
unfoldable pub fetch_valid_sik_roots : Dict Bytes → Exec ⊤
unfolding values roots_in_order
fetch_valid_sik_roots committed_roots =
    modify (λ s. record s { valid_sik_roots = values (roots_in_order committed_roots) })

abbrev has_key : Option Bytes → Bool
has_key none = false
has_key (some _) = true

-- The loop that selects the keys to purge; `exact` tells whether the least block has a root, and
-- `nearest` is the greatest block that was selected so far.
unfoldable pub select_purged : ℕ → Bool → ℕ → Dict Bytes → List Bytes
select_purged min_block exact nearest [] = []
select_purged min_block exact nearest ((k, _) ∷ rest) =
    let taken = k ∷ select_purged min_block exact (key_block k) rest in
    let left = select_purged min_block exact nearest rest in
    if ltb (key_block k) min_block
    then (if exact || ltb nearest (key_block k) then taken else left)
    else left

unfoldable pub erase_each : List Bytes → Dict Bytes → Dict Bytes
erase_each [] d = d
erase_each (k ∷ ks) d = erase_each ks (erase k d)

-- The roots after the purge at a block.
unfoldable pub purge_roots : ℕ → Dict Bytes → Dict Bytes
unfolding block_key key_block roots_in_order select_purged erase_each
purge_roots current roots =
    let min_block = current - sikroot_hysteresis_blocks in
    if ltb sikroot_hysteresis_blocks current
    then erase_each
        (select_purged min_block (has_key (lookup (block_key min_block) roots)) 0
          (roots_in_order roots))
        roots
    else roots

-- `UpdateSIKRoots`, where `root_of` is the root of a tree.
unfoldable pub update_sik_roots : (Dict Bytes → Bytes) → Exec ⊤
unfolding purge_roots block_key listed_root
update_sik_roots root_of = do
  root ← gets (λ s. root_of s.siks)
  known ← gets (λ s. listed_root root s.valid_sik_roots)
  if known
      then pure tt
      else modify (λ s. record s {
        sik_roots =
            insert (block_key s.current_height) root (purge_roots s.current_height s.sik_roots);
        valid_sik_roots = s.valid_sik_roots ++ root ∷ [];
      })
