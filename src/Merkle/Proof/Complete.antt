-- ===== src/Merkle/Proof/Complete.antt =====
-- What a tree reads under a key, and that its proofs are accepted.
use vocdoni_node.Base.{
  ◌+◌, ◌*◌, ◌≤◌, ◌<◌, ◌≡◌, ◌∙◌, refl, sym, ap, subst, Bool, true, Option, none, some, [], arith,
}
use native.Mathlib.Nat.{mul-le-mul_right}
use vocdoni_node.Base.Lists.{length}
use vocdoni_node.Base.Bytes.{Bytes, bytes_equal, bytes_equal_refl}
use vocdoni_node.Merkle.Types.{HashFunction, Database, ok}
use vocdoni_node.Merkle.Nodes.{fit, ceil_div8, read_leaf_value, key_path_from_key}
use vocdoni_node.Merkle.Walk.{Tree, down}
use vocdoni_node.Merkle.Edit.{path_of, root_with_tx, get_with_tx}
use vocdoni_node.Merkle.Proof.{gen_proof_with_tx, check_proof}
use vocdoni_node.Merkle.Proof.Packing.{pack_siblings-roundtrip}
use vocdoni_node.Merkle.Trie.{Trie, reached, Shallow, Compact, Holds}
use vocdoni_node.Merkle.Trie.Reading.{new_leaf_value-roundtrip}
use vocdoni_node.Merkle.Trie.Way.{StandsAt, Way, down-Way}
use vocdoni_node.Merkle.Trie.Digest.{path_in}
use vocdoni_node.Merkle.Trie.Paths.{length-get_path, climb-get_path}

-- A tree whose database holds a compact trie under its root, and whose hashes have up to 253 bytes.
pub record Rooted (t : Tree) (db : Database) (trie : Trie) (root : Bytes) : Type 0 where
  pub of_root : root_with_tx t db ≡ ok root
  pub holds : Holds t.hash_function db trie root
  pub shallow : Shallow t.max_levels trie
  pub compact : Compact trie
  pub hashes : (0 < t.hash_function.len) × (t.hash_function.len ≤ 253)

pub path_of-fits :
    (t : Tree) (k : Bytes) → length k ≤ ceil_div8 t.max_levels → path_of t k ≡ ok (path_in t k)
unfolding path_of key_path_from_key
path_of-fits t k h = ground (arith, h)

pub Rooted-Way :
    (t : Tree) (db : Database) (trie : Trie) (root k : Bytes)
    → Rooted t db trie root
    → (f : _) × (down t db k root (path_in t k) 0 true ≡ ok f)
      × Way t.hash_function trie (path_in t k) root f
Rooted-Way t db trie root k r =
    let size = length-get_path t.max_levels (fit (ceil_div8 t.max_levels) k) in
    down-Way t db k trie (path_in t k) 0 root r.hashes.1 r.holds
      (subst (λ n. Shallow n trie) (sym size) r.shallow) r.compact

-- What `Get` gives for the pair on the path: with no pair it gives the empty one.
abbrev pub answer : Bytes → Option (Bytes × Bytes) → Bytes × Bytes × Bool
answer k none = ([], [], bytes_equal k [])
answer k (some (k', v)) = (k', v, bytes_equal k k')

read_stands :
    (h : HashFunction) (o : Option (Bytes × Bytes)) (key value k : Bytes)
    → StandsAt h o key value
    → (p : Bytes × Bytes) × (read_leaf_value value ≡ ok p)
      × ((p.0, p.1, bytes_equal k p.0) ≡ answer k o)
unfolding read_leaf_value
read_stands h none key value k e = (([], []), ap read_leaf_value e, refl)
read_stands h (some (k', v)) key value k (made, small) =
    ((k', v), new_leaf_value-roundtrip h k' v key value made small, refl)

-- `Get` in a tree whose hashes have 1 to 253 bytes and whose database holds under its root a compact
-- trie no deeper than its levels, for any key that is no longer than a path: it gives the pair that
-- the path of the key leads to, and counts the key as found exactly if it is the key of that pair.
-- Where the path leads to no pair, it gives the empty pair, and counts the key as found exactly if it
-- is the empty key, although no pair is there.
pub get_with_tx-reached :
    (t : Tree) (db : Database) (trie : Trie) (root k : Bytes)
    → Rooted t db trie root
    → length k ≤ ceil_div8 t.max_levels
    → get_with_tx t k db ≡ ok (answer k (reached (path_in t k) trie))
unfolding get_with_tx
get_with_tx-reached t db trie root k r few =
    let (f, run, way) = Rooted-Way t db trie root k r in
    let (p, read, same) =
      read_stands t.hash_function (reached (path_in t k) trie) f.key f.value k way.stands in
    ground (arith, path_of-fits t k few, r.of_root, run, read, same)

-- `GenProof` in a tree whose hashes have 1 to 253 bytes and whose database holds under its root a
-- compact trie no deeper than its levels, for a key that is no longer than a path and that the path of
-- the key leads to: it gives the key, its value and siblings, as a proof of existence, and
-- `CheckProof` accepts them for the root, where the packed siblings of all levels fit in 65,535 bytes.
pub gen_proof_with_tx-accepted :
    (t : Tree) (db : Database) (trie : Trie) (root k v : Bytes)
    → Rooted t db trie root
    → length k ≤ ceil_div8 t.max_levels
    → 4 + ceil_div8 t.max_levels + t.max_levels * t.hash_function.len ≤ 65535
    → reached (path_in t k) trie ≡ some (k, v)
    → (packed : Bytes) × (gen_proof_with_tx t k db ≡ ok (k, v, packed, true))
      × (check_proof t.hash_function k v root packed ≡ ok true)
unfolding gen_proof_with_tx check_proof
gen_proof_with_tx-accepted t db trie root k v r few room there =
    let h = t.hash_function in
    let (f, run, way) = Rooted-Way t db trie root k r in
    let (made, small) = subst (λ o. StandsAt h o f.key f.value) there way.stands in
    let read = new_leaf_value-roundtrip h k v f.key f.value made small in
    let n = length f.siblings in
    let few_siblings : n ≤ t.max_levels =
      omega (arith, way.short, length-get_path t.max_levels (fit (ceil_div8 t.max_levels) k)) in
    let (packed, packs, unpacks) =
      pack_siblings-roundtrip h f.siblings r.hashes.0 way.packable
        (omega (arith, room, few_siblings, mul-le-mul_right h.len few_siblings)) in
    let climbs = climb-get_path h k f.siblings f.key t.max_levels few_siblings ∙ way.climbs in
    (
      packed,
      ground (arith, path_of-fits t k few, r.of_root, run, packs, read, bytes_equal_refl k),
      ground (arith, unpacks, made, climbs, bytes_equal_refl root),
    )
