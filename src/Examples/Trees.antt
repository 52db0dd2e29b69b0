-- ===== src/Examples/Trees.antt =====
-- Merkle trees over a hash that adds all bytes up.
use vocdoni_node.Base.{ℕ, ◌+◌, ◌≡◌, ◌∙◌, ◌⊎◌, refl, ap, true, some, List, [], ◌∷◌, arith}
use vocdoni_node.Base.Lists.{length}
use vocdoni_node.Base.Bytes.{Bytes, bytes_equal}
use vocdoni_node.Base.Dict.{lookup, insert, erase}
use vocdoni_node.Merkle.Types.{HashFunction, Database, ok}
use vocdoni_node.Merkle.Nodes.{
  empty_hash, fit, check_key_value_len, new_leaf_value, new_intermediate, path_from, get_path,
  read_intermediate_childs, read_leaf_value, key_path_from_key,
}
use vocdoni_node.Merkle.Walk.{
  Tree, down, read_node, decode_node, at_leaf, down_virtually, up, parent, store_parent,
  delete_nodes,
}
use vocdoni_node.Merkle.Edit.{
  db_key_root, tree_of, root_with_tx, add, get_with_tx, path_of, hang, get_n_leafs, get_le,
}
use vocdoni_node.Merkle.Edit.Rising.{Reliable}
use vocdoni_node.Merkle.Edit.Grafting.{Implements, add-Implements}
use vocdoni_node.Merkle.Edit.Keeping.{add-keeps}
use vocdoni_node.Merkle.Delete.{leaves_from, delete_with_tx}
use vocdoni_node.Merkle.Delete.Leaves.{leaves_from-pairs}
use vocdoni_node.Merkle.Delete.Single.{delete_with_tx_single}
use vocdoni_node.Merkle.Proof.{
  pack_siblings, unpack_siblings, spread, bytes_to_bitmap, gen_proof_with_tx, climb, check_proof,
}
use vocdoni_node.Merkle.Proof.Packing.{pack_siblings-roundtrip}
use vocdoni_node.Merkle.Proof.Binding.{Collision, check_proof_binds}
use vocdoni_node.Merkle.Trie.{Trie, tip, fork, reached, Holds}
use vocdoni_node.Merkle.Trie.Digest.{Digest, path_in, part, graft}
use vocdoni_node.Merkle.Proof.Complete.{
  Rooted, answer, get_with_tx-reached, gen_proof_with_tx-accepted,
}

abbrev total : Bytes → ℕ
total [] = 0
total (x ∷ xs) = x + total xs

abbrev total_all : List Bytes → ℕ
total_all [] = 0
total_all (xs ∷ xss) = total xs + total_all xss

abbrev adding : HashFunction
adding = record { len = 2; hash = λ inputs. ok (1 ∷ total_all inputs ∷ []) }

two_zeros : (l : Bytes) → length l ≡ 2 → total l ≡ 0 → l ≡ 0 ∷ 0 ∷ []
two_zeros [] n e = absurd (omega (arith, n))
two_zeros (a ∷ []) n e = absurd (omega (arith, n))
two_zeros (a ∷ (b ∷ [])) n e =
    let first : a ≡ 0 = omega (arith, e) in
    let second : b ≡ 0 = omega (arith, e) in
    ap (λ x. x ∷ b ∷ []) first ∙ ap (λ x. 0 ∷ x ∷ []) second
two_zeros (a ∷ (b ∷ (c ∷ l))) n e = absurd (omega (arith, n))

adding-Reliable : Reliable adding (1 ∷ 0 ∷ [])
adding-Reliable = record {
  total = λ inputs. (1 ∷ total_all inputs ∷ [], refl, refl, λ e. ground (arith, e));
  only_empty = λ l r n m e.
      let none_left : total l + (total r + 0) ≡ 0 = ground (arith, e) in
      (two_zeros l n (omega (arith, none_left)), two_zeros r m (omega (arith, none_left)));
  small = omega arith;
}

-- Eight levels, the key 1 on the right and the key 2 on the left.
abbrev grown : Tree
grown = tree_of adding 8 (1 ∷ 0 ∷ [])

abbrev two : Trie
two = fork (tip (2 ∷ []) (5 ∷ [])) (tip (1 ∷ []) (7 ∷ []))

abbrev top : Bytes
top = 1 ∷ 19 ∷ []

abbrev nodes : Database
nodes =
    (db_key_root, top)
    ∷ (top, 2 ∷ 2 ∷ 1 ∷ 8 ∷ 1 ∷ 9 ∷ [])
    ∷ (1 ∷ 8 ∷ [], 1 ∷ 1 ∷ 2 ∷ 5 ∷ [])
    ∷ (1 ∷ 9 ∷ [], 1 ∷ 1 ∷ 1 ∷ 7 ∷ [])
    ∷ []

left-Holds : Holds adding nodes (tip (2 ∷ []) (5 ∷ [])) (1 ∷ 8 ∷ [])
unfolding new_leaf_value check_key_value_len lookup bytes_equal
left-Holds = (
  1 ∷ 1 ∷ 2 ∷ 5 ∷ [],
  refl,
  record { sized = refl; not_empty = λ e. ground (arith, e); found = refl },
  omega arith,
)

right-Holds : Holds adding nodes (tip (1 ∷ []) (7 ∷ [])) (1 ∷ 9 ∷ [])
unfolding new_leaf_value check_key_value_len lookup bytes_equal
right-Holds = (
  1 ∷ 1 ∷ 1 ∷ 7 ∷ [],
  refl,
  record { sized = refl; not_empty = λ e. ground (arith, e); found = refl },
  omega arith,
)

two-Holds : Holds adding nodes two top
unfolding new_intermediate fit lookup bytes_equal
two-Holds = (
  1 ∷ 8 ∷ [],
  1 ∷ 9 ∷ [],
  2 ∷ 2 ∷ 1 ∷ 8 ∷ 1 ∷ 9 ∷ [],
  refl,
  record { sized = refl; not_empty = λ e. ground (arith, e); found = refl },
  left-Holds,
  right-Holds,
)

two-Rooted : Rooted grown nodes two top
unfolding root_with_tx lookup bytes_equal
two-Rooted = record {
  of_root = refl;
  holds = two-Holds;
  shallow = (tt, tt);
  compact = (tt, tt, tt);
  hashes = (omega arith, omega arith);
}

get_with_tx-reached_example :
    get_with_tx grown (3 ∷ []) nodes ≡ ok (answer (3 ∷ []) (some (1 ∷ [], 7 ∷ [])))
unfolding path_from get_path fit
get_with_tx-reached_example =
    get_with_tx-reached grown nodes two top (3 ∷ []) two-Rooted (omega arith)

gen_proof_with_tx-accepted_example :
    (packed : Bytes) × (gen_proof_with_tx grown (1 ∷ []) nodes ≡ ok (1 ∷ [], 7 ∷ [], packed, true))
    × (check_proof adding (1 ∷ []) (7 ∷ []) top packed ≡ ok true)
unfolding path_from get_path fit
gen_proof_with_tx-accepted_example =
    gen_proof_with_tx-accepted grown nodes two top (1 ∷ []) (7 ∷ []) two-Rooted (omega arith)
      (omega arith) refl

pack_siblings-roundtrip_example :
    (p : Bytes) × (pack_siblings adding (empty_hash adding ∷ (1 ∷ 8 ∷ []) ∷ []) ≡ ok p)
    × (unpack_siblings adding p ≡ ok (empty_hash adding ∷ (1 ∷ 8 ∷ []) ∷ []))
pack_siblings-roundtrip_example =
    pack_siblings-roundtrip adding (empty_hash adding ∷ (1 ∷ 8 ∷ []) ∷ []) (omega arith)
      (refl, (refl, λ e. ground (arith, e))) (omega arith)

-- The values 7 and 3, 4 have one sum.
abbrev packed_one : Bytes
packed_one = 7 ∷ 0 ∷ 1 ∷ 0 ∷ 1 ∷ 1 ∷ 8 ∷ []

packed_one-read : unpack_siblings adding packed_one ≡ ok ((1 ∷ 8 ∷ []) ∷ [])
unfolding unpack_siblings spread bytes_to_bitmap get_le
packed_one-read = refl

first-accepted : check_proof adding (1 ∷ []) (7 ∷ []) top packed_one ≡ ok true
unfolding check_proof unpack_siblings spread bytes_to_bitmap get_le new_leaf_value
    check_key_value_len climb parent new_intermediate fit path_from get_path bytes_equal
first-accepted = refl

second-accepted : check_proof adding (1 ∷ []) (3 ∷ 4 ∷ []) top packed_one ≡ ok true
unfolding check_proof unpack_siblings spread bytes_to_bitmap get_le new_leaf_value
    check_key_value_len climb parent new_intermediate fit path_from get_path bytes_equal
second-accepted = refl

abbrev seven : Bytes
seven = 7 ∷ []

abbrev three_four : Bytes
three_four = 3 ∷ 4 ∷ []

check_proof_binds_example : (seven ≡ three_four) ⊎ Collision adding
check_proof_binds_example =
    check_proof_binds adding (1 ∷ []) seven three_four top packed_one packed_one ((1 ∷ 8 ∷ []) ∷ [])
      ((1 ∷ 8 ∷ []) ∷ []) (λ inputs key e. ground (arith, e)) packed_one-read packed_one-read refl
      first-accepted second-accepted

add-Implements_example :
    Implements adding
      (ok (fork (tip (2 ∷ []) (5 ∷ [])) (fork (tip (1 ∷ []) (7 ∷ [])) (tip (3 ∷ []) (9 ∷ [])))))
      (add grown nodes top (3 ∷ []) (9 ∷ []))
unfolding graft part path_from get_path fit bytes_equal
add-Implements_example =
    add-Implements grown nodes top (3 ∷ []) (9 ∷ []) two adding-Reliable two-Holds (tt, tt)
      (omega arith, omega arith) (omega arith) (omega arith) (omega arith)

abbrev after_add : Database
after_add =
    (db_key_root, top)
    ∷ (1 ∷ 8 ∷ [], 1 ∷ 1 ∷ 2 ∷ 5 ∷ [])
    ∷ (1 ∷ 9 ∷ [], 1 ∷ 1 ∷ 1 ∷ 7 ∷ [])
    ∷ (1 ∷ 13 ∷ [], 1 ∷ 1 ∷ 3 ∷ 9 ∷ [])
    ∷ (1 ∷ 24 ∷ [], 2 ∷ 2 ∷ 1 ∷ 9 ∷ 1 ∷ 13 ∷ [])
    ∷ (1 ∷ 34 ∷ [], 2 ∷ 2 ∷ 1 ∷ 8 ∷ 1 ∷ 24 ∷ [])
    ∷ []

added : add grown nodes top (3 ∷ []) (9 ∷ []) ≡ ok (1 ∷ 34 ∷ [], after_add)
unfolding add path_of key_path_from_key check_key_value_len fit get_path path_from down read_node
    decode_node read_intermediate_childs at_leaf read_leaf_value down_virtually new_leaf_value hang
    up parent new_intermediate store_parent delete_nodes lookup insert erase bytes_equal
added = refl

add-keeps_example :
    (after : Trie) × Digest adding after (1 ∷ 34 ∷ [])
    × (reached (path_in grown (3 ∷ [])) after ≡ some (3 ∷ [], 9 ∷ []))
    × (reached (path_in grown (1 ∷ [])) after ≡ some (1 ∷ [], 7 ∷ []))
unfolding path_from get_path fit
add-keeps_example =
    add-keeps grown nodes after_add top (1 ∷ 34 ∷ []) (3 ∷ []) (9 ∷ []) (1 ∷ []) (7 ∷ []) two
      adding-Reliable two-Holds (tt, tt) (omega arith, omega arith) (omega arith) (omega arith)
      (omega arith) refl added

-- A tree with the pair 1, 7 only: the key 2 is not in it.
abbrev one_node : Database
one_node = (db_key_root, 1 ∷ 9 ∷ []) ∷ (1 ∷ 9 ∷ [], 1 ∷ 1 ∷ 1 ∷ 7 ∷ []) ∷ []

delete_with_tx_single_example :
    (db' : Database) × (delete_with_tx 1 grown (2 ∷ []) one_node ≡ ok db')
    × (root_with_tx grown db' ≡ ok (empty_hash adding))
    × (get_n_leafs db' ≡ ok 0)
unfolding lookup new_leaf_value check_key_value_len bytes_equal
delete_with_tx_single_example =
    delete_with_tx_single grown one_node 0 (1 ∷ 9 ∷ []) (1 ∷ []) (7 ∷ []) (2 ∷ []) refl refl (
      1 ∷ 1 ∷ 1 ∷ 7 ∷ [],
      refl,
      record { sized = refl; not_empty = λ e. ground (arith, e); found = refl },
      omega arith,
    )

leaves_from-pairs_example :
    leaves_from 2 adding nodes top ≡ ok ((2 ∷ [], 5 ∷ []) ∷ (1 ∷ [], 7 ∷ []) ∷ [])
leaves_from-pairs_example =
    leaves_from-pairs adding nodes two 1 top (omega arith) two-Holds (tt, tt)

-- At an empty position, the empty key is found.
empty_key_found : get_with_tx grown [] ((db_key_root, empty_hash adding) ∷ []) ≡ ok ([], [], true)
unfolding get_with_tx get_path path_of key_path_from_key root_with_tx down read_node read_leaf_value
    lookup bytes_equal
empty_key_found = refl
