-- ===== src/Merkle/Edit/Keeping.antt =====
-- The pairs that are reached in the tree after `add`.
use vocdoni_node.Base.{
  ℕ, zero, suc, ◌≤◌, ◌≡◌, ◌∙◌, refl, sym, ap, subst, Bool, true, false, some, List, [], ◌∷◌, arith,
  Bool-cases, inl, inr,
}
use vocdoni_node.Base.Lists.{length, drop}
use vocdoni_node.Base.Bytes.{Bytes, bytes_equal}
use vocdoni_node.Merkle.Types.{HashFunction, Database, Result, ok, err, ◌>>=◌}
use vocdoni_node.Merkle.Nodes.{ceil_div8}
use vocdoni_node.Merkle.Walk.{Tree}
use vocdoni_node.Merkle.Edit.{add}
use vocdoni_node.Merkle.Edit.Rising.{Reliable}
use vocdoni_node.Merkle.Edit.Adding.{KeysFit}
use vocdoni_node.Merkle.Edit.Grafting.{Implements, add-Implements}
use vocdoni_node.Merkle.Trie.{Trie, vacant, tip, fork, reached, Shallow, Holds}
use vocdoni_node.Merkle.Trie.Digest.{Digest, path_in, part, graft}

-- A result is a fork over the one below, where there is one.
made_below :
    (m : Result Trie) (f : Trie → Trie) (trie : Trie)
    → (m >>= λ x. ok (f x)) ≡ ok trie
    → (x : Trie) × (m ≡ ok x) × (f x ≡ trie)
made_below (ok x) f trie e = (x, refl, ground (arith, e))
made_below (err x) f trie e = absurd (ground (arith, e))

reached-part :
    (path old_path : List Bool) (k v k' v' : Bytes) (trie : Trie)
    → part path old_path (tip k v) (tip k' v') ≡ ok trie
    → (reached path trie ≡ some (k, v)) × (reached old_path trie ≡ some (k', v'))
unfolding part
reached-part [] old_path k v k' v' trie e = absurd (ground (arith, e))
reached-part (b ∷ path) [] k v k' v' trie e = absurd (ground (arith, e))
reached-part (true ∷ path) (true ∷ old_path) k v k' v' trie e =
    let m = part path old_path (tip k v) (tip k' v') in
    let (x, run, same) = made_below m (fork vacant) trie e in
    let (new, old) = reached-part path old_path k v k' v' x run in
    (ap (reached (true ∷ path)) (sym same) ∙ new, ap (reached (true ∷ old_path)) (sym same) ∙ old)
reached-part (false ∷ path) (false ∷ old_path) k v k' v' trie e =
    let m = part path old_path (tip k v) (tip k' v') in
    let (x, run, same) = made_below m (λ x. fork x vacant) trie e in
    let (new, old) = reached-part path old_path k v k' v' x run in
    (ap (reached (false ∷ path)) (sym same) ∙ new, ap (reached (false ∷ old_path)) (sym same) ∙ old)
reached-part (true ∷ path) (false ∷ old_path) k v k' v' trie e =
    let same : fork (tip k' v') (tip k v) ≡ trie = ground (arith, e) in
    (ap (reached (true ∷ path)) (sym same), ap (reached (false ∷ old_path)) (sym same))
reached-part (false ∷ path) (true ∷ old_path) k v k' v' trie e =
    let same : fork (tip k v) (tip k' v') ≡ trie = ground (arith, e) in
    (ap (reached (false ∷ path)) (sym same), ap (reached (true ∷ old_path)) (sym same))

reached-graft :
    (t : Tree) (level : ℕ) (path : List Bool) (k v : Bytes) (trie trie' : Trie)
    → graft t level path k v trie ≡ ok trie'
    → reached path trie' ≡ some (k, v)
unfolding graft
reached-graft t level path k v vacant trie' e =
    let same : tip k v ≡ trie' = ground (arith, e) in ap (reached path) (sym same)
reached-graft t level path k v (tip k' v') trie' e = elim (Bool-cases (bytes_equal k k')) [
  | inl same ↦ absurd (ground (arith, e, same))
  | inr differ ↦
      (reached-part path (drop level (path_in t k')) k v k' v' trie' (ground (arith, e, differ))).0
]
reached-graft t level [] k v (fork l r) trie' e = absurd (ground (arith, e))
reached-graft t level (true ∷ path) k v (fork l r) trie' e =
    let (x, run, same) = made_below (graft t (suc level) path k v r) (fork l) trie' e in
    ap (reached (true ∷ path)) (sym same) ∙ reached-graft t (suc level) path k v r x run
reached-graft t level (false ∷ path) k v (fork l r) trie' e =
    let (x, run, same) = made_below (graft t (suc level) path k v l) (λ x. fork x r) trie' e in
    ap (reached (false ∷ path)) (sym same) ∙ reached-graft t (suc level) path k v l x run

drop_below :
    (level : ℕ) (whole : List Bool) (b : Bool) (rest : List Bool)
    → drop level whole ≡ b ∷ rest
    → drop (suc level) whole ≡ rest
drop_below zero [] b rest e = absurd (ground (arith, e))
drop_below zero (x ∷ whole) b rest e = ground (arith, e)
drop_below (suc level) [] b rest e = absurd (ground (arith, e))
drop_below (suc level) (x ∷ whole) b rest e = drop_below level whole b rest e

-- Another pair of the trie is still on the path of its key.
reached-graft_other :
    (t : Tree) (level : ℕ) (path path' : List Bool) (k v k' v' : Bytes) (trie trie' : Trie)
    → drop level (path_in t k') ≡ path'
    → reached path' trie ≡ some (k', v')
    → graft t level path k v trie ≡ ok trie'
    → reached path' trie' ≡ some (k', v')
unfolding graft
reached-graft_other t level path path' k v k' v' vacant trie' along there e =
    absurd (ground (arith, there))
reached-graft_other t level path path' k v k' v' (tip a b) trie' along there e =
    let key : a ≡ k' = ground (arith, there) in
    let value : b ≡ v' = ground (arith, there) in
    elim (Bool-cases (bytes_equal k a)) [
      | inl same ↦ absurd (ground (arith, e, same))
      | inr differ ↦
          let (_, old) =
            reached-part path (drop level (path_in t a)) k v a b trie'
              (ground (arith, e, differ)) in
          subst (λ q. reached q trie' ≡ some (k', v'))
            (ap (λ q. drop level (path_in t q)) key ∙ along) (old ∙ there)
    ]
reached-graft_other t level [] path' k v k' v' (fork l r) trie' along there e =
    absurd (ground (arith, e))
reached-graft_other t level (b ∷ path) [] k v k' v' (fork l r) trie' along there e =
    absurd (ground (arith, there))
reached-graft_other t level (true ∷ path) (true ∷ path') k v k' v' (fork l r) trie' along there e =
    let (x, run, same) = made_below (graft t (suc level) path k v r) (fork l) trie' e in
    ap (reached (true ∷ path')) (sym same)
    ∙ reached-graft_other t (suc level) path path' k v k' v' r x
        (drop_below level (path_in t k') true path' along) there run
reached-graft_other t level (true ∷ path) (false ∷ path') k v k' v' (fork l r) trie' along there e =
    let (x, run, same) = made_below (graft t (suc level) path k v r) (fork l) trie' e in
    ap (reached (false ∷ path')) (sym same) ∙ there
reached-graft_other t level (false ∷ path) (false ∷ path') k v k' v' (fork l r) trie' along there
      e =
    let (x, run, same) = made_below (graft t (suc level) path k v l) (λ x. fork x r) trie' e in
    ap (reached (false ∷ path')) (sym same)
    ∙ reached-graft_other t (suc level) path path' k v k' v' l x
        (drop_below level (path_in t k') false path' along) there run
reached-graft_other t level (false ∷ path) (true ∷ path') k v k' v' (fork l r) trie' along there e =
    let (x, run, same) = made_below (graft t (suc level) path k v l) (λ x. fork x r) trie' e in
    ap (reached (true ∷ path')) (sym same) ∙ there

Implements-ok :
    (h : HashFunction) (m : Result Trie) (r : Result (Bytes × Database)) (root : Bytes)
    (db : Database)
    → Implements h m r
    → r ≡ ok (root, db)
    → (trie : Trie) × (m ≡ ok trie) × Digest h trie root
Implements-ok h (ok trie) r root db (root', db', run, digest) e =
    (trie, refl, subst (Digest h trie) (ground (arith, run, e)) digest)
Implements-ok h (err x) r root db run e = absurd (ground (arith, run, e))

-- Where the hash function takes every input, gives the empty key for none and the key of the empty
-- node for empty children only, and has keys of at most 253 bytes; where the database holds a trie
-- under the root, no deeper than the levels of the tree, with leaf keys no longer than a path; and
-- where `add` of a key, no longer than a path and 255 bytes, with a value of at most 65,535 bytes
-- succeeds: the new root is the Merkle root of a trie in which the path of the key leads to the pair,
-- and the path of each key that was reached on its path leads to its pair as before.
pub add-keeps :
    (t : Tree) (db db' : Database) (root root' k v k' v' : Bytes) (trie : Trie)
    → Reliable t.hash_function t.empty_node
    → Holds t.hash_function db trie root
    → Shallow t.max_levels trie
    → KeysFit (ceil_div8 t.max_levels) trie
    → length k ≤ ceil_div8 t.max_levels
    → length k ≤ 255
    → length v ≤ 65535
    → reached (path_in t k') trie ≡ some (k', v')
    → add t db root k v ≡ ok (root', db')
    → (after : Trie) × Digest t.hash_function after root'
      × (reached (path_in t k) after ≡ some (k, v))
      × (reached (path_in t k') after ≡ some (k', v'))
add-keeps t db db' root root' k v k' v' trie rel holds shallow fits few nk nv there e =
    let done = add-Implements t db root k v trie rel holds shallow fits few nk nv in
    let (after, grafted, digest) =
      Implements-ok t.hash_function (graft t 0 (path_in t k) k v trie) (add t db root k v) root' db'
        done e in
    (
      after,
      digest,
      reached-graft t 0 (path_in t k) k v trie after grafted,
      reached-graft_other t 0 (path_in t k) (path_in t k') k v k' v' trie after refl there grafted,
    )
