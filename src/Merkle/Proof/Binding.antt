-- ===== src/Merkle/Proof/Binding.antt =====
-- A root binds the values: two accepted proofs of one key differ only with a collision of the hash.
use vocdoni_node.Base.{
  ◌≡◌, ◌≢◌, ◌⊎◌, ◌∙◌, refl, sym, ap, inl, inr, Bool, true, false, List, [], ◌∷◌, ◌++◌, arith,
  Bool-cases,
}
use vocdoni_node.Base.Lists.{length-append, length, take, drop}
use vocdoni_node.Base.Slices.{take-append, drop-append}
use vocdoni_node.Base.Bytes.{Bytes, bytes_equal, bytes_equal_iff}
use vocdoni_node.Merkle.Types.{HashFunction, Result-cases, ok}
use vocdoni_node.Merkle.Nodes.{fit, ceil_div8, new_leaf_value, get_path}
use vocdoni_node.Merkle.Walk.{parent}
use vocdoni_node.Merkle.Trie.Digest.{intermediate_hash, leaf_hash}
use vocdoni_node.Merkle.Proof.Sized.{AllSized, unpack_siblings-sized}
use vocdoni_node.Merkle.Proof.{unpack_siblings, climb, check_proof}

-- The bytes that are hashed.
abbrev pub joined : List Bytes → Bytes
joined [] = []
joined (x ∷ xs) = x ++ joined xs

-- Two different inputs of the hash function with one result.
pub record Collision (h : HashFunction) : Type 0 where
  pub first : List Bytes
  pub second : List Bytes
  pub differ : joined first ≢ joined second
  pub result : Bytes
  pub of_first : h.hash first ≡ ok result
  pub of_second : h.hash second ≡ ok result

abbrev pub FixedLength : HashFunction → Type 0
FixedLength h = (inputs : List Bytes) (key : Bytes) → h.hash inputs ≡ ok key → length key ≡ h.len

hash_binds :
    (h : HashFunction) (a b : List Bytes) (key : Bytes)
    → h.hash a ≡ ok key
    → h.hash b ≡ ok key
    → (joined a ≡ joined b) ⊎ Collision h
hash_binds h a b key e f = elim (Bool-cases (bytes_equal (joined a) (joined b))) [
  | inl s ↦ inl ((bytes_equal_iff (joined a) (joined b)).0 s)
  | inr n ↦ inr (record {
    first = a;
    second = b;
    differ = λ s. ground (arith, bytes_equal_iff (joined a) (joined b), n, s);
    result = key;
    of_first = e;
    of_second = f;
  })
]

append_left : (a b c d : Bytes) → length a ≡ length c → (a ++ b) ≡ (c ++ d) → a ≡ c
append_left a b c d s e =
    sym (take-append (length a) a b refl)
    ∙ ap (take (length a)) e
    ∙ take-append (length a) c d (sym s)

append_right : (a b c d : Bytes) → length a ≡ length c → (a ++ b) ≡ (c ++ d) → b ≡ d
append_right a b c d s e =
    sym (drop-append (length a) a b refl)
    ∙ ap (drop (length a)) e
    ∙ drop-append (length a) c d (sym s)

append_nil : (a : Bytes) → (a ++ []) ≡ a
append_nil [] = refl
append_nil (x ∷ a) = ap (λ t. x ∷ t) (append_nil a)

pair_binds :
    (h : HashFunction) (l r l' r' key : Bytes)
    → length l ≡ length l'
    → h.hash (l ∷ r ∷ []) ≡ ok key
    → h.hash (l' ∷ r' ∷ []) ≡ ok key
    → ((l ≡ l') × (r ≡ r')) ⊎ Collision h
pair_binds h l r l' r' key s e f = elim (hash_binds h (l ∷ r ∷ []) (l' ∷ r' ∷ []) key e f) [
  | inr c ↦ inr c
  | inl same ↦ inl (
    append_left l (r ++ []) l' (r' ++ []) s same,
    sym (append_nil r) ∙ append_right l (r ++ []) l' (r' ++ []) s same ∙ append_nil r',
  )
]

parent_binds :
    (h : HashFunction) (b : Bool) (s key s' key' : Bytes) (made made' : Bytes × Bytes)
    → length s ≡ length s'
    → length key ≡ length key'
    → parent h b s key ≡ ok made
    → parent h b s' key' ≡ ok made'
    → made.0 ≡ made'.0
    → (key ≡ key') ⊎ Collision h
unfolding parent
parent_binds h true s key s' key' made made' n m e f same =
    elim (pair_binds h s key s' key' made.0 n (intermediate_hash h s key made e)
      (intermediate_hash h s' key' made' f ∙ ap ok (sym same))) [ inl p ↦ inl p.1 | inr c ↦ inr c ]
parent_binds h false s key s' key' made made' n m e f same =
    elim (pair_binds h key s key' s' made.0 m (intermediate_hash h key s made e)
      (intermediate_hash h key' s' made' f ∙ ap ok (sym same))) [ inl p ↦ inl p.0 | inr c ↦ inr c ]

parent-sized :
    (h : HashFunction) (b : Bool) (s key : Bytes) (made : Bytes × Bytes)
    → FixedLength h
    → parent h b s key ≡ ok made
    → length made.0 ≡ h.len
unfolding parent
parent-sized h true s key made f e = f (s ∷ key ∷ []) made.0 (intermediate_hash h s key made e)
parent-sized h false s key made f e = f (key ∷ s ∷ []) made.0 (intermediate_hash h key s made e)

climb-sized :
    (h : HashFunction) (path : List Bool) (s : List Bytes) (key root : Bytes)
    → FixedLength h
    → length key ≡ h.len
    → climb h path s key ≡ ok root
    → length root ≡ h.len
unfolding climb
climb-sized h path [] key root f n e = ground (arith, n, e)
climb-sized h [] (x ∷ s) key root f n e = absurd (ground (arith, e))
climb-sized h (b ∷ path) (x ∷ s) key root f n e = elim (Result-cases (climb h path s key)) [
  | inr (z, k) ↦ absurd (ground (arith, e, k))
  | inl (y, k) ↦ elim (Result-cases (parent h b x y)) [
    | inr (z, m) ↦ absurd (ground (arith, e, k, m))
    | inl (made, m) ↦ ground (arith, e, k, m, parent-sized h b x y made f m)
  ]
]

climb_binds :
    (h : HashFunction) (path : List Bool) (s s' : List Bytes) (key key' root : Bytes)
    → FixedLength h
    → AllSized h.len s
    → AllSized h.len s'
    → length s ≡ length s'
    → length key ≡ h.len
    → length key' ≡ h.len
    → climb h path s key ≡ ok root
    → climb h path s' key' ≡ ok root
    → (key ≡ key') ⊎ Collision h
unfolding climb
climb_binds h path [] [] key key' root f a a' n m m' e e' = inl (ground (arith, e, e'))
climb_binds h path [] (x ∷ s') key key' root f a a' n m m' e e' = absurd (omega (arith, n))
climb_binds h path (x ∷ s) [] key key' root f a a' n m m' e e' = absurd (omega (arith, n))
climb_binds h [] (x ∷ s) (x' ∷ s') key key' root f a a' n m m' e e' = absurd (ground (arith, e))
climb_binds h (b ∷ path) (x ∷ s) (x' ∷ s') key key' root f a a' n m m' e e' =
    elim (Result-cases (climb h path s key)) [
      | inr (z, k) ↦ absurd (ground (arith, e, k))
      | inl (y, k) ↦ elim (Result-cases (climb h path s' key')) [
        | inr (z, k') ↦ absurd (ground (arith, e', k'))
        | inl (y', k') ↦ elim (Result-cases (parent h b x y)) [
          | inr (z, p) ↦ absurd (ground (arith, e, k, p))
          | inl (made, p) ↦ elim (Result-cases (parent h b x' y')) [
            | inr (z, p') ↦ absurd (ground (arith, e', k', p'))
            | inl (made', p') ↦
                let same : made.0 ≡ made'.0 = ground (arith, e, e', k, k', p, p') in
                let size = climb-sized h path s key y f m k in
                let size' = climb-sized h path s' key' y' f m' k' in
                elim (parent_binds h b x y x' y' made made' (a.0 ∙ sym a'.0) (size ∙ sym size') p p'
                  same) [
                    | inr c ↦ inr c
                    | inl q ↦
                        climb_binds h path s s' key key' y f a.1 a'.1 (omega (arith, n)) m m' k
                          (k' ∙ ap ok (sym q))
                  ]
          ]
        ]
      ]
    ]

-- Where hashes have a fixed length: two values whose proofs for one key, with as many siblings, are
-- both accepted for one root are equal, or the two proofs show two different texts with the same hash.
pub check_proof_binds :
    (h : HashFunction) (k v v' root packed packed' : Bytes) (s s' : List Bytes)
    → FixedLength h
    → unpack_siblings h packed ≡ ok s
    → unpack_siblings h packed' ≡ ok s'
    → length s ≡ length s'
    → check_proof h k v root packed ≡ ok true
    → check_proof h k v' root packed' ≡ ok true
    → (v ≡ v') ⊎ Collision h
unfolding check_proof
check_proof_binds h k v v' root packed packed' s s' f u u' n e e' =
    let path = get_path (length s) (fit (ceil_div8 (length s)) k) in
    let path' = get_path (length s') (fit (ceil_div8 (length s')) k) in
    let same_path : path ≡ path' = ap (λ m. get_path m (fit (ceil_div8 m) k)) n in
    elim (Result-cases (new_leaf_value h k v)) [
      | inr (z, m) ↦ absurd (ground (arith, e, u, m))
      | inl (made, m) ↦ elim (Result-cases (new_leaf_value h k v')) [
        | inr (z, m') ↦ absurd (ground (arith, e', u', m'))
        | inl (made', m') ↦ elim (Result-cases (climb h path s made.0)) [
          | inr (z, c) ↦ absurd (ground (arith, e, u, m, c))
          | inl (top, c) ↦ elim (Result-cases (climb h path' s' made'.0)) [
            | inr (z, c') ↦ absurd (ground (arith, e', u', m', c'))
            | inl (top', c') ↦
                let x = leaf_hash h k v made m in
                let x' = leaf_hash h k v' made' m' in
                let same : top ≡ root = ground (arith, e, u, m, c, bytes_equal_iff top root) in
                let same' : top' ≡ root =
                  ground (arith, e', u', m', c', bytes_equal_iff top' root) in
                let here = c ∙ ap ok same in
                let here' = ap (λ p. climb h p s' made'.0) same_path ∙ c' ∙ ap ok same' in
                elim (climb_binds h path s s' made.0 made'.0 root f
                  (unpack_siblings-sized h packed s u) (unpack_siblings-sized h packed' s' u') n
                  (f (k ∷ v ∷ (1 ∷ []) ∷ []) made.0 x) (f (k ∷ v' ∷ (1 ∷ []) ∷ []) made'.0 x') here
                  here') [
                    | inr q ↦ inr q
                    | inl q ↦
                        elim (hash_binds h (k ∷ v ∷ (1 ∷ []) ∷ []) (k ∷ v' ∷ (1 ∷ []) ∷ []) made.0 x
                          (x' ∙ ap ok (sym q))) [
                            | inr p ↦ inr p
                            | inl p ↦ inl (append_both k v v' p)
                          ]
                  ]
          ]
        ]
      ]
    ]
  where
    append_both : (k v v' : Bytes) → (k ++ (v ++ (1 ∷ []))) ≡ (k ++ (v' ++ (1 ∷ []))) → v ≡ v'
    append_both k v v' p =
        let tail = append_right k (v ++ (1 ∷ [])) k (v' ++ (1 ∷ [])) refl p in
        let size : length v ≡ length v' =
          omega (arith, length-append v (1 ∷ []), length-append v' (1 ∷ []), ap length tail) in
        append_left v (1 ∷ []) v' (1 ∷ []) size tail
