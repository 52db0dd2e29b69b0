-- ===== src/Merkle/Trie/Way.antt =====
-- Where the way down the stored tree leads, and that its siblings lead back up.
use vocdoni_node.Base.{
  ℕ, suc, ◌≤◌, ◌≡◌, ◌≢◌, refl, Bool, true, false, Option, none, some, List, [], ◌∷◌, arith,
}
use vocdoni_node.Base.Lists.{length}
use vocdoni_node.Base.Bytes.{Bytes}
use vocdoni_node.Merkle.Types.{HashFunction, Database, ok}
use vocdoni_node.Merkle.Nodes.{empty_hash, new_leaf_value}
use vocdoni_node.Merkle.Walk.{Tree, Found, nothing_at, pass, at_leaf, down, parent}
use vocdoni_node.Merkle.Proof.{climb}
use vocdoni_node.Merkle.Proof.Packing.{Packable}
use vocdoni_node.Merkle.Trie.{Trie, vacant, tip, fork, reached, Shallow, Branching, Compact, Holds}
use vocdoni_node.Merkle.Trie.Reading.{Holds-sized, read_vacant, read_tip, read_fork}

-- The leaf, or the empty value, that stands where a path leads.
abbrev pub StandsAt : HashFunction → Option (Bytes × Bytes) → Bytes → Bytes → Type 0
StandsAt h none key value = value ≡ 0 ∷ []
StandsAt h (some (k, v)) key value = (new_leaf_value h k v ≡ ok (key, value)) × (length k ≤ 253)

abbrev NoFork : Trie → Type 0
NoFork (fork l r) = ⊥
NoFork _ = Unit

pub record Way (h : HashFunction) (t : Trie) (path : List Bool) (key : Bytes) (f : Found)
    : Type 0 where
  pub climbs : climb h path f.siblings f.key ≡ ok key
  pub packable : Packable h f.siblings
  pub short : length f.siblings ≤ length path
  pub stands : StandsAt h (reached path t) f.key f.value
  pub alone : f.siblings ≡ [] → NoFork t

-- The other subtree is not vacant where the way ends below a fork.
beside :
    (h : HashFunction) (s : Bytes) (rest : List Bytes)
    → length s ≡ h.len
    → Packable h rest
    → (rest ≡ [] → s ≢ empty_hash h)
    → Packable h (s ∷ rest)
beside h s [] sized p n = (sized, n refl)
beside h s (r ∷ rest) sized p n = (sized, p)

not_empty :
    (h : HashFunction) (db : Database) (l r : Trie) (key : Bytes)
    → Holds h db r key
    → Branching l r
    → NoFork l
    → key ≢ empty_hash h
not_empty h db vacant vacant key s b n = absurd b
not_empty h db vacant (tip k v) key s b n = absurd b
not_empty h db vacant (fork l r) key (_, _, _, _, stored, _, _) b n = stored.not_empty
not_empty h db (tip k v) vacant key s b n = absurd b
not_empty h db (tip k v) (tip k' v') key (_, _, stored, _) b n = stored.not_empty
not_empty h db (tip k v) (fork l r) key (_, _, _, _, stored, _, _) b n = stored.not_empty
not_empty h db (fork a c) r key s b n = absurd n

swapped : (l r : Trie) → Branching l r → Branching r l
swapped vacant vacant b = absurd b
swapped vacant (tip k v) b = absurd b
swapped vacant (fork l r) b = tt
swapped (tip k v) vacant b = absurd b
swapped (tip k v) (tip k' v') b = tt
swapped (tip k v) (fork l r) b = tt
swapped (fork l r) vacant b = tt
swapped (fork l r) (tip k v) b = tt
swapped (fork l r) (fork l' r') b = tt

-- In a compact tree that is not too deep, `down` for a leaf succeeds.
pub down-Way :
    (t : Tree) (db : Database) (k : Bytes) (trie : Trie) (path : List Bool) (level : ℕ)
    (key : Bytes)
    → t.hash_function.len ≤ 253
    → Holds t.hash_function db trie key
    → Shallow (length path) trie
    → Compact trie
    → (f : Found) × (down t db k key path level true ≡ ok f) × Way t.hash_function trie path key f
unfolding down at_leaf climb parent
down-Way t db k vacant [] level key small s shallow c =
    let r = read_vacant t.hash_function db key s in
    (
      nothing_at key,
      ground (arith, r),
      record { climbs = refl; packable = tt; short = omega arith; stands = refl; alone = λ _. tt },
    )
down-Way t db k vacant (b ∷ path) level key small s shallow c =
    let r = read_vacant t.hash_function db key s in
    (
      nothing_at key,
      ground (arith, r),
      record { climbs = refl; packable = tt; short = omega arith; stands = refl; alone = λ _. tt },
    )
down-Way t db k (tip k' v) [] level key small (value, made, stored, few) shallow c =
    let r = read_tip t.hash_function db k' v key value made stored in
    (
      record { key = key; value = value; siblings = []; intermediates = [] },
      ground (arith, r),
      record {
        climbs = refl;
        packable = tt;
        short = omega arith;
        stands = (made, few);
        alone = λ _. tt;
      },
    )
down-Way t db k (tip k' v) (b ∷ path) level key small (value, made, stored, few) shallow c =
    let r = read_tip t.hash_function db k' v key value made stored in
    (
      record { key = key; value = value; siblings = []; intermediates = [] },
      ground (arith, r),
      record {
        climbs = refl;
        packable = tt;
        short = omega arith;
        stands = (made, few);
        alone = λ _. tt;
      },
    )
down-Way t db k (fork l r) [] level key small s shallow c = absurd shallow
down-Way t db k (fork l r) (true ∷ path) level key small (left, right, value, made, stored, hl, hr)
      shallow c =
    let h = t.hash_function in
    let sl = Holds-sized h db l left hl in
    let node =
      read_fork h db left right key value made stored sl (Holds-sized h db r right hr) small in
    let (f, run, way) = down-Way t db k r path (suc level) right small hr shallow.1 c.2 in
    (
      pass key left f,
      ground (arith, node, run),
      record {
        climbs = ground (arith, way.climbs, made);
        packable =
            beside h left f.siblings sl way.packable
              (λ e. not_empty h db r l left hl (swapped l r c.0) (way.alone e));
        short = omega (arith, way.short);
        stands = way.stands;
        alone = λ e. absurd (ground (arith, e));
      },
    )
down-Way t db k (fork l r) (false ∷ path) level key small (left, right, value, made, stored, hl, hr)
      shallow c =
    let h = t.hash_function in
    let sr = Holds-sized h db r right hr in
    let node =
      read_fork h db left right key value made stored (Holds-sized h db l left hl) sr small in
    let (f, run, way) = down-Way t db k l path (suc level) left small hl shallow.0 c.1 in
    (
      pass key right f,
      ground (arith, node, run),
      record {
        climbs = ground (arith, way.climbs, made);
        packable =
            beside h right f.siblings sr way.packable
              (λ e. not_empty h db l r right hr c.0 (way.alone e));
        short = omega (arith, way.short);
        stands = way.stands;
        alone = λ e. absurd (ground (arith, e));
      },
    )
