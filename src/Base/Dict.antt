-- ===== src/Base/Dict.antt =====
-- A key-value tree, or a Go map, with byte-string keys: an association list.

use Prim.Native.Nat.{suc, ◌≤◌}
use mathlib.Core.Path.{◌≡◌, refl}
use mathlib.Core.Logic.{inl, inr}
use mathlib.Core.Option.{Option, none, some}
use mathlib.Core.List.{List, [], ◌∷◌}
use native.Mathlib.Omega.{arith}
use vocdoni_node.Base.Lists.{length}
use vocdoni_node.Base.Tests.{Bool-cases, if◌then◌else◌}
use vocdoni_node.Base.Bytes.{Bytes, bytes_equal, bytes_equal_iff}

abbrev pub Dict {ℓ} : Type ℓ → Type ℓ
Dict V = List (Bytes × V)

module _ {ℓ} {V : Type ℓ} where
  unfoldable pub lookup : Bytes → Dict V → Option V
  lookup k [] = none
  lookup k ((j, v) ∷ d) = if bytes_equal j k then some v else lookup k d

  unfoldable pub insert : Bytes → V → Dict V → Dict V
  insert k v [] = (k, v) ∷ []
  insert k v ((j, w) ∷ d) = if bytes_equal j k then (k, v) ∷ d else (j, w) ∷ insert k v d

  -- Every entry of the key goes.
  unfoldable pub erase : Bytes → Dict V → Dict V
  erase k [] = []
  erase k ((j, w) ∷ d) = let rest = erase k d in if bytes_equal j k then rest else (j, w) ∷ rest

  pub lookup-insert :
      (k j : Bytes) (v : V) (d : Dict V)
      → lookup j (insert k v d) ≡ (if bytes_equal k j then some v else lookup j d)
  unfolding lookup insert
  lookup-insert k j v [] = refl
  lookup-insert k j v ((i, w) ∷ d) =
      ground (
        arith,
        bytes_equal_iff k j,
        bytes_equal_iff i k,
        bytes_equal_iff i j,
        lookup-insert k j v d,
      )

  pub lookup-erase :
      (k j : Bytes) (d : Dict V)
      → lookup j (erase k d) ≡ (if bytes_equal k j then none else lookup j d)
  unfolding lookup erase
  lookup-erase k j [] = ground arith
  lookup-erase k j ((i, w) ∷ d) =
      ground
        (arith, bytes_equal_iff k j, bytes_equal_iff i k, bytes_equal_iff i j, lookup-erase k j d)

  pub length-insert : (k : Bytes) (v : V) (d : Dict V) → length (insert k v d) ≤ suc (length d)
  unfolding insert
  length-insert k v [] = omega arith
  length-insert k v ((i, w) ∷ d) = ground (arith, length-insert k v d)

  pub length-insert_found :
      (k : Bytes) (v w : V) (d : Dict V) → lookup k d ≡ some w → length (insert k v d) ≡ length d
  unfolding insert lookup
  length-insert_found k v w [] h = absurd (ground (arith, h))
  length-insert_found k v w ((i, x) ∷ d) h = elim (Bool-cases (bytes_equal i k)) [
    | inl e ↦ ground (arith, e)
    | inr e ↦ ground (arith, e, length-insert_found k v w d (ground (arith, h, e)))
  ]
