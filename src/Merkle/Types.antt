-- ===== src/Merkle/Types.antt =====
-- What the functions of tree/arbo share: the hash function, which is a parameter, the database of
-- nodes, the errors, and the computations that may fail.
use vocdoni_node.Base.{ℕ, ◌≡◌, refl, ◌⊎◌, inl, inr, Bool, Option, none, some, List, if◌then◌else◌}
use vocdoni_node.Base.Bytes.{Bytes}
use vocdoni_node.Base.Dict.{Dict}

-- The errors of the package by name, and `panicked` for a run-time panic.
pub data TreeError : Type 0 where
  key_not_found key_already_exists invalid_value_prefix max_virtual_level : TreeError
  snapshot_not_editable nil_root missing_node invalid_length key_too_long value_too_long : TreeError
  child_too_long path_too_long siblings_too_long bad_siblings hash_failed : TreeError
  out_of_fuel panicked : TreeError

pub data Result {ℓ} (A : Type ℓ) : Type ℓ where
  ok : A → Result A
  err : TreeError → Result A

-- The interface `HashFunction`: `hash` takes the list of its arguments.
pub record HashFunction : Type 0 where
  pub len : ℕ
  pub hash : List Bytes → Result Bytes

-- The key-value pairs of a transaction.
abbrev pub Database : Type 0
Database = Dict Bytes

infixl 5 ◌>>=◌ ◌>>◌
abbrev pub ◌>>=◌ : {A B : Type 0} → Result A → (A → Result B) → Result B
ok a >>= f = f a
err e >>= f = err e

abbrev pub ◌>>◌ : {A B : Type 0} → Result A → Result B → Result B
m >> k = m >>= λ _. k

abbrev pub need : {A : Type 0} → Option A → TreeError → Result A
need none e = err e
need (some a) e = ok a

abbrev pub refuse_if : Bool → TreeError → Result (Unit {0})
refuse_if b e = if b then err e else ok tt

pub Result-cases {ℓ} :
    {A : Type ℓ} (r : Result A) → ((a : A) × (r ≡ ok a)) ⊎ ((e : TreeError) × (r ≡ err e))
Result-cases (ok a) = inl (a, refl)
Result-cases (err e) = inr (e, refl)
