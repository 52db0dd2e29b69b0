-- ===== src/Sik.antt =====
-- vochain/state/sik.go: the secret identity keys of the voters, their invalidation, the counters of
-- the free registrations, and the keys that belong to one election.
pub mod Height
pub mod Registry
pub mod Roots
use vocdoni_node.Base.{
  ℕ, zero, suc, ◌+◌, ◌-◌, ◌*◌, ◌^◌, Bool, true, false, not, ◌||◌, Option, none, some, List, [], ◌∷◌,
  ◌++◌, ltb, ◌==◌, if◌then◌else◌,
}
use vocdoni_node.Base.Lists.{length, get_or, take, replicate}
use vocdoni_node.Base.Bytes.{Bytes, bytes_equal, before}
use vocdoni_node.Base.Words.{add32, big_bytes, of_bytes}
use vocdoni_node.Base.Dict.{Dict, lookup, insert, erase}
use vocdoni_node.Chain.{
  Address, Exec, Result, ok, err, ⊤, pure, raise, gets, lift, or_raise, raise_if, modify, ◌>>=◌,
  ◌>>◌, sik_get, registered_valid_sik, sik_already_invalid, panicked,
}

abbrev pub encoded_height_len : ℕ
encoded_height_len = 4

abbrev pub sik_leaf_value_len : ℕ
sik_leaf_value_len = 32

-- The loop that fills up with zeros in front; `fuel` bounds its rounds.
unfoldable pub fill : ℕ → Bytes → Bytes
fill zero b = b
fill (suc fuel) b =
    let rest = fill fuel (0 ∷ b) in if ltb (length b) encoded_height_len then rest else b

-- `InvalidateAt`: 28 zeros, then the four bytes from the last one to the first.
unfoldable pub invalidate_at : ℕ → Bytes
unfolding fill
invalidate_at height =
    let b = fill 4 (big_bytes height) in
    replicate (sik_leaf_value_len - encoded_height_len) 0
    ++ get_or b 3 0 ∷ get_or b 2 0 ∷ get_or b 1 0 ∷ get_or b 0 0 ∷ []

-- `DecodeInvalidatedHeight`: the last four of 32 bytes, read from the last one.
unfoldable pub decode_invalidated_height : Bytes → Result ℕ
decode_invalidated_height s =
    if ltb (length s) sik_leaf_value_len
    then err panicked
    else ok (of_bytes (get_or s 31 0 ∷ get_or s 30 0 ∷ get_or s 29 0 ∷ get_or s 28 0 ∷ []))

unfoldable pub some_nonzero : Bytes → Bool
some_nonzero [] = false
some_nonzero (b ∷ bs) = not (b == 0) || some_nonzero bs

-- `Valid`: a byte before the last four is not zero.
unfoldable pub valid : Bytes → Bool
unfolding some_nonzero
valid s = some_nonzero (take (length s - encoded_height_len) s)

unless_valid : Address → Bytes → Option Bytes → Exec ⊤
unless_valid address sik none = modify (λ s. record s { siks = insert address sik s.siks })
unless_valid address sik (some old) = do
  raise_if (valid old) registered_valid_sik
  modify (λ s. record s { siks = insert address sik s.siks })

-- `SetAddressSIK`
unfoldable pub set_address_sik : Address → Bytes → Exec ⊤
unfolding unless_valid
set_address_sik address sik = do
  old ← gets (λ s. lookup address s.siks)
  unless_valid address sik old

-- `InvalidateSIK`
unfoldable pub invalidate_sik : Address → Exec ⊤
invalidate_sik address = do
  found ← gets (λ s. lookup address s.siks)
  old ← or_raise found sik_get
  raise_if (not (valid old)) sik_already_invalid
  height ← gets (λ s. s.current_height)
  modify (λ s. record s { siks = insert address (invalidate_at height) s.siks })

unfoldable pub count_or_zero : Option ℕ → ℕ
count_or_zero none = 0
count_or_zero (some n) = n

-- `CountRegisterSIK`
unfoldable pub count_register_sik : Bytes → Exec ℕ
count_register_sik pid = gets (λ s. count_or_zero (lookup pid s.register_sik_counters))

-- `IncreaseRegisterSIKCounter`: a missing counter starts at one, and the sum wraps in 32 bits.
unfoldable pub increase_register_sik_counter : Bytes → Exec ⊤
increase_register_sik_counter pid = modify (λ s. record s {
  register_sik_counters =
      insert pid (add32 (count_or_zero (lookup pid s.register_sik_counters)) 1)
        s.register_sik_counters;
})

-- `PurgeRegisterSIK`
unfoldable pub purge_register_sik : Bytes → Exec ⊤
purge_register_sik pid =
    modify (λ s. record s { register_sik_counters = erase pid s.register_sik_counters })

unfoldable pub insert_address : Address → List Address → List Address
insert_address a [] = a ∷ []
insert_address a (b ∷ bs) =
    let rest = insert_address a bs in
    if bytes_equal a b then b ∷ bs else if before a b then a ∷ (b ∷ bs) else b ∷ rest

unfoldable pub assigned : Option (List Address) → List Address
assigned none = []
assigned (some addresses) = addresses

-- `AssignSIKToElection`: the entries with the prefix of an election, by their addresses in order.
unfoldable pub assign_sik_to_election : Bytes → Address → Exec ⊤
unfolding insert_address assigned
assign_sik_to_election pid address = modify (λ s. record s {
  assigned_siks =
      insert pid (insert_address address (assigned (lookup pid s.assigned_siks))) s.assigned_siks;
})

unfoldable pub remove_address : Address → List Address → List Address
remove_address a [] = []
remove_address a (b ∷ bs) =
    let rest = remove_address a bs in if bytes_equal a b then rest else b ∷ rest

-- A key that the tree lacks is an error of its `Del`.
unfoldable pub purge_one : Bytes → Address → Exec ⊤
unfolding remove_address assigned
purge_one pid address = do
  found ← gets (λ s. lookup address s.siks)
  or_raise found sik_get
  modify (λ s. record s {
    siks = erase address s.siks;
    assigned_siks =
        insert pid (remove_address address (assigned (lookup pid s.assigned_siks))) s.assigned_siks;
  })

unfoldable pub purge_each : Bytes → List Address → Exec ⊤
unfolding purge_one
purge_each pid [] = pure tt
purge_each pid (a ∷ addresses) = do purge_one pid a; purge_each pid addresses

-- `PurgeSIKsByElection`
unfoldable pub purge_siks_by_election : Bytes → Exec ⊤
unfolding purge_each assigned
purge_siks_by_election pid = do
  addresses ← gets (λ s. assigned (lookup pid s.assigned_siks))
  purge_each pid addresses
