-- ===== src/Sik/Registry.antt =====
-- The life of the key of an address: set, invalidated, and set again.
use vocdoni_node.Base.{
  ℕ, ◌+◌, ◌<◌, ◌≡◌, inl, inr, true, false, some, arith, Option-cases, if◌then◌else◌,
}
use vocdoni_node.Base.Bytes.{Bytes, bytes_equal, bytes_equal_refl}
use vocdoni_node.Base.Words.{u32_mod, add32}
use vocdoni_node.Base.Dict.{lookup, insert, lookup-insert, lookup-erase}
use vocdoni_node.Chain.{State, Address, ok, err, registered_valid_sik, sik_already_invalid}
use vocdoni_node.Sik.{
  valid, invalidate_at, decode_invalidated_height, set_address_sik, invalidate_sik,
  increase_register_sik_counter, count_register_sik, purge_register_sik, count_or_zero,
}
use vocdoni_node.Sik.Height.{invalidate_at-roundtrip}

-- The address has a key that is valid.
abbrev pub Registered : Address → Bytes → State → Type 0
Registered a sik s = (lookup a s.siks ≡ some sik) × (valid sik ≡ true)

-- `SetAddressSIK` fails exactly where the address has a valid key; otherwise it writes the key of
-- that address and of no other.
pub set_address_sik_decides :
    (a : Address) (sik : Bytes) (s : State)
    → ((old : Bytes) → Registered a old s → set_address_sik a sik s ≡ (err registered_valid_sik, s))
      × (((old : Bytes) → ¬ Registered a old s)
          → ((set_address_sik a sik s).0 ≡ ok tt)
            × ((b : Address)
                → lookup b (set_address_sik a sik s).1.siks
                  ≡ (if bytes_equal a b then some sik else lookup b s.siks)))
unfolding set_address_sik
set_address_sik_decides a sik s =
    (λ old r. ground (arith, r.0, r.1), λ free. written (λ old. free old))
  where
    written :
        ((old : Bytes) → ¬ Registered a old s)
        → ((set_address_sik a sik s).0 ≡ ok tt)
          × ((b : Address)
              → lookup b (set_address_sik a sik s).1.siks
                ≡ (if bytes_equal a b then some sik else lookup b s.siks))
    written free = elim (Option-cases (lookup a s.siks)) [
      | inl e ↦ (ground (arith, e), λ b. ground (arith, e, lookup-insert a b sik s.siks))
      | inr (old, e) ↦
          let stale : valid old ≡ false = ground (arith, e, free old) in
          (ground (arith, e, stale), λ b. ground (arith, e, stale, lookup-insert a b sik s.siks))
    ]

-- At a height in 32 bits, invalidating the valid key of an address succeeds and leaves 32 bytes that
-- carry the height; a second invalidation is refused, and any new key can be set.
invalidate_then_set :
    (a : Address) (old sik : Bytes) (s : State)
    → Registered a old s
    → s.current_height < u32_mod
    → (s' : State) × (invalidate_sik a s ≡ (ok tt, s'))
      × (lookup a s'.siks ≡ some (invalidate_at s.current_height))
      × (decode_invalidated_height (invalidate_at s.current_height) ≡ ok s.current_height)
      × (invalidate_sik a s' ≡ (err sik_already_invalid, s'))
      × ((set_address_sik a sik s').0 ≡ ok tt)
      × (lookup a (set_address_sik a sik s').1.siks ≡ some sik)
unfolding invalidate_sik set_address_sik
invalidate_then_set a old sik s r h =
    let back = invalidate_at-roundtrip s.current_height h in
    let stamp = invalidate_at s.current_height in
    let e = lookup-insert a a stamp s.siks in
    let s' : State = record s { siks = insert a stamp s.siks } in
    let refl_a = bytes_equal_refl a in
    let stored : lookup a s'.siks ≡ some stamp = ground (arith, e, refl_a) in
    let fresh = lookup-insert a a sik s'.siks in
    (
      s',
      ground (arith, r.0, r.1),
      stored,
      back.2,
      ground (arith, stored, back.1),
      ground (arith, stored, back.1),
      ground (arith, stored, back.1, fresh, refl_a),
    )

-- The counter of free registrations of an election counts the calls: one call adds one to it, in 32
-- bits, and to no other, and a purge sets it to zero.
register_sik_counts :
    (pid other : Bytes) (n : ℕ) (s : State)
    → (count_register_sik pid s).0 ≡ ok n
    → n + 1 < u32_mod
    → bytes_equal pid other ≡ false
    → ((count_register_sik pid (increase_register_sik_counter pid s).1).0 ≡ ok (n + 1))
      × ((count_register_sik other (increase_register_sik_counter pid s).1).0
          ≡ (count_register_sik other s).0)
      × ((count_register_sik pid (purge_register_sik pid s).1).0 ≡ ok 0)
unfolding count_register_sik increase_register_sik_counter purge_register_sik count_or_zero
register_sik_counts pid other n s c small d =
    let one = add32 (count_or_zero (lookup pid s.register_sik_counters)) 1 in
    let after = lookup-insert pid pid one s.register_sik_counters in
    let apart = lookup-insert pid other one s.register_sik_counters in
    let purged = lookup-erase pid pid s.register_sik_counters in
    let same = bytes_equal_refl pid in
    (ground (arith, c, small, after, same), ground (arith, d, apart), ground (arith, purged, same))
