-- ===== src/Examples/Identifiers.antt =====
-- Identifiers of processes, and the heights in invalidated keys; two tests of delegates and results.
use vocdoni_node.Base.{
  ℕ, ◌+◌, ◌-◌, ◌^◌, ◌<◌, ◌≤◌, ◌≡◌, refl, Bool, true, false, some, none, List, [], ◌∷◌, arith,
}
use vocdoni_node.Base.Lists.{length, take, replicate}
use vocdoni_node.Base.Bytes.{Bytes}
use vocdoni_node.Chain.{ok, err, not_delegate}
use vocdoni_node.Account.{del_delegate}
use vocdoni_node.ProcessId.{ProcessId, marshal, unmarshal, hex}
use vocdoni_node.ProcessId.Layout.{Documented, Fits, unmarshal-marshal}
use vocdoni_node.Examples.Fixtures.{alice, bob, account, crypto}

abbrev first_id : ProcessId
first_id = record {
  chain_id = 118 ∷ [];
  organization_addr = alice;
  census_origin = 6;
  env_type = 9;
  nonce = 258;
}

documented : Documented crypto
documented = record { hash_length = λ b. refl; address_of_address = λ b h. refl }

first_id-Fits : Fits first_id
first_id-Fits = record {
  addr_length = refl;
  origin_positive = omega arith;
  origin_fits = omega arith;
  type_fits = omega arith;
  nonce_fits = omega arith;
}

unmarshal-marshal_example :
    (length (marshal crypto first_id) ≡ 32)
    × (unmarshal crypto (marshal crypto first_id)
        ≡ ok (record first_id { chain_id = hex (take 4 (replicate 32 7)) }))
unmarshal-marshal_example = unmarshal-marshal crypto first_id documented first_id-Fits

-- Deleting the first of two delegates fails after the deletion; deleting the last one succeeds.
del_first_delegate :
    del_delegate (record (account 1) { delegate_addrs = alice ∷ bob ∷ [] }) alice ≡ err not_delegate
unfolding del_delegate vocdoni_node.Base.Bytes.bytes_equal
del_first_delegate = refl

del_last_delegate :
    del_delegate (record (account 1) { delegate_addrs = alice ∷ bob ∷ [] }) bob
    ≡ ok (record (account 1) { delegate_addrs = alice ∷ [] })
unfolding del_delegate vocdoni_node.Base.Bytes.bytes_equal
del_last_delegate = refl
