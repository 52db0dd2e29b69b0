-- ===== src/Transaction/Faucet/Once.antt =====
-- A faucet package is good for one transfer.
use vocdoni_node.Base.{ℕ, ◌≡◌, ◌≢◌, inl, inr, Bool, true, some, arith}
use mathlib.Core.Path.{subst}
use vocdoni_node.Base.Bytes.{Bytes, bytes_equal_refl}
use vocdoni_node.Base.Dict.{lookup, lookup-insert}
use vocdoni_node.Chain.{Address, State, ok, Result-cases}
use vocdoni_node.Crypto.{Crypto}
use vocdoni_node.Balance.{faucet_key, consume_faucet_payload}
use vocdoni_node.Balance.Transfers.{faucet_nonces-transfer_balance}
use vocdoni_node.Transaction.Types.{FaucetPackage}
use vocdoni_node.Transaction.Faucet.{
  Verified, verify_faucet_package, settle_faucet_package, check_faucet_package_and_transfer,
}

-- The key of the package is in the tree of used keys.
abbrev pub IsUsed : Crypto → Verified → State → Type 0
IsUsed c v s = lookup (faucet_key c v.issuer v.payload.identifier) s.faucet_nonces ≡ some tt

-- The checks pass for one payload and one issuer, those that the package names, and find its key
-- unused. They change nothing.
pub verify_faucet_package-state :
    (c : Crypto) (pkg : FaucetPackage) (cost : ℕ) (a : Address) (s : State)
    → (verify_faucet_package c pkg cost a s).1 ≡ s
unfolding verify_faucet_package
verify_faucet_package-state c pkg cost a s = ground arith

verify_faucet_package-unused :
    (c : Crypto) (pkg : FaucetPackage) (cost : ℕ) (a : Address) (s : State) (v : Verified)
    → (verify_faucet_package c pkg cost a s).0 ≡ ok v
    → ¬ IsUsed c v s
unfolding verify_faucet_package
verify_faucet_package-unused c pkg cost a s v h used = ground arith

verify_faucet_package-same :
    (c : Crypto) (pkg : FaucetPackage) (cost cost' : ℕ) (a a' : Address) (s s' : State)
    (v v' : Verified)
    → (verify_faucet_package c pkg cost a s).0 ≡ ok v
    → (verify_faucet_package c pkg cost' a' s').0 ≡ ok v'
    → v ≡ v'
unfolding verify_faucet_package
verify_faucet_package-same c pkg cost cost' a a' s s' v v' h h' = ground arith

pub settle_faucet_package-IsUsed :
    (c : Crypto) (v : Verified) (a : Address) (s : State)
    → IsUsed c v (settle_faucet_package c v a s).1
unfolding settle_faucet_package consume_faucet_payload
settle_faucet_package-IsUsed c v a s =
    rw faucet_nonces-transfer_balance (simp (lookup-insert, bytes_equal_refl))

check-IsUsed :
    (c : Crypto) (pkg : FaucetPackage) (cost : ℕ) (a : Address) (s : State) (v : Verified)
    → (verify_faucet_package c pkg cost a s).0 ≡ ok v
    → IsUsed c v (check_faucet_package_and_transfer c (some pkg) cost a true s).1
unfolding check_faucet_package_and_transfer
check-IsUsed c pkg cost a s v hv =
    ground (arith, settle_faucet_package-IsUsed c v a s, verify_faucet_package-state c pkg cost a s)

-- Once a package was accepted and committed, no later check of the same package is accepted, at
-- whatever cost and for whatever sender, in any state in which the keys that are used by then are
-- used still.
pub faucet_package_once :
    (c : Crypto) (pkg : FaucetPackage) (cost cost' : ℕ) (a a' : Address) (commit b : Bool)
    (s s' : State)
    → (check_faucet_package_and_transfer c (some pkg) cost a true s).0 ≡ ok true
    → ((k : Bytes)
        → lookup k (check_faucet_package_and_transfer c (some pkg) cost a true s).1.faucet_nonces
          ≡ some tt
        → lookup k s'.faucet_nonces ≡ some tt)
    → (check_faucet_package_and_transfer c (some pkg) cost' a' commit s').0 ≢ ok b
unfolding check_faucet_package_and_transfer
faucet_package_once c pkg cost cost' a a' commit b s s' h keep again =
    elim (Result-cases (verify_faucet_package c pkg cost a s).0) [
      | inr (e, he) ↦ ground (arith, he, h)
      | inl (v, hv) ↦ elim (Result-cases (verify_faucet_package c pkg cost' a' s').0) [
        | inr (e, he) ↦ ground (arith, he, again)
        | inl (v', hv') ↦ verify_faucet_package-unused c pkg cost' a' s' v' hv' (
            subst (λ w. IsUsed c w s')
              (verify_faucet_package-same c pkg cost cost' a a' s s' v v' hv hv')
              (keep (faucet_key c v.issuer v.payload.identifier)
                (check-IsUsed c pkg cost a s v hv)))
      ]
    ]
