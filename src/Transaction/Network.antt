-- ===== src/Transaction/Network.antt =====
-- What the checks of transactions call outside the state: the election price calculator, the zk
-- circuit, the verifiers of census proofs, the last committed accounts, and the fork heights of
-- config/forks.go.
use vocdoni_node.Base.{ℕ, Bool, Option, leb, if◌then◌else◌}
use vocdoni_node.Base.Bytes.{Bytes, codes, bytes_equal}
use vocdoni_node.Base.Dict.{Dict}
use vocdoni_node.Chain.{Account, CensusOrigin, Process, Result, State}
use vocdoni_node.Transaction.Types.{Proof, VoteEnvelope}

-- The verifiers of `VerifyProof`.
pub data Verifier : Type 0 where
  zk arbo csp csp_v2 : Verifier

pub record Network : Type 0 where
  -- `ElectionPriceCalc.Price`, a formula in floating point, on the parameters of a process
  pub price : Process → ℕ
  -- `circuit.Global().Config.SupportsCensusSize`
  pub supports_census_size : ℕ → Bool
  -- the number of a census origin in the protobuf package
  pub origin_number : CensusOrigin → ℕ
  -- `ProofVerifier.Verify`: whether the proof is valid, and the weight
  pub verify : Verifier → Process → VoteEnvelope → Bytes → Result (Bool × Option ℕ)
  -- the nullifier and the root that the public inputs of a zk proof carry
  pub zk_inputs : Option Proof → Result (Bytes × Bytes)
  -- the accounts of the last committed version
  pub committed_accounts : Dict Account
  -- `nacl.DecodePrivate` and the public key of the private one
  pub public_of_private : Bytes → Option Bytes

-- `ForksForChainID`: the height of the metadata fork of a chain.
unfoldable pub metadata_fork : Bytes → ℕ
metadata_fork chain_id =
    if bytes_equal chain_id (codes "vocdoni/DEV/36")
    then 40793
    else if bytes_equal chain_id (codes "vocdoni/LTS/1.3")
    then 8705150
    else 0

-- `metadataForkActive`
unfoldable pub metadata_fork_active : State → Bool
unfolding metadata_fork
metadata_fork_active s = leb (metadata_fork s.chain_id) s.current_height
