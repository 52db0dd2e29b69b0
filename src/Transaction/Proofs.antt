-- ===== src/Transaction/Proofs.antt =====
-- vochain/transaction/proof.go, and the initialization of votes in
-- vochain/transaction/proofs/arboproof/arboproof.go and vochain/transaction/proofs/zkproof/zkproof.go.
use vocdoni_node.Base.{ℕ, Bool, Option, none, some, [], ◌∷◌, ◌++◌, ◌==◌, not, if◌then◌else◌}
use vocdoni_node.Base.Lists.{length}
use vocdoni_node.Base.Bytes.{Bytes, bytes_equal}
use vocdoni_node.Chain.{
  CensusOrigin, off_chain_tree, off_chain_tree_weighted, off_chain_ca, off_chain_ca_v2,
  other_origin, Address, Process, Vote, Error, Result, ok, err, no_proof, no_census_root,
  process_mismatch, unsupported_origin, invalid_proof, bad_signature, nil_tx,
}
use vocdoni_node.Chain.Fallible.{◌>>=◌, ◌>>◌}
use vocdoni_node.Crypto.{Crypto}
use vocdoni_node.Transaction.Types.{VoteEnvelope, Tx}
use vocdoni_node.Transaction.Network.{Network, Verifier}

need {ℓ} : {A : Type ℓ} → Option A → Error → Result A
need none e = err e
need (some a) e = ok a

require : Bool → Error → Result (Unit {0})
require b e = if b then ok tt else err e

-- The switch of `VerifyProof`.
verifier_for : CensusOrigin → Bool → Result Verifier
verifier_for off_chain_tree anonymous = ok (if anonymous then Verifier.zk else Verifier.arbo)
verifier_for off_chain_tree_weighted anonymous =
    ok (if anonymous then Verifier.zk else Verifier.arbo)
verifier_for off_chain_ca anonymous = ok Verifier.csp
verifier_for off_chain_ca_v2 anonymous = ok Verifier.csp_v2
verifier_for (other_origin n) anonymous = err unsupported_origin

or_invalid : Result (Bool × Option ℕ) → Result (Bool × Option ℕ)
or_invalid (ok r) = ok r
or_invalid (err e) = err invalid_proof

-- `VerifyProof`; an empty census root that is read from the state is nil.
unfoldable pub verify_proof : Network → Process → VoteEnvelope → Bytes → Result (Bool × Option ℕ)
unfolding need require verifier_for or_invalid
verify_proof net p envelope voter_id = do
  need envelope.proof no_proof
  require (not (length p.census_root == 0)) no_census_root
  require (bytes_equal p.process_id envelope.process_id) process_mismatch
  v ← verifier_for p.census_origin p.envelope_type.anonymous
  or_invalid (net.verify v p envelope voter_id)

-- `GenerateNullifier`
unfoldable pub generate_nullifier : Crypto → Address → Bytes → Bytes
generate_nullifier c address pid = c.hash_raw (address ++ pid)

abbrev pub voter_id_type_ecdsa : ℕ
voter_id_type_ecdsa = 1

blank_vote : VoteEnvelope → Bytes → Bytes → ℕ → Vote
blank_vote envelope nullifier voter_id height = record {
  process_id = envelope.process_id;
  nullifier = nullifier;
  height = height;
  vote_package = envelope.vote_package;
  encryption_key_indexes = envelope.encryption_key_indexes;
  weight = none;
  voter_id = voter_id;
  overwrites = 0;
  memo = none;
}

-- `InitializeSignedVote`
unfoldable pub initialize_signed_vote : Crypto → VoteEnvelope → Tx → ℕ → Result Vote
unfolding need blank_vote generate_nullifier
initialize_signed_vote c envelope vtx height = do
  proof ← need envelope.proof no_proof
  need proof.payload no_proof
  signature ← need vtx.signature nil_tx
  body ← need vtx.signed_body nil_tx
  key ← need (c.pub_key_from_signature body signature) bad_signature
  address ← need (c.addr_from_public_key key) bad_signature
  ok (
      blank_vote envelope (generate_nullifier c address envelope.process_id)
        (voter_id_type_ecdsa ∷ key) height)

-- `InitializeZkVote`: the vote and the root of its proof.
unfoldable pub initialize_zk_vote : Network → VoteEnvelope → ℕ → Result (Vote × Bytes)
unfolding blank_vote
initialize_zk_vote net envelope height = do
  inputs ← net.zk_inputs envelope.proof
  ok (blank_vote envelope inputs.0 [] height, inputs.1)
