-- ===== src/Lib.antt =====
-- A model of the Vochain state machine of vocdoni-node: accounts and tokens, elections (processes),
-- votes, secret identity keys, tallies, validators, the transactions that change them, and the
-- actions that the chain runs by itself.
--
-- The parts and their files:
-- - Chain: the state (vochain/state/state.go) as one record of dictionaries, the uncommitted view of
--   the trees and of the no-state key-value space, the errors, and `Exec`, the methods that return or
--   fail. What a method wrote before it failed stays written, as in the code.
-- - Account, Balance: vochain/state/account.go and vochain/state/balances.go. `transfer_balance` is
--   `State.TransferBalance`, `burn_tx_cost_increment_nonce` is `State.BurnTxCostIncrementNonce`.
-- - Process: vochain/state/process.go, vochain/state/processblockregistry.go and
--   vochain/state/censusorigins.go. `set_process_status` is `State.SetProcessStatus`, with its switch
--   in `check_transition`. Process/Keys: the keys of an election, in vochain/state/state.go.
-- - ProcessId: vochain/processid/process_id.go.
-- - Sik: vochain/state/sik.go, with the list of valid roots in Sik/Roots.
-- - Votes: vochain/state/votes.go and vochain/state/voterid.go. Votes/Cache: vochain/state/cache.go.
-- - Results: vochain/results/results.go and vochain/results/compute.go. `add_vote` is
--   `Results.AddVote`, `compute_results` is `ComputeResults`.
-- - Ist: vochain/ist/ist.go, vochain/ist/store.go and vochain/ist/results.go. `commit` is
--   `Controller.Commit`; it ends elections through Process and tallies them through Results.
-- - Validators: vochain/state/validators.go, and in Validators/Scores vochain/ist/validators.go,
--   where `update_validator_score` is `Controller.updateValidatorScore`.
-- - Transaction: vochain/transaction. Each branch of `CheckTx` (transaction.go) is a definition
--   `check_...`: it compares the nonce on commit, calls the check of its file, and on commit delivers.
--   Nonce is nonce.go. Tokens (tokens_tx.go), AccountTx (account_tx.go), ElectionTx (election_tx.go),
--   AdminTx (admin_tx.go) and VoteTx (vote_tx.go) hold the checks; the modules Delivery below them hold
--   the branches. Faucet is `checkFaucetPackageAndTransfer` with `checkAccountCanPayCost`, Overwrites
--   is `checkVoteCanBeCasted`, Proofs is proof.go with the two functions of the directory proofs that
--   start a vote. They call all the parts above.
-- - App: vochain/app.go, and in App/Mempool and App/Comet vochain/cometbft.go: `execute_block` is
--   `BaseApplication.ExecuteBlock`, `process_proposal` and `finalize_block` are the calls of CometBFT.
--   It runs Transaction/Check (`CheckTx`) and Ist on the state, of which it has the saved version too.
-- - Merkle: tree/arbo, the Merkle trees that keep the state, over a dictionary of nodes. Nodes is
--   utils.go with the node functions of navigate.go, Walk the ways down and up of navigate.go, Edit
--   tree.go (`add` is `Tree.add`, `update_with_tx` is `Tree.UpdateWithTx`), Delete its deletion, Proof
--   is proof.go. Trie is the tree of keys that a database stands for. The parts above keep the state in
--   dictionaries and do not use Merkle.
-- - Base: helpers. Examples: concrete values and runs.
--
-- Numbers are naturals. Machine words wrap where the code's do (`add32`, `add64`); an `int` of a vote
-- package and a signed delta are their two's-complement words. The loops with fuel are `bytes_loop`,
-- on the number itself, which is more than its count of base-256 digits; `fill`, with at most the
-- four rounds that an empty text needs; the walk over the leaves of a Merkle tree, with one round
-- more than the tree has levels; and the deletion in a Merkle tree, whose fuel bounds how deep the
-- deletions of neighbours nest and is an argument. All other loops run over lists or over what is
-- left of a path. A Go map is walked in the order of its dictionary, and a nil dereference or an
-- index out of range is the error `panicked`.
--
-- Arguments of the model: `Crypto` (signatures, hashes, addresses and the decoding of a faucet
-- payload), `Envelopes` (decryption and the JSON of vote packages), `Outside` (the random identifiers
-- of actions, the votes of the last committed state, and the update of validator scores), `Network`
-- (the election price, the levels of the circuit, the numbers of the census origins, the verifiers of
-- census proofs, the accounts of the last committed state, and the public key of a private one),
-- `Formulas` (the score and the decay of a power, in floating point), `Lru` (the container of the
-- vote cache), `HashFunction` (the hash of a Merkle tree), and `Node` (the parts above with the
-- decoding of transactions, the keys of CometBFT and the roots of the state).
--
-- Not modelled: batches, in-memory trees, dumps, iteration and circuit proofs of Merkle trees, the
-- database of the state over them, locks, event listeners and logs, errors of the database, Gob and
-- protobuf encodings of what is stored, the formula of the election price, the verification of census
-- proofs, the decoding of transactions, CometBFT, the genesis and the snapshots of the state, and the
-- services around the chain (the indexer, the API, the command line).
pub mod Base
pub mod Chain
pub mod Crypto
pub mod Merkle
pub mod App
pub mod TxType
pub mod Account
pub mod Balance
pub mod Process
pub mod ProcessId
pub mod Sik
pub mod Validators
pub mod Votes
pub mod Results
pub mod Ist
pub mod Transaction
pub mod Examples
