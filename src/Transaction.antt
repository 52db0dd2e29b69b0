-- ===== src/Transaction.antt =====
-- vochain/transaction: the checks of a transaction, and what delivering it does to the state.
pub mod Types
pub mod Network
pub mod Proofs
pub mod VoteTx
pub mod ElectionTx
pub mod AccountTx
pub mod AdminTx
pub mod Faucet
pub mod Nonce
pub mod Tokens
pub mod Overwrites
pub mod Check
