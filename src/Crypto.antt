-- ===== src/Crypto.antt =====
-- What the handlers call of go-ethereum and protobuf, as a parameter of the model: recovering the
-- signer of a message, hashing, the conversion of bytes to an address, and the decoding of a faucet
-- payload.
use vocdoni_node.Base.{ℕ, Option}
use vocdoni_node.Base.Bytes.{Bytes}
use vocdoni_node.Chain.{Address}

-- `models.FaucetPayload`; `to` is an optional byte string.
pub record FaucetPayload : Type 0 where
  pub identifier : ℕ
  pub to : Option Bytes
  pub amount : ℕ

pub record Crypto : Type 0 where
  -- `ethereum.AddrFromSignature`, which is `PubKeyFromSignature` and then `AddrFromPublicKey`
  pub addr_from_signature : Bytes → Bytes → Option Address
  -- `ethereum.PubKeyFromSignature`
  pub pub_key_from_signature : Bytes → Bytes → Option Bytes
  -- `ethereum.AddrFromPublicKey`
  pub addr_from_public_key : Bytes → Option Address
  -- `ethereum.HashRaw`
  pub hash_raw : Bytes → Bytes
  -- `sha256.Sum256`
  pub sha256 : Bytes → Bytes
  -- `common.BytesToAddress`
  pub bytes_to_address : Bytes → Address
  -- `proto.Unmarshal` into a `FaucetPayload`
  pub unmarshal_faucet_payload : Bytes → Option FaucetPayload
  -- `binary.LittleEndian.PutUint64`
  pub put_uint64 : ℕ → Bytes
