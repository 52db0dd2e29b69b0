-- ===== src/ProcessId/Layout.antt =====
-- The layout of a process identifier: reading back what `Marshal` writes.
use vocdoni_node.Base.{
  ℕ, ◌-◌, ◌%◌, ◌^◌, ◌≤◌, ◌<◌, ◌≡◌, ◌∙◌, refl, ap, Bool, true, false, Option, some, ◌∷◌, ◌++◌, arith,
}
use vocdoni_node.Base.Lists.{length, take, drop, get_or, length-append}
use vocdoni_node.Base.Slices.{
  length-take, take_all, take-append, drop-append, get_or-append, take_prefix, drop_sum,
}
use vocdoni_node.Base.Bytes.{Bytes}
use vocdoni_node.Base.Words.{u32_mod}
use vocdoni_node.Chain.{Account, Address, EnvelopeType, ok}
use vocdoni_node.Crypto.{Crypto}
use vocdoni_node.ProcessId.{
  ProcessId, put_u32, get_u32, marshal, unmarshal, hex, set_envelope_type, set_census_origin,
  envelope_bits, envelope_type_of, type_of_bits, build_process_id,
}

-- What go-ethereum documents of the functions that the identifier is built with: a hash has 32 bytes,
-- and 20 bytes are an address as they stand.
pub record Documented (crypto : Crypto) : Type 0 where
  pub hash_length : (b : Bytes) → length (crypto.hash_raw b) ≡ 32
  pub address_of_address : (b : Bytes) → length b ≡ 20 → crypto.bytes_to_address b ≡ b

-- Fields that fit in their bytes, with an origin and a type that a process can have.
pub record Fits (p : ProcessId) : Type 0 where
  pub addr_length : length p.organization_addr ≡ 20
  pub origin_positive : 0 < p.census_origin
  pub origin_fits : p.census_origin < 256
  pub type_fits : p.env_type < 32
  pub nonce_fits : p.nonce < u32_mod

get-put_u32 : (n : ℕ) → n < u32_mod → get_u32 (put_u32 n) ≡ n
unfolding get_u32 put_u32
get-put_u32 n h = omega (arith, h)

length-put_u32 : (n : ℕ) → length (put_u32 n) ≡ 4
unfolding put_u32
length-put_u32 n = refl

-- The fields of an identifier, read at their places.
module _ (chain addr : Bytes) (origin kind : ℕ) (nonce : Bytes) (chain6 : length chain ≡ 6)
    (addr20 : length addr ≡ 20) (nonce4 : length nonce ≡ 4) where
  abbrev id_bytes : Bytes
  id_bytes = chain ++ (addr ++ (origin ∷ kind ∷ nonce))

  id-length : length id_bytes ≡ 32
  id-length = omega (
    arith,
    length-append chain (addr ++ (origin ∷ kind ∷ nonce)),
    length-append addr (origin ∷ kind ∷ nonce),
    chain6,
    addr20,
    nonce4,
  )

  id-origin : get_or id_bytes 26 0 ≡ origin
  id-origin =
      get_or-append 6 20 chain (addr ++ (origin ∷ kind ∷ nonce)) 0 chain6
      ∙ get_or-append 20 0 addr (origin ∷ kind ∷ nonce) 0 addr20

  id-kind : get_or id_bytes 27 0 ≡ kind
  id-kind =
      get_or-append 6 21 chain (addr ++ (origin ∷ kind ∷ nonce)) 0 chain6
      ∙ get_or-append 20 1 addr (origin ∷ kind ∷ nonce) 0 addr20

  id-addr : take 20 (drop 6 id_bytes) ≡ addr
  id-addr =
      ap (λ t. take 20 t) (drop-append 6 chain (addr ++ (origin ∷ kind ∷ nonce)) chain6)
      ∙ take-append 20 addr (origin ∷ kind ∷ nonce) addr20

  id-tail : drop 26 id_bytes ≡ origin ∷ kind ∷ nonce
  id-tail =
      drop_sum 6 20 id_bytes
      ∙ ap (λ t. drop 20 t) (drop-append 6 chain (addr ++ (origin ∷ kind ∷ nonce)) chain6)
      ∙ drop-append 20 addr (origin ∷ kind ∷ nonce) addr20

  id-nonce : take 4 (drop 28 id_bytes) ≡ nonce
  id-nonce =
      ap (λ t. take 4 t) (drop_sum 26 2 id_bytes ∙ ap (λ t. drop 2 t) id-tail)
      ∙ take_all 4 nonce nonce4

unmarshal_reads :
    (crypto : Crypto) (b : Bytes)
    → length b ≡ 32
    → 0 < get_or b 26 0
    → get_or b 27 0 < 32
    → unmarshal crypto b
      ≡ ok (record {
        chain_id = hex (take 4 b);
        organization_addr = crypto.bytes_to_address (take 20 (drop 6 b));
        census_origin = get_or b 26 0;
        env_type = get_or b 27 0;
        nonce = get_u32 (take 4 (drop 28 b));
      })
unfolding unmarshal
unmarshal_reads crypto b l o e = ground (arith, l, o, e)

-- `Unmarshal` gives back every field that `Marshal` wrote but the chain identifier, in the place of
-- which stands the hexadecimal text of the first 4 bytes of its hash, and the bytes are 32.
pub unmarshal-marshal :
    (crypto : Crypto) (p : ProcessId)
    → Documented crypto
    → Fits p
    → (length (marshal crypto p) ≡ 32)
      × (unmarshal crypto (marshal crypto p)
          ≡ ok (record p { chain_id = hex (take 4 (crypto.hash_raw p.chain_id)) }))
unfolding marshal
unmarshal-marshal crypto p doc fits =
    let h = crypto.hash_raw p.chain_id in
    let addr = p.organization_addr in
    let hl = doc.hash_length p.chain_id in
    let n4 = length-put_u32 p.nonce in
    let h6 = length-take 6 h (omega (arith, hl)) in
    let a20 = take_all 20 addr fits.addr_length in
    let rest = addr ++ (p.census_origin ∷ p.env_type ∷ put_u32 p.nonce) in
    let chain = take_prefix 4 6 h rest (omega arith) (omega (arith, hl)) in
    let reads =
      id-length (take 6 h) addr p.census_origin p.env_type (put_u32 p.nonce) h6 fits.addr_length
        n4 in
    let origin =
      id-origin (take 6 h) addr p.census_origin p.env_type (put_u32 p.nonce) h6 fits.addr_length
        n4 in
    let kind =
      id-kind (take 6 h) addr p.census_origin p.env_type (put_u32 p.nonce) h6 fits.addr_length n4 in
    let address =
      id-addr (take 6 h) addr p.census_origin p.env_type (put_u32 p.nonce) h6 fits.addr_length n4 in
    let nonce =
      id-nonce (take 6 h) addr p.census_origin p.env_type (put_u32 p.nonce) h6 fits.addr_length
        n4 in
    let back = get-put_u32 p.nonce fits.nonce_fits in
    let o : p.census_origin % 256 ≡ p.census_origin = omega (arith, fits.origin_fits) in
    let e : p.env_type % 256 ≡ p.env_type = omega (arith, fits.type_fits) in
    let written : marshal crypto p ≡ take 6 h ++ rest = rw a20 (rw o (rw e refl)) in
    let read =
      unmarshal_reads crypto (take 6 h ++ rest) reads (omega (arith, origin, fits.origin_positive))
        (omega (arith, kind, fits.type_fits)) in
    let known = doc.address_of_address addr fits.addr_length in
    (
      rw written reads,
      rw written (
          rw read
            (rw chain (rw address (rw known (rw origin (rw kind (rw nonce (rw back refl)))))))),
    )

abbrev from_flags : Bool → Bool → Bool → Bool → Bool → EnvelopeType
from_flags a b c d e = record {
  serial = a;
  anonymous = b;
  encrypted_votes = c;
  unique_values = d;
  cost_from_weight = e;
}

bits_read :
    (a b c d e : Bool) → type_of_bits (envelope_bits (from_flags a b c d e)) ≡ from_flags a b c d e
unfolding envelope_bits type_of_bits
bits_read true true true true true = refl
bits_read true true true true false = refl
bits_read true true true false true = refl
bits_read true true true false false = refl
bits_read true true false true true = refl
bits_read true true false true false = refl
bits_read true true false false true = refl
bits_read true true false false false = refl
bits_read true false true true true = refl
bits_read true false true true false = refl
bits_read true false true false true = refl
bits_read true false true false false = refl
bits_read true false false true true = refl
bits_read true false false true false = refl
bits_read true false false false true = refl
bits_read true false false false false = refl
bits_read false true true true true = refl
bits_read false true true true false = refl
bits_read false true true false true = refl
bits_read false true true false false = refl
bits_read false true false true true = refl
bits_read false true false true false = refl
bits_read false true false false true = refl
bits_read false true false false false = refl
bits_read false false true true true = refl
bits_read false false true true false = refl
bits_read false false true false true = refl
bits_read false false true false false = refl
bits_read false false false true true = refl
bits_read false false false true false = refl
bits_read false false false false true = refl
bits_read false false false false false = refl

bits_bound : (x : EnvelopeType) → envelope_bits x ≤ 31
unfolding envelope_bits
bits_bound x = ground arith

-- `SetEnvelopeType` succeeds on a given type, with bits that are at most 31, and `EnvelopeType`
-- reads the same type back.
envelope_type_roundtrip :
    (p : ProcessId) (et : EnvelopeType)
    → (p' : ProcessId) × (set_envelope_type p (some et) ≡ ok p')
      × (p'.env_type ≤ 31)
      × (envelope_type_of p' ≡ et)
unfolding set_envelope_type envelope_type_of
envelope_type_roundtrip p et = (
  record p { env_type = envelope_bits et },
  refl,
  bits_bound et,
  bits_read et.serial et.anonymous et.encrypted_votes et.unique_values et.cost_from_weight,
)

-- The identifier that `BuildProcessID` gives, by its nonce.
abbrev pub built : Crypto → EnvelopeType → ℕ → Bytes → Bytes → ℕ → ProcessId
built crypto et origin entity_id chain_id nonce = record {
  chain_id = chain_id;
  organization_addr = crypto.bytes_to_address entity_id;
  census_origin = origin;
  env_type = envelope_bits et;
  nonce = nonce;
}

-- For a given envelope type, an origin from 1 to 255, and an entity with an account whose process
-- index is positive and below 2^31: `BuildProcessID` with delta 0 takes that index as the nonce, and
-- with delta -1 the index before it.
build_process_id-delta :
    (crypto : Crypto) (et : EnvelopeType) (origin : ℕ) (entity_id chain_id : Bytes)
    (get_account : Address → Option Account) (acc : Account)
    → 0 < origin
    → origin < 256
    → get_account (crypto.bytes_to_address entity_id) ≡ some acc
    → 0 < acc.process_index
    → acc.process_index < 2 ^ 31
    → (build_process_id crypto (some et) origin entity_id chain_id get_account 0
        ≡ ok (built crypto et origin entity_id chain_id acc.process_index))
      × (build_process_id crypto (some et) origin entity_id chain_id get_account (2 ^ 32 - 1)
          ≡ ok (built crypto et origin entity_id chain_id (acc.process_index - 1)))
unfolding build_process_id set_envelope_type set_census_origin
build_process_id-delta crypto et origin entity_id chain_id get_account acc h k a positive i =
    (ground (arith, h, k, a, i), ground (arith, h, k, a, i, positive))
