-- ===== src/ProcessId.antt =====
-- vochain/processid/process_id.go: the 32-byte identifier of a process and its layout.
pub mod Layout
use vocdoni_node.Base.{
  ℕ, ◌+◌, ◌-◌, ◌*◌, ◌/◌, ◌%◌, ◌^◌, Bool, true, false, not, ◌&&◌, ◌||◌, Option, none, some, List, [],
  ◌∷◌, ◌++◌, ltb, ◌==◌, if◌then◌else◌,
}
use vocdoni_node.Base.Lists.{length, take, drop, get_or}
use vocdoni_node.Base.Bytes.{Bytes}
use vocdoni_node.Base.Words.{u32_mod}
use vocdoni_node.Chain.{
  Account, Address, EnvelopeType, Error, Result, ok, err, invalid_process_id_length,
  invalid_census_origin, invalid_envelope_type, account_not_found, invalid_delta,
}
use vocdoni_node.Chain.Fallible.{◌>>=◌, ◌>>◌}
use vocdoni_node.Crypto.{Crypto}

-- The chain identifier is kept as the text of a Go string.
pub record ProcessId : Type 0 where
  pub chain_id : Bytes
  pub organization_addr : Address
  pub census_origin : ℕ
  pub env_type : ℕ
  pub nonce : ℕ

-- `binary.BigEndian.PutUint32` and `Uint32`
unfoldable pub put_u32 : ℕ → Bytes
put_u32 n = n / 2 ^ 24 % 256 ∷ n / 2 ^ 16 % 256 ∷ n / 2 ^ 8 % 256 ∷ n % 256 ∷ []

unfoldable pub get_u32 : Bytes → ℕ
get_u32 b = get_or b 0 0 * 2 ^ 24 + get_or b 1 0 * 2 ^ 16 + get_or b 2 0 * 2 ^ 8 + get_or b 3 0

-- `Marshal`: the hash of the chain identifier cut to 6 bytes, the address, the origin, the type and
-- the nonce.
unfoldable pub marshal : Crypto → ProcessId → Bytes
marshal crypto p =
    take 6 (crypto.hash_raw p.chain_id)
    ++ (take 20 p.organization_addr ++ (p.census_origin % 256 ∷ p.env_type % 256 ∷ put_u32 p.nonce))

abbrev hex_digit : ℕ → ℕ
hex_digit n = if ltb n 10 then 48 + n else 87 + n

-- `fmt.Sprintf("%x", b)`
unfoldable pub hex : Bytes → Bytes
hex [] = []
hex (b ∷ bs) = hex_digit (b / 16) ∷ hex_digit (b % 16) ∷ hex bs

abbrev pub max_envelope_type : ℕ
max_envelope_type = 31

-- `pid[from:to]`
abbrev pub range : ℕ → ℕ → Bytes → Bytes
range from to b = take (to - from) (drop from b)

-- `Unmarshal`: the chain identifier it gives is the hexadecimal text of the first 4 bytes.
unfoldable pub unmarshal : Crypto → Bytes → Result ProcessId
unmarshal crypto pid = do
  if not (length pid == 32) then err invalid_process_id_length else ok tt
  if get_or pid 26 0 == 0 then err invalid_census_origin else ok tt
  if ltb max_envelope_type (get_or pid 27 0) then err invalid_envelope_type else ok tt
  ok (record {
    chain_id = hex (take 4 pid);
    organization_addr = crypto.bytes_to_address (range 6 26 pid);
    census_origin = get_or pid 26 0;
    env_type = get_or pid 27 0;
    nonce = get_u32 (range 28 32 pid);
  })

unfoldable pub set_census_origin : ProcessId → ℕ → Result ProcessId
set_census_origin p origin =
    if origin == 0 || ltb 255 origin
    then err invalid_census_origin
    else ok (record p { census_origin = origin })

-- The bit of a flag.
abbrev flag : Bool → ℕ → ℕ
flag b weight = if b then weight else 0

-- The bits are distinct, so that `|` is an addition.
unfoldable pub envelope_bits : EnvelopeType → ℕ
envelope_bits et =
    flag et.serial 1
    + flag et.anonymous 2
    + flag et.encrypted_votes 4
    + flag et.unique_values 8
    + flag et.cost_from_weight 16

unfoldable pub set_envelope_type : ProcessId → Option EnvelopeType → Result ProcessId
unfolding envelope_bits
set_envelope_type p none = err invalid_envelope_type
set_envelope_type p (some et) = ok (record p { env_type = envelope_bits et })

-- `bits & weight > 0`, for a power of two.
abbrev bit : ℕ → ℕ → Bool
bit bits weight = bits / weight % 2 == 1

unfoldable pub type_of_bits : ℕ → EnvelopeType
type_of_bits bits = record {
  serial = bit bits 1;
  anonymous = bit bits 2;
  encrypted_votes = bit bits 4;
  unique_values = bit bits 8;
  cost_from_weight = bit bits 16;
}

unfoldable pub envelope_type_of : ProcessId → EnvelopeType
envelope_type_of p = type_of_bits p.env_type

-- A signed 32-bit sum as its two's-complement word.
abbrev pub add_i32 : ℕ → ℕ → ℕ
add_i32 a b = (a + b) % u32_mod

abbrev pub negative_i32 : ℕ → Bool
negative_i32 a = not (ltb a (2 ^ 31))

found : Option Account → Result Account
found none = err account_not_found
found (some acc) = ok acc

-- `BuildProcessID`, on the chain identifier and the account that the state gives for the entity;
-- `delta` is the two's-complement word of the argument.
unfoldable pub build_process_id :
    Crypto
    → Option EnvelopeType
    → ℕ
    → Bytes
    → Bytes
    → (Address → Option Account)
    → ℕ
    → Result ProcessId
unfolding found
build_process_id crypto et origin entity_id chain_id get_account delta = do
  p₁ ←
      set_envelope_type
        (record {
          chain_id = chain_id;
          organization_addr = crypto.bytes_to_address [];
          census_origin = 0;
          env_type = 0;
          nonce = 0;
        })
        et
  p₂ ← set_census_origin p₁ origin
  acc ← found (get_account (crypto.bytes_to_address entity_id))
  if negative_i32 (add_i32 acc.process_index delta) then err invalid_delta else ok tt
  ok (record p₂ {
    organization_addr = crypto.bytes_to_address entity_id;
    nonce = add_i32 acc.process_index delta;
  })
