-- ===== src/Base/Words.antt =====
-- Machine words as native numbers: the arithmetic that wraps is written out.
use Prim.Native.Nat.{ℕ, zero, suc, ◌+◌, ◌-◌, ◌*◌, ◌/◌, ◌%◌, ◌^◌}
use mathlib.Core.List.{[], ◌∷◌}
use vocdoni_node.Base.Bytes.{Bytes}
use vocdoni_node.Base.Tests.{◌==◌, if◌then◌else◌}

abbrev pub u32_mod : ℕ
u32_mod = 2 ^ 32

abbrev pub u64_mod : ℕ
u64_mod = 2 ^ 64

-- uint32 a + b and uint64 a + b
abbrev pub add32 : ℕ → ℕ → ℕ
add32 a b = (a + b) % u32_mod

abbrev pub add64 : ℕ → ℕ → ℕ
add64 a b = (a + b) % u64_mod

-- `big.Int.Bytes`: the big-endian bytes with no leading zero. The number itself is fuel enough.
unfoldable pub bytes_loop : ℕ → ℕ → Bytes → Bytes
bytes_loop zero n acc = acc
bytes_loop (suc fuel) n acc =
    let rest = bytes_loop fuel (n / 256) (n % 256 ∷ acc) in if n == 0 then acc else rest

unfoldable pub big_bytes : ℕ → Bytes
unfolding bytes_loop
big_bytes n = bytes_loop n n []

-- `big.Int.SetBytes`
unfoldable pub of_bytes_loop : ℕ → Bytes → ℕ
of_bytes_loop acc [] = acc
of_bytes_loop acc (b ∷ bs) = of_bytes_loop (acc * 256 + b) bs

unfoldable pub of_bytes : Bytes → ℕ
unfolding of_bytes_loop
of_bytes b = of_bytes_loop 0 b

-- uint32 a - b, for words
abbrev pub sub32 : ℕ → ℕ → ℕ
sub32 a b = (a + (u32_mod - b)) % u32_mod

-- uint64 a - b, for words
abbrev pub sub64 : ℕ → ℕ → ℕ
sub64 a b = (a + (u64_mod - b)) % u64_mod
