-- ===== src/Util/Mask.antt =====
-- util.go: `NewNbitIPv4Mask`. The bit number is an int: its pattern below 2 ^ 64.
pub mod Bits
use cow.Base.{
  ℕ, zero, suc, ◌+◌, ◌-◌, ◌%◌, ◌^◌, Option, none, some, [], ◌∷◌, if◌then◌else◌, replicate, Bytes,
  signed_lt, signed_ge, signed_sub, int64_half,
}

-- `^byte(1<<(uint8(8-n)) - 1)`: the shift and the subtraction are on bytes.
unfoldable pub partial_byte : ℕ → ℕ
partial_byte n = 255 - (2 ^ (signed_sub int64_half 8 n % 256) % 256 + 256 - 1) % 256

-- The rounds left of the loop over `id`; the bytes not reached stay 0.
unfoldable pub mask_bytes : ℕ → ℕ → Bytes
mask_bytes zero n = []
mask_bytes (suc rounds) n =
    let more = 255 ∷ mask_bytes rounds (signed_sub int64_half n 8) in
    if signed_ge int64_half n 8 then more else partial_byte n ∷ replicate rounds 0

-- `none` is the panic above 32 bits.
unfoldable pub new_nbit_ipv4_mask : ℕ → Option Bytes
unfolding mask_bytes partial_byte
new_nbit_ipv4_mask n = if signed_lt int64_half 32 n then none else some (mask_bytes 4 n)
