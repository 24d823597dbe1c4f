-- ===== src/Crc.antt =====
-- The CRC-32 of update/apex_update.c (`apx_update_crc`) and of bootloader/apex_pro_mini_wl/ab_promote.c
-- (`crc32_step`), bit by bit as in the two loops.
pub mod Chain
mod Tests
use steelseries_apex_pro_min.Prelude.{
  ℕ, ◌-◌, ◌%◌, ◌^◌, List, [], ◌∷◌, bit_and, bit_xor, ◌>>>◌, u32, uint32_max,
}

abbrev pub polynomial : ℕ
polynomial = 0xedb88320

-- `(crc >> 1) ^ (0xedb88320u & (0u - (crc & 1u)))`
unfoldable pub crc_bit : ℕ → ℕ
crc_bit crc = bit_xor (crc >>> 1) (bit_and polynomial (u32 (2 ^ 32 - bit_and crc 1)))

-- `crc ^= *p++` and the eight rounds.
unfoldable pub crc_byte : ℕ → ℕ → ℕ
unfolding crc_bit
crc_byte crc b =
    crc_bit (crc_bit (crc_bit (crc_bit (crc_bit (crc_bit (crc_bit (crc_bit (bit_xor crc b))))))))

unfoldable pub crc_loop : ℕ → List ℕ → ℕ
unfolding crc_byte
crc_loop crc [] = crc
crc_loop crc (b ∷ bs) = crc_loop (crc_byte crc b) bs

-- `~crc` of a 32-bit word
abbrev pub complement : ℕ → ℕ
complement crc = uint32_max - crc

-- `apx_update_crc`
unfoldable pub crc : List ℕ → ℕ
unfolding crc_loop
crc bytes = complement (crc_loop uint32_max bytes)

unfoldable pub crc32_step : ℕ → List ℕ → ℕ
unfolding crc_loop
crc32_step seed bytes = complement (crc_loop (complement seed) bytes)
