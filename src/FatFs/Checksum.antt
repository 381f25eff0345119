-- ===== src/FatFs/Checksum.antt =====
-- bindings/fatfs/wl_hal.cpp: the random numbers and the checksum that the wear levelling uses.
pub mod Laws
use flash_vis.Common.{
  ℕ, zero, suc, ◌+◌, ◌-◌, ◌*◌, ◌/◌, ◌%◌, ◌^◌, bit_xor, List, [], ◌∷◌, if◌then◌else◌, ◌==◌,
}

-- The next value of the static `s`, which is the result as well.
unfoldable pub esp_random : ℕ → ℕ
esp_random s = (s * 1664525 + 1013904223) % 2 ^ 32

-- `~crc`
unfoldable pub not32 : ℕ → ℕ
not32 crc = 2 ^ 32 - 1 - crc

abbrev pub poly : ℕ
poly = 0xEDB88320

-- `crc = (crc & 1) ? (crc >> 1) ^ 0xEDB88320u : (crc >> 1);`
unfoldable pub shift_bit : ℕ → ℕ
shift_bit crc = if crc % 2 == 1 then bit_xor (crc / 2) poly else crc / 2

unfoldable pub shift_bits : ℕ → ℕ → ℕ
unfolding shift_bit
shift_bits zero crc = crc
shift_bits (suc k) crc = shift_bits k (shift_bit crc)

-- One round of the outer loop.
unfoldable pub crc_byte : ℕ → ℕ → ℕ
unfolding shift_bits
crc_byte crc b = shift_bits 8 (bit_xor crc b)

unfoldable pub crc_bytes : ℕ → List ℕ → ℕ
unfolding crc_byte
crc_bytes crc [] = crc
crc_bytes crc (b ∷ bs) = crc_bytes (crc_byte crc b) bs

unfoldable pub esp_rom_crc32_le : ℕ → List ℕ → ℕ
unfolding crc_bytes not32
esp_rom_crc32_le crc buf = not32 (crc_bytes (not32 crc) buf)
