-- ===== src/Nor/Tests.antt =====
-- Runs of the chip of web/src/device.js.
use flash_vis.Common.{zero, suc, [], ◌∷◌, get_or, ◌≡◌, refl, arith, IsBytes}
use flash_vis.Nor.{Nor, no_stats, prog, erase, read, erase_rounds, esp32s3}
use flash_vis.Nor.Laws.{byte, byte-prog, byte-erase}
use flash_vis.Nor.Traffic.{wear-erase, read-prog-erase}

-- Three sectors of four bytes, written and worn in part.
abbrev written : Nor
written = record {
  flash = 255 ∷ 255 ∷ 255 ∷ 0x0F ∷ 0xF0 ∷ 0x3C ∷ 255 ∷ 255 ∷ 0 ∷ 255 ∷ 255 ∷ 255 ∷ [];
  wear = 0 ∷ 4294967295 ∷ 7 ∷ [];
  stats = no_stats;
  events = [];
  sector_size = 4;
  sector_count = 3;
  timing = esp32s3;
}

two_sectors : erase_rounds 4 3 2 ≡ 2
unfolding erase_rounds
two_sectors = refl

-- An empty range inside a sector erases that sector.
empty_range : erase_rounds 4 5 0 ≡ 1
unfolding erase_rounds
empty_range = refl

byte-prog_example : byte (prog 4 (0x33 ∷ []) written).1 4 ≡ 0x30
byte-prog_example = byte-prog written 4 (0x33 ∷ []) 4 (omega arith)

byte-erase_example : byte (erase 3 2 written).1 4 ≡ 255
byte-erase_example = byte-erase written 3 2 4 (omega arith) (omega arith)

wear-erase_example : get_or (erase 3 2 written).1.wear 1 0 ≡ 0
wear-erase_example = wear-erase written 3 2 1 (omega arith) (omega arith) (omega arith)

bytes : IsBytes (0x12 ∷ 0x34 ∷ [])
bytes zero h = omega arith
bytes (suc zero) h = omega arith
bytes (suc (suc i)) h = absurd (omega arith)

read-prog-erase_example :
    (read 3 (0 ∷ 0 ∷ []) (prog 3 (0x12 ∷ 0x34 ∷ []) (erase 3 2 written).1).1).1 ≡ 0x12 ∷ 0x34 ∷ []
read-prog-erase_example =
    read-prog-erase written 3 (0x12 ∷ 0x34 ∷ []) (0 ∷ 0 ∷ []) (omega arith) (omega arith) refl bytes
