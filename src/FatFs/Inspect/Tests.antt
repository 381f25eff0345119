-- ===== src/FatFs/Inspect/Tests.antt =====
-- Runs of bindings/fatfs/wl_hal.cpp and fat_inspect.cpp: checksums, and a live map of four logical sectors
-- over a wear levelling that hands out one boot record for every sector.
use flash_vis.Common.{
  ℕ, zero, suc, ◌<◌, false, List, [], ◌∷◌, set, replicate, none, some, pos, ◌≡◌, ◌≢◌, refl, arith,
  IsBytes,
}
use flash_vis.Nor.{esp32s3, no_stats}
use flash_vis.FatFs.Checksum.{esp_rom_crc32_le}
use flash_vis.FatFs.Checksum.Laws.{esp_rom_crc32_le-ne}
use flash_vis.FatFs.Hal.{Core, Hal, ret, run, inspect_read}
use flash_vis.FatFs.Inspect.{rd16}
use flash_vis.FatFs.Inspect.Boot.{refuses, is_known}
use flash_vis.FatFs.Inspect.LiveMap.{ff_live_map, map_device, map_volume, read_logical}
use flash_vis.FatFs.Inspect.Classes.{Placed, ff_live_map-is_final}

-- The standard check value of this checksum, of "123456789".
crc_123456789 : esp_rom_crc32_le 0 (49 ∷ 50 ∷ 51 ∷ 52 ∷ 53 ∷ 54 ∷ 55 ∷ 56 ∷ 57 ∷ []) ≡ 0xCBF43926
unfolding esp_rom_crc32_le
crc_123456789 = refl

one_byte : (b : ℕ) → b < 256 → IsBytes (b ∷ [])
one_byte b h zero l = h
one_byte b h (suc i) l = absurd (omega arith)

esp_rom_crc32_le-ne_example :
    esp_rom_crc32_le 0 (7 ∷ 1 ∷ 9 ∷ []) ≢ esp_rom_crc32_le 0 (7 ∷ 2 ∷ 9 ∷ [])
esp_rom_crc32_le-ne_example =
    esp_rom_crc32_le-ne 0 1 2 (7 ∷ []) (9 ∷ []) (one_byte 7 (omega arith))
      (one_byte 9 (omega arith)) (omega arith) (omega arith) (λ e. omega arith)

-- Sectors of 512 bytes, one reserved, one FAT of one sector, a root directory of one sector.
abbrev boot : List ℕ
boot =
    set
      (set (set (set (set (set (set (set (replicate 512 0) 12 2) 13 1) 14 1) 16 1) 17 16) 19 4) 22
        1)
      510 0x55

abbrev boot_sector : List ℕ
boot_sector = set boot 511 0xAA

abbrev toy : Core
toy = record {
  Inst = ℕ;
  fresh = 0;
  config = λ cfg i. ret (pos 0, i);
  init = λ i. ret (pos 0, i);
  read = λ a buf i. ret (pos 0, boot_sector, i);
  write = λ a src i. ret (pos 0, i);
  erase_range = λ a n i. ret (pos 0, i);
  flash_size = λ i. 2048;
  sector_size = λ i. 512;
  partition_start = λ i. 0;
  calc_addr = λ a i. a;
  addr_cfg = λ i. 3584;
  addr_state1 = λ i. 2560;
  addr_state2 = λ i. 3072;
}

abbrev hal : Hal toy
hal = record {
  nor = record {
    flash = [];
    wear = [];
    stats = no_stats;
    events = [];
    sector_size = 512;
    sector_count = 8;
    timing = esp32s3;
  };
  quiet = false;
  random = 0;
  part = none;
  inspect = some 0;
  dev_ss = 512;
  dev_sc = 8;
}

mapped : (ff_live_map toy [] [] (replicate 8 9) 512 hal).0 ≡ pos 0
unfolding ff_live_map map_device map_volume read_logical inspect_read run refuses is_known rd16
mapped = refl

ff_live_map-is_final_example :
    let (rc, map, s) = ff_live_map toy [] [] (replicate 8 9) 512 hal in
    (s.quiet ≡ false) × Placed toy 512 1 4 map s
ff_live_map-is_final_example =
    ff_live_map-is_final toy [] [] (replicate 8 9) 512 hal 0 refl (omega arith) mapped
