-- ===== src/JesFs/Spi/Tests.antt =====
-- Runs of bindings/jesfs/jesfs_ll.c.
use flash_vis.Common.{
  ℕ, zero, suc, ◌-◌, ◌≤◌, ◌<◌, true, false, List, [], ◌∷◌, ◌++◌, get_or, ◌≡◌, refl, arith, bit_or,
  bit_and,
}
use flash_vis.Nor
use flash_vis.Nor.{Nor, esp32s3, no_stats}
use flash_vis.JesFs.{sample_consts}
use flash_vis.JesFs.Spi.{Bus, readdata, spi_init, spi_read, spi_write, select}
use flash_vis.JesFs.Spi.Commands.{
  command, spi_read_streams, read_command, program_command, erase-command,
}
use flash_vis.JesFs.Spi.Safety.{
  Call, selects, deselects, reads, writes, run, IsValid, AllSend, run-IsValid,
}

-- Eight bytes of chip.
abbrev chip : Nor
chip = record {
  flash = 1 ∷ 2 ∷ 3 ∷ 4 ∷ 255 ∷ 255 ∷ 255 ∷ 255 ∷ [];
  wear = 0 ∷ 0 ∷ [];
  stats = no_stats;
  events = [];
  sector_size = 4;
  sector_count = 2;
  timing = esp32s3;
}

abbrev bus : Bus
bus = record {
  ll = record { addr = 1; selected = true; state = readdata; status = 0; powerdown = false };
  quiet = false;
  density = 3;
  nor = chip;
}

-- The identity command.
identity :
    (spi_read sample_consts (0 ∷ 0 ∷ 0 ∷ []) (spi_write sample_consts (0x9F ∷ []) (select bus))).0
    ≡ 0xC2 ∷ 0x28 ∷ 3 ∷ []
unfolding spi_read spi_write select
identity = refl

spi_read_streams_example :
    (spi_read sample_consts (0 ∷ []) bus).0
      ++ (spi_read sample_consts (0 ∷ 0 ∷ []) (spi_read sample_consts (0 ∷ []) bus).1).0
    ≡ (spi_read sample_consts (0 ∷ 0 ∷ 0 ∷ []) bus).0
spi_read_streams_example =
    spi_read_streams sample_consts (0 ∷ []) (0 ∷ 0 ∷ []) bus refl refl (omega arith)

read_command_example :
    let (got, b') =
      spi_read sample_consts
        (0 ∷ 0 ∷ [])
        (spi_write sample_consts (command 0x03 0 0 2) (select bus)) in
    (got ≡ Nor.subarray chip.flash 2 (0 ∷ 0 ∷ []))
    × (false ≡ true → b'.nor ≡ chip)
    × (false ≡ false → b'.nor ≡ (Nor.read 2 (0 ∷ 0 ∷ []) chip).2)
    × (b'.ll.addr ≡ 4)
    × (b'.ll.state ≡ readdata)
read_command_example =
    read_command sample_consts bus 0 0 2 (omega arith) (omega arith) (omega arith) (0 ∷ 0 ∷ [])

program_command_example :
    let start =
      spi_write sample_consts
        (command 0x02 0 0 4)
        (select (spi_write sample_consts (0x06 ∷ []) (select bus))) in
    let b' = spi_write sample_consts (7 ∷ 8 ∷ []) start in
    (2 ≤ 256 - 4
      → (b'.nor ≡ (Nor.prog 4 (7 ∷ 8 ∷ []) chip).1)
        × (b'.ll.addr ≡ 6)
        × (b'.ll.status ≡ bit_and (bit_or 0 2) 253))
    × (256 - 4 < 2 → b' ≡ start)
program_command_example =
    program_command sample_consts bus 0 0 4 (omega arith) (omega arith) (omega arith) (7 ∷ 8 ∷ [])
      (omega arith)

erase-command_example :
    let b' = spi_write sample_consts (command 0x20 0 0 4) (select bus) in
    (b'.nor ≡ (Nor.erase 4 4096 chip).1) × (b'.ll.status ≡ 0)
erase-command_example =
    erase-command sample_consts bus 0 0 4 (omega arith) (omega arith) (omega arith)

abbrev script : List Call
script = selects ∷ writes (0x06 ∷ []) ∷ reads (0 ∷ []) ∷ deselects ∷ []

sent : (i : ℕ) → get_or (0x06 ∷ []) i 0 < 256
sent zero = omega arith
sent (suc i) = omega arith

script-AllSend : AllSend script
script-AllSend = (tt, (sent, (tt, (tt, tt))))

run-IsValid_example : IsValid (run sample_consts script (spi_init bus))
run-IsValid_example = run-IsValid sample_consts script bus script-AllSend
