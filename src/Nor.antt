-- ===== src/Nor.antt =====
-- web/src/device.js: the emulated NOR chip that every driver's reads, programs and erases end in,
-- reached through build/flash_hal.js. JavaScript's numbers are natural numbers here; a typed array
-- drops a write past its end and wraps an element to its width.
pub mod Laws
pub mod Traffic
mod Tests
use flash_vis.Common.{
  ℕ, zero, suc, ◌+◌, ◌-◌, ◌*◌, ◌/◌, ◌%◌, ◌^◌, bit_and, List, [], ◌∷◌, length, set, get_or, take,
  drop, replicate, fill, overlay, if◌then◌else◌, ◌==◌, ℤ, pos,
}

pub record Timing : Type 0 where
  pub read_fixed : ℕ
  pub read_per : ℕ
  pub prog_fixed : ℕ
  pub prog_per : ℕ
  pub erase_fixed : ℕ
  pub erase_per : ℕ

abbrev pub esp32s3 : Timing
esp32s3 = record {
  read_fixed = 64522;
  read_per = 120;
  prog_fixed = 0;
  prog_per = 5937;
  erase_fixed = 21269000;
  erase_per = 0;
}

pub record Stats : Type 0 where
  pub reads : ℕ
  pub programs : ℕ
  pub erases : ℕ
  pub read_bytes : ℕ
  pub program_bytes : ℕ
  pub sim_ns : ℕ

pub data Event : Type 0 where
  did_reset : Event
  did_read : ℕ → ℕ → ℕ → Event
  did_prog : ℕ → ℕ → ℕ → Event
  did_erase : ℕ → ℕ → ℕ → ℕ → Event

-- `events` is what `emit` has sent to the listeners, the newest first.
pub record Nor : Type 0 where
  pub flash : List ℕ
  pub wear : List ℕ
  pub stats : Stats
  pub events : List Event
  pub sector_size : ℕ
  pub sector_count : ℕ
  pub timing : Timing

abbrev pub no_stats : Stats
no_stats = record {
  reads = 0;
  programs = 0;
  erases = 0;
  read_bytes = 0;
  program_bytes = 0;
  sim_ns = 0;
}

unfoldable pub create : ℕ → ℕ → Timing → Nor
create sector_size sector_count timing = record {
  flash = replicate (sector_size * sector_count) 255;
  wear = replicate sector_count 0;
  stats = no_stats;
  events = [];
  sector_size = sector_size;
  sector_count = sector_count;
  timing = timing;
}

unfoldable pub reset : Nor → Nor
reset d = record d {
  flash = fill 255 0 (length d.flash) d.flash;
  wear = fill 0 0 (length d.wear) d.wear;
  stats = no_stats;
  events = did_reset ∷ d.events;
}

-- `HEAPU8.set(flash.subarray(off, off + len), dst)` on a buffer of `len` bytes.
unfoldable pub subarray : List ℕ → ℕ → List ℕ → List ℕ
subarray flash off buf = overlay (take (length buf) (drop off flash)) buf

-- The results are the returned code, the buffer's new contents and the chip.
unfoldable pub read : ℕ → List ℕ → Nor → ℤ × List ℕ × Nor
unfolding subarray
read off buf d =
    let len = length buf in
    let ns = d.timing.read_fixed + d.timing.read_per * len in
    let s = d.stats in
    (
      pos 0,
      subarray d.flash off buf,
      record d {
        stats = record s {
          reads = s.reads + 1;
          read_bytes = s.read_bytes + len;
          sim_ns = s.sim_ns + ns;
        };
        events = did_read off len ns ∷ d.events;
      },
    )

unfoldable pub read_quiet : ℕ → List ℕ → Nor → ℤ × List ℕ × Nor
unfolding subarray
read_quiet off buf d = (pos 0, subarray d.flash off buf, d)

-- `for (i = 0; i < len; i++) flash[off + i] &= heap[src + i]`
unfoldable pub and_bytes : ℕ → List ℕ → List ℕ → List ℕ
and_bytes off [] flash = flash
and_bytes off (b ∷ bs) flash =
    and_bytes (suc off) bs (set flash off (bit_and (get_or flash off 255) b))

unfoldable pub prog : ℕ → List ℕ → Nor → ℤ × Nor
unfolding and_bytes
prog off src d =
    let len = length src in
    let ns = d.timing.prog_fixed + d.timing.prog_per * len in
    let s = d.stats in
    (
      pos 0,
      record d {
        flash = and_bytes off src d.flash;
        stats = record s {
          programs = s.programs + 1;
          program_bytes = s.program_bytes + len;
          sim_ns = s.sim_ns + ns;
        };
        events = did_prog off len ns ∷ d.events;
      },
    )

-- One round of the loop of `erase`. `wear` is a Uint32Array.
unfoldable pub erase_sector : ℕ → Nor → Nor
erase_sector s d =
    let ns = d.timing.erase_fixed + d.timing.erase_per * d.sector_size in
    let st = d.stats in
    record d {
      flash = fill 255 (s * d.sector_size) d.sector_size d.flash;
      wear = set d.wear s ((get_or d.wear s 0 + 1) % 2 ^ 32);
      stats = record st { erases = st.erases + 1; sim_ns = st.sim_ns + ns };
      events = did_erase s (s * d.sector_size) d.sector_size ns ∷ d.events;
    }

unfoldable pub erase_from : ℕ → ℕ → Nor → Nor
unfolding erase_sector
erase_from zero s d = d
erase_from (suc n) s d = erase_from n (suc s) (erase_sector s d)

-- How often the loop from `floor(off / size)` to `floor((off + len - 1) / size)` goes round; at
-- `off + len == 0` the second is -1.
unfoldable pub erase_rounds : ℕ → ℕ → ℕ → ℕ
erase_rounds size off len = if off + len == 0 then 0 else (off + len - 1) / size + 1 - off / size

unfoldable pub erase : ℕ → ℕ → Nor → ℤ × Nor
unfolding erase_from erase_rounds
erase off len d = (pos 0, erase_from (erase_rounds d.sector_size off len) (off / d.sector_size) d)
