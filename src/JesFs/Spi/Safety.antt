-- ===== src/JesFs/Spi/Safety.antt =====
-- What jesfs_ll.c keeps whatever JesFS sends it: the register invariant over any sequence of calls, and
-- the only ways in which a call can reach the chip.
use flash_vis.Common.{
  ℕ, ◌+◌, ◌*◌, ◌%◌, ◌^◌, ◌≤◌, ◌<◌, bit_and, bit_or, true, false, List, [], ◌∷◌, length, get_or,
  bit_or-shift, ◌≡◌, refl, arith, ◌⊎◌, inl, inr,
}
use flash_vis.Nor
use flash_vis.Nor.{Nor}
use flash_vis.JesFs.{Consts}
use flash_vis.JesFs.Spi.{
  Bus, St, idle, pagewrite, rdid, status_reg, readdata, spi_init, spi_read, spi_write, read_case,
  write_case, write_idle, write_page, addr24, select, deselect,
}

-- A call of JesFS's mid level into the HAL.
pub data Call : Type 0 where
  inits selects deselects : Call
  reads : List ℕ → Call
  writes : List ℕ → Call

unfoldable pub step : Consts → Call → Bus → Bus
step c inits b = spi_init b
step c selects b = select b
step c deselects b = deselect b
step c (reads buf) b = (spi_read c buf b).1
step c (writes buf) b = spi_write c buf b

unfoldable pub run : Consts → List Call → Bus → Bus
unfolding step
run c [] b = b
run c (x ∷ xs) b = run c xs (step c x b)

-- The write-in-progress bit is clear and no bit but the write enable latch is ever set.
abbrev pub IsStatus : ℕ → Type 0
IsStatus s = (s ≡ 0) ⊎ (s ≡ 2)

IsStatus-set : (s : ℕ) → IsStatus s → IsStatus (bit_or s 2)
IsStatus-set s (inl e) = inr (rw e)
IsStatus-set s (inr e) = inr (rw e)

IsStatus-busy : (s : ℕ) → IsStatus s → IsStatus (bit_and s 254)
IsStatus-busy s (inl e) = inl (rw e)
IsStatus-busy s (inr e) = inr (rw e)

IsStatus-clear : (s : ℕ) → IsStatus s → IsStatus (bit_and s 253)
IsStatus-clear s (inl e) = inl (rw e)
IsStatus-clear s (inr e) = inl (rw e)

pub record IsValid (b : Bus) : Type 0 where
  pub addr_fits : b.ll.addr < 2 ^ 32
  pub status_fits : IsStatus b.ll.status

-- A call's data is bytes.
abbrev pub Sends : Call → Type 0
Sends (writes buf) = (i : ℕ) → get_or buf i 0 < 256
Sends _ = Unit {0}

abbrev pub AllSend : List Call → Type 0
AllSend [] = Unit {0}
AllSend (x ∷ xs) = Sends x × AllSend xs

-- The address that a command's three bytes after the opcode name.
abbrev pub address_of : List ℕ → ℕ
address_of buf = get_or buf 1 0 * 2 ^ 16 + get_or buf 2 0 * 2 ^ 8 + get_or buf 3 0

addr24-address_of : (buf : List ℕ) → ((i : ℕ) → get_or buf i 0 < 256) → addr24 buf ≡ address_of buf
unfolding addr24
addr24-address_of buf h =
    let e : get_or buf 1 0 * 2 ^ 16 + get_or buf 2 0 * 2 ^ 8
        ≡ (get_or buf 1 0 * 2 ^ 8 + get_or buf 2 0) * 2 ^ 8 =
      omega arith in
    rw
      (
        bit_or-shift 16 (get_or buf 1 0) (get_or buf 2 0 * 2 ^ 8) (omega (arith, h 2)),
        e,
        bit_or-shift 8 (get_or buf 1 0 * 2 ^ 8 + get_or buf 2 0) (get_or buf 3 0) (h 3),
      )
      refl

addr24-lt : (buf : List ℕ) → ((i : ℕ) → get_or buf i 0 < 256) → addr24 buf < 2 ^ 24
addr24-lt buf h = omega (arith, addr24-address_of buf h, h 1, h 2, h 3)

write_idle-IsValid :
    (c : Consts) (buf : List ℕ) (b : Bus)
    → addr24 buf < 2 ^ 24
    → IsValid b
    → IsValid (write_idle c (get_or buf 0 0) buf b)
unfolding write_idle
write_idle-IsValid c buf b a v =
    ground (arith, IsStatus-set b.ll.status v.status_fits, IsStatus-clear b.ll.status v.status_fits)

write_page-IsValid : (buf : List ℕ) (b : Bus) → IsValid b → IsValid (write_page buf b)
unfolding write_page
write_page-IsValid buf b v = ground (arith, IsStatus-clear b.ll.status v.status_fits)

write_case-IsValid :
    (c : Consts) (s : St) (buf : List ℕ) (b : Bus)
    → addr24 buf < 2 ^ 24
    → IsValid b
    → IsValid (write_case c s buf b)
unfolding write_case
write_case-IsValid c idle buf b a v = write_idle-IsValid c buf b a v
write_case-IsValid c pagewrite buf b a v = write_page-IsValid buf b v
write_case-IsValid c other buf b a v = v

read_case-IsValid :
    (c : Consts) (s : St) (buf : List ℕ) (b : Bus) → IsValid b → IsValid (read_case c s buf b).1
unfolding read_case
read_case-IsValid c rdid buf b v = ground arith
read_case-IsValid c status_reg buf b v = ground (arith, IsStatus-busy b.ll.status v.status_fits)
read_case-IsValid c readdata buf b v = ground arith
read_case-IsValid c other buf b v = v

-- Every call keeps the address register in 32 bits and the status register to its latch bit.
pub step-IsValid : (c : Consts) (x : Call) (b : Bus) → Sends x → IsValid b → IsValid (step c x b)
unfolding step spi_init select deselect spi_read spi_write
step-IsValid c inits b s v = ground arith
step-IsValid c selects b s v = ground arith
step-IsValid c deselects b s v = ground arith
step-IsValid c (reads buf) b s v = ground (arith, read_case-IsValid c b.ll.state buf b v)
step-IsValid c (writes buf) b s v =
    ground (arith, write_case-IsValid c b.ll.state buf b (addr24-lt buf s) v)

run_keeps : (c : Consts) (xs : List Call) (b : Bus) → AllSend xs → IsValid b → IsValid (run c xs b)
unfolding run
run_keeps c [] b s v = v
run_keeps c (x ∷ xs) b s v = run_keeps c xs (step c x b) s.1 (step-IsValid c x b s.0 v)

init-IsValid : (b : Bus) → IsValid (spi_init b)
unfolding spi_init
init-IsValid b = record { addr_fits = omega arith; status_fits = inl refl }

-- After sflash_spi_init, any sequence of HAL calls that sends bytes leaves the address register within
-- 32 bits, and the status register with the busy bit clear and no bit but the write enable latch.
pub run-IsValid :
    (c : Consts) (xs : List Call) (b : Bus) → AllSend xs → IsValid (run c xs (spi_init b))
run-IsValid c xs b s = run_keeps c xs (spi_init b) s (init-IsValid b)

-- How the call `x` can change the chip of the bus `b` into `n`.
pub data Effect (c : Consts) (x : Call) (b : Bus) (n : Nor) : Type 0 where
  untouched : n ≡ b.nor → Effect c x b n
  heard :
      (buf : List ℕ)
      → x ≡ reads buf
      → b.ll.selected ≡ true
      → b.ll.state ≡ readdata
      → b.quiet ≡ false
      → n ≡ (Nor.read b.ll.addr buf b.nor).2
      → Effect c x b n
  paged :
      (src : List ℕ)
      → x ≡ writes src
      → b.ll.selected ≡ true
      → b.ll.state ≡ pagewrite
      → b.ll.addr % 256 + length src ≤ 256
      → n ≡ (Nor.prog b.ll.addr src b.nor).1
      → Effect c x b n
  sector_erased :
      (buf : List ℕ)
      → x ≡ writes buf
      → b.ll.selected ≡ true
      → b.ll.state ≡ idle
      → get_or buf 0 0 ≡ 0x20
      → 4 ≤ length buf
      → n ≡ (Nor.erase (address_of buf) c.sector_ph b.nor).1
      → Effect c x b n
  chip_erased :
      (buf : List ℕ)
      → x ≡ writes buf
      → b.ll.selected ≡ true
      → b.ll.state ≡ idle
      → get_or buf 0 0 ≡ 0xC7
      → n ≡ (Nor.erase 0 (2 ^ b.density) b.nor).1
      → Effect c x b n
