-- ===== src/JesFs/Spi/Commands.antt =====
-- Whole SPI transactions of jesfs_ll.c, from chip select to the last data byte, against the
-- operations of the chip that they stand for.
use flash_vis.Common.{
  ℕ, ◌+◌, ◌-◌, ◌*◌, ◌%◌, ◌^◌, ◌≤◌, ◌<◌, bit_and, bit_or, Bool, true, false, List, [], ◌∷◌, ◌++◌,
  length, pos, bit_or-shift, bit_and-mask, ◌≡◌, refl, arith, ◌∙◌, ap,
}
use flash_vis.Nor
use flash_vis.Nor.{Nor}
use flash_vis.Nor.Traffic.{subarray-append}
use flash_vis.JesFs.{Consts}
use flash_vis.JesFs.Spi.{
  Bus, pagewrite, readdata, spi_read, spi_write, read_case, write_page, addr24, select, hal_read,
}

-- A command with a 24-bit address, as it goes over the bus.
abbrev pub command : ℕ → ℕ → ℕ → ℕ → List ℕ
command op hi mid lo = op ∷ hi ∷ mid ∷ lo ∷ []

pub addr24-sum :
    (op hi mid lo : ℕ)
    → hi < 256
    → mid < 256
    → lo < 256
    → addr24 (command op hi mid lo) ≡ hi * 2 ^ 16 + mid * 2 ^ 8 + lo
unfolding addr24
addr24-sum op hi mid lo h m l =
    let e : hi * 2 ^ 16 + mid * 2 ^ 8 ≡ (hi * 2 ^ 8 + mid) * 2 ^ 8 = omega arith in
    rw (bit_or-shift 16 hi (mid * 2 ^ 8) (omega arith), e, bit_or-shift 8 (hi * 2 ^ 8 + mid) lo l)
      refl

hal_read-ok :
    (quiet : Bool) (off : ℕ) (buf : List ℕ) (d : Nor) → (hal_read quiet off buf d).0 ≡ pos 0
unfolding hal_read Nor.read Nor.read_quiet
hal_read-ok true off buf d = refl
hal_read-ok false off buf d = refl

hal_read-data :
    (quiet : Bool) (off : ℕ) (buf : List ℕ) (d : Nor)
    → ((hal_read quiet off buf d).1 ≡ Nor.subarray d.flash off buf)
      × ((hal_read quiet off buf d).2.flash ≡ d.flash)
unfolding hal_read Nor.read Nor.read_quiet
hal_read-data true off buf d = (refl, refl)
hal_read-data false off buf d = (refl, refl)

hal_read-silent :
    (q : Bool) (off : ℕ) (buf : List ℕ) (d : Nor) → q ≡ true → (hal_read q off buf d).2 ≡ d
unfolding hal_read Nor.read_quiet
hal_read-silent true off buf d e = refl
hal_read-silent false off buf d e = absurd (ground arith)

hal_read-heard :
    (q : Bool) (off : ℕ) (buf : List ℕ) (d : Nor)
    → q ≡ false
    → (hal_read q off buf d).2 ≡ (Nor.read off buf d).2
unfolding hal_read
hal_read-heard true off buf d e = absurd (ground arith)
hal_read-heard false off buf d e = refl

-- A transfer in the read state, whatever the buffer held.
readdata_lem :
    (c : Consts) (buf : List ℕ) (b : Bus)
    → b.ll.selected ≡ true
    → b.ll.state ≡ readdata
    → let (got, b') = spi_read c buf b in
      (got ≡ Nor.subarray b.nor.flash b.ll.addr buf)
      × (b'.nor.flash ≡ b.nor.flash)
      × (b'.ll.addr ≡ (b.ll.addr + length buf) % 2 ^ 32)
      × (b'.ll.selected ≡ true)
      × (b'.ll.state ≡ readdata)
unfolding spi_read read_case
readdata_lem c buf b sel st =
    rw (sel, st, spi_read, read_case)
      (rw (hal_read-ok b.quiet b.ll.addr buf b.nor, spi_read)
        (
          (hal_read-data b.quiet b.ll.addr buf b.nor).0,
          (hal_read-data b.quiet b.ll.addr buf b.nor).1,
          refl,
          refl,
          refl,
        ))

-- In the read state, two transfers one after the other return together what one transfer into both
-- buffers returns, as long as the address register does not wrap.
pub spi_read_streams :
    (c : Consts) (buf₁ buf₂ : List ℕ) (b : Bus)
    → b.ll.selected ≡ true
    → b.ll.state ≡ readdata
    → b.ll.addr + length buf₁ < 2 ^ 32
    → let (got₁, b₁) = spi_read c buf₁ b in
      got₁ ++ (spi_read c buf₂ b₁).0 ≡ (spi_read c (buf₁ ++ buf₂) b).0
spi_read_streams c buf₁ buf₂ b sel st h =
    let r = readdata_lem c buf₁ b sel st in
    let e : (b.ll.addr + length buf₁) % 2 ^ 32 ≡ b.ll.addr + length buf₁ = omega arith in
    rw
      (
        r.0,
        (readdata_lem c buf₂ (spi_read c buf₁ b).1 r.3 r.4).0,
        r.1,
        r.2,
        (readdata_lem c (buf₁ ++ buf₂) b sel st).0,
        e,
        subarray-append b.nor.flash b.ll.addr buf₁ buf₂,
      )
      refl

-- The data phase of a page program, from any state that waits for it.
page_data :
    (c : Consts) (src : List ℕ) (b : Bus)
    → b.ll.selected ≡ true
    → b.ll.state ≡ pagewrite
    → 0 < length src
    → (length src ≤ 256 - b.ll.addr % 256
        → spi_write c src b ≡ record {
          ll = record {
            addr = (b.ll.addr + length src) % 2 ^ 32;
            selected = b.ll.selected;
            state = b.ll.state;
            status = bit_and b.ll.status 253;
            powerdown = b.ll.powerdown;
          };
          quiet = b.quiet;
          density = b.density;
          nor = (Nor.prog b.ll.addr src b.nor).1;
        })
      × (256 - b.ll.addr % 256 < length src → spi_write c src b ≡ b)
unfolding spi_write write_page
page_data c src b sel st n =
    rw (sel, st, spi_write, write_page) (ground (arith, bit_and-mask 8 b.ll.addr))

-- An address and what its transaction needs of the address bytes.
module _ (c : Consts) (b : Bus) (hi mid lo : ℕ) (h : hi < 256) (m : mid < 256) (l : lo < 256) where
  abbrev address : ℕ
  address = hi * 2 ^ 16 + mid * 2 ^ 8 + lo

  read_transaction :
      (buf : List ℕ)
      → let r = hal_read b.quiet address buf b.nor in
        let (got, b') = spi_read c buf (spi_write c (command 0x03 hi mid lo) (select b)) in
        (got ≡ r.1)
        × (b'.nor ≡ r.2)
        × (b'.ll.addr ≡ (address + length buf) % 2 ^ 32)
        × (b'.ll.state ≡ readdata)
  unfolding spi_read spi_write select
  read_transaction buf =
      rw (addr24-sum 0x03 hi mid lo h m l, hal_read-ok b.quiet address buf b.nor)
        (refl, refl, refl, refl)

  -- Select, read command and one data transfer: the buffer is what the chip holds at the address; where
  -- `g_quiet` is set the chip is left exactly as it was, and where it is not the chip counts and reports one
  -- read of that range; the next transfer goes on behind it.
  pub read_command :
      (buf : List ℕ)
      → let (got, b') = spi_read c buf (spi_write c (command 0x03 hi mid lo) (select b)) in
        (got ≡ Nor.subarray b.nor.flash address buf)
        × (b.quiet ≡ true → b'.nor ≡ b.nor)
        × (b.quiet ≡ false → b'.nor ≡ (Nor.read address buf b.nor).2)
        × (b'.ll.addr ≡ (address + length buf) % 2 ^ 32)
        × (b'.ll.state ≡ readdata)
  read_command buf =
      let r = read_transaction buf in
      (
        r.0 ∙ (hal_read-data b.quiet address buf b.nor).0,
        λ q. r.1 ∙ hal_read-silent b.quiet address buf b.nor q,
        λ q. r.1 ∙ hal_read-heard b.quiet address buf b.nor q,
        r.2,
        r.3,
      )

  -- The bus once a write enable and the page program's command and address have gone over it.
  abbrev loaded : Bus
  loaded =
      let s = b.ll in
      record b {
        ll = record s {
          addr = address;
          selected = true;
          state = pagewrite;
          status = bit_or s.status 2;
        };
      }

  program_start :
      spi_write c (command 0x02 hi mid lo) (select (spi_write c (0x06 ∷ []) (select b))) ≡ loaded
  unfolding spi_write select
  program_start = rw (addr24-sum 0x02 hi mid lo h m l) refl

  -- A page program behind a write enable: data that stays inside its 256-byte page is programmed at the
  -- address, the address moves on and the write enable latch is cleared; data that would cross the
  -- page end changes nothing at all.
  pub program_command :
      (src : List ℕ)
      → 0 < length src
      → let start =
          spi_write c (command 0x02 hi mid lo) (select (spi_write c (0x06 ∷ []) (select b))) in
        let b' = spi_write c src start in
        (length src ≤ 256 - lo
          → (b'.nor ≡ (Nor.prog address src b.nor).1)
            × (b'.ll.addr ≡ address + length src)
            × (b'.ll.status ≡ bit_and (bit_or b.ll.status 2) 253))
        × (256 - lo < length src → b' ≡ start)
  program_command src n =
      let r = page_data c src loaded refl refl n in
      rw program_start (
        λ fits.
            let e = r.0 (omega arith) in
            (ap (λ x. x.nor) e, ap (λ x. x.ll.addr) e ∙ omega arith, ap (λ x. x.ll.status) e),
        λ over. r.1 (omega arith),
      )

  -- A sector erase erases SF_SECTOR_PH bytes at the address, and clears the write enable latch.
  pub erase-command :
      let b' = spi_write c (command 0x20 hi mid lo) (select b) in
      (b'.nor ≡ (Nor.erase address c.sector_ph b.nor).1) × (b'.ll.status ≡ bit_and b.ll.status 253)
  unfolding spi_write select
  erase-command = rw (addr24-sum 0x20 hi mid lo h m l) (refl, refl)
