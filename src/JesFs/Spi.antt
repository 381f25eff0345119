-- ===== src/JesFs/Spi.antt =====
-- bindings/jesfs/jesfs_ll.c: the SPI opcode state machine that decodes JesFS's commands into calls of
-- the emulated chip. A transfer's buffer is a list of bytes, as long as `len`.
pub mod Commands
pub mod Safety
mod Tests
use flash_vis.Common.{
  ℕ, ◌+◌, ◌-◌, ◌*◌, ◌/◌, ◌%◌, ◌^◌, bit_and, bit_or, Bool, true, false, not, ◌||◌, List, [], ◌∷◌,
  length, set, get_or, replicate, if◌then◌else◌, ◌==◌, ltb, leb, eqb_ℤ, pos, ℤ,
}
use flash_vis.Nor
use flash_vis.Nor.{Nor}
use flash_vis.JesFs.{Consts}

-- The anonymous enum of transfer states, with its values.
pub data St : Type 0 where
  idle pagewrite rdid status_reg readdata : St

abbrev pub st_code : St → ℕ
st_code idle = 0
st_code pagewrite = 1
st_code rdid = 128
st_code status_reg = 129
st_code readdata = 130

-- `jesfs_ll_t`
pub record Ll : Type 0 where
  pub addr : ℕ
  pub selected : Bool
  pub state : St
  pub status : ℕ
  pub powerdown : Bool

-- The static state `s_ll`, the shim's `g_quiet` and `g_density`, and the chip behind the HAL.
pub record Bus : Type 0 where
  pub ll : Ll
  pub quiet : Bool
  pub density : ℕ
  pub nor : Nor

unfoldable pub spi_init : Bus → Bus
spi_init b = record b {
  ll = record { addr = 0xffffffff; selected = false; state = idle; status = 0; powerdown = false };
}

unfoldable pub select : Bus → Bus
select b = let l = b.ll in record b { ll = record l { selected = true; state = idle } }

unfoldable pub deselect : Bus → Bus
deselect b = let l = b.ll in record b { ll = record l { selected = false } }

-- js_flash_read or js_flash_read_quiet, as `g_quiet` says.
unfoldable pub hal_read : Bool → ℕ → List ℕ → Nor → ℤ × List ℕ × Nor
hal_read true off buf d = Nor.read_quiet off buf d
hal_read false off buf d = Nor.read off buf d

-- `switch (s_ll.state)` of sflash_spi_read.
unfoldable pub read_case : Consts → St → List ℕ → Bus → List ℕ × Bus
unfolding hal_read
read_case c rdid buf b =
    let l = b.ll in
    let id =
      set (set (set buf 0 (c.manu_typ / 2 ^ 8 % 2 ^ 8)) 1 (c.manu_typ % 2 ^ 8)) 2 b.density in
    ((if leb 3 (length buf) then id else buf), record b { ll = record l { state = idle } })
read_case c status_reg buf b =
    let l = b.ll in
    (
      (if leb 1 (length buf) then set buf 0 l.status else buf),
      record b { ll = record l { status = bit_and l.status 254 } },
    )
read_case c readdata buf b =
    let l = b.ll in
    let (rc, got, nor') = hal_read b.quiet l.addr buf b.nor in
    (
      (if eqb_ℤ rc (pos 0) then got else replicate (length buf) 255),
      record b { ll = record l { addr = (l.addr + length buf) % 2 ^ 32 }; nor = nor' },
    )
read_case c other buf b = (replicate (length buf) 255, b)

-- sflash_spi_read
unfoldable pub spi_read : Consts → List ℕ → Bus → List ℕ × Bus
unfolding read_case
spi_read c buf b =
    if not b.ll.selected || ltb (st_code b.ll.state) 128
    then (replicate (length buf) 255, b)
    else read_case c b.ll.state buf b

-- `buf[1] << 16 | buf[2] << 8 | buf[3]`
unfoldable pub addr24 : List ℕ → ℕ
addr24 buf = bit_or (bit_or (get_or buf 1 0 * 2 ^ 16) (get_or buf 2 0 * 2 ^ 8)) (get_or buf 3 0)

abbrev set_state : St → Bus → Bus
set_state s b = let l = b.ll in record b { ll = record l { state = s } }

abbrev set_status : ℕ → Bus → Bus
set_status s b = let l = b.ll in record b { ll = record l { status = s } }

-- The opcode switch of sflash_spi_write, in state ST_IDLE.
unfoldable pub write_idle : Consts → ℕ → List ℕ → Bus → Bus
write_idle c op buf b =
    let l = b.ll in
    let a = addr24 buf in
    let wide = leb 4 (length buf) in
    if op == 0xB9
    then record b { ll = record l { powerdown = true } }
    else if op == 0xAB
    then record b { ll = record l { powerdown = false } }
    else if op == 0x9F
    then set_state rdid b
    else if op == 0x06
    then set_status (bit_or l.status 2) b
    else if op == 0x05
    then set_state status_reg b
    else if op == 0x03
    then (if wide then record b { ll = record l { addr = a; state = readdata } } else b)
    else if op == 0x02
    then (if wide then record b { ll = record l { addr = a; state = pagewrite } } else b)
    else if op == 0x20
    then (if wide
        then record b {
          ll = record l { addr = a; status = bit_and l.status 253 };
          nor = (Nor.erase a c.sector_ph b.nor).1;
        }
        else b)
    else if op == 0xC7
    then record b {
      ll = record l { status = bit_and l.status 253 };
      nor = (Nor.erase 0 (2 ^ b.density) b.nor).1;
    }
    else b

-- The data phase of a page program, in state ST_PAGEWRITE.
unfoldable pub write_page : List ℕ → Bus → Bus
write_page buf b =
    let l = b.ll in
    let max_page = 256 - bit_and l.addr 255 in
    if ltb max_page (length buf) then b else record b {
      ll = record l { addr = (l.addr + length buf) % 2 ^ 32; status = bit_and l.status 253 };
      nor = (Nor.prog l.addr buf b.nor).1;
    }

unfoldable pub write_case : Consts → St → List ℕ → Bus → Bus
unfolding write_idle write_page
write_case c idle buf b = write_idle c (get_or buf 0 0) buf b
write_case c pagewrite buf b = write_page buf b
write_case c other buf b = b

-- sflash_spi_write
unfoldable pub spi_write : Consts → List ℕ → Bus → Bus
unfolding write_case
spi_write c buf b =
    if not b.ll.selected || length buf == 0 then b else write_case c b.ll.state buf b
