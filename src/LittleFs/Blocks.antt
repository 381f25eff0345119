-- ===== src/LittleFs/Blocks.antt =====
-- The littlefs callbacks of bindings/littlefs/shim.c: a block is one sector of the chip.
use native.Mathlib.Decide.{dec_lt}
use native.Mathlib.Nat.{mul-le-mul_right}
use flash_vis.Common.{
  ℕ, suc, ◌+◌, ◌*◌, ◌/◌, ◌%◌, ◌^◌, ◌≤◌, ◌<◌, false, ◌&&◌, List, length, ltb, leb, ◌==◌,
  if◌then◌else◌, ◌≡◌, refl, arith, ◌∙◌,
}
use flash_vis.Nor.{Nor}
use flash_vis.Nor.Laws.{byte, meets, byte-erase, byte-prog, floor_bounds}
use flash_vis.LittleFs.{Core, be_erase, be_prog, abs}

-- Two sectors meet only if they are the same.
meets_sector : (ss block i : ℕ) → 0 < ss → meets ss (block * ss) ss i ≡ (block == i / ss)
meets_sector ss block i h = elim (dec_lt block (i / ss)) [
  | yes lo ↦ ground (arith, mul-le-mul_right {m = suc block} {n = i / ss} ss (omega arith))
  | no lo' ↦ elim (dec_lt (i / ss) block) [
    | yes hi ↦ ground (arith, mul-le-mul_right {m = suc (i / ss)} {n = block} ss (omega arith))
    | no hi' ↦ let e : i / ss ≡ block = omega arith in rw e (ground arith)
  ]
]

module _ (C : Core) where
  -- Erasing a block of a chip whose sectors have the configured size sets exactly the bytes of that
  -- block to 0xFF; every byte of any other block is as it was.
  pub be_erase_lem :
      (d : Nor) (block i : ℕ)
      → 0 < d.sector_size
      → block * d.sector_size < 2 ^ 32
      → byte (be_erase C d.sector_size block d).1 i
        ≡ (if block == i / d.sector_size then 255 else byte d i)
  unfolding be_erase
  be_erase_lem d block i h fits =
      let e : block * d.sector_size % 2 ^ 32 ≡ block * d.sector_size = omega arith in
      rw (e, be_erase)
        (byte-erase d (block * d.sector_size) d.sector_size i h h
          ∙ rw (meets_sector d.sector_size block i h) refl)

  -- A program inside a block changes no byte of any other block.
  pub be_prog_lem :
      (d : Nor) (ss block off : ℕ) (src : List ℕ) (i : ℕ)
      → 0 < ss
      → off + length src ≤ ss
      → block * ss + off < 2 ^ 32
      → i < length d.flash
      → (block == i / ss) ≡ false
      → byte (be_prog C ss (block, off) src d).1 i ≡ byte d i
  unfolding be_prog abs
  be_prog_lem d ss block off src i h inside fits l other =
      let e : (block * ss + off) % 2 ^ 32 ≡ block * ss + off = omega arith in
      let outside : (leb (block * ss + off) i && ltb i (block * ss + off + length src)) ≡ false =
        elim (dec_lt block (i / ss)) [
          | yes lo ↦ ground (
            arith,
            floor_bounds i ss h,
            mul-le-mul_right {m = suc block} {n = i / ss} ss (omega arith),
          )
          | no lo' ↦ ground (
            arith,
            floor_bounds i ss h,
            mul-le-mul_right {m = suc (i / ss)} {n = block} ss (ground arith),
          )
        ] in
      rw (e, be_prog) (byte-prog d (block * ss + off) src i l ∙ rw outside refl)
