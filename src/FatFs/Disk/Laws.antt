-- ===== src/FatFs/Disk/Laws.antt =====
-- What a sector write of bindings/fatfs/diskio.c does to a volume that erases and programs like NOR flash.
use flash_vis.Common.{
  ℕ, ◌+◌, ◌-◌, ◌*◌, ◌%◌, ◌^◌, ◌≤◌, ◌<◌, bit_and, bit_and_ones, IsBytes, List, length, take, get_or,
  ltb, leb, ◌&&◌, pos, if◌then◌else◌, ◌≡◌, arith, ◌∙◌, take-all, ap, sym,
}
use native.Mathlib.Nat.{mul-mod_left}
use flash_vis.Nor.Traffic.{get_or_default}
use flash_vis.FatFs.{Wl}
use flash_vis.FatFs.Disk.{res_ok, disk_write, span, start}

-- The volume as addressed bytes, on which the wear levelling's erase and write act as NOR flash does
-- where they succeed: an erase of whole sectors from a sector's start sets its range to 0xFF, and a write
-- clears bits in its range; both inside the volume, whose size an erase keeps.
pub record IsNor (W : Wl) (at : W.Vol → ℕ → ℕ) : Type 0 where
  pub erases :
      (a n : ℕ) (v : W.Vol) (i : ℕ)
      → a % W.sector_size v ≡ 0
      → n % W.sector_size v ≡ 0
      → a + n ≤ W.size v
      → i < W.size v
      → (W.erase_range a n v).0 ≡ pos 0
      → at (W.erase_range a n v).1 i ≡ (if leb a i && ltb i (a + n) then 255 else at v i)
  pub writes :
      (a : ℕ) (src : List ℕ) (v : W.Vol) (i : ℕ)
      → a + length src ≤ W.size v
      → i < W.size v
      → (W.write a src v).0 ≡ pos 0
      → at (W.write a src v).1 i ≡ (
          if leb a i && ltb i (a + length src)
          then bit_and (at v i) (get_or src (i - a) 255)
          else at v i)
  pub sized : (a n : ℕ) (v : W.Vol) → W.size (W.erase_range a n v).1 ≡ W.size v

module _ (W : Wl) (at : W.Vol → ℕ → ℕ) (N : IsNor W at) where
  -- A write that succeeds is an erase that succeeds and then a write that does.
  both :
      (sector count : ℕ) (buff : List ℕ) (v : W.Vol)
      → (disk_write W sector count buff v).0 ≡ res_ok
      → let a = start W sector v in
        let n = span W count v in
        let (rc, v₁) = W.erase_range a n v in
        let (rc', v₂) = W.write a (take n buff) v₁ in
        (rc ≡ pos 0) × (rc' ≡ pos 0) × ((disk_write W sector count buff v).1 ≡ v₂)
  unfolding disk_write
  both sector count buff v ok = ground arith

  start_lem :
      (sector : ℕ) (v : W.Vol)
      → sector * W.sector_size v < 2 ^ 32
      → start W sector v ≡ sector * W.sector_size v
  unfolding start
  start_lem sector v h = omega arith

  span_lem :
      (count : ℕ) (v : W.Vol)
      → count * W.sector_size v < 2 ^ 32
      → span W count v ≡ count * W.sector_size v
  unfolding span
  span_lem count v h = omega arith

  both_at :
      (sector count a n : ℕ) (buff : List ℕ) (v : W.Vol)
      → start W sector v ≡ a
      → span W count v ≡ n
      → (disk_write W sector count buff v).0 ≡ res_ok
      → let (rc, v₁) = W.erase_range a n v in
        let (rc', v₂) = W.write a (take n buff) v₁ in
        (rc ≡ pos 0) × (rc' ≡ pos 0) × ((disk_write W sector count buff v).1 ≡ v₂)
  both_at sector count a n buff v p q ok = rw (← p, ← q) (both sector count buff v ok)

  -- A write of sectors inside a volume of less than 2^32 bytes, from a buffer of just their bytes, that
  -- answers RES_OK has made every byte of those sectors the byte given, whatever was there, and changed no
  -- other byte of the volume.
  pub disk_write_lem :
      (sector count : ℕ) (buff : List ℕ) (v : W.Vol) (i : ℕ)
      → (sector + count) * W.sector_size v ≤ W.size v
      → W.size v < 2 ^ 32
      → count * W.sector_size v ≡ length buff
      → IsBytes buff
      → i < W.size v
      → (disk_write W sector count buff v).0 ≡ res_ok
      → let first = sector * W.sector_size v in
        at (disk_write W sector count buff v).1 i ≡ (
          if leb first i && ltb i (first + length buff)
          then get_or buff (i - first) 255
          else at v i)
  disk_write_lem sector count buff v i inside small e bytes below ok =
      let ss = W.sector_size v in
      let a = sector * ss in
      let n = length buff in
      let both_fit : a + n ≤ W.size v = omega (arith, inside, e) in
      let b =
        both_at sector count a n buff v (start_lem sector v (omega arith))
          (span_lem count v (omega (arith, e)) ∙ e) ok in
      let whole : take n buff ≡ buff = take-all n buff (omega arith) in
      let aligned : n % ss ≡ 0 = rw (← e) (mul-mod_left count ss) in
      let erased = N.erases a n v i (mul-mod_left sector ss) aligned both_fit below b.0 in
      let v₁ = (W.erase_range a n v).1 in
      let written : (W.write a buff v₁).0 ≡ pos 0 =
        ap (λ xs. (W.write a xs v₁).0) (sym whole) ∙ b.1 in
      rw (b.2, whole)
        (N.writes a buff v₁ i (rw (N.sized a n v) both_fit) (rw (N.sized a n v) below) written
          ∙ ground (
            arith,
            erased,
            get_or_default buff (i - a) 0 255,
            bytes (i - a),
            bit_and_ones (get_or buff (i - a) 255),
          ))
