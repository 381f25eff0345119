-- ===== src/FatFs/Tests.antt =====
-- Runs of bindings/fatfs/diskio.c over a volume of four-byte sectors that is a function from addresses.
use flash_vis.Common.{
  ℕ, zero, suc, ◌+◌, ◌-◌, bit_and, ◌&&◌, List, [], ◌∷◌, length, get_or, some, pos, ltb, leb,
  if◌then◌else◌, ◌≡◌, refl, arith, IsBytes,
}
use flash_vis.FatFs.{Wl}
use flash_vis.FatFs.Disk.{res_ok, disk_write, disk_ioctl, get_sector_count, span, start}
use flash_vis.FatFs.Disk.Laws.{IsNor, disk_write_lem}

abbrev erased_at : ℕ → ℕ → (ℕ → ℕ) → ℕ → ℕ
erased_at a n v i = if leb a i && ltb i (a + n) then 255 else v i

abbrev written_at : ℕ → List ℕ → (ℕ → ℕ) → ℕ → ℕ
written_at a src v i =
    if leb a i && ltb i (a + length src) then bit_and (v i) (get_or src (i - a) 255) else v i

abbrev toy : Wl
toy = record {
  Vol = ℕ → ℕ;
  config = λ size count v. v;
  up = λ v. (pos 0, v);
  sector_size = λ v. 4;
  size = λ v. 32;
  read = λ a buf v. (pos 0, v a ∷ [], v);
  write = λ a src v. (pos 0, written_at a src v);
  erase_range = λ a n v. (pos 0, erased_at a n v);
  set_quiet = λ q v. v;
}

toy-IsNor : IsNor toy (λ v i. v i)
toy-IsNor = record {
  erases = λ a n v i p q f l h. refl;
  writes = λ a src v i f l h. refl;
  sized = λ a n v. refl;
}

abbrev sector_bytes : List ℕ
sector_bytes = 1 ∷ 2 ∷ 3 ∷ 4 ∷ []

sector_bytes-IsBytes : IsBytes sector_bytes
sector_bytes-IsBytes zero h = omega arith
sector_bytes-IsBytes (suc zero) h = omega arith
sector_bytes-IsBytes (suc (suc zero)) h = omega arith
sector_bytes-IsBytes (suc (suc (suc zero))) h = omega arith
sector_bytes-IsBytes (suc (suc (suc (suc i)))) h = absurd (omega arith)

eight_sectors : disk_ioctl toy get_sector_count (λ i. 0) ≡ (res_ok, some 8)
unfolding disk_ioctl
eight_sectors = refl

-- The third byte of sector 2, over a volume of zeros.
disk_write_lem_example : (disk_write toy 2 1 sector_bytes (λ i. 0)).1 10 ≡ 3
unfolding disk_write span start
disk_write_lem_example =
    disk_write_lem toy (λ v i. v i) toy-IsNor 2 1 sector_bytes (λ i. 0) 10 (omega arith)
      (omega arith) refl sector_bytes-IsBytes (omega arith) refl
