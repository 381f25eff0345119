-- ===== src/FatFs/Inspect/Boot.antt =====
-- bindings/fatfs/fat_inspect.cpp: the boot record, and the steps of ff_live_map that mark what it says is
-- fixed.
use flash_vis.Common.{
  ℕ, zero, suc, ◌+◌, ◌-◌, ◌*◌, ◌/◌, ◌%◌, ◌^◌, min, Bool, not, ◌&&◌, ◌||◌, List, get_or, replicate,
  if◌then◌else◌, ◌==◌, ltb,
}
use flash_vis.FatFs.Inspect.{Scan, pg_free, rd16, rd32, mark_region, mark_allocated}

-- The boot record.
pub record Bpb : Type 0 where
  pub byts_per_sec : ℕ
  pub sec_per_clus : ℕ
  pub rsvd : ℕ
  pub num_fats : ℕ
  pub root_ent : ℕ
  pub tot_sec : ℕ
  pub fatsz16 : ℕ

unfoldable pub bpb_of : List ℕ → Bpb
bpb_of sec = record {
  byts_per_sec = rd16 sec 11;
  sec_per_clus = get_or sec 13 0;
  rsvd = rd16 sec 14;
  num_fats = get_or sec 16 0;
  root_ent = rd16 sec 17;
  tot_sec = (let tot16 = rd16 sec 19 in if tot16 == 0 then rd32 sec 32 else tot16);
  fatsz16 = rd16 sec 22;
}

-- The signature, and the geometry that the hook knows.
unfoldable pub is_known : ℕ → List ℕ → Bool
unfolding bpb_of
is_known ss sec =
    let b = bpb_of sec in
    get_or sec 510 0 == 0x55
    && get_or sec 511 0 == 0xAA
    && b.byts_per_sec == ss
    && b.sec_per_clus == 1
    && not (b.num_fats == 0)
    && not (b.fatsz16 == 0)

unfoldable pub root_start : Bpb → ℕ
root_start b = b.rsvd + b.num_fats * b.fatsz16

unfoldable pub root_secs : ℕ → Bpb → ℕ
root_secs ss b = (b.root_ent * 32 + ss - 1) / ss

-- The context behind the boot record, with the FAT not read yet.
unfoldable pub scan_of : ℕ → ℕ → ℕ → List ℕ → List ℕ → Scan
unfolding root_start root_secs
scan_of ss page_size nlog sec fat =
    let b = bpb_of sec in
    let data_start = root_start b + root_secs ss b in
    record {
      sec = sec;
      fat = fat;
      logpg = replicate 4096 pg_free;
      ss = ss;
      pgsz = page_size;
      nlog = nlog;
      fat_len = min (b.fatsz16 * ss) 4096;
      data_start = data_start;
      nclusters = (if ltb data_start b.tot_sec then b.tot_sec - data_start else 0);
    }

-- `for (f = ...; f < num_fats; f++) mark_region(...)` from `f`, for `n` rounds.
unfoldable pub mark_fats : ℕ → ℕ → ℕ → Bpb → Scan → Scan
mark_fats zero f fat_used b w = w
mark_fats (suc n) f fat_used b w =
    mark_fats n (suc f) fat_used b
      (mark_region ((b.rsvd + f * b.fatsz16) * w.ss % 2 ^ 32) fat_used (b.fatsz16 * w.ss) w)

-- Steps 2 and 3 from the FAT on: allocated clusters, the boot record and the FAT copies.
unfoldable pub mark_fixed : Bpb → Scan → Scan
mark_fixed b w =
    let w₁ = mark_allocated ((w.nclusters + 2) % 2 ^ 32 - 2) 2 w in
    let w₂ = mark_region 0 512 (b.rsvd * w.ss) w₁ in
    mark_fats b.num_fats 0 (((w.nclusters + 2) * 3 + 1) % 2 ^ 32 / 2) b w₂

-- `for (t = ...; t < root_secs; t++) mark_region((root_start + t) * ss, 0, ss);` for the `n` sectors left.
unfoldable pub mark_past : ℕ → ℕ → Scan → Scan
mark_past zero sector w = w
mark_past (suc n) sector w =
    mark_past n (suc sector) (mark_region (sector * w.ss % 2 ^ 32) 0 w.ss w)

-- The checks before the walk.
unfoldable pub refuses : ℕ → ℕ → ℕ → Bool
refuses ss page_size nlog =
    ss == 0
    || page_size == 0
    || not (ss % page_size == 0)
    || ltb 4096 ss
    || ltb 256 nlog
    || ltb 256 (nlog + 4)
    || ltb 4096 (nlog * (ss / page_size))
