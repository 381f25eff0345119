-- ===== src/JesFs/Shim/Tests.antt =====
-- Runs of bindings/jesfs/shim.c and jesfs_inspect.c over a core whose index has three entries, the
-- second of them deleted, and whose files are read through a position and a length.
use flash_vis.Common.{
  ℕ, ◌+◌, ◌-◌, ◌/◌, ◌^◌, ◌≤◌, ◌<◌, true, false, [], ◌∷◌, replicate, get_or, ℤ, pos, negsuc, ltb,
  leb, ◌==◌, if◌then◌else◌, ◌≡◌, refl, arith, ◌+ℤ◌,
}
use flash_vis.Nor.{Nor, esp32s3, no_stats}
use flash_vis.Abi.Pool.{bad_handle}
use flash_vis.JesFs.{sample_consts}
use flash_vis.JesFs.Spi.{idle}
use flash_vis.JesFs.Io.{ret, run}
use flash_vis.JesFs.Shim.{Core, Shim, Stat, call, density_of, ff_config}
use flash_vis.JesFs.Shim.Files.{desc_at, skip_call, rewind_call, seek_base, ff_file_seek}
use flash_vis.JesFs.Shim.Dirs.{ff_committed_files, ff_committed_bytes, ff_dir_read}
use flash_vis.JesFs.Shim.Geometry.{ff_config-density}
use flash_vis.JesFs.Shim.Seek.{IsSeekable, ff_file_seek_lem}
use flash_vis.JesFs.Shim.Walk.{
  IsIndex, Found, active_files, total_bytes, committed_walk_lem, ff_dir_read_lem,
}
use flash_vis.JesFs.Inspect.{ff_live_map}
use flash_vis.JesFs.Inspect.Laws.{class_at, Passes, ff_live_map_lem}

abbrev toy_stat : ℕ → Stat
toy_stat n = record { fname = (b'a' + n) ∷ []; file_len = if n == 2 then 0xFFFFFFFF else 100 + n }

-- An active file, a deleted one, an active one that is still open, and the end.
abbrev toy_code : ℕ → ℤ
toy_code n = if n == 1 then pos 2 else if leb 3 n then pos 8 else pos 1

abbrev toy : Core
toy = record {
  consts = sample_consts;
  Info = ℕ;
  Desc = ℕ × ℕ;
  blank_desc = (0, 0);
  file_pos = λ f. f.0;
  file_len = λ f. f.1;
  files_used = λ i. 3;
  fname_size = 21;
  start_normal = 0;
  format_soft = 2;
  open_create = 1;
  open_read = 4;
  open_write = 8;
  stat_index = pos 8;
  stat_active = 1;
  fs_start = λ m i. ret (pos 0, i);
  fs_format = λ m i. ret (pos 0, i);
  fs_deepsleep = λ i. ret i;
  fs_open = λ f name flags i. ret (pos 0, (0, 100), i);
  fs_read = λ f buf i. ret (pos 0, buf, f, i);
  fs_skip = λ f n i. ret (pos n, (f.0 + n, f.1), i);
  fs_write = λ f src i. ret (pos 0, f, i);
  fs_close = λ f i. ret (pos 0, f, i);
  fs_rewind = λ f i. ret (pos 0, (0, f.1), i);
  fs_delete = λ f i. ret (pos 0, f, i);
  fs_notexists = λ name i. ret (pos 0, i);
  fs_info = λ n i. ret (toy_code n, toy_stat n, i);
}

-- Four sectors of eight bytes: the header, a live file, a deleted one, and an erased sector.
abbrev chip : Nor
chip = record {
  flash =
      0
      ∷ 0
      ∷ 0
      ∷ 0
      ∷ 0
      ∷ 0
      ∷ 0
      ∷ 0
      ∷ 4
      ∷ 3
      ∷ 2
      ∷ 1
      ∷ 255
      ∷ 255
      ∷ 255
      ∷ 255
      ∷ 4
      ∷ 3
      ∷ 2
      ∷ 0
      ∷ 255
      ∷ 255
      ∷ 255
      ∷ 255
      ∷ replicate 8 255;
  wear = replicate 4 0;
  stats = no_stats;
  events = [];
  sector_size = 8;
  sector_count = 4;
  timing = esp32s3;
}

abbrev shim : Shim toy
shim = record {
  bus = record {
    ll = record { addr = 0; selected = false; state = idle; status = 0; powerdown = false };
    quiet = false;
    density = 0x12;
    nor = chip;
  };
  info = 0;
  sector_size = 8;
  sector_count = 4;
  mounted = true;
  files = (60, 100) ∷ replicate 7 (0, 0);
  file_used = true ∷ replicate 7 false;
  file_write = replicate 8 false;
  file_names = replicate 8 [];
  dir_used = true ∷ replicate 3 false;
  dir_cursor = 1 ∷ replicate 3 0;
}

-- 256 KiB have density 0x12.
density_256k : density_of sample_consts 4096 64 ≡ 0x12
unfolding density_of
density_256k = refl

ff_config-density_example :
    let (rc, s') = ff_config toy 4096 64 1 shim in
    let d = s'.bus.density in
    (rc ≡ pos 0)
    × (0x0D ≤ d)
    × (d ≤ 0x18)
    × (2 ^ 18 ≤ 2 ^ 0x18 → 2 ^ 18 ≤ 2 ^ d)
    × (0x0D < d → 2 ^ (d - 1) < 2 ^ 18)
ff_config-density_example = ff_config-density toy 4096 64 1 shim (omega arith) (omega arith)

toy-IsSeekable : IsSeekable toy (λ f. Unit {0})
unfolding rewind_call skip_call call run
toy-IsSeekable = record {
  rewinds = λ f s u. (refl, tt, refl, refl);
  skips = λ f n s u le. (refl, tt, refl, refl);
}

ff_file_seek_lem_example :
    let target = pos 60 +ℤ negsuc 19 in
    let (rc, s') = ff_file_seek toy (pos 0) (negsuc 19) (pos 1) shim in
    ((n : ℕ)
      → target ≡ pos n
      → n ≤ 100
      → (rc ≡ pos n)
        × (toy.file_pos (desc_at toy (pos 0) s') ≡ n)
        × (toy.file_len (desc_at toy (pos 0) s') ≡ 100)
        × Unit {0})
    × ((n : ℕ)
        → target ≡ pos n
        → 100 < n
        → ff_file_seek toy (pos 0) (negsuc 19) (pos 1) shim ≡ (negsuc 104, shim))
    × ((n : ℕ)
        → target ≡ negsuc n
        → ff_file_seek toy (pos 0) (negsuc 19) (pos 1) shim ≡ (negsuc 104, shim))
unfolding bad_handle seek_base desc_at
ff_file_seek_lem_example =
    ff_file_seek_lem toy (λ f. Unit {0}) toy-IsSeekable (pos 0) (negsuc 19) (pos 1) shim 60 refl
      (omega arith) tt refl (omega arith)

abbrev toy_answer : ℕ → ℤ × Stat
toy_answer n = (toy_code n, toy_stat n)

toy-IsIndex : IsIndex toy (λ s. Unit {0}) toy_answer 4
unfolding call run
toy-IsIndex = record {
  answers = λ i s u. (refl, refl);
  stays = λ i s u. tt;
  moves = λ h i s u. tt;
  limits = λ s u. refl;
}

-- Two active files, the second still open.
committed_walk_lem_example :
    (true ≡ true
      → ((ff_committed_files toy shim).0 ≡ 2)
        × ((ff_committed_bytes toy shim).0 ≡ 100)
        × ((ff_committed_files toy shim).1.bus.quiet ≡ false))
    × (true ≡ false
        → (ff_committed_files toy shim ≡ (0, shim)) × (ff_committed_bytes toy shim ≡ (0, shim)))
unfolding active_files total_bytes
committed_walk_lem_example = committed_walk_lem toy (λ s. Unit {0}) toy_answer 4 toy-IsIndex shim tt

-- The cursor stands on the deleted entry, so the third is read.
ff_dir_read_lem_example :
    Found toy
      (λ s. Unit {0})
      toy_answer
      4
      toy-IsIndex
      0
      4
      (toy_stat 2 ∷ [])
      (replicate 4 0)
      (ff_dir_read toy (pos 0) 4 (replicate 4 0) shim)
unfolding bad_handle active_files
ff_dir_read_lem_example =
    ff_dir_read_lem toy (λ s. Unit {0}) toy_answer 4 toy-IsIndex (pos 0) 4 (replicate 4 0) shim refl
      tt (omega arith)

ff_live_map_lem_example :
    (¬ Passes toy 4 shim → ff_live_map toy (replicate 9 7) 4 shim ≡ (negsuc 0, replicate 9 7))
    × (Passes toy 4 shim
        → ((ff_live_map toy (replicate 9 7) 4 shim).0 ≡ pos 0)
          × ((p : ℕ)
              → p < 9
              → get_or (ff_live_map toy (replicate 9 7) 4 shim).1 p 0
                ≡ (if ltb p 8 then class_at toy (p / 2) shim else get_or (replicate 9 7) p 0)))
ff_live_map_lem_example = ff_live_map_lem toy (replicate 9 7) 4 shim
