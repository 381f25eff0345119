-- ===== src/Spiffs/Tests.antt =====
-- Runs of bindings/spiffs over a core whose directory is the list of its entries, on a chip of two
-- blocks with one lookup page and three data pages of four bytes each.
use flash_vis.Common.{
  ℕ, ◌+◌, ◌*◌, ◌%◌, ◌^◌, ◌≤◌, ◌<◌, true, false, List, [], ◌∷◌, length, replicate, get_or, none,
  some, pos, negsuc, if◌then◌else◌, ◌≡◌, refl, ap, arith, Option,
}
use flash_vis.Nor.{esp32s3, no_stats}
use flash_vis.Abi.Backend.{ret, run}
use flash_vis.Abi.Pool.{bad_handle}
use flash_vis.Spiffs.{Core, Shim, Dirent, Stat, call}
use flash_vis.Spiffs.Dirs.{
  readdir_call, opendir_call, is_file, ff_dir_read, ff_committed_files, ff_committed_bytes,
}
use flash_vis.Spiffs.Walk.{
  IsStream, Found, kept, wanted, same_bytes, total_size, committed_walk-kept, ff_dir_read-kept,
}
use flash_vis.Abi.Blank.{blank_from}
use flash_vis.Spiffs.Inspect.{ff_live_map, cls_erased, cls_meta}
use flash_vis.Spiffs.Inspect.Blocks.{IsLaid}
use flash_vis.Spiffs.Inspect.Laws.{ff_live_map-entry_class}

abbrev file_entry : ℕ → ℕ → Dirent
file_entry c size = record { name = c ∷ b'1' ∷ []; type = 1; size = size }

abbrev folder : Dirent
folder = record { name = b'd' ∷ []; type = 2; size = 0 }

abbrev entries : List Dirent
entries = file_entry b'a' 10 ∷ folder ∷ file_entry b'b' 4294967295 ∷ []

abbrev step_of : List Dirent → Option Dirent × List Dirent
step_of es = elim es [ [] ↦ (none, []) | e ∷ rest ↦ (some e, rest) ]

abbrev nothing : Stat
nothing = record { name = []; size = 0 }

abbrev toy : Core
toy = record {
  Fs = ℕ;
  Dir = List Dirent;
  blank_dir = [];
  ok = pos 0;
  err_internal = negsuc 0;
  err_not_writable = negsuc 1;
  err_out_of_file_descs = negsuc 2;
  err_bad_descriptor = negsuc 3;
  err_not_found = negsuc 4;
  err_not_mounted = negsuc 5;
  err_end_of_object = negsuc 6;
  err_no_deleted_blocks = negsuc 7;
  o_rdonly = 1;
  o_wronly = 2;
  o_creat = 4;
  o_trunc = 8;
  o_append = 16;
  type_file = 1;
  obj_id_free = 0xFFFF;
  obj_id_deleted = 0;
  obj_id_ix_flag = 0x8000;
  cfg_log_page_size = λ fs. 8;
  pages_per_block = λ fs. 4;
  lookup_pages = λ fs. 1;
  lookup_max_entries = λ fs. 3;
  block_to_paddr = λ fs block. block * 32;
  block_count = λ fs. 2;
  errno = λ fs. pos 0;
  mount = λ fs cfg. ret (pos 0, fs);
  unmount = λ fs. ret fs;
  format = λ fs. ret (pos 0, fs);
  open_file = λ fs name flags. ret (pos 1, fs);
  close = λ fs fh. ret (pos 0, fs);
  read = λ fs fh buf. ret (pos 0, buf, fs);
  write = λ fs fh src. ret (pos 0, fs);
  lseek = λ fs fh off whence. ret (pos 0, fs);
  fstat = λ fs fh. ret (pos 0, nothing, fs);
  remove = λ fs name. ret (pos 0, fs);
  stat = λ fs name. ret (pos 0, nothing, fs);
  opendir = λ fs d. ret (true, entries, fs);
  readdir = λ fs d. ret ((step_of d).0, (step_of d).1, fs);
  closedir = λ fs d. ret (d, fs);
  gc_quick = λ fs n. ret (pos 0, fs);
}

-- The table of block 0 has a deleted, a live and an index entry; block 1 is erased.
abbrev shim : Shim toy
shim = record {
  nor = record {
    flash = 0 ∷ 0 ∷ 7 ∷ 0 ∷ 1 ∷ 0x80 ∷ replicate 58 255;
    wear = 0 ∷ 0 ∷ [];
    stats = no_stats;
    events = [];
    sector_size = 32;
    sector_count = 2;
    timing = esp32s3;
  };
  quiet = false;
  fs = 0;
  cfg = record {
    phys_size = 64;
    phys_addr = 0;
    phys_erase_block = 32;
    log_block_size = 32;
    log_page_size = 8;
  };
  mounted = true;
  sector_size = 32;
  sector_count = 2;
  files = replicate 8 (pos 0);
  file_used = replicate 8 false;
  dirs = entries ∷ replicate 3 [];
  dir_used = true ∷ replicate 3 false;
  dir_prefix = (b'b' ∷ []) ∷ replicate 3 [];
}

toy-IsStream : IsStream toy (λ ds. ds.0)
unfolding readdir_call call run
toy-IsStream = record {
  ends = λ ds z. ap (λ (es : List Dirent). (step_of es).0) z;
  gives = λ ds e es z.
      (ap (λ (xs : List Dirent). (step_of xs).0) z, ap (λ (xs : List Dirent). (step_of xs).1) z);
}

committed_walk-kept_example :
    ((ff_committed_files toy 4 shim).0 ≡ some (length (kept (is_file toy) entries) % 2 ^ 32))
    × ((ff_committed_bytes toy 4 shim).0 ≡ some (total_size (kept (is_file toy) entries) % 2 ^ 32))
    × ((ff_committed_files toy 4 shim).1.quiet ≡ false)
unfolding opendir_call call run
committed_walk-kept_example =
    committed_walk-kept toy (λ ds. ds.0) toy-IsStream 4 shim refl refl (omega arith)

-- The prefix "b" skips the first file.
ff_dir_read-kept_example :
    Found toy
      (λ ds. ds.0)
      toy-IsStream
      4
      (pos 0)
      (wanted toy (b'b' ∷ []))
      (file_entry b'b' 4294967295 ∷ [])
      (replicate 4 0)
      (ff_dir_read toy 4 (pos 0) 4 (replicate 4 0) shim)
unfolding bad_handle kept wanted same_bytes
ff_dir_read-kept_example =
    ff_dir_read-kept toy (λ ds. ds.0) toy-IsStream 4 (pos 0) 4 (replicate 4 0) shim refl
      (omega arith)

shim-IsLaid : IsLaid toy shim (replicate 8 0)
shim-IsLaid = record {
  pages_fit = omega arith;
  entries_fit = omega arith;
  table_fits = omega arith;
  on_chip = λ block b. omega arith;
}

-- Page 3 of block 0 is classed by the entry 0x8001.
ff_live_map-entry_class_example :
    let (rc, map, s') = ff_live_map toy (replicate 8 0) (replicate 8 9) 8 shim in
    (rc ≡ pos 0)
    × (s' ≡ shim)
    × (3 < 1
        → get_or map 3 0
          ≡ (if blank_from 8 (0 + 3 * 8) shim.nor.flash then cls_erased else cls_meta))
    × (1 ≤ 3 → 3 < 1 + 3 → get_or map 3 0 ≡ 1)
ff_live_map-entry_class_example =
    ff_live_map-entry_class toy (replicate 8 0) (replicate 8 9) 8 shim refl (omega arith) refl
      (omega arith) shim-IsLaid 0 3 (omega arith) (omega arith)
