-- ===== src/Fastffs/Tests.antt =====
-- Runs of bindings/fastffs/shim.c over a core of one file, which hands over three bytes at most in a
-- read and knows nothing of the directory.
use flash_vis.Common.{
  ℕ, true, false, List, [], ◌∷◌, ◌++◌, length, replicate, get_or, set, take, drop, min, none, some,
  ℤ, pos, negsuc, ◌==◌, ◌≡◌, refl, arith, overlay, ap, ◌∙◌,
}
use flash_vis.Nor
use flash_vis.Abi.Pool.{bad_handle, first_free}
use flash_vis.Nor.{Nor, esp32s3, no_stats}
use flash_vis.Abi.Backend.{ret, read, run, ReadsOnly, returns, reads}
use flash_vis.Abi.Fill.{IsReader}
use flash_vis.Fastffs.{Core, Shim, Stat, call, callbacks}
use flash_vis.Fastffs.Files.{
  read_step, read_call, open_flags, open_slot, open_call, file_at, ff_file_read, ff_file_write,
  ff_file_seek, ff_file_stat, ff_file_close, ff_open,
}
use flash_vis.Fastffs.Inspect.{ff_live_map, ff_sector_classes}
use flash_vis.Fastffs.Opening.{IsValid, Opening, ff_open-Opening}
use flash_vis.Fastffs.Pools.{IsOpen, OnlySlot, bad_file_refused, close_twice, handle_isolated}
use flash_vis.Fastffs.Fill.{ff_file_read_lem}
use flash_vis.Abi.Blank.{blank_from}
use flash_vis.Fastffs.Quiet.{ff_live_map_quiet, ff_sector_classes_lem}

abbrev three : List ℕ → List ℕ → ℕ
three held buf = min 3 (min (length buf) (length held))

abbrev nothing : Stat
nothing = record { name = []; size = 0 }

abbrev toy : Core
toy = record {
  Fs = List ℕ;
  File = List ℕ;
  Dir = ℕ;
  blank_file = [];
  blank_dir = 0;
  ok = pos 0;
  err_io = negsuc 4;
  err_invalid = negsuc 21;
  err_nomem = negsuc 11;
  err_not_found = negsuc 1;
  o_rdonly = 1;
  o_wronly = 2;
  o_create = 4;
  o_trunc = 8;
  default_index_sectors = 1;
  index_cache_bytes = λ n. n;
  index_hash_table_size = 1;
  gc_idle = pos 0;
  footer_size = 2;
  type_file = 1;
  bits_mixed = 1;
  bits_cleared = 0;
  index_sectors = λ fs. 1;
  decode_footer = λ bytes. record {
    magic_valid = get_or bytes 0 0 == 0x5A;
    type = 1;
    valid_bits = get_or bytes 1 0;
    tombstone_bits = 3;
  };
  lifecycle_is_live = λ v t. v == 0;
  format = λ be o. ret (pos 0);
  mount = λ fs be o. ret (pos 0, fs);
  unmount = λ fs. ret fs;
  open_file = λ fs f name flags. ret (pos 0, fs, fs);
  read = λ fs f buf. ret (
    pos 0,
    three f buf,
    take (three f buf) f ++ drop (three f buf) buf,
    drop (three f buf) f,
    fs,
  );
  write = λ fs f src. ret (pos 0, f, src);
  seek = λ fs f off whence. ret (pos 0, 0, fs, fs);
  fstat = λ fs f. ret (pos 0, nothing, fs);
  close = λ fs f. ret (pos 0, f, fs);
  delete_file = λ fs name. ret (pos 0, []);
  exists = λ fs name. ret (pos 0, true, fs);
  stat = λ fs name. ret (pos 0, nothing, fs);
  dir_open = λ fs d prefix. ret (pos 0, d, fs);
  dir_read = λ fs d. ret (false, nothing, d, fs);
  dir_status = λ d. pos 0;
  dir_close = λ fs d. ret (d, fs);
  gc_step = λ fs action. ret (pos 0, action, fs);
  fsinfo = λ fs. ret (pos 0, 1, length fs, fs);
  inspect_live_map = λ be out pages page_size.
      read 0 (replicate 2 0) λ rc got. ret (rc, set out 0 (get_or got 1 9));
}

abbrev shim : Shim toy
shim = record {
  nor = record {
    flash = 255 ∷ 255 ∷ 7 ∷ 255 ∷ 255 ∷ 255 ∷ 255 ∷ 255 ∷ 1 ∷ 2 ∷ 0x5A ∷ 0 ∷ [];
    wear = 0 ∷ 0 ∷ 0 ∷ [];
    stats = no_stats;
    events = [];
    sector_size = 4;
    sector_count = 3;
    timing = esp32s3;
  };
  quiet = false;
  fs = 10 ∷ 20 ∷ 30 ∷ 40 ∷ 50 ∷ [];
  be = record { size = 12; read_granule = 1; program_granule = 1 };
  mounted = true;
  sector_size = 4;
  sector_count = 3;
  program_granule = 1;
  files = (10 ∷ 20 ∷ 30 ∷ 40 ∷ 50 ∷ []) ∷ replicate 7 [];
  file_used = true ∷ replicate 7 false;
  dirs = replicate 4 0;
  dir_used = replicate 4 false;
}

shim-IsValid : IsValid toy shim
shim-IsValid = record {
  files_size = refl;
  file_used_size = refl;
  dirs_size = refl;
  dir_used_size = refl;
}

ff_open-Opening_example :
    Opening toy (b'f' ∷ []) (pos 1) shim (ff_open toy (b'f' ∷ []) (pos 1) shim)
ff_open-Opening_example = ff_open-Opening toy (b'f' ∷ []) (pos 1) shim shim-IsValid

second_slot : (ff_open toy (b'f' ∷ []) (pos 0) shim).0 ≡ pos 1
unfolding ff_open open_flags first_free open_slot open_call call run
second_slot = refl

third_shut : ¬ IsOpen toy (pos 3) shim
third_shut (k, e, l, u) =
    let three : 3 ≡ k = ground arith in
    let clash : false ≡ true = ap (λ i. get_or shim.file_used i false) three ∙ u in
    absurd (ground (arith, clash))

bad_file_refused_example :
    ((out : List ℕ) → ff_file_read toy (pos 3) out shim ≡ (some (negsuc 21), out, shim))
    × ((src : List ℕ) → ff_file_write toy (pos 3) src shim ≡ (negsuc 21, shim))
    × ((off whence : ℤ) → ff_file_seek toy (pos 3) off whence shim ≡ (negsuc 21, shim))
    × ((room : ℕ) (out : List ℕ) → ff_file_stat toy (pos 3) room out shim ≡ (negsuc 21, out, shim))
    × (ff_file_close toy (pos 3) shim ≡ (negsuc 21, shim))
bad_file_refused_example = bad_file_refused toy (pos 3) shim third_shut

close_twice_example :
    let s' = (ff_file_close toy (pos 0) shim).1 in
    (s'.file_used ≡ replicate 8 false) × (ff_file_close toy (pos 0) s' ≡ (negsuc 21, s'))
unfolding bad_handle
close_twice_example = close_twice toy (pos 0) shim shim-IsValid refl

handle_isolated_example :
    ((out : List ℕ) → OnlySlot toy (pos 0) shim (ff_file_read toy (pos 0) out shim).2)
    × ((src : List ℕ) → OnlySlot toy (pos 0) shim (ff_file_write toy (pos 0) src shim).1)
    × ((off whence : ℤ) → OnlySlot toy (pos 0) shim (ff_file_seek toy (pos 0) off whence shim).1)
    × ((room : ℕ) (out : List ℕ)
        → OnlySlot toy (pos 0) shim (ff_file_stat toy (pos 0) room out shim).2)
handle_isolated_example = handle_isolated toy (pos 0) shim

-- The open file as a stream: what is left of it.
toy-IsReader : IsReader (read_step toy) (λ fs. fs.0)
unfolding read_step read_call call run
toy-IsReader = record {
  count = λ fs buf. three fs.0 buf;
  reports = λ fs buf h. refl;
  stores = λ fs buf h. refl;
  advances = λ fs buf h. refl;
  fits = λ fs buf. omega arith;
  no_more = λ fs buf. omega arith;
  progress = λ fs buf h l. omega arith;
}

ff_file_read_lem_example :
    ((ff_file_read toy (pos 0) (replicate 4 0) shim).0 ≡ some (pos 4))
    × ((ff_file_read toy (pos 0) (replicate 4 0) shim).1 ≡ 10 ∷ 20 ∷ 30 ∷ 40 ∷ [])
unfolding bad_handle file_at
ff_file_read_lem_example =
    ff_file_read_lem toy (λ fs. fs.0) toy-IsReader (pos 0) (replicate 4 0) shim refl (omega arith)

live_map-ReadsOnly : ReadsOnly (toy.inspect_live_map shim.be (replicate 3 0) 3 4)
live_map-ReadsOnly =
    reads 0 (replicate 2 0) _ λ rc got. returns (rc, set (replicate 3 0) 0 (get_or got 1 9))

ff_live_map_quiet_example :
    let r =
      (run (callbacks toy true) (toy.inspect_live_map shim.be (replicate 3 0) 3 4) shim.nor).0 in
    ff_live_map toy (replicate 3 0) 4 shim ≡ some (r.0, r.1, record shim { quiet = false })
ff_live_map_quiet_example =
    ff_live_map_quiet toy (replicate 3 0) 4 shim refl (λ e. omega arith) live_map-ReadsOnly

-- Without a guard, a page size of 0 is a trap.
zero_page_size : ff_live_map toy [] 0 shim ≡ none
unfolding ff_live_map
zero_page_size = refl

classes : ff_sector_classes toy (replicate 3 9) shim ≡ (pos 0, 3 ∷ 0 ∷ 1 ∷ [])
unfolding ff_sector_classes Nor.read_quiet overlay
classes = refl

ff_sector_classes_lem_example :
    ((ff_sector_classes toy (replicate 3 9) shim).0 ≡ pos 0)
    × (get_or (ff_sector_classes toy (replicate 3 9) shim).1 2 0 ≡ 1)
unfolding blank_from
ff_sector_classes_lem_example =
    ff_sector_classes_lem toy (replicate 3 9) shim 2 refl (omega arith) (omega arith) (omega arith)
      (omega arith)
