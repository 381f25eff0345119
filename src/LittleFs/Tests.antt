-- ===== src/LittleFs/Tests.antt =====
-- Runs of bindings/littlefs/shim.c over a core of one file, which hands over two bytes at most in a read.
use flash_vis.Common.{
  ℕ, true, false, List, [], ◌∷◌, ◌++◌, length, replicate, take, drop, min, some, pos, negsuc, ◌≡◌,
  refl, arith,
}
use flash_vis.Nor.{Nor, esp32s3, no_stats}
use flash_vis.Nor.Laws.{byte}
use flash_vis.Abi.Backend.{ret, run}
use flash_vis.Abi.Fill.{IsReader}
use flash_vis.LittleFs.{Core, Shim, Info, call, be_erase, be_prog}
use flash_vis.LittleFs.Files.{read_step, read_call, open_call, ff_read}
use flash_vis.LittleFs.Dirs.{child_path, same_text}
use flash_vis.LittleFs.Blocks.{be_erase_lem, be_prog_lem}
use flash_vis.LittleFs.Fill.{ff_read_lem}

abbrev two : List ℕ → List ℕ → ℕ
two held buf = min 2 (min (length buf) (length held))

abbrev nothing : Info
nothing = record { name = []; type = 0; size = 0 }

abbrev pub toy : Core
toy = record {
  Lfs = List ℕ;
  File = List ℕ;
  Dir = ℕ;
  blank_file = [];
  blank_dir = 0;
  ok = pos 0;
  err_io = negsuc 4;
  err_inval = negsuc 21;
  err_nomem = negsuc 11;
  err_noent = negsuc 1;
  err_exist = negsuc 16;
  o_rdonly = 1;
  o_wronly = 2;
  o_creat = 256;
  o_trunc = 1024;
  o_append = 2048;
  type_reg = 1;
  type_dir = 2;
  name_max = 255;
  format = λ l cfg. ret (pos 0, l);
  mount = λ l cfg. ret (pos 0, l);
  unmount = λ l. ret l;
  open_file = λ l f name flags. ret (pos 0, l, l);
  read = λ l f buf.
      ret (pos (two f buf), take (two f buf) f ++ drop (two f buf) buf, drop (two f buf) f, l);
  write = λ l f src. ret (pos (length src), f, src);
  seek = λ l f off whence. ret (pos 0, l, l);
  file_size = λ l f. ret (pos (length l), l);
  close = λ l f. ret (pos 0, f, l);
  remove = λ l name. ret (pos 0, []);
  stat = λ l name. ret (pos 0, nothing, l);
  mkdir = λ l name. ret (pos 0, l);
  dir_open = λ l d path. ret (pos 0, d, l);
  dir_read = λ l d. ret (pos 0, nothing, d, l);
  dir_close = λ l d. ret (d, l);
}

abbrev chip : Nor
chip = record {
  flash = 1 ∷ 2 ∷ 3 ∷ 4 ∷ 5 ∷ 6 ∷ 7 ∷ 8 ∷ [];
  wear = 0 ∷ 0 ∷ [];
  stats = no_stats;
  events = [];
  sector_size = 4;
  sector_count = 2;
  timing = esp32s3;
}

abbrev pub shim : Shim toy
shim = record {
  nor = chip;
  quiet = false;
  lfs = 10 ∷ 20 ∷ 30 ∷ 40 ∷ 50 ∷ [];
  cfg = record {
    read_size = 128;
    prog_size = 128;
    block_size = 4;
    block_count = 2;
    block_cycles = 512;
    cache_size = 512;
    lookahead_size = 128;
  };
  mounted = true;
  sector_size = 4;
  sector_count = 2;
  program_granule = 1;
  files = replicate 8 [];
  file_used = replicate 8 false;
  file_names = replicate 8 [];
  dirs = replicate 4 0;
  dir_used = replicate 4 false;
}

-- No second slash behind the root.
child_of_root : child_path (b'/' ∷ []) (b'a' ∷ []) ≡ b'/' ∷ b'a' ∷ []
unfolding child_path same_text
child_of_root = refl

be_erase_lem_example : byte (be_erase toy 4 1 chip).1 2 ≡ 3
be_erase_lem_example = be_erase_lem toy chip 1 2 (omega arith) (omega arith)

be_prog_lem_example : byte (be_prog toy 4 (1, 1) (0 ∷ 0 ∷ []) chip).1 3 ≡ 4
be_prog_lem_example =
    be_prog_lem toy chip 4 1 1 (0 ∷ 0 ∷ []) 3 (omega arith) (omega arith) (omega arith)
      (omega arith) refl

toy-IsReader : IsReader (read_step toy) (λ fs. fs.0)
unfolding read_step read_call call run
toy-IsReader = record {
  count = λ fs buf. two fs.0 buf;
  reports = λ fs buf h. refl;
  stores = λ fs buf h. refl;
  advances = λ fs buf h. refl;
  fits = λ fs buf. omega arith;
  no_more = λ fs buf. omega arith;
  progress = λ fs buf h l. omega arith;
}

ff_read_lem_example :
    ((ff_read toy (b'f' ∷ []) (replicate 3 0) shim).0 ≡ some (pos 3))
    × ((ff_read toy (b'f' ∷ []) (replicate 3 0) shim).1 ≡ 10 ∷ 20 ∷ 30 ∷ [])
unfolding open_call call run
ff_read_lem_example =
    ff_read_lem toy (λ fs. fs.0) toy-IsReader (b'f' ∷ []) (replicate 3 0) shim refl (omega arith)
