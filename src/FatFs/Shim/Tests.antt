-- ===== src/FatFs/Shim/Tests.antt =====
-- Runs of the directory functions of bindings/fatfs/shim.c over a tree of two directories and three files.
use flash_vis.Common.{
  ℕ, ◌<◌, true, false, List, [], ◌∷◌, length, replicate, get_or, Option, none, some, pos, ◌==◌,
  if◌then◌else◌, ◌≡◌, refl, arith, inl, inr, Bool-cases,
}
use flash_vis.Abi.Pool.{bad_handle}
use flash_vis.FatFs.{Wl}
use flash_vis.FatFs.Disk.{ret, run}
use flash_vis.FatFs.Shim.{Core, Shim, FilInfo, call}
use flash_vis.FatFs.Shim.Dirs.{
  root, no_name, opendir_call, readdir_call, closedir_call, is_dir, child_path, ff_dir_read,
  ff_committed_files, ff_committed_bytes, committed,
}
use flash_vis.FatFs.Shim.Tree.{IsTree, Contains, nothing, a_file, a_dir, rounds, committed-Contains}
use flash_vis.FatFs.Shim.Iterator.{Answers, next_file, ff_dir_read-next_file}

abbrev volume : Wl
volume = record {
  Vol = ℕ;
  config = λ size count v. v;
  up = λ v. (pos 0, v);
  sector_size = λ v. 4096;
  size = λ v. 0;
  read = λ a buf v. (pos 0, buf, v);
  write = λ a src v. (pos 0, v);
  erase_range = λ a n v. (pos 0, v);
  set_quiet = λ q v. v;
}

abbrev entry : ℕ → ℕ → ℕ → FilInfo
entry name size attrib = record { fname = name ∷ []; fsize = size; fattrib = attrib }

abbrev in_root : List FilInfo
in_root = entry b'd' 0 16 ∷ entry b'a' 5 32 ∷ entry b'b' 6 32 ∷ []

abbrev in_sub : List FilInfo
in_sub = entry b'c' 7 32 ∷ []

-- The root is the one path of three characters, and its subdirectory that of five.
abbrev listing : List ℕ → Option (List FilInfo)
listing path =
    if length path == 3 then some in_root else if length path == 5 then some in_sub else none

abbrev opened : List FilInfo → Option (List FilInfo) → ℕ × List FilInfo × ℕ
opened d none = (5, d, 0)
opened d (some es) = (0, es, 0)

abbrev handed : List FilInfo → ℕ × FilInfo × List FilInfo × ℕ
handed [] = (0, record { fname = []; fsize = 0; fattrib = 0 }, [], 0)
handed (e ∷ es) = (0, e, es, 0)

abbrev toy : Core
toy = record {
  Fs = ℕ;
  Fil = ℕ;
  Dir = List FilInfo;
  blank_fil = 0;
  blank_dir = [];
  fr_no_file = 4;
  fr_no_path = 5;
  fr_exist = 8;
  fa_read = 1;
  fa_write = 2;
  fa_create_always = 8;
  fa_open_append = 48;
  am_dir = 16;
  lfn_buf = 255;
  fm_any_sfd = 15;
  f_tell = λ f. f;
  f_size = λ f. f;
  f_mkfs = λ a b c d e fs. ret (0, fs);
  f_mount = λ fs. ret (0, fs);
  f_unmount = λ fs. ret fs;
  f_open = λ f name flags fs. ret (0, f, fs);
  f_read = λ f buf fs. ret (0, 0, buf, f, fs);
  f_write = λ f src fs. ret (0, 0, f, fs);
  f_lseek = λ f n fs. ret (0, f, fs);
  f_close = λ f fs. ret (0, f, fs);
  f_unlink = λ name fs. ret (0, fs);
  f_stat = λ name fs. ret (4, entry b'x' 0 0, fs);
  f_mkdir = λ name fs. ret (0, fs);
  f_opendir = λ d path fs. ret (opened d (listing path));
  f_readdir = λ d fs. ret (handed d);
  f_closedir = λ d fs. ret (d, fs);
}

abbrev shim : Shim volume toy
shim = record {
  vol = 0;
  fs = 0;
  mounted = true;
  wl_built = true;
  files = [];
  file_used = [];
  file_names = [];
  dirs = in_root ∷ [] ∷ [] ∷ [] ∷ [];
  dir_used = true ∷ false ∷ false ∷ false ∷ [];
}

-- What f_readdir hands over: the entries before the first with no name.
left : List FilInfo → List FilInfo
left [] = []
left (e ∷ es) = if no_name e then [] else e ∷ left es

whole : (path : List ℕ) (es : List FilInfo) → listing path ≡ some es → left es ≡ es
unfolding left no_name
whole path es h = elim (Bool-cases (length path == 3)) [
  | inl p ↦ let e : es ≡ in_root = ground (arith, p) in rw e refl
  | inr p ↦ elim (Bool-cases (length path == 5)) [
    | inl q ↦ let e : es ≡ in_sub = ground (arith, p, q) in rw e refl
    | inr q ↦ absurd (ground (arith, p, q))
  ]
]

toy-ends : (d : List FilInfo) → left d ≡ [] → ((handed d).0 ≡ 0) × (no_name (handed d).1 ≡ true)
unfolding no_name left
toy-ends [] e = (refl, refl)
toy-ends (x ∷ xs) e = elim (Bool-cases (no_name x)) [
  | inl h ↦ (refl, h)
  | inr h ↦ absurd (ground (arith, h))
]

toy-gives :
    (d : List FilInfo) (e : FilInfo) (es : List FilInfo)
    → left d ≡ e ∷ es
    → ((handed d).0 ≡ 0) × ((handed d).1 ≡ e) × (no_name e ≡ false) × (left (handed d).2 ≡ es)
unfolding left
toy-gives [] e es p = absurd (ground arith)
toy-gives (x ∷ xs) e es p = elim (Bool-cases (no_name x)) [
  | inl h ↦ absurd (ground (arith, h))
  | inr h ↦ let q : (x ≡ e) × (left xs ≡ es) = ground (arith, h) in (refl, q.0, rw (← q.0) h, q.1)
]

toy-opens :
    (d es : List FilInfo) (path : List ℕ)
    → listing path ≡ some es
    → ((opened d (listing path)).0 ≡ 0) × (left (opened d (listing path)).1 ≡ es)
toy-opens d es path p = rw p (refl, whole path es p)

abbrev Anything : Shim volume toy → Type 0
Anything s = Unit {0}

toy-IsTree : IsTree volume toy Anything listing left
unfolding opendir_call readdir_call closedir_call call run
toy-IsTree = record {
  opens = λ d path es s g h. let o = toy-opens d es path h in (o.0, o.1, tt);
  ends = λ d s g h. let e = toy-ends d h in (e.0, e.1, tt);
  gives = λ d e es s g h. let r = toy-gives d e es h in (r.0, r.1, r.2, r.3, tt);
  closes = λ d s g. tt;
  quiets = λ q s g. tt;
}

tree : Contains volume toy listing root in_root 3 18
unfolding is_dir child_path
tree = a_dir refl refl (a_file refl nothing) (a_file refl (a_file refl nothing))

tree-rounds : rounds volume toy tree < 4
unfolding tree rounds
tree-rounds = omega arith

committed-Contains_example :
    ((ff_committed_files volume toy 4 shim).0 ≡ some 3)
    × ((ff_committed_bytes volume toy 4 shim).0 ≡ some 18)
    × Anything (committed volume toy 4 shim).1
committed-Contains_example =
    committed-Contains volume toy Anything listing left toy-IsTree in_root 3 18 4 shim tree refl
      tree-rounds refl tt

-- The first entry of the open root is a directory, so the file behind it is handed over.
ff_dir_read-next_file_example :
    let (r, out, s) = ff_dir_read volume toy 4 (pos 0) 4 (replicate 4 9) shim in
    Answers volume toy Anything listing left toy-IsTree 4
      (replicate 4 9)
      (next_file volume toy in_root)
      (r, out)
      (get_or s.dirs 0 [])
unfolding bad_handle left no_name
ff_dir_read-next_file_example =
    ff_dir_read-next_file volume toy Anything listing left toy-IsTree in_root 4 (pos 0) 4
      (replicate 4 9) shim refl tt refl (omega arith) (omega arith)
