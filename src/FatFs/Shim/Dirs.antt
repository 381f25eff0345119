-- ===== src/FatFs/Shim/Dirs.antt =====
-- bindings/fatfs/shim.c: the listing, the directory iterators, and the recursive walk behind the committed
-- totals. Their loops end when f_readdir reports the end or fails; `fuel` bounds the rounds, and `none`
-- stands for rounds beyond.

use flash_vis.Common.{
  ℕ, zero, suc, ◌+◌, ◌%◌, ◌^◌, bit_and, Bool, true, false, not, List, [], ◌∷◌, ◌++◌, length, get_or,
  set, take, Option, none, some, ℤ, pos, negsuc, pos_part, int_of_u32, if◌then◌else◌, ◌==◌,
}
use flash_vis.Abi.Pool.{first_free, bad_handle}
use flash_vis.Abi.Name.{copy_name}
use flash_vis.Abi.Listing.{put_entry}
use flash_vis.FatFs.{Wl}
use flash_vis.FatFs.Shim.{Core, Shim, FilInfo, max_dirs, call, error_of}

-- `*nfiles` and `*nbytes`
pub record Totals : Type 0 where
  pub files : ℕ
  pub bytes : ℕ

-- The branches of a round of the directory loops.
pub data Visit : Type 0 where
  failed : ℕ → Visit
  at_end directory regular : Visit

-- `DRV "/"`
abbrev pub root : List ℕ
root = b'0' ∷ b':' ∷ b'/' ∷ []

-- `fno.fname[0] == 0`
unfoldable pub no_name : FilInfo → Bool
no_name fno = get_or fno.fname 0 0 == 0

unfoldable pub count_file : FilInfo → Totals → Totals
count_file fno t = record { files = (t.files + 1) % 2 ^ 32; bytes = (t.bytes + fno.fsize) % 2 ^ 32 }

module _ (W : Wl) (C : Core) where
  unfoldable pub opendir_call : C.Dir → List ℕ → Shim W C → ℕ × C.Dir × Shim W C
  opendir_call d path s =
      let ((fr, d', fs'), s') = call W C (C.f_opendir d path s.fs) s in
      (fr, d', record s' { fs = fs' })

  unfoldable pub readdir_call : C.Dir × Shim W C → ℕ × FilInfo × (C.Dir × Shim W C)
  readdir_call (d, s) =
      let ((fr, fno, d', fs'), s') = call W C (C.f_readdir d s.fs) s in
      (fr, fno, (d', record s' { fs = fs' }))

  unfoldable pub closedir_call : C.Dir × Shim W C → C.Dir × Shim W C
  closedir_call (d, s) =
      let ((d', fs'), s') = call W C (C.f_closedir d s.fs) s in (d', record s' { fs = fs' })

  -- `fno.fattrib & AM_DIR`
  unfoldable pub is_dir : FilInfo → Bool
  is_dir fno = not (bit_and fno.fattrib C.am_dir == 0)

  -- What a round does with the result of f_readdir.
  unfoldable pub visit_of : ℕ → FilInfo → Visit
  visit_of fr fno =
      if not (fr == 0)
      then failed fr
      else if no_name fno
      then at_end
      else if is_dir fno
      then directory
      else regular

  unfoldable pub list_loop :
      ℕ → ℕ → ℕ → List ℕ → C.Dir × Shim W C → Option ℕ × List ℕ × (C.Dir × Shim W C)
  list_loop zero room n out ds = (none, out, ds)
  list_loop (suc fuel) room n out ds =
      let (fr, fno, ds') = readdir_call ds in
      let (stored, out') = put_entry room n fno.fname fno.fsize out in
      elim (visit_of fr fno) [
        | failed fr' ↦ (some n, out, ds')
        | at_end ↦ (some n, out, ds')
        | directory ↦ list_loop fuel room n out ds'
        | regular ↦ elim stored [
          | none ↦ (some n, out', ds')
          | some m ↦ list_loop fuel room m out' ds'
        ]
      ]

  unfoldable pub ff_list : ℕ → List ℕ → Shim W C → Option ℤ × List ℕ × Shim W C
  ff_list fuel out s =
      let (fr, d, s₁) = opendir_call C.blank_dir root s in
      let (r, out', ds) = list_loop fuel (length out) 0 out (d, s₁) in
      let answer : Option ℤ = elim r [ none ↦ none | some n ↦ some (int_of_u32 n) ] in
      if not (fr == 0) then (some (error_of fr), out, s₁) else (answer, out', (closedir_call ds).1)

  -- `(prefix && prefix[0]) ? prefix : DRV "/"`
  unfoldable pub dir_path : Option (List ℕ) → List ℕ
  dir_path none = root
  dir_path (some []) = root
  dir_path (some (c ∷ cs)) = c ∷ cs

  unfoldable pub ff_dir_open : Option (List ℕ) → Shim W C → ℤ × Shim W C
  unfolding dir_path
  ff_dir_open prefix s = elim (first_free s.dir_used) [
    | none ↦ (negsuc 0, s)
    | some h ↦
        let (fr, d, s₁) = opendir_call (get_or s.dirs h C.blank_dir) (dir_path prefix) s in
        let s₂ : Shim W C = record s₁ { dirs = set s₁.dirs h d } in
        if not (fr == 0)
        then (error_of fr, s₂)
        else (pos h, record s₂ { dir_used = set s₂.dir_used h true })
  ]

  abbrev pub bad_dir : ℤ → Shim W C → Bool
  bad_dir h s = bad_handle max_dirs s.dir_used h

  -- The loop of ff_dir_read: the result and the buffer.
  unfoldable pub dir_loop :
      ℕ → ℕ → List ℕ → C.Dir × Shim W C → Option ℤ × List ℕ × (C.Dir × Shim W C)
  dir_loop zero room out ds = (none, out, ds)
  dir_loop (suc fuel) room out ds =
      let (fr, fno, ds') = readdir_call ds in
      elim (visit_of fr fno) [
        | failed fr' ↦ (some (negsuc 1), out, ds')
        | at_end ↦ (some (negsuc 0), out, ds')
        | directory ↦ dir_loop fuel room out ds'
        | regular ↦ (some (int_of_u32 fno.fsize), copy_name room fno.fname out, ds')
      ]

  unfoldable pub ff_dir_read : ℕ → ℤ → ℕ → List ℕ → Shim W C → Option ℤ × List ℕ × Shim W C
  ff_dir_read fuel h room out s =
      let i = pos_part h in
      let (r, out', ds) = dir_loop fuel room out (get_or s.dirs i C.blank_dir, s) in
      let t = ds.1 in
      if bad_dir h s
      then (some (negsuc 1), out, s)
      else (r, out', record t { dirs = set t.dirs i ds.0 })

  unfoldable pub ff_dir_close : ℤ → Shim W C → Shim W C
  ff_dir_close h s =
      let (d, s') = closedir_call (get_or s.dirs (pos_part h) C.blank_dir, s) in
      if bad_dir h s then s else record s' {
        dirs = set s'.dirs (pos_part h) d;
        dir_used = set s'.dir_used (pos_part h) false;
      }

  -- `snprintf(child, sizeof(child), "%s/%s", path, fno.fname)` into FF_LFN_BUF + 8 bytes
  unfoldable pub child_path : List ℕ → List ℕ → List ℕ
  child_path path name = take (C.lfn_buf + 7) (path ++ (b'/' ∷ name))

  -- What follows a walk that comes back.
  abbrev pub then_walk :
      Option Totals × Shim W C
      → (Totals → Shim W C → Option Totals × Shim W C)
      → Option Totals × Shim W C
  then_walk (none, s) k = (none, s)
  then_walk (some t, s) k = k t s

  -- `walk` from its loop on, over the directory at `path`; a subdirectory takes the rest of the fuel, and
  -- one that does not open is passed over.
  unfoldable pub walk_loop : ℕ → List ℕ → Totals → C.Dir × Shim W C → Option Totals × Shim W C
  walk_loop zero path t ds = (none, ds.1)
  walk_loop (suc fuel) path t ds =
      let (fr, fno, ds') = readdir_call ds in
      elim (visit_of fr fno) [
        | failed fr' ↦ (some t, (closedir_call ds').1)
        | at_end ↦ (some t, (closedir_call ds').1)
        | regular ↦ walk_loop fuel path (count_file fno t) ds'
        | directory ↦
            let child = child_path path fno.fname in
            let (orc, d, s₁) = opendir_call C.blank_dir child ds'.1 in
            let below : Option Totals × Shim W C = elim (orc == 0) [
              | true ↦ walk_loop fuel child t (d, s₁)
              | false ↦ (some t, s₁)
            ] in
            then_walk below λ t' s₂. walk_loop fuel path t' (ds'.0, s₂)
      ]

  unfoldable pub walk : ℕ → List ℕ → Totals → Shim W C → Option Totals × Shim W C
  walk fuel path t s =
      let (fr, d, s₁) = opendir_call C.blank_dir path s in
      let walked = walk_loop fuel path t (d, s₁) in if not (fr == 0) then (some t, s₁) else walked

  unfoldable pub set_quiet : Bool → Shim W C → Shim W C
  set_quiet q s = record s { vol = W.set_quiet q s.vol }

  unfoldable pub committed : ℕ → Shim W C → Option Totals × Shim W C
  committed fuel s =
      let start : Totals = record { files = 0; bytes = 0 } in
      let (t, s') = walk fuel root start (set_quiet true s) in
      if s.mounted then (t, set_quiet false s') else (some start, s)

  unfoldable pub ff_committed_files : ℕ → Shim W C → Option ℕ × Shim W C
  ff_committed_files fuel s =
      let (t, s') = committed fuel s in (elim t [ none ↦ none | some x ↦ some x.files ], s')

  unfoldable pub ff_committed_bytes : ℕ → Shim W C → Option ℕ × Shim W C
  ff_committed_bytes fuel s =
      let (t, s') = committed fuel s in (elim t [ none ↦ none | some x ↦ some x.bytes ], s')
