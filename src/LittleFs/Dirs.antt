-- ===== src/LittleFs/Dirs.antt =====
-- bindings/littlefs/shim.c: the listing, the directory iterators, and the recursive walk behind the
-- committed totals. Their loops end when lfs_dir_read returns no entry; `fuel` bounds the rounds, and
-- `none` stands for rounds beyond.
use flash_vis.Common.{
  ℕ, zero, suc, ◌+◌, ◌%◌, ◌^◌, Bool, true, false, not, ◌&&◌, ◌||◌, List, [], ◌∷◌, ◌++◌, length,
  get_or, set, take, Option, none, some, ℤ, pos, negsuc, pos_part, eqb_ℤ, is_neg, int_of_u32, ltb_ℤ,
  if◌then◌else◌, ltb, ◌==◌,
}
use flash_vis.Abi.Pool.{first_free, bad_handle}
use flash_vis.Abi.Name.{copy_name}
use flash_vis.Abi.Listing.{put_entry}
use flash_vis.LittleFs.{Core, Shim, Info, max_dirs, call}

-- `struct walk_acc`
pub record Acc : Type 0 where
  pub files : ℕ
  pub bytes : ℕ

-- The branches of walk_dir's loop.
pub data Visit : Type 0 where
  finish : ℤ → Visit
  skip count descend : Visit

-- `strcmp(a, b) == 0`
unfoldable pub same_text : List ℕ → List ℕ → Bool
same_text [] [] = true
same_text [] (y ∷ ys) = false
same_text (x ∷ xs) [] = false
same_text (x ∷ xs) (y ∷ ys) = (x == y) && same_text xs ys

abbrev pub root : List ℕ
root = b'/' ∷ []

-- `snprintf(child, sizeof(child), "%s%s%s", path, is_root ? "" : "/", info.name)`
unfoldable pub child_path : List ℕ → List ℕ → List ℕ
child_path path name = take 511 (path ++ ((if same_text path root then [] else root) ++ name))

-- `.` and `..`
unfoldable pub is_dots : List ℕ → Bool
is_dots name = same_text name (b'.' ∷ []) || same_text name (b'.' ∷ b'.' ∷ [])

module _ (C : Core) where
  unfoldable pub dir_open_call : C.Dir → List ℕ → Shim C → ℤ × C.Dir × Shim C
  dir_open_call d path s =
      let ((rc, d', lfs'), s') = call C (C.dir_open s.lfs d path) s in
      (rc, d', record s' { lfs = lfs' })

  unfoldable pub dir_read_call : C.Dir × Shim C → ℤ × Info × (C.Dir × Shim C)
  dir_read_call (d, s) =
      let ((rc, info, d', lfs'), s') = call C (C.dir_read s.lfs d) s in
      (rc, info, (d', record s' { lfs = lfs' }))

  unfoldable pub dir_close_call : C.Dir → Shim C → C.Dir × Shim C
  dir_close_call d s =
      let ((d', lfs'), s') = call C (C.dir_close s.lfs d) s in (d', record s' { lfs = lfs' })

  unfoldable pub is_reg : Info → Bool
  is_reg info = info.type == C.type_reg

  -- The loop of ff_list, with the last result of lfs_dir_read.
  unfoldable pub list_loop :
      ℕ → ℕ → ℕ → ℤ → List ℕ → C.Dir × Shim C → Option (ℤ × ℕ) × List ℕ × (C.Dir × Shim C)
  list_loop zero room n drc out ds = ((if ltb n room then none else some (drc, n)), out, ds)
  list_loop (suc fuel) room n drc out ds =
      let (rc, info, ds') = dir_read_call ds in
      let (stored, out') = put_entry room n info.name info.size out in
      let skipped = list_loop fuel room n rc out ds' in
      let written : Option (ℤ × ℕ) × List ℕ × (C.Dir × Shim C) = elim stored [
        | none ↦ (some (rc, n), out', ds')
        | some m ↦ list_loop fuel room m rc out' ds'
      ] in
      if not (ltb n room)
      then (some (drc, n), out, ds)
      else if not (ltb_ℤ (pos 0) rc)
      then (some (rc, n), out, ds')
      else if is_reg info
      then written
      else skipped

  unfoldable pub ff_list : ℕ → List ℕ → Shim C → Option ℤ × List ℕ × Shim C
  ff_list fuel out s =
      let (rc, d, s₁) = dir_open_call C.blank_dir root s in
      let (r, out', ds) = list_loop fuel (length out) 0 (pos 0) out (d, s₁) in
      let (d', s₂) = dir_close_call ds.0 ds.1 in
      let answer : Option ℤ = elim r [
        | none ↦ none
        | some (drc, n) ↦ some (if is_neg drc then drc else int_of_u32 n)
      ] in
      if not (eqb_ℤ rc C.ok) then (some rc, out, s₁) else (answer, out', s₂)

  unfoldable pub ff_dir_open : Option (List ℕ) → Shim C → ℤ × Shim C
  ff_dir_open prefix s = elim (first_free s.dir_used) [
    | none ↦ (C.err_nomem, s)
    | some h ↦
        let path : List ℕ = elim prefix [ none ↦ root | some [] ↦ root | some (c ∷ cs) ↦ c ∷ cs ] in
        let (rc, d, s₁) = dir_open_call (get_or s.dirs h C.blank_dir) path s in
        let s₂ : Shim C = record s₁ { dirs = set s₁.dirs h d } in
        if not (eqb_ℤ rc C.ok)
        then (rc, s₂)
        else (pos h, record s₂ { dir_used = set s₂.dir_used h true })
  ]

  abbrev pub bad_dir : ℤ → Shim C → Bool
  bad_dir h s = bad_handle max_dirs s.dir_used h

  -- The loop of ff_dir_read: the next regular file, or the result that ended the loop.
  unfoldable pub next_reg : ℕ → C.Dir × Shim C → Option (ℤ × Option Info) × (C.Dir × Shim C)
  next_reg zero ds = (none, ds)
  next_reg (suc fuel) ds =
      let (rc, info, ds') = dir_read_call ds in
      let rest = next_reg fuel ds' in
      if not (ltb_ℤ (pos 0) rc)
      then (some (rc, none), ds')
      else if is_reg info
      then (some (rc, some info), ds')
      else rest

  unfoldable pub ff_dir_read : ℕ → ℤ → ℕ → List ℕ → Shim C → Option ℤ × List ℕ × Shim C
  ff_dir_read fuel h room out s =
      let i = pos_part h in
      let (found, ds) = next_reg fuel (get_or s.dirs i C.blank_dir, s) in
      let t = ds.1 in
      let s' : Shim C = record t { dirs = set t.dirs i ds.0 } in
      let answer : Option ℤ × List ℕ = elim found [
        | none ↦ (none, out)
        | some (rc, none) ↦ (some (if eqb_ℤ rc C.ok then negsuc 0 else negsuc 1), out)
        | some (rc, some info) ↦ (some (int_of_u32 info.size), copy_name room info.name out)
      ] in
      if bad_dir h s then (some (negsuc 1), out, s) else (answer.0, answer.1, s')

  unfoldable pub ff_dir_close : ℤ → Shim C → Shim C
  ff_dir_close h s =
      let (d, s') = dir_close_call (get_or s.dirs (pos_part h) C.blank_dir) s in
      if bad_dir h s then s else record s' {
        dirs = set s'.dirs (pos_part h) d;
        dir_used = set s'.dir_used (pos_part h) false;
      }

  unfoldable pub count_file : Info → Acc → Acc
  count_file info acc = record {
    files = (acc.files + 1) % 2 ^ 32;
    bytes = (acc.bytes + info.size) % 2 ^ 32;
  }

  -- What walk_dir's loop does with the result of lfs_dir_read.
  unfoldable pub visit_of : ℤ → Info → Visit
  visit_of rc info =
      if not (ltb_ℤ (pos 0) rc)
      then finish (if is_neg rc then rc else C.ok)
      else if is_reg info
      then count
      else if not (info.type == C.type_dir) || is_dots info.name
      then skip
      else descend

  -- walk_dir from its loop on, over the directory at `path`; a subdirectory takes the rest of the fuel.
  unfoldable pub walk_loop : ℕ → List ℕ → Acc → C.Dir × Shim C → Option ℤ × Acc × Shim C
  walk_loop zero path acc ds = (none, acc, ds.1)
  walk_loop (suc fuel) path acc ds =
      let (rc, info, ds') = dir_read_call ds in
      elim (visit_of rc info) [
        | finish e ↦ (some e, acc, (dir_close_call ds'.0 ds'.1).1)
        | skip ↦ walk_loop fuel path acc ds'
        | count ↦ walk_loop fuel path (count_file info acc) ds'
        | descend ↦
            let child = child_path path info.name in
            let (orc, d, s₁) = dir_open_call C.blank_dir child ds'.1 in
            let (crc, acc', s₂) : Option ℤ × Acc × Shim C = elim (eqb_ℤ orc C.ok) [
              | true ↦ walk_loop fuel child acc (d, s₁)
              | false ↦ (some orc, acc, s₁)
            ] in
            elim crc [
              | none ↦ (none, acc', s₂)
              | some e ↦ elim (eqb_ℤ e C.ok) [
                | true ↦ walk_loop fuel path acc' (ds'.0, s₂)
                | false ↦ (some e, acc', (dir_close_call ds'.0 s₂).1)
              ]
            ]
      ]

  unfoldable pub walk_dir : ℕ → List ℕ → Acc → Shim C → Option ℤ × Acc × Shim C
  walk_dir fuel path acc s =
      let (rc, d, s₁) = dir_open_call C.blank_dir path s in
      let walked = walk_loop fuel path acc (d, s₁) in
      if not (eqb_ℤ rc C.ok) then (some rc, acc, s₁) else walked

  -- committed_walk; `none` where the fuel is too short for the walk.
  unfoldable pub committed_walk : ℕ → Shim C → Option Acc × Shim C
  committed_walk fuel s =
      let start : Acc = record { files = 0; bytes = 0 } in
      let (rc, acc, s') = walk_dir fuel root start (record s { quiet = true }) in
      let done : Option Acc = elim rc [ none ↦ none | some e ↦ some acc ] in
      if s.mounted then (done, record s' { quiet = false }) else (some start, s)

  unfoldable pub ff_committed_files : ℕ → Shim C → Option ℕ × Shim C
  ff_committed_files fuel s =
      let (t, s') = committed_walk fuel s in (elim t [ none ↦ none | some x ↦ some x.files ], s')

  unfoldable pub ff_committed_bytes : ℕ → Shim C → Option ℕ × Shim C
  ff_committed_bytes fuel s =
      let (t, s') = committed_walk fuel s in (elim t [ none ↦ none | some x ↦ some x.bytes ], s')
