-- ===== src/Spiffs/Dirs.antt =====
-- bindings/spiffs/shim.c: the listing, the directory iterators and the committed totals. Their loops
-- end when SPIFFS_readdir returns NULL; `fuel` bounds the rounds, and `none` stands for rounds beyond.
use flash_vis.Common.{
  ℕ, zero, suc, ◌+◌, ◌-◌, ◌%◌, ◌^◌, Bool, true, false, not, ◌&&◌, List, [], ◌∷◌, length, get_or,
  set, take, Option, none, some, ℤ, pos, negsuc, pos_part, eqb_ℤ, int_of_u32, if◌then◌else◌, ltb,
  ◌==◌,
}
use flash_vis.Abi.Pool.{first_free, bad_handle}
use flash_vis.Abi.Name.{copy_name}
use flash_vis.Abi.Listing.{put_entry}
use flash_vis.Spiffs.{Core, Shim, Dirent, max_dirs, obj_name_len, call}

-- `strncmp(name, prefix, strlen(prefix)) == 0`
unfoldable pub starts_with : List ℕ → List ℕ → Bool
starts_with [] name = true
starts_with (c ∷ cs) [] = false
starts_with (c ∷ cs) (x ∷ xs) = (c == x) && starts_with cs xs

-- `files_out` and `bytes_out`
pub record Totals : Type 0 where
  pub files : ℕ
  pub bytes : ℕ

module _ (C : Core) where
  unfoldable pub opendir_call : C.Dir → Shim C → Bool × C.Dir × Shim C
  opendir_call d s =
      let ((opened, d', fs'), s') = call C (C.opendir s.fs d) s in
      (opened, d', record s' { fs = fs' })

  unfoldable pub readdir_call : C.Dir × Shim C → Option Dirent × (C.Dir × Shim C)
  readdir_call (d, s) =
      let ((e, d', fs'), s') = call C (C.readdir s.fs d) s in (e, (d', record s' { fs = fs' }))

  unfoldable pub closedir_call : C.Dir → Shim C → C.Dir × Shim C
  closedir_call d s =
      let ((d', fs'), s') = call C (C.closedir s.fs d) s in (d', record s' { fs = fs' })

  -- The next entry that a loop does not skip, by `keep`; some none where the directory ends.
  unfoldable pub next_kept :
      (Dirent → Bool) → ℕ → C.Dir × Shim C → Option (Option Dirent) × (C.Dir × Shim C)
  next_kept keep zero ds = (none, ds)
  next_kept keep (suc fuel) ds =
      let r = readdir_call ds in
      elim r.0 [
        | none ↦ (some none, r.1)
        | some e ↦
            let rest = next_kept keep fuel r.1 in if keep e then (some (some e), r.1) else rest
      ]

  unfoldable pub is_file : Dirent → Bool
  is_file e = e.type == C.type_file

  unfoldable pub list_loop :
      ℕ → ℕ → ℕ → List ℕ → C.Dir × Shim C → Option ℕ × List ℕ × (C.Dir × Shim C)
  list_loop zero room n out ds = ((if ltb n room then none else some n), out, ds)
  list_loop (suc fuel) room n out ds =
      let r = readdir_call ds in
      let next : Option ℕ × List ℕ × (C.Dir × Shim C) = elim r.0 [
        | none ↦ (some n, out, r.1)
        | some e ↦
            let (count, out') = put_entry room n e.name e.size out in
            let skipped = list_loop fuel room n out r.1 in
            let written : Option ℕ × List ℕ × (C.Dir × Shim C) = elim count [
              | none ↦ (some n, out', r.1)
              | some m ↦ list_loop fuel room m out' r.1
            ] in
            if is_file e then written else skipped
      ] in
      if ltb n room then next else (some n, out, ds)

  unfoldable pub ff_list : ℕ → List ℕ → Shim C → Option ℤ × List ℕ × Shim C
  ff_list fuel out s =
      let (opened, d, s₁) = opendir_call C.blank_dir s in
      if not opened
      then (some (C.errno s₁.fs), out, s₁)
      else let (n, out', ds) = list_loop fuel (length out) 0 out (d, s₁) in
        let (d', s₂) = closedir_call ds.0 ds.1 in
        (elim n [ none ↦ none | some count ↦ some (int_of_u32 count) ], out', s₂)

  unfoldable pub ff_dir_open : Option (List ℕ) → Shim C → ℤ × Shim C
  ff_dir_open prefix s = elim (first_free s.dir_used) [
    | none ↦ (C.err_out_of_file_descs, s)
    | some h ↦
        let (opened, d, s₁) = opendir_call (get_or s.dirs h C.blank_dir) s in
        let s₂ : Shim C = record s₁ { dirs = set s₁.dirs h d } in
        let text : List ℕ = elim prefix [ none ↦ [] | some p ↦ p ] in
        if not opened then (C.errno s₂.fs, s₂) else (
          pos h,
          record s₂ {
            dir_prefix = set s₂.dir_prefix h (take (obj_name_len - 1) text);
            dir_used = set s₂.dir_used h true;
          },
        )
  ]

  abbrev pub bad_dir : ℤ → Shim C → Bool
  bad_dir h s = bad_handle max_dirs s.dir_used h

  -- The two tests that ff_dir_read skips entries by.
  unfoldable pub listed : List ℕ → Dirent → Bool
  unfolding is_file
  listed prefix e = is_file e && starts_with prefix e.name

  unfoldable pub ff_dir_read : ℕ → ℤ → ℕ → List ℕ → Shim C → Option ℤ × List ℕ × Shim C
  ff_dir_read fuel h room out s =
      let i = pos_part h in
      let (found, ds) =
        next_kept (listed (get_or s.dir_prefix i [])) fuel (get_or s.dirs i C.blank_dir, s) in
      let t = ds.1 in
      let s' : Shim C = record t { dirs = set t.dirs i ds.0 } in
      let ended = if eqb_ℤ (C.errno t.fs) C.ok then negsuc 0 else negsuc 1 in
      let answer : Option ℤ × List ℕ = elim found [
        | none ↦ (none, out)
        | some none ↦ (some ended, out)
        | some (some e) ↦ (some (int_of_u32 e.size), copy_name room e.name out)
      ] in
      if bad_dir h s then (some (negsuc 1), out, s) else (answer.0, answer.1, s')

  unfoldable pub ff_dir_close : ℤ → Shim C → Shim C
  ff_dir_close h s =
      let (d, s') = closedir_call (get_or s.dirs (pos_part h) C.blank_dir) s in
      if bad_dir h s then s else record s' {
        dirs = set s'.dirs (pos_part h) d;
        dir_used = set s'.dir_used (pos_part h) false;
      }

  -- The loop of committed_walk.
  unfoldable pub commit_loop : ℕ → Totals → C.Dir × Shim C → Option Totals × (C.Dir × Shim C)
  commit_loop zero t ds = (none, ds)
  commit_loop (suc fuel) t ds =
      let r = readdir_call ds in
      elim r.0 [
        | none ↦ (some t, r.1)
        | some e ↦
            let skipped = commit_loop fuel t r.1 in
            let counted =
              commit_loop fuel
                (record { files = (t.files + 1) % 2 ^ 32; bytes = (t.bytes + e.size) % 2 ^ 32 })
                r.1 in
            if is_file e then counted else skipped
      ]

  -- committed_walk of a mounted shim, between `g_quiet = 1` and `g_quiet = 0`.
  unfoldable pub quiet_walk : ℕ → Shim C → Option Totals × Shim C
  quiet_walk fuel s =
      let (opened, d, s₁) = opendir_call C.blank_dir (record s { quiet = true }) in
      let (t, ds) = commit_loop fuel (record { files = 0; bytes = 0 }) (d, s₁) in
      let s₂ = (closedir_call ds.0 ds.1).1 in
      if opened
      then (t, record s₂ { quiet = false })
      else (some (record { files = 0; bytes = 0 }), record s₁ { quiet = false })

  unfoldable pub committed_walk : ℕ → Shim C → Option Totals × Shim C
  committed_walk fuel s =
      if s.mounted then quiet_walk fuel s else (some (record { files = 0; bytes = 0 }), s)

  unfoldable pub ff_committed_files : ℕ → Shim C → Option ℕ × Shim C
  ff_committed_files fuel s =
      let (t, s') = committed_walk fuel s in (elim t [ none ↦ none | some x ↦ some x.files ], s')

  unfoldable pub ff_committed_bytes : ℕ → Shim C → Option ℕ × Shim C
  ff_committed_bytes fuel s =
      let (t, s') = committed_walk fuel s in (elim t [ none ↦ none | some x ↦ some x.bytes ], s')
