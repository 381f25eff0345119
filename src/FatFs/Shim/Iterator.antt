-- ===== src/FatFs/Shim/Iterator.antt =====
-- The directory iterator of bindings/fatfs/shim.c against the entries that its directory has left.
use flash_vis.Common.{
  ℕ, zero, suc, ◌<◌, false, List, [], ◌∷◌, Option, none, some, length, get_or, ℤ, pos_part, negsuc,
  int_of_u32, if◌then◌else◌, ◌≡◌, refl, arith, ap, inl, inr, Bool-cases, get_or-set_self,
}
use flash_vis.Abi.Name.{copy_name}
use flash_vis.FatFs.{Wl}
use flash_vis.FatFs.Shim.{Core, Shim, FilInfo, call}
use flash_vis.FatFs.Shim.Tree.{IsTree, visit_at_end, visit_entry, visit_regular, visit_directory}
use flash_vis.FatFs.Shim.Dirs.{
  Visit, failed, at_end, directory, regular, readdir_call, is_dir, visit_of, dir_loop, bad_dir,
  ff_dir_read,
}

module _ (W : Wl) (C : Core) where
  -- The first entry that is no directory, and what follows it.
  pub next_file : List FilInfo → Option (FilInfo × List FilInfo)
  next_file [] = none
  next_file (e ∷ es) = if is_dir W C e then next_file es else some (e, es)

  round_dirs :
      (fuel room : ℕ) (out : List ℕ) (ds : C.Dir × Shim W C)
      → ((ds' : C.Dir × Shim W C)
          → length (dir_loop W C fuel room out ds').2.1.dirs ≡ length ds'.1.dirs)
      → (v : Visit) → visit_of W C (readdir_call W C ds).0 (readdir_call W C ds).1 ≡ v
      → length (dir_loop W C (suc fuel) room out ds).2.1.dirs ≡ length ds.1.dirs
  unfolding dir_loop readdir_call call
  round_dirs fuel room out (d, s) ih (failed fr) e = rw (e, dir_loop) refl
  round_dirs fuel room out (d, s) ih at_end e = rw (e, dir_loop) refl
  round_dirs fuel room out (d, s) ih directory e = rw (e, dir_loop) (ih (readdir_call W C (d, s)).2)
  round_dirs fuel room out (d, s) ih regular e = rw (e, dir_loop) refl

  -- The loop does not touch the pool.
  dir_loop_dirs :
      (fuel room : ℕ) (out : List ℕ) (ds : C.Dir × Shim W C)
      → length (dir_loop W C fuel room out ds).2.1.dirs ≡ length ds.1.dirs
  unfolding dir_loop
  dir_loop_dirs zero room out ds = refl
  dir_loop_dirs (suc fuel) room out ds =
      round_dirs fuel room out ds (λ ds'. dir_loop_dirs fuel room out ds') _ refl

  module _ (Good : Shim W C → Type 0) (listing : List ℕ → Option (List FilInfo))
      (left : C.Dir → List FilInfo) (T : IsTree W C Good listing left) where
    -- What a read of the directory with the entries `es` must come to.
    abbrev pub Answers :
        ℕ → List ℕ → Option (FilInfo × List FilInfo) → Option ℤ × List ℕ → C.Dir → Type 0
    Answers room out none r d = (r.0 ≡ some (negsuc 0)) × (r.1 ≡ out)
    Answers room out (some (e, rest)) r d =
        (r.0 ≡ some (int_of_u32 e.fsize)) × (r.1 ≡ copy_name room e.fname out) × (left d ≡ rest)

    dir_loop-Answers :
        (es : List FilInfo) (fuel room : ℕ) (out : List ℕ) (d : C.Dir) (s : Shim W C)
        → Good s
        → left d ≡ es
        → length es < fuel
        → let (r, out', ds) = dir_loop W C fuel room out (d, s) in
          Answers room out (next_file es) (r, out') ds.0 × Good ds.1
    unfolding dir_loop next_file
    dir_loop-Answers es zero room out d s good l h = absurd (omega arith)
    dir_loop-Answers [] (suc fuel) room out d s good l h =
        let r = T.ends d s good l in rw (visit_at_end W C _ _ r.0 r.1, dir_loop) ((refl, refl), r.2)
    dir_loop-Answers (e ∷ es) (suc fuel) room out d s good l h =
        let r = T.gives d e es s good l in
        let ds' = (readdir_call W C (d, s)).2 in
        elim (Bool-cases (is_dir W C e)) [
          | inl k ↦
              rw
                (
                  visit_entry W C _ _ e directory r.0 r.1 (visit_directory W C e r.2 k),
                  dir_loop,
                  k,
                  next_file,
                )
                (dir_loop-Answers es fuel room out ds'.0 ds'.1 r.4 r.3 (omega arith))
          | inr k ↦
              rw
                (
                  visit_entry W C _ _ e regular r.0 r.1 (visit_regular W C e r.2 k),
                  dir_loop,
                  k,
                  next_file,
                )
                (
                  (
                    ap (λ x. some (int_of_u32 x.fsize)) r.1,
                    ap (λ x. copy_name room x.fname out) r.1,
                    r.3,
                  ),
                  r.4,
                )
        ]

    -- A read through an open handle whose directory has the entries `es` left hands over the first of
    -- them that is no directory: its size is the result, its name is copied, and the directory of the
    -- handle has left what follows it. Where there is none the result is -1 and the buffer is as it was.
    -- Fuel for one round more than there are entries is enough.
    pub ff_dir_read-next_file :
        (es : List FilInfo) (fuel : ℕ) (h : ℤ) (room : ℕ) (out : List ℕ) (s : Shim W C)
        → bad_dir W C h s ≡ false
        → Good s
        → left (get_or s.dirs (pos_part h) C.blank_dir) ≡ es
        → length es < fuel
        → pos_part h < length s.dirs
        → let (r, out', s') = ff_dir_read W C fuel h room out s in
          Answers room out (next_file es) (r, out') (get_or s'.dirs (pos_part h) C.blank_dir)
    unfolding ff_dir_read
    ff_dir_read-next_file es fuel h room out s ok good l f low =
        let d = get_or s.dirs (pos_part h) C.blank_dir in
        let ds = (dir_loop W C fuel room out (d, s)).2 in
        let a = dir_loop-Answers es fuel room out d s good l f in
        let same = dir_loop_dirs fuel room out (d, s) in
        rw (ok, get_or-set_self ds.1.dirs (pos_part h) ds.0 C.blank_dir (omega (arith, same))) a.0
