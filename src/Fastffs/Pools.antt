-- ===== src/Fastffs/Pools.antt =====
-- The handles of bindings/fastffs/shim.c: one that is not open, and what a call leaves alone of the others.
use flash_vis.Common.{
  ℕ, ◌<◌, true, false, List, length, get_or, set, some, ℤ, pos, pos_part, eqb_ℤ, ◌⊎◌, ◌≡◌, refl,
  arith, ap, ◌≢◌, ◌∙◌, length-set, get_or-set_self, get_or-set_ne, Bool-cases, inl, inr,
}
use flash_vis.Abi.Pool.{bad_handle, good_handle}
use flash_vis.Abi.Fill.{fill_loop, fill_loop_keeps}
use flash_vis.Fastffs.{Core, Shim, max_files, call}
use flash_vis.Fastffs.Files.{
  read_call, write_call, close_call, read_step, file_at, put_file, bad_file, ff_file_read,
  ff_file_write, ff_file_seek, ff_file_stat, ff_file_close,
}
use flash_vis.Fastffs.Opening.{IsValid}

module _ (C : Core) where
  refused_all :
      (h : ℤ) (s : Shim C)
      → bad_file C h s ≡ true
      → ((out : List ℕ) → ff_file_read C h out s ≡ (some C.err_invalid, out, s))
        × ((src : List ℕ) → ff_file_write C h src s ≡ (C.err_invalid, s))
        × ((off whence : ℤ) → ff_file_seek C h off whence s ≡ (C.err_invalid, s))
        × ((room : ℕ) (out : List ℕ) → ff_file_stat C h room out s ≡ (C.err_invalid, out, s))
        × (ff_file_close C h s ≡ (C.err_invalid, s))
  unfolding ff_file_read ff_file_write ff_file_seek ff_file_stat ff_file_close
  refused_all h s e = (
    λ out. rw e refl,
    λ src. rw e refl,
    λ off whence. rw e refl,
    λ room out. rw e refl,
    rw e refl,
  )

  -- A handle that is open: the number of a slot of the pool that is in use.
  abbrev pub IsOpen : ℤ → Shim C → Type 0
  IsOpen h s = (k : ℕ) × (h ≡ pos k) × (k < max_files) × (get_or s.file_used k false ≡ true)

  IsOpen-or_bad : (h : ℤ) (s : Shim C) → (bad_file C h s ≡ true) ⊎ IsOpen h s
  IsOpen-or_bad h s = elim (Bool-cases (bad_file C h s)) [
    | inl e ↦ inl e
    | inr e ↦ let g = good_handle max_files s.file_used h e in inr (pos_part h, g.0, g.1, g.2)
  ]

  -- On a handle that is not the number of a slot of the pool that is in use, so a negative number, one past
  -- the pool or a free slot, every operation answers FFFS_ERR_INVALID and does nothing at all: the chip, the
  -- core, the pools and the caller's buffer are as before.
  pub bad_file_refused :
      (h : ℤ) (s : Shim C)
      → ¬ IsOpen h s
      → ((out : List ℕ) → ff_file_read C h out s ≡ (some C.err_invalid, out, s))
        × ((src : List ℕ) → ff_file_write C h src s ≡ (C.err_invalid, s))
        × ((off whence : ℤ) → ff_file_seek C h off whence s ≡ (C.err_invalid, s))
        × ((room : ℕ) (out : List ℕ) → ff_file_stat C h room out s ≡ (C.err_invalid, out, s))
        × (ff_file_close C h s ≡ (C.err_invalid, s))
  bad_file_refused h s shut = elim (IsOpen-or_bad h s) [
    | inl e ↦ refused_all h s e
    | inr o ↦ absurd (shut o)
  ]

  ff_file_close-file_used :
      (h : ℤ) (s : Shim C)
      → bad_file C h s ≡ false
      → (ff_file_close C h s).1.file_used ≡ set s.file_used (pos_part h) false
  unfolding ff_file_close close_call put_file call
  ff_file_close-file_used h s e = rw e refl

  freed :
      (h : ℤ) (s : Shim C)
      → IsValid C s
      → bad_file C h s ≡ false
      → bad_handle max_files (set s.file_used (pos_part h) false) h ≡ true
  unfolding bad_handle
  freed h s v e =
      let g = good_handle max_files s.file_used h e in
      ground (arith, get_or-set_self s.file_used (pos_part h) false false, v.file_used_size)

  -- Closing an open handle frees its slot and no other, so that a second close is refused and does
  -- nothing.
  pub close_twice :
      (h : ℤ) (s : Shim C)
      → IsValid C s
      → bad_file C h s ≡ false
      → let s' = (ff_file_close C h s).1 in
        (s'.file_used ≡ set s.file_used (pos_part h) false)
        × (ff_file_close C h s' ≡ (C.err_invalid, s'))
  close_twice h s v e =
      let closed = ff_file_close-file_used h s e in
      (closed, (refused_all h (ff_file_close C h s).1 (rw closed (freed h s v e))).4)

  -- A call of the core leaves the pools alone.
  pub record SamePools (s s' : Shim C) : Type 0 where
    pub files_same : s'.files ≡ s.files
    pub file_used_same : s'.file_used ≡ s.file_used
    pub dirs_same : s'.dirs ≡ s.dirs
    pub dir_used_same : s'.dir_used ≡ s.dir_used

  read_step_keeps :
      (s : Shim C) (fs : C.File × Shim C) (buf : List ℕ)
      → SamePools s fs.1
      → SamePools s (read_step C fs buf).2.1
  unfolding read_step read_call call
  read_step_keeps s fs buf p = record {
    files_same = p.files_same;
    file_used_same = p.file_used_same;
    dirs_same = p.dirs_same;
    dir_used_same = p.dir_used_same;
  }

  fill-SamePools :
      (f : C.File) (s : Shim C) (out : List ℕ)
      → SamePools s (fill_loop (read_step C) (length out) (length out) 0 out (f, s)).2.1
  fill-SamePools f s out =
      fill_loop_keeps (read_step C) (λ fs. SamePools s fs.1) (read_step_keeps s) (length out)
        (length out) 0 out (f, s)
        (record {
          files_same = refl;
          file_used_same = refl;
          dirs_same = refl;
          dir_used_same = refl;
        })

  -- Everything but the file in one slot is as it was.
  pub record OnlySlot (h : ℤ) (s s' : Shim C) : Type 0 where
    pub others_same :
        (j : ℕ) → pos_part h ≢ j → get_or s'.files j C.blank_file ≡ get_or s.files j C.blank_file
    pub files_size_same : length s'.files ≡ length s.files
    pub used_same : s'.file_used ≡ s.file_used
    pub dirs_kept : s'.dirs ≡ s.dirs
    pub dir_used_kept : s'.dir_used ≡ s.dir_used

  put_file-OnlySlot :
      (h : ℤ) (f : C.File) (s s' : Shim C) → SamePools s s' → OnlySlot h s (put_file C h f s')
  unfolding put_file
  put_file-OnlySlot h f s s' p = record {
    others_same = λ j ne.
        get_or-set_ne s'.files (pos_part h) j f C.blank_file ne
        ∙ ap (λ t. get_or t j C.blank_file) p.files_same;
    files_size_same = length-set s'.files (pos_part h) f ∙ ap length p.files_same;
    used_same = p.file_used_same;
    dirs_kept = p.dirs_same;
    dir_used_kept = p.dir_used_same;
  }

  same : (h : ℤ) (s : Shim C) → OnlySlot h s s
  same h s = record {
    others_same = λ j ne. refl;
    files_size_same = refl;
    used_same = refl;
    dirs_kept = refl;
    dir_used_kept = refl;
  }

  write-SamePools : (f : C.File) (src : List ℕ) (s : Shim C) → SamePools s (write_call C f src s).2
  unfolding write_call call
  write-SamePools f src s = record {
    files_same = refl;
    file_used_same = refl;
    dirs_same = refl;
    dir_used_same = refl;
  }

  seek-SamePools :
      (h off whence : ℤ) (s : Shim C)
      → let ((rc, at, f, fs'), s₁) = call C (C.seek s.fs (file_at C h s) off whence) s in
        SamePools s (record s₁ { fs = fs' })
  unfolding call
  seek-SamePools h off whence s = record {
    files_same = refl;
    file_used_same = refl;
    dirs_same = refl;
    dir_used_same = refl;
  }

  stat-OnlySlot :
      (h : ℤ) (room : ℕ) (out : List ℕ) (s : Shim C)
      → bad_file C h s ≡ false
      → OnlySlot h s (ff_file_stat C h room out s).2
  unfolding ff_file_stat call
  stat-OnlySlot h room out s e =
      elim (Bool-cases (eqb_ℤ (call C (C.fstat s.fs (file_at C h s)) s).0.0 C.ok)) [
        | inl k ↦ rw (e, k, ff_file_stat, call) (still)
        | inr k ↦ rw (e, k, ff_file_stat, call) (still)
      ]
    where
      still : OnlySlot h s (record s {
        nor = (call C (C.fstat s.fs (file_at C h s)) s).1.nor;
        fs = (call C (C.fstat s.fs (file_at C h s)) s).0.2;
      })
      still = record {
        others_same = λ j ne. refl;
        files_size_same = refl;
        used_same = refl;
        dirs_kept = refl;
        dir_used_kept = refl;
      }

  -- Reading, writing, seeking and asking for the size through a handle change no other slot, the state
  -- of no slot, and no directory iterator.
  pub handle_isolated :
      (h : ℤ) (s : Shim C)
      → ((out : List ℕ) → OnlySlot h s (ff_file_read C h out s).2)
        × ((src : List ℕ) → OnlySlot h s (ff_file_write C h src s).1)
        × ((off whence : ℤ) → OnlySlot h s (ff_file_seek C h off whence s).1)
        × ((room : ℕ) (out : List ℕ) → OnlySlot h s (ff_file_stat C h room out s).2)
  unfolding ff_file_read ff_file_write ff_file_seek ff_file_stat
  handle_isolated h s = elim (Bool-cases (bad_file C h s)) [
    | inl e ↦ (
      λ out. rw e (same h s),
      λ src. rw e (same h s),
      λ off whence. rw e (same h s),
      λ room out. rw e (same h s),
    )
    | inr e ↦ (
      λ out. rw e (put_file-OnlySlot h _ s _ (fill-SamePools (file_at C h s) s out)),
      λ src. rw e (put_file-OnlySlot h _ s _ (write-SamePools (file_at C h s) src s)),
      λ off whence. rw e (put_file-OnlySlot h _ s _ (seek-SamePools h off whence s)),
      λ room out. stat-OnlySlot h room out s e,
    )
  ]
