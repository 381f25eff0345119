-- ===== src/JesFs/Shim/Seek.antt =====
-- The seek that bindings/jesfs/shim.c builds from rewinding and reading forward.
use native.Mathlib.Decide.{dec_lt}
use flash_vis.Common.{
  ℕ, zero, suc, ◌+◌, ◌-◌, ◌%◌, ◌^◌, ◌≤◌, ◌<◌, true, false, length, some, ℤ, pos, negsuc, pos_part,
  ltb_ℤ, ◌+ℤ◌, int_of_u32, ltb, ◌==◌, ◌≡◌, refl, arith, ◌∙◌, ap, inl, inr, ◌⊎◌, get_or-set_self,
}
use flash_vis.JesFs.Shim.{Core, Shim, call}
use flash_vis.JesFs.Shim.Files.{
  desc_at, put_desc, skip_call, rewind_call, bad_file, seek_base, seek_forward, seek_to,
  ff_file_seek,
}

-- What the seek needs of JesFS on descriptors that are open for reading, `Reads`: a rewind goes to the
-- start, and reading with no buffer moves the position on by what is asked for, inside the file.
pub record IsSeekable (C : Core) (Reads : C.Desc → Type 0) : Type 0 where
  pub rewinds :
      (f : C.Desc) (s : Shim C)
      → Reads f
      → let (rc, f', s') = rewind_call C f s in
        (rc ≡ pos 0) × Reads f' × (C.file_pos f' ≡ 0) × (C.file_len f' ≡ C.file_len f)
  pub skips :
      (f : C.Desc) (n : ℕ) (s : Shim C)
      → Reads f
      → C.file_pos f + n ≤ C.file_len f
      → let (rc, f', s') = skip_call C f n s in
        (rc ≡ pos n)
        × Reads f'
        × (C.file_pos f' ≡ C.file_pos f + n)
        × (C.file_len f' ≡ C.file_len f)

module _ (C : Core) (Reads : C.Desc → Type 0) (R : IsSeekable C Reads) where
  -- A position that was asked for, reached on the same file.
  record At (target len : ℕ) (r : ℤ × C.Desc × Shim C) : Type 0 where
    answer : r.0 ≡ pos target
    there : C.file_pos r.1 ≡ target
    same_len : C.file_len r.1 ≡ len
    readable : Reads r.1

  -- The distance that is left.
  abbrev distance : ℕ → C.Desc → ℕ
  distance target f = (2 ^ 32 + target % 2 ^ 32 - C.file_pos f) % 2 ^ 32

  seek_forward_stays :
      (target : ℕ) (f : C.Desc) (s : Shim C)
      → distance target f ≡ 0
      → seek_forward C target f s ≡ (int_of_u32 (C.file_pos f), f, s)
  unfolding seek_forward
  seek_forward_stays target f s z = rw z refl

  seek_forward_moves :
      (target d : ℕ) (f : C.Desc) (s : Shim C)
      → distance target f ≡ suc d
      → suc d < 2 ^ 31
      → (skip_call C f (suc d) s).0 ≡ pos (suc d)
      → let (rc, f', s') = skip_call C f (suc d) s in
        seek_forward C target f s ≡ (int_of_u32 (C.file_pos f'), f', s')
  unfolding seek_forward
  seek_forward_moves target d f s z small k =
      let same : ((suc d % 2 ^ 32) == suc d) ≡ true = ground arith in
      let some_left : (suc d == 0) ≡ false = ground arith in
      rw (z, seek_forward) (rw (k, some_left, same) refl)

  seek_forward-At :
      (target : ℕ) (f : C.Desc) (s : Shim C)
      → Reads f
      → C.file_pos f ≤ target
      → target ≤ C.file_len f
      → C.file_len f < 2 ^ 31
      → At target (C.file_len f) (seek_forward C target f s)
  seek_forward-At target f s p le fits small =
      let e : distance target f ≡ target - C.file_pos f = omega arith in
      elim (get_succ (target - C.file_pos f)) [
        | inl z ↦
            rw (seek_forward_stays target f s (e ∙ z))
              (record { answer = ground arith; there = omega arith; same_len = refl; readable = p })
        | inr (d, z) ↦
            let k = R.skips f (suc d) s p (omega arith) in
            rw (seek_forward_moves target d f s (e ∙ z) (omega arith) k.0) (record {
              answer = ground (arith, k.2);
              there = omega (arith, k.2);
              same_len = k.3;
              readable = k.1;
            })
      ]
    where
      get_succ : (n : ℕ) → (n ≡ 0) ⊎ ((d : ℕ) × (n ≡ suc d))
      get_succ zero = inl refl
      get_succ (suc d) = inr (d, refl)

  seek_to_ahead :
      (target : ℕ) (f : C.Desc) (s : Shim C)
      → C.file_pos f ≤ target
      → seek_to C target f s ≡ seek_forward C target f s
  unfolding seek_to
  seek_to_ahead target f s le =
      let e : ltb target (C.file_pos f) ≡ false = ground arith in rw e refl

  seek_to_behind :
      (target : ℕ) (f : C.Desc) (s : Shim C)
      → target < C.file_pos f
      → (rewind_call C f s).0 ≡ pos 0
      → seek_to C target f s ≡ seek_forward C target (rewind_call C f s).1 (rewind_call C f s).2
  unfolding seek_to
  seek_to_behind target f s lt z =
      let e : ltb target (C.file_pos f) ≡ true = ground arith in rw (e, z) refl

  seek_to-At :
      (target : ℕ) (f : C.Desc) (s : Shim C)
      → Reads f
      → target ≤ C.file_len f
      → C.file_len f < 2 ^ 31
      → At target (C.file_len f) (seek_to C target f s)
  seek_to-At target f s p fits small = elim (dec_lt target (C.file_pos f)) [
    | no ahead ↦
        rw (seek_to_ahead target f s (omega arith))
          (seek_forward-At target f s p (omega arith) fits small)
    | yes behind ↦
        let k = R.rewinds f s p in
        let f' = (rewind_call C f s).1 in
        let r =
          seek_forward-At target f' (rewind_call C f s).2 k.1 (omega (arith, k.2))
            (omega (arith, k.3)) (omega (arith, k.3)) in
        rw (seek_to_behind target f s behind k.0) (record {
          answer = r.answer;
          there = r.there;
          same_len = r.same_len ∙ k.3;
          readable = r.readable;
        })
  ]

  seek_to-files : (target : ℕ) (f : C.Desc) (s : Shim C) → (seek_to C target f s).2.files ≡ s.files
  unfolding seek_to seek_forward skip_call rewind_call call
  seek_to-files target f s = ground arith

  -- What the range check lets through and what it refuses.
  seek_passes :
      (h off whence : ℤ) (s : Shim C) (base n : ℕ)
      → bad_file C h s ≡ false
      → seek_base C whence (desc_at C h s) ≡ some base
      → pos base +ℤ off ≡ pos n
      → n ≤ C.file_len (desc_at C h s)
      → let (rc, f, s₁) = seek_to C n (desc_at C h s) s in
        ff_file_seek C h off whence s ≡ (rc, put_desc C h f s₁)
  unfolding ff_file_seek
  seek_passes h off whence s base n e b z le =
      let fits : ltb_ℤ (pos (C.file_len (desc_at C h s))) (pos n) ≡ false = ground arith in
      rw (e, b, z, ff_file_seek) (rw fits refl)

  seek_beyond :
      (h off whence : ℤ) (s : Shim C) (base n : ℕ)
      → bad_file C h s ≡ false
      → seek_base C whence (desc_at C h s) ≡ some base
      → pos base +ℤ off ≡ pos n
      → C.file_len (desc_at C h s) < n
      → ff_file_seek C h off whence s ≡ (negsuc 104, s)
  unfolding ff_file_seek
  seek_beyond h off whence s base n e b z lt =
      let over : ltb_ℤ (pos (C.file_len (desc_at C h s))) (pos n) ≡ true = ground arith in
      rw (e, b, z, ff_file_seek) (rw over refl)

  seek_before :
      (h off whence : ℤ) (s : Shim C) (base n : ℕ)
      → bad_file C h s ≡ false
      → seek_base C whence (desc_at C h s) ≡ some base
      → pos base +ℤ off ≡ negsuc n
      → ff_file_seek C h off whence s ≡ (negsuc 104, s)
  unfolding ff_file_seek
  seek_before h off whence s base n e b z = rw (e, b, z, ff_file_seek) refl

  stored :
      (h : ℤ) (f : C.Desc) (s s' : Shim C)
      → pos_part h < length s.files
      → s'.files ≡ s.files
      → desc_at C h (put_desc C h f s') ≡ f
  unfolding desc_at put_desc
  stored h f s s' lt e =
      get_or-set_self s'.files (pos_part h) f C.blank_desc (omega (arith, ap length e))

  -- A seek on a handle that reads a file of less than 2^31 bytes. A target inside the file, its end
  -- included, is reached: the seek answers the target, the position is the target, and the file's
  -- length and readability are as before. Any other target is refused, and nothing changes.
  pub ff_file_seek_lem :
      (h off whence : ℤ) (s : Shim C) (base : ℕ)
      → bad_file C h s ≡ false
      → pos_part h < length s.files
      → Reads (desc_at C h s)
      → seek_base C whence (desc_at C h s) ≡ some base
      → C.file_len (desc_at C h s) < 2 ^ 31
      → let target = pos base +ℤ off in
        let len = C.file_len (desc_at C h s) in
        let (rc, s') = ff_file_seek C h off whence s in
        ((n : ℕ)
          → target ≡ pos n
          → n ≤ len
          → (rc ≡ pos n)
            × (C.file_pos (desc_at C h s') ≡ n)
            × (C.file_len (desc_at C h s') ≡ len)
            × Reads (desc_at C h s'))
        × ((n : ℕ) → target ≡ pos n → len < n → ff_file_seek C h off whence s ≡ (negsuc 104, s))
        × ((n : ℕ) → target ≡ negsuc n → ff_file_seek C h off whence s ≡ (negsuc 104, s))
  ff_file_seek_lem h off whence s base e inside p b small = (
    λ n z le.
        let r = seek_to-At n (desc_at C h s) s p le small in
        let (rc, f, s₁) = seek_to C n (desc_at C h s) s in
        let kept = stored h f s s₁ inside (seek_to-files n (desc_at C h s) s) in
        rw (seek_passes h off whence s base n e b z le, kept)
          (r.answer, r.there, r.same_len, r.readable),
    λ n z lt. seek_beyond h off whence s base n e b z lt,
    λ n z. seek_before h off whence s base n e b z,
  )
