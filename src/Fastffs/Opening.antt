-- ===== src/Fastffs/Opening.antt =====
-- ff_open of bindings/fastffs/shim.c: the mode, the pool and the core's answer, on every branch.
use flash_vis.Common.{
  ℕ, ◌<◌, true, false, List, length, get_or, set, none, some, ℤ, pos, eqb_ℤ, eqb_ℤ_iff, bit_or, ◌⊎◌,
  ◌≡◌, refl, arith, ◌≢◌, Option-cases, Bool-cases, inl, inr,
}
use flash_vis.Abi.Pool.{first_free, first_free-some, first_free-none}
use flash_vis.Fastffs.{Core, Shim, max_files, max_dirs, call, write_flags}
use flash_vis.Fastffs.Files.{open_call, open_slot, open_flags, ff_open}

module _ (C : Core) where
  -- The arrays keep their sizes.
  pub record IsValid (s : Shim C) : Type 0 where
    pub files_size : length s.files ≡ max_files
    pub file_used_size : length s.file_used ≡ max_files
    pub dirs_size : length s.dirs ≡ max_dirs
    pub dir_used_size : length s.dir_used ≡ max_dirs

  -- The flags that the two modes stand for: reading, and writing a file anew.
  abbrev pub FlagsOf : ℤ → ℕ → Type 0
  FlagsOf mode flags =
      ((mode ≡ pos 0) × (flags ≡ C.o_rdonly))
      ⊎ ((mode ≡ pos 1) × (flags ≡ bit_or (bit_or C.o_wronly C.o_create) C.o_trunc))

  -- The slot that an open takes: free, and the lowest such.
  pub record IsLowest (h : ℕ) (s : Shim C) : Type 0 where
    pub in_pool : h < max_files
    pub free : get_or s.file_used h true ≡ false
    pub lowest : (j : ℕ) → j < h → get_or s.file_used j false ≡ true

  -- What an open can come to, by the mode, the pool and what the core answers on the slot.
  pub data Opening (name : List ℕ) (mode : ℤ) (s : Shim C) (r : ℤ × Shim C) : Type 0 where
    bad_mode : mode ≢ pos 0 → mode ≢ pos 1 → r ≡ (C.err_invalid, s) → Opening name mode s r
    exhausted :
        (flags : ℕ)
        → FlagsOf mode flags
        → ((j : ℕ) → j < max_files → get_or s.file_used j false ≡ true)
        → r ≡ (C.err_nomem, s)
        → Opening name mode s r
    refused :
        (flags h : ℕ)
        → FlagsOf mode flags
        → IsLowest h s
        → (open_call C (get_or s.files h C.blank_file) name flags s).0 ≢ C.ok
        → r.0 ≡ (open_call C (get_or s.files h C.blank_file) name flags s).0
        → r.1.file_used ≡ s.file_used
        → Opening name mode s r
    opened :
        (flags h : ℕ)
        → FlagsOf mode flags
        → IsLowest h s
        → (open_call C (get_or s.files h C.blank_file) name flags s).0 ≡ C.ok
        → r.0 ≡ pos h
        → r.1.file_used ≡ set s.file_used h true
        → r.1.files ≡ set s.files h (open_call C (get_or s.files h C.blank_file) name flags s).1
        → Opening name mode s r

  FlagsOf-open_flags : (mode : ℤ) (flags : ℕ) → open_flags C mode ≡ some flags → FlagsOf mode flags
  unfolding open_flags write_flags
  FlagsOf-open_flags mode flags e = ground (arith, eqb_ℤ_iff mode (pos 0), eqb_ℤ_iff mode (pos 1))

  other_mode : (mode : ℤ) → open_flags C mode ≡ none → (mode ≢ pos 0) × (mode ≢ pos 1)
  unfolding open_flags
  other_mode mode e = (
    λ z. absurd (ground (arith, eqb_ℤ_iff mode (pos 0))),
    λ z. absurd (ground (arith, eqb_ℤ_iff mode (pos 0), eqb_ℤ_iff mode (pos 1))),
  )

  open_slot_refuses :
      (name : List ℕ) (flags h : ℕ) (s : Shim C)
      → eqb_ℤ (open_call C (get_or s.files h C.blank_file) name flags s).0 C.ok ≡ false
      → ((open_slot C name flags h s).0
          ≡ (open_call C (get_or s.files h C.blank_file) name flags s).0)
        × ((open_slot C name flags h s).1.file_used ≡ s.file_used)
  unfolding open_slot open_call call
  open_slot_refuses name flags h s e = rw (e, open_slot, open_call, call) (refl, refl)

  open_slot_takes :
      (name : List ℕ) (flags h : ℕ) (s : Shim C)
      → eqb_ℤ (open_call C (get_or s.files h C.blank_file) name flags s).0 C.ok ≡ true
      → ((open_slot C name flags h s).0 ≡ pos h)
        × ((open_slot C name flags h s).1.file_used ≡ set s.file_used h true)
        × ((open_slot C name flags h s).1.files
            ≡ set s.files h (open_call C (get_or s.files h C.blank_file) name flags s).1)
  unfolding open_slot open_call call
  open_slot_takes name flags h s e = rw (e, open_slot, open_call, call) (refl, refl, refl)

  open_slot-Opening :
      (name : List ℕ) (mode : ℤ) (flags h : ℕ) (s : Shim C)
      → IsValid s
      → FlagsOf mode flags
      → first_free s.file_used ≡ some h
      → Opening name mode s (open_slot C name flags h s)
  open_slot-Opening name mode flags h s v fl k =
      let f = first_free-some s.file_used h k in
      let low : IsLowest h s = record {
        in_pool = omega (arith, f.0, v.file_used_size);
        free = f.1;
        lowest = f.2;
      } in
      let rc = (open_call C (get_or s.files h C.blank_file) name flags s).0 in
      elim (Bool-cases (eqb_ℤ rc C.ok)) [
        | inr e ↦
            let r = open_slot_refuses name flags h s e in
            refused flags h fl low (λ z. absurd (ground (arith, eqb_ℤ_iff rc C.ok))) r.0 r.1
        | inl e ↦
            let r = open_slot_takes name flags h s e in
            opened flags h fl low ((eqb_ℤ_iff rc C.ok).0 e) r.0 r.1 r.2
      ]

  -- ff_open refuses a mode other than 0 and 1, and a full pool, without calling the core. Else it calls the
  -- core's open on the lowest free slot with the flags of the mode: where the core answers anything but OK,
  -- that answer is the result and no slot is taken; where it answers OK, the handle is that slot, which alone
  -- becomes used and alone gets a file, the one the core opened.
  pub ff_open-Opening :
      (name : List ℕ) (mode : ℤ) (s : Shim C)
      → IsValid s
      → Opening name mode s (ff_open C name mode s)
  unfolding ff_open
  ff_open-Opening name mode s v = elim (Option-cases (open_flags C mode)) [
    | inl e ↦ bad_mode (other_mode mode e).0 (other_mode mode e).1 (rw (e, ff_open) refl)
    | inr (flags, e) ↦
        let fl = FlagsOf-open_flags mode flags e in
        elim (Option-cases (first_free s.file_used)) [
          | inl k ↦
              exhausted flags fl
                (λ j l. first_free-none s.file_used k j (omega (arith, v.file_used_size)))
                (rw (e, k, ff_open) refl)
          | inr (h, k) ↦ rw (e, k, ff_open) (open_slot-Opening name mode flags h s v fl k)
        ]
  ]
