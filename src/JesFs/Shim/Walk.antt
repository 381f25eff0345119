-- ===== src/JesFs/Shim/Walk.antt =====
-- The walks of bindings/jesfs/shim.c over the file index, against the list of its active entries.
use flash_vis.Common.{
  ℕ, zero, suc, ◌+◌, ◌-◌, ◌%◌, ◌^◌, ◌<◌, Bool, true, false, List, [], ◌∷◌, length, get_or, set, ℤ,
  negsuc, pos_part, is_neg, int_of_u32, ◌≡◌, refl, arith, ap, ◌∙◌, inl, inr, ◌⊎◌, get_or-set_self,
  length-set, sym, eqb_ℤ, ◌||◌, ◌==◌, bit_and, if◌then◌else◌, Bool-cases,
}
use flash_vis.Abi.Name.{copy_name}
use flash_vis.JesFs.Shim.{Core, Shim, Stat, call}
use flash_vis.JesFs.Shim.Dirs.{
  Entry, index_end, broken, unused, active, Acc, known_size, info_call, index_limit, commit_loop,
  set_quiet, committed_walk, entry_of, ff_committed_files, ff_committed_bytes, dir_loop,
  ff_dir_read, bad_dir,
}

-- The active entries from index `i` on, up to the end of the index, an error or the last round.
pub active_from : (ℕ → Entry) → ℕ → ℕ → List Stat
active_from entry zero i = []
active_from entry (suc rounds) i = elim (entry i) [
  | index_end ↦ []
  | broken rc ↦ []
  | unused ↦ active_from entry rounds (suc i)
  | active st ↦ st ∷ active_from entry rounds (suc i)
]

-- The files of an index from entry `i` on, `rounds` entries at most, by the result and the status that
-- fs_info gives for each: the end of the index and an error end them, and an entry without FS_STAT_ACTIVE
-- is none of them.
unfoldable pub active_files : (C : Core) → (ℕ → ℤ × Stat) → ℕ → ℕ → List Stat
active_files C answer zero i = []
active_files C answer (suc rounds) i =
    let rest = active_files C answer rounds (suc i) in
    let (rc, st) = answer i in
    if eqb_ℤ rc C.stat_index || is_neg rc
    then []
    else if bit_and (pos_part rc) C.stat_active == 0
    then rest
    else st ∷ rest

-- A file that is still open has the length 0xFFFFFFFF, and none to show.
abbrev pub size_of : Stat → ℕ
size_of st = if st.file_len == 0xFFFFFFFF then 0 else st.file_len

unfoldable pub total_bytes : List Stat → ℕ
total_bytes [] = 0
total_bytes (st ∷ sts) = size_of st + total_bytes sts

Entry-cases :
    (e : Entry)
    → (e ≡ index_end)
      ⊎ ((rc : ℤ) × (e ≡ broken rc))
      ⊎ (e ≡ unused)
      ⊎ ((st : Stat) × (e ≡ active st))
Entry-cases index_end = inl refl
Entry-cases (broken rc) = inr (inl (rc, refl))
Entry-cases unused = inr (inr (inl refl))
Entry-cases (active st) = inr (inr (inr (st, refl)))

-- An index for which fs_info gives `answer i` for entry `i`, and which is `limit` entries long, whatever the
-- shim's state among those that `P` holds of; the walks keep to these states.
pub record IsIndex (C : Core) (P : Shim C → Type 0) (answer : ℕ → ℤ × Stat) (limit : ℕ)
    : Type 0 where
  pub answers :
      (i : ℕ) (s : Shim C)
      → P s
      → let (rc, st, info) = (call C (C.fs_info i s.info) s).0 in
        (rc ≡ (answer i).0) × (st ≡ (answer i).1)
  pub stays : (i : ℕ) (s : Shim C) → P s → P (info_call C i s).1
  pub moves : (h i : ℕ) (s : Shim C) → P s → P (record s { dir_cursor = set s.dir_cursor h i })
  pub limits : (s : Shim C) → P s → (C.files_used s.info + 1) % 2 ^ 16 ≡ limit

module _ (C : Core) (P : Shim C → Type 0) (answer : ℕ → ℤ × Stat) (limit : ℕ)
    (I : IsIndex C P answer limit) where
  abbrev entry : ℕ → Entry
  entry i = entry_of C (answer i).0 (answer i).1

  told : (i : ℕ) (s : Shim C) → P s → (info_call C i s).0 ≡ entry i
  unfolding info_call
  told i s p = let a = I.answers i s p in rw (a.0, a.1) refl

  index_limit_lem : (s : Shim C) → P s → index_limit C s ≡ limit
  unfolding index_limit
  index_limit_lem s p = I.limits s p

  active_from-files : (rounds i : ℕ) → active_from entry rounds i ≡ active_files C answer rounds i
  unfolding active_from active_files entry_of
  active_from-files zero i = refl
  active_from-files (suc rounds) i =
      let rc = (answer i).0 in
      let ih = active_from-files rounds (suc i) in
      elim (Bool-cases (eqb_ℤ rc C.stat_index)) [
        | inl e ↦ rw (e, active_from, active_files) refl
        | inr e ↦ elim (Bool-cases (is_neg rc)) [
          | inl n ↦ rw (e, n, active_from, active_files) refl
          | inr n ↦ elim (Bool-cases (bit_and (pos_part rc) C.stat_active == 0)) [
            | inl z ↦ rw (e, n, z, active_from, active_files) ih
            | inr z ↦ rw (e, n, z, active_from, active_files) (ap (λ xs. (answer i).1 ∷ xs) ih)
          ]
        ]
      ]

  commit_loop_sums :
      (rounds i : ℕ) (acc : Acc) (s : Shim C)
      → P s
      → acc.files < 2 ^ 32
      → acc.bytes < 2 ^ 32
      → let found = active_from entry rounds i in
        let r = (commit_loop C rounds i acc s).0 in
        (r.files ≡ (acc.files + length found) % 2 ^ 32)
        × (r.bytes ≡ (acc.bytes + total_bytes found) % 2 ^ 32)
  unfolding commit_loop active_from total_bytes known_size
  commit_loop_sums zero i acc s p f b = (omega arith, omega arith)
  commit_loop_sums (suc rounds) i acc s p f b = elim (Entry-cases (entry i)) [
    | inl e ↦ rw (told i s p, e, commit_loop, active_from) (omega arith, omega arith)
    | inr (inl (rc, e)) ↦ rw (told i s p, e, commit_loop, active_from) (omega arith, omega arith)
    | inr (inr (inl e)) ↦
        rw (told i s p, e, commit_loop, active_from)
          (commit_loop_sums rounds (suc i) acc (info_call C i s).1 (I.stays i s p) f b)
    | inr (inr (inr (st, e))) ↦
        let next : Acc = record {
          files = (acc.files + 1) % 2 ^ 32;
          bytes = (acc.bytes + size_of st) % 2 ^ 32;
        } in
        let r =
          commit_loop_sums rounds (suc i) next (info_call C i s).1 (I.stays i s p) (omega arith)
            (omega arith) in
        rw (told i s p, e, commit_loop, active_from) (r.0 ∙ omega arith, r.1 ∙ omega arith)
  ]

  -- What committed_walk answers, by whether the shim is mounted.
  committed_walk_mounted :
      (s : Shim C)
      → s.mounted ≡ true
      → let r =
          commit_loop C
            (index_limit C s)
            0
            (record { files = 0; bytes = 0 })
            (set_quiet C true s) in
        committed_walk C s ≡ (r.0, set_quiet C false r.1)
  unfolding committed_walk
  committed_walk_mounted s m = ground arith

  committed_walk_unmounted :
      (s : Shim C) → s.mounted ≡ false → committed_walk C s ≡ (record { files = 0; bytes = 0 }, s)
  unfolding committed_walk
  committed_walk_unmounted s m = ground arith

  set_quiet_lem : (q : Bool) (s : Shim C) → (set_quiet C q s).bus.quiet ≡ q
  unfolding set_quiet
  set_quiet_lem q s = refl

  limit_quiet : (s : Shim C) → P (set_quiet C true s) → index_limit C s ≡ limit
  unfolding index_limit set_quiet
  limit_quiet s p = I.limits (set_quiet C true s) p

  sums :
      (s : Shim C)
      → P (set_quiet C true s)
      → s.mounted ≡ true
      → let found = active_files C answer limit 0 in
        ((committed_walk C s).0.files ≡ length found % 2 ^ 32)
        × ((committed_walk C s).0.bytes ≡ total_bytes found % 2 ^ 32)
        × ((committed_walk C s).1.bus.quiet ≡ false)
  sums s p m =
      let e = committed_walk_mounted s m in
      let start : Acc = record { files = 0; bytes = 0 } in
      let r =
        commit_loop_sums (index_limit C s) 0 start (set_quiet C true s) p (omega arith)
          (omega arith) in
      let same = ap (λ n. active_from entry n 0) (limit_quiet s p) ∙ active_from-files limit 0 in
      (
        ap (λ w. w.0.files) e ∙ r.0 ∙ ap (λ xs. (0 + length xs) % 2 ^ 32) same ∙ omega arith,
        ap (λ w. w.0.bytes) e ∙ r.1 ∙ ap (λ xs. (0 + total_bytes xs) % 2 ^ 32) same ∙ omega arith,
        ap (λ w. w.1.bus.quiet) e ∙ set_quiet_lem false _,
      )

  -- For a mounted shim whose file index answers fs_info by the number of the entry, the two committed totals
  -- are the number of entries that have FS_STAT_ACTIVE, up to the end of the index or an error, and the sum
  -- of their sizes, 0 for a file still open, both modulo 2^32, and quiet reads are switched off again; for
  -- one that is not mounted they are 0, and nothing is done.
  pub committed_walk_lem :
      (s : Shim C)
      → P (set_quiet C true s)
      → let found = active_files C answer limit 0 in
        (s.mounted ≡ true
          → ((ff_committed_files C s).0 ≡ length found % 2 ^ 32)
            × ((ff_committed_bytes C s).0 ≡ total_bytes found % 2 ^ 32)
            × ((ff_committed_files C s).1.bus.quiet ≡ false))
        × (s.mounted ≡ false
            → (ff_committed_files C s ≡ (0, s)) × (ff_committed_bytes C s ≡ (0, s)))
  unfolding ff_committed_files ff_committed_bytes
  committed_walk_lem s p = (
    λ m. sums s p m,
    λ m.
        let e = committed_walk_unmounted s m in
        (ap (λ w. (w.0.files, w.1)) e, ap (λ w. (w.0.bytes, w.1)) e),
  )

  info_call-dir_cursor : (i : ℕ) (s : Shim C) → (info_call C i s).1.dir_cursor ≡ s.dir_cursor
  unfolding info_call call
  info_call-dir_cursor i s = refl

  -- What one ff_dir_read may find in the entries that are left, from which directory `h` reads on.
  pub record Found (h room : ℕ) (left : List Stat) (out : List ℕ) (r : ℤ × List ℕ × Shim C)
      : Type 0 where
    pub at_end : left ≡ [] → (is_neg r.0 ≡ true) × (r.1 ≡ out)
    pub entry_read :
        (st : Stat) (rest : List Stat)
        → left ≡ st ∷ rest
        → (r.0 ≡ int_of_u32 (size_of st))
          × (r.1 ≡ copy_name room st.fname out)
          × (let i = get_or r.2.dir_cursor h 0 in active_files C answer (limit - i) i ≡ rest)
          × P r.2

  ends :
      (h room : ℕ) (out : List ℕ) (rc : ℤ) (s : Shim C)
      → is_neg rc ≡ true
      → Found h room [] out (rc, out, s)
  ends h room out rc s n = record {
    at_end = λ k. (n, refl);
    entry_read = λ st rest k. absurd (ground arith);
  }

  hits :
      (i rounds h room : ℕ) (st : Stat) (out : List ℕ) (s : Shim C)
      → get_or s.dir_cursor h 0 ≡ suc i
      → rounds ≡ limit - suc i
      → P s
      → Found h room
          (st ∷ active_from entry rounds (suc i))
          out
          (int_of_u32 (size_of st), copy_name room st.fname out, s)
  hits i rounds h room st out s c e p = record {
    at_end = λ k. absurd (ground arith);
    entry_read = λ st' rest k.
        let same : (st ≡ st') × (active_from entry rounds (suc i) ≡ rest) = ground arith in
        (
          ap (λ (x : Stat). int_of_u32 (size_of x)) same.0,
          ap (λ (x : Stat). copy_name room x.fname out) same.0,
          rw (c, ← e) (sym (active_from-files rounds (suc i)) ∙ same.1),
          p,
        );
  }

  dir_loop-Found :
      (rounds i h room : ℕ) (out : List ℕ) (s : Shim C)
      → P s
      → h < length s.dir_cursor
      → rounds ≡ limit - i
      → Found h room (active_from entry rounds i) out (dir_loop C rounds i h room out s)
  unfolding dir_loop active_from known_size
  dir_loop-Found zero i h room out s p l e = ends h room out (negsuc 0) s refl
  dir_loop-Found (suc rounds) i h room out s p l e =
      let s₀ : Shim C = record s { dir_cursor = set s.dir_cursor h (suc i) } in
      let p₀ = I.moves h (suc i) s p in
      let ans = told i s₀ p₀ in
      let s₁ = (info_call C i s₀).1 in
      let c : s₁.dir_cursor ≡ set s.dir_cursor h (suc i) = info_call-dir_cursor i s₀ in
      elim (Entry-cases (entry i)) [
        | inl k ↦ rw (ans, k, dir_loop, active_from) (ends h room out (negsuc 0) s₁ refl)
        | inr (inl (rc, k)) ↦
            rw (ans, k, dir_loop, active_from) (ends h room out (negsuc 1) s₁ refl)
        | inr (inr (inl k)) ↦
            rw (ans, k, dir_loop, active_from)
              (dir_loop-Found rounds (suc i) h room out s₁ (I.stays i s₀ p₀)
                (omega (arith, ap length c, length-set s.dir_cursor h (suc i))) (omega arith))
        | inr (inr (inr (st, k))) ↦
            rw (ans, k, dir_loop, active_from)
              (hits i rounds h room st out s₁
                (ap (λ xs. get_or xs h 0) c ∙ get_or-set_self s.dir_cursor h (suc i) 0 l)
                (omega arith) (I.stays i s₀ p₀))
      ]

  -- One read of an open directory hands over the first entry from the cursor on that has FS_STAT_ACTIVE, name
  -- and size, 0 for a file still open, and leaves the cursor so that exactly the active entries after it
  -- remain; where the index ends or fails before one, the answer is negative and the caller's buffer is as
  -- it was.
  pub ff_dir_read_lem :
      (h : ℤ) (room : ℕ) (out : List ℕ) (s : Shim C)
      → bad_dir C h s ≡ false
      → P s
      → pos_part h < length s.dir_cursor
      → let i = get_or s.dir_cursor (pos_part h) 0 in
        Found
          (pos_part h)
          room
          (active_files C answer (limit - i) i)
          out
          (ff_dir_read C h room out s)
  unfolding ff_dir_read
  ff_dir_read_lem h room out s e p l =
      let i = get_or s.dir_cursor (pos_part h) 0 in
      rw (e, ff_dir_read)
        (rw (index_limit_lem s p, ← active_from-files (limit - i) i)
          (dir_loop-Found (limit - i) i (pos_part h) room out s p l refl))
