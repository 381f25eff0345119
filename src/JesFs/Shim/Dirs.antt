-- ===== src/JesFs/Shim/Dirs.antt =====
-- bindings/jesfs/shim.c: the walks over the JesFS file index, for ff_list, the directory iterators and
-- the committed totals.
use flash_vis.Common.{
  ℕ, zero, suc, ◌+◌, ◌-◌, ◌%◌, ◌^◌, bit_and, Bool, true, false, List, length, get_or, set, Option,
  none, some, ℤ, pos, negsuc, pos_part, eqb_ℤ, is_neg, int_of_u32, if◌then◌else◌, ◌==◌, ltb,
}
use flash_vis.Abi.Pool.{first_free, bad_handle}
use flash_vis.Abi.Name.{copy_name}
use flash_vis.Abi.Listing.{put_entry}
use flash_vis.JesFs.Shim.{Core, Shim, Stat, max_dirs, call}

-- `size == 0xFFFFFFFF ? 0 : size`
unfoldable pub known_size : ℕ → ℕ
known_size n = if n == 0xFFFFFFFF then 0 else n

-- What fs_info's result says of an index entry.
pub data Entry : Type 0 where
  index_end : Entry
  broken : ℤ → Entry
  unused : Entry
  active : Stat → Entry

-- `struct commit_acc`
pub record Acc : Type 0 where
  pub files : ℕ
  pub bytes : ℕ

module _ (C : Core) where
  -- The tests on fs_info's result, in their order.
  unfoldable pub entry_of : ℤ → Stat → Entry
  entry_of rc st =
      if eqb_ℤ rc C.stat_index
      then index_end
      else if is_neg rc
      then broken rc
      else if bit_and (pos_part rc) C.stat_active == 0
      then unused
      else active st

  unfoldable pub info_call : ℕ → Shim C → Entry × Shim C
  unfolding entry_of
  info_call n s =
      let ((rc, st, i), s') = call C (C.fs_info n s.info) s in
      (entry_of rc st, record s' { info = i })

  -- `(uint16_t)(sflash_info.files_used + 1u)`
  unfoldable pub index_limit : Shim C → ℕ
  index_limit s = (C.files_used s.info + 1) % 2 ^ 16

  -- The loop of ff_list from index `i`, with `rounds` left before the limit and `n` bytes written.
  unfoldable pub list_loop : ℕ → ℕ → ℕ → ℕ → List ℕ → Shim C → ℤ × List ℕ × Shim C
  list_loop zero i room n out s = (int_of_u32 n, out, s)
  list_loop (suc rounds) i room n out s =
      let (entry, s') = info_call i s in
      let next : ℤ × List ℕ × Shim C = elim entry [
        | index_end ↦ (int_of_u32 n, out, s')
        | broken rc ↦ (rc, out, s')
        | unused ↦ list_loop rounds (suc i) room n out s'
        | active st ↦
            let (count, out') = put_entry room n st.fname (known_size st.file_len) out in
            elim count [
              | none ↦ (int_of_u32 n, out', s')
              | some m ↦ list_loop rounds (suc i) room m out' s'
            ]
      ] in
      if ltb n room then next else (int_of_u32 n, out, s)

  unfoldable pub ff_list : List ℕ → Shim C → ℤ × List ℕ × Shim C
  unfolding index_limit
  ff_list out s = list_loop (index_limit s) 0 (length out) 0 out s

  unfoldable pub ff_dir_open : Option (List ℕ) → Shim C → ℤ × Shim C
  ff_dir_open prefix s = elim (first_free s.dir_used) [
    | none ↦ (negsuc 116, s)
    | some h ↦
        (pos h, record s { dir_cursor = set s.dir_cursor h 0; dir_used = set s.dir_used h true })
  ]

  abbrev pub bad_dir : ℤ → Shim C → Bool
  bad_dir h s = bad_handle max_dirs s.dir_used h

  -- The loop of ff_dir_read from the cursor `i`, with `rounds` left before the limit.
  unfoldable pub dir_loop : ℕ → ℕ → ℕ → ℕ → List ℕ → Shim C → ℤ × List ℕ × Shim C
  dir_loop zero i h room out s = (negsuc 0, out, s)
  dir_loop (suc rounds) i h room out s =
      let (entry, s') = info_call i (record s { dir_cursor = set s.dir_cursor h (suc i) }) in
      elim entry [
        | index_end ↦ (negsuc 0, out, s')
        | broken rc ↦ (negsuc 1, out, s')
        | unused ↦ dir_loop rounds (suc i) h room out s'
        | active st ↦ (int_of_u32 (known_size st.file_len), copy_name room st.fname out, s')
      ]

  unfoldable pub ff_dir_read : ℤ → ℕ → List ℕ → Shim C → ℤ × List ℕ × Shim C
  unfolding index_limit
  ff_dir_read h room out s =
      let i = get_or s.dir_cursor (pos_part h) 0 in
      if bad_dir h s
      then (negsuc 1, out, s)
      else dir_loop (index_limit s - i) i (pos_part h) room out s

  unfoldable pub ff_dir_close : ℤ → Shim C → Shim C
  ff_dir_close h s =
      if bad_dir h s then s else record s { dir_used = set s.dir_used (pos_part h) false }

  -- The loop of committed_walk.
  unfoldable pub commit_loop : ℕ → ℕ → Acc → Shim C → Acc × Shim C
  commit_loop zero i acc s = (acc, s)
  commit_loop (suc rounds) i acc s =
      let (entry, s') = info_call i s in
      elim entry [
        | index_end ↦ (acc, s')
        | broken rc ↦ (acc, s')
        | unused ↦ commit_loop rounds (suc i) acc s'
        | active st ↦
            commit_loop rounds (suc i)
              (record {
                files = (acc.files + 1) % 2 ^ 32;
                bytes = (acc.bytes + known_size st.file_len) % 2 ^ 32;
              })
              s'
      ]

  unfoldable pub set_quiet : Bool → Shim C → Shim C
  set_quiet q s = let b = s.bus in record s { bus = record b { quiet = q } }

  unfoldable pub committed_walk : Shim C → Acc × Shim C
  unfolding set_quiet index_limit
  committed_walk s =
      let (acc, s') =
        commit_loop (index_limit s) 0 (record { files = 0; bytes = 0 }) (set_quiet true s) in
      if s.mounted then (acc, set_quiet false s') else (record { files = 0; bytes = 0 }, s)

  unfoldable pub ff_committed_files : Shim C → ℕ × Shim C
  ff_committed_files s = let (acc, s') = committed_walk s in (acc.files, s')

  unfoldable pub ff_committed_bytes : Shim C → ℕ × Shim C
  ff_committed_bytes s = let (acc, s') = committed_walk s in (acc.bytes, s')
