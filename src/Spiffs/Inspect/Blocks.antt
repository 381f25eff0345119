-- ===== src/Spiffs/Inspect/Blocks.antt =====
-- The loop of bindings/spiffs/spiffs_inspect.c over the blocks: what it stores for each entry.
use native.Mathlib.Decide.{ℕ_discrete}
use native.Mathlib.Nat.{mul-le-mul_right}
use flash_vis.Common.{
  ℕ, zero, suc, ◌+◌, ◌-◌, ◌*◌, ◌≤◌, ◌<◌, ◌&&◌, List, length, get_or, set, take, drop, ltb, leb,
  if◌then◌else◌, ◌≡◌, refl, arith, ap, ◌∙◌, length-set, length-take, length-drop, length-append,
}
use flash_vis.Nor
use flash_vis.Nor.Laws.{get_or-set_if}
use flash_vis.Nor.Traffic.{get_or-subarray, length-subarray}
use flash_vis.Abi.Blank.{get_or-append_left}
use flash_vis.Spiffs.{Core, Shim}
use flash_vis.Spiffs.Inspect.{
  entry_id, put_each, entry_class, lookup_class, load, map_block, map_blocks,
}

length-put_each :
    (n i at : ℕ) (cls : ℕ → ℕ) (out : List ℕ) → length (put_each n i at cls out) ≡ length out
unfolding put_each
length-put_each zero i at cls out = refl
length-put_each (suc n) i at cls out =
    length-put_each n (suc i) at cls (set out (at + i) (cls i)) ∙ length-set out (at + i) (cls i)

put_each_at :
    (n i at : ℕ) (cls : ℕ → ℕ) (out : List ℕ) (j : ℕ)
    → j < length out
    → get_or (put_each n i at cls out) j 0
      ≡ (if leb (at + i) j && ltb j (at + i + n) then cls (j - at) else get_or out j 0)
unfolding put_each
put_each_at zero i at cls out j h = ground arith
put_each_at (suc n) i at cls out j h = ground (
  arith,
  put_each_at n (suc i) at cls (set out (at + i) (cls i)) j
      (rw (length-set out (at + i) (cls i)) h),
  get_or-set_if out (at + i) j (cls i) 0 h,
  ap cls {x = i} {y = j - at},
)

module _ (C : Core) where
  length-map_block :
      (block : ℕ) (lu out : List ℕ) (s : Shim C) → length (map_block C block lu out s) ≡ length out
  unfolding map_block
  length-map_block block lu out s = length-put_each _ _ _ _ _ ∙ length-put_each _ _ _ _ out

  pub map_block_at :
      (block : ℕ) (lu out : List ℕ) (s : Shim C) (j : ℕ)
      → j < length out
      → let base = block * C.pages_per_block s.fs in
        let pages = C.lookup_pages s.fs in
        get_or (map_block C block lu out s) j 0 ≡ (
          if leb (base + pages) j && ltb j (base + pages + C.lookup_max_entries s.fs)
          then entry_class C (entry_id lu (j - (base + pages)))
          else if leb base j && ltb j (base + pages)
          then lookup_class C (C.cfg_log_page_size s.fs) lu (j - base)
          else get_or out j 0)
  unfolding map_block
  map_block_at block lu out s j h =
      let base = block * C.pages_per_block s.fs in
      let pages = C.lookup_pages s.fs in
      let first = put_each pages 0 base (lookup_class C (C.cfg_log_page_size s.fs) lu) out in
      ground (
        arith,
        put_each_at (C.lookup_max_entries s.fs) 0 (base + pages)
            (λ e. entry_class C (entry_id lu e)) first j
            (rw (length-put_each pages 0 base (lookup_class C (C.cfg_log_page_size s.fs) lu) out)
              h),
        put_each_at pages 0 base (lookup_class C (C.cfg_log_page_size s.fs) lu) out j h,
      )

  -- The macros fit together, and no block's table lies past the chip or the buffer.
  pub record IsLaid (s : Shim C) (lu : List ℕ) : Type 0 where
    pub pages_fit : C.lookup_pages s.fs + C.lookup_max_entries s.fs ≤ C.pages_per_block s.fs
    pub entries_fit : 2 * C.lookup_max_entries s.fs ≤ C.lookup_pages s.fs * C.cfg_log_page_size s.fs
    pub table_fits : C.lookup_pages s.fs * C.cfg_log_page_size s.fs ≤ length lu
    pub on_chip :
        (block : ℕ)
        → block < C.block_count s.fs
        → C.block_to_paddr s.fs block + C.lookup_pages s.fs * C.cfg_log_page_size s.fs
          ≤ length s.nor.flash

  length-load :
      (block : ℕ) (lu : List ℕ) (s : Shim C)
      → C.lookup_pages s.fs * C.cfg_log_page_size s.fs ≤ length lu
      → length (load C block lu s).0 ≡ length lu
  unfolding load Nor.read_quiet
  length-load block lu s h =
      let n = C.lookup_pages s.fs * C.cfg_log_page_size s.fs in
      omega (
        arith,
        length-append (Nor.subarray s.nor.flash (C.block_to_paddr s.fs block) (take n lu))
            (drop n lu),
        length-subarray s.nor.flash (C.block_to_paddr s.fs block) (take n lu),
        length-take n lu,
        length-drop n lu,
      )

  pub load_at :
      (block : ℕ) (lu : List ℕ) (s : Shim C) (i : ℕ)
      → let n = C.lookup_pages s.fs * C.cfg_log_page_size s.fs in
        n ≤ length lu
        → C.block_to_paddr s.fs block + n ≤ length s.nor.flash
        → i < n
        → get_or (load C block lu s).0 i 255
          ≡ get_or s.nor.flash (C.block_to_paddr s.fs block + i) 255
  unfolding load Nor.read_quiet
  load_at block lu s i h g l =
      let n = C.lookup_pages s.fs * C.cfg_log_page_size s.fs in
      let a = C.block_to_paddr s.fs block in
      let size : length (take n lu) ≡ n = omega (arith, length-take n lu) in
      get_or-append_left (Nor.subarray s.nor.flash a (take n lu)) (drop n lu) i 255
        (omega (arith, length-subarray s.nor.flash a (take n lu), size))
      ∙ get_or-subarray s.nor.flash a (take n lu) i (omega (arith, size)) (omega arith)

  -- Quiet reads leave all of the state as it is.
  pub map_blocks_quiet :
      (n block : ℕ) (lu out : List ℕ) (s : Shim C) → (map_blocks C n block lu out s).1 ≡ s
  unfolding map_blocks load Nor.read_quiet
  map_blocks_quiet zero block lu out s = refl
  map_blocks_quiet (suc n) block lu out s =
      let lu' = (load C block lu s).0 in
      map_blocks_quiet n (suc block) lu' (map_block C block lu' out s) s

  -- What a page holds is not touched by the rounds of later blocks.
  map_blocks_later :
      (n block : ℕ) (lu out : List ℕ) (s : Shim C) (j : ℕ)
      → C.lookup_pages s.fs + C.lookup_max_entries s.fs ≤ C.pages_per_block s.fs
      → j < length out
      → j < block * C.pages_per_block s.fs
      → get_or (map_blocks C n block lu out s).0 j 0 ≡ get_or out j 0
  unfolding map_blocks load Nor.read_quiet
  map_blocks_later zero block lu out s j fit l h = refl
  map_blocks_later (suc n) block lu out s j fit l h =
      let lu' = (load C block lu s).0 in
      let out' = map_block C block lu' out s in
      map_blocks_later n (suc block) lu' out' s j fit (rw (length-map_block block lu' out s) l) (
        omega (
          arith,
          mul-le-mul_right {m = block} {n = suc block} (C.pages_per_block s.fs) (omega arith),
        ))
      ∙ map_block_at block lu' out s j l
      ∙ ground arith

  -- What block `b` puts into page `j`, whatever the buffers hold by then, is there at the end.
  map_blocks_at :
      (n block b : ℕ) (lu out : List ℕ) (s : Shim C) (j size v : ℕ)
      → C.lookup_pages s.fs + C.lookup_max_entries s.fs ≤ C.pages_per_block s.fs
      → C.lookup_pages s.fs * C.cfg_log_page_size s.fs ≤ size
      → j < suc b * C.pages_per_block s.fs
      → ((lu' out' : List ℕ)
          → length lu' ≡ size
          → j < length out'
          → get_or (map_block C b (load C b lu' s).0 out' s) j 0 ≡ v)
      → length lu ≡ size
      → j < length out
      → block ≤ b
      → b < block + n
      → get_or (map_blocks C n block lu out s).0 j 0 ≡ v
  unfolding map_blocks load Nor.read_quiet
  map_blocks_at zero block b lu out s j size v fit t h found e l le lt = absurd (omega arith)
  map_blocks_at (suc n) block b lu out s j size v fit t h found e l le lt =
      let lu' = (load C block lu s).0 in
      let out' = map_block C block lu' out s in
      let l' : j < length out' = rw (length-map_block block lu' out s) l in
      let e' : length lu' ≡ size = length-load block lu s (omega arith) ∙ e in
      elim (ℕ_discrete block b) [
        | yes same ↦
            map_blocks_later n (suc block) lu' out' s j fit l' (rw same h)
            ∙ ap (λ k. get_or (map_block C k (load C k lu s).0 out s) j 0) same
            ∙ found lu out e l
        | no other ↦
            map_blocks_at n (suc block) b lu' out' s j size v fit t h found e' l'
              (omega (arith, other)) (omega arith)
      ]

  -- The whole walk, for a page of one block.
  pub at_end :
      (lu out : List ℕ) (s : Shim C) (block k v : ℕ)
      → IsLaid s lu
      → block < C.block_count s.fs
      → k < C.pages_per_block s.fs
      → block * C.pages_per_block s.fs + k < length out
      → ((lu' out' : List ℕ)
          → length lu' ≡ length lu
          → block * C.pages_per_block s.fs + k < length out'
          → get_or
              (map_block C block (load C block lu' s).0 out' s)
              (block * C.pages_per_block s.fs + k)
              0
            ≡ v)
      → get_or
          (map_blocks C (C.block_count s.fs) 0 lu out s).0
          (block * C.pages_per_block s.fs + k)
          0
        ≡ v
  at_end lu out s block k v laid b fits l found =
      map_blocks_at (C.block_count s.fs) 0 block lu out s (block * C.pages_per_block s.fs + k)
        (length lu) v laid.pages_fit laid.table_fits (omega arith) found refl l (omega arith)
        (omega arith)
