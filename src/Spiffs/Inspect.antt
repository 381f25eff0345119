-- ===== src/Spiffs/Inspect.antt =====
-- bindings/spiffs/spiffs_inspect.c: the live map, by the object lookup table of each block. Object ids
-- are 16 bits wide and little-endian.
pub mod Blocks
pub mod Laws
use flash_vis.Common.{
  ℕ, zero, suc, ◌+◌, ◌*◌, ◌%◌, ◌^◌, ◌-◌, bit_and, Bool, true, false, not, ◌||◌, ◌&&◌, List, [], ◌∷◌,
  ◌++◌, get_or, set, take, drop, replicate, length, ℤ, pos, ◌==◌, ltb, if◌then◌else◌,
}
use flash_vis.Nor
use flash_vis.Nor.{Nor}
use flash_vis.Abi.Blank.{blank_from}
use flash_vis.Spiffs.{Core, Shim}

abbrev pub cls_erased : ℕ
cls_erased = 0

abbrev pub cls_meta : ℕ
cls_meta = 1

abbrev pub cls_obsolete : ℕ
cls_obsolete = 2

abbrev pub cls_live : ℕ
cls_live = 3

-- `tbl[e]`
unfoldable pub entry_id : List ℕ → ℕ → ℕ
entry_id lu e = get_or lu (2 * e) 255 + get_or lu (2 * e + 1) 255 * 2 ^ 8

-- `for (i = 0; i < n; i++) out[at + i] = cls(i)` from `i`: what both inner loops do.
unfoldable pub put_each : ℕ → ℕ → ℕ → (ℕ → ℕ) → List ℕ → List ℕ
put_each zero i at cls out = out
put_each (suc n) i at cls out = put_each n (suc i) at cls (set out (at + i) (cls i))

module _ (C : Core) where
  -- The class of a data page, from its lookup entry.
  unfoldable pub entry_class : ℕ → ℕ
  entry_class id =
      if id == C.obj_id_free
      then cls_erased
      else if id == C.obj_id_deleted
      then cls_obsolete
      else if not (bit_and id C.obj_id_ix_flag == 0)
      then cls_meta
      else cls_live

  -- The class of lookup page `lp`.
  unfoldable pub lookup_class : ℕ → List ℕ → ℕ → ℕ
  lookup_class page_size lu lp =
      if blank_from page_size (lp * page_size) lu then cls_erased else cls_meta

  -- The read of a block's lookup pages to the start of the 4096-byte buffer.
  unfoldable pub load : ℕ → List ℕ → Shim C → List ℕ × Shim C
  load block lu s =
      let bytes = C.lookup_pages s.fs * C.cfg_log_page_size s.fs in
      let (rc, got, nor') = Nor.read_quiet (C.block_to_paddr s.fs block) (take bytes lu) s.nor in
      (got ++ drop bytes lu, record s { nor = nor' })

  -- One round of the outer loop.
  unfoldable pub map_block : ℕ → List ℕ → List ℕ → Shim C → List ℕ
  map_block block lu out s =
      let base = block * C.pages_per_block s.fs in
      let pages = C.lookup_pages s.fs in
      put_each (C.lookup_max_entries s.fs) 0 (base + pages) (λ e. entry_class (entry_id lu e))
        (put_each pages 0 base (lookup_class (C.cfg_log_page_size s.fs) lu) out)

  unfoldable pub map_blocks : ℕ → ℕ → List ℕ → List ℕ → Shim C → List ℕ × Shim C
  map_blocks zero block lu out s = (out, s)
  map_blocks (suc n) block lu out s =
      let (lu', s') = load block lu s in
      map_blocks n (suc block) lu' (map_block block lu' out s') s'

  -- `lu` is what the static buffer holds from the call before.
  unfoldable pub ff_live_map : List ℕ → List ℕ → ℕ → Shim C → ℤ × List ℕ × Shim C
  ff_live_map lu out page_size s =
      if not s.mounted
      then (C.err_not_mounted, out, s)
      else if page_size == 0 || not (page_size == C.cfg_log_page_size s.fs)
      then (C.err_internal, out, s)
      else if ltb 4096 (C.lookup_pages s.fs * page_size)
      then (C.err_internal, out, s)
      else let (map, s') = map_blocks (C.block_count s.fs) 0 lu out (record s { quiet = true }) in
        (pos 0, map, record s' { quiet = false })
