-- ===== src/JesFs/Inspect.antt =====
-- bindings/jesfs/jesfs_inspect.c: the live map, by the magic at the start of each sector.
pub mod Laws
use flash_vis.Common.{
  ℕ, zero, suc, ◌+◌, ◌-◌, ◌*◌, ◌/◌, ◌%◌, ◌^◌, Bool, true, false, not, ◌||◌, List, [], ◌∷◌, get_or,
  set, replicate, ℤ, pos, negsuc, ◌==◌, ltb, if◌then◌else◌,
}
use flash_vis.Nor
use flash_vis.Nor.{Nor}
use flash_vis.Abi.Spread.{spread_from}
use flash_vis.JesFs.{Consts}
use flash_vis.JesFs.Shim.{Core, Shim}

abbrev pub cls_erased : ℕ
cls_erased = 0

abbrev pub cls_meta : ℕ
cls_meta = 1

abbrev pub cls_obsolete : ℕ
cls_obsolete = 2

abbrev pub cls_live : ℕ
cls_live = 3

-- A `uint32_t` in the memory of WASM, which is little-endian.
unfoldable pub word_of : List ℕ → ℕ
word_of b = get_or b 0 0 + get_or b 1 0 * 2 ^ 8 + get_or b 2 0 * 2 ^ 16 + get_or b 3 0 * 2 ^ 24

-- `switch (magic)`
unfoldable pub class_of : Consts → ℕ → ℕ
class_of c magic =
    if magic == 0xFFFFFFFF
    then cls_erased
    else if magic == c.magic_head_active
    then cls_live
    else if magic == c.magic_data
    then cls_live
    else if magic == c.magic_head_deleted
    then cls_obsolete
    else if magic == c.magic_todelete
    then cls_obsolete
    else cls_obsolete

unfoldable pub classify_sector : Consts → ℕ → Nor → ℕ
classify_sector c sadr d =
    class_of c (word_of (Nor.read_quiet sadr (255 ∷ 255 ∷ 255 ∷ 255 ∷ []) d).1)

-- `for (s = 1; s < nsect; s++) sc[s] = classify_sector(s * g_sector_size)` from `s`, `n` rounds.
unfoldable pub classify_from : Consts → ℕ → ℕ → ℕ → Nor → List ℕ → List ℕ
classify_from c zero s size d sc = sc
classify_from c (suc n) s size d sc =
    classify_from c n (suc s) size d (set sc s (classify_sector c (s * size % 2 ^ 32) d))

-- The classes of the sectors; what `sc` held before is not read.
unfoldable pub sector_classes : (C : Core) → Shim C → List ℕ
sector_classes C s =
    classify_from C.consts (s.sector_count - 1) 1 s.sector_size s.bus.nor
      (set (replicate 256 0) 0 cls_meta)

-- The checks before the walk.
unfoldable pub refuses : (C : Core) → ℕ → Shim C → Bool
refuses C page_size s =
    not s.mounted
    || ltb 256 s.sector_count
    || ltb 4096 s.sector_size
    || page_size == 0
    || not (s.sector_size % page_size == 0)

unfoldable pub ff_live_map : (C : Core) → List ℕ → ℕ → Shim C → ℤ × List ℕ
ff_live_map C out page_size s =
    let per = s.sector_size / page_size in
    if refuses C page_size s
    then (negsuc 0, out)
    else (pos 0, spread_from (s.sector_count * per % 2 ^ 32) 0 per (sector_classes C s) out)
