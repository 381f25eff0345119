-- ===== src/Fastffs/Inspect.antt =====
-- bindings/fastffs/shim.c: the two classifications for the visualizer, and the capability bits.
use flash_vis.Common.{
  ℕ, zero, suc, ◌+◌, ◌-◌, ◌*◌, ◌/◌, ◌%◌, ◌^◌, bit_or, Bool, true, false, not, ◌&&◌, ◌||◌, List, [],
  ◌∷◌, set, Option, none, some, replicate, ℤ, ltb, ◌==◌, if◌then◌else◌,
}
use flash_vis.Nor
use flash_vis.Nor.{Nor}
use flash_vis.Fastffs.{Core, Shim, Footer, call}

-- `for (i = 0; i < SIZE; i++) if (footer[i] != 0xff) { blank = 0; break; }`
unfoldable pub is_blank : List ℕ → Bool
is_blank [] = true
is_blank (b ∷ bs) = (b == 255) && is_blank bs

module _ (C : Core) where
  -- The class of one decoded footer that is not blank.
  unfoldable pub footer_class : Footer → ℕ
  footer_class v =
      let tomb = not (v.valid_bits == C.bits_mixed) && (v.tombstone_bits == C.bits_cleared) in
      if not v.magic_valid || not (v.type == C.type_file)
      then 4
      else if C.lifecycle_is_live v.valid_bits v.tombstone_bits
      then 1
      else if tomb
      then 2
      else 4

  -- One round of the loop: the class of sector `k`.
  unfoldable pub sector_class : ℕ → Shim C → ℕ
  unfolding is_blank footer_class
  sector_class k s =
      let foff = (k * s.sector_size + s.sector_size + 2 ^ 32 - C.footer_size) % 2 ^ 32 in
      let (rc, footer, nor') = Nor.read_quiet foff (replicate C.footer_size 0) s.nor in
      if ltb k (C.index_sectors s.fs)
      then 3
      else if is_blank footer
      then 0
      else footer_class (C.decode_footer footer)

  unfoldable pub classes_from : ℕ → ℕ → List ℕ → Shim C → List ℕ
  unfolding sector_class
  classes_from zero k out s = out
  classes_from (suc n) k out s = classes_from n (suc k) (set out k (sector_class k s)) s

  unfoldable pub ff_sector_classes : List ℕ → Shim C → ℤ × List ℕ
  unfolding classes_from
  ff_sector_classes out s =
      if not s.mounted then (C.err_invalid, out) else (C.ok, classes_from s.sector_count 0 out s)

  -- The walk between `g_quiet = 1` and `g_quiet = 0`.
  unfoldable pub live_map_walk : List ℕ → ℕ → Shim C → ℤ × List ℕ × Shim C
  live_map_walk out page_size s =
      let pages = s.sector_size * s.sector_count % 2 ^ 32 / page_size in
      let ((rc, out'), s₁) =
        call C (C.inspect_live_map s.be out pages page_size) (record s { quiet = true }) in
      (rc, out', record s₁ { quiet = false })

  -- `none` is the trap of a division by zero.
  unfoldable pub ff_live_map : List ℕ → ℕ → Shim C → Option (ℤ × List ℕ × Shim C)
  ff_live_map out page_size s =
      if not s.mounted
      then some (C.err_invalid, out, s)
      else if page_size == 0
      then none
      else some (live_map_walk out page_size s)

-- FF_CAP_GC, FF_CAP_SECTOR_CLASSES, FF_CAP_LIVE_MAP, FF_CAP_APPEND.
abbrev pub cap_gc : ℕ
cap_gc = 2 ^ 0

abbrev pub cap_sector_classes : ℕ
cap_sector_classes = 2 ^ 1

abbrev pub cap_live_map : ℕ
cap_live_map = 2 ^ 2

abbrev pub cap_append : ℕ
cap_append = 2 ^ 3

unfoldable pub ff_abi_version : ℕ
ff_abi_version = 1

unfoldable pub ff_caps : ℕ
ff_caps = bit_or (bit_or cap_gc cap_sector_classes) cap_live_map
