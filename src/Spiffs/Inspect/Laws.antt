-- ===== src/Spiffs/Inspect/Laws.antt =====
-- The live map of bindings/spiffs/spiffs_inspect.c against the object lookup tables on the chip.
use native.Mathlib.Nat.{mul-le-mul_right}
use flash_vis.Common.{
  ℕ, suc, ◌+◌, ◌-◌, ◌*◌, ◌^◌, ◌≤◌, ◌<◌, true, false, ◌&&◌, List, length, get_or, pos, ltb, leb,
  if◌then◌else◌, bit_and, ◌==◌, ◌≡◌, refl, arith, ap, ◌∙◌,
}
use flash_vis.Abi.Blank.{blank_from, blank_from-ext}
use flash_vis.Spiffs.{Core, Shim}
use flash_vis.Spiffs.Inspect.{
  cls_erased, cls_meta, cls_obsolete, cls_live, entry_id, entry_class, lookup_class, load,
  map_block, map_blocks, ff_live_map,
}
use flash_vis.Spiffs.Inspect.Blocks.{map_block_at, IsLaid, load_at, at_end, map_blocks_quiet}

module _ (C : Core) where
  -- The 16-bit little-endian word at a place of the chip.
  abbrev pub word_at : List ℕ → ℕ → ℕ
  word_at flash a = get_or flash a 255 + get_or flash (a + 1) 255 * 2 ^ 8

  lookup_page_blank :
      (block k : ℕ) (lu : List ℕ) (s : Shim C)
      → let ps = C.cfg_log_page_size s.fs in
        let addr = C.block_to_paddr s.fs block in
        C.lookup_pages s.fs * ps ≤ length lu
        → addr + C.lookup_pages s.fs * ps ≤ length s.nor.flash
        → k < C.lookup_pages s.fs
        → lookup_class C ps (load C block lu s).0 k
          ≡ (if blank_from ps (addr + k * ps) s.nor.flash then cls_erased else cls_meta)
  unfolding lookup_class
  lookup_page_blank block k lu s fits chip low =
      let ps = C.cfg_log_page_size s.fs in
      let addr = C.block_to_paddr s.fs block in
      let row : suc k * ps ≤ C.lookup_pages s.fs * ps =
        mul-le-mul_right {m = suc k} {n = C.lookup_pages s.fs} ps (omega arith) in
      let same = blank_from-ext ps (k * ps) (addr + k * ps) (load C block lu s).0 s.nor.flash λ i l.
        load_at C block lu s (k * ps + i) fits chip (omega (arith, row))
        ∙ ap (λ a. get_or s.nor.flash a 255) {x = addr + (k * ps + i)} {y = addr + k * ps + i}
            (omega arith) in
      rw same refl

  lookup_found :
      (block k : ℕ) (lu out : List ℕ) (s : Shim C)
      → let ps = C.cfg_log_page_size s.fs in
        let addr = C.block_to_paddr s.fs block in
        C.lookup_pages s.fs * ps ≤ length lu
        → addr + C.lookup_pages s.fs * ps ≤ length s.nor.flash
        → k < C.lookup_pages s.fs
        → block * C.pages_per_block s.fs + k < length out
        → get_or
            (map_block C block (load C block lu s).0 out s)
            (block * C.pages_per_block s.fs + k)
            0
          ≡ (if blank_from ps (addr + k * ps) s.nor.flash then cls_erased else cls_meta)
  lookup_found block k lu out s fits chip low l =
      let base = block * C.pages_per_block s.fs in
      let j = base + k in
      let over : (leb (base + C.lookup_pages s.fs) j
            && ltb j (base + C.lookup_pages s.fs + C.lookup_max_entries s.fs))
          ≡ false =
        ground arith in
      let here : (leb base j && ltb j (base + C.lookup_pages s.fs)) ≡ true = ground arith in
      let back : j - base ≡ k = omega arith in
      map_block_at C block (load C block lu s).0 out s j l
      ∙ rw (over, here, back) (lookup_page_blank block k lu s fits chip low)

  entry_id-load :
      (block e : ℕ) (lu : List ℕ) (s : Shim C)
      → let n = C.lookup_pages s.fs * C.cfg_log_page_size s.fs in
        n ≤ length lu
        → C.block_to_paddr s.fs block + n ≤ length s.nor.flash
        → 2 * e + 1 < n
        → entry_id (load C block lu s).0 e
          ≡ word_at s.nor.flash (C.block_to_paddr s.fs block + 2 * e)
  unfolding entry_id
  entry_id-load block e lu s fits chip l =
      let addr = C.block_to_paddr s.fs block in
      let assoc : addr + (2 * e + 1) ≡ addr + 2 * e + 1 = omega arith in
      rw
        (
          load_at C block lu s (2 * e) fits chip (omega arith),
          load_at C block lu s (2 * e + 1) fits chip l,
          assoc,
        )
        refl

  entry_found :
      (block k : ℕ) (lu out : List ℕ) (s : Shim C)
      → let n = C.lookup_pages s.fs * C.cfg_log_page_size s.fs in
        let addr = C.block_to_paddr s.fs block in
        n ≤ length lu
        → addr + n ≤ length s.nor.flash
        → 2 * C.lookup_max_entries s.fs ≤ n
        → C.lookup_pages s.fs ≤ k
        → k < C.lookup_pages s.fs + C.lookup_max_entries s.fs
        → block * C.pages_per_block s.fs + k < length out
        → get_or
            (map_block C block (load C block lu s).0 out s)
            (block * C.pages_per_block s.fs + k)
            0
          ≡ entry_class C (word_at s.nor.flash (addr + 2 * (k - C.lookup_pages s.fs)))
  entry_found block k lu out s fits chip entries low high l =
      let base = block * C.pages_per_block s.fs in
      let j = base + k in
      let here : (leb (base + C.lookup_pages s.fs) j
            && ltb j (base + C.lookup_pages s.fs + C.lookup_max_entries s.fs))
          ≡ true =
        ground arith in
      let back : j - (base + C.lookup_pages s.fs) ≡ k - C.lookup_pages s.fs = omega arith in
      map_block_at C block (load C block lu s).0 out s j l
      ∙ rw (here, back)
          (ap (entry_class C)
            (entry_id-load block (k - C.lookup_pages s.fs) lu s fits chip (omega arith)))

  -- The class of a data page by the object id of its entry: free, deleted, an index page or a data page.
  abbrev pub class_of_id : ℕ → ℕ
  class_of_id id =
      if id == C.obj_id_free
      then cls_erased
      else if id == C.obj_id_deleted
      then cls_obsolete
      else if bit_and id C.obj_id_ix_flag == 0
      then cls_live
      else cls_meta

  entry_class-id : (id : ℕ) → entry_class C id ≡ class_of_id id
  unfolding entry_class
  entry_class-id id = ground arith

  ran :
      (lu out : List ℕ) (page_size : ℕ) (s : Shim C)
      → s.mounted ≡ true
      → 0 < page_size
      → page_size ≡ C.cfg_log_page_size s.fs
      → C.lookup_pages s.fs * page_size ≤ 4096
      → let (map, s') = map_blocks C (C.block_count s.fs) 0 lu out (record s { quiet = true }) in
        ff_live_map C lu out page_size s ≡ (pos 0, map, record s' { quiet = false })
  unfolding ff_live_map
  ran lu out page_size s m p e t = ground arith

  -- Where the live map of a mounted SPIFFS is asked for at its own page size, the call succeeds and
  -- every page has its class: a data page that of the 16-bit object id for it in its block's lookup table on
  -- the chip (erased if free, obsolete if deleted, metadata if it has the index flag, else live), and a
  -- lookup page is erased if all its bytes on the chip are 0xFF and metadata otherwise. The reads leave the
  -- chip and all else as it was, and `g_quiet` is off.
  pub ff_live_map-entry_class :
      (lu out : List ℕ) (page_size : ℕ) (s : Shim C)
      → s.mounted ≡ true
      → 0 < page_size
      → page_size ≡ C.cfg_log_page_size s.fs
      → C.lookup_pages s.fs * page_size ≤ 4096
      → IsLaid C s lu
      → (block k : ℕ) → block < C.block_count s.fs
      → block * C.pages_per_block s.fs + k < length out
      → let (rc, map, s') = ff_live_map C lu out page_size s in
        let pages = C.lookup_pages s.fs in
        let addr = C.block_to_paddr s.fs block in
        let class = get_or map (block * C.pages_per_block s.fs + k) 0 in
        (rc ≡ pos 0)
        × (s' ≡ record s { quiet = false })
        × (k < pages
            → class ≡ (
                if blank_from page_size (addr + k * page_size) s.nor.flash
                then cls_erased
                else cls_meta))
        × (pages ≤ k
            → k < pages + C.lookup_max_entries s.fs
            → class ≡ class_of_id (word_at s.nor.flash (addr + 2 * (k - pages))))
  ff_live_map-entry_class lu out page_size s m p e t laid block k b l =
      let r = ran lu out page_size s m p e t in
      let q₀ : Shim C = record s { quiet = true } in
      let laid' : IsLaid C q₀ lu = record {
        pages_fit = laid.pages_fit;
        entries_fit = laid.entries_fit;
        table_fits = laid.table_fits;
        on_chip = laid.on_chip;
      } in
      (
        ap (λ x. x.0) r,
        ap (λ x. x.2) r
            ∙ ap (λ (x : Shim C). record x { quiet = false })
                (map_blocks_quiet C (C.block_count s.fs) 0 lu out q₀),
        λ low.
            ap (λ x. get_or x.1 (block * C.pages_per_block s.fs + k) 0) r
            ∙ rw e (
                at_end C lu out q₀ block k _ laid' b (omega (arith, laid.pages_fit)) l
                  λ lu' out' z q.
                    lookup_found block k lu' out' q₀ (omega (arith, z, laid.table_fits))
                      (laid.on_chip block b) low q),
        λ low high.
            ap (λ x. get_or x.1 (block * C.pages_per_block s.fs + k) 0) r
            ∙ at_end C lu out q₀ block k _ laid' b (omega (arith, laid.pages_fit)) l
                (λ lu' out' z q.
                  entry_found block k lu' out' q₀ (omega (arith, z, laid.table_fits))
                    (laid.on_chip block b) laid.entries_fit low high q)
            ∙ entry_class-id _,
      )
