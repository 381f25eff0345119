-- ===== src/Fastffs/Quiet.antt =====
-- Inspection: the live map does not disturb the chip, and the sector classes cover every sector.
use flash_vis.Common.{
  ℕ, zero, suc, ◌+◌, ◌*◌, ◌/◌, ◌%◌, ◌^◌, ◌<◌, true, false, List, length, get_or, set, some, ℤ, leb,
  ◌&&◌, ltb, if◌then◌else◌, ◌≡◌, refl, arith, ap, ◌∙◌, ◌≢◌, length-set, [], ◌∷◌, not, ◌==◌, ◌-◌,
  ◌≤◌, take, drop, replicate, overlay, length-take, length-drop, length-replicate, sym, inl, inr,
  Bool-cases,
}
use native.Mathlib.Decide.{dec_lt}
use native.Mathlib.Nat.{mul-le-mul_right}
use flash_vis.Abi.Blank.{blank_from, blank_from-ext}
use flash_vis.Nor
use flash_vis.Nor.{Nor}
use flash_vis.Abi.Backend.{ReadsOnly, run, run-ReadsOnly}
use flash_vis.Nor.Laws.{get_or-set_if}
use flash_vis.Fastffs.{Call, Core, Footer, Shim, call, callbacks, be_read}
use flash_vis.Fastffs.Inspect.{
  ff_live_map, live_map_walk, ff_sector_classes, classes_from, sector_class, footer_class, is_blank,
}

drop-suc : (n a x : ℕ) (fl : List ℕ) → blank_from n (suc a) (x ∷ fl) ≡ blank_from n a fl
drop-suc n a x fl =
    blank_from-ext n (suc a) a (x ∷ fl) fl
      λ i l. ap (λ k. get_or (x ∷ fl) k 255) {x = suc a + i} {y = suc (a + i)} (omega arith)

-- Bytes that are read into a buffer of their own are blank where they are blank on the chip.
is_blank-take :
    (n a : ℕ) (fl : List ℕ) → a + n ≤ length fl → is_blank (take n (drop a fl)) ≡ blank_from n a fl
unfolding is_blank blank_from
is_blank-take zero zero fl h = refl
is_blank-take zero (suc a) fl h = refl
is_blank-take (suc n) zero [] h = absurd (omega arith)
is_blank-take (suc n) zero (x ∷ fl) h =
    ap (λ b. (x == 255) && b) (is_blank-take n zero fl (omega arith) ∙ sym (drop-suc n 0 x fl))
is_blank-take (suc n) (suc a) [] h = absurd (omega arith)
is_blank-take (suc n) (suc a) (x ∷ fl) h =
    is_blank-take (suc n) a fl (omega arith) ∙ sym (drop-suc (suc n) a x fl)

overlay-whole : (src dst : List ℕ) → length src ≡ length dst → overlay src dst ≡ src
unfolding overlay
overlay-whole [] [] e = refl
overlay-whole [] (y ∷ dst) e = absurd (omega arith)
overlay-whole (x ∷ src) [] e = absurd (omega arith)
overlay-whole (x ∷ src) (y ∷ dst) e = ap (λ xs. x ∷ xs) (overlay-whole src dst (omega arith))

subarray-whole :
    (fl : List ℕ) (a n : ℕ)
    → a + n ≤ length fl
    → Nor.subarray fl a (replicate n 0) ≡ take n (drop a fl)
unfolding Nor.subarray
subarray-whole fl a n h = rw (length-replicate {A = ℕ} n 0) (
    overlay-whole (take n (drop a fl)) (replicate n 0)
      (omega (arith, length-take n (drop a fl), length-drop a fl, length-replicate {A = ℕ} n 0)))

module _ (C : Core) where
  silent : (off : ℕ) (buf : List ℕ) (d : Nor) → (be_read C true off buf d).2 ≡ d
  unfolding be_read Nor.read_quiet
  silent off buf d = refl

  quiet_reads : (off : ℕ) (buf : List ℕ) (d : Nor) → ((callbacks C true).on_read off buf d).2 ≡ d
  unfolding callbacks
  quiet_reads off buf d = silent off buf d

  quiet_call :
      {A : Type 0} (m : Call A)
      → ReadsOnly m
      → (s : Shim C)
      → call C m (record s { quiet = true })
        ≡ ((run (callbacks C true) m s.nor).0, record s { quiet = true })
  unfolding call
  quiet_call m w s =
      ap
        (λ (d : Nor).
          let q : Shim C = record s { quiet = true } in
          ((run (callbacks C true) m s.nor).0, record q { nor = d }))
        (run-ReadsOnly (callbacks C true) quiet_reads m w s.nor)

  ff_live_map-mounted :
      (out : List ℕ) (page_size : ℕ) (s : Shim C)
      → s.mounted ≡ true
      → page_size ≢ 0
      → ff_live_map C out page_size s ≡ some (live_map_walk C out page_size s)
  unfolding ff_live_map
  ff_live_map-mounted out page_size s m p = ground arith

  -- The live map of a mounted shim runs the core's walk under quiet reads: where the walk makes no
  -- request but reads, the chip's bytes, wear, counters and events are untouched, `g_quiet` is off again, and
  -- the file system state and the pools are as before.
  pub ff_live_map_quiet :
      (out : List ℕ) (page_size : ℕ) (s : Shim C)
      → s.mounted ≡ true
      → page_size ≢ 0
      → let walk =
          C.inspect_live_map s.be out
            (s.sector_size * s.sector_count % 2 ^ 32 / page_size)
            page_size in
        let r = (run (callbacks C true) walk s.nor).0 in
        ReadsOnly walk → ff_live_map C out page_size s ≡ some (r.0, r.1, record s { quiet = false })
  unfolding live_map_walk
  ff_live_map_quiet out page_size s m p w =
      let walk =
        C.inspect_live_map s.be out (s.sector_size * s.sector_count % 2 ^ 32 / page_size)
          page_size in
      ff_live_map-mounted out page_size s m p
      ∙ ap
          (λ (c : (ℤ × List ℕ) × Shim C).
            let t = c.1 in some (c.0.0, c.0.1, record t { quiet = false }))
          (quiet_call walk w s)

  classes_at :
      (n k : ℕ) (out : List ℕ) (s : Shim C) (j : ℕ)
      → j < length out
      → get_or (classes_from C n k out s) j 0
        ≡ (if leb k j && ltb j (k + n) then sector_class C j s else get_or out j 0)
  unfolding classes_from
  classes_at zero k out s j h = ground arith
  classes_at (suc n) k out s j h =
      let v = sector_class C k s in
      ground (
        arith,
        classes_at n (suc k) (set out k v) s j (rw (length-set out k v) h),
        get_or-set_if out k j v 0 h,
        ap (λ i. sector_class C i s) {x = k} {y = j},
      )

  -- Where the footer of sector `j` lies on the chip.
  abbrev pub footer_start : ℕ → Shim C → ℕ
  footer_start j s = suc j * s.sector_size - C.footer_size

  -- The class of sector `j`, by the index size and the bytes of its footer on the chip: 3 index, 0 erased,
  -- 1 live, 2 a file's tombstone, 4 anything else.
  abbrev pub class_by_chip : ℕ → Shim C → ℕ
  class_by_chip j s =
      let at = footer_start j s in
      let v = C.decode_footer (take C.footer_size (drop at s.nor.flash)) in
      if ltb j (C.index_sectors s.fs)
      then 3
      else if blank_from C.footer_size at s.nor.flash
      then 0
      else if v.magic_valid && v.type == C.type_file
      then (if C.lifecycle_is_live v.valid_bits v.tombstone_bits
          then 1
          else if not (v.valid_bits == C.bits_mixed) && v.tombstone_bits == C.bits_cleared
          then 2
          else 4)
      else 4

  same_footer :
      (v : Footer)
      → footer_class C v ≡ (
          if v.magic_valid && v.type == C.type_file
          then (if C.lifecycle_is_live v.valid_bits v.tombstone_bits
              then 1
              else if not (v.valid_bits == C.bits_mixed) && v.tombstone_bits == C.bits_cleared
              then 2
              else 4)
          else 4)
  unfolding footer_class
  same_footer v = elim (Bool-cases v.magic_valid) [
    | inl m ↦ elim (Bool-cases (v.type == C.type_file)) [
      | inl t ↦ rw (m, t) refl
      | inr t ↦ rw (m, t) refl
    ]
    | inr m ↦ rw m refl
  ]

  sector_class-chip :
      (j : ℕ) (s : Shim C)
      → j < s.sector_count
      → C.footer_size ≤ s.sector_size
      → s.sector_count * s.sector_size ≤ length s.nor.flash
      → s.sector_count * s.sector_size < 2 ^ 32
      → sector_class C j s ≡ class_by_chip j s
  unfolding sector_class Nor.read_quiet
  sector_class-chip j s h f chip narrow =
      let row = mul-le-mul_right {m = suc j} {n = s.sector_count} s.sector_size h in
      let at : (j * s.sector_size + s.sector_size + 2 ^ 32 - C.footer_size) % 2 ^ 32
          ≡ footer_start j s =
        omega (arith, row) in
      let in_chip : footer_start j s + C.footer_size ≤ length s.nor.flash = omega (arith, row) in
      rw
        (
          at,
          subarray-whole s.nor.flash (footer_start j s) C.footer_size in_chip,
          is_blank-take C.footer_size (footer_start j s) s.nor.flash in_chip,
          same_footer (C.decode_footer (take C.footer_size (drop (footer_start j s) s.nor.flash))),
        )
        refl

  -- On a mounted shim whose sectors lie on the chip, hold a footer each and have 32-bit addresses,
  -- ff_sector_classes gives each sector the class of its footer on the chip, 3 for the first sectors, which
  -- hold the index, and writes nothing past the sectors.
  pub ff_sector_classes_lem :
      (out : List ℕ) (s : Shim C) (j : ℕ)
      → s.mounted ≡ true
      → C.footer_size ≤ s.sector_size
      → s.sector_count * s.sector_size ≤ length s.nor.flash
      → s.sector_count * s.sector_size < 2 ^ 32
      → j < length out
      → ((ff_sector_classes C out s).0 ≡ C.ok)
        × (get_or (ff_sector_classes C out s).1 j 0
            ≡ (if ltb j s.sector_count then class_by_chip j s else get_or out j 0))
  unfolding ff_sector_classes
  ff_sector_classes_lem out s j m f chip narrow h = simp m (
    refl,
    classes_at s.sector_count 0 out s j h ∙ elim (dec_lt j s.sector_count) [
      | yes l ↦
          let here : (leb 0 j && ltb j (0 + s.sector_count)) ≡ true = ground arith in
          let there : ltb j s.sector_count ≡ true = ground arith in
          rw (here, there) (sector_class-chip j s l f chip narrow)
      | no n ↦ ground arith
    ],
  )
