-- ===== src/JesFs/Inspect/Laws.antt =====
-- What the live map of bindings/jesfs/jesfs_inspect.c holds for every page.
use native.Mathlib.Decide.{dec_lt}
use native.Mathlib.Nat.{div-lt_iff_lt-mul, mul-le-mul, div-le_self}
use flash_vis.Common.{
  ℕ, zero, suc, ◌+◌, ◌-◌, ◌*◌, ◌/◌, ◌%◌, ◌^◌, ◌≤◌, ◌<◌, true, false, ◌&&◌, List, length, get_or,
  set, replicate, pos, negsuc, ltb, leb, ◌==◌, if◌then◌else◌, ◌≡◌, refl, arith, ap, ◌∙◌, length-set,
  [], ◌∷◌, ◌||◌, ◌≢◌, Bool-cases, inl, inr, take, drop, length-take, length-drop, get_or-overlay,
  get_or-replicate, ==_iff,
}
use flash_vis.Nor
use flash_vis.Nor.{Nor}
use flash_vis.Nor.Traffic.{get_or-subarray, length-subarray, get_or_default}
use flash_vis.Nor.Laws.{get_or-set_if}
use flash_vis.Abi.Spread.{spread_from, spread_from_at, nonzero}
use flash_vis.JesFs.{Consts}
use flash_vis.JesFs.Shim.{Core, Shim}
use flash_vis.JesFs.Inspect.{
  cls_erased, cls_meta, cls_obsolete, cls_live, word_of, class_of, classify_sector, classify_from,
  sector_classes, refuses, ff_live_map,
}

classify_from_at :
    (c : Consts) (n s size : ℕ) (d : Nor) (sc : List ℕ) (j : ℕ)
    → j < length sc
    → get_or (classify_from c n s size d sc) j 0 ≡ (
        if leb s j && ltb j (s + n) then classify_sector c (j * size % 2 ^ 32) d else get_or sc j 0)
unfolding classify_from
classify_from_at c zero s size d sc j h = ground arith
classify_from_at c (suc n) s size d sc j h =
    let v = classify_sector c (s * size % 2 ^ 32) d in
    ground (
      arith,
      classify_from_at c n (suc s) size d (set sc s v) j (rw (length-set sc s v) h),
      get_or-set_if sc s j v 0 h,
      ap (λ i. classify_sector c (i * size % 2 ^ 32) d) {x = s} {y = j},
    )

-- The 32-bit little-endian word at a place of the chip; past its end there are ones.
abbrev pub magic_at : List ℕ → ℕ → ℕ
magic_at flash a =
    get_or flash a 255
    + get_or flash (a + 1) 255 * 2 ^ 8
    + get_or flash (a + 2) 255 * 2 ^ 16
    + get_or flash (a + 3) 255 * 2 ^ 24

abbrev pub class_of_magic : Consts → ℕ → ℕ
class_of_magic c m =
    if m == 0xFFFFFFFF
    then cls_erased
    else if m == c.magic_head_active || m == c.magic_data
    then cls_live
    else cls_obsolete

past_end : (xs : List ℕ) (i d : ℕ) → length xs ≤ i → get_or xs i d ≡ d
past_end [] i d h = refl
past_end (x ∷ xs) zero d h = absurd (omega arith)
past_end (x ∷ xs) (suc i) d h = past_end xs i d (omega arith)

outside_read :
    (flash : List ℕ) (a i : ℕ)
    → i < 4
    → length flash ≤ a + i
    → get_or (Nor.subarray flash a (replicate 4 255)) i 255 ≡ get_or flash (a + i) 255
unfolding Nor.subarray
outside_read flash a i h n = ground (
  arith,
  get_or-overlay (take 4 (drop a flash)) (replicate 4 255) i 255 h,
  length-take 4 (drop a flash),
  length-drop a flash,
  get_or-replicate {A = ℕ} 4 i 255 255 h,
  past_end flash (a + i) 255 n,
)

-- A byte read into a buffer of ones.
byte_read :
    (flash : List ℕ) (a i : ℕ)
    → i < 4
    → get_or (Nor.subarray flash a (replicate 4 255)) i 0 ≡ get_or flash (a + i) 255
byte_read flash a i h =
    let buf : List ℕ = replicate 4 255 in
    get_or_default (Nor.subarray flash a buf) i 0 255 (omega (arith, length-subarray flash a buf))
    ∙ elim (dec_lt (a + i) (length flash)) [
      | yes l ↦ get_or-subarray flash a buf i h l
      | no n ↦ outside_read flash a i h (omega (arith, n))
    ]

class_of-magic : (c : Consts) (m : ℕ) → class_of c m ≡ class_of_magic c m
unfolding class_of
class_of-magic c m = ground arith

classify_sector-magic :
    (c : Consts) (a : ℕ) (d : Nor) → classify_sector c a d ≡ class_of_magic c (magic_at d.flash a)
unfolding classify_sector word_of Nor.read_quiet
classify_sector-magic c a d =
    class_of-magic c _
    ∙ rw
        (
          byte_read d.flash a 0 (omega arith),
          byte_read d.flash a 1 (omega arith),
          byte_read d.flash a 2 (omega arith),
          byte_read d.flash a 3 (omega arith),
        )
        (ap
          (λ k. class_of_magic c (
            get_or d.flash k 255
            + get_or d.flash (a + 1) 255 * 2 ^ 8
            + get_or d.flash (a + 2) 255 * 2 ^ 16
            + get_or d.flash (a + 3) 255 * 2 ^ 24))
          {x = a + 0} {y = a} (omega arith))

module _ (C : Core) where
  -- The class of sector `j`, by the magic on the chip: metadata for the first sector.
  abbrev pub class_at : ℕ → Shim C → ℕ
  class_at j s =
      if j == 0
      then cls_meta
      else class_of_magic C.consts (magic_at s.bus.nor.flash (j * s.sector_size))

  -- What the caller has to see to: a mounted JesFS, a geometry that the buffers hold, and a page size that
  -- divides the sector.
  abbrev pub Passes : ℕ → Shim C → Type 0
  Passes page_size s =
      (s.mounted ≡ true)
      × (s.sector_count ≤ 256)
      × (s.sector_size ≤ 4096)
      × (page_size ≢ 0)
      × (s.sector_size % page_size ≡ 0)

  sector_classes_at :
      (s : Shim C) (j : ℕ)
      → j < s.sector_count
      → s.sector_count ≤ 256
      → s.sector_size ≤ 4096
      → get_or (sector_classes C s) j 0 ≡ class_at j s
  unfolding sector_classes
  sector_classes_at s zero h n z =
      classify_from_at C.consts (s.sector_count - 1) 1 s.sector_size s.bus.nor
        (set (replicate 256 0) 0 cls_meta) 0 (omega arith)
  sector_classes_at s (suc j) h n z =
      let k =
        classify_from_at C.consts (s.sector_count - 1) 1 s.sector_size s.bus.nor
          (set (replicate 256 0) 0 cls_meta) (suc j) (omega arith) in
      let wide : suc j * s.sector_size ≤ 256 * 4096 = mul-le-mul {n₂ = 256} (omega arith) z in
      let e : suc j * s.sector_size % 2 ^ 32 ≡ suc j * s.sector_size = omega arith in
      let here : (leb 1 (suc j) && ltb (suc j) (1 + (s.sector_count - 1))) ≡ true = ground arith in
      let other : (suc j == 0) ≡ false = ground arith in
      k ∙ rw (here, e, other) (classify_sector-magic C.consts (suc j * s.sector_size) s.bus.nor)

  passed : (page_size : ℕ) (s : Shim C) → refuses C page_size s ≡ false → Passes page_size s
  unfolding refuses
  passed page_size s e =
      let rest : (s.mounted ≡ true)
          × (s.sector_count ≤ 256)
          × (s.sector_size ≤ 4096)
          × ((page_size == 0) ≡ false)
          × ((s.sector_size % page_size == 0) ≡ true) =
        ground arith in
      (
        rest.0,
        rest.1,
        rest.2,
        λ z. absurd (ground (arith, rest.3)),
        (==_iff (s.sector_size % page_size) 0).0 rest.4,
      )

  not_refused : (page_size : ℕ) (s : Shim C) → Passes page_size s → refuses C page_size s ≡ false
  unfolding refuses
  not_refused page_size s (m, n, z, p, d) = ground (arith, ==_iff (s.sector_size % page_size) 0)

  page_at :
      (out : List ℕ) (page_size p : ℕ) (s : Shim C)
      → refuses C page_size s ≡ false
      → p < length out
      → let per = s.sector_size / page_size in
        get_or (spread_from (s.sector_count * per % 2 ^ 32) 0 per (sector_classes C s) out) p 0
        ≡ (if ltb p (s.sector_count * per) then class_at (p / per) s else get_or out p 0)
  page_at out page_size p s e l =
      let per = s.sector_size / page_size in
      let g = passed page_size s e in
      let narrow : per ≤ 4096 = omega (arith, div-le_self s.sector_size page_size, g.2) in
      let wide : s.sector_count * per ≤ 256 * 4096 = mul-le-mul g.1 narrow in
      let whole : s.sector_count * per % 2 ^ 32 ≡ s.sector_count * per = omega arith in
      rw whole (
        spread_from_at (s.sector_count * per) 0 per (sector_classes C s) out p l
        ∙ elim (dec_lt p (s.sector_count * per)) [
          | yes in_map ↦
              let here : (leb 0 p && ltb p (0 + s.sector_count * per)) ≡ true = ground arith in
              let there : ltb p (s.sector_count * per) ≡ true = ground arith in
              let inside = (div-lt_iff_lt-mul (nonzero s.sector_count per p in_map)).1 in_map in
              rw (here, there) (sector_classes_at s (p / per) inside g.1 g.2)
          | no past ↦ ground arith
        ])

  -- ff_live_map refuses with -1, leaving the map alone, exactly where JesFS is not mounted, there are more than
  -- 256 sectors, a sector is larger than 4096 bytes, or the page size is 0 or does not divide it. Else it
  -- succeeds: every page of sector 0 is metadata, every page of any other sector has the class of the
  -- little-endian magic at its start on the chip (erased for 0xFFFFFFFF, live for an active head or data,
  -- obsolete for anything else), and nothing past the last page is written.
  pub ff_live_map_lem :
      (out : List ℕ) (page_size : ℕ) (s : Shim C)
      → (¬ Passes page_size s → ff_live_map C out page_size s ≡ (negsuc 0, out))
        × (Passes page_size s
            → ((ff_live_map C out page_size s).0 ≡ pos 0)
              × ((p : ℕ)
                  → p < length out
                  → let per = s.sector_size / page_size in
                    get_or (ff_live_map C out page_size s).1 p 0 ≡ (
                      if ltb p (s.sector_count * per)
                      then class_at (p / per) s
                      else get_or out p 0)))
  unfolding ff_live_map
  ff_live_map_lem out page_size s = (
    λ shut. elim (Bool-cases (refuses C page_size s)) [
      | inl e ↦ rw e refl
      | inr e ↦ absurd (shut (passed page_size s e))
    ],
    λ fits.
        let e = not_refused page_size s fits in
        (rw e refl, λ p l. rw (e, ff_live_map) (page_at out page_size p s e l)),
  )
