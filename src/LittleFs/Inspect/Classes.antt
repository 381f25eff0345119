-- ===== src/LittleFs/Inspect/Classes.antt =====
-- The live map of bindings/littlefs/lfs_inspect.c: the class of every page.
use native.Mathlib.Decide.{dec_lt}
use native.Mathlib.Nat.{div-lt_iff_lt-mul, mul-le-mul, div-le_self}
use flash_vis.Common.{
  ℕ, ◌+◌, ◌*◌, ◌/◌, ◌%◌, ◌^◌, ◌≤◌, ◌<◌, true, false, not, ◌&&◌, ◌||◌, List, length, get_or,
  replicate, Option, none, some, ℤ, pos, eqb_ℤ, if◌then◌else◌, ltb, leb, ◌≡◌, refl, arith, ap, ◌∙◌,
  length-replicate,
}
use flash_vis.Abi.Spread.{spread_from, spread_from_at, nonzero}
use flash_vis.LittleFs.{Core, Shim}
use flash_vis.LittleFs.Inspect.Kept.{Kept, classify_live-Kept}
use flash_vis.LittleFs.Inspect.{
  Internals, cls_erased, classify_live, scan_blocks, refuses, ff_live_map,
}
use flash_vis.LittleFs.Inspect.Scan.{skip_if, passes, scanned, IsSized, scan_blocks_at}

module _ (C : Core) (I : Internals C) where
  passed :
      (page_size : ℕ) (s : Shim C)
      → refuses C I page_size s ≡ false
      → (s.sector_count ≤ 256) × (s.sector_size ≤ 4096)
  unfolding refuses
  passed page_size s e = ground arith

  -- The spread of the scanned C I classes, over a context as large as the geometry says.
  page_at :
      (bc block out : List ℕ) (page_size p : ℕ) (s : Shim C)
      → IsSized C I s
      → length block ≡ 4096
      → length bc ≡ 256
      → p < length out
      → let per = s.sector_size / page_size in
        get_or
          (spread_from
            (s.sector_count * per % 2 ^ 32)
            0
            per
            (scan_blocks C I s.sector_count 0 bc block s)
            out)
          p
          0
        ≡ (if ltb p (s.sector_count * per)
            then scanned C I (get_or bc (p / per) 0) (p / per) s
            else get_or out p 0)
  page_at bc block out page_size p s z k len l =
      let per = s.sector_size / page_size in
      let bc' = scan_blocks C I s.sector_count 0 bc block s in
      let narrow : per ≤ 4096 = omega (arith, div-le_self s.sector_size page_size, z.block_size) in
      let wide : s.sector_count * per ≤ 256 * 4096 = mul-le-mul {n₂ = 256} z.blocks narrow in
      let whole : s.sector_count * per % 2 ^ 32 ≡ s.sector_count * per = omega arith in
      rw whole (
        spread_from_at (s.sector_count * per) 0 per bc' out p l
        ∙ elim (dec_lt p (s.sector_count * per)) [
          | yes in_map ↦
              let here : (leb 0 p && ltb p (0 + s.sector_count * per)) ≡ true = ground arith in
              let there : ltb p (s.sector_count * per) ≡ true = ground arith in
              let inside = (div-lt_iff_lt-mul (nonzero s.sector_count per p in_map)).1 in_map in
              let b = p / per in
              let all : (leb 0 b && ltb b (0 + s.sector_count)) ≡ true = ground arith in
              rw (here, there)
                (scan_blocks_at C I s.sector_count 0 bc block s b z (omega arith) k
                    (omega (arith, len, z.blocks))
                  ∙ rw all refl)
          | no past ↦ ground arith
        ])

  page_at_geometry :
      (bc block out : List ℕ) (page_size p : ℕ) (s : Shim C) (count size : ℕ)
      → s.sector_count ≡ count
      → s.sector_size ≡ size
      → IsSized C I s
      → length block ≡ 4096
      → length bc ≡ 256
      → p < length out
      → let per = size / page_size in
        get_or
          (spread_from (count * per % 2 ^ 32) 0 per (scan_blocks C I count 0 bc block s) out)
          p
          0
        ≡ (if ltb p (count * per)
            then scanned C I (get_or bc (p / per) 0) (p / per) s
            else get_or out p 0)
  page_at_geometry bc block out page_size p s count size c z sized k len l =
      rw (← c, ← z) (page_at bc block out page_size p s sized k len l)

  -- The geometry is that of the start.
  abbrev pub walked : ℕ → Shim C → Option ℤ × List ℕ × Shim C
  walked fuel s = classify_live C I fuel (replicate 256 cls_erased) (record s { quiet = true })

  walked-Kept :
      (fuel : ℕ) (s : Shim C)
      → Kept C s.sector_count s.sector_size (length s.nor.flash) (walked fuel s).1 (walked fuel s).2
  walked-Kept fuel s =
      classify_live-Kept C s.sector_count s.sector_size (length s.nor.flash) I fuel
        (replicate 256 cls_erased) (record s { quiet = true })
        (record {
          classes = length-replicate 256 cls_erased;
          same_count = refl;
          same_size = refl;
          chip = refl;
        })

  shown :
      (fuel : ℕ) (block out : List ℕ) (page_size : ℕ) (s : Shim C)
      → s.mounted ≡ true
      → refuses C I page_size s ≡ false
      → (walked fuel s).0 ≡ some (pos 0)
      → let s₁ = (walked fuel s).2 in
        let per = s.sector_size / page_size in
        ff_live_map C I fuel block out page_size s ≡ (
          some (pos 0),
          spread_from
              (s.sector_count * per % 2 ^ 32)
              0
              per
              (scan_blocks C I s.sector_count 0 (walked fuel s).1 block s₁)
              out,
          record s₁ { quiet = false },
        )
  unfolding ff_live_map
  shown fuel block out page_size s m e w =
      skip_if (not s.mounted || refuses C I page_size s) (some C.err_inval, out, s) _
        (passes s.mounted (refuses C I page_size s) m e)
      ∙ ap
          (λ (r : Option ℤ). elim r as (λ y. Option ℤ × List ℕ × Shim C) [
            | none ↦ (none, out, record (walked fuel s).2 { quiet = false })
            | some e' ↦
                let s₁ = (walked fuel s).2 in
                let per = s.sector_size / page_size in
                if eqb_ℤ e' (pos 0)
                then (
                  some (pos 0),
                  spread_from (s.sector_count * per % 2 ^ 32) 0 per
                      (scan_blocks C I s.sector_count 0 (walked fuel s).1 block s₁) out,
                  record s₁ { quiet = false },
                )
                else (some e', out, record s₁ { quiet = false })
          ])
          w

  -- Where the walk over a mounted littlefs ends well, the call succeeds and every page of the map has the
  -- class of its block: the one that the walk gave the block or, where the walk did not come to it, erased
  -- if every byte of the block on the chip is 0xFF and obsolete otherwise. Past the last page the map is as
  -- it was.
  pub ff_live_map-scanned :
      (fuel : ℕ) (block out : List ℕ) (page_size : ℕ) (s : Shim C)
      → s.mounted ≡ true
      → refuses C I page_size s ≡ false
      → length block ≡ 4096
      → s.sector_count * s.sector_size ≤ length s.nor.flash
      → (walked fuel s).0 ≡ some (pos 0)
      → let (rc, map, s') = ff_live_map C I fuel block out page_size s in
        let per = s.sector_size / page_size in
        (rc ≡ some (pos 0))
        × ((p : ℕ)
            → p < length out
            → get_or map p 0 ≡ (
                if ltb p (s.sector_count * per)
                then scanned C I (get_or (walked fuel s).1 (p / per) 0) (p / per) (walked fuel s).2
                else get_or out p 0))
  ff_live_map-scanned fuel block out page_size s m e k chip w =
      let r = shown fuel block out page_size s m e w in
      let z = passed page_size s e in
      let kept = walked-Kept fuel s in
      let sized : IsSized C I (walked fuel s).2 = record {
        blocks = rw kept.same_count z.0;
        block_size = rw kept.same_size z.1;
        on_chip = rw (kept.same_count, kept.same_size, kept.chip) chip;
      } in
      (
        ap (λ x. x.0) r,
        λ p l.
            ap (λ x. get_or x.1 p 0) r
            ∙ page_at_geometry (walked fuel s).1 block out page_size p (walked fuel s).2
                s.sector_count s.sector_size kept.same_count kept.same_size sized k kept.classes l,
      )
