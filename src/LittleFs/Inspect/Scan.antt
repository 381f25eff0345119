-- ===== src/LittleFs/Inspect/Scan.antt =====
-- The blank scan of bindings/littlefs/lfs_inspect.c, block by block.
use native.Mathlib.Decide.{ℕ_discrete}
use native.Mathlib.Nat.{mul-le-mul, mul-le-mul_right}
use flash_vis.Common.{
  ℕ, zero, suc, ◌+◌, ◌*◌, ◌%◌, ◌^◌, ◌≤◌, ◌<◌, Bool, true, false, not, ◌&&◌, ◌||◌, List, length,
  get_or, if◌then◌else◌, ◌==◌, ltb, leb, ◌≡◌, ◌≢◌, refl, arith, ap, ◌∙◌, inl, inr, Bool-cases,
  length-set,
}
use flash_vis.Nor.Laws.{get_or-set_if}
use flash_vis.Abi.Blank.{blank_from, blank-read_quiet, length-read_quiet}
use flash_vis.LittleFs.{Core, Shim}
use flash_vis.LittleFs.Inspect.{Internals, cls_erased, cls_obsolete, scan_block, scan_blocks}

same : (b j : ℕ) → b ≡ j → (leb b j && leb j b) ≡ true
same b j e = ground arith

apart : (b j : ℕ) → b ≢ j → (leb b j && leb j b) ≡ false
apart b j ne = ground arith

pub skip_if {ℓ} : {A : Type ℓ} (b : Bool) (x y : A) → b ≡ false → (if b then x else y) ≡ y
skip_if true x y e = absurd (ground arith)
skip_if false x y e = refl

pub passes : (a b : Bool) → a ≡ true → b ≡ false → (not a || b) ≡ false
passes a b p q = rw (p, q) refl

module _ (C : Core) (I : Internals C) where
  -- What the blank scan makes of the class of block `b`, by the chip.
  abbrev pub scanned : ℕ → ℕ → Shim C → ℕ
  scanned class b s =
      if class == cls_erased
      then (if blank_from s.sector_size (b * s.sector_size) s.nor.flash
          then cls_erased
          else cls_obsolete)
      else class

  length-scan_block :
      (b : ℕ) (bc block : List ℕ) (s : Shim C)
      → (length (scan_block C I b bc block s).0 ≡ length bc)
        × (length (scan_block C I b bc block s).1 ≡ length block)
  unfolding scan_block
  length-scan_block b bc block s = elim (Bool-cases (get_or bc b 0 == cls_erased)) [
    | inr e ↦ rw (e, scan_block) (refl, refl)
    | inl e ↦
        rw (e, scan_block)
          (
            length-set bc b _,
            length-read_quiet s.sector_size (b * s.sector_size % 2 ^ 32) block s.nor,
          )
  ]

  -- The chip is as large as the geometry says, and its addresses fit 32 bits.
  pub record IsSized (s : Shim C) : Type 0 where
    pub blocks : s.sector_count ≤ 256
    pub block_size : s.sector_size ≤ 4096
    pub on_chip : s.sector_count * s.sector_size ≤ length s.nor.flash

  scan_block_at :
      (b : ℕ) (bc block : List ℕ) (s : Shim C) (j : ℕ)
      → IsSized s
      → b < s.sector_count
      → length block ≡ 4096
      → j < length bc
      → get_or (scan_block C I b bc block s).0 j 0
        ≡ (if leb b j && leb j b then scanned (get_or bc j 0) j s else get_or bc j 0)
  unfolding scan_block
  scan_block_at b bc block s j z h k l =
      let a = b * s.sector_size in
      let row : suc b * s.sector_size ≤ s.sector_count * s.sector_size =
        mul-le-mul_right {m = suc b} {n = s.sector_count} s.sector_size (omega arith) in
      let wide : s.sector_count * s.sector_size ≤ 256 * 4096 =
        mul-le-mul {n₂ = 256} z.blocks z.block_size in
      let low : a % 2 ^ 32 ≡ a = omega (arith, row) in
      let blank =
        blank-read_quiet s.sector_size a block s.nor (omega (arith, z.block_size))
          (omega (arith, row, z.on_chip)) in
      elim (Bool-cases (get_or bc b 0 == cls_erased)) [
        | inr e ↦ rw (e, scan_block) (kept bc b j s e)
        | inl e ↦
            rw (e, scan_block) (rw (low, blank) (get_or-set_if bc b j _ 0 l ∙ found bc b j s e))
      ]
    where
      kept :
          (bc : List ℕ) (b j : ℕ) (s : Shim C)
          → (get_or bc b 0 == cls_erased) ≡ false
          → get_or bc j 0
            ≡ (if leb b j && leb j b then scanned (get_or bc j 0) j s else get_or bc j 0)
      kept bc b j s e = elim (ℕ_discrete b j) [
        | no ne ↦ rw (apart b j ne) refl
        | yes q ↦
            let e' : (get_or bc j 0 == cls_erased) ≡ false = rw (← q) e in rw (same b j q, e') refl
      ]

      found :
          (bc : List ℕ) (b j : ℕ) (s : Shim C)
          → (get_or bc b 0 == cls_erased) ≡ true
          → (if leb b j && leb j b
              then (if blank_from s.sector_size (b * s.sector_size) s.nor.flash
                  then cls_erased
                  else cls_obsolete)
              else get_or bc j 0)
            ≡ (if leb b j && leb j b then scanned (get_or bc j 0) j s else get_or bc j 0)
      found bc b j s e = elim (ℕ_discrete b j) [
        | no ne ↦ rw (apart b j ne) refl
        | yes q ↦
            let e' : (get_or bc j 0 == cls_erased) ≡ true = rw (← q) e in
            rw (same b j q, e') (ap (λ k. scanned 0 k s) q)
      ]

  pub scan_blocks_at :
      (n b : ℕ) (bc block : List ℕ) (s : Shim C) (j : ℕ)
      → IsSized s
      → b + n ≤ s.sector_count
      → length block ≡ 4096
      → j < length bc
      → get_or (scan_blocks C I n b bc block s) j 0
        ≡ (if leb b j && ltb j (b + n) then scanned (get_or bc j 0) j s else get_or bc j 0)
  unfolding scan_blocks
  scan_blocks_at zero b bc block s j z h k l = ground arith
  scan_blocks_at (suc n) b bc block s j z h k l =
      let (bc', block') = scan_block C I b bc block s in
      let sizes = length-scan_block b bc block s in
      let rest =
        scan_blocks_at n (suc b) bc' block' s j z (omega arith) (sizes.1 ∙ k)
          (omega (arith, sizes.0, l)) in
      let one = scan_block_at b bc block s j z (omega arith) k l in
      rest
      ∙ joined (get_or bc' j 0) (get_or bc j 0) (scanned (get_or bc' j 0) j s)
          (scanned (get_or bc j 0) j s) one (λ e. ap (λ c. scanned c j s) e)
    where
      joined :
          (c' c v' v : ℕ)
          → c' ≡ (if leb b j && leb j b then v else c)
          → (c' ≡ c → v' ≡ v)
          → (if leb (suc b) j && ltb j (suc b + n) then v' else c')
            ≡ (if leb b j && ltb j (b + suc n) then v else c)
      joined c' c v' v e f = ground (arith, f)
