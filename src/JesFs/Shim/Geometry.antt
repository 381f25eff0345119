-- ===== src/JesFs/Shim/Geometry.antt =====
-- The density byte that ff_config of bindings/jesfs/shim.c derives from the geometry.
use native.Mathlib.Nat.{pow-le-pow_right}
use native.Mathlib.Decide.{dec_lt}
use flash_vis.Common.{
  ℕ, zero, suc, ◌+◌, ◌-◌, ◌*◌, ◌%◌, ◌^◌, ◌≤◌, ◌<◌, ◌&&◌, ltb, ◌≡◌, refl, arith, Bool-cases, inl,
  inr, pos,
}
use flash_vis.JesFs.{Consts}
use flash_vis.JesFs.Shim.{Core, Shim, density_loop, clamp, density_of, ff_config}

-- Where the loop stops, begun at `d`.
record Stops (d total r : ℕ) : Type 0 where
  from : d ≤ r
  within : r ≤ 31
  enough : r < 31 → total ≤ 2 ^ r
  least : d < r → 2 ^ (r - 1) < total

density_loop-Stops : (fuel d total : ℕ) → fuel + d ≡ 31 → Stops d total (density_loop fuel d total)
unfolding density_loop
density_loop-Stops zero d total e = record {
  from = omega arith;
  within = omega arith;
  enough = λ l. absurd (omega arith);
  least = λ l. absurd (omega arith);
}
density_loop-Stops (suc fuel) d total e = elim (Bool-cases (ltb (2 ^ d) total && ltb d 31)) [
  | inl k ↦
      let r = density_loop-Stops fuel (suc d) total (omega arith) in
      rw (k, density_loop) (further r (ground arith))
  | inr k ↦
      rw (k, density_loop)
        (record {
          from = omega arith;
          within = omega arith;
          enough = λ l. ground arith;
          least = λ l. absurd (omega arith);
        })
]
  where
    exactly : (n : ℕ) → n ≡ suc d → 2 ^ d < total → 2 ^ (n - 1) < total
    exactly n e h = let p : n - 1 ≡ d = omega arith in rw p h

    further :
        Stops (suc d) total (density_loop fuel (suc d) total)
        → 2 ^ d < total
        → Stops d total (density_loop fuel (suc d) total)
    further r h = record {
      from = omega (arith, r.from);
      within = r.within;
      enough = r.enough;
      least = λ l. elim (dec_lt (suc d) (density_loop fuel (suc d) total)) [
        | yes more ↦ r.least more
        | no last ↦ exactly (density_loop fuel (suc d) total) (omega (arith, r.from)) h
      ];
    }

-- The clamp of a density `r` that fits `total`, by where it lies.
clamped :
    (c : Consts) (total r : ℕ)
    → c.min_density ≤ c.max_density
    → c.max_density ≤ 31
    → Stops 0 total r
    → (c.min_density ≤ clamp c r)
      × (clamp c r ≤ c.max_density)
      × (total ≤ 2 ^ c.max_density → total ≤ 2 ^ clamp c r)
      × (c.min_density < clamp c r → 2 ^ (clamp c r - 1) < total)
unfolding clamp
clamped c total r lo hi s = elim (dec_lt r c.min_density) [
  | yes below ↦
      let e : clamp c r ≡ c.min_density = ground arith in
      let up = pow-le-pow_right {n = 2} (omega arith) {i = r} {j = c.min_density} (omega arith) in
      rw (e, clamp)
        (omega arith, lo, λ f. omega (arith, s.enough (omega arith), up), λ l. absurd (omega arith))
  | no up ↦ elim (dec_lt c.max_density r) [
    | yes above ↦
        let e : clamp c r ≡ c.max_density = ground arith in
        let down =
          pow-le-pow_right {n = 2} (omega arith) {i = c.max_density - 1} {j = r - 1}
            (omega arith) in
        rw (e, clamp) (lo, omega arith, λ f. f, λ l. omega (arith, s.least (omega arith), down))
    | no down ↦
        let e : clamp c r ≡ r = ground arith in
        rw (e, clamp)
          (
            omega arith,
            omega arith,
            λ f. elim (dec_lt r 31) [
              | yes l ↦ s.enough l
              | no g ↦ let m : c.max_density ≡ r = omega (arith, s.within) in rw (← m) f
            ],
            λ l. s.least (omega arith),
          )
  ]
]

module _ (C : Core) where
  -- ff_config answers success and derives a density inside JesFS's window. Where the window reaches
  -- the size of the flash, the density is enough for it; and unless it is the window's lower end, it is
  -- the least that is.
  pub ff_config-density :
      (sector_size sector_count granule : ℕ) (s : Shim C)
      → C.consts.min_density ≤ C.consts.max_density
      → C.consts.max_density ≤ 31
      → let (rc, s') = ff_config C sector_size sector_count granule s in
        let total = sector_size * sector_count % 2 ^ 32 in
        let d = s'.bus.density in
        (rc ≡ pos 0)
        × (C.consts.min_density ≤ d)
        × (d ≤ C.consts.max_density)
        × (total ≤ 2 ^ C.consts.max_density → total ≤ 2 ^ d)
        × (C.consts.min_density < d → 2 ^ (d - 1) < total)
  unfolding ff_config density_of
  ff_config-density sector_size sector_count granule s lo hi =
      let total = sector_size * sector_count % 2 ^ 32 in
      let r =
        clamped C.consts total (density_loop 31 0 total) lo hi
          (density_loop-Stops 31 0 total refl) in
      (refl, r.0, r.1, r.2, r.3)
