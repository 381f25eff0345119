-- ===== src/Abi/Return.antt =====
-- How the shims return from the fill loop: the count as an `int`, or the error.
use flash_vis.Common.{
  ℕ, ◌+◌, ◌-◌, ◌^◌, ◌<◌, List, ◌++◌, length, take, drop, Option, none, some, ℤ, pos, int_of_u32,
  ◌≡◌, refl, arith, ap, ap₂, ◌∙◌, min,
}
use flash_vis.Abi.Fill.{
  Outcome, Filled, filled, broke, unfinished, fill_loop, fill_loop-Fills, IsReader,
}

-- `none` stands for rounds beyond the fuel, which is one for each byte of the buffer.
unfoldable pub fill_result : Filled → Option ℤ
fill_result (filled total) = some (int_of_u32 total)
fill_result (broke e) = some e
fill_result unfinished = none

-- A count below 2^31 is returned as it is.
count_fits : (n : ℕ) → n < 2 ^ 31 → int_of_u32 n ≡ pos n
count_fits n h = ground arith

module _ {S : Type 0} (step : S → List ℕ → Outcome × List ℕ × S) (left : S → List ℕ)
    (R : IsReader step left) where
  -- The whole loop, from an empty buffer.
  pub filled_from :
      (out : List ℕ) (s : S)
      → length out < 2 ^ 31
      → let r = fill_loop step (length out) (length out) 0 out s in
        let m = min (length out) (length (left s)) in
        (fill_result r.0 ≡ some (pos m)) × (r.1 ≡ take m (left s) ++ drop m out)
  unfolding fill_result
  filled_from out s h =
      let f =
        fill_loop-Fills step left R (length out) (length out) 0 out s refl (omega arith)
          (omega arith) in
      let z : 0 + min (length out - 0) (length (left s)) ≡ min (length out) (length (left s)) =
        omega arith in
      let y : min (length out - 0) (length (left s)) ≡ min (length out) (length (left s)) =
        omega arith in
      (
        rw (f.ends, z) (ap some (count_fits _ (omega arith))),
        f.bytes ∙ ap₂ ◌++◌ (ap (λ k. take k (left s)) y) (ap (λ k. drop k out) z),
      )
