-- ===== src/Abi/Spread.antt =====
-- The last step of the inspection hooks whose filesystem knows no smaller unit than a sector: every page
-- takes the class of its sector.
use flash_vis.Common.{
  ℕ, zero, suc, ◌+◌, ◌*◌, ◌/◌, ◌<◌, ◌&&◌, List, length, get_or, set, ltb, leb, if◌then◌else◌, ◌≡◌,
  arith, ap, length-set,
}
use flash_vis.Nor.Laws.{get_or-set_if}

-- `for (p = 0; p < total_pages; p++) out[p] = sc[p / pages_per_sector]` from `p`, `n` rounds.
unfoldable pub spread_from : ℕ → ℕ → ℕ → List ℕ → List ℕ → List ℕ
spread_from zero p per sc out = out
spread_from (suc n) p per sc out = spread_from n (suc p) per sc (set out p (get_or sc (p / per) 0))

pub spread_from_at :
    (n p per : ℕ) (sc out : List ℕ) (j : ℕ)
    → j < length out
    → get_or (spread_from n p per sc out) j 0
      ≡ (if leb p j && ltb j (p + n) then get_or sc (j / per) 0 else get_or out j 0)
unfolding spread_from
spread_from_at zero p per sc out j h = ground arith
spread_from_at (suc n) p per sc out j h =
    let v = get_or sc (p / per) 0 in
    ground (
      arith,
      spread_from_at n (suc p) per sc (set out p v) j (rw (length-set out p v) h),
      get_or-set_if out p j v 0 h,
      ap (λ i. get_or sc (i / per) 0) {x = p} {y = j},
    )

pub nonzero : (m n p : ℕ) → p < m * n → 0 < n
nonzero m zero p h = absurd (omega arith)
nonzero m (suc n) p h = omega arith
