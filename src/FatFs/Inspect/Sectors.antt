-- ===== src/FatFs/Inspect/Sectors.antt =====
-- The sector-wise writes of fat_inspect.cpp's last steps: what a write of one sector's pages does to that
-- sector and to every other.
use native.Mathlib.Decide.{ℕ_discrete, dec_lt}
use native.Mathlib.Nat.{mul-le-mul_right}
use flash_vis.Common.{
  ℕ, zero, suc, ◌+◌, ◌*◌, ◌≤◌, ◌<◌, List, length, get_or, set, ◌≡◌, ◌≢◌, ◌⊎◌, inl, inr, refl, arith,
  ap, ◌∙◌, length-set, get_or-set_self, get_or-set_ne,
}
use flash_vis.FatFs.Inspect.LiveMap.{put_pages}

pub length-put_pages :
    (n i at : ℕ) (f : ℕ → ℕ → ℕ) (out : List ℕ) → length (put_pages n i at f out) ≡ length out
unfolding put_pages
length-put_pages zero i at f out = refl
length-put_pages (suc n) i at f out = length-put_pages n (suc i) at f _ ∙ length-set out _ _

pub put_pages_outside :
    (n i at : ℕ) (f : ℕ → ℕ → ℕ) (out : List ℕ) (j : ℕ)
    → (j < at + i) ⊎ (at + i + n ≤ j)
    → get_or (put_pages n i at f out) j 0 ≡ get_or out j 0
unfolding put_pages
put_pages_outside zero i at f out j h = refl
put_pages_outside (suc n) i at f out j h =
    put_pages_outside n (suc i) at f _ j (further h)
    ∙ get_or-set_ne out (at + i) j _ 0
        (λ e. elim h [ inl l ↦ absurd (omega arith) | inr l ↦ absurd (omega arith) ])
  where
    further : (j < at + i) ⊎ (at + i + suc n ≤ j) → (j < at + suc i) ⊎ (at + suc i + n ≤ j)
    further (inl l) = inl (omega arith)
    further (inr l) = inr (omega arith)

pub put_pages_inside :
    (n i at : ℕ) (f : ℕ → ℕ → ℕ) (out : List ℕ) (k : ℕ)
    → i ≤ k
    → k < i + n
    → at + k < length out
    → get_or (put_pages n i at f out) (at + k) 0 ≡ f k (get_or out (at + k) 0)
unfolding put_pages
put_pages_inside zero i at f out k h g l = absurd (omega arith)
put_pages_inside (suc n) i at f out k h g l = elim (ℕ_discrete i k) [
  | yes e ↦ rw e (
      put_pages_outside n (suc k) at f _ (at + k) (inl (omega arith))
      ∙ get_or-set_self out (at + k) (f k (get_or out (at + k) 0)) 0 l)
  | no e ↦
      put_pages_inside n (suc i) at f (set out (at + i) (f i (get_or out (at + i) 0))) k
        (omega (arith, e)) (omega arith)
        (rw (length-set out (at + i) (f i (get_or out (at + i) 0))) l)
      ∙ ap (f k) (get_or-set_ne out (at + i) (at + k) _ 0 (λ q. e (omega arith)))
]

module _ (ppp : ℕ) where
  -- A page of sector `q` lies in the map.
  pub inside :
      (q k ndev : ℕ) (out : List ℕ)
      → q < ndev
      → k < ppp
      → ndev * ppp ≤ length out
      → q * ppp + k < length out
  inside q k ndev out h g l =
      omega (arith, mul-le-mul_right {m = suc q} {n = ndev} ppp (omega arith))

  pub put_sector_self :
      (p k : ℕ) (f : ℕ → ℕ → ℕ) (out : List ℕ)
      → k < ppp
      → p * ppp + k < length out
      → get_or (put_pages ppp 0 (p * ppp) f out) (p * ppp + k) 0 ≡ f k (get_or out (p * ppp + k) 0)
  put_sector_self p k f out h l =
      put_pages_inside ppp 0 (p * ppp) f out k (omega arith) (omega arith) l

  pub put_sector_other :
      (p q k : ℕ) (f : ℕ → ℕ → ℕ) (out : List ℕ)
      → p ≢ q
      → k < ppp
      → get_or (put_pages ppp 0 (p * ppp) f out) (q * ppp + k) 0 ≡ get_or out (q * ppp + k) 0
  put_sector_other p q k f out ne h =
      put_pages_outside ppp 0 (p * ppp) f out (q * ppp + k) (side (dec_lt p q))
    where
      side : Dec (p < q) → (q * ppp + k < p * ppp + 0) ⊎ (p * ppp + 0 + ppp ≤ q * ppp + k)
      side (yes l) = inr (omega (arith, mul-le-mul_right {m = suc p} {n = q} ppp l))
      side (no g) =
          inl (omega (arith, mul-le-mul_right {m = suc q} {n = p} ppp (omega (arith, ne))))
