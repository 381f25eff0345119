-- ===== src/FatFs/Inspect/FileMarks.antt =====
-- bindings/fatfs/fat_inspect.cpp: mark_file on a whole chain of clusters.
use native.Mathlib.Decide.{dec_lt}
use native.Mathlib.Nat.{mul-le-mul_right}
use flash_vis.Common.{
  ℕ, zero, suc, ◌+◌, ◌-◌, ◌*◌, ◌/◌, ◌%◌, ◌^◌, ◌<◌, ◌≤◌, min, true, List, ◌∷◌, length, get_or,
  if◌then◌else◌, ltb, ltb→lt, leb→le, ◌≡◌, ◌≢◌, ◌⊎◌, inl, inr, refl, arith, ap, ◌∙◌,
}
use flash_vis.FatFs.Inspect.{
  Scan, cls_live, cls_slack, mark_bytes, mark_cluster, mark_chain, mark_file, is_cluster,
  fat12_entry,
}
use flash_vis.FatFs.Inspect.Marking.{length-mark_pages}
use flash_vis.FatFs.Inspect.Clusters.{sector_of, Geometry, mark_cluster_in, mark_cluster_out}
use flash_vis.FatFs.Inspect.Chains.{Chain, stray, last, link, member_ok, places_inj, few}

-- The chain of a volume whose FAT is `w.fat`.
abbrev pub ChainOf : Scan → ℕ → List ℕ → Type 0
ChainOf w = Chain (fat12_entry w.fat w.fat_len) (λ x. is_cluster x w)

above_two : (c : ℕ) (w : Scan) → is_cluster c w ≡ true → 2 ≤ c
unfolding is_cluster
above_two c w h = ground (arith, leb→le 2 c)

below_end : (c : ℕ) (w : Scan) → is_cluster c w ≡ true → c - 2 < w.nclusters
unfolding is_cluster
below_end c w h =
    let above = above_two c w h in
    let below : c < (w.nclusters + 2) % 2 ^ 32 =
      ground (arith, ltb→lt c ((w.nclusters + 2) % 2 ^ 32)) in
    omega (arith, above, below)

-- Different clusters are different sectors.
sector_of_inj :
    (c d : ℕ) (w : Scan)
    → is_cluster c w ≡ true
    → is_cluster d w ≡ true
    → sector_of c w ≡ sector_of d w
    → c ≡ d
sector_of_inj c d w h g e = omega (arith, above_two c w h, above_two d w g, e)

-- Page `k` of another sector lies outside.
elsewhere :
    (ppp p q k : ℕ) → p ≢ q → k < ppp → (p * ppp + k < q * ppp) ⊎ (q * ppp + ppp ≤ p * ppp + k)
elsewhere ppp p q k ne h = elim (dec_lt p q) [
  | yes l ↦ inl (omega (arith, h, mul-le-mul_right {m = suc p} {n = q} ppp l))
  | no g ↦ inr (omega (arith, mul-le-mul_right {m = suc q} {n = p} ppp (omega (arith, ne, g))))
]

module _ (ppp pgsz : ℕ) (positive : 0 < pgsz) where
  mark_bytes-Geometry :
      (b0 b1 cls : ℕ) (w : Scan)
      → Geometry ppp pgsz positive w
      → Geometry ppp pgsz positive (mark_bytes b0 b1 cls w)
  unfolding mark_bytes
  mark_bytes-Geometry b0 b1 cls w g = record {
    page = g.page;
    sector = g.sector;
    volume = g.volume;
    fits =
        rw
          (length-mark_pages (min b1 (w.nlog * w.ss)) (b0 / w.pgsz) (min b1 (w.nlog * w.ss)) w.pgsz
            cls w.logpg)
          g.fits;
    narrow = g.narrow;
  }

  mark_cluster-Geometry :
      (c i size : ℕ) (w : Scan)
      → Geometry ppp pgsz positive w
      → Geometry ppp pgsz positive (mark_cluster c i size w)
  unfolding mark_cluster
  mark_cluster-Geometry c i size w g =
      mark_bytes-Geometry _ _ cls_slack _ (mark_bytes-Geometry _ _ cls_live w g)

  mark_chain_out :
      (n i c size : ℕ) (cs : List ℕ) (w : Scan) (p k : ℕ)
      → Geometry ppp pgsz positive w
      → ChainOf w c cs
      → i + n ≤ suc w.nclusters
      → ((j : ℕ) → j < length cs → p ≢ sector_of (get_or cs j 0) w)
      → k < ppp
      → get_or (mark_chain n c i size w).logpg (p * ppp + k) 0 ≡ get_or w.logpg (p * ppp + k) 0
  unfolding mark_chain mark_cluster mark_bytes is_cluster
  mark_chain_out zero i c size cs w p k g ch l ne h = refl
  mark_chain_out (suc n) i c size cs w p k g (stray e) l ne h = rw e refl
  mark_chain_out (suc n) i c size cs w p k g (last o x) l ne h =
      rw (o, x)
        (mark_cluster_out ppp pgsz positive c i size (p * ppp + k) w g o (omega arith)
          (elsewhere ppp p (sector_of c w) k (ne 0 (omega arith)) h))
  mark_chain_out (suc n) i c size _ w p k g (link {cs = cs} o x r) l ne h =
      rw (o, x)
        (mark_chain_out n (suc i) _ size cs (mark_cluster c i size w) p k
            (mark_cluster-Geometry c i size w g) r (omega arith) (λ j m. ne (suc j) (omega arith)) h
          ∙ mark_cluster_out ppp pgsz positive c i size (p * ppp + k) w g o (omega arith)
              (elsewhere ppp p (sector_of c w) k (ne 0 (omega arith)) h))

  -- The head of a chain is in no sector of what follows it.
  head_ne :
      (c : ℕ) (cs : List ℕ) (w : Scan)
      → ChainOf w c (c ∷ cs)
      → (j : ℕ) → j < length cs
      → sector_of c w ≢ sector_of (get_or cs j 0) w
  head_ne c cs w ch j h e =
      let same =
        sector_of_inj c (get_or cs j 0) w (member_ok _ _ ch 0 (omega arith))
          (member_ok _ _ ch (suc j) (omega (arith, h))) e in
      absurd (omega (arith, places_inj _ _ ch 0 (suc j) (omega arith) (omega (arith, h)) same))

  -- Page `k` of the file's `j`-th cluster: live where bytes of the file lie in it.
  abbrev pub class_at : Scan → ℕ → ℕ → ℕ → ℕ
  class_at w size j k = if ltb (j * w.ss + k * pgsz) size then cls_live else cls_slack

  class_eq : (w : Scan) (size i j k : ℕ) → i ≡ j → class_at w size i k ≡ class_at w size j k
  class_eq w size i j k e = ap (λ a. class_at w size a k) e

  mark_chain_in :
      (n i c size : ℕ) (cs : List ℕ) (w : Scan) (j k : ℕ)
      → Geometry ppp pgsz positive w
      → ChainOf w c cs
      → i + n ≤ suc w.nclusters
      → length cs ≤ n
      → j < length cs
      → k < ppp
      → get_or (mark_chain n c i size w).logpg (sector_of (get_or cs j 0) w * ppp + k) 0
        ≡ class_at w size (i + j) k
  unfolding mark_chain mark_cluster mark_bytes is_cluster
  mark_chain_in zero i c size cs w j k g ch l f m h = absurd (omega arith)
  mark_chain_in (suc n) i c size cs w j k g (stray e) l f m h = absurd (omega arith)
  mark_chain_in (suc n) i c size cs w zero k g (last o x) l f m h =
      rw (o, x)
        (mark_cluster_in ppp pgsz positive c i size k w g o (omega arith) h
          ∙ class_eq w size i (i + 0) k (omega arith))
  mark_chain_in (suc n) i c size cs w (suc j) k g (last o x) l f m h = absurd (omega arith)
  mark_chain_in (suc n) i c size _ w zero k g (link {cs = cs} o x r) l f m h =
      rw (o, x)
        (mark_chain_out n (suc i) _ size cs (mark_cluster c i size w) (sector_of c w) k
            (mark_cluster-Geometry c i size w g) r (omega arith) (head_ne c cs w (link o x r)) h
          ∙ mark_cluster_in ppp pgsz positive c i size k w g o (omega arith) h
          ∙ class_eq w size i (i + 0) k (omega arith))
  mark_chain_in (suc n) i c size _ w (suc j) k g (link {cs = cs} o x r) l f m h =
      rw (o, x)
        (mark_chain_in n (suc i) _ size cs (mark_cluster c i size w) j k
            (mark_cluster-Geometry c i size w g) r (omega arith) (omega arith) (omega arith) h
          ∙ class_eq w size (suc i + j) (i + suc j) k (omega arith))

  -- A chain has no more clusters than the volume, so the guard does not cut it.
  few_clusters : (c : ℕ) (cs : List ℕ) (w : Scan) → ChainOf w c cs → length cs ≤ w.nclusters
  few_clusters c cs w ch =
      few w.nclusters (length cs) (λ j. get_or cs j 0 - 2)
        (λ j h. below_end (get_or cs j 0) w (member_ok _ _ ch j h))
        (λ i j h g e. places_inj _ _ ch i j h g (
          omega (
            arith,
            e,
            above_two (get_or cs i 0) w (member_ok _ _ ch i h),
            above_two (get_or cs j 0) w (member_ok _ _ ch j g),
          )))

  -- Where a sector is a whole number of pages, the data region lies in the volume, the volume's pages fit
  -- the buffer and its addresses 32 bits: mark_file on a chain of clusters that ends gives page `k` of the
  -- file's `j`-th cluster the class live where the file's bytes reach into it and slack otherwise, and
  -- leaves the pages of every sector that is not on the chain as they were.
  pub mark_file_lem :
      (c size : ℕ) (cs : List ℕ) (w : Scan)
      → Geometry ppp pgsz positive w
      → ChainOf w c cs
      → ((j k : ℕ)
          → j < length cs
          → k < ppp
          → get_or (mark_file c size w).logpg (sector_of (get_or cs j 0) w * ppp + k) 0
            ≡ class_at w size j k)
        × ((p k : ℕ)
            → ((j : ℕ) → j < length cs → p ≢ sector_of (get_or cs j 0) w)
            → k < ppp
            → get_or (mark_file c size w).logpg (p * ppp + k) 0 ≡ get_or w.logpg (p * ppp + k) 0)
  unfolding mark_file
  mark_file_lem c size cs w g ch =
      let bound = few_clusters c cs w ch in
      (
        λ j k m h.
            mark_chain_in (w.nclusters + 1) 0 c size cs w j k g ch (omega arith)
              (omega (arith, bound)) m h
            ∙ class_eq w size (0 + j) j k (omega arith),
        λ p k ne h. mark_chain_out (w.nclusters + 1) 0 c size cs w p k g ch (omega arith) ne h,
      )
