-- ===== src/FatFs/Inspect/Clusters.antt =====
-- bindings/fatfs/fat_inspect.cpp: what a round of mark_file does to the pages of its cluster.
use native.Mathlib.Decide.{dec_lt}
use native.Mathlib.Nat.{mul-le-mul_right}
use flash_vis.Common.{
  ℕ, suc, ◌+◌, ◌-◌, ◌*◌, ◌/◌, ◌%◌, ◌^◌, ◌<◌, ◌≤◌, min, true, false, length, get_or, if◌then◌else◌,
  ltb, ltb→lt, lt→ltb, leb→le, ◌≡◌, ◌⊎◌, inl, inr, refl, arith, ap, ◌∙◌,
}
use flash_vis.FatFs.Inspect.{
  Scan, cls_live, cls_slack, mark_bytes, mark_cluster, cluster_base, is_cluster,
}
use flash_vis.FatFs.Inspect.Pages.{
  Paged, scale, covers, covers_no, mark_bytes_in, mark_bytes_out, mark_bytes-Paged,
}

-- The logical sector of a cluster.
abbrev pub sector_of : ℕ → Scan → ℕ
sector_of c w = w.data_start + (c - 2)

reaches :
    (before size ss b : ℕ)
    → b < min (if ltb before size then size - before else 0) ss
    → ltb (before + b) size ≡ true
reaches before size ss b h = ground (
  arith,
  ltb→lt before size,
  lt→ltb before size,
  ltb→lt (before + b) size,
  lt→ltb (before + b) size,
)

reaches_no :
    (before size ss b : ℕ)
    → min (if ltb before size then size - before else 0) ss ≤ b
    → b < ss
    → ltb (before + b) size ≡ false
reaches_no before size ss b h g = ground (
  arith,
  ltb→lt before size,
  lt→ltb before size,
  ltb→lt (before + b) size,
  lt→ltb (before + b) size,
)

module _ (ppp pgsz : ℕ) (positive : 0 < pgsz) where
  -- Sectors of `ppp` pages, and a data region that lies in the volume.
  pub record Geometry (w : Scan) : Type 0 where
    pub page : w.pgsz ≡ pgsz
    pub sector : w.ss ≡ ppp * pgsz
    pub volume : w.data_start + w.nclusters ≤ w.nlog
    pub fits : w.nlog * ppp ≤ length w.logpg
    pub narrow : w.nlog * w.ss < 2 ^ 32

  paged : (w : Scan) → Geometry w → Paged pgsz positive (w.nlog * ppp) w
  paged w g = record { page = g.page; whole = rw g.sector (omega arith); fits = g.fits }

  pub in_volume : (c : ℕ) (w : Scan) → Geometry w → is_cluster c w ≡ true → sector_of c w < w.nlog
  unfolding is_cluster
  in_volume c w g h =
      let bounds : (2 ≤ c) × (c < (w.nclusters + 2) % 2 ^ 32) =
        ground (arith, leb→le 2 c, ltb→lt c ((w.nclusters + 2) % 2 ^ 32)) in
      omega (arith, bounds.0, bounds.1, g.volume)

  -- `x` pages into the logical sector `q`.
  at_page :
      (q x : ℕ) (w : Scan)
      → Geometry w
      → q < w.nlog
      → x ≤ ppp
      → (q * w.ss % 2 ^ 32 + x * pgsz) % 2 ^ 32 ≡ (q * ppp + x) * pgsz
  at_page q x w g h l =
      let a = mul-le-mul_right {m = suc q} {n = w.nlog} w.ss h in
      let b = mul-le-mul_right {m = x} {n = ppp} pgsz l in
      let whole : q * w.ss ≡ q * ppp * pgsz = rw g.sector (omega arith) in
      omega (arith, a, b, whole, g.sector, g.narrow)

  abbrev covered_of : ℕ → ℕ → Scan → ℕ
  covered_of i size w = min (if ltb (i * w.ss) size then size - i * w.ss else 0) w.ss

  -- The pages of the file's `i`-th cluster that hold bytes of it.
  abbrev live_pages : ℕ → ℕ → Scan → ℕ
  live_pages i size w = (covered_of i size w + pgsz - 1) / pgsz

  live_pages-le : (i size : ℕ) (w : Scan) → Geometry w → live_pages i size w ≤ ppp
  live_pages-le i size w g = elim (dec_lt ppp (live_pages i size w)) [
    | no n ↦ omega (arith, n)
    | yes l ↦ absurd (omega (arith, g.sector, covers pgsz positive (covered_of i size w) ppp l))
  ]

  cluster_form :
      (c i size : ℕ) (w : Scan)
      → Geometry w
      → is_cluster c w ≡ true
      → i ≤ w.nclusters
      → let at = sector_of c w * ppp in
        let n = live_pages i size w in
        mark_cluster c i size w
        ≡ mark_bytes
            ((at + n) * pgsz)
            ((at + ppp) * pgsz)
            cls_slack
            (mark_bytes ((at + 0) * pgsz) ((at + n) * pgsz) cls_live w)
  unfolding mark_cluster cluster_base
  cluster_form c i size w g h l =
      let q = sector_of c w in
      let n = live_pages i size w in
      let inside = in_volume c w g h in
      let before : i * w.ss % 2 ^ 32 ≡ i * w.ss = omega (
        arith,
        g.volume,
        g.narrow,
        mul-le-mul_right {m = i} {n = w.nlog} w.ss (omega (arith, g.volume)),
      ) in
      let middle = at_page q n w g inside (live_pages-le i size w g) in
      let end : (q * w.ss % 2 ^ 32 + w.ss) % 2 ^ 32 ≡ (q * ppp + ppp) * pgsz =
        ap (λ y. (q * w.ss % 2 ^ 32 + y) % 2 ^ 32) g.sector
        ∙ at_page q ppp w g inside (omega arith) in
      let begin : q * w.ss % 2 ^ 32 ≡ (q * ppp + 0) * pgsz =
        omega (arith, at_page q 0 w g inside (omega arith)) in
      rw (before, g.page, middle, end, begin) refl

  two_marks :
      (c i size : ℕ) (w : Scan) (x : ℕ)
      → Geometry w
      → is_cluster c w ≡ true
      → sector_of c w * ppp + ppp ≤ w.nlog * ppp
  two_marks c i size w x g h =
      omega (arith, mul-le-mul_right {m = suc (sector_of c w)} {n = w.nlog} ppp (in_volume c w g h))

  -- Page `k` of the file's `i`-th cluster is live where the file reaches into it, and slack otherwise.
  pub mark_cluster_in :
      (c i size k : ℕ) (w : Scan)
      → Geometry w
      → is_cluster c w ≡ true
      → i ≤ w.nclusters
      → k < ppp
      → get_or (mark_cluster c i size w).logpg (sector_of c w * ppp + k) 0
        ≡ (if ltb (i * w.ss + k * pgsz) size then cls_live else cls_slack)
  mark_cluster_in c i size k w g h l s =
      let at = sector_of c w * ppp in
      let n = live_pages i size w in
      let p = paged w g in
      let room = two_marks c i size w k g h in
      let marked =
        mark_bytes-Paged pgsz positive (w.nlog * ppp) ((at + 0) * pgsz) ((at + n) * pgsz) cls_live w
          p in
      let le = live_pages-le i size w g in
      rw (cluster_form c i size w g h l) (elim (dec_lt k n) [
        | yes y ↦
            rw
              (reaches (i * w.ss) size w.ss (k * pgsz)
                (covers pgsz positive (covered_of i size w) k y))
              (mark_bytes_out pgsz positive (w.nlog * ppp) (at + n) (at + ppp) cls_slack _ (at + k)
                  marked room (inl (omega (arith, y)))
                ∙ mark_bytes_in pgsz positive (w.nlog * ppp) (at + 0) (at + n) cls_live w (at + k) p
                    (omega (arith, le, room)) (omega arith) (omega (arith, y)))
        | no z ↦
            let end = covers_no pgsz positive (covered_of i size w) k (omega (arith, z)) in
            let below : k * pgsz < w.ss = rw g.sector (scale pgsz positive k ppp s) in
            rw (reaches_no (i * w.ss) size w.ss (k * pgsz) end below) (
              mark_bytes_in pgsz positive (w.nlog * ppp) (at + n) (at + ppp) cls_slack _ (at + k)
                marked room (omega (arith, z)) (omega (arith, s)))
      ])

  pub mark_cluster_out :
      (c i size q : ℕ) (w : Scan)
      → Geometry w
      → is_cluster c w ≡ true
      → i ≤ w.nclusters
      → (q < sector_of c w * ppp) ⊎ (sector_of c w * ppp + ppp ≤ q)
      → get_or (mark_cluster c i size w).logpg q 0 ≡ get_or w.logpg q 0
  mark_cluster_out c i size q w g h l side =
      let at = sector_of c w * ppp in
      let n = live_pages i size w in
      let p = paged w g in
      let room = two_marks c i size w q g h in
      let marked =
        mark_bytes-Paged pgsz positive (w.nlog * ppp) ((at + 0) * pgsz) ((at + n) * pgsz) cls_live w
          p in
      let le = live_pages-le i size w g in
      rw (cluster_form c i size w g h l) (
        mark_bytes_out pgsz positive (w.nlog * ppp) (at + n) (at + ppp) cls_slack _ q marked room
          (elim side [ inl x ↦ inl (omega arith) | inr x ↦ inr x ])
        ∙ mark_bytes_out pgsz positive (w.nlog * ppp) (at + 0) (at + n) cls_live w q p
            (omega (arith, le, room))
            (elim side [ inl x ↦ inl (omega arith) | inr x ↦ inr (omega (arith, le, x)) ]))
