-- ===== src/FatFs/Inspect/Pages.antt =====
-- bindings/fatfs/fat_inspect.cpp: mark_bytes on a range that starts and ends at pages.
use native.Mathlib.Decide.{ℕ_discrete, dec_lt}
use native.Mathlib.Nat.{mul-le-mul_right, mul-div_cancel, le-div_iff_mul-le}
use flash_vis.Common.{
  ℕ, zero, suc, ◌+◌, ◌-◌, ◌*◌, ◌/◌, ◌<◌, ◌≤◌, min, List, length, get_or, set, ltb, ltb→lt, lt→ltb,
  Bool-cases, ◌≡◌, ◌⊎◌, inl, inr, refl, arith, ◌∙◌, length-set, get_or-set_self, get_or-set_ne,
}
use flash_vis.FatFs.Inspect.{Scan, mark_pages, mark_bytes}
use flash_vis.FatFs.Inspect.Marking.{length-mark_pages}

module _ (pgsz : ℕ) (positive : 0 < pgsz) where
  pub scale : (a b : ℕ) → a < b → a * pgsz < b * pgsz
  scale a b h = omega (arith, positive, mul-le-mul_right {m = suc a} {n = b} pgsz h)

  pub unscale : (a b : ℕ) → a * pgsz < b * pgsz → a < b
  unscale a b h = elim (dec_lt a b) [
    | yes l ↦ l
    | no g ↦ absurd (omega (arith, h, mul-le-mul_right {m = b} {n = a} pgsz (omega (arith, g))))
  ]

  mark_pages_out :
      (n p b cls : ℕ) (pg : List ℕ) (q : ℕ)
      → (q < p) ⊎ (b ≤ q)
      → get_or (mark_pages n p (b * pgsz) pgsz cls pg) q 0 ≡ get_or pg q 0
  unfolding mark_pages
  mark_pages_out zero p b cls pg q h = refl
  mark_pages_out (suc n) p b cls pg q h = elim (Bool-cases (ltb (p * pgsz) (b * pgsz))) [
    | inr e ↦ rw e refl
    | inl e ↦
        let below = unscale p b (ltb→lt (p * pgsz) (b * pgsz) e) in
        rw e (
          mark_pages_out n (suc p) b cls (set pg p cls) q
            (elim h [ inl l ↦ inl (omega arith) | inr l ↦ inr l ])
          ∙ get_or-set_ne pg p q cls 0
              (λ z. elim h [ inl l ↦ absurd (omega arith) | inr l ↦ absurd (omega arith) ]))
  ]

  mark_pages_in :
      (n p b cls : ℕ) (pg : List ℕ) (q : ℕ)
      → b ≤ n + p
      → q < length pg
      → p ≤ q
      → q < b
      → get_or (mark_pages n p (b * pgsz) pgsz cls pg) q 0 ≡ cls
  unfolding mark_pages
  mark_pages_in zero p b cls pg q f l h g = absurd (omega arith)
  mark_pages_in (suc n) p b cls pg q f l h g =
      rw (lt→ltb (p * pgsz) (b * pgsz) (scale p b (omega arith))) (elim (ℕ_discrete p q) [
        | yes e ↦
            mark_pages_out n (suc p) b cls (set pg p cls) q (inl (omega (arith, e)))
            ∙ rw e (get_or-set_self pg q cls 0 l)
        | no e ↦
            mark_pages_in n (suc p) b cls (set pg p cls) q (omega arith)
              (rw (length-set pg p cls) l) (omega (arith, e)) g
      ])

  -- A context whose logical pages `room` of them are in the buffer.
  pub record Paged (room : ℕ) (w : Scan) : Type 0 where
    pub page : w.pgsz ≡ pgsz
    pub whole : w.nlog * w.ss ≡ room * pgsz
    pub fits : room ≤ length w.logpg

  as_pages :
      (room a b cls : ℕ) (w : Scan)
      → Paged room w
      → b ≤ room
      → (mark_bytes (a * pgsz) (b * pgsz) cls w).logpg
        ≡ mark_pages (b * pgsz) a (b * pgsz) pgsz cls w.logpg
  unfolding mark_bytes
  as_pages room a b cls w p h =
      let limit : min (b * pgsz) (w.nlog * w.ss) ≡ b * pgsz =
        omega (arith, p.whole, mul-le-mul_right {m = b} {n = room} pgsz h) in
      rw (limit, p.page, mul-div_cancel a positive) refl

  pub mark_bytes_in :
      (room a b cls : ℕ) (w : Scan) (q : ℕ)
      → Paged room w
      → b ≤ room
      → a ≤ q
      → q < b
      → get_or (mark_bytes (a * pgsz) (b * pgsz) cls w).logpg q 0 ≡ cls
  mark_bytes_in room a b cls w q p h l g = rw (as_pages room a b cls w p h) (
      mark_pages_in (b * pgsz) a b cls w.logpg q
        (omega (arith, positive, mul-le-mul_right {m = 1} {n = pgsz} b positive))
        (omega (arith, p.fits)) l g)

  pub mark_bytes_out :
      (room a b cls : ℕ) (w : Scan) (q : ℕ)
      → Paged room w
      → b ≤ room
      → (q < a) ⊎ (b ≤ q)
      → get_or (mark_bytes (a * pgsz) (b * pgsz) cls w).logpg q 0 ≡ get_or w.logpg q 0
  mark_bytes_out room a b cls w q p h side =
      rw (as_pages room a b cls w p h) (mark_pages_out (b * pgsz) a b cls w.logpg q side)

  pub mark_bytes-Paged :
      (room b0 b1 cls : ℕ) (w : Scan) → Paged room w → Paged room (mark_bytes b0 b1 cls w)
  unfolding mark_bytes
  mark_bytes-Paged room b0 b1 cls w p = record {
    page = p.page;
    whole = p.whole;
    fits =
        rw
          (length-mark_pages (min b1 (w.nlog * w.ss)) (b0 / w.pgsz) (min b1 (w.nlog * w.ss)) w.pgsz
            cls w.logpg)
          p.fits;
  }

  -- `(covered + pgsz - 1) / pgsz` pages hold the first `covered` bytes of a sector.
  pub covers : (covered k : ℕ) → k < (covered + pgsz - 1) / pgsz → k * pgsz < covered
  covers covered k h = omega (
    arith,
    positive,
    (le-div_iff_mul-le {k = pgsz} {x = suc k} {y = covered + pgsz - 1} positive).0 h,
  )

  pub covers_no : (covered k : ℕ) → (covered + pgsz - 1) / pgsz ≤ k → covered ≤ k * pgsz
  covers_no covered k h = elim (dec_lt (k * pgsz) covered) [
    | no g ↦ omega (arith, g)
    | yes l ↦
        let more =
          (le-div_iff_mul-le {k = pgsz} {x = suc k} {y = covered + pgsz - 1} positive).1
            (omega (arith, l)) in
        absurd (omega (arith, h, more))
  ]
