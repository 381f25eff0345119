-- ===== src/FatFs/Inspect/Resolve.antt =====
-- Step 5 of fat_inspect.cpp: no sentinel is left in the logical map.
use native.Mathlib.Nat.{mul-le-mul_right}
use native.Mathlib.Decide.{dec_lt}
use flash_vis.Common.{
  ℕ, zero, suc, ◌+◌, ◌-◌, ◌*◌, ◌≤◌, ◌<◌, Bool, true, false, List, length, get_or, if◌then◌else◌,
  ◌==◌, ◌≡◌, inl, inr, refl, arith, ap, ◌∙◌, Bool-cases,
}
use flash_vis.Abi.Blank.{blank_from}
use flash_vis.FatFs.Hal.{Core, Hal}
use flash_vis.FatFs.Inspect.{Scan, cls_obsolete, pg_free}
use flash_vis.FatFs.Inspect.Marking.{
  is_class, is_known, known_set, keep_if, Fits, Sound, read_logical-IsUp,
}
use flash_vis.FatFs.Inspect.Sectors.{length-put_pages, put_pages_outside, put_pages_inside}
use flash_vis.FatFs.Inspect.LiveMap.{
  put_pages, any_free, free_class, claim, settle, read_logical, resolve_sector, resolve,
}

-- The classes of a blank scan.
free_class-class :
    (page_size : ℕ) (sec : List ℕ) (k : ℕ) → is_class (free_class page_size sec k) ≡ true
unfolding free_class
free_class-class page_size sec k = elim (Bool-cases (blank_from page_size (k * page_size) sec)) [
  | inl e ↦ rw e refl
  | inr e ↦ rw e refl
]

-- The class of a page of a sector that was read, or could not be.
abbrev pub scan_class : Bool → ℕ → List ℕ → ℕ → ℕ
scan_class got page_size sec = if got then free_class page_size sec else (λ k. cls_obsolete)

pub scan_class-class :
    (got : Bool) (page_size : ℕ) (sec : List ℕ) (k : ℕ)
    → is_class (scan_class got page_size sec k) ≡ true
scan_class-class true page_size sec k = free_class-class page_size sec k
scan_class-class false page_size sec k = refl

claim-known : (k v : ℕ) → is_known v ≡ true → is_known (claim k v) ≡ true
unfolding claim
claim-known k v h = ground arith

claimed : (k v : ℕ) → is_known v ≡ true → (v == pg_free) ≡ false → is_class (claim k v) ≡ true
unfolding claim
claimed k v h f = ground arith

settled :
    (class : ℕ → ℕ) (k v : ℕ)
    → is_known v ≡ true
    → is_class (class k) ≡ true
    → is_class (settle class k (claim k v)) ≡ true
unfolding claim settle
settled class k v h c = ground arith

class-known : (v : ℕ) → is_class v ≡ true → is_known v ≡ true
class-known v h = rw h refl

settle-known :
    (class : ℕ → ℕ) (k v : ℕ)
    → is_class (class k) ≡ true
    → is_known v ≡ true
    → is_known (settle class k v) ≡ true
unfolding settle
settle-known class k v c h =
    keep_if (λ x. is_known x ≡ true) (v == pg_free) (class k) v (class-known (class k) c) h

none_free :
    (n at : ℕ) (pg : List ℕ) (k : ℕ)
    → any_free n at pg ≡ false
    → k < n
    → (get_or pg (at + k) 0 == pg_free) ≡ false
unfolding any_free
none_free zero at pg k e h = absurd (omega arith)
none_free (suc n) at pg zero e h = let z : at + 0 ≡ at = omega arith in rw z (ground arith)
none_free (suc n) at pg (suc k) e h =
    let z : at + suc k ≡ suc at + k = omega arith in
    rw z (none_free n (suc at) pg k (ground arith) (omega arith))

known-put_pages :
    (n i at : ℕ) (f : ℕ → ℕ → ℕ) (out : List ℕ)
    → ((k v : ℕ) → is_known v ≡ true → is_known (f k v) ≡ true)
    → ((j : ℕ) → is_known (get_or out j 0) ≡ true)
    → (j : ℕ) → is_known (get_or (put_pages n i at f out) j 0) ≡ true
unfolding put_pages
known-put_pages zero i at f out h g = g
known-put_pages (suc n) i at f out h g =
    known-put_pages n (suc i) at f _ h (known_set out (at + i) _ (h i _ (g (at + i))) g)

-- Every page before `limit` has a class.
abbrev pub ClassedTo : ℕ → List ℕ → Type 0
ClassedTo limit pg = (j : ℕ) → j < limit → is_class (get_or pg j 0) ≡ true

-- A write of the pages from `at` that classes each of them.
classed_next :
    (n at : ℕ) (f : ℕ → ℕ → ℕ) (pg : List ℕ)
    → at + n ≤ length pg
    → ((k : ℕ) → k < n → is_class (f k (get_or pg (at + k) 0)) ≡ true)
    → ClassedTo at pg
    → ClassedTo (at + n) (put_pages n 0 at f pg)
classed_next n at f pg l h c j g = elim (dec_lt j at) [
  | yes before ↦ rw (put_pages_outside n 0 at f pg j (inl (omega arith))) (c j before)
  | no after ↦
      let z : at + (j - at) ≡ j = omega arith in
      let e = put_pages_inside n 0 at f pg (j - at) (omega arith) (omega arith) (omega arith) in
      ap (λ x. is_class (get_or (put_pages n 0 at f pg) x 0)) {x = j} {y = at + (j - at)}
        (omega arith)
      ∙ ap is_class e
      ∙ h (j - at) (omega arith)
]

module _ (ss pgsz nlog : ℕ) (K : Core) where
  -- Every page up to sector `sector` is classed, and the rest is in range.
  abbrev pub Resolved : ℕ → ℕ → Scan → Hal K → Type 0
  Resolved limit ppp w s = ClassedTo limit w.logpg × Sound ss pgsz nlog K w s

  resolve_sector-Resolved :
      (ppp sector : ℕ) (w : Scan) (s : Hal K)
      → sector * ppp + ppp ≤ 4096
      → Resolved (sector * ppp) ppp w s
      → let (w', s') = resolve_sector K ppp sector w s in Resolved (sector * ppp + ppp) ppp w' s'
  unfolding resolve_sector
  resolve_sector-Resolved ppp sector w s room (c, (f, u)) =
      elim (Bool-cases (any_free ppp at w.logpg)) [
        | inr e ↦
            rw (e, resolve_sector)
              (
                classed_next ppp at claim w.logpg (omega (arith, f.whole))
                    (λ k l. claimed k _ (f.known (at + k)) (none_free ppp at w.logpg k e l)) c,
                (with_pages w.sec claimed_pages known_claimed length_claimed, u),
              )
        | inl e ↦
            let (got, sec', s') = read_logical K sector w.ss w.sec s in
            let class : ℕ → ℕ = scan_class got w.pgsz sec' in
            let ok = scan_class-class got w.pgsz sec' in
            rw (e, resolve_sector)
              (
                classed_next ppp at (settle class) claimed_pages (omega (arith, length_claimed))
                    (λ k l.
                      ap (λ x. is_class (settle class k x)) (claimed_at k l)
                      ∙ settled class k (get_or w.logpg (at + k) 0) (f.known (at + k)) (ok k))
                    (λ j l.
                      rw (put_pages_outside ppp 0 at claim w.logpg j (inl (omega arith))) (c j l)),
                (
                  with_pages sec' (put_pages ppp 0 at (settle class) claimed_pages)
                      (known-put_pages ppp 0 at (settle class) claimed_pages
                        (λ k v. settle-known class k v (ok k)) known_claimed)
                      (length-put_pages ppp 0 at (settle class) claimed_pages ∙ length_claimed),
                  read_logical-IsUp ss pgsz nlog K sector w.ss w.sec s u,
                ),
              )
      ]
    where
      at : ℕ
      at = sector * ppp

      claimed_pages : List ℕ
      claimed_pages = put_pages ppp 0 at claim w.logpg

      known_claimed : (j : ℕ) → is_known (get_or claimed_pages j 0) ≡ true
      known_claimed = known-put_pages ppp 0 at claim w.logpg claim-known f.known

      length_claimed : length claimed_pages ≡ 4096
      length_claimed = length-put_pages ppp 0 at claim w.logpg ∙ f.whole

      claimed_at :
          (k : ℕ) → k < ppp → get_or claimed_pages (at + k) 0 ≡ claim k (get_or w.logpg (at + k) 0)
      claimed_at k l =
          put_pages_inside ppp 0 at claim w.logpg k (omega arith) (omega arith)
            (omega (arith, f.whole))

      with_pages :
          (sec pages : List ℕ)
          → ((j : ℕ) → is_known (get_or pages j 0) ≡ true)
          → length pages ≡ 4096
          → Fits ss pgsz nlog (record w { sec = sec; logpg = pages })
      with_pages sec pages k l = record {
        known = k;
        whole = l;
        same_ss = f.same_ss;
        same_pgsz = f.same_pgsz;
        same_nlog = f.same_nlog;
      }

  pub resolve-Resolved :
      (n sector ppp : ℕ) (w : Scan) (s : Hal K)
      → (sector + n) * ppp ≤ 4096
      → Resolved (sector * ppp) ppp w s
      → let (w', s') = resolve K n sector ppp w s in Resolved ((sector + n) * ppp) ppp w' s'
  unfolding resolve
  resolve-Resolved zero sector ppp w s room h = let z : sector + 0 ≡ sector = omega arith in rw z h
  resolve-Resolved (suc n) sector ppp w s room h =
      let z : sector + suc n ≡ suc sector + n = omega arith in
      let one : suc sector * ppp ≡ sector * ppp + ppp = omega arith in
      let fits : suc sector * ppp ≤ (sector + suc n) * ppp =
        mul-le-mul_right {m = suc sector} {n = sector + suc n} ppp (omega arith) in
      let h' = resolve_sector-Resolved ppp sector w s (omega (arith, fits)) h in
      let (w', s') = resolve_sector K ppp sector w s in
      let h'' : Resolved (suc sector * ppp) ppp w' s' = rw one h' in
      rw z (resolve-Resolved n (suc sector) ppp w' s' (rw (← z) room) h'')
