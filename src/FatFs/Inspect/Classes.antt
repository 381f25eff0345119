-- ===== src/FatFs/Inspect/Classes.antt =====
-- ff_live_map of bindings/fatfs/fat_inspect.cpp as a whole: the class of every page.
use flash_vis.Common.{
  ℕ, suc, ◌+◌, ◌*◌, ◌/◌, ◌%◌, ◌^◌, ◌≤◌, ◌<◌, Bool, true, false, not, ◌||◌, List, length, get_or,
  replicate, if◌then◌else◌, ◌==◌, ◌≡◌, inl, inr, refl, arith, ap, ◌∙◌, sym, Bool-cases, Option,
  none, some, pos, negsuc, ℤ, length-replicate, get_or-replicate, get_or_above,
}
use native.Mathlib.Decide.{dec_lt}
use native.Mathlib.Nat.{mul-le-mul_right, div-add-mod}
use flash_vis.FatFs.Hal.{Core, Hal}
use flash_vis.FatFs.Inspect.{Scan, pg_free}
use flash_vis.FatFs.Inspect.Marking.{
  is_class, Fits, IsUp, Sound, mark_fixed-Fits, walk_dirs-Sound, read_logical-IsUp,
}
use flash_vis.FatFs.Inspect.Marking
use flash_vis.FatFs.Inspect.Sectors.{length-put_pages, put_pages_inside}
use flash_vis.FatFs.Inspect.Resolve.{ClassedTo, Resolved, resolve-Resolved}
use flash_vis.FatFs.Inspect.Placement.{is_final, Final, Map, pin-Map, place-Map, safety_net-Map}
use flash_vis.FatFs.Inspect.Boot.{Bpb, bpb_of, is_known, scan_of, mark_fixed, refuses}
use flash_vis.FatFs.Inspect.LiveMap.{
  map_device, put_pages, pin_all, compose, walk_dirs, read_logical, resolve, map_volume,
  ff_live_map,
}

module _ (K : Core) where
  -- The physical sectors that the wear levelling writes: its configuration and the two states.
  abbrev pub is_wl_sector : ℕ → K.Inst → ℕ → Bool
  is_wl_sector ss i q =
      (K.addr_cfg i / ss) == q
      || ((K.addr_state2 i / ss) == q || ((K.addr_state1 i / ss) == q || false))

  module _ (ppp : ℕ) (some_pages : 0 < ppp) where
    cleared-Map :
        (ndev : ℕ) (out : List ℕ)
        → ndev * ppp ≤ length out
        → Map ppp some_pages ndev (λ q. false) (put_pages (ndev * ppp) 0 0 (λ k v. pg_free) out)
    cleared-Map ndev out l = record {
      room = rw (length-put_pages (ndev * ppp) 0 0 (λ k v. pg_free) out) l;
      sectors = λ q h. inr (
        refl,
        λ k g.
            let below : suc q * ppp ≤ ndev * ppp =
              mul-le-mul_right {m = suc q} {n = ndev} ppp (omega arith) in
            ap (λ j. get_or (put_pages (ndev * ppp) 0 0 (λ k v. pg_free) out) j 0) {x = q * ppp + k}
              {y = 0 + (q * ppp + k)} (omega arith)
            ∙ put_pages_inside (ndev * ppp) 0 0 (λ k v. pg_free) out (q * ppp + k) (omega arith)
                (omega (arith, below)) (omega (arith, below)),
      );
    }

    compose-Final :
        (i : K.Inst) (w : Scan) (s : Hal K) (out : List ℕ)
        → (w.nlog + 4) * ppp ≤ length out
        → ClassedTo (w.nlog * ppp) w.logpg
        → (q : ℕ) → q < w.nlog + 4
        → Final ppp some_pages (is_wl_sector w.ss i q) q (compose K ppp i w s out)
    unfolding compose pin_all
    compose-Final i w s out l c q h =
        let ndev = w.nlog + 4 in
        let cleared = cleared-Map ndev out l in
        let pinned : Map ppp some_pages ndev (is_wl_sector w.ss i)
            (pin_all K ndev ppp w.ss i (put_pages (ndev * ppp) 0 0 (λ k v. pg_free) out)) =
          pin-Map ppp some_pages ndev _ _ _
            (pin-Map ppp some_pages ndev _ _ _ (pin-Map ppp some_pages ndev _ _ _ cleared)) in
        let all : (0 + w.nlog) * ppp ≡ w.nlog * ppp =
          ap (λ t. t * ppp) {x = 0 + w.nlog} (omega arith) in
        let placed =
          place-Map ppp some_pages ndev K w.nlog 0 w.ss w.logpg i _ _ (rw all c) pinned in
        safety_net-Map ppp some_pages ndev K ndev 0 w.ss w.pgsz s w.sec _ _ (omega arith)
          (placed, λ q' h' g'. absurd (omega arith)) q h h

  start-Fits :
      (ss page_size nlog : ℕ) (sec fat fat' : List ℕ)
      → Fits ss page_size nlog (record (scan_of ss page_size nlog sec fat) { fat = fat' })
  unfolding scan_of
  start-Fits ss page_size nlog sec fat fat' = record {
    known = λ i. free_known i (dec_lt i 4096);
    whole = length-replicate 4096 pg_free;
    same_ss = refl;
    same_pgsz = refl;
    same_nlog = refl;
  }
    where
      free_known :
          (i : ℕ) → Dec (i < 4096) → Marking.is_known (get_or (replicate 4096 pg_free) i 0) ≡ true
      free_known i (yes l) = rw (get_or-replicate 4096 i pg_free 0 l) refl
      free_known i (no g) =
          rw
            (get_or_above (replicate 4096 pg_free) i 0
              (omega (arith, length-replicate 4096 pg_free)))
            refl

  -- What a map that was made says of every page of every physical sector.
  abbrev pub Placed : ℕ → ℕ → ℕ → List ℕ → Hal K → Type 0
  Placed ss ppp nlog map s =
      (i : K.Inst) × (s.inspect ≡ some i)
      × ((q k : ℕ)
          → q < nlog + 4
          → k < ppp
          → is_final (is_wl_sector ss i q) (get_or map (q * ppp + k) 0) ≡ true)

  composed :
      (ss pgsz nlog ppp : ℕ) (w : Scan) (s : Hal K) (out : List ℕ)
      → 0 < ppp
      → (nlog + 4) * ppp ≤ length out
      → Resolved ss pgsz nlog K (nlog * ppp) ppp w s
      → Placed ss ppp nlog (elim s.inspect [ none ↦ out | some i ↦ compose K ppp i w s out ]) s
  composed ss pgsz nlog ppp w s out h l (c, (f, (i, e))) =
      (i, e, λ q k g g'. rw e (of_context q k g g'))
    where
      of_context :
          (q k : ℕ)
          → q < nlog + 4
          → k < ppp
          → is_final (is_wl_sector ss i q) (get_or (compose K ppp i w s out) (q * ppp + k) 0) ≡ true
      of_context q k g g' = rw (← f.same_ss) (
          compose-Final ppp h i w s out (rw f.same_nlog l) (rw f.same_nlog c) q (rw f.same_nlog g) k
            g')

  map_volume-Placed :
      (w : Scan) (b : Bpb) (s : Hal K) (out : List ℕ)
      → let ppp = w.ss / w.pgsz in
        ((fat : List ℕ) → Fits w.ss w.pgsz w.nlog (record w { fat = fat }))
        → IsUp w.ss w.pgsz w.nlog K s
        → 0 < ppp
        → w.nlog * ppp ≤ 4096
        → (w.nlog + 4) * ppp ≤ length out
        → (map_volume K w b s out).0 ≡ pos 0
        → let (rc, map, s') = map_volume K w b s out in Placed w.ss ppp w.nlog map s'
  unfolding map_volume
  map_volume-Placed w b s out fits up h room l ok =
      let ppp = w.ss / w.pgsz in
      let (got, fat', s₁) = read_logical K b.rsvd w.ss w.fat s in
      let up₁ = read_logical-IsUp w.ss w.pgsz w.nlog K b.rsvd w.ss w.fat s up in
      let w₀ : Scan = record w { fat = fat' } in
      let sound =
        walk_dirs-Sound w.ss w.pgsz w.nlog K b (mark_fixed b w₀) s₁
          (mark_fixed-Fits w.ss w.pgsz w.nlog b w₀ (fits fat'), up₁) in
      let (w₁, s₂) = walk_dirs K b (mark_fixed b w₀) s₁ in
      let all : (0 + w.nlog) * ppp ≡ w.nlog * ppp =
        ap (λ t. t * ppp) {x = 0 + w.nlog} (omega arith) in
      let resolved =
        resolve-Resolved w.ss w.pgsz w.nlog K w.nlog 0 ppp w₁ s₂ (rw all room)
          (λ j g. absurd (omega arith), sound) in
      let (w₂, s₃) = resolve K w.nlog 0 ppp w₁ s₂ in
      elim (Bool-cases got) [
        | inl e ↦ rw e (composed w.ss w.pgsz w.nlog ppp w₂ s₃ out h l (rw (← all) resolved))
        | inr e ↦ cc
      ]

  -- Where the answer is 0 the branch that answers -1 was not taken.
  not_taken :
      (b : Bool) (x y : ℤ × List ℕ × Hal K)
      → x.0 ≡ negsuc 0
      → (if b then x else y).0 ≡ pos 0
      → (b ≡ false) × ((if b then x else y) ≡ y)
  not_taken true x y e ok = absurd (ground (arith, e, ok))
  not_taken false x y e ok = (refl, refl)

  not_refused :
      (ss page_size nlog : ℕ)
      → refuses ss page_size nlog ≡ false
      → (0 < ss / page_size) × (nlog * (ss / page_size) ≤ 4096)
  unfolding refuses
  not_refused ss page_size nlog e =
      let n : (0 < ss) × (ss % page_size ≡ 0) × (nlog * (ss / page_size) ≤ 4096) = ground arith in
      (
        elim (dec_lt 0 (ss / page_size)) [
          | yes h ↦ h
          | no h ↦
              let z : ss / page_size ≡ 0 = omega (arith, h) in
              absurd
                (omega (arith, n.0, n.1, div-add-mod ss page_size, ap (λ (t : ℕ). page_size * t) z))
        ],
        n.2,
      )

  volume-Placed :
      (sec fat out : List ℕ) (page_size ss nlog : ℕ) (s : Hal K)
      → IsUp ss page_size nlog K s
      → let ppp = ss / page_size in
        0 < ppp
        → nlog * ppp ≤ 4096
        → (nlog + 4) * ppp ≤ length out
        → (map_volume K (scan_of ss page_size nlog sec fat) (bpb_of sec) s out).0 ≡ pos 0
        → let (rc, map, s') = map_volume K (scan_of ss page_size nlog sec fat) (bpb_of sec) s out in
          Placed ss ppp nlog map s'
  unfolding scan_of
  volume-Placed sec fat out page_size ss nlog s up h room l ok =
      map_volume-Placed (scan_of ss page_size nlog sec fat) (bpb_of sec) s out
        (λ fat'. start-Fits ss page_size nlog sec fat fat') up h room l ok

  map_device-Placed :
      (sec fat out : List ℕ) (page_size ss nlog : ℕ) (s : Hal K)
      → IsUp ss page_size nlog K s
      → let ppp = ss / page_size in
        0 < ppp
        → nlog * ppp ≤ 4096
        → (nlog + 4) * ppp ≤ length out
        → (map_device K sec fat out page_size ss nlog s).0 ≡ pos 0
        → let (rc, map, s') = map_device K sec fat out page_size ss nlog s in
          (s'.quiet ≡ false) × Placed ss ppp nlog map s'
  unfolding map_device
  map_device-Placed sec fat out page_size ss nlog s up h room l ok =
      let (got, sec', s₁) = read_logical K 0 ss sec s in
      let w = scan_of ss page_size nlog sec' fat in
      let (rc, map, s₂) = map_volume K w (bpb_of sec') s₁ out in
      let n =
        not_taken (not got || not (is_known ss sec')) (negsuc 0, out, record s₁ { quiet = false })
          (rc, map, record s₂ { quiet = false }) refl ok in
      rw n.1 (
        refl,
        volume-Placed sec' fat out page_size ss nlog s₁
            (read_logical-IsUp ss page_size nlog K 0 ss sec s up) h room l
            (sym (ap (λ x. x.0) n.1) ∙ ok),
      )

  shown :
      (sec fat out : List ℕ) (page_size : ℕ) (s : Hal K) (i : K.Inst)
      → s.inspect ≡ some i
      → let ss = K.sector_size i % 2 ^ 32 in
        let nlog = K.flash_size i % 2 ^ 32 / ss in
        ff_live_map K sec fat out page_size s ≡ (
          if refuses ss page_size nlog
          then (negsuc 0, out, s)
          else map_device K sec fat out page_size ss nlog (record s { quiet = true }))
  unfolding ff_live_map
  shown sec fat out page_size s i e =
      ap
        (λ (o : Option K.Inst). elim o as (λ x. ℤ × List ℕ × Hal K) [
          | none ↦ (negsuc 0, out, s)
          | some j ↦
              let ss = K.sector_size j % 2 ^ 32 in
              let nlog = K.flash_size j % 2 ^ 32 / ss in
              if refuses ss page_size nlog
              then (negsuc 0, out, s)
              else map_device K sec fat out page_size ss nlog (record s { quiet = true })
        ])
        e

  -- Whatever the volume holds: where ff_live_map answers 0, every page of every physical sector that the
  -- buffer has room for has a class, never a sentinel, and class 4 stands on exactly the pages of the
  -- sectors that the wear levelling writes.
  pub ff_live_map-is_final :
      (sec fat out : List ℕ) (page_size : ℕ) (s : Hal K) (i : K.Inst)
      → s.inspect ≡ some i
      → let ss = K.sector_size i % 2 ^ 32 in
        let nlog = K.flash_size i % 2 ^ 32 / ss in
        let ppp = ss / page_size in
        (nlog + 4) * ppp ≤ length out
        → (ff_live_map K sec fat out page_size s).0 ≡ pos 0
        → let (rc, map, s') = ff_live_map K sec fat out page_size s in
          (s'.quiet ≡ false) × Placed ss ppp nlog map s'
  ff_live_map-is_final sec fat out page_size s i e l ok =
      let ss = K.sector_size i % 2 ^ 32 in
      let nlog = K.flash_size i % 2 ^ 32 / ss in
      let quiet : Hal K = record s { quiet = true } in
      let whole = shown sec fat out page_size s i e in
      let n =
        not_taken (refuses ss page_size nlog) (negsuc 0, out, s)
          (map_device K sec fat out page_size ss nlog quiet) refl
          (sym (ap (λ x. x.0) whole) ∙ ok) in
      let c = not_refused ss page_size nlog n.0 in
      rw (whole, n.1)
        (map_device-Placed sec fat out page_size ss nlog quiet (i, e) c.0 c.1 l
          (sym (ap (λ x. x.0) (whole ∙ n.1)) ∙ ok))
