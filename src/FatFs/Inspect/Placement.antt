-- ===== src/FatFs/Inspect/Placement.antt =====
-- Step 6 of fat_inspect.cpp and ff_live_map as a whole: the classes of the physical map.
use native.Mathlib.Decide.{ℕ_discrete}
use native.Mathlib.Nat.{mul-le-mul_right}
use flash_vis.Common.{
  ℕ, zero, suc, ◌+◌, ◌*◌, ◌/◌, ◌%◌, ◌^◌, ◌≤◌, ◌<◌, Bool, true, false, ◌||◌, List, length, get_or,
  if◌then◌else◌, ◌==◌, ltb, leb, ◌≡◌, ◌≢◌, ◌⊎◌, inl, inr, refl, arith, ap, ◌∙◌, Bool-cases,
}
use flash_vis.FatFs.Hal.{Core, Hal, phys_addr_of}
use flash_vis.FatFs.Inspect.{cls_wl, pg_free}
use flash_vis.FatFs.Inspect.Marking.{is_class}
use flash_vis.FatFs.Inspect.Sectors.{length-put_pages, inside, put_sector_self, put_sector_other}
use flash_vis.FatFs.Inspect.Resolve.{ClassedTo, scan_class, scan_class-class}
use flash_vis.FatFs.Inspect.LiveMap.{
  put_pages, read_phys, pin, place_sector, place, net_sector, safety_net,
}

-- What a page may hold in the end: class 4 where the sector is pinned, any other class elsewhere.
abbrev pub is_final : Bool → ℕ → Bool
is_final pinned v = if pinned then v == cls_wl else is_class v

module _ (ppp : ℕ) (some_pages : 0 < ppp) where
  abbrev pub Final : Bool → ℕ → List ℕ → Type 0
  Final pinned q out = (k : ℕ) → k < ppp → is_final pinned (get_or out (q * ppp + k) 0) ≡ true

  -- A sector on the way: final, or free from end to end and not pinned.
  abbrev pub Sector : Bool → ℕ → List ℕ → Type 0
  Sector pinned q out =
      Final pinned q out
      ⊎ ((pinned ≡ false) × ((k : ℕ) → k < ppp → get_or out (q * ppp + k) 0 ≡ pg_free))

  Final-other :
      (b : Bool) (p q : ℕ) (f : ℕ → ℕ → ℕ) (out : List ℕ)
      → p ≢ q
      → Final b q out
      → Final b q (put_pages ppp 0 (p * ppp) f out)
  Final-other b p q f out ne h k l = ap (is_final b) (put_sector_other ppp p q k f out ne l) ∙ h k l

  Sector-other :
      (b : Bool) (p q : ℕ) (f : ℕ → ℕ → ℕ) (out : List ℕ)
      → p ≢ q
      → Sector b q out
      → Sector b q (put_pages ppp 0 (p * ppp) f out)
  Sector-other b p q f out ne (inl h) = inl (Final-other b p q f out ne h)
  Sector-other b p q f out ne (inr (e, h)) =
      inr (e, λ k l. put_sector_other ppp p q k f out ne l ∙ h k l)

  first : (q : ℕ) (out : List ℕ) → get_or out (q * ppp + 0) 0 ≡ get_or out (q * ppp) 0
  first q out = ap (λ j. get_or out j 0) (omega arith)

  -- A sector whose first page is not of class 4 is not pinned.
  not_pinned :
      (b : Bool) (q : ℕ) (out : List ℕ)
      → Sector b q out
      → (get_or out (q * ppp) 0 == cls_wl) ≡ false
      → b ≡ false
  not_pinned false q out h e = refl
  not_pinned true q out (inl h) e = absurd (ground (arith, h 0 some_pages, first q out))
  not_pinned true q out (inr (p, h)) e = cc

  -- A sector whose first page is not free is final.
  not_free :
      (b : Bool) (q : ℕ) (out : List ℕ)
      → Sector b q out
      → (get_or out (q * ppp) 0 == pg_free) ≡ false
      → Final b q out
  not_free b q out (inl h) e = h
  not_free b q out (inr (p, h)) e = absurd (ground (arith, h 0 some_pages, first q out))

  -- One whose first page is free is not pinned.
  free_first :
      (b : Bool) (q : ℕ) (out : List ℕ)
      → Sector b q out
      → (get_or out (q * ppp) 0 == pg_free) ≡ true
      → b ≡ false
  free_first false q out h e = refl
  free_first true q out (inl h) e = absurd (ground (arith, h 0 some_pages, first q out))
  free_first true q out (inr (p, h)) e = cc

  module _ (ndev : ℕ) where
    -- Every sector of the map, with `pinned` the sectors of the wear levelling.
    pub record Map (pinned : ℕ → Bool) (out : List ℕ) : Type 0 where
      pub room : ndev * ppp ≤ length out
      pub sectors : (q : ℕ) → q < ndev → Sector (pinned q) q out

    -- A write of one sector, whose state is then `b`.
    Map-put :
        (pinned pinned' : ℕ → Bool) (p : ℕ) (f : ℕ → ℕ → ℕ) (out : List ℕ)
        → ((q : ℕ) → p ≢ q → pinned q ≡ pinned' q)
        → (p < ndev
            → (k : ℕ) → k < ppp
            → is_final (pinned' p) (f k (get_or out (p * ppp + k) 0)) ≡ true)
        → Map pinned out
        → Map pinned' (put_pages ppp 0 (p * ppp) f out)
    Map-put pinned pinned' p f out same final m = record {
      room = rw (length-put_pages ppp 0 (p * ppp) f out) m.room;
      sectors = λ q l. elim (ℕ_discrete p q) [
        | no ne ↦ Sector-other (pinned' q) p q f out ne (rw (← same q ne) (m.sectors q l))
        | yes e ↦ here q e l
      ];
    }
      where
        here : (q : ℕ) → p ≡ q → q < ndev → Sector (pinned' q) q (put_pages ppp 0 (p * ppp) f out)
        here q e l = rw (← e) (
            inl (λ k h.
              ap (is_final (pinned' p))
                (put_sector_self ppp p k f out h (inside ppp p k ndev out (omega arith) h m.room))
              ∙ final (omega arith) k h))

    pub pin-Map :
        (x : ℕ) (pinned : ℕ → Bool) (out : List ℕ)
        → Map pinned out
        → Map (λ q. x == q || pinned q) (pin ndev ppp x out)
    unfolding pin
    pin-Map x pinned out m = elim (Bool-cases (ltb x ndev)) [
      | inl e ↦ rw e (
          Map-put pinned (λ q. x == q || pinned q) x (λ k v. cls_wl) out
            (λ q ne. differs x q (pinned q) ne) (λ l k h. same x (pinned x)) m)
      | inr e ↦ rw e (record {
        room = m.room;
        sectors = λ q l. rw (← differs x q (pinned q) (λ s. absurd (ground arith))) (m.sectors q l);
      })
    ]
      where
        differs : (x q : ℕ) (b : Bool) → x ≢ q → b ≡ (x == q || b)
        differs x q b ne = ground arith

        same : (x : ℕ) (b : Bool) → is_final (x == x || b) cls_wl ≡ true
        same x b = ground arith

    module _ (K : Core) where
      place_sector-Map :
          (ss sector : ℕ) (logpg : List ℕ) (i : K.Inst) (pinned : ℕ → Bool) (out : List ℕ)
          → ClassedTo (sector * ppp + ppp) logpg
          → Map pinned out
          → Map pinned (place_sector K ndev ppp ss logpg sector i out)
      unfolding place_sector
      place_sector-Map ss sector logpg i pinned out c m =
          let ps = phys_addr_of K (sector * ss % 2 ^ 32) i / ss in
          elim (Bool-cases (leb ndev ps || get_or out (ps * ppp) 0 == cls_wl)) [
            | inl e ↦ rw e m
            | inr e ↦ rw e (
                Map-put pinned pinned ps _ out (λ q ne. refl)
                  (λ l k h.
                    let free = not_pinned (pinned ps) ps out (m.sectors ps l) (ground arith) in
                    rw free (c (sector * ppp + k) (omega arith)))
                  m)
          ]

      pub place-Map :
          (n sector ss : ℕ) (logpg : List ℕ) (i : K.Inst) (pinned : ℕ → Bool) (out : List ℕ)
          → ClassedTo ((sector + n) * ppp) logpg
          → Map pinned out
          → Map pinned (place K n sector ndev ppp ss logpg i out)
      unfolding place
      place-Map zero sector ss logpg i pinned out c m = m
      place-Map (suc n) sector ss logpg i pinned out c m =
          let fits : suc sector * ppp ≤ (sector + suc n) * ppp =
            mul-le-mul_right {m = suc sector} {n = sector + suc n} ppp (omega arith) in
          let z : (suc sector + n) * ppp ≡ (sector + suc n) * ppp =
            ap (λ t. t * ppp) {x = suc sector + n} (omega arith) in
          place-Map n (suc sector) ss logpg i pinned _ (rw z c)
            (place_sector-Map ss sector logpg i pinned out (λ j l. c j (omega (arith, fits))) m)

      -- The sectors before `p` are final.
      abbrev pub Before : ℕ → (ℕ → Bool) → List ℕ → Type 0
      Before p pinned out = (q : ℕ) → q < p → q < ndev → Final (pinned q) q out

      net_sector-Map :
          (ss page_size p : ℕ) (s : Hal K) (sec : List ℕ) (pinned : ℕ → Bool) (out : List ℕ)
          → p < ndev
          → Map pinned out × Before p pinned out
          → let (sec', out') = net_sector K ppp ss page_size p s sec out in
            Map pinned out' × Before (suc p) pinned out'
      unfolding net_sector
      net_sector-Map ss page_size p s sec pinned out l (m, b) =
          let (got, sec') = read_phys K p ss sec s in
          elim (Bool-cases (get_or out (p * ppp) 0 == pg_free)) [
            | inr e ↦ rw e (
              m,
              λ q h g. elim (ℕ_discrete p q) [
                | yes z ↦ rw (← z) (not_free (pinned p) p out (m.sectors p l) e)
                | no ne ↦ b q (omega (arith, ne)) g
              ],
            )
            | inl e ↦
                let class = scan_class got page_size sec' in
                let free = free_first (pinned p) p out (m.sectors p l) e in
                let classed : (k v : ℕ) → is_final (pinned p) (class k) ≡ true =
                  λ k v. rw free (scan_class-class got page_size sec' k) in
                rw e (
                  Map-put pinned pinned p (λ k v. class k) out (λ q ne. refl)
                      (λ l' k h. classed k 0) m,
                  λ q h g. elim (ℕ_discrete p q) [
                    | no ne ↦
                        Final-other (pinned q) p q (λ k v. class k) out ne
                          (b q (omega (arith, ne)) g)
                    | yes z ↦ rw (← z) (λ k k_in.
                        ap (is_final (pinned p)) (
                          put_sector_self ppp p k (λ k v. class k) out k_in
                            (inside ppp p k ndev out l k_in m.room))
                        ∙ classed k 0)
                  ],
                )
          ]

      pub safety_net-Map :
          (n p ss page_size : ℕ) (s : Hal K) (sec : List ℕ) (pinned : ℕ → Bool) (out : List ℕ)
          → p + n ≡ ndev
          → Map pinned out × Before p pinned out
          → Before ndev pinned (safety_net K n p ppp ss page_size s sec out)
      unfolding safety_net
      safety_net-Map zero p ss page_size s sec pinned out e (m, b) = λ q h g. b q (omega arith) g
      safety_net-Map (suc n) p ss page_size s sec pinned out e h =
          let (sec', out') = net_sector K ppp ss page_size p s sec out in
          safety_net-Map n (suc p) ss page_size s sec' pinned out' (omega arith)
            (net_sector-Map ss page_size p s sec pinned out (omega arith) h)
