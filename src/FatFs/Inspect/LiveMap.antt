-- ===== src/FatFs/Inspect/LiveMap.antt =====
-- bindings/fatfs/fat_inspect.cpp: ff_live_map, stage by stage. The bytes of a sector are read into the
-- start of a 4096-byte buffer.
use flash_vis.Common.{
  ℕ, zero, suc, ◌+◌, ◌-◌, ◌*◌, ◌/◌, ◌%◌, ◌^◌, Bool, true, false, not, ◌||◌, List, [], ◌∷◌, ◌++◌,
  get_or, set, take, drop, none, some, ℤ, pos, negsuc, eqb_ℤ, if◌then◌else◌, ◌==◌, ltb, leb,
}
use flash_vis.Nor
use flash_vis.Abi.Blank.{blank_from}
use flash_vis.FatFs.Partition.{esp_ok}
use flash_vis.FatFs.Hal.{Core, Hal, inspect_read, phys_addr_of}
use flash_vis.FatFs.Inspect.{
  Scan, cls_erased, cls_obsolete, cls_live, cls_wl, pg_alloc, pg_free, fat12_entry, mark_region,
  is_cluster, ends_chain, scan_dir_sector,
}
use flash_vis.FatFs.Inspect.Boot.{
  Bpb, bpb_of, is_known, root_start, root_secs, scan_of, mark_fixed, mark_past, refuses,
}

-- `for (k = i; k < i + n; k++) out[at + k] = f(k, out[at + k]);`: what the loops over the pages of a sector
-- do.
unfoldable pub put_pages : ℕ → ℕ → ℕ → (ℕ → ℕ → ℕ) → List ℕ → List ℕ
put_pages zero i at f out = out
put_pages (suc n) i at f out =
    put_pages n (suc i) at f (set out (at + i) (f i (get_or out (at + i) 0)))

-- Whether one of the `n` entries from `at` is PG_FREE.
unfoldable pub any_free : ℕ → ℕ → List ℕ → Bool
any_free zero at pg = false
any_free (suc n) at pg = get_or pg at 0 == pg_free || any_free n (suc at) pg

-- The class of a free page, by the blank scan of page `k` of a sector.
unfoldable pub free_class : ℕ → List ℕ → ℕ → ℕ
free_class page_size sec k =
    if blank_from page_size (k * page_size) sec then cls_erased else cls_obsolete

-- The two sentinels.
unfoldable pub claim : ℕ → ℕ → ℕ
claim k v = if v == pg_alloc then cls_live else v

unfoldable pub settle : (ℕ → ℕ) → ℕ → ℕ → ℕ
settle class k v = if v == pg_free then class k else v

-- `if (x < ndev) memset(out + x * ppp, CLS_WL, ppp);`
unfoldable pub pin : ℕ → ℕ → ℕ → List ℕ → List ℕ
pin ndev ppp x out = if ltb x ndev then put_pages ppp 0 (x * ppp) (λ k v. cls_wl) out else out

module _ (K : Core) where
  unfoldable pub read_phys : ℕ → ℕ → List ℕ → Hal K → Bool × List ℕ
  read_phys phys_sector ss buf s =
      let (rc, got, d) = Nor.read_quiet (phys_sector * ss % 2 ^ 32) (take ss buf) s.nor in
      (eqb_ℤ rc (pos 0), got ++ drop ss buf)

  -- g_wl_inspect is up, which ff_live_map has checked.
  unfoldable pub read_logical : ℕ → ℕ → List ℕ → Hal K → Bool × List ℕ × Hal K
  read_logical sector ss buf s = elim s.inspect [
    | none ↦ (false, buf, s)
    | some i ↦
        let (rc, got, s') = inspect_read K (sector * ss % 2 ^ 32) (take ss buf) i s in
        (eqb_ℤ rc esp_ok, got ++ drop ss buf, s')
  ]

  -- The loop over the root directory, with `n` sectors left from `sector`.
  unfoldable pub root_loop : ℕ → ℕ → List ℕ → Scan → Hal K → List ℕ × Scan × Hal K
  root_loop zero sector subs w s = (subs, w, s)
  root_loop (suc n) sector subs w s =
      let (got, sec', s') = read_logical sector w.ss w.sec s in
      let (ended, extent, subs', w') = scan_dir_sector 32 subs (record w { sec = sec' }) in
      let w'' = mark_region (sector * w.ss % 2 ^ 32) extent w.ss w' in
      let rest = root_loop n (suc sector) subs' w'' s' in
      if not got
      then (subs, record w { sec = sec' }, s')
      else if ended
      then (subs', mark_past n (suc sector) w'', s')
      else rest

  -- The loop over the cluster chain of a subdirectory, with `n` rounds left before its guard.
  unfoldable pub sub_loop : ℕ → ℕ → List ℕ → Scan → Hal K → Scan × Hal K
  sub_loop zero c subs w s = (w, s)
  sub_loop (suc n) c subs w s =
      let sector = (w.data_start + (c - 2)) % 2 ^ 32 in
      let (got, sec', s') = read_logical sector w.ss w.sec s in
      let (ended, extent, subs', w') = scan_dir_sector 0 subs (record w { sec = sec' }) in
      let w'' = mark_region (sector * w.ss % 2 ^ 32) extent w.ss w' in
      let next = fat12_entry w.fat w.fat_len c in
      let rest = sub_loop n next subs w'' s' in
      if not (is_cluster c w)
      then (w, s)
      else if not got
      then (record w { sec = sec' }, s')
      else if ended || ends_chain next
      then (w'', s')
      else rest

  unfoldable pub walk_subs : List ℕ → List ℕ → Scan → Hal K → Scan × Hal K
  walk_subs [] subs w s = (w, s)
  walk_subs (c ∷ cs) subs w s =
      let (w', s') = sub_loop (w.nclusters + 1) c subs w s in walk_subs cs subs w' s'

  -- Step 4.
  unfoldable pub walk_dirs : Bpb → Scan → Hal K → Scan × Hal K
  walk_dirs b w s =
      let (subs, w', s') = root_loop (root_secs w.ss b) (root_start b) [] w s in
      walk_subs subs subs w' s'

  -- One round of step 5, for the logical sector `sector` of `ppp` pages.
  unfoldable pub resolve_sector : ℕ → ℕ → Scan → Hal K → Scan × Hal K
  resolve_sector ppp sector w s =
      let at = sector * ppp in
      let claimed = put_pages ppp 0 at claim w.logpg in
      let (got, sec', s') = read_logical sector w.ss w.sec s in
      let class : ℕ → ℕ = if got then free_class w.pgsz sec' else (λ k. cls_obsolete) in
      if not (any_free ppp at w.logpg)
      then (record w { logpg = claimed }, s)
      else (record w { sec = sec'; logpg = put_pages ppp 0 at (settle class) claimed }, s')

  unfoldable pub resolve : ℕ → ℕ → ℕ → Scan → Hal K → Scan × Hal K
  resolve zero sector ppp w s = (w, s)
  resolve (suc n) sector ppp w s =
      let (w', s') = resolve_sector ppp sector w s in resolve n (suc sector) ppp w' s'

  unfoldable pub pin_all : ℕ → ℕ → ℕ → K.Inst → List ℕ → List ℕ
  unfolding pin
  pin_all ndev ppp ss i out =
      pin ndev ppp (K.addr_cfg i / ss)
        (pin ndev ppp (K.addr_state2 i / ss) (pin ndev ppp (K.addr_state1 i / ss) out))

  -- One round of the placement: the pages of a logical sector go to its physical sector.
  unfoldable pub place_sector : ℕ → ℕ → ℕ → List ℕ → ℕ → K.Inst → List ℕ → List ℕ
  place_sector ndev ppp ss logpg sector i out =
      let ps = phys_addr_of K (sector * ss % 2 ^ 32) i / ss in
      if leb ndev ps || get_or out (ps * ppp) 0 == cls_wl
      then out
      else put_pages ppp 0 (ps * ppp) (λ k v. get_or logpg (sector * ppp + k) 0) out

  unfoldable pub place : ℕ → ℕ → ℕ → ℕ → ℕ → List ℕ → K.Inst → List ℕ → List ℕ
  place zero sector ndev ppp ss logpg i out = out
  place (suc n) sector ndev ppp ss logpg i out =
      place n (suc sector) ndev ppp ss logpg i (place_sector ndev ppp ss logpg sector i out)

  -- One round of the safety net, for the physical sector `p`: the buffer and the map.
  unfoldable pub net_sector : ℕ → ℕ → ℕ → ℕ → Hal K → List ℕ → List ℕ → List ℕ × List ℕ
  net_sector ppp ss page_size p s sec out =
      let (got, sec') = read_phys p ss sec s in
      let class : ℕ → ℕ = if got then free_class page_size sec' else (λ k. cls_obsolete) in
      if not (get_or out (p * ppp) 0 == pg_free)
      then (sec, out)
      else (sec', put_pages ppp 0 (p * ppp) (λ k v. class k) out)

  unfoldable pub safety_net : ℕ → ℕ → ℕ → ℕ → ℕ → Hal K → List ℕ → List ℕ → List ℕ
  safety_net zero p ppp ss page_size s sec out = out
  safety_net (suc n) p ppp ss page_size s sec out =
      let (sec', out') = net_sector ppp ss page_size p s sec out in
      safety_net n (suc p) ppp ss page_size s sec' out'

  -- Step 6.
  unfoldable pub compose : ℕ → K.Inst → Scan → Hal K → List ℕ → List ℕ
  compose ppp i w s out =
      let ndev = w.nlog + 4 in
      let blank = put_pages (ndev * ppp) 0 0 (λ k v. pg_free) out in
      let placed = place w.nlog 0 ndev ppp w.ss w.logpg i (pin_all ndev ppp w.ss i blank) in
      safety_net ndev 0 ppp w.ss w.pgsz s w.sec placed

  -- From the FAT on, with the boot record read: the code, the map, and what is left of the volume.
  unfoldable pub map_volume : Scan → Bpb → Hal K → List ℕ → ℤ × List ℕ × Hal K
  map_volume w b s out =
      let ppp = w.ss / w.pgsz in
      let (got, fat', s₁) = read_logical b.rsvd w.ss w.fat s in
      let (w₁, s₂) = walk_dirs b (mark_fixed b (record w { fat = fat' })) s₁ in
      let (w₂, s₃) = resolve w.nlog 0 ppp w₁ s₂ in
      let map : List ℕ = elim s₃.inspect [ none ↦ out | some i ↦ compose ppp i w₂ s₃ out ] in
      if not got then (negsuc 0, out, s₁) else (pos 0, map, s₃)

  -- From the boot record on, with reads quiet.
  unfoldable pub map_device : List ℕ → List ℕ → List ℕ → ℕ → ℕ → ℕ → Hal K → ℤ × List ℕ × Hal K
  map_device sec fat out page_size ss nlog s =
      let (got, sec', s₁) = read_logical 0 ss sec s in
      let (rc, map, s₂) = map_volume (scan_of ss page_size nlog sec' fat) (bpb_of sec') s₁ out in
      if not got || not (is_known ss sec')
      then (negsuc 0, out, record s₁ { quiet = false })
      else (rc, map, record s₂ { quiet = false })

  -- `sec` and `fat` are what the static buffers hold from the call before.
  unfoldable pub ff_live_map : List ℕ → List ℕ → List ℕ → ℕ → Hal K → ℤ × List ℕ × Hal K
  ff_live_map sec fat out page_size s = elim s.inspect [
    | none ↦ (negsuc 0, out, s)
    | some i ↦
        let ss = K.sector_size i % 2 ^ 32 in
        let nlog = K.flash_size i % 2 ^ 32 / ss in
        if refuses ss page_size nlog
        then (negsuc 0, out, s)
        else map_device sec fat out page_size ss nlog (record s { quiet = true })
  ]
