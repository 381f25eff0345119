-- ===== src/FatFs/Inspect/Marking.antt =====
-- What every step of the walk of bindings/fatfs/fat_inspect.cpp keeps of its context: the page classes stay
-- in range whatever the volume holds.
use flash_vis.Common.{
  ℕ, zero, suc, ◌+◌, ◌-◌, ◌*◌, ◌/◌, ◌%◌, ◌^◌, min, Bool, true, false, not, ◌||◌, List, [], ◌∷◌,
  ◌++◌, length, get_or, set, if◌then◌else◌, ◌==◌, ltb, leb, ◌≡◌, refl, ◌∙◌, length-set, some,
}
use flash_vis.FatFs.Hal.{Core, Hal, inspect_read}
use flash_vis.FatFs.Inspect.{
  Scan, cls_meta, cls_live, cls_slack, pg_alloc, Entry, end_marker, skipped, subdir, file,
  mark_pages, mark_bytes, mark_region, mark_cluster, mark_chain, mark_file, is_cluster, ends_chain,
  entry_at, scan_entries, scan_dir_sector, mark_allocated, fat12_entry,
}
use flash_vis.FatFs.Inspect.Boot.{Bpb, mark_fats, mark_fixed, mark_past, root_start, root_secs}
use flash_vis.FatFs.Inspect.LiveMap.{read_logical, root_loop, sub_loop, walk_subs, walk_dirs}

-- The classes that a page of a logical sector can have.
abbrev pub is_class : ℕ → Bool
is_class v = leb v 3 || v == 5

-- The same, or one of the sentinels.
abbrev pub is_known : ℕ → Bool
is_known v = is_class v || v == 0xFD || v == 0xFE

pub keep_if {ℓ} :
    {A : Type 0} (P : A → Type ℓ) (b : Bool) (x y : A) → P x → P y → P (if b then x else y)
keep_if P true x y p q = p
keep_if P false x y p q = q

pub known_set :
    (pg : List ℕ) (p v : ℕ)
    → is_known v ≡ true
    → ((i : ℕ) → is_known (get_or pg i 0) ≡ true)
    → (i : ℕ) → is_known (get_or (set pg p v) i 0) ≡ true
known_set [] p v k h i = h i
known_set (x ∷ pg) zero v k h zero = k
known_set (x ∷ pg) zero v k h (suc i) = h (suc i)
known_set (x ∷ pg) (suc p) v k h zero = h 0
known_set (x ∷ pg) (suc p) v k h (suc i) = known_set pg p v k (λ j. h (suc j)) i

known_pages :
    (n p b1 pgsz cls : ℕ) (pg : List ℕ)
    → is_known cls ≡ true
    → ((i : ℕ) → is_known (get_or pg i 0) ≡ true)
    → (i : ℕ) → is_known (get_or (mark_pages n p b1 pgsz cls pg) i 0) ≡ true
unfolding mark_pages
known_pages zero p b1 pgsz cls pg k h i = h i
known_pages (suc n) p b1 pgsz cls pg k h i =
    keep_if (λ x. is_known (get_or x i 0) ≡ true) (ltb (p * pgsz) b1) _ pg
      (known_pages n (suc p) b1 pgsz cls (set pg p cls) k (known_set pg p cls k h) i) (h i)

pub length-mark_pages :
    (n p b1 pgsz cls : ℕ) (pg : List ℕ) → length (mark_pages n p b1 pgsz cls pg) ≡ length pg
unfolding mark_pages
length-mark_pages zero p b1 pgsz cls pg = refl
length-mark_pages (suc n) p b1 pgsz cls pg =
    keep_if (λ x. length x ≡ length pg) (ltb (p * pgsz) b1) _ pg
      (length-mark_pages n (suc p) b1 pgsz cls (set pg p cls) ∙ length-set pg p cls) refl

module _ (ss pgsz nlog : ℕ) where
  pub record Fits (w : Scan) : Type 0 where
    pub known : (i : ℕ) → is_known (get_or w.logpg i 0) ≡ true
    pub whole : length w.logpg ≡ 4096
    pub same_ss : w.ss ≡ ss
    pub same_pgsz : w.pgsz ≡ pgsz
    pub same_nlog : w.nlog ≡ nlog

  mark_bytes-Fits :
      (b0 b1 cls : ℕ) (w : Scan) → is_known cls ≡ true → Fits w → Fits (mark_bytes b0 b1 cls w)
  unfolding mark_bytes
  mark_bytes-Fits b0 b1 cls w k f = record {
    known = known_pages (min b1 (w.nlog * w.ss)) _ _ _ cls w.logpg k f.known;
    whole = length-mark_pages (min b1 (w.nlog * w.ss)) _ _ _ cls w.logpg ∙ f.whole;
    same_ss = f.same_ss;
    same_pgsz = f.same_pgsz;
    same_nlog = f.same_nlog;
  }

  mark_region-Fits : (start used len : ℕ) (w : Scan) → Fits w → Fits (mark_region start used len w)
  unfolding mark_region
  mark_region-Fits start used len w f =
      let f' = mark_bytes-Fits start ((start + min used len) % 2 ^ 32) cls_meta w refl f in
      keep_if Fits _ _ _ (mark_bytes-Fits _ _ cls_slack _ refl f') f'

  mark_cluster-Fits : (c i size : ℕ) (w : Scan) → Fits w → Fits (mark_cluster c i size w)
  unfolding mark_cluster
  mark_cluster-Fits c i size w f =
      mark_bytes-Fits _ _ cls_slack _ refl (mark_bytes-Fits _ _ cls_live w refl f)

  mark_chain-Fits : (n c i size : ℕ) (w : Scan) → Fits w → Fits (mark_chain n c i size w)
  unfolding mark_chain
  mark_chain-Fits zero c i size w f = f
  mark_chain-Fits (suc n) c i size w f =
      let f' = mark_cluster-Fits c i size w f in
      keep_if Fits (not (is_cluster c w)) w _ f (
        keep_if Fits (ends_chain (fat12_entry w.fat w.fat_len c)) _ _ f' (
          mark_chain-Fits n (fat12_entry w.fat w.fat_len c) (suc i) size (mark_cluster c i size w)
            f'))

  scan_entries-Fits :
      (n off room : ℕ) (subs : List ℕ) (w : Scan) → Fits w → Fits (scan_entries n off room subs w).3
  unfolding scan_entries mark_file
  scan_entries-Fits zero off room subs w f = f
  scan_entries-Fits (suc n) off room subs w f =
      by_entry (λ subs' w' f'. scan_entries-Fits n (off + 32) room subs' w' f') (entry_at w.sec off)
    where
      by_entry :
          ((subs' : List ℕ) (w' : Scan)
            → Fits w'
            → Fits (scan_entries n (off + 32) room subs' w').3)
          → (e : Entry)
          → Fits
              (elim e as (λ x. Bool × ℕ × List ℕ × Scan) [
                | end_marker ↦ (true, off + 32, subs, w)
                | skipped ↦ scan_entries n (off + 32) room subs w
                | subdir clus ↦
                    scan_entries n
                      (off + 32)
                      room
                      (if ltb (length subs) room then subs ++ clus ∷ [] else subs)
                      w
                | file clus size ↦ scan_entries n (off + 32) room subs (mark_file clus size w)
              ]).3
      by_entry ih end_marker = f
      by_entry ih skipped = ih subs w f
      by_entry ih (subdir clus) = ih _ w f
      by_entry ih (file clus size) =
          ih subs (mark_file clus size w) (mark_chain-Fits (w.nclusters + 1) clus 0 size w f)

  mark_allocated-Fits : (n c : ℕ) (w : Scan) → Fits w → Fits (mark_allocated n c w)
  unfolding mark_allocated
  mark_allocated-Fits zero c w f = f
  mark_allocated-Fits (suc n) c w f =
      mark_allocated-Fits n (suc c) _ (keep_if Fits _ _ w (mark_bytes-Fits _ _ pg_alloc w refl f) f)

  mark_fats-Fits :
      (n f fat_used : ℕ) (b : Bpb) (w : Scan) → Fits w → Fits (mark_fats n f fat_used b w)
  unfolding mark_fats
  mark_fats-Fits zero f fat_used b w h = h
  mark_fats-Fits (suc n) f fat_used b w h =
      mark_fats-Fits n (suc f) fat_used b _ (mark_region-Fits _ fat_used _ w h)

  pub mark_fixed-Fits : (b : Bpb) (w : Scan) → Fits w → Fits (mark_fixed b w)
  unfolding mark_fixed
  mark_fixed-Fits b w f =
      mark_fats-Fits b.num_fats 0 _ b _
        (mark_region-Fits 0 512 _ _ (mark_allocated-Fits ((w.nclusters + 2) % 2 ^ 32 - 2) 2 w f))

  mark_past-Fits : (n sector : ℕ) (w : Scan) → Fits w → Fits (mark_past n sector w)
  unfolding mark_past
  mark_past-Fits zero sector w f = f
  mark_past-Fits (suc n) sector w f = mark_past-Fits n (suc sector) _ (mark_region-Fits _ 0 _ w f)

  with_sec-Fits : (sec : List ℕ) (w : Scan) → Fits w → Fits (record w { sec = sec })
  with_sec-Fits sec w f = record {
    known = f.known;
    whole = f.whole;
    same_ss = f.same_ss;
    same_pgsz = f.same_pgsz;
    same_nlog = f.same_nlog;
  }

  -- What a scanned directory sector leaves, read into `sec`.
  scanned-Fits :
      (room sector : ℕ) (subs sec : List ℕ) (w : Scan)
      → Fits w
      → let (ended, extent, subs', w') = scan_dir_sector room subs (record w { sec = sec }) in
        Fits (mark_region (sector * w.ss % 2 ^ 32) extent w.ss w')
  unfolding scan_dir_sector
  scanned-Fits room sector subs sec w f =
      mark_region-Fits _ _ _ _
        (scan_entries-Fits (w.ss / 32) 0 room subs (record w { sec = sec }) (with_sec-Fits sec w f))

  module _ (K : Core) where
    -- The instance is there.
    abbrev pub IsUp : Hal K → Type 0
    IsUp s = (i : K.Inst) × (s.inspect ≡ some i)

    pub read_logical-IsUp :
        (sector size : ℕ) (buf : List ℕ) (s : Hal K)
        → IsUp s
        → IsUp (read_logical K sector size buf s).2
    unfolding read_logical inspect_read
    read_logical-IsUp sector size buf s (i, e) = rw (e, read_logical) (_, refl)

    abbrev pub Sound : Scan → Hal K → Type 0
    Sound w s = Fits w × IsUp s

    root_loop-Sound :
        (n sector : ℕ) (subs : List ℕ) (w : Scan) (s : Hal K)
        → Sound w s
        → let (subs', w', s') = root_loop K n sector subs w s in Sound w' s'
    unfolding root_loop
    root_loop-Sound zero sector subs w s h = h
    root_loop-Sound (suc n) sector subs w s (f, u) =
        let (got, sec', s') = read_logical K sector w.ss w.sec s in
        let u' = read_logical-IsUp sector w.ss w.sec s u in
        let (ended, extent, subs', w') = scan_dir_sector 32 subs (record w { sec = sec' }) in
        let w'' = mark_region (sector * w.ss % 2 ^ 32) extent w.ss w' in
        let f' = scanned-Fits 32 sector subs sec' w f in
        let P : List ℕ × Scan × Hal K → Type 0 = λ r. Sound r.1 r.2 in
        keep_if P (not got) (subs, record w { sec = sec' }, s') _ (with_sec-Fits sec' w f, u')
          (keep_if P ended (subs', mark_past n (suc sector) w'', s') _
            (mark_past-Fits n (suc sector) w'' f', u')
            (root_loop-Sound n (suc sector) subs' w'' s' (f', u')))

    sub_loop-Sound :
        (n c : ℕ) (subs : List ℕ) (w : Scan) (s : Hal K)
        → Sound w s
        → let (w', s') = sub_loop K n c subs w s in Sound w' s'
    unfolding sub_loop
    sub_loop-Sound zero c subs w s h = h
    sub_loop-Sound (suc n) c subs w s (f, u) =
        let sector = (w.data_start + (c - 2)) % 2 ^ 32 in
        let (got, sec', s') = read_logical K sector w.ss w.sec s in
        let u' = read_logical-IsUp sector w.ss w.sec s u in
        let (ended, extent, subs', w') = scan_dir_sector 0 subs (record w { sec = sec' }) in
        let w'' = mark_region (sector * w.ss % 2 ^ 32) extent w.ss w' in
        let f' = scanned-Fits 0 sector subs sec' w f in
        let next = fat12_entry w.fat w.fat_len c in
        let P : Scan × Hal K → Type 0 = λ r. Sound r.0 r.1 in
        keep_if P (not (is_cluster c w)) (w, s) _ (f, u)
          (keep_if P (not got) (record w { sec = sec' }, s') _ (with_sec-Fits sec' w f, u')
            (keep_if P (ended || ends_chain next) (w'', s') _ (f', u')
              (sub_loop-Sound n next subs w'' s' (f', u'))))

    walk_subs-Sound :
        (cs subs : List ℕ) (w : Scan) (s : Hal K)
        → Sound w s
        → let (w', s') = walk_subs K cs subs w s in Sound w' s'
    unfolding walk_subs
    walk_subs-Sound [] subs w s h = h
    walk_subs-Sound (c ∷ cs) subs w s h =
        walk_subs-Sound cs subs _ _ (sub_loop-Sound (w.nclusters + 1) c subs w s h)

    -- Step 4 keeps the classes in range.
    pub walk_dirs-Sound :
        (b : Bpb) (w : Scan) (s : Hal K)
        → Sound w s
        → let (w', s') = walk_dirs K b w s in Sound w' s'
    unfolding walk_dirs
    walk_dirs-Sound b w s h =
        walk_subs-Sound _ _ _ _ (root_loop-Sound (root_secs w.ss b) (root_start b) [] w s h)
