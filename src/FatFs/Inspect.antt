-- ===== src/FatFs/Inspect.antt =====
-- bindings/fatfs/fat_inspect.cpp: reading the FAT and marking the pages of the logical sectors. A
-- little-endian read of bytes, `p[0] | (p[1] << 8)`, is a sum.
pub mod Boot
pub mod LiveMap
pub mod Fat12
pub mod Marking
pub mod Pages
pub mod Clusters
pub mod Chains
pub mod FileMarks
pub mod Sectors
pub mod Resolve
pub mod Placement
pub mod Classes
mod Tests
mod FileTests
use flash_vis.Common.{
  ℕ, zero, suc, ◌+◌, ◌-◌, ◌*◌, ◌/◌, ◌%◌, ◌^◌, min, bit_and, Bool, true, false, not, ◌&&◌, ◌||◌,
  List, [], ◌∷◌, ◌++◌, length, get_or, set, if◌then◌else◌, ◌==◌, ltb, leb,
}

abbrev pub cls_erased : ℕ
cls_erased = 0

abbrev pub cls_meta : ℕ
cls_meta = 1

abbrev pub cls_obsolete : ℕ
cls_obsolete = 2

abbrev pub cls_live : ℕ
cls_live = 3

abbrev pub cls_wl : ℕ
cls_wl = 4

abbrev pub cls_slack : ℕ
cls_slack = 5

abbrev pub pg_alloc : ℕ
pg_alloc = 0xFD

abbrev pub pg_free : ℕ
pg_free = 0xFE

unfoldable pub rd16 : List ℕ → ℕ → ℕ
rd16 p at = get_or p at 0 + get_or p (at + 1) 0 * 2 ^ 8

unfoldable pub rd32 : List ℕ → ℕ → ℕ
rd32 p at =
    get_or p at 0
    + get_or p (at + 1) 0 * 2 ^ 8
    + get_or p (at + 2) 0 * 2 ^ 16
    + get_or p (at + 3) 0 * 2 ^ 24

unfoldable pub fat12_entry : List ℕ → ℕ → ℕ → ℕ
fat12_entry fat fat_len c =
    let ofs = (c + c / 2) % 2 ^ 32 in
    let v = get_or fat ofs 0 + get_or fat (ofs + 1) 0 * 2 ^ 8 in
    if leb fat_len ((ofs + 1) % 2 ^ 32)
    then 0
    else if not (bit_and c 1 == 0)
    then v / 2 ^ 4
    else v % 2 ^ 12

-- The static walk context.
pub record Scan : Type 0 where
  pub sec : List ℕ
  pub fat : List ℕ
  pub logpg : List ℕ
  pub ss : ℕ
  pub pgsz : ℕ
  pub nlog : ℕ
  pub fat_len : ℕ
  pub data_start : ℕ
  pub nclusters : ℕ

-- `for (p = ...; p * s_pgsz < b1; p++) s_logpg[p] = cls;` from `p`, for `n` rounds at most. Each round takes
-- `p` on by one and stays below `b1`, so `b1` rounds are enough.
unfoldable pub mark_pages : ℕ → ℕ → ℕ → ℕ → ℕ → List ℕ → List ℕ
mark_pages zero p b1 pgsz cls pg = pg
mark_pages (suc n) p b1 pgsz cls pg =
    let rest = mark_pages n (suc p) b1 pgsz cls (set pg p cls) in
    if ltb (p * pgsz) b1 then rest else pg

unfoldable pub mark_bytes : ℕ → ℕ → ℕ → Scan → Scan
mark_bytes b0 b1 cls w =
    let limit = min b1 (w.nlog * w.ss) in
    record w { logpg = mark_pages limit (b0 / w.pgsz) limit w.pgsz cls w.logpg }

unfoldable pub mark_region : ℕ → ℕ → ℕ → Scan → Scan
mark_region start used len w =
    let used' = min used len in
    let w' = mark_bytes start ((start + used') % 2 ^ 32) cls_meta w in
    let aligned = (start + (used' + w.pgsz - 1) % 2 ^ 32 / w.pgsz * w.pgsz) % 2 ^ 32 in
    let end = (start + len) % 2 ^ 32 in
    if ltb aligned end then mark_bytes aligned end cls_slack w' else w'

-- `(s_data_start + (c - 2)) * s_ss`
unfoldable pub cluster_base : ℕ → Scan → ℕ
cluster_base c w = (w.data_start + (c - 2)) * w.ss % 2 ^ 32

-- `c >= 2 && c < s_nclusters + 2`
unfoldable pub is_cluster : ℕ → Scan → Bool
is_cluster c w = leb 2 c && ltb c ((w.nclusters + 2) % 2 ^ 32)

-- `next < 2 || next >= 0x0FF8`
unfoldable pub ends_chain : ℕ → Bool
ends_chain next = ltb next 2 || leb 0x0FF8 next

-- The body of mark_file's loop: cluster `c`, the file's `i`-th.
unfoldable pub mark_cluster : ℕ → ℕ → ℕ → Scan → Scan
mark_cluster c i size w =
    let base = cluster_base c w in
    let before = i * w.ss % 2 ^ 32 in
    let covered = min (if ltb before size then size - before else 0) w.ss in
    let live = (covered + w.pgsz - 1) / w.pgsz * w.pgsz in
    let w' = mark_bytes base ((base + live) % 2 ^ 32) cls_live w in
    mark_bytes ((base + live) % 2 ^ 32) ((base + w.ss) % 2 ^ 32) cls_slack w'

-- mark_file from its `i`-th round on, with `n` rounds left before `i <= s_nclusters` fails.
unfoldable pub mark_chain : ℕ → ℕ → ℕ → ℕ → Scan → Scan
mark_chain zero c i size w = w
mark_chain (suc n) c i size w =
    let w' = mark_cluster c i size w in
    let next = fat12_entry w.fat w.fat_len c in
    let rest = mark_chain n next (suc i) size w' in
    if not (is_cluster c w) then w else if ends_chain next then w' else rest

unfoldable pub mark_file : ℕ → ℕ → Scan → Scan
mark_file start_clus size w = mark_chain (w.nclusters + 1) start_clus 0 size w

-- What a directory entry is to the scan.
pub data Entry : Type 0 where
  end_marker skipped : Entry
  subdir : ℕ → Entry
  file : ℕ → ℕ → Entry

unfoldable pub entry_at : List ℕ → ℕ → Entry
entry_at sec off =
    let first = get_or sec off 0 in
    let attr = get_or sec (off + 11) 0 in
    let clus = rd16 sec (off + 26) + rd16 sec (off + 20) * 2 ^ 16 in
    let size = rd32 sec (off + 28) in
    if first == 0x00
    then end_marker
    else if first == 0xE5
    then skipped
    else if attr == 0x0F
    then skipped
    else if not (bit_and attr 0x08 == 0)
    then skipped
    else if not (bit_and attr 0x10 == 0)
    then (if first == b'.' then skipped else if leb 2 clus then subdir clus else skipped)
    else if leb 2 clus && ltb 0 size
    then file clus size
    else skipped

-- The loop of scan_dir_sector over `n` entries from `off`: whether the end marker was met, the extent, the
-- collected subdirectories and the context.
unfoldable pub scan_entries : ℕ → ℕ → ℕ → List ℕ → Scan → Bool × ℕ × List ℕ × Scan
scan_entries zero off room subs w = (false, w.ss, subs, w)
scan_entries (suc n) off room subs w = elim (entry_at w.sec off) [
  | end_marker ↦ (true, off + 32, subs, w)
  | skipped ↦ scan_entries n (off + 32) room subs w
  | subdir clus ↦
      scan_entries n (off + 32) room (if ltb (length subs) room then subs ++ clus ∷ [] else subs) w
  | file clus size ↦ scan_entries n (off + 32) room subs (mark_file clus size w)
]

unfoldable pub scan_dir_sector : ℕ → List ℕ → Scan → Bool × ℕ × List ℕ × Scan
scan_dir_sector room subs w = scan_entries (w.ss / 32) 0 room subs w

-- `for (c = 2; c < s_nclusters + 2; c++) if (fat12_entry(...) != 0) mark_bytes(base, base + ss, PG_ALLOC);`
-- from `c`, for `n` rounds.
unfoldable pub mark_allocated : ℕ → ℕ → Scan → Scan
mark_allocated zero c w = w
mark_allocated (suc n) c w =
    let base = cluster_base c w in
    let w' = mark_bytes base ((base + w.ss) % 2 ^ 32) pg_alloc w in
    mark_allocated n (suc c) (if not (fat12_entry w.fat w.fat_len c == 0) then w' else w)
