-- ===== src/FatFs/Inspect/FileTests.antt =====
-- Runs of bindings/fatfs/fat_inspect.cpp: the entries of a small FAT, and a file of two clusters.
use flash_vis.Common.{ℕ, zero, suc, List, [], ◌∷◌, get_or, replicate, ◌≡◌, refl, arith}
use flash_vis.FatFs.Inspect.{Scan, cls_slack, fat12_entry, mark_file, is_cluster, ends_chain}
use flash_vis.FatFs.Inspect.Fat12.{pack, IsEntries, fat12_entry-pack}
use flash_vis.FatFs.Inspect.Chains.{last, link}
use flash_vis.FatFs.Inspect.Clusters.{Geometry}
use flash_vis.FatFs.Inspect.FileMarks.{ChainOf, mark_file_lem}

-- The two reserved entries, and a chain from cluster 2 to cluster 3.
abbrev entries : List ℕ
entries = 0xFF8 ∷ 0xFFF ∷ 3 ∷ 0xFFF ∷ []

entries-IsEntries : IsEntries entries
entries-IsEntries zero h = omega arith
entries-IsEntries (suc zero) h = omega arith
entries-IsEntries (suc (suc zero)) h = omega arith
entries-IsEntries (suc (suc (suc zero))) h = omega arith
entries-IsEntries (suc (suc (suc (suc i)))) h = absurd (omega arith)

fat12_entry-pack_example : fat12_entry (pack entries) 6 2 ≡ 3
unfolding pack
fat12_entry-pack_example = fat12_entry-pack entries 2 entries-IsEntries (omega arith) (omega arith)

abbrev scan : Scan
scan = record {
  sec = [];
  fat = pack entries;
  logpg = replicate 8 0xFE;
  ss = 4;
  pgsz = 2;
  nlog = 4;
  fat_len = 6;
  data_start = 1;
  nclusters = 3;
}

-- Sectors of two pages of two bytes.
scan-Geometry : Geometry 2 2 (omega arith) scan
scan-Geometry = record {
  page = refl;
  sector = refl;
  volume = omega arith;
  fits = omega arith;
  narrow = omega arith;
}

two_clusters : ChainOf scan 2 (2 ∷ 3 ∷ [])
unfolding is_cluster ends_chain fat12_entry pack
two_clusters = link refl refl (last refl refl)

-- Five bytes: the last page of the second cluster is slack.
mark_file_lem_example : get_or (mark_file 2 5 scan).logpg 5 0 ≡ cls_slack
mark_file_lem_example =
    (mark_file_lem 2 2 (omega arith) 2 5 (2 ∷ 3 ∷ []) scan scan-Geometry two_clusters).0 1 1
      (omega arith) (omega arith)
