-- ===== src/Spiffs/Walk.antt =====
-- The directory loops of bindings/spiffs/shim.c against the list of entries that SPIFFS_readdir goes
-- through.
use flash_vis.Common.{
  ℕ, zero, suc, ◌+◌, ◌%◌, ◌^◌, ◌<◌, Bool, true, false, List, [], ◌∷◌, length, get_or, Option, none,
  some, ℤ, negsuc, pos_part, int_of_u32, if◌then◌else◌, ◌≡◌, refl, arith, ap, ◌∙◌, inl, inr, ◌⊎◌,
  Bool-cases, ◌==◌, ◌&&◌, take,
}
use flash_vis.Abi.Name.{copy_name}
use flash_vis.Spiffs.{Core, Shim, Dirent}
use flash_vis.Spiffs.Dirs.{
  Totals, opendir_call, readdir_call, next_kept, is_file, listed, starts_with, bad_dir, ff_dir_read,
  commit_loop, quiet_walk, committed_walk, ff_committed_files, ff_committed_bytes,
}

-- The entries that a test keeps.
unfoldable pub kept : (Dirent → Bool) → List Dirent → List Dirent
kept keep [] = []
kept keep (e ∷ es) = if keep e then e ∷ kept keep es else kept keep es

kept-ext :
    (f g : Dirent → Bool) → ((e : Dirent) → f e ≡ g e) → (es : List Dirent) → kept f es ≡ kept g es
unfolding kept
kept-ext f g h [] = refl
kept-ext f g h (e ∷ es) = rw (h e, kept-ext f g h es) refl

unfoldable pub same_bytes : List ℕ → List ℕ → Bool
same_bytes [] [] = true
same_bytes [] (y ∷ ys) = false
same_bytes (x ∷ xs) [] = false
same_bytes (x ∷ xs) (y ∷ ys) = (x == y) && same_bytes xs ys

-- What a directory handle is to list: files whose names begin with the prefix.
unfoldable pub wanted : Core → List ℕ → Dirent → Bool
wanted C prefix e = (e.type == C.type_file) && same_bytes prefix (take (length prefix) e.name)

starts_with-take :
    (prefix name : List ℕ) → starts_with prefix name ≡ same_bytes prefix (take (length prefix) name)
unfolding starts_with same_bytes
starts_with-take [] name = refl
starts_with-take (c ∷ cs) [] = refl
starts_with-take (c ∷ cs) (x ∷ xs) = ap (λ b. (c == x) && b) (starts_with-take cs xs)

listed-wanted : (C : Core) (prefix : List ℕ) (e : Dirent) → listed C prefix e ≡ wanted C prefix e
unfolding listed wanted is_file
listed-wanted C prefix e = ap (λ b. (e.type == C.type_file) && b) (starts_with-take prefix e.name)

pub total_size : List Dirent → ℕ
total_size [] = 0
total_size (e ∷ es) = e.size + total_size es

-- A directory as a stream: `left` is what SPIFFS_readdir has still to hand over.
pub record IsStream (C : Core) (left : C.Dir × Shim C → List Dirent) : Type 0 where
  pub ends : (ds : C.Dir × Shim C) → left ds ≡ [] → (readdir_call C ds).0 ≡ none
  pub gives :
      (ds : C.Dir × Shim C) (e : Dirent) (es : List Dirent)
      → left ds ≡ e ∷ es
      → ((readdir_call C ds).0 ≡ some e) × (left (readdir_call C ds).1 ≡ es)

List-cases :
    (es : List Dirent) → (es ≡ []) ⊎ ((e : Dirent) × (rest : List Dirent) × (es ≡ e ∷ rest))
List-cases [] = inl refl
List-cases (e ∷ rest) = inr (e, rest, refl)

same_totals :
    {f f' b b' : ℕ}
    → f ≡ f'
    → b ≡ b'
    → ◌≡◌ {A = Option Totals}
        (some (record { files = f; bytes = b }))
        (some (record { files = f'; bytes = b' }))
same_totals p q = rw (p, q) refl

module _ (C : Core) (left : C.Dir × Shim C → List Dirent) (R : IsStream C left) where
  -- What the next entry that a loop keeps can be.
  pub record Next (keep : Dirent → Bool) (all : List Dirent)
      (r : Option (Option Dirent) × (C.Dir × Shim C)) : Type 0 where
    pub at_end : all ≡ [] → r.0 ≡ some none
    pub hit :
        (e : Dirent) (rest : List Dirent)
        → all ≡ e ∷ rest
        → (r.0 ≡ some (some e)) × (kept keep (left r.1) ≡ rest)

  next_kept-Next :
      (keep : Dirent → Bool) (fuel : ℕ) (ds : C.Dir × Shim C) (all : List Dirent)
      → left ds ≡ all
      → length all < fuel
      → Next keep (kept keep all) (next_kept C keep fuel ds)
  unfolding next_kept kept
  next_kept-Next keep zero ds all a l = absurd (omega arith)
  next_kept-Next keep (suc fuel) ds [] a l =
      rw (R.ends ds a, next_kept)
        (record { at_end = λ k. refl; hit = λ e rest k. absurd (ground arith) })
  next_kept-Next keep (suc fuel) ds (e ∷ es) a l =
      let g = R.gives ds e es a in
      elim (Bool-cases (keep e)) [
        | inl k ↦
            rw (g.0, k, next_kept, kept)
              (record {
                at_end = λ z. absurd (ground arith);
                hit = λ e' rest z.
                    let same : (e ≡ e') × (kept keep es ≡ rest) = ground arith in
                    (ap (λ x. some (some x)) same.0, ap (kept keep) g.1 ∙ same.1);
              })
        | inr k ↦
            rw (g.0, k, next_kept, kept)
              (next_kept-Next keep fuel (readdir_call C ds).1 es g.1 (omega arith))
      ]

  commit_loop_sums :
      (fuel : ℕ) (t : Totals) (ds : C.Dir × Shim C) (all : List Dirent)
      → left ds ≡ all
      → length all < fuel
      → t.files < 2 ^ 32
      → t.bytes < 2 ^ 32
      → (commit_loop C fuel t ds).0
        ≡ some (record {
          files = (t.files + length (kept (is_file C) all)) % 2 ^ 32;
          bytes = (t.bytes + total_size (kept (is_file C) all)) % 2 ^ 32;
        })
  unfolding commit_loop kept total_size
  commit_loop_sums zero t ds all a l f b = absurd (omega arith)
  commit_loop_sums (suc fuel) t ds [] a l f b =
      let f' : t.files ≡ (t.files + 0) % 2 ^ 32 = omega arith in
      let b' : t.bytes ≡ (t.bytes + 0) % 2 ^ 32 = omega arith in
      rw (R.ends ds a, commit_loop) (rw (← f', ← b') refl)
  commit_loop_sums (suc fuel) t ds (e ∷ es) a l f b =
      let g = R.gives ds e es a in
      elim (Bool-cases (is_file C e)) [
        | inl k ↦
            let next : Totals = record {
              files = (t.files + 1) % 2 ^ 32;
              bytes = (t.bytes + e.size) % 2 ^ 32;
            } in
            let ih =
              commit_loop_sums fuel next (readdir_call C ds).1 es g.1 (omega arith) (omega arith)
                (omega arith) in
            rw (g.0, k, commit_loop, kept, total_size)
              (ih ∙ same_totals (omega arith) (omega arith))
        | inr k ↦
            rw (g.0, k, commit_loop, kept)
              (commit_loop_sums fuel t (readdir_call C ds).1 es g.1 (omega arith) f b)
      ]

  quiet_walk_totals :
      (fuel : ℕ) (s : Shim C)
      → let (opened, d, s₁) = opendir_call C C.blank_dir (record s { quiet = true }) in
        opened ≡ true
        → length (left (d, s₁)) < fuel
        → ((quiet_walk C fuel s).0
            ≡ some (record {
              files = length (kept (is_file C) (left (d, s₁))) % 2 ^ 32;
              bytes = total_size (kept (is_file C) (left (d, s₁))) % 2 ^ 32;
            }))
          × ((quiet_walk C fuel s).1.quiet ≡ false)
  unfolding quiet_walk
  quiet_walk_totals fuel s o l =
      let (opened, d, s₁) = opendir_call C C.blank_dir (record s { quiet = true }) in
      let none_yet : Totals = record { files = 0; bytes = 0 } in
      let r =
        commit_loop_sums fuel none_yet (d, s₁) (left (d, s₁)) refl l (omega arith) (omega arith) in
      rw (o, quiet_walk) (r ∙ same_totals (omega arith) (omega arith), refl)

  walk_mounted :
      (fuel : ℕ) (s : Shim C) → s.mounted ≡ true → committed_walk C fuel s ≡ quiet_walk C fuel s
  unfolding committed_walk
  walk_mounted fuel s m = ground arith

  -- Where the directory of a mounted shim opens and hands over its entries, and there is fuel for one
  -- round more than it has entries, the two committed totals are the number of entries that are files
  -- and the sum of their sizes, modulo 2^32; the walk ends with quiet reads switched off.
  pub committed_walk-kept :
      (fuel : ℕ) (s : Shim C)
      → let (opened, d, s₁) = opendir_call C C.blank_dir (record s { quiet = true }) in
        let files = kept (is_file C) (left (d, s₁)) in
        s.mounted ≡ true
        → opened ≡ true
        → length (left (d, s₁)) < fuel
        → ((ff_committed_files C fuel s).0 ≡ some (length files % 2 ^ 32))
          × ((ff_committed_bytes C fuel s).0 ≡ some (total_size files % 2 ^ 32))
          × ((ff_committed_files C fuel s).1.quiet ≡ false)
  unfolding ff_committed_files ff_committed_bytes
  committed_walk-kept fuel s m o l =
      let r = quiet_walk_totals fuel s o l in
      let w = walk_mounted fuel s m in
      rw (w, ff_committed_files, ff_committed_bytes)
        (rw (r.0, ff_committed_files, ff_committed_bytes) (refl, refl, r.1))

  -- What one ff_dir_read may find in the entries that are left and kept by the prefix of directory `h`.
  pub record Found (room : ℕ) (h : ℤ) (keep : Dirent → Bool) (all : List Dirent) (out : List ℕ)
      (r : Option ℤ × List ℕ × Shim C) : Type 0 where
    pub at_end : all ≡ [] → (r.1 ≡ out) × ((r.0 ≡ some (negsuc 0)) ⊎ (r.0 ≡ some (negsuc 1)))
    pub hit :
        (e : Dirent) (rest : List Dirent)
        → all ≡ e ∷ rest
        → (r.0 ≡ some (int_of_u32 e.size)) × (r.1 ≡ copy_name room e.name out)

  -- One read of an open directory hands over the first remaining entry whose type is a file and whose name
  -- begins with the bytes of the handle's prefix; where none remains, the answer is -1 or -2 and the buffer
  -- is as it was. Fuel for one round more than there are entries is enough.
  pub ff_dir_read-kept :
      (fuel : ℕ) (h : ℤ) (room : ℕ) (out : List ℕ) (s : Shim C)
      → let i = pos_part h in
        let keep = wanted C (get_or s.dir_prefix i []) in
        let entries = left (get_or s.dirs i C.blank_dir, s) in
        bad_dir C h s ≡ false
        → length entries < fuel
        → Found room h keep (kept keep entries) out (ff_dir_read C fuel h room out s)
  unfolding ff_dir_read
  ff_dir_read-kept fuel h room out s e l =
      let i = pos_part h in
      let keep = listed C (get_or s.dir_prefix i []) in
      let ds : C.Dir × Shim C = (get_or s.dirs i C.blank_dir, s) in
      let n = next_kept-Next keep fuel ds (left ds) refl l in
      let same =
        kept-ext keep (wanted C (get_or s.dir_prefix i [])) (listed-wanted C _) (left ds) in
      rw (e, ff_dir_read)
        (record {
          at_end = λ k. rw (n.at_end (same ∙ k), ff_dir_read) (refl, ground arith);
          hit = λ x rest k. rw ((n.hit x rest (same ∙ k)).0, ff_dir_read) (refl, refl);
        })
