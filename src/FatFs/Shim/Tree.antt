-- ===== src/FatFs/Shim/Tree.antt =====
-- The directory loops of bindings/fatfs/shim.c against a tree of directories that FatFs shows.
use flash_vis.Common.{
  ℕ, zero, suc, ◌+◌, ◌%◌, ◌^◌, ◌<◌, max, Bool, true, false, List, [], ◌∷◌, Option, some, ◌≡◌, refl,
  arith, ap, ◌∙◌,
}
use flash_vis.FatFs.{Wl}
use flash_vis.FatFs.Shim.{Core, Shim, FilInfo}
use flash_vis.FatFs.Shim.Dirs.{
  Totals, Visit, at_end, directory, regular, root, no_name, count_file, opendir_call, readdir_call,
  closedir_call, is_dir, visit_of, child_path, walk_loop, walk, set_quiet, committed,
  ff_committed_files, ff_committed_bytes,
}

module _ (W : Wl) (C : Core) where
  -- FatFs over an unchanging volume: `listing` has the entries of the directory at a path, `left` what an
  -- open directory has still to hand over, and `Good` the states in which all is well.
  pub record IsTree (Good : Shim W C → Type 0) (listing : List ℕ → Option (List FilInfo))
      (left : C.Dir → List FilInfo) : Type 0 where
    pub opens :
        (d : C.Dir) (path : List ℕ) (es : List FilInfo) (s : Shim W C)
        → Good s
        → listing path ≡ some es
        → let (fr, d', s') = opendir_call W C d path s in (fr ≡ 0) × (left d' ≡ es) × Good s'
    pub ends :
        (d : C.Dir) (s : Shim W C)
        → Good s
        → left d ≡ []
        → let (fr, fno, ds') = readdir_call W C (d, s) in
          (fr ≡ 0) × (no_name fno ≡ true) × Good ds'.1
    pub gives :
        (d : C.Dir) (e : FilInfo) (es : List FilInfo) (s : Shim W C)
        → Good s
        → left d ≡ e ∷ es
        → let (fr, fno, ds') = readdir_call W C (d, s) in
          (fr ≡ 0) × (fno ≡ e) × (no_name e ≡ false) × (left ds'.0 ≡ es) × Good ds'.1
    pub closes : (d : C.Dir) (s : Shim W C) → Good s → Good (closedir_call W C (d, s)).1
    pub quiets : (q : Bool) (s : Shim W C) → Good s → Good (set_quiet W C q s)

  -- Below `path`, whose remaining entries are given, lie so many files of so many bytes together.
  pub data Contains (listing : List ℕ → Option (List FilInfo))
      : List ℕ → List FilInfo → ℕ → ℕ → Type 0 where
    nothing : {path : List ℕ} → Contains listing path [] 0 0
    a_file :
        {path : List ℕ} {e : FilInfo} {es : List FilInfo} {f b : ℕ}
        → is_dir W C e ≡ false
        → Contains listing path es f b
        → Contains listing path (e ∷ es) (suc f) (e.fsize + b)
    a_dir :
        {path : List ℕ} {e : FilInfo} {es sub : List FilInfo} {f b f' b' : ℕ}
        → is_dir W C e ≡ true
        → listing (child_path W C path e.fname) ≡ some sub
        → Contains listing (child_path W C path e.fname) sub f' b'
        → Contains listing path es f b
        → Contains listing path (e ∷ es) (f' + f) (b' + b)

  -- The rounds that the walk takes along its longest line of nested and successive entries.
  unfoldable pub rounds :
      {listing : List ℕ → Option (List FilInfo)} {path : List ℕ} {es : List FilInfo} {f b : ℕ}
      → Contains listing path es f b
      → ℕ
  rounds nothing = 0
  rounds (a_file k c) = suc (rounds c)
  rounds (a_dir k l c' c) = suc (max (rounds c') (rounds c))

  pub visit_at_end :
      (fr : ℕ) (fno : FilInfo) → fr ≡ 0 → no_name fno ≡ true → visit_of W C fr fno ≡ at_end
  unfolding visit_of
  visit_at_end fr fno a n = ground (arith)

  pub visit_entry :
      (fr : ℕ) (fno e : FilInfo) (v : Visit)
      → fr ≡ 0
      → fno ≡ e
      → visit_of W C 0 e ≡ v
      → visit_of W C fr fno ≡ v
  visit_entry fr fno e v a n k = rw (a, n) k

  pub visit_regular :
      (e : FilInfo) → no_name e ≡ false → is_dir W C e ≡ false → visit_of W C 0 e ≡ regular
  unfolding visit_of
  visit_regular e n k = rw (n, k) refl

  pub visit_directory :
      (e : FilInfo) → no_name e ≡ false → is_dir W C e ≡ true → visit_of W C 0 e ≡ directory
  unfolding visit_of
  visit_directory e n k = rw (n, k) refl

  abbrev sums : Totals → ℕ → ℕ → Totals
  sums t f b = record { files = (t.files + f) % 2 ^ 32; bytes = (t.bytes + b) % 2 ^ 32 }

  same_totals :
      {f f' b b' : ℕ}
      → f ≡ f'
      → b ≡ b'
      → ◌≡◌ {A = Totals} (record { files = f; bytes = b }) (record { files = f'; bytes = b' })
  same_totals p q = rw (p, q) refl

  -- One round of the walk, by what it meets.
  module _ (fuel : ℕ) (path : List ℕ) (t : Totals) (ds : C.Dir × Shim W C) where
    abbrev Met : Visit → Type 0
    Met v = visit_of W C (readdir_call W C ds).0 (readdir_call W C ds).1 ≡ v

    at_end_step :
        Met at_end
        → walk_loop W C (suc fuel) path t ds
          ≡ (some t, (closedir_call W C (readdir_call W C ds).2).1)
    unfolding walk_loop
    at_end_step k = rw (k, walk_loop) refl

    regular_step :
        Met regular
        → walk_loop W C (suc fuel) path t ds
          ≡ walk_loop W C fuel path (count_file (readdir_call W C ds).1 t) (readdir_call W C ds).2
    unfolding walk_loop
    regular_step k = rw (k, walk_loop) refl

    directory_step :
        Met directory
        → let (fr, fno, ds') = readdir_call W C ds in
          let child = child_path W C path fno.fname in
          let (orc, d, s₁) = opendir_call W C C.blank_dir child ds'.1 in
          let below = walk_loop W C fuel child t (d, s₁) in
          orc ≡ 0
          → (t' : Totals) → below.0 ≡ some t'
          → walk_loop W C (suc fuel) path t ds ≡ walk_loop W C fuel path t' (ds'.0, below.1)
    unfolding walk_loop
    directory_step k o t' b = rw (k, walk_loop) (rw (o, walk_loop) (rw (b, walk_loop) refl))

  mounted_walk :
      (fuel : ℕ) (s : Shim W C)
      → s.mounted ≡ true
      → let (t, s') = walk W C fuel root (record { files = 0; bytes = 0 }) (set_quiet W C true s) in
        committed W C fuel s ≡ (t, set_quiet W C false s')
  unfolding committed
  mounted_walk fuel s m = ground arith

  module _ (Good : Shim W C → Type 0) (listing : List ℕ → Option (List FilInfo))
      (left : C.Dir → List FilInfo) (T : IsTree Good listing left) where
    abbrev Walked : Totals → Option Totals × Shim W C → Type 0
    Walked t r = (r.0 ≡ some t) × Good r.1

    -- The walk through a subdirectory, from the walk through its entries.
    opened :
        (path : List ℕ) (f b fuel : ℕ) (t : Totals) (e : FilInfo) (sub : List FilInfo)
        (fno : FilInfo) (s : Shim W C)
        → listing (child_path W C path e.fname) ≡ some sub
        → Good s
        → fno ≡ e
        → ((d' : C.Dir) (s₁ : Shim W C)
            → Good s₁
            → left d' ≡ sub
            → Walked (sums t f b) (walk_loop W C fuel (child_path W C path e.fname) t (d', s₁)))
        → let child = child_path W C path fno.fname in
          let (orc, d', s₁) = opendir_call W C C.blank_dir child s in
          ((orc ≡ 0) × (Walked (sums t f b) (walk_loop W C fuel child t (d', s₁))))
    opened path f b fuel t e sub fno s m g same walked =
        let o = T.opens C.blank_dir (child_path W C path e.fname) sub s g m in
        rw same (o.0, walked _ _ o.2 o.1)

    walk_loop_sums :
        {path : List ℕ} {es : List FilInfo} {f b : ℕ} (c : Contains listing path es f b) (fuel : ℕ)
        (t : Totals) (d : C.Dir) (s : Shim W C)
        → Good s
        → left d ≡ es
        → rounds c < fuel
        → t.files < 2 ^ 32
        → t.bytes < 2 ^ 32
        → Walked (sums t f b) (walk_loop W C fuel path t (d, s))
    unfolding rounds count_file
    walk_loop_sums c zero t d s good l h tf tb = absurd (omega arith)
    walk_loop_sums (nothing {path}) (suc fuel) t d s good l h tf tb =
        let r = T.ends d s good l in
        let ds' = (readdir_call W C (d, s)).2 in
        rw (at_end_step fuel path t (d, s) (visit_at_end _ _ r.0 r.1)) (
          ap some (same_totals {f = t.files} {b = t.bytes} (omega arith) (omega arith)),
          T.closes ds'.0 ds'.1 r.2,
        )
    walk_loop_sums (a_file {path} {e} {es} {f} {b} k c) (suc fuel) t d s good l h tf tb =
        let r = T.gives d e es s good l in
        let ds' = (readdir_call W C (d, s)).2 in
        let ih =
          walk_loop_sums {path = path} {es = es} {f = f} {b = b} c fuel (count_file e t) ds'.0 ds'.1
            r.4 r.3 (omega arith) (omega arith) (omega arith) in
        rw
          (
            regular_step fuel path t (d, s)
                (visit_entry _ _ e regular r.0 r.1 (visit_regular e r.2 k)),
            r.1,
          )
          (ih.0 ∙ ap some (same_totals (omega arith) (omega arith)), ih.1)
    walk_loop_sums (a_dir {path} {e} {es} {sub} {f} {b} {f'} {b'} k m c' c) (suc fuel) t d s good l
          h tf tb =
        let r = T.gives d e es s good l in
        let (fr, fno, ds') = readdir_call W C (d, s) in
        let child = child_path W C path fno.fname in
        let below = opened path f' b' fuel t e sub fno ds'.1 m r.4 r.1 λ d' s₁ g o.
          walk_loop_sums {path = child_path W C path e.fname} {es = sub} {f = f'} {b = b'} c' fuel t
            d' s₁ g o (omega arith) tf tb in
        let t' = sums t f' b' in
        let (orc, d', s₁) = opendir_call W C C.blank_dir child ds'.1 in
        let after = (walk_loop W C fuel child t (d', s₁)).1 in
        let ih =
          walk_loop_sums {path = path} {es = es} {f = f} {b = b} c fuel t' ds'.0 after below.1.1 r.3
            (omega arith) (omega arith) (omega arith) in
        rw
          (directory_step fuel path t (d, s)
            (visit_entry _ _ e directory r.0 r.1 (visit_directory e r.2 k)) below.0 t' below.1.0)
          (ih.0 ∙ ap some (same_totals (omega arith) (omega arith)), ih.1)

    walked_root :
        (entries : List FilInfo) (f b fuel : ℕ) (t : Totals) (s : Shim W C)
        → (c : Contains listing root entries f b) → listing root ≡ some entries
        → rounds c < fuel
        → t.files < 2 ^ 32
        → t.bytes < 2 ^ 32
        → Good s
        → Walked (sums t f b) (walk W C fuel root t s)
    unfolding walk
    walked_root entries f b fuel t s c l h tf tb good =
        let o = T.opens C.blank_dir root entries s good l in
        rw (o.0, walk) (walk_loop_sums c fuel t _ _ o.2 o.1 h tf tb)

    committed_mounted :
        (entries : List FilInfo) (f b fuel : ℕ) (s : Shim W C)
        → (c : Contains listing root entries f b) → listing root ≡ some entries
        → rounds c < fuel
        → s.mounted ≡ true
        → Good s
        → Walked (record { files = f % 2 ^ 32; bytes = b % 2 ^ 32 }) (committed W C fuel s)
    committed_mounted entries f b fuel s c l h m good =
        let quiet = set_quiet W C true s in
        let start : Totals = record { files = 0; bytes = 0 } in
        let w =
          walked_root entries f b fuel start quiet c l h (omega arith) (omega arith)
            (T.quiets true s good) in
        let after = (walk W C fuel root start quiet).1 in
        rw (mounted_walk fuel s m) (
          w.0
              ∙ ap some (
                  same_totals (ap (λ k. k % 2 ^ 32) {x = 0 + f} {y = f} (omega arith))
                    (ap (λ k. k % 2 ^ 32) {x = 0 + b} {y = b} (omega arith))),
          T.quiets false after w.1,
        )

    -- With fuel for one round more than the tree's longest line takes, the two committed totals of a
    -- mounted volume are the number of files in the whole tree of directories and the sum of their sizes,
    -- modulo 2^32.
    pub committed-Contains :
        (entries : List FilInfo) (f b fuel : ℕ) (s : Shim W C)
        → (c : Contains listing root entries f b) → listing root ≡ some entries
        → rounds c < fuel
        → s.mounted ≡ true
        → Good s
        → ((ff_committed_files W C fuel s).0 ≡ some (f % 2 ^ 32))
          × ((ff_committed_bytes W C fuel s).0 ≡ some (b % 2 ^ 32))
          × Good (committed W C fuel s).1
    unfolding ff_committed_files ff_committed_bytes
    committed-Contains entries f b fuel s c l h m good =
        let w = committed_mounted entries f b fuel s c l h m good in
        (rw (w.0, ff_committed_files) refl, rw (w.0, ff_committed_bytes) refl, w.1)
