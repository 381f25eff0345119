-- ===== src/LittleFs/Inspect/Tests.antt =====
-- Runs of bindings/littlefs/lfs_inspect.c over lists of metadata pairs of two kinds: one that runs in a
-- cycle of two pairs, and one that ends behind the first.
use flash_vis.Common.{
  ℕ, zero, suc, ◌+◌, ◌/◌, ◌%◌, ◌&&◌, [], replicate, get_or, some, pos, negsuc, ltb, ◌==◌,
  if◌then◌else◌, ◌≡◌, refl, arith, ap, ◌<◌,
}
use flash_vis.Abi.Backend.{ret, run}
use flash_vis.LittleFs.{call}
use flash_vis.LittleFs.Tests.{toy, shim}
use flash_vis.LittleFs.Inspect.{
  Pair, Internals, first_tortoise, fetch_call, classify_ids, classify_pairs, classify_live,
  classify_open, ff_live_map, advance, refuses,
}
use flash_vis.LittleFs.Inspect.Walk.{Ended, Follows, classify_pairs-Ended}
use flash_vis.LittleFs.Inspect.Scan.{scanned}
use flash_vis.LittleFs.Inspect.Classes.{walked, ff_live_map-scanned}

-- (0, 1), (2, 3), (0, 1) and so on.
abbrev turn : ℕ → Pair
turn n = if n == 0 then (0, 1) else (2, 3)

abbrev tails : ℕ → Pair
tails k = turn (k % 2)

abbrev cyclic : Internals toy
cyclic = record {
  Mdir = Pair;
  Open = ℕ;
  block_null = 99;
  err_corrupt = negsuc 83;
  type_struct = 0;
  type_ctzstruct = 2;
  type_dirstruct = 0;
  f_dirty = 1;
  f_writing = 2;
  f_inline = 4;
  pair_isnull = λ p. p.0 == 99;
  pair_issync = λ p q. p.0 == q.0 && p.1 == q.1;
  mdir_of_tail = λ p. p;
  tail = λ d. d;
  count = λ d. 0;
  tag_type3 = λ tag. tag;
  ctz_fromle32 = λ p. p;
  dir_fetch = λ l d p. ret (pos 0, (if p.0 == 0 then (2, 3) else (0, 1)), l);
  dir_get = λ l d type id. ret (negsuc 1, (0, 0), l);
  ctz_traverse = λ l f head size. ret (pos 0, [], l);
  mlist = λ l. [];
  open_type = λ f. 1;
  open_flags = λ f. 0;
  open_ctz = λ f. (0, 0);
  open_block = λ f. 0;
  open_pos = λ f. 0;
}

abbrev ending : Internals toy
ending = record {
  Mdir = Pair;
  Open = ℕ;
  block_null = 99;
  err_corrupt = negsuc 83;
  type_struct = 0;
  type_ctzstruct = 2;
  type_dirstruct = 0;
  f_dirty = 1;
  f_writing = 2;
  f_inline = 4;
  pair_isnull = λ p. p.0 == 99;
  pair_issync = λ p q. p.0 == q.0 && p.1 == q.1;
  mdir_of_tail = λ p. p;
  tail = λ d. d;
  count = λ d. 0;
  tag_type3 = λ tag. tag;
  ctz_fromle32 = λ p. p;
  dir_fetch = λ l d p. ret (pos 0, (99, 99), l);
  dir_get = λ l d type id. ret (negsuc 1, (0, 0), l);
  ctz_traverse = λ l f head size. ret (pos 0, [], l);
  mlist = λ l. [];
  open_type = λ f. 1;
  open_flags = λ f. 0;
  open_ctz = λ f. (0, 0);
  open_block = λ f. 0;
  open_pos = λ f. 0;
}

after_turn :
    (n m : ℕ) → n < 2 → m ≡ (n + 1) % 2 → (if (turn n).0 == 0 then (2, 3) else (0, 1)) ≡ turn m
after_turn zero m h e = rw e refl
after_turn (suc zero) m h e = rw e refl
after_turn (suc (suc n)) m h e = absurd (omega arith)

cyclic-Follows : Follows toy cyclic tails
unfolding fetch_call call run
cyclic-Follows k dir s here ok =
    rw here (after_turn (k % 2) (suc k % 2) (omega arith) (omega arith))

classify_pairs-Ended_example :
    Ended toy cyclic tails
      (classify_pairs toy cyclic 7 (first_tortoise toy cyclic) (0, 1) [] shim).0
classify_pairs-Ended_example =
    classify_pairs-Ended toy cyclic tails cyclic-Follows 0 2 2 (omega arith) (omega arith)
      (omega arith) (omega arith) (λ k h. ap turn (omega arith)) (λ p. ground arith) (λ e. cc) 7
      (0, 1) [] shim (omega arith) refl

-- The cycle is found in the fourth round.
found_in_four :
    (classify_pairs toy cyclic 4 (first_tortoise toy cyclic) (0, 1) [] shim).0 ≡ some (negsuc 83)
unfolding classify_pairs classify_ids fetch_call call run advance
found_in_four = refl

-- The four pages of two blocks: the first block is the metadata pair's.
ff_live_map-scanned_example :
    let (rc, map, s') = ff_live_map toy ending 2 (replicate 4096 0) (replicate 4 9) 2 shim in
    (rc ≡ some (pos 0))
    × ((p : ℕ)
        → p < 4
        → get_or map p 0 ≡ (
            if ltb p 4
            then scanned toy ending
                (get_or (walked toy ending 2 shim).1 (p / 2) 0)
                (p / 2)
                (walked toy ending 2 shim).2
            else get_or (replicate 4 9) p 0))
unfolding classify_live refuses classify_pairs fetch_call call run classify_ids classify_open
ff_live_map-scanned_example =
    ff_live_map-scanned toy ending 2 (replicate 4096 0) (replicate 4 9) 2 shim refl refl refl
      (omega arith) refl
