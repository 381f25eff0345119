-- ===== src/LittleFs/Inspect/Walk.antt =====
-- The walk of bindings/littlefs/lfs_inspect.c along the metadata pairs ends, also where they form a cycle.
use native.Mathlib.Decide.{ℕ_discrete, dec_lt}
use flash_vis.Common.{
  ℕ, zero, suc, ◌+◌, ◌-◌, ◌*◌, ◌%◌, ◌^◌, ◌≤◌, ◌<◌, true, false, List, Option, some, ℤ, pos, eqb_ℤ,
  eqb_ℤ_iff, ◌==◌, ◌≡◌, ◌≢◌, refl, arith, ap, ◌∙◌, sym, inl, inr, Bool-cases,
}
use flash_vis.LittleFs.{Core, Shim}
use flash_vis.LittleFs.Inspect.{
  Pair, Internals, Tortoise, advance, mark_pair, fetch_call, classify_ids, classify_pairs,
  first_tortoise,
}

not_zero : (e : ℤ) → eqb_ℤ e (pos 0) ≡ false → e ≢ pos 0
not_zero e h z = absurd (ground (arith, (eqb_ℤ_iff e (pos 0)).1 z))

module _ (C : Core) (I : Internals C) where
  -- What one round of the walk does, with the fuel that is left for the rest.
  round_cases :
      (fuel : ℕ) (t : Tortoise) (dir : I.Mdir) (bc : List ℕ) (s : Shim C) (P : Option ℤ → Type 0)
      → let at = I.tail dir in
        let (err, dir', s₁) = fetch_call C I dir at s in
        let bc' = mark_pair s.sector_count at bc in
        let (err', bc'', s₂) = classify_ids C I (I.count dir') 0 dir' bc' s₁ in
        (I.pair_isnull at ≡ true → P (some (pos 0)))
        → (I.pair_issync at t.at ≡ true → P (some I.err_corrupt))
        → ((e : ℤ) → e ≢ pos 0 → P (some e))
        → (I.pair_issync at t.at ≡ false
            → err ≡ pos 0
            → P (classify_pairs C I fuel (advance at t) dir' bc'' s₂).0)
        → P (classify_pairs C I (suc fuel) t dir bc s).0
  unfolding classify_pairs
  round_cases fuel t dir bc s P on_null on_sync on_err on_rest =
      let at = I.tail dir in
      let (err, dir', s₁) = fetch_call C I dir at s in
      let bc' = mark_pair s.sector_count at bc in
      let (err', bc'', s₂) = classify_ids C I (I.count dir') 0 dir' bc' s₁ in
      elim (Bool-cases (I.pair_isnull at)) [
        | inl e ↦ rw e (on_null e)
        | inr e ↦ elim (Bool-cases (I.pair_issync at t.at)) [
          | inl y ↦ rw (e, y) (on_sync y)
          | inr y ↦ elim (Bool-cases (eqb_ℤ err (pos 0))) [
            | inr z ↦ rw (e, y, z) (on_err err (not_zero err z))
            | inl z ↦ elim (Bool-cases (eqb_ℤ err' (pos 0))) [
              | inr z' ↦ rw (e, y, z, z') (on_err err' (not_zero err' z'))
              | inl z' ↦ rw (e, y, z, z') (on_rest y ((eqb_ℤ_iff err (pos 0)).0 z))
            ]
          ]
        ]
      ]

  -- The tails are `tails 0`, `tails 1` and so on: a pair that is fetched with no error has the next tail,
  -- whatever was done before.
  abbrev pub Follows : (ℕ → Pair) → Type 0
  Follows tails =
      (k : ℕ) (dir : I.Mdir) (s : Shim C)
      → I.tail dir ≡ tails k
      → (fetch_call C I dir (I.tail dir) s).0 ≡ pos 0
      → I.tail (fetch_call C I dir (I.tail dir) s).1 ≡ tails (suc k)

  -- How the walk has ended: with a result, which is 0 only at the end of the list.
  abbrev pub Ended : (ℕ → Pair) → Option ℤ → Type 0
  Ended tails r = (e : ℤ) × (r ≡ some e) × (e ≡ pos 0 → (k : ℕ) × (I.pair_isnull (tails k) ≡ true))

  module _ (tails : ℕ → Pair) (follows : Follows tails) (start period bound : ℕ)
      (period_pos : 0 < period) (period_le : period ≤ bound) (start_le : start + 2 ≤ bound)
      (bound_le : bound ≤ 2 ^ 31) (cycle : (k : ℕ) → start ≤ k → tails (k + period) ≡ tails k)
      (synced : (p : Pair) → I.pair_issync p p ≡ true) (corrupt : I.err_corrupt ≢ pos 0) where
    -- At the top of round `t.period - 2 + t.i`: the tortoise waits where its phase began, and a phase that
    -- is long enough has not gone all round the cycle yet.
    record Phase (t : Tortoise) (k : ℕ) : Type 0 where
      began : k + 2 ≡ t.period + t.i
      first : 0 < t.i
      within : t.i ≤ t.period
      short : t.period < 2 * bound
      two : 2 ≤ t.period
      waits : t.at ≡ tails (t.period - 2)
      not_round : bound ≤ t.period → t.i ≤ period

    -- All round the cycle the tails are in step again.
    not_again :
        (t : Tortoise) (k : ℕ) (at : Pair)
        → Phase t k
        → at ≡ tails k
        → I.pair_issync at t.at ≡ false
        → bound ≤ t.period
        → t.i ≢ period
    not_again t k at p here apart large e =
        let back : k ≡ t.period - 2 + period = omega (arith, p.began, p.two, e) in
        let same : at ≡ t.at =
          here ∙ ap tails back ∙ cycle (t.period - 2) (omega arith) ∙ sym p.waits in
        absurd (cc (synced t.at, apart, ap (λ q. I.pair_issync q t.at) same))

    small-Phase : (t : Tortoise) (k : ℕ) → Phase t k → k < 3 * bound
    small-Phase t k p = elim (dec_lt t.period bound) [
      | yes l ↦ omega (arith, p.began, p.within)
      | no g ↦ omega (arith, p.began, p.short, p.not_round (omega (arith, g)))
    ]

    begins :
        (t : Tortoise) (k : ℕ) (at : Pair)
        → Phase t k
        → at ≡ tails k
        → t.period < bound
        → t.i ≡ t.period
        → Phase (record { at = at; i = 1; period = t.period * 2 % 2 ^ 32 }) (suc k)
    begins t k at p here l e =
        let twice : t.period * 2 % 2 ^ 32 ≡ t.period * 2 = omega arith in
        rw twice (record {
          began = omega (arith, p.began);
          first = omega arith;
          within = omega (arith, p.two);
          short = omega arith;
          two = omega (arith, p.two);
          waits = here ∙ ap tails (omega (arith, p.began));
          not_round = λ g. omega arith;
        })

    goes_on :
        (t : Tortoise) (k : ℕ)
        → Phase t k
        → t.i ≢ t.period
        → (bound ≤ t.period → t.i ≢ period)
        → Phase (record t { i = (t.i + 1) % 2 ^ 32 }) (suc k)
    goes_on t k p ne again =
        let next : (t.i + 1) % 2 ^ 32 ≡ t.i + 1 = omega (arith, p.short, p.within) in
        rw next (record {
          began = omega (arith, p.began);
          first = omega arith;
          within = omega (arith, p.within, ne);
          short = p.short;
          two = p.two;
          waits = p.waits;
          not_round = λ g. omega (arith, p.not_round g, again g);
        })

    -- A phase that ends is too short to go round the cycle.
    started :
        (t : Tortoise) (k : ℕ) (at : Pair)
        → Phase t k
        → at ≡ tails k
        → I.pair_issync at t.at ≡ false
        → t.i ≡ t.period
        → t.period < bound
    started t k at p here apart e = elim (dec_lt t.period bound) [
      | yes l ↦ l
      | no g ↦
          let large : bound ≤ t.period = omega (arith, g) in
          absurd (omega (arith, p.not_round large, not_again t k at p here apart large, e))
    ]

    -- Where the tails are not in step, the next round is a round of a phase again.
    advance-Phase :
        (t : Tortoise) (k : ℕ) (at : Pair)
        → Phase t k
        → at ≡ tails k
        → I.pair_issync at t.at ≡ false
        → Phase (advance at t) (suc k)
    unfolding advance
    advance-Phase t k at p here apart =
        let again = not_again t k at p here apart in
        elim (ℕ_discrete t.i t.period) [
          | yes e ↦
              let same : (t.i == t.period) ≡ true = ground arith in
              rw same (begins t k at p here (started t k at p here apart e) e)
          | no ne ↦
              let other : (t.i == t.period) ≡ false = ground arith in
              rw other (goes_on t k p ne again)
        ]

    first-Phase : (at : Pair) → at ≡ tails 0 → Phase (advance at (first_tortoise C I)) 1
    unfolding advance
    first-Phase at e = record {
      began = refl;
      first = omega arith;
      within = omega arith;
      short = omega arith;
      two = omega arith;
      waits = e;
      not_round = λ g. omega arith;
    }

    walk_ends :
        (fuel k : ℕ) (t : Tortoise) (dir : I.Mdir) (bc : List ℕ) (s : Shim C)
        → 3 * bound < fuel + k
        → I.tail dir ≡ tails k
        → Phase t k
        → Ended tails (classify_pairs C I fuel t dir bc s).0
    walk_ends zero k t dir bc s h e p = absurd (omega (arith, small-Phase t k p))
    walk_ends (suc fuel) k t dir bc s h e p =
        round_cases fuel t dir bc s (Ended tails) (λ n. (pos 0, refl, λ q. (k, rw (← e) n)))
          (λ y. (I.err_corrupt, refl, λ q. absurd (corrupt q)))
          (λ x ne. (x, refl, λ q. absurd (ne q)))
          (λ y z.
            walk_ends fuel (suc k) (advance (I.tail dir) t) _ _ _ (omega arith)
              (follows k dir s e z) (advance-Phase t k (I.tail dir) p e y))

    -- Where each pair, fetched with no error, has the next of a sequence of tails, and the sequence repeats
    -- with some period from some start on (a cycle, or the null pair over and over), both within `bound`:
    -- with more than three rounds of fuel for each step of `bound`, the walk from the first pair ends, and
    -- it reports success only where a null pair is reached.
    pub classify_pairs-Ended :
        (fuel : ℕ) (dir : I.Mdir) (bc : List ℕ) (s : Shim C)
        → 3 * bound < fuel
        → I.tail dir ≡ tails 0
        → Ended tails (classify_pairs C I fuel (first_tortoise C I) dir bc s).0
    classify_pairs-Ended zero dir bc s h e = absurd (omega arith)
    classify_pairs-Ended (suc fuel) dir bc s h e =
        round_cases fuel (first_tortoise C I) dir bc s (Ended tails)
          (λ n. (pos 0, refl, λ q. (0, rw (← e) n)))
          (λ y. (I.err_corrupt, refl, λ q. absurd (corrupt q)))
          (λ x ne. (x, refl, λ q. absurd (ne q)))
          (λ y z.
            walk_ends fuel 1 (advance (I.tail dir) (first_tortoise C I)) _ _ _ (omega arith)
              (follows 0 dir s e z) (first-Phase (I.tail dir) e))
