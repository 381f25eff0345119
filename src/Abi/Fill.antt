-- ===== src/Abi/Fill.antt =====
-- The loop that fills a caller's buffer by repeated, possibly short reads:
-- `while (total < n) { read(out + total, n - total, &got); if (error) ...; if (!got) break; total += got; }`
use native.Mathlib.Decide.{dec_lt}
use flash_vis.Common.{
  lt→ltb, ℕ, zero, suc, ◌+◌, ◌-◌, ◌≤◌, ◌<◌, false, List, ◌++◌, length, take, drop, ltb, ◌==◌,
  if◌then◌else◌, ◌≡◌, refl, ap, ap₂, arith, ◌∙◌, sym, min, ◌⊎◌, inl, inr, ℤ, append_assoc,
  Bool-cases, length-append, length-take, length-drop, drop-drop, take-add, take-append-drop,
  take-append_length, drop-append_length,
}

-- What one read reports.
pub data Outcome : Type 0 where
  got : ℕ → Outcome
  failed : ℤ → Outcome

-- How the loop ends; `unfinished` stands for rounds that the fuel did not cover.
pub data Filled : Type 0 where
  filled : ℕ → Filled
  broke : ℤ → Filled
  unfinished : Filled

module _ {S : Type 0} (step : S → List ℕ → Outcome × List ℕ × S) where
  unfoldable pub fill_loop : ℕ → ℕ → ℕ → List ℕ → S → Filled × List ℕ × S
  fill_loop zero n total out s =
      if ltb total n then (unfinished, out, s) else (filled total, out, s)
  fill_loop (suc fuel) n total out s =
      let r = step s (drop total out) in
      let out' = take total out ++ r.1 in
      let next : Filled × List ℕ × S = elim r.0 [
        | failed e ↦ (broke e, out', r.2)
        | got k ↦
            let more = fill_loop fuel n (total + k) out' r.2 in
            if k == 0 then (filled total, out', r.2) else more
      ] in
      if ltb total n then next else (filled total, out, s)

  -- A reader that holds `left s`: each read hands over a non-empty prefix of it, if there is one, and
  -- leaves the rest of the buffer alone.
  pub record IsReader (left : S → List ℕ) : Type 0 where
    pub count : S → List ℕ → ℕ
    pub reports : (s : S) (buf : List ℕ) → 0 < length buf → (step s buf).0 ≡ got (count s buf)
    pub stores :
        (s : S) (buf : List ℕ)
        → 0 < length buf
        → (step s buf).1 ≡ take (count s buf) (left s) ++ drop (count s buf) buf
    pub advances :
        (s : S) (buf : List ℕ) → 0 < length buf → left (step s buf).2 ≡ drop (count s buf) (left s)
    pub fits : (s : S) (buf : List ℕ) → count s buf ≤ length buf
    pub no_more : (s : S) (buf : List ℕ) → count s buf ≤ length (left s)
    pub progress : (s : S) (buf : List ℕ) → 0 < length buf → 0 < length (left s) → 0 < count s buf

  module _ (left : S → List ℕ) (R : IsReader left) where
    -- What the loop has done when it ends, begun at `total` with `s`.
    pub record Fills (n total : ℕ) (out : List ℕ) (s : S) (r : Filled × List ℕ × S) : Type 0 where
      pub ends : r.0 ≡ filled (total + min (n - total) (length (left s)))
      pub bytes :
          r.1
          ≡ take total out
            ++ (take (min (n - total) (length (left s))) (left s)
                ++ drop (total + min (n - total) (length (left s))) out)
      pub rest : left r.2 ≡ drop (min (n - total) (length (left s))) (left s)

    stops :
        (n total : ℕ) (out : List ℕ) (s s' : S) (out' : List ℕ)
        → min (n - total) (length (left s)) ≡ 0
        → left s' ≡ left s
        → out' ≡ out
        → Fills n total out s (filled total, out', s')
    stops n total out s s' out' z e o = record {
      ends = rw z (ap filled (omega arith));
      bytes = rw (z, o, sum) (sym (take-append-drop total out));
      rest = rw z e;
    }
      where
        sum : total + 0 ≡ total
        sum = omega arith

    -- One read of `k > 0` bytes, and then what the rest of the loop does.
    goes_on :
        (n total k : ℕ) (out : List ℕ) (s s' : S) (out' : List ℕ) (r : Filled × List ℕ × S)
        → length out ≡ n
        → k ≤ n - total
        → total ≤ n
        → k ≤ length (left s)
        → out' ≡ take total out ++ (take k (left s) ++ drop k (drop total out))
        → left s' ≡ drop k (left s)
        → Fills n (total + k) out' s' r
        → Fills n total out s r
    goes_on n total k out s s' out' r h fits le some_left o e f = record {
      ends = f.ends ∙ ap filled sum;
      bytes =
          rw (f.bytes, m_eq, pre, suffix, e)
            (append_assoc (take total out) (take k (left s)) _
              ∙ ap (◌++◌ (take total out)) (
                  sym (append_assoc (take k (left s)) (take m (drop k (left s))) _)
                  ∙ ap₂ ◌++◌ (sym (take-add k m (left s)) ∙ ap (λ j. take j (left s)) k_m)
                      (ap (λ j. drop (total + j) out) k_m)));
      rest = f.rest ∙ ap₂ drop m_eq e ∙ drop-drop k m (left s) ∙ ap (λ j. drop j (left s)) k_m;
    }
      where
        m : ℕ
        m = min (n - (total + k)) (length (drop k (left s)))

        m_eq : min (n - (total + k)) (length (left s')) ≡ m
        m_eq = ap (λ t. min (n - (total + k)) (length t)) e

        k_m : k + m ≡ min (n - total) (length (left s))
        k_m = omega (arith, length-drop k (left s))

        sum :
            total + k + min (n - (total + k)) (length (left s'))
            ≡ total + min (n - total) (length (left s))
        sum = omega (arith, m_eq, k_m)

        pre_len : length (take total out ++ take k (left s)) ≡ total + k
        pre_len = omega (
          arith,
          length-append (take total out) (take k (left s)),
          length-take total out,
          length-take k (left s),
        )

        split : out' ≡ (take total out ++ take k (left s)) ++ drop k (drop total out)
        split = o ∙ sym (append_assoc (take total out) (take k (left s)) (drop k (drop total out)))

        pre : take (total + k) out' ≡ take total out ++ take k (left s)
        pre =
            ap (take (total + k)) split
            ∙ take-append_length (take total out ++ take k (left s)) _ (total + k) pre_len

        suffix : drop (total + k + m) out' ≡ drop (total + (k + m)) out
        suffix =
            ap (drop (total + k + m)) split
            ∙ drop-append_length (take total out ++ take k (left s)) _ (total + k) m pre_len
            ∙ drop-drop k m (drop total out)
            ∙ drop-drop total (k + m) out

    room : (n total : ℕ) (out : List ℕ) → total < n → length out ≡ n → 0 < length (drop total out)
    room n total out lt len = omega (arith, length-drop total out)

    drained : (s : S) (buf : List ℕ) → 0 < length buf → R.count s buf ≡ 0 → length (left s) ≡ 0
    drained s buf h z = elim (dec_lt 0 (length (left s))) [
      | yes p ↦ absurd (omega (arith, z, R.progress s buf h p))
      | no np ↦ omega arith
    ]

    -- One round that reads, by what it reads: the loop ends with nothing changed, or goes on.
    round :
        (fuel n total : ℕ) (out : List ℕ) (s : S)
        → total < n
        → length out ≡ n
        → let k = R.count s (drop total out) in
          let r = step s (drop total out) in
          let out' = take total out ++ r.1 in
          ((k ≡ 0) × (fill_loop (suc fuel) n total out s ≡ (filled total, out', r.2)))
          ⊎ ((0 < k) × (fill_loop (suc fuel) n total out s ≡ fill_loop fuel n (total + k) out' r.2))
    unfolding fill_loop
    round fuel n total out s lt len =
        rw (R.reports s (drop total out) (room n total out lt len), fill_loop)
          (ground (arith, lt→ltb total n lt))

    whole :
        (n total k : ℕ) (out : List ℕ) (s : S)
        → length out ≡ n
        → k ≤ n - total
        → total ≤ n
        → k ≤ length (left s)
        → length (take total out ++ (take k (left s) ++ drop k (drop total out))) ≡ n
    whole n total k out s len fits le some_left = omega (
      arith,
      length-append (take total out) (take k (left s) ++ drop k (drop total out)),
      length-append (take k (left s)) (drop k (drop total out)),
      length-take total out,
      length-take k (left s),
      length-drop k (drop total out),
      length-drop total out,
    )

    -- With one round of fuel for each byte that is asked for the loop ends, and hands over what the
    -- reader holds, up to the room in the buffer.
    pub fill_loop-Fills :
        (fuel n total : ℕ) (out : List ℕ) (s : S)
        → length out ≡ n
        → total ≤ n
        → n - total ≤ fuel
        → Fills n total out s (fill_loop fuel n total out s)
    unfolding fill_loop
    fill_loop-Fills zero n total out s len le f =
        let e : ltb total n ≡ false = ground arith in
        rw (e, fill_loop) (stops n total out s s out (omega arith) refl refl)
    fill_loop-Fills (suc fuel) n total out s len le f = elim (dec_lt total n) [
      | no ge ↦
          let e : ltb total n ≡ false = ground arith in
          rw (e, fill_loop) (stops n total out s s out (omega arith) refl refl)
      | yes lt ↦ elim (round fuel n total out s lt len) [
        | inl (z, e) ↦
            let l = R.advances s (drop total out) (room n total out lt len) in
            let none_left = drained s (drop total out) (room n total out lt len) z in
            rw e (
              stops n total out s (step s (drop total out)).2 _ (omega (arith, none_left))
                (l ∙ ap (λ k. drop k (left s)) z)
                (rw (R.stores s (drop total out) (room n total out lt len), z)
                  (take-append-drop total out)))
        | inr (p, e) ↦
            let k = R.count s (drop total out) in
            let fits : k ≤ n - total =
              omega (arith, R.fits s (drop total out), length-drop total out) in
            let out' = take total out ++ (step s (drop total out)).1 in
            let o =
              ap (◌++◌ (take total out)) (R.stores s (drop total out) (room n total out lt len)) in
            let l = R.advances s (drop total out) (room n total out lt len) in
            rw e (
              goes_on n total k out s (step s (drop total out)).2 out' _ len fits le
                (R.no_more s (drop total out)) o l
                (fill_loop-Fills fuel n (total + k) out' (step s (drop total out)).2
                  (ap length o ∙ whole n total k out s len fits le (R.no_more s (drop total out)))
                  (omega arith) (omega arith)))
      ]
    ]

  -- What every round keeps, the loop keeps.
  pub fill_loop_keeps :
      (P : S → Type 0)
      → ((s : S) (buf : List ℕ) → P s → P (step s buf).2)
      → (fuel n total : ℕ) (out : List ℕ) (s : S) → P s
      → P (fill_loop fuel n total out s).2
  unfolding fill_loop
  fill_loop_keeps P keep zero n total out s p = elim (Bool-cases (ltb total n)) [
    | inl e ↦ rw (e, fill_loop) p
    | inr e ↦ rw (e, fill_loop) p
  ]
  fill_loop_keeps P keep (suc fuel) n total out s p = elim (Bool-cases (ltb total n)) [
    | inr e ↦ rw (e, fill_loop) p
    | inl e ↦
        rw (e, fill_loop)
          (keeps_round (λ k. fill_loop_keeps P keep fuel n (total + k) written after (keep s buf p))
            (step s buf).0)
  ]
    where
      buf : List ℕ
      buf = drop total out

      after : S
      after = (step s buf).2

      written : List ℕ
      written = take total out ++ (step s buf).1

      keeps_round :
          ((k : ℕ) → P (fill_loop fuel n (total + k) written after).2)
          → (o : Outcome)
          → P
              (elim o as (λ x. Filled × List ℕ × S) [
                | failed e ↦ (broke e, written, after)
                | got k ↦
                    if k == 0
                    then (filled total, written, after)
                    else fill_loop fuel n (total + k) written after
              ]).2
      keeps_round ih (failed e) = keep s buf p
      keeps_round ih (got k) = elim (Bool-cases (k == 0)) [
        | inl z ↦ rw z (keep s buf p)
        | inr z ↦ rw z (ih k)
      ]
