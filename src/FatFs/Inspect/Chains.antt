-- ===== src/FatFs/Inspect/Chains.antt =====
-- The cluster chains of bindings/fatfs/fat_inspect.cpp: where a chain ends, no cluster stands in it twice.
use flash_vis.Common.{
  ℕ, zero, suc, ◌+◌, ◌<◌, Bool, true, false, List, [], ◌∷◌, length, get_or, if◌then◌else◌, ◌==◌,
  ==_iff, ◌≤◌, ◌≡◌, ◌≢◌, refl, arith, ap,
}
use flash_vis.FatFs.Inspect.{ends_chain}

-- `f` with the value `m` replaced by its value at `last`.
abbrev without : (ℕ → ℕ) → ℕ → ℕ → ℕ → ℕ
without f m last i = if f i == m then f last else f i

without-lt :
    (f : ℕ → ℕ) (m last i : ℕ)
    → f i < suc m
    → f last < suc m
    → f i ≢ f last
    → without f m last i < m
without-lt f m last i h g ne = ground (arith, ==_iff (f i) m)

without_inj :
    (f : ℕ → ℕ) (m last i j : ℕ)
    → f i ≢ f last
    → f j ≢ f last
    → without f m last i ≡ without f m last j
    → f i ≡ f j
without_inj f m last i j h g e = ground (arith, ==_iff (f i) m, ==_iff (f j) m)

-- `n` different numbers below `m` are no more than `m`.
pub few :
    (m n : ℕ) (f : ℕ → ℕ)
    → ((i : ℕ) → i < n → f i < m)
    → ((i j : ℕ) → i < n → j < n → f i ≡ f j → i ≡ j)
    → n ≤ m
few m zero f below inj = omega arith
few zero (suc n) f below inj = absurd (omega (arith, below 0 (omega arith)))
few (suc m) (suc n) f below inj =
    let apart : (i : ℕ) → i < n → f i ≢ f n =
      λ i h e. absurd (omega (arith, h, inj i n (omega arith) (omega arith) e)) in
    let fewer =
      few m n (without f m n)
        (λ i h. without-lt f m n i (below i (omega arith)) (below n (omega arith)) (apart i h))
        (λ i j h g e.
          inj i j (omega arith) (omega arith) (without_inj f m n i j (apart i h) (apart j g) e)) in
    omega (arith, fewer)

module _ (next : ℕ → ℕ) (ok : ℕ → Bool) where
  -- The clusters from one on: `next` is its entry in the FAT, and `ok` tells the clusters of the volume.
  pub data Chain : ℕ → List ℕ → Type 0 where
    stray : {c : ℕ} → ok c ≡ false → Chain c []
    last : {c : ℕ} → ok c ≡ true → ends_chain (next c) ≡ true → Chain c (c ∷ [])
    link :
        {c : ℕ} {cs : List ℕ}
        → ok c ≡ true
        → ends_chain (next c) ≡ false
        → Chain (next c) cs
        → Chain c (c ∷ cs)

  clash : (b : Bool) → b ≡ true → b ≡ false → ⊥
  clash b h g = ground (arith)

  same_length : {c : ℕ} {cs cs' : List ℕ} → Chain c cs → Chain c cs' → length cs ≡ length cs'
  same_length (stray e) (stray e') = refl
  same_length (stray e) (last o x) = absurd (clash _ o e)
  same_length (stray e) (link o x r) = absurd (clash _ o e)
  same_length (last o x) (stray e') = absurd (clash _ o e')
  same_length (last o x) (last o' x') = refl
  same_length (last o x) (link o' x' r) = absurd (clash _ x x')
  same_length (link o x r) (stray e') = absurd (clash _ o e')
  same_length (link o x r) (last o' x') = absurd (clash _ x' x)
  same_length (link o x r) (link o' x' r') = ap suc (same_length r r')

  -- The chain from a member on.
  tail_at :
      {c : ℕ} {cs : List ℕ}
      → Chain c cs
      → (j : ℕ) → j < length cs
      → (cs' : List ℕ) × Chain (get_or cs j 0) cs' × (length cs' + j ≡ length cs)
  tail_at (stray e) j h = absurd (omega arith)
  tail_at (last {c} o x) zero h = (c ∷ [], last o x, refl)
  tail_at (last o x) (suc j) h = absurd (omega arith)
  tail_at (link {c} {cs} o x r) zero h = (c ∷ cs, link o x r, omega arith)
  tail_at (link o x r) (suc j) h =
      let (cs', t, e) = tail_at r j (omega arith) in (cs', t, omega (arith, e))

  pub member_ok :
      {c : ℕ} {cs : List ℕ} → Chain c cs → (j : ℕ) → j < length cs → ok (get_or cs j 0) ≡ true
  member_ok (stray e) j h = absurd (omega arith)
  member_ok (last o x) zero h = o
  member_ok (last o x) (suc j) h = absurd (omega arith)
  member_ok (link o x r) zero h = o
  member_ok (link o x r) (suc j) h = member_ok r j (omega arith)

  -- No cluster stands at two places.
  pub places_inj :
      {c : ℕ} {cs : List ℕ}
      → Chain c cs
      → (i j : ℕ) → i < length cs
      → j < length cs
      → get_or cs i 0 ≡ get_or cs j 0
      → i ≡ j
  places_inj {c} {cs} ch i j h g e =
      let (a, t, l) = tail_at ch i h in
      let (b, u, m) = tail_at ch j g in
      let t' : Chain (get_or cs j 0) a = rw (← e) t in omega (arith, l, m, same_length t' u)
