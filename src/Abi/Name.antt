-- ===== src/Abi/Name.antt =====
-- Names: C strings as lists of bytes with no terminator, and their copies into caller buffers.
use flash_vis.Common.{
  ℕ, zero, suc, ◌+◌, ◌-◌, ◌≤◌, ◌<◌, true, false, not, ◌&&◌, List, [], ◌∷◌, ◌++◌, length, set, take,
  Option, none, some, leb, ◌==◌, if◌then◌else◌, ◌≡◌, refl, ap, ap₂, arith, ◌≢◌, ◌∙◌, overlay, ◌⊎◌,
  inl, inr, Option-cases, min,
}

-- `if (cap && n >= cap) n = cap - 1;` on `n = strlen(name)`.
unfoldable pub copy_size : ℕ → List ℕ → ℕ
copy_size room name = let n = length name in if not (room == 0) && leb room n then room - 1 else n

-- `memcpy(out, name, n); if (cap) out[n] = 0;`
unfoldable pub copy_name : ℕ → List ℕ → List ℕ → List ℕ
copy_name room name out =
    let n = copy_size room name in
    let out' = overlay (take n name) out in if room == 0 then out' else set out' n 0

-- `strrchr(path, '/') + 1`, where there is a slash.
unfoldable pub after_slash : List ℕ → Option (List ℕ)
after_slash [] = none
after_slash (c ∷ cs) = elim (after_slash cs) [
  | some base ↦ some base
  | none ↦ if c == b'/' then some cs else none
]

unfoldable pub basename : List ℕ → List ℕ
basename path = elim (after_slash path) [ some base ↦ base | none ↦ path ]

-- The C string at the start of a buffer.
unfoldable pub c_string : List ℕ → List ℕ
c_string [] = []
c_string (c ∷ cs) = elim (c == 0) [ true ↦ [] | false ↦ c ∷ c_string cs ]

abbrev pub IsText : List ℕ → Type 0
IsText [] = Unit {0}
IsText (c ∷ cs) = (c ≢ 0) × IsText cs

-- With room for at least the terminator, no byte is written past the capacity.
pub copy_size-lt :
    (room : ℕ) (name : List ℕ)
    → 0 < room
    → (copy_size room name < room) × (copy_size room name ≡ min (length name) (room - 1))
unfolding copy_size
copy_size-lt room name h = ground arith

terminated :
    (n : ℕ) (name out : List ℕ)
    → n ≤ length name
    → n < length out
    → IsText name
    → c_string (set (overlay (take n name) out) n 0) ≡ take n name
unfolding c_string overlay
terminated zero name [] h l t = absurd (omega arith)
terminated zero name (b ∷ out) h l t = refl
terminated (suc n) [] out h l t = absurd (omega arith)
terminated (suc n) (c ∷ name) [] h l t = absurd (omega arith)
terminated (suc n) (c ∷ name) (b ∷ out) h l t =
    ground (arith, terminated n name out (omega arith) (omega arith) t.1)

take-length : (n : ℕ) (xs : List ℕ) → take (min (length xs) n) xs ≡ take n xs
take-length zero [] = refl
take-length (suc n) [] = ap (λ k. take {A = ℕ} k []) {x = min 0 (suc n)} {y = 0} (omega arith)
take-length zero (x ∷ xs) =
    ap (λ k. take k (x ∷ xs)) {x = min (suc (length xs)) 0} {y = 0} (omega arith)
take-length (suc n) (x ∷ xs) =
    ap (λ k. take k (x ∷ xs)) {x = min (suc (length xs)) (suc n)} {y = suc (min (length xs) n)}
      (omega arith)
    ∙ ap (◌∷◌ x) (take-length n xs)

-- A buffer of `room > 0` bytes ends up holding the name, cut to `room - 1` bytes, as a C string, and
-- the copy stays inside the buffer.
pub copy_name_lem :
    (room : ℕ) (name out : List ℕ)
    → 0 < room
    → length out ≡ room
    → IsText name
    → (c_string (copy_name room name out) ≡ take (room - 1) name) × (copy_size room name + 1 ≤ room)
unfolding copy_name
copy_name_lem room name out h e t =
    let n = copy_size room name in
    let b = copy_size-lt room name h in
    (
      rw (nonzero, terminated n name out (omega (arith, b)) (omega (arith, b)) t, b.1)
          (take-length (room - 1) name),
      omega (arith, b),
    )
  where
    nonzero : (room == 0) ≡ false
    nonzero = ground arith

-- No byte of a text is a slash.
abbrev pub NoSlash : List ℕ → Type 0
NoSlash [] = Unit {0}
NoSlash (c ∷ cs) = (c ≢ b'/') × NoSlash cs

after_slash-none : (path : List ℕ) → after_slash path ≡ none → NoSlash path
unfolding after_slash
after_slash-none [] e = tt
after_slash-none (c ∷ cs) e = ground (arith, after_slash-none cs)

after_slash-some :
    (path base : List ℕ)
    → after_slash path ≡ some base
    → NoSlash base × (dir : List ℕ) × (path ≡ dir ++ (b'/' ∷ base))
unfolding after_slash
after_slash-some [] base e = absurd (ground arith)
after_slash-some (c ∷ cs) base e = elim (Option-cases (after_slash cs)) [
  | inl k ↦
      let r : (c ≡ b'/') × (cs ≡ base) = ground (arith, k) in
      (rw (← r.1) (after_slash-none cs k), [], ap₂ ◌∷◌ r.0 r.1)
  | inr (b, k) ↦
      let same : b ≡ base = ground (arith, k) in
      let (clean, dir, split) = after_slash-some cs base (k ∙ ap some same) in
      (clean, c ∷ dir, ap (◌∷◌ c) split)
]

-- The basename has no slash, and the path is the basename alone or behind a directory and a slash.
pub basename_lem :
    (path : List ℕ)
    → NoSlash (basename path)
      × ((path ≡ basename path) ⊎ ((dir : List ℕ) × (path ≡ dir ++ (b'/' ∷ basename path))))
unfolding basename
basename_lem path = elim (Option-cases (after_slash path)) [
  | inl k ↦ rw (k, basename) (after_slash-none path k, inl refl)
  | inr (b, k) ↦
      rw (k, basename)
        (
          (after_slash-some path b k).0,
          inr ((after_slash-some path b k).1, (after_slash-some path b k).2),
        )
]
