-- ===== src/Common/Bytes.antt =====
-- Byte buffers: filling a range, copying over a prefix, and the bitwise facts about a byte.
use Prim.Native.Nat.{ℕ, zero, suc, ◌+◌, ◌<◌, bit_and}
use mathlib.Core.Path.{◌≡◌, refl, ap, ◌∙◌}
use mathlib.Core.Bool.{false, Bool, true, ◌&&◌}
use mathlib.Core.List.{List, [], ◌∷◌}
use native.Mathlib.Omega.{arith}
use native.Mathlib.Decide.{dec_lt}
use flash_vis.Common.Tests.{ltb, leb, ◌==◌, ==_iff, if◌then◌else◌}
use flash_vis.Common.Lists.{length, get_or}

-- `xs[a .. a + n) = v`; what lies outside the array is left out.
unfoldable pub fill : ℕ → ℕ → ℕ → List ℕ → List ℕ
fill v a n [] = []
fill v zero zero (x ∷ xs) = x ∷ xs
fill v zero (suc n) (x ∷ xs) = v ∷ fill v zero n xs
fill v (suc a) n (x ∷ xs) = x ∷ fill v a n xs

pub length-fill : (v a n : ℕ) (xs : List ℕ) → length (fill v a n xs) ≡ length xs
unfolding fill
length-fill v a n [] = refl
length-fill v zero zero (x ∷ xs) = refl
length-fill v zero (suc n) (x ∷ xs) = ap suc (length-fill v zero n xs)
length-fill v (suc a) n (x ∷ xs) = ap suc (length-fill v a n xs)

pub get_or-fill :
    (v a n : ℕ) (xs : List ℕ) (i : ℕ)
    → get_or (fill v a n xs) i v ≡ (if leb a i && ltb i (a + n) then v else get_or xs i v)
unfolding fill
get_or-fill v a n [] i = ground arith
get_or-fill v zero zero (x ∷ xs) i = ground arith
get_or-fill v zero (suc n) (x ∷ xs) zero = ground arith
get_or-fill v zero (suc n) (x ∷ xs) (suc i) = ground (arith, get_or-fill v zero n xs i)
get_or-fill v (suc a) n (x ∷ xs) zero = ground arith
get_or-fill v (suc a) n (x ∷ xs) (suc i) = ground (arith, get_or-fill v a n xs i)

-- `memcpy(dst, src, |src|)`, as far as `dst` goes.
unfoldable pub overlay : List ℕ → List ℕ → List ℕ
overlay [] dst = dst
overlay (x ∷ xs) [] = []
overlay (x ∷ xs) (b ∷ bs) = x ∷ overlay xs bs

pub length-overlay : (src dst : List ℕ) → length (overlay src dst) ≡ length dst
unfolding overlay
length-overlay [] dst = refl
length-overlay (x ∷ xs) [] = refl
length-overlay (x ∷ xs) (b ∷ bs) = ap suc (length-overlay xs bs)

pub get_or-overlay :
    (src dst : List ℕ) (i d : ℕ)
    → i < length dst
    → get_or (overlay src dst) i d ≡ (if ltb i (length src) then get_or src i d else get_or dst i d)
unfolding overlay
get_or-overlay [] dst i d h = ground arith
get_or-overlay (x ∷ xs) [] i d h = absurd (omega arith)
get_or-overlay (x ∷ xs) (b ∷ bs) zero d h = ground arith
get_or-overlay (x ∷ xs) (b ∷ bs) (suc i) d h = ground (arith, get_or-overlay xs bs i d)

-- Every element is a byte.
abbrev pub IsBytes : List ℕ → Type 0
IsBytes xs = (i : ℕ) → i < length xs → get_or xs i 0 < 256

-- A test that holds of every number under a bound, by running it on each.
passes : (ℕ → Bool) → ℕ → Bool
passes test zero = true
passes test (suc bound) = if test bound then passes test bound else false

passes-at :
    (test : ℕ → Bool) (bound : ℕ) → passes test bound ≡ true → (x : ℕ) → x < bound → test x ≡ true
unfolding passes
passes-at test zero run x below = absurd (omega arith)
passes-at test (suc bound) run x below = elim (dec_lt x bound) [
  | yes earlier ↦ passes-at test bound (ground arith) x earlier
  | no last ↦ ap test {x = x} {y = bound} (omega arith) ∙ ground arith
]

and_ones_passes : passes (λ x. bit_and 255 x == x) 256 ≡ true
unfolding passes
and_ones_passes = refl

pub bit_and_ones : (x : ℕ) → x < 256 → bit_and 255 x ≡ x
bit_and_ones x h = (==_iff _ x).0 (passes-at _ 256 and_ones_passes x h)
