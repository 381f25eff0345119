-- ===== src/Common/Slices.antt =====
-- Prefixes and suffixes of lists under appending.
use Prim.Native.Nat.{ℕ, zero, suc, ◌+◌, ◌≤◌}
use mathlib.Core.Path.{◌≡◌, refl, ap, sym, ◌∙◌}
use mathlib.Core.List.{List, [], ◌∷◌, ◌++◌}
use native.Mathlib.Omega.{arith}
use flash_vis.Common.Lists.{length, take, drop}

module _ {ℓ} {A : Type ℓ} where
  pub drop-nil : (n : ℕ) → drop {A = A} n [] ≡ []
  drop-nil zero = refl
  drop-nil (suc n) = refl

  pub take-nil : (n : ℕ) → take {A = A} n [] ≡ []
  take-nil zero = refl
  take-nil (suc n) = refl

module _ {ℓ} {A : Type ℓ} where
  pub drop-drop : (m n : ℕ) (xs : List A) → drop n (drop m xs) ≡ drop (m + n) xs
  drop-drop zero n xs = ap (λ k. drop k xs) (omega arith)
  drop-drop (suc m) n [] = drop-nil n ∙ sym (drop-nil (suc m + n))
  drop-drop (suc m) n (x ∷ xs) =
      drop-drop m n xs ∙ ap (λ k. drop k (x ∷ xs)) {x = suc (m + n)} {y = suc m + n} (omega arith)

  pub take-append-drop : (n : ℕ) (xs : List A) → take n xs ++ drop n xs ≡ xs
  take-append-drop zero xs = refl
  take-append-drop (suc n) [] = refl
  take-append-drop (suc n) (x ∷ xs) = ap (◌∷◌ x) (take-append-drop n xs)

  pub take-add : (m n : ℕ) (xs : List A) → take (m + n) xs ≡ take m xs ++ take n (drop m xs)
  take-add zero n xs = ap (λ k. take k xs) (omega arith)
  take-add (suc m) n [] = take-nil (suc m + n) ∙ sym (take-nil n)
  take-add (suc m) n (x ∷ xs) =
      ap (λ k. take k (x ∷ xs)) {x = suc m + n} {y = suc (m + n)} (omega arith)
      ∙ ap (◌∷◌ x) (take-add m n xs)

  pub take-append_length : (xs ys : List A) (k : ℕ) → length xs ≡ k → take k (xs ++ ys) ≡ xs
  take-append_length [] ys k e = ap (λ j. take j ys) {x = k} {y = 0} (omega arith)
  take-append_length (x ∷ xs) ys zero e = absurd (omega arith)
  take-append_length (x ∷ xs) ys (suc k) e = ap (◌∷◌ x) (take-append_length xs ys k (omega arith))

  pub drop-append_length :
      (xs ys : List A) (k n : ℕ) → length xs ≡ k → drop (k + n) (xs ++ ys) ≡ drop n ys
  drop-append_length [] ys k n e = ap (λ j. drop j ys) {x = k + n} {y = n} (omega arith)
  drop-append_length (x ∷ xs) ys zero n e = absurd (omega arith)
  drop-append_length (x ∷ xs) ys (suc k) n e =
      ap (λ j. drop j (x ∷ xs ++ ys)) {x = suc k + n} {y = suc (k + n)} (omega arith)
      ∙ drop-append_length xs ys k n (omega arith)

  pub take-all : (n : ℕ) (xs : List A) → length xs ≤ n → take n xs ≡ xs
  take-all zero [] h = refl
  take-all zero (x ∷ xs) h = absurd (omega arith)
  take-all (suc n) [] h = refl
  take-all (suc n) (x ∷ xs) h = ap (◌∷◌ x) (take-all n xs (omega arith))
