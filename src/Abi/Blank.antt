-- ===== src/Abi/Blank.antt =====
-- The blank scan of the inspection hooks: a page is erased if all its bytes are 0xFF.
use flash_vis.Nor
use flash_vis.Nor.{Nor}
use flash_vis.Nor.Traffic.{get_or-subarray, length-subarray}
use flash_vis.Common.{
  ◌≤◌, zero, [], ◌∷◌, ◌++◌, length, take, drop, ap, ◌∙◌, length-take, length-drop, length-append, ℕ,
  suc, ◌+◌, ◌<◌, Bool, true, ◌&&◌, List, get_or, ◌==◌, ◌≡◌, refl, arith,
}

-- `for (i = 0; i < n; i++) if (lu[at + i] != 0xff) { blank = 0; break; }`
unfoldable pub blank_from : ℕ → ℕ → List ℕ → Bool
blank_from zero at lu = true
blank_from (suc n) at lu = get_or lu at 255 == 255 && blank_from n (suc at) lu

-- Two buffers that agree on the bytes of a page are both blank there, or neither.
pub blank_from-ext :
    (n a b : ℕ) (xs ys : List ℕ)
    → ((i : ℕ) → i < n → get_or xs (a + i) 255 ≡ get_or ys (b + i) 255)
    → blank_from n a xs ≡ blank_from n b ys
unfolding blank_from
blank_from-ext zero a b xs ys h = refl
blank_from-ext (suc n) a b xs ys h =
    let first : get_or xs a 255 ≡ get_or ys b 255 =
      shifted a b (omega arith) (omega arith) (h 0 (omega arith)) in
    rw (first, blank_from-ext n (suc a) (suc b) xs ys λ i l. next i (h (suc i) (omega arith))) refl
  where
    shifted :
        (a' b' : ℕ)
        → a + 0 ≡ a'
        → b + 0 ≡ b'
        → get_or xs (a + 0) 255 ≡ get_or ys (b + 0) 255
        → get_or xs a' 255 ≡ get_or ys b' 255
    shifted a' b' p q r = rw (← p, ← q) r

    next :
        (i : ℕ)
        → get_or xs (a + suc i) 255 ≡ get_or ys (b + suc i) 255
        → get_or xs (suc a + i) 255 ≡ get_or ys (suc b + i) 255
    next i r =
        let p : suc a + i ≡ a + suc i = omega arith in
        let q : suc b + i ≡ b + suc i = omega arith in rw (p, q) r

pub get_or-append_left :
    (xs ys : List ℕ) (i d : ℕ) → i < length xs → get_or (xs ++ ys) i d ≡ get_or xs i d
get_or-append_left [] ys i d h = absurd (omega arith)
get_or-append_left (x ∷ xs) ys zero d h = refl
get_or-append_left (x ∷ xs) ys (suc i) d h = get_or-append_left xs ys i d (omega arith)

-- A page that is read into the start of a buffer is blank there if it is blank on the chip.
pub blank-read_quiet :
    (size a : ℕ) (buf : List ℕ) (d : Nor)
    → size ≤ length buf
    → a + size ≤ length d.flash
    → blank_from size 0 ((Nor.read_quiet a (take size buf) d).1 ++ drop size buf)
      ≡ blank_from size a d.flash
unfolding Nor.read_quiet
blank-read_quiet size a buf d h g =
    let whole : length (take size buf) ≡ size = omega (arith, length-take size buf) in
    let got = Nor.subarray d.flash a (take size buf) in
    blank_from-ext size 0 a (got ++ drop size buf) d.flash λ i l.
      get_or-append_left got (drop size buf) (0 + i) 255
        (omega (arith, length-subarray d.flash a (take size buf), whole))
      ∙ ap (λ k. get_or got k 255) {x = 0 + i} {y = i} (omega arith)
      ∙ get_or-subarray d.flash a (take size buf) i (omega (arith, whole)) (omega arith)

pub length-read_quiet :
    (size a : ℕ) (buf : List ℕ) (d : Nor)
    → length ((Nor.read_quiet a (take size buf) d).1 ++ drop size buf) ≡ length buf
unfolding Nor.read_quiet
length-read_quiet size a buf d = omega (
  arith,
  length-append (Nor.subarray d.flash a (take size buf)) (drop size buf),
  length-subarray d.flash a (take size buf),
  length-take size buf,
  length-drop size buf,
)
