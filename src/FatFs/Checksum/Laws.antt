-- ===== src/FatFs/Checksum/Laws.antt =====
-- What a checksum tells apart.
use native.Mathlib.Decide.{dec_lt}
use flash_vis.Common.{
  ℕ, zero, suc, ◌/◌, ◌%◌, ◌^◌, ◌<◌, ◌≤◌, bit_xor, List, [], ◌∷◌, ◌++◌, ◌≡◌, ◌≢◌, refl, arith, ap,
  ◌∙◌, sym, true, false, Bool-cases, inl, inr, bit_xor_left, bit_xor_right, bit_xor-lt, IsBytes,
  ◌==◌,
}
use flash_vis.FatFs.Checksum.{
  not32, poly, shift_bit, shift_bits, crc_byte, crc_bytes, esp_rom_crc32_le,
}

-- A shift that brings the polynomial in sets the top bit, so it is told from one that does not.
folds_high : (x : ℕ) → x < 2 ^ 31 → 2 ^ 31 ≤ bit_xor x poly
folds_high x h = elim (dec_lt (bit_xor x poly) (2 ^ 31)) [
  | yes low ↦ absurd (omega (arith, bit_xor-lt 31 x (bit_xor x poly) h low, bit_xor_left x poly))
  | no high ↦ omega arith
]

xor_same : (a b c : ℕ) → bit_xor a c ≡ bit_xor b c → a ≡ b
xor_same a b c e = sym (bit_xor_right a c) ∙ ap (λ t. bit_xor t c) e ∙ bit_xor_right b c

shift_bit_odd : (a : ℕ) → (a % 2 == 1) ≡ true → shift_bit a ≡ bit_xor (a / 2) poly
unfolding shift_bit
shift_bit_odd a e = rw e refl

shift_bit_even : (a : ℕ) → (a % 2 == 1) ≡ false → shift_bit a ≡ a / 2
unfolding shift_bit
shift_bit_even a e = rw e refl

shift_bit-lt : (a : ℕ) → a < 2 ^ 32 → shift_bit a < 2 ^ 32
shift_bit-lt a h = elim (Bool-cases (a % 2 == 1)) [
  | inl e ↦ omega (arith, shift_bit_odd a e, bit_xor-lt 32 (a / 2) poly (omega arith) (omega arith))
  | inr e ↦ omega (arith, shift_bit_even a e)
]

shift_bit_inj : (a b : ℕ) → a < 2 ^ 32 → b < 2 ^ 32 → shift_bit a ≡ shift_bit b → a ≡ b
shift_bit_inj a b h g e = elim (Bool-cases (a % 2 == 1)) [
  | inl p ↦ elim (Bool-cases (b % 2 == 1)) [
    | inl q ↦
        let half =
          xor_same (a / 2) (b / 2) poly (sym (shift_bit_odd a p) ∙ e ∙ shift_bit_odd b q) in
        ground (arith, half)
    | inr q ↦
        absurd (
          omega (arith, shift_bit_odd a p, e, shift_bit_even b q, folds_high (a / 2) (omega arith)))
  ]
  | inr p ↦ elim (Bool-cases (b % 2 == 1)) [
    | inl q ↦
        absurd (
          omega (arith, shift_bit_even a p, e, shift_bit_odd b q, folds_high (b / 2) (omega arith)))
    | inr q ↦
        let half : a / 2 ≡ b / 2 = sym (shift_bit_even a p) ∙ e ∙ shift_bit_even b q in
        ground (arith, half)
  ]
]

shift_bits-lt : (k a : ℕ) → a < 2 ^ 32 → shift_bits k a < 2 ^ 32
unfolding shift_bits
shift_bits-lt zero a h = h
shift_bits-lt (suc k) a h = shift_bits-lt k (shift_bit a) (shift_bit-lt a h)

shift_bits_inj : (k a b : ℕ) → a < 2 ^ 32 → b < 2 ^ 32 → shift_bits k a ≡ shift_bits k b → a ≡ b
unfolding shift_bits
shift_bits_inj zero a b h g e = e
shift_bits_inj (suc k) a b h g e =
    shift_bit_inj a b h g
      (shift_bits_inj k (shift_bit a) (shift_bit b) (shift_bit-lt a h) (shift_bit-lt b g) e)

-- One byte: within the width, and one-to-one in the checksum so far and in the byte.
crc_byte-lt : (c b : ℕ) → c < 2 ^ 32 → b < 256 → crc_byte c b < 2 ^ 32
unfolding crc_byte
crc_byte-lt c b h g = shift_bits-lt 8 (bit_xor c b) (bit_xor-lt 32 c b h (omega arith))

crc_byte_inj :
    (a b x y : ℕ)
    → a < 2 ^ 32
    → b < 2 ^ 32
    → x < 256
    → y < 256
    → crc_byte a x ≡ crc_byte b y
    → bit_xor a x ≡ bit_xor b y
unfolding crc_byte
crc_byte_inj a b x y h g p q =
    shift_bits_inj 8 (bit_xor a x) (bit_xor b y) (bit_xor-lt 32 a x h (omega arith))
      (bit_xor-lt 32 b y g (omega arith))

rest_bytes : (b : ℕ) (bs : List ℕ) → IsBytes (b ∷ bs) → IsBytes bs
rest_bytes b bs h i l = h (suc i) (omega arith)

crc_bytes-lt : (bs : List ℕ) (c : ℕ) → c < 2 ^ 32 → IsBytes bs → crc_bytes c bs < 2 ^ 32
unfolding crc_bytes
crc_bytes-lt [] c h t = h
crc_bytes-lt (b ∷ bs) c h t =
    crc_bytes-lt bs (crc_byte c b) (crc_byte-lt c b h (t 0 (omega arith))) (rest_bytes b bs t)

crc_bytes_inj :
    (bs : List ℕ) (a b : ℕ)
    → a < 2 ^ 32
    → b < 2 ^ 32
    → IsBytes bs
    → crc_bytes a bs ≡ crc_bytes b bs
    → a ≡ b
unfolding crc_bytes
crc_bytes_inj [] a b h g t e = e
crc_bytes_inj (x ∷ bs) a b h g t e =
    let byte = t 0 (omega arith) in
    let next =
      crc_bytes_inj bs (crc_byte a x) (crc_byte b x) (crc_byte-lt a x h byte)
        (crc_byte-lt b x g byte) (rest_bytes x bs t) e in
    xor_same a b x (crc_byte_inj a b x x h g byte byte next)

crc_bytes-append : (xs ys : List ℕ) (c : ℕ) → crc_bytes c (xs ++ ys) ≡ crc_bytes (crc_bytes c xs) ys
unfolding crc_bytes
crc_bytes-append [] ys c = refl
crc_bytes-append (x ∷ xs) ys c = crc_bytes-append xs ys (crc_byte c x)

not32-lt : (c : ℕ) → not32 c < 2 ^ 32
unfolding not32
not32-lt c = omega arith

not32_inj : (a b : ℕ) → a < 2 ^ 32 → b < 2 ^ 32 → not32 a ≡ not32 b → a ≡ b
unfolding not32
not32_inj a b h g e = omega arith

-- Two messages that differ in exactly one byte, whatever its place, have different checksums from any
-- start value.
pub esp_rom_crc32_le-ne :
    (crc x y : ℕ) (before after : List ℕ)
    → IsBytes before
    → IsBytes after
    → x < 256
    → y < 256
    → x ≢ y
    → esp_rom_crc32_le crc (before ++ (x ∷ after)) ≢ esp_rom_crc32_le crc (before ++ (y ∷ after))
unfolding esp_rom_crc32_le
esp_rom_crc32_le-ne crc x y before after hb ha p q ne e =
    let c = crc_bytes (not32 crc) before in
    let small = crc_bytes-lt before (not32 crc) (not32-lt crc) hb in
    let cx = crc_byte c x in
    let cy = crc_byte c y in
    let hx = crc_byte-lt c x small p in
    let hy = crc_byte-lt c y small q in
    let same =
      not32_inj (crc_bytes cx after) (crc_bytes cy after) (crc_bytes-lt after cx hx ha)
        (crc_bytes-lt after cy hy ha)
        (sym (ap not32 (crc_bytes-append before (x ∷ after) (not32 crc)))
          ∙ e
          ∙ ap not32 (crc_bytes-append before (y ∷ after) (not32 crc))) in
    let mixed = crc_byte_inj c c x y small small p q (crc_bytes_inj after cx cy hx hy ha same) in
    ne (sym (bit_xor_left c x) ∙ ap (bit_xor c) mixed ∙ bit_xor_left c y)

-- Checksums chain: going on from the checksum of a prefix is the checksum of the whole.
esp_rom_crc32_le-append :
    (crc : ℕ) (xs ys : List ℕ)
    → IsBytes xs
    → esp_rom_crc32_le (esp_rom_crc32_le crc xs) ys ≡ esp_rom_crc32_le crc (xs ++ ys)
unfolding esp_rom_crc32_le
esp_rom_crc32_le-append crc xs ys h =
    let small = crc_bytes-lt xs (not32 crc) (not32-lt crc) h in
    ap (λ t. not32 (crc_bytes t ys)) (twice (crc_bytes (not32 crc) xs) small)
    ∙ sym (ap not32 (crc_bytes-append xs ys (not32 crc)))
  where
    twice : (c : ℕ) → c < 2 ^ 32 → not32 (not32 c) ≡ c
    twice c l = omega arith
