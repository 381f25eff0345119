-- ===== src/Nor/Laws.antt =====
-- What the chip does to its bytes: reads change none, programs only clear bits, erases restore
-- whole sectors.
use flash_vis.Common.{
  Bool, ℕ, zero, suc, ◌+◌, ◌-◌, ◌*◌, ◌<◌, bit_and, List, [], ◌∷◌, length, ◌/◌, ◌≤◌, set, get_or,
  ◌*◌, length-fill, get_or-fill, ◌≡◌, refl, arith, if◌then◌else◌, leb, ltb, ◌&&◌, length-set,
  length-fill, get_or-fill, ap, ◌∙◌,
}
use native.Mathlib.Decide.{dec_le}
use native.Mathlib.Nat.{mul-le-mul_right, le-div_iff_mul-le, div-mul-le_self}
use flash_vis.Nor.{erase, erase_rounds, Nor, prog, erase_from, erase_sector, and_bytes}

-- The byte at an address; past the end it reads as erased.
abbrev pub byte : Nor → ℕ → ℕ
byte d i = get_or d.flash i 255

pub length-and_bytes :
    (off : ℕ) (src flash : List ℕ) → length (and_bytes off src flash) ≡ length flash
unfolding and_bytes
length-and_bytes off [] flash = refl
length-and_bytes off (b ∷ bs) flash = length-and_bytes (suc off) bs _ ∙ length-set flash off _

pub get_or-set_if :
    (xs : List ℕ) (i j v d : ℕ)
    → j < length xs
    → get_or (set xs i v) j d ≡ (if leb i j && leb j i then v else get_or xs j d)
get_or-set_if [] i j v d h = absurd (omega arith)
get_or-set_if (x ∷ xs) zero zero v d h = ground arith
get_or-set_if (x ∷ xs) zero (suc j) v d h = ground arith
get_or-set_if (x ∷ xs) (suc i) zero v d h = ground arith
get_or-set_if (x ∷ xs) (suc i) (suc j) v d h = ground (arith, get_or-set_if xs i j v d)

get_or-cons :
    (x : ℕ) (xs : List ℕ) (k d : ℕ)
    → get_or (x ∷ xs) k d ≡ (if leb k 0 then x else get_or xs (k - 1) d)
get_or-cons x xs zero d = ground arith
get_or-cons x xs (suc k) d =
    ground (arith, ap (λ j. get_or xs j d) {x = k} {y = suc k - 1} (omega arith))

pub get_or-and_bytes :
    (off : ℕ) (src flash : List ℕ) (i : ℕ)
    → i < length flash
    → get_or (and_bytes off src flash) i 255 ≡ (
        if leb off i && ltb i (off + length src)
        then bit_and (get_or flash i 255) (get_or src (i - off) 255)
        else get_or flash i 255)
unfolding and_bytes
get_or-and_bytes off [] flash i h = ground arith
get_or-and_bytes off (b ∷ bs) flash i h =
    let v = bit_and (get_or flash off 255) b in
    let k : i - off - 1 ≡ i - suc off = omega arith in
    ground (
      arith,
      get_or-and_bytes (suc off) bs (set flash off v) i (rw (length-set flash off v) h),
      get_or-set_if flash off i v 255 h,
      get_or-cons b bs (i - off) 255,
      ap (λ j. get_or bs j 255) k,
      ap (λ j. get_or flash j 255) {x = off} {y = i},
    )

-- Programming ANDs the source into the addressed bytes, and changes no other byte.
pub byte-prog :
    (d : Nor) (off : ℕ) (src : List ℕ) (i : ℕ)
    → i < length d.flash
    → byte (prog off src d).1 i ≡ (
        if leb off i && ltb i (off + length src)
        then bit_and (byte d i) (get_or src (i - off) 255)
        else byte d i)
unfolding prog
byte-prog d off src i h = get_or-and_bytes off src d.flash i h

pub length-erase_from : (n s : ℕ) (d : Nor) → length (erase_from n s d).flash ≡ length d.flash
unfolding erase_from
length-erase_from zero s d = refl
length-erase_from (suc n) s d =
    length-erase_from n (suc s) (erase_sector s d) ∙ length-fill 255 _ _ d.flash

byte-erase_sector :
    (s : ℕ) (d : Nor) (i : ℕ)
    → byte (erase_sector s d) i ≡ (
        if leb (s * d.sector_size) i && ltb i (s * d.sector_size + d.sector_size)
        then 255
        else byte d i)
unfolding erase_sector
byte-erase_sector s d i = get_or-fill 255 (s * d.sector_size) d.sector_size d.flash i

sector_size-erase_sector : (s : ℕ) (d : Nor) → (erase_sector s d).sector_size ≡ d.sector_size
unfolding erase_sector
sector_size-erase_sector s d = refl

byte-erase_from :
    (n s : ℕ) (d : Nor) (ss i : ℕ)
    → d.sector_size ≡ ss
    → byte (erase_from n s d) i ≡ (if leb (s * ss) i && ltb i ((s + n) * ss) then 255 else byte d i)
unfolding erase_from
byte-erase_from zero s d ss i e = ground arith
byte-erase_from (suc n) s d ss i e = ground (
  arith,
  byte-erase_from n (suc s) (erase_sector s d) ss i (sector_size-erase_sector s d ∙ e),
  byte-erase_sector s d i,
  ap (λ k. s * k) e,
)

pub floor_bounds : (x s : ℕ) → 0 < s → (x / s * s ≤ x) × (x < x / s * s + s)
floor_bounds x s h = grind arith

floor-lt : (a i s : ℕ) → 0 < s → leb (a / s * s) i ≡ ltb a (i / s * s + s)
floor-lt a i s h = elim (dec_le (a / s) (i / s)) [
  | yes p ↦ ground (arith, floor_bounds a s h, floor_bounds i s h, mul-le-mul_right s p)
  | no p ↦ ground (
    arith,
    floor_bounds a s h,
    floor_bounds i s h,
    mul-le-mul_right {m = suc (i / s)} {n = a / s} s (omega arith),
  )
]

-- The sector that holds address `i` meets the `len` bytes from `off`.
abbrev pub meets : ℕ → ℕ → ℕ → ℕ → Bool
meets ss off len i = ltb off (i / ss * ss + ss) && ltb (i / ss * ss) (off + len)

div_mono : (a b s : ℕ) → 0 < s → a ≤ b → a / s ≤ b / s
div_mono a b s h l = grind (arith, le-div_iff_mul-le h, div-mul-le_self a s)

pub rounds_end :
    (ss off len : ℕ)
    → 0 < ss
    → 0 < len
    → off / ss + erase_rounds ss off len ≡ suc ((off + len - 1) / ss)
unfolding erase_rounds
rounds_end ss off len h l = ground (arith, div_mono off (off + len - 1) ss h)

erase_from_meets :
    (ss off len i : ℕ)
    → 0 < ss
    → 0 < len
    → (leb (off / ss * ss) i && ltb i ((off / ss + erase_rounds ss off len) * ss))
      ≡ meets ss off len i
erase_from_meets ss off len i h l =
    rw (rounds_end ss off len h l)
      (ground (arith, floor-lt off i ss h, floor-lt i (off + len - 1) ss h))

-- Erasing `len > 0` bytes sets every byte of the sectors that the range meets to 0xFF, and changes
-- no other byte.
pub byte-erase :
    (d : Nor) (off len i : ℕ)
    → 0 < d.sector_size
    → 0 < len
    → byte (erase off len d).1 i ≡ (if meets d.sector_size off len i then 255 else byte d i)
unfolding erase
byte-erase d off len i h l =
    rw (← erase_from_meets d.sector_size off len i h l) (byte-erase_from _ _ d d.sector_size i refl)
