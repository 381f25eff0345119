-- ===== src/Nor/Traffic.antt =====
-- Sequences of chip operations: what a read returns, what a silent read leaves alone, how wear is
-- counted, and that data programmed over an erased range is read back.
use native.Mathlib.Nat.{le-div_iff_mul-le}
use flash_vis.Common.{
  ℕ, zero, suc, ◌+◌, ◌-◌, ◌*◌, ◌/◌, ◌%◌, ◌^◌, ◌≤◌, ◌<◌, List, [], ◌∷◌, drop-drop, ◌++◌, overlay,
  length, get_or, take, drop, ◌≡◌, refl, ap, ◌∙◌, arith, if◌then◌else◌, leb, ltb, ◌&&◌,
  length-overlay, get_or-overlay, length-take, length-drop, get_or-take, get_or-drop, length-set,
  IsBytes, bit_and_ones, ext,
}
use flash_vis.Nor.{
  Nor, read, read_quiet, prog, erase, erase_from, erase_sector, erase_rounds, subarray,
}
use flash_vis.Nor.Laws.{
  byte, byte-prog, byte-erase, length-and_bytes, length-erase_from, get_or-set_if, rounds_end,
  floor_bounds,
}

pub length-subarray :
    (flash : List ℕ) (off : ℕ) (buf : List ℕ) → length (subarray flash off buf) ≡ length buf
unfolding subarray
length-subarray flash off buf = length-overlay (take (length buf) (drop off flash)) buf

pub get_or-subarray :
    (flash : List ℕ) (off : ℕ) (buf : List ℕ) (i : ℕ)
    → i < length buf
    → off + i < length flash
    → get_or (subarray flash off buf) i 255 ≡ get_or flash (off + i) 255
unfolding subarray
get_or-subarray flash off buf i h g = ground (
  arith,
  get_or-overlay (take (length buf) (drop off flash)) buf i 255 h,
  length-take (length buf) (drop off flash),
  length-drop off flash,
  get_or-take (length buf) (drop off flash) i 255 h,
  get_or-drop off flash i 255,
)

-- A read fills the whole buffer from the chip where the range lies inside it, reports success, and
-- leaves bytes and wear alone; a silent read returns the same and changes nothing at all.
pub read_lem :
    (d : Nor) (off : ℕ) (buf : List ℕ)
    → off + length buf ≤ length d.flash
    → ((i : ℕ) → i < length buf → get_or (read off buf d).1 i 255 ≡ byte d (off + i))
      × (length (read off buf d).1 ≡ length buf)
      × ((read off buf d).2.flash ≡ d.flash)
      × ((read off buf d).2.wear ≡ d.wear)
      × ((read off buf d).2.stats.reads ≡ d.stats.reads + 1)
      × (read_quiet off buf d ≡ ((read off buf d).0, (read off buf d).1, d))
unfolding read read_quiet
read_lem d off buf h = (
  λ i l. get_or-subarray d.flash off buf i l (omega arith),
  length-subarray d.flash off buf,
  refl,
  refl,
  refl,
  refl,
)

overlay-append :
    (xs b₁ b₂ : List ℕ)
    → overlay (take (length (b₁ ++ b₂)) xs) (b₁ ++ b₂)
      ≡ overlay (take (length b₁) xs) b₁ ++ overlay (take (length b₂) (drop (length b₁) xs)) b₂
unfolding overlay
overlay-append xs [] b₂ = refl
overlay-append [] (b ∷ b₁) [] = refl
overlay-append [] (b ∷ b₁) (b' ∷ b₂) = refl
overlay-append (x ∷ xs) (b ∷ b₁) b₂ = ap (◌∷◌ x) (overlay-append xs b₁ b₂)

-- Two transfers, the second from where the first ended, read what one transfer of both sizes does.
pub subarray-append :
    (flash : List ℕ) (off : ℕ) (b₁ b₂ : List ℕ)
    → subarray flash off (b₁ ++ b₂) ≡ subarray flash off b₁ ++ subarray flash (off + length b₁) b₂
unfolding subarray
subarray-append flash off b₁ b₂ =
    rw (← drop-drop off (length b₁) flash) (overlay-append (drop off flash) b₁ b₂)

div-le-lt : (a s n : ℕ) → 0 < n → leb (a / n) s ≡ ltb a (s * n + n)
div-le-lt a s n h = ground (arith, floor_bounds a n h, le-div_iff_mul-le {x = suc s} {y = a} h)

wear-erase_from :
    (n s : ℕ) (d : Nor) (k : ℕ)
    → k < length d.wear
    → get_or (erase_from n s d).wear k 0
      ≡ (if leb s k && ltb k (s + n) then (get_or d.wear k 0 + 1) % 2 ^ 32 else get_or d.wear k 0)
unfolding erase_from erase_sector
wear-erase_from zero s d k h = ground arith
wear-erase_from (suc n) s d k h = ground (
  arith,
  wear-erase_from n (suc s) (erase_sector s d) k
      (rw (length-set d.wear s ((get_or d.wear s 0 + 1) % 2 ^ 32)) h),
  get_or-set_if d.wear s k ((get_or d.wear s 0 + 1) % 2 ^ 32) 0 h,
  ap (λ j. get_or d.wear j 0) {x = s} {y = k},
)

-- Erasing `len > 0` bytes adds one erase cycle, modulo 2^32, to each sector that the range meets,
-- and to no other sector.
pub wear-erase :
    (d : Nor) (off len s : ℕ)
    → 0 < d.sector_size
    → 0 < len
    → s < length d.wear
    → get_or (erase off len d).1.wear s 0 ≡ (
        if ltb off (s * d.sector_size + d.sector_size) && ltb (s * d.sector_size) (off + len)
        then (get_or d.wear s 0 + 1) % 2 ^ 32
        else get_or d.wear s 0)
unfolding erase
wear-erase d off len s h l k =
    let n = d.sector_size in
    ground (
      arith,
      wear-erase_from (erase_rounds n off len) (off / n) d s k,
      rounds_end n off len h l,
      div-le-lt off s n h,
      le-div_iff_mul-le {x = s} {y = off + len - 1} h,
    )

length-prog : (d : Nor) (off : ℕ) (src : List ℕ) → length (prog off src d).1.flash ≡ length d.flash
unfolding prog
length-prog d off src = length-and_bytes off src d.flash

length-erase : (d : Nor) (off len : ℕ) → length (erase off len d).1.flash ≡ length d.flash
unfolding erase
length-erase d off len =
    length-erase_from (erase_rounds d.sector_size off len) (off / d.sector_size) d

pub get_or_default : (xs : List ℕ) (i a b : ℕ) → i < length xs → get_or xs i a ≡ get_or xs i b
get_or_default [] i a b h = absurd (omega arith)
get_or_default (x ∷ xs) zero a b h = refl
get_or_default (x ∷ xs) (suc i) a b h = get_or_default xs i a b (omega arith)

-- One byte of a range that is erased and then programmed.
byte-prog-erase :
    (d : Nor) (off : ℕ) (src : List ℕ) (i : ℕ)
    → 0 < d.sector_size
    → off + length src ≤ length d.flash
    → IsBytes src
    → i < length src
    → byte (prog off src (erase off (length src) d).1).1 (off + i) ≡ get_or src i 255
byte-prog-erase d off src i h fits bytes l =
    let k : off + i - off ≡ i = omega arith in
    ground (
      arith,
      byte-prog (erase off (length src) d).1 off src (off + i),
      length-erase d off (length src),
      byte-erase d off (length src) (off + i) h,
      floor_bounds (off + i) d.sector_size h,
      get_or_default src i 0 255 l,
      bytes i l,
      ap (λ j. get_or src j 255) k,
      bit_and_ones (get_or src i 255),
    )

-- What is programmed over a range that was erased before is read back, byte for byte.
pub read-prog-erase :
    (d : Nor) (off : ℕ) (src buf : List ℕ)
    → 0 < d.sector_size
    → off + length src ≤ length d.flash
    → length buf ≡ length src
    → IsBytes src
    → (read off buf (prog off src (erase off (length src) d).1).1).1 ≡ src
read-prog-erase d off src buf h fits e bytes = ext _ src 255 (got.1 ∙ e) λ i l.
    let l' : i < length src = omega (arith, got.1 ∙ e) in
    got.0 i (omega arith) ∙ byte-prog-erase d off src i h fits bytes l'
  where
    clean : Nor
    clean = (erase off (length src) d).1

    written : Nor
    written = (prog off src clean).1

    size : length written.flash ≡ length d.flash
    size = length-prog clean off src ∙ length-erase d off (length src)

    got :
        ((i : ℕ) → i < length buf → get_or (read off buf written).1 i 255 ≡ byte written (off + i))
        × (length (read off buf written).1 ≡ length buf)
    got = let r = read_lem written off buf (omega (arith, size)) in (r.0, r.1)
