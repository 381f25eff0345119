-- ===== src/FatFs/Inspect/Fat12.antt =====
-- bindings/fatfs/fat_inspect.cpp: the decoding of the FAT, against the encoding of FAT12: two entries of
-- twelve bits in three bytes.
use flash_vis.Common.{
  ℕ, zero, suc, ◌+◌, ◌*◌, ◌/◌, ◌%◌, ◌^◌, ◌<◌, false, not, List, [], ◌∷◌, length, get_or,
  if◌then◌else◌, ◌==◌, leb, leb→le, ◌≡◌, arith, ap, ◌∙◌, bit_and-mask,
}
use flash_vis.FatFs.Inspect.{fat12_entry}

unfoldable pub pack : List ℕ → List ℕ
pack [] = []
pack (a ∷ []) = (a % 256) ∷ (a / 256) ∷ []
pack (a ∷ b ∷ es) = (a % 256) ∷ (a / 256 + b % 16 * 16) ∷ (b / 16) ∷ pack es

abbrev pub IsEntries : List ℕ → Type 0
IsEntries es = (i : ℕ) → i < length es → get_or es i 0 < 2 ^ 12

-- The two bytes from `ofs`.
abbrev word_at : List ℕ → ℕ → ℕ
word_at fat ofs = get_or fat ofs 0 + get_or fat (ofs + 1) 0 * 2 ^ 8

abbrev decoded : ℕ → ℕ → ℕ
decoded c v = if not (c % 2 == 0) then v / 2 ^ 4 else v % 2 ^ 12

decoded_next : (c v : ℕ) → decoded (suc (suc c)) v ≡ decoded c v
decoded_next c v =
    ap (λ r. if not (r == 0) then v / 2 ^ 4 else v % 2 ^ 12) {y = c % 2} (omega arith)

offset_next : (c : ℕ) → suc (suc c) + suc (suc c) / 2 ≡ suc (suc (suc (c + c / 2)))
offset_next c = omega arith

word_next :
    (x y z : ℕ) (fat : List ℕ) (o : ℕ)
    → word_at (x ∷ y ∷ z ∷ fat) (suc (suc (suc o))) ≡ word_at fat o
word_next x y z fat o =
    ap (λ k. get_or fat o 0 + get_or (x ∷ y ∷ z ∷ fat) k 0 * 2 ^ 8) {x = suc (suc (suc o)) + 1}
      {y = suc (suc (suc (o + 1)))} (omega arith)

decoded-pack :
    (es : List ℕ) (c : ℕ)
    → IsEntries es
    → c < length es
    → decoded c (word_at (pack es) (c + c / 2)) ≡ get_or es c 0
unfolding pack
decoded-pack [] c p h = absurd (omega arith)
decoded-pack (a ∷ []) zero p h = omega (arith, p 0 (omega arith))
decoded-pack (a ∷ []) (suc c) p h = absurd (omega arith)
decoded-pack (a ∷ b ∷ es) zero p h = omega (arith, p 0 (omega arith))
decoded-pack (a ∷ b ∷ es) (suc zero) p h = omega (arith, p 0 (omega arith), p 1 (omega arith))
decoded-pack (a ∷ b ∷ es) (suc (suc c)) p h =
    decoded_next c _
    ∙ ap (λ o. decoded c (word_at (pack (a ∷ b ∷ es)) o)) (offset_next c)
    ∙ ap (decoded c) (word_next _ _ _ (pack es) (c + c / 2))
    ∙ decoded-pack es c (λ i l. p (suc (suc i)) (omega (arith, l))) (omega (arith, h))

pack_reaches : (es : List ℕ) (c : ℕ) → c < length es → c + c / 2 + 1 < length (pack es)
unfolding pack
pack_reaches [] c h = absurd (omega arith)
pack_reaches (a ∷ []) c h = omega arith
pack_reaches (a ∷ b ∷ es) zero h = omega arith
pack_reaches (a ∷ b ∷ es) (suc zero) h = omega arith
pack_reaches (a ∷ b ∷ es) (suc (suc c)) h = omega (arith, pack_reaches es c (omega (arith, h)))

le_false : (m n : ℕ) → n < m → leb m n ≡ false
le_false m n h = ground (arith, leb→le m n)

-- Whatever entries of twelve bits a FAT holds, packed as FAT12 packs them, the decoder gives back each of
-- them, on even and on odd places, the last one included.
pub fat12_entry-pack :
    (es : List ℕ) (c : ℕ)
    → IsEntries es
    → c < length es
    → length es < 2 ^ 31
    → fat12_entry (pack es) (length (pack es)) c ≡ get_or es c 0
unfolding fat12_entry
fat12_entry-pack es c p h g =
    let small : (c + c / 2) % 2 ^ 32 ≡ c + c / 2 = omega arith in
    let next : (c + c / 2 + 1) % 2 ^ 32 ≡ c + c / 2 + 1 = omega arith in
    let inside = le_false (length (pack es)) (c + c / 2 + 1) (pack_reaches es c h) in
    rw (small, next, inside, bit_and-mask 1 c) (decoded-pack es c p h)
