-- ===== src/LittleFs/Inspect/Kept.antt =====
-- What the classification of lfs_inspect.c leaves as it was: the geometry, and the sizes of the chip and
-- of the classes.
use flash_vis.Common.{
  ℕ, zero, suc, ◌/◌, ◌*◌, ◌%◌, ◌^◌, Bool, true, false, not, List, [], ◌∷◌, length, set, Option,
  none, some, ℤ, pos, eqb_ℤ, if◌then◌else◌, ◌==◌, ltb, ◌≡◌, refl, ◌∙◌, length-set,
}
use flash_vis.Nor
use flash_vis.Nor.{Nor}
use flash_vis.Nor.Laws.{length-and_bytes, length-erase_from}
use flash_vis.Abi.Backend.{ret, read, program, erase, run}
use flash_vis.LittleFs.{Core, Shim, Call, be_read, be_prog, be_erase, callbacks, call}
use flash_vis.LittleFs.Inspect.{
  Pair, Internals, Tortoise, Struct, nothing, fails, ctz_list, directory, mark_block, mark_pair,
  mark_live, fetch_call, get_call, traverse_call, struct_of, classify_ids, classify_pairs,
  has_blocks, traverse_if, classify_open, first_tortoise, classify_live, advance,
}

keep_if {ℓ} :
    {A : Type 0} (P : A → Type ℓ) (b : Bool) (x y : A) → P x → P y → P (if b then x else y)
keep_if P true x y p q = p
keep_if P false x y p q = q

length-mark_block : (count cls b : ℕ) (bc : List ℕ) → length (mark_block count cls b bc) ≡ length bc
unfolding mark_block
length-mark_block count cls b bc =
    keep_if (λ x. length x ≡ length bc) (ltb b count) (set bc b cls) bc (length-set bc b cls) refl

length-mark_pair : (count : ℕ) (p : Pair) (bc : List ℕ) → length (mark_pair count p bc) ≡ length bc
unfolding mark_pair
length-mark_pair count (a, b) bc = length-mark_block count _ b _ ∙ length-mark_block count _ a bc

length-mark_live : (count : ℕ) (bs bc : List ℕ) → length (mark_live count bs bc) ≡ length bc
unfolding mark_live
length-mark_live count [] bc = refl
length-mark_live count (b ∷ bs) bc =
    length-mark_live count bs (mark_block count _ b bc) ∙ length-mark_block count _ b bc

module _ (C : Core) where
  -- No request changes the size of the chip.
  length-run :
      {A : Type 0} (quiet : Bool) (size : ℕ) (m : Call A) (d : Nor)
      → length (run (callbacks C quiet size) m d).1.flash ≡ length d.flash
  unfolding run callbacks be_read be_prog be_erase Nor.read Nor.read_quiet Nor.prog Nor.erase
  length-run quiet size (ret a) d = refl
  length-run true size (read p buf k) d = length-run true size (k _ _) d
  length-run false size (read p buf k) d = length-run false size (k _ _) _
  length-run quiet size (program p src k) d =
      length-run quiet size (k _) _ ∙ length-and_bytes _ src d.flash
  length-run quiet size (erase e k) d =
      length-run quiet size (k _) _
      ∙ length-erase_from (Nor.erase_rounds d.sector_size (e * size % 2 ^ 32) size)
          (e * size % 2 ^ 32 / d.sector_size) d

  module _ (count size bytes : ℕ) where
    pub record Kept (bc : List ℕ) (s : Shim C) : Type 0 where
      pub classes : length bc ≡ 256
      pub same_count : s.sector_count ≡ count
      pub same_size : s.sector_size ≡ size
      pub chip : length s.nor.flash ≡ bytes

    call-Kept :
        {A : Type 0} (m : Call A) (bc : List ℕ) (s : Shim C) → Kept bc s → Kept bc (call C m s).1
    unfolding call
    call-Kept m bc s k = record {
      classes = k.classes;
      same_count = k.same_count;
      same_size = k.same_size;
      chip = length-run s.quiet s.sector_size m s.nor ∙ k.chip;
    }

    with_classes : (bc bc' : List ℕ) (s : Shim C) → length bc' ≡ length bc → Kept bc s → Kept bc' s
    with_classes bc bc' s e k = record {
      classes = e ∙ k.classes;
      same_count = k.same_count;
      same_size = k.same_size;
      chip = k.chip;
    }

    with_lfs :
        (lfs : C.Lfs) (bc : List ℕ) (s : Shim C) → Kept bc s → Kept bc (record s { lfs = lfs })
    with_lfs lfs bc s k = record {
      classes = k.classes;
      same_count = k.same_count;
      same_size = k.same_size;
      chip = k.chip;
    }

    module _ (I : Internals C) where
      fetch_call-Kept :
          (dir : I.Mdir) (at : Pair) (bc : List ℕ) (s : Shim C)
          → Kept bc s
          → Kept bc (fetch_call C I dir at s).2
      unfolding fetch_call
      fetch_call-Kept dir at bc s k = with_lfs _ bc _ (call-Kept (I.dir_fetch s.lfs dir at) bc s k)

      get_call-Kept :
          (dir : I.Mdir) (id : ℕ) (bc : List ℕ) (s : Shim C)
          → Kept bc s
          → Kept bc (get_call C I dir id s).2
      unfolding get_call
      get_call-Kept dir id bc s k =
          with_lfs _ bc _ (call-Kept (I.dir_get s.lfs dir I.type_struct id) bc s k)

      traverse_call-Kept :
          (f : Option I.Open) (head len : ℕ) (bc : List ℕ) (s : Shim C)
          → Kept bc s
          → Kept bc (traverse_call C I f head len s).2
      unfolding traverse_call
      traverse_call-Kept f head len bc s k =
          with_lfs _ bc _ (call-Kept (I.ctz_traverse s.lfs f head len) bc s k)

      classify_ids-Kept :
          (n id : ℕ) (dir : I.Mdir) (bc : List ℕ) (s : Shim C)
          → Kept bc s
          → let (rc, bc', s') = classify_ids C I n id dir bc s in Kept bc' s'
      unfolding classify_ids
      classify_ids-Kept zero id dir bc s k = k
      classify_ids-Kept (suc n) id dir bc s k =
          by_struct (λ bc' s' k'. classify_ids-Kept n (suc id) dir bc' s' k')
            (struct_of C I (get_call C I dir id s).0 (get_call C I dir id s).1)
        where
          P : ℤ × List ℕ × Shim C → Type 0
          P r = Kept r.1 r.2

          s₁ : Shim C
          s₁ = (get_call C I dir id s).2

          k₁ : Kept bc s₁
          k₁ = get_call-Kept dir id bc s k

          by_struct :
              ((bc' : List ℕ) (s' : Shim C)
                → Kept bc' s'
                → P (classify_ids C I n (suc id) dir bc' s'))
              → (x : Struct)
              → P (elim x as (λ y. ℤ × List ℕ × Shim C) [
                | nothing ↦ classify_ids C I n (suc id) dir bc s₁
                | fails e ↦ (e, bc, s₁)
                | ctz_list ctz ↦
                    let (err, blocks, s'') = traverse_call C I none ctz.0 ctz.1 s₁ in
                    let bc' = mark_live s.sector_count blocks bc in
                    if eqb_ℤ err (pos 0)
                    then classify_ids C I n (suc id) dir bc' s''
                    else (err, bc', s'')
                | directory pair ↦
                    classify_ids C I n (suc id) dir (mark_pair s.sector_count pair bc) s₁
              ])
          by_struct ih nothing = ih bc s₁ k₁
          by_struct ih (fails e) = k₁
          by_struct ih (ctz_list ctz) =
              let (err, blocks, s'') = traverse_call C I none ctz.0 ctz.1 s₁ in
              let bc' = mark_live s.sector_count blocks bc in
              let k' =
                with_classes bc bc' s'' (length-mark_live s.sector_count blocks bc)
                  (traverse_call-Kept none ctz.0 ctz.1 bc s₁ k₁) in
              keep_if P (eqb_ℤ err (pos 0)) _ (err, bc', s'') (ih bc' s'' k') k'
          by_struct ih (directory pair) =
              ih (mark_pair s.sector_count pair bc) s₁
                (with_classes bc _ s₁ (length-mark_pair s.sector_count pair bc) k₁)

      classify_pairs-Kept :
          (fuel : ℕ) (t : Tortoise) (dir : I.Mdir) (bc : List ℕ) (s : Shim C)
          → Kept bc s
          → let (rc, bc', s') = classify_pairs C I fuel t dir bc s in Kept bc' s'
      unfolding classify_pairs
      classify_pairs-Kept zero t dir bc s k = k
      classify_pairs-Kept (suc fuel) t dir bc s k =
          let at = I.tail dir in
          let bc' = mark_pair s.sector_count at bc in
          let k' = with_classes bc bc' s (length-mark_pair s.sector_count at bc) k in
          let (err, dir', s₁) = fetch_call C I dir at s in
          let k₁ = fetch_call-Kept dir at bc' s k' in
          let (err', bc'', s₂) = classify_ids C I (I.count dir') 0 dir' bc' s₁ in
          let k₂ = classify_ids-Kept (I.count dir') 0 dir' bc' s₁ k₁ in
          let P : Option ℤ × List ℕ × Shim C → Type 0 = λ r. Kept r.1 r.2 in
          keep_if P (I.pair_isnull at) (some (pos 0), bc, s) _ k
            (keep_if P (I.pair_issync at t.at) (some I.err_corrupt, bc, s) _ k
              (keep_if P (not (eqb_ℤ err (pos 0))) (some err, bc', s₁) _ k₁
                (keep_if P (not (eqb_ℤ err' (pos 0))) (some err', bc'', s₂) _ k₂
                  (classify_pairs-Kept fuel (advance at t) dir' bc'' s₂ k₂))))

      traverse_if-Kept :
          (wanted : Bool) (f : I.Open) (head len : ℕ) (bc : List ℕ) (s : Shim C)
          → Kept bc s
          → let (rc, bc', s') = traverse_if C I wanted f head len bc s in Kept bc' s'
      unfolding traverse_if
      traverse_if-Kept wanted f head len bc s k =
          let (err, blocks, s') = traverse_call C I (some f) head len s in
          keep_if (λ (r : ℤ × List ℕ × Shim C). Kept r.1 r.2) wanted
            (err, mark_live s.sector_count blocks bc, s') (pos 0, bc, s)
            (with_classes bc _ s' (length-mark_live s.sector_count blocks bc)
              (traverse_call-Kept (some f) head len bc s k))
            k

      classify_open-Kept :
          (fs : List I.Open) (bc : List ℕ) (s : Shim C)
          → Kept bc s
          → let (rc, bc', s') = classify_open C I fs bc s in Kept bc' s'
      unfolding classify_open
      classify_open-Kept [] bc s k = k
      classify_open-Kept (f ∷ fs) bc s k =
          let ctz = I.open_ctz f in
          let (err, bc₁, s₁) = traverse_if C I (has_blocks C I I.f_dirty f) f ctz.0 ctz.1 bc s in
          let k₁ = traverse_if-Kept (has_blocks C I I.f_dirty f) f ctz.0 ctz.1 bc s k in
          let (err', bc₂, s₂) =
            traverse_if C I (has_blocks C I I.f_writing f) f (I.open_block f) (I.open_pos f) bc₁
              s₁ in
          let k₂ =
            traverse_if-Kept (has_blocks C I I.f_writing f) f (I.open_block f) (I.open_pos f) bc₁ s₁
              k₁ in
          let P : ℤ × List ℕ × Shim C → Type 0 = λ r. Kept r.1 r.2 in
          keep_if P (not (I.open_type f == C.type_reg)) (classify_open C I fs bc s) _
            (classify_open-Kept fs bc s k)
            (keep_if P (not (eqb_ℤ err (pos 0))) (err, bc₁, s₁) _ k₁
              (keep_if P (not (eqb_ℤ err' (pos 0))) (err', bc₂, s₂) _ k₂
                (classify_open-Kept fs bc₂ s₂ k₂)))

      pub classify_live-Kept :
          (fuel : ℕ) (bc : List ℕ) (s : Shim C)
          → Kept bc s
          → let (r, bc', s') = classify_live C I fuel bc s in Kept bc' s'
      unfolding classify_live
      classify_live-Kept fuel bc s k =
          by_result (classify_pairs C I fuel (first_tortoise C I) (I.mdir_of_tail (0, 1)) bc s).0
        where
          walked : Option ℤ × List ℕ × Shim C
          walked = classify_pairs C I fuel (first_tortoise C I) (I.mdir_of_tail (0, 1)) bc s

          opened : ℤ × List ℕ × Shim C
          opened = classify_open C I (I.mlist walked.2.lfs) walked.1 walked.2

          k₁ : Kept walked.1 walked.2
          k₁ = classify_pairs-Kept fuel (first_tortoise C I) (I.mdir_of_tail (0, 1)) bc s k

          P : Option ℤ × List ℕ × Shim C → Type 0
          P r = Kept r.1 r.2

          by_result :
              (r : Option ℤ)
              → P (elim r as (λ y. Option ℤ × List ℕ × Shim C) [
                | none ↦ (none, walked.1, walked.2)
                | some e ↦
                    if eqb_ℤ e (pos 0)
                    then (some opened.0, opened.1, opened.2)
                    else (some e, walked.1, walked.2)
              ])
          by_result none = k₁
          by_result (some e) =
              keep_if P (eqb_ℤ e (pos 0)) (some opened.0, opened.1, opened.2) _
                (classify_open-Kept (I.mlist walked.2.lfs) walked.1 walked.2 k₁) k₁
