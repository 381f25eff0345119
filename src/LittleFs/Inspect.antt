-- ===== src/LittleFs/Inspect.antt =====
-- bindings/littlefs/lfs_inspect.c: the class of each block, by a walk along the metadata pairs, and the
-- live map. What the walk takes from lfs.c, which is in a git submodule, is the record `Internals`.
pub mod Walk
pub mod Kept
pub mod Scan
mod Tests
pub mod Classes
use flash_vis.Common.{
  ℕ, zero, suc, ◌+◌, ◌*◌, ◌/◌, ◌%◌, ◌^◌, bit_and, Bool, true, false, not, ◌&&◌, ◌||◌, List, [], ◌∷◌,
  ◌++◌, get_or, set, take, drop, replicate, Option, none, some, ℤ, pos, is_neg, pos_part, eqb_ℤ,
  if◌then◌else◌, ◌==◌, ltb,
}
use flash_vis.Nor
use flash_vis.Abi.Blank.{blank_from}
use flash_vis.Abi.Spread.{spread_from}
use flash_vis.LittleFs.{Core, Shim, Call, call}

abbrev pub cls_erased : ℕ
cls_erased = 0

abbrev pub cls_meta : ℕ
cls_meta = 1

abbrev pub cls_obsolete : ℕ
cls_obsolete = 2

abbrev pub cls_live : ℕ
cls_live = 3

-- A pair of blocks, and the head and size of a CTZ list.
abbrev pub Pair : Type 0
Pair = ℕ × ℕ

-- The static functions of lfs.c. `Mdir` is lfs_mdir_t, `Open` an entry of the list of open files.
-- lfs_ctz_traverse returns the blocks on which it called back, in order; the callback always returns 0.
pub record Internals (C : Core) : Type 1 where
  pub Mdir : Type 0
  pub Open : Type 0
  pub block_null : ℕ
  pub err_corrupt : ℤ
  pub type_struct : ℕ
  pub type_ctzstruct : ℕ
  pub type_dirstruct : ℕ
  pub f_dirty : ℕ
  pub f_writing : ℕ
  pub f_inline : ℕ
  pub pair_isnull : Pair → Bool
  pub pair_issync : Pair → Pair → Bool
  pub mdir_of_tail : Pair → Mdir
  pub tail : Mdir → Pair
  pub count : Mdir → ℕ
  pub tag_type3 : ℕ → ℕ
  pub ctz_fromle32 : Pair → Pair
  pub dir_fetch : C.Lfs → Mdir → Pair → Call (ℤ × Mdir × C.Lfs)
  pub dir_get : C.Lfs → Mdir → ℕ → ℕ → Call (ℤ × Pair × C.Lfs)
  pub ctz_traverse : C.Lfs → Option Open → ℕ → ℕ → Call (ℤ × List ℕ × C.Lfs)
  pub mlist : C.Lfs → List Open
  pub open_type : Open → ℕ
  pub open_flags : Open → ℕ
  pub open_ctz : Open → Pair
  pub open_block : Open → ℕ
  pub open_pos : Open → ℕ

-- `if (block < g_sector_count) bc[block] = cls;`
unfoldable pub mark_block : ℕ → ℕ → ℕ → List ℕ → List ℕ
mark_block count cls block bc = if ltb block count then set bc block cls else bc

unfoldable pub mark_pair : ℕ → Pair → List ℕ → List ℕ
unfolding mark_block
mark_pair count (a, b) bc = mark_block count cls_meta b (mark_block count cls_meta a bc)

-- mark_live_cb on each block of a traversal.
unfoldable pub mark_live : ℕ → List ℕ → List ℕ → List ℕ
mark_live count [] bc = bc
mark_live count (b ∷ bs) bc = mark_live count bs (mark_block count cls_live b bc)

-- The variables of the cycle detection.
pub record Tortoise : Type 0 where
  pub at : Pair
  pub i : ℕ
  pub period : ℕ

-- `if (tortoise_i == tortoise_period) { ... } tortoise_i += 1;`
unfoldable pub advance : Pair → Tortoise → Tortoise
advance tail t =
    if t.i == t.period
    then record { at = tail; i = 1; period = t.period * 2 % 2 ^ 32 }
    else record t { i = (t.i + 1) % 2 ^ 32 }

-- What an id of a metadata pair stands for.
pub data Struct : Type 0 where
  nothing : Struct
  fails : ℤ → Struct
  ctz_list : Pair → Struct
  directory : Pair → Struct

module _ (C : Core) (I : Internals C) where
  unfoldable pub fetch_call : I.Mdir → Pair → Shim C → ℤ × I.Mdir × Shim C
  fetch_call dir at s =
      let ((rc, dir', lfs'), s') = call C (I.dir_fetch s.lfs dir at) s in
      (rc, dir', record s' { lfs = lfs' })

  unfoldable pub get_call : I.Mdir → ℕ → Shim C → ℤ × Pair × Shim C
  get_call dir id s =
      let ((tag, raw, lfs'), s') = call C (I.dir_get s.lfs dir I.type_struct id) s in
      (tag, raw, record s' { lfs = lfs' })

  unfoldable pub traverse_call : Option I.Open → ℕ → ℕ → Shim C → ℤ × List ℕ × Shim C
  traverse_call f head size s =
      let ((rc, blocks, lfs'), s') = call C (I.ctz_traverse s.lfs f head size) s in
      (rc, blocks, record s' { lfs = lfs' })

  unfoldable pub struct_of : ℤ → Pair → Struct
  struct_of tag raw =
      let ctz = I.ctz_fromle32 raw in
      let type = I.tag_type3 (pos_part tag) in
      if is_neg tag
      then (if eqb_ℤ tag C.err_noent then nothing else fails tag)
      else if type == I.type_ctzstruct
      then ctz_list ctz
      else if type == I.type_dirstruct
      then directory ctz
      else nothing

  -- The loop over the ids of a fetched pair, with `n` left from `id`.
  unfoldable pub classify_ids : ℕ → ℕ → I.Mdir → List ℕ → Shim C → ℤ × List ℕ × Shim C
  classify_ids zero id dir bc s = (pos 0, bc, s)
  classify_ids (suc n) id dir bc s =
      let (tag, raw, s') = get_call dir id s in
      elim (struct_of tag raw) [
        | nothing ↦ classify_ids n (suc id) dir bc s'
        | fails e ↦ (e, bc, s')
        | ctz_list ctz ↦
            let (err, blocks, s'') = traverse_call none ctz.0 ctz.1 s' in
            let bc' = mark_live s.sector_count blocks bc in
            let rest = classify_ids n (suc id) dir bc' s'' in
            if eqb_ℤ err (pos 0) then rest else (err, bc', s'')
        | directory pair ↦ classify_ids n (suc id) dir (mark_pair s.sector_count pair bc) s'
      ]

  -- The loop over the metadata pairs. It ends by itself; `none` stands for rounds beyond the fuel.
  unfoldable pub classify_pairs :
      ℕ → Tortoise → I.Mdir → List ℕ → Shim C → Option ℤ × List ℕ × Shim C
  classify_pairs zero t dir bc s = (none, bc, s)
  classify_pairs (suc fuel) t dir bc s =
      let at = I.tail dir in
      let bc' = mark_pair s.sector_count at bc in
      let (err, dir', s₁) = fetch_call dir at s in
      let (err', bc'', s₂) = classify_ids (I.count dir') 0 dir' bc' s₁ in
      let rest = classify_pairs fuel (advance at t) dir' bc'' s₂ in
      if I.pair_isnull at
      then (some (pos 0), bc, s)
      else if I.pair_issync at t.at
      then (some I.err_corrupt, bc, s)
      else if not (eqb_ℤ err (pos 0))
      then (some err, bc', s₁)
      else if not (eqb_ℤ err' (pos 0))
      then (some err', bc'', s₂)
      else rest

  -- `(f->flags & flag) && !(f->flags & LFS_F_INLINE)`
  unfoldable pub has_blocks : ℕ → I.Open → Bool
  has_blocks flag f =
      not (bit_and (I.open_flags f) flag == 0) && bit_and (I.open_flags f) I.f_inline == 0

  -- A traversal for an open file, where its flag is set.
  unfoldable pub traverse_if : Bool → I.Open → ℕ → ℕ → List ℕ → Shim C → ℤ × List ℕ × Shim C
  traverse_if wanted f head size bc s =
      let (err, blocks, s') = traverse_call (some f) head size s in
      if wanted then (err, mark_live s.sector_count blocks bc, s') else (pos 0, bc, s)

  unfoldable pub classify_open : List I.Open → List ℕ → Shim C → ℤ × List ℕ × Shim C
  classify_open [] bc s = (pos 0, bc, s)
  classify_open (f ∷ fs) bc s =
      let ctz = I.open_ctz f in
      let (err, bc₁, s₁) = traverse_if (has_blocks I.f_dirty f) f ctz.0 ctz.1 bc s in
      let (err', bc₂, s₂) =
        traverse_if (has_blocks I.f_writing f) f (I.open_block f) (I.open_pos f) bc₁ s₁ in
      let skip = classify_open fs bc s in
      let rest = classify_open fs bc₂ s₂ in
      if not (I.open_type f == C.type_reg)
      then skip
      else if not (eqb_ℤ err (pos 0))
      then (err, bc₁, s₁)
      else if not (eqb_ℤ err' (pos 0))
      then (err', bc₂, s₂)
      else rest

  abbrev pub first_tortoise : Tortoise
  first_tortoise = record { at = (I.block_null, I.block_null); i = 1; period = 1 }

  unfoldable pub classify_live : ℕ → List ℕ → Shim C → Option ℤ × List ℕ × Shim C
  classify_live fuel bc s =
      let (r, bc', s') = classify_pairs fuel first_tortoise (I.mdir_of_tail (0, 1)) bc s in
      let (err, bc'', s'') = classify_open (I.mlist s'.lfs) bc' s' in
      elim r [
        | none ↦ (none, bc', s')
        | some e ↦ if eqb_ℤ e (pos 0) then (some err, bc'', s'') else (some e, bc', s')
      ]

  -- One round of the blank scan: the class of block `b`, and the buffer.
  unfoldable pub scan_block : ℕ → List ℕ → List ℕ → Shim C → List ℕ × List ℕ
  scan_block b bc block s =
      let block' =
        (Nor.read_quiet (b * s.sector_size % 2 ^ 32) (take s.sector_size block) s.nor).1
        ++ drop s.sector_size block in
      let class = if blank_from s.sector_size 0 block' then cls_erased else cls_obsolete in
      if not (get_or bc b 0 == cls_erased) then (bc, block) else (set bc b class, block')

  unfoldable pub scan_blocks : ℕ → ℕ → List ℕ → List ℕ → Shim C → List ℕ
  unfolding scan_block
  scan_blocks zero b bc block s = bc
  scan_blocks (suc n) b bc block s =
      let (bc', block') = scan_block b bc block s in scan_blocks n (suc b) bc' block' s

  -- The checks before the walk.
  unfoldable pub refuses : ℕ → Shim C → Bool
  refuses page_size s =
      ltb 256 s.sector_count
      || ltb 4096 s.sector_size
      || page_size == 0
      || not (s.sector_size % page_size == 0)

  -- `block` is what the static buffer holds from the call before.
  unfoldable pub ff_live_map : ℕ → List ℕ → List ℕ → ℕ → Shim C → Option ℤ × List ℕ × Shim C
  ff_live_map fuel block out page_size s =
      let (r, bc, s₁) = classify_live fuel (replicate 256 cls_erased) (record s { quiet = true }) in
      let bc' = scan_blocks s.sector_count 0 bc block s₁ in
      let s₂ : Shim C = record s₁ { quiet = false } in
      let per = s.sector_size / page_size in
      if not s.mounted || refuses page_size s then (some C.err_inval, out, s) else elim r [
        | none ↦ (none, out, s₂)
        | some e ↦
            if eqb_ℤ e (pos 0)
            then (some (pos 0), spread_from (s.sector_count * per % 2 ^ 32) 0 per bc' out, s₂)
            else (some e, out, s₂)
      ]
