-- ===== src/Abi/Tests.antt =====
-- Runs of what the shims share.
use flash_vis.Common.{
  ℕ, ◌+◌, ◌≤◌, List, [], ◌∷◌, ◌++◌, length, replicate, ◌≡◌, refl, arith, take, drop, min, ◌⊎◌, none,
}
use flash_vis.Abi.Name.{
  copy_name, copy_size, c_string, IsText, after_slash, basename, NoSlash, copy_name_lem,
  basename_lem,
}
use flash_vis.Abi.Listing.{decimal, line, put_entry}
use flash_vis.Abi.Fill.{Outcome, got, fill_loop, IsReader, Fills, fill_loop-Fills}

-- A reader that hands over two bytes at most.
abbrev piece : List ℕ → List ℕ → ℕ
piece held buf = min 2 (min (length buf) (length held))

abbrev two_at_most : List ℕ → List ℕ → Outcome × List ℕ × List ℕ
two_at_most held buf = (
  got (piece held buf),
  take (piece held buf) held ++ drop (piece held buf) buf,
  drop (piece held buf) held,
)

two_at_most-IsReader : IsReader two_at_most (λ held. held)
two_at_most-IsReader = record {
  count = piece;
  reports = λ s buf h. refl;
  stores = λ s buf h. refl;
  advances = λ s buf h. refl;
  fits = λ s buf. omega arith;
  no_more = λ s buf. omega arith;
  progress = λ s buf h l. omega arith;
}

-- Three rounds of two bytes fill a buffer of five.
fill_loop-Fills_example :
    Fills two_at_most
      (λ held. held)
      two_at_most-IsReader
      5
      0
      (replicate 5 0)
      (1 ∷ 2 ∷ 3 ∷ 4 ∷ 5 ∷ 6 ∷ 7 ∷ [])
      (fill_loop two_at_most 5 5 0 (replicate 5 0) (1 ∷ 2 ∷ 3 ∷ 4 ∷ 5 ∷ 6 ∷ 7 ∷ []))
fill_loop-Fills_example =
    fill_loop-Fills two_at_most (λ held. held) two_at_most-IsReader 5 5 0 (replicate 5 0)
      (1 ∷ 2 ∷ 3 ∷ 4 ∷ 5 ∷ 6 ∷ 7 ∷ []) refl (omega arith) (omega arith)

abbrev path : List ℕ
path = b'/' ∷ b'a' ∷ b'/' ∷ b'b' ∷ b'c' ∷ []

path-IsText : IsText path
path-IsText = (
  λ e. omega arith,
  (λ e. omega arith, (λ e. omega arith, (λ e. omega arith, (λ e. omega arith, tt)))),
)

copy_name_lem_example :
    (c_string (copy_name 4 path (replicate 4 9)) ≡ b'/' ∷ b'a' ∷ b'/' ∷ [])
    × (copy_size 4 path + 1 ≤ 4)
copy_name_lem_example = copy_name_lem 4 path (replicate 4 9) (omega arith) refl path-IsText

-- With no room at all the copy is not cut.
no_room : copy_size 0 path ≡ 5
unfolding copy_size
no_room = refl

basename_bc : basename path ≡ b'b' ∷ b'c' ∷ []
unfolding basename after_slash
basename_bc = refl

basename_lem_example :
    NoSlash (basename path)
    × ((path ≡ basename path) ⊎ ((dir : List ℕ) × (path ≡ dir ++ (b'/' ∷ basename path))))
basename_lem_example = basename_lem path

decimal_1024 : decimal 1024 ≡ b'1' ∷ b'0' ∷ b'2' ∷ b'4' ∷ []
unfolding decimal
decimal_1024 = refl

-- A line of four characters needs room for five bytes.
line_needs_terminator : (put_entry 4 0 (b'x' ∷ []) 7 (replicate 4 1)).0 ≡ none
unfolding put_entry line decimal
line_needs_terminator = refl
