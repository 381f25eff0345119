-- ===== src/Abi/Listing.antt =====
-- The "name\tsize\n" lines of ff_list: what snprintf("%s\t%u\n") prints, what it stores into the rest
-- of the caller's buffer, and when the loops around it stop.
use flash_vis.Common.{
  ℕ, zero, suc, ◌+◌, ◌-◌, ◌/◌, ◌%◌, ◌^◌, List, [], ◌∷◌, ◌++◌, length, take, drop, Option, none,
  some, leb, ltb, ◌==◌, if◌then◌else◌, overlay,
}

-- `%u`. A `uint32_t` has at most ten digits.
unfoldable pub digits_of : ℕ → ℕ → List ℕ
digits_of zero n = []
digits_of (suc f) n =
    let front = digits_of f (n / 10) ++ (b'0' + n % 10) ∷ [] in
    if ltb n 10 then (b'0' + n) ∷ [] else front

unfoldable pub decimal : ℕ → List ℕ
unfolding digits_of
decimal n = digits_of 10 (n % 2 ^ 32)

unfoldable pub line : List ℕ → ℕ → List ℕ
line name size = name ++ (b'\t' ∷ (decimal size ++ b'\n' ∷ []))

-- `snprintf(out + n, cap - n, ...)` stores what fits and a terminator.
unfoldable pub store_line : ℕ → ℕ → List ℕ → List ℕ → List ℕ
store_line room n text out =
    if room == 0 then out else take n out ++ overlay (take (room - 1) text ++ 0 ∷ []) (drop n out)

-- One round behind a directory entry: the new count, or none where the loop breaks, and the buffer.
unfoldable pub put_entry : ℕ → ℕ → List ℕ → ℕ → List ℕ → Option ℕ × List ℕ
unfolding store_line
put_entry cap n name size out =
    let text = line name size in
    (
      (if leb (cap - n) (length text) then none else some (n + length text)),
      store_line (cap - n) n text out,
    )
