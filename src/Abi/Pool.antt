-- ===== src/Abi/Pool.antt =====
-- The handle pools: `static uint8_t used[MAX]`, the search for a free slot, and the guard of every
-- operation on a handle.
use flash_vis.Common.{
  ℕ, zero, suc, ◌≤◌, ◌<◌, Bool, true, false, not, ◌||◌, List, [], ◌∷◌, length, get_or, set, Option,
  none, some, ℤ, pos, is_neg, pos_part, leb, ◌≡◌, refl, ap, arith,
}

-- `for (i = 0; i < MAX; i++) if (!used[i]) { h = i; break; }`
unfoldable pub first_free : List Bool → Option ℕ
first_free [] = none
first_free (false ∷ us) = some 0
first_free (true ∷ us) = elim (first_free us) [ none ↦ none | some h ↦ some (suc h) ]

-- `h < 0 || h >= MAX || !used[h]`
unfoldable pub bad_handle : ℕ → List Bool → ℤ → Bool
bad_handle max used h = is_neg h || leb max (pos_part h) || not (get_or used (pos_part h) false)

-- The slot found is in the pool, free, and the lowest such; none is found only when all are in use.
pub first_free-some :
    (us : List Bool) (h : ℕ)
    → first_free us ≡ some h
    → (h < length us) × (get_or us h true ≡ false) × ((j : ℕ) → j < h → get_or us j false ≡ true)
unfolding first_free
first_free-some [] h e = absurd (ground arith)
first_free-some (false ∷ us) zero e = (omega arith, refl, λ j l. absurd (omega arith))
first_free-some (false ∷ us) (suc h) e = absurd (ground arith)
first_free-some (true ∷ us) zero e = absurd (ground arith)
first_free-some (true ∷ us) (suc h) e =
    let r = first_free-some us h (ground arith) in (omega (arith, r.0), r.1, λ j l. below r.2 j l)
  where
    below :
        ((j : ℕ) → j < h → get_or us j false ≡ true)
        → (j : ℕ) → j < suc h
        → get_or (true ∷ us) j false ≡ true
    below r zero l = refl
    below r (suc j) l = r j (omega arith)

pub first_free-none :
    (us : List Bool) → first_free us ≡ none → (j : ℕ) → j < length us → get_or us j false ≡ true
unfolding first_free
first_free-none [] e j l = absurd (omega arith)
first_free-none (false ∷ us) e j l = absurd (ground arith)
first_free-none (true ∷ us) e zero l = refl
first_free-none (true ∷ us) e (suc j) l = first_free-none us (ground arith) j (omega arith)

-- How many slots are in use.
unfoldable pub in_use : List Bool → ℕ
in_use [] = 0
in_use (true ∷ us) = suc (in_use us)
in_use (false ∷ us) = in_use us

pub in_use-le : (us : List Bool) → in_use us ≤ length us
unfolding in_use
in_use-le [] = omega arith
in_use-le (true ∷ us) = omega (arith, in_use-le us)
in_use-le (false ∷ us) = omega (arith, in_use-le us)

pub in_use-set_free :
    (us : List Bool) (h : ℕ) → first_free us ≡ some h → in_use (set us h true) ≡ suc (in_use us)
unfolding first_free in_use
in_use-set_free [] h e = absurd (ground arith)
in_use-set_free (false ∷ us) zero e = refl
in_use-set_free (false ∷ us) (suc h) e = absurd (ground arith)
in_use-set_free (true ∷ us) zero e = absurd (ground arith)
in_use-set_free (true ∷ us) (suc h) e = ap suc (in_use-set_free us h (ground arith))

-- A handle that passes the guard names a slot of the pool that is in use.
pub good_handle :
    (max : ℕ) (used : List Bool) (h : ℤ)
    → bad_handle max used h ≡ false
    → (h ≡ pos (pos_part h)) × (pos_part h < max) × (get_or used (pos_part h) false ≡ true)
unfolding bad_handle
good_handle max used h e = ground arith
