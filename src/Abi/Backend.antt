-- ===== src/Abi/Backend.antt =====
-- A filesystem core is code outside this repository that calls back into its shim. A call of it is a
-- tree of the backend requests that it makes, each with what the core does on the answer; the shim's
-- callbacks answer them from the chip. `P` is where a read or a program goes, `E` what an erase takes.
use flash_vis.Common.{ℕ, List, ◌≡◌, refl, ℤ, ◌∙◌}
use flash_vis.Nor.{Nor}

pub data Io (P E A : Type 0) : Type 0 where
  ret : A → Io P E A
  read : P → List ℕ → (ℤ → List ℕ → Io P E A) → Io P E A
  program : P → List ℕ → (ℤ → Io P E A) → Io P E A
  erase : E → (ℤ → Io P E A) → Io P E A

-- The callbacks that a shim hands to its core.
pub record Callbacks (P E : Type 0) : Type 0 where
  pub on_read : P → List ℕ → Nor → ℤ × List ℕ × Nor
  pub on_program : P → List ℕ → Nor → ℤ × Nor
  pub on_erase : E → Nor → ℤ × Nor

unfoldable pub run : {P E A : Type 0} → Callbacks P E → Io P E A → Nor → A × Nor
run cb (ret a) d = (a, d)
run cb (read p buf k) d = let (rc, buf', d') = cb.on_read p buf d in run cb (k rc buf') d'
run cb (program p src k) d = let (rc, d') = cb.on_program p src d in run cb (k rc) d'
run cb (erase e k) d = let (rc, d') = cb.on_erase e d in run cb (k rc) d'

-- A call that makes no request but reads, whatever the answers are.
pub data ReadsOnly {P E A : Type 0} : Io P E A → Type 0 where
  returns : (a : A) → ReadsOnly (ret a)
  reads :
      (p : P) (buf : List ℕ) (k : ℤ → List ℕ → Io P E A)
      → ((rc : ℤ) (got : List ℕ) → ReadsOnly (k rc got))
      → ReadsOnly (read p buf k)

-- Under callbacks whose reads leave the chip alone, such a call leaves it alone.
pub run-ReadsOnly :
    {P E A : Type 0} (cb : Callbacks P E)
    → ((p : P) (buf : List ℕ) (d : Nor) → (cb.on_read p buf d).2 ≡ d)
    → (m : Io P E A) → ReadsOnly m
    → (d : Nor) → (run cb m d).1 ≡ d
unfolding run
run-ReadsOnly cb silent m (returns a) d = refl
run-ReadsOnly cb silent m (reads p buf k h) d =
    run-ReadsOnly cb silent (k (cb.on_read p buf d).0 (cb.on_read p buf d).1)
      (h (cb.on_read p buf d).0 (cb.on_read p buf d).1) (cb.on_read p buf d).2
    ∙ silent p buf d
