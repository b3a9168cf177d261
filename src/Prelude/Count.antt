-- ===== src/Prelude/Count.antt =====
-- Counting the indices that pass a test.
use Prim.Native.Nat.{ℕ, zero, suc, ◌+◌, ◌≤◌, ◌<◌}
use mathlib.Core.Path.{◌≡◌, refl}
use mathlib.Core.Logic.{inl, inr}
use mathlib.Core.Bool.{Bool, true, false}
use native.Mathlib.Omega.{arith}
use ele3021_os.Prelude.Tests.{◌==◌, ==_iff, if◌then◌else◌, Bool-cases}

-- How many of the first `n` indices pass a test.
unfoldable pub count : ℕ → (ℕ → Bool) → ℕ
count zero f = 0
count (suc n) f = count n f + (if f n then 1 else 0)

pub count-le : (n : ℕ) (f : ℕ → Bool) → count n f ≤ n
unfolding count
count-le zero f = omega arith
count-le (suc n) f = ground (arith, count-le n f)

pub count_same : (n : ℕ) (f g : ℕ → Bool) → ((x : ℕ) → x < n → g x ≡ f x) → count n g ≡ count n f
unfolding count
count_same zero f g same = refl
count_same (suc n) f g same =
    ground (arith, same n, count_same n f g (λ x lt. same x (omega arith)))

pub count_cleared :
    (n p : ℕ) (f g : ℕ → Bool)
    → p < n
    → f p ≡ true
    → g p ≡ false
    → ((x : ℕ) → x < n → (x == p) ≡ false → g x ≡ f x)
    → count n g + 1 ≡ count n f
unfolding count
count_cleared zero p f g lt on off same = absurd (omega arith)
count_cleared (suc n) p f g lt on off same = elim (Bool-cases (n == p)) [
  | inl e ↦
      let here : n ≡ p = (==_iff n p).0 e in
      ground (arith, count_same n f g (λ x k. same x (omega arith) (ground arith)))
  | inr e ↦ ground (
    arith,
    same n (omega arith) e,
    count_cleared n p f g (ground arith) on off (λ x k e'. same x (omega arith) e'),
  )
]

-- Where something is counted there is something.
pub count_pos : (n : ℕ) (f : ℕ → Bool) → 0 < count n f → (x : ℕ) × (x < n) × (f x ≡ true)
unfolding count
count_pos zero f h = absurd (omega arith)
count_pos (suc n) f h = elim (Bool-cases (f n)) [
  | inl e ↦ (n, omega arith, e)
  | inr e ↦ let (x, lt, on) = count_pos n f (ground arith) in (x, omega arith, on)
]
