-- ===== src/Prelude/Indices.antt =====
-- Lists of table indices: membership as a test, distinctness, removal, and how long they can be.
use Prim.Native.Nat.{ℕ, zero, suc, ◌+◌, ◌≤◌, ◌<◌}
use mathlib.Core.Path.{◌≡◌, refl, ap}
use mathlib.Core.Logic.{inl, inr}
use mathlib.Core.Bool.{Bool, true, false, ◌||◌}
use mathlib.Core.List.{List, [], ◌∷◌, ◌++◌}
use native.Mathlib.Omega.{arith}
use ele3021_os.Prelude.Tests.{◌==◌, if◌then◌else◌, Bool-cases}
use ele3021_os.Prelude.Lists.{length}

abbrev pub mem : ℕ → List ℕ → Bool
mem a [] = false
mem a (x ∷ xs) = (a == x) || mem a xs

abbrev pub Distinct : List ℕ → Type 0
Distinct [] = Unit
Distinct (x ∷ xs) = (mem x xs ≡ false) × Distinct xs

abbrev pub erase : ℕ → List ℕ → List ℕ
erase a [] = []
erase a (x ∷ xs) = if x == a then xs else x ∷ erase a xs

pub mem-append : (a : ℕ) (xs ys : List ℕ) → mem a (xs ++ ys) ≡ (mem a xs || mem a ys)
mem-append a [] ys = refl
mem-append a (x ∷ xs) ys = ground (arith, mem-append a xs ys)

pub mem-erase :
    (a b : ℕ) (xs : List ℕ)
    → Distinct xs
    → mem a (erase b xs) ≡ (if a == b then false else mem a xs)
mem-erase a b [] d = ground arith
mem-erase a b (x ∷ xs) d = ground (arith, mem-erase a b xs d.1, d.0)

pub Distinct-erase : (b : ℕ) (xs : List ℕ) → Distinct xs → Distinct (erase b xs)
Distinct-erase b [] d = tt
Distinct-erase b (x ∷ xs) d = elim (Bool-cases (x == b)) [
  | inl e ↦ rw e d.1
  | inr e ↦ rw e (ground (arith, mem-erase x b xs d.1), Distinct-erase b xs d.1)
]

pub length-erase : (b : ℕ) (xs : List ℕ) → mem b xs ≡ true → length xs ≡ length (erase b xs) + 1
length-erase b [] h = cc
length-erase b (x ∷ xs) h = ground (arith, length-erase b xs)

-- Distinct indices of a table of `n` entries are at most `n`.
pub length-le_of_bound :
    (n : ℕ) (xs : List ℕ) → Distinct xs → ((a : ℕ) → mem a xs ≡ true → a < n) → length xs ≤ n
length-le_of_bound zero [] d h = omega arith
length-le_of_bound zero (x ∷ xs) d h = absurd (ground (arith, h x))
length-le_of_bound (suc n) xs d h = elim (Bool-cases (mem n xs)) [
  | inl e ↦
      let rest =
        length-le_of_bound n (erase n xs) (Distinct-erase n xs d)
          (λ a m. ground (arith, mem-erase a n xs d, h a)) in
      omega (arith, length-erase n xs e)
  | inr e ↦ let rest = length-le_of_bound n xs d (λ a m. ground (arith, h a)) in omega arith
]

pub Distinct-snoc : (xs : List ℕ) (b : ℕ) → Distinct xs → mem b xs ≡ false → Distinct (xs ++ b ∷ [])
Distinct-snoc [] b d h = (refl, tt)
Distinct-snoc (x ∷ xs) b d h =
    (ground (arith, mem-append x xs (b ∷ [])), Distinct-snoc xs b d.1 (ground arith))

-- The list around the first occurrence of `a`.
pub mem-split :
    (a : ℕ) (xs : List ℕ)
    → mem a xs ≡ true
    → (ys : List ℕ) × (zs : List ℕ) × (xs ≡ ys ++ a ∷ zs) × (erase a xs ≡ ys ++ zs)
mem-split a [] h = cc
mem-split a (x ∷ xs) h = elim (Bool-cases (x == a)) [
  | inl e ↦ ([], xs, ground arith, rw e)
  | inr e ↦
      let (ys, zs, k, l) = mem-split a xs (ground arith) in
      (x ∷ ys, zs, ap (λ t. x ∷ t) k, rw e (ap (λ t. x ∷ t) l))
]

-- Distinct parts of a list share no element.
pub Distinct-append :
    (xs ys : List ℕ)
    → Distinct (xs ++ ys)
    → Distinct xs × Distinct ys × ((a : ℕ) → mem a xs ≡ true → mem a ys ≡ false)
Distinct-append [] ys d = (tt, d, λ a m. cc)
Distinct-append (x ∷ xs) ys d =
    let (dx, dy, apart) = Distinct-append xs ys d.1 in
    (
      (ground (arith, mem-append x xs ys, d.0), dx),
      dy,
      λ a m. ground (arith, mem-append x xs ys, d.0, apart a),
    )

pub Distinct-join :
    (xs ys : List ℕ)
    → Distinct xs
    → Distinct ys
    → ((a : ℕ) → mem a xs ≡ true → mem a ys ≡ false)
    → Distinct (xs ++ ys)
Distinct-join [] ys d e apart = e
Distinct-join (x ∷ xs) ys d e apart = (
  ground (arith, mem-append x xs ys, d.0, apart x),
  Distinct-join xs ys d.1 e (λ a m. apart a (ground arith)),
)
