-- ===== src/Buffers/Walk.antt =====
-- Walks along pointers: the list that leads from one place to another, and what surgery on the
-- pointers, as in project3_filesystem/bio.c, does to it.
use mathlib.Core.List.{reverse, reverse-cons}
use ele3021_os.Prelude.{
  length-append, length, ==_iff, inl, inr, Distinct-snoc, mem-append, Bool-cases, refl, sym, ◌∙◌,
  ◌==◌, arith, [], subst, ap, false, true, Distinct, ◌++◌, mem, ◌∷◌, ◌≡◌, List, ℕ,
}

-- From `a`, `step` leads through `xs` to `z`.
abbrev pub Walk : (ℕ → ℕ) → ℕ → List ℕ → ℕ → Type 0
Walk step a [] z = step a ≡ z
Walk step a (x ∷ xs) z = (step a ≡ x) × Walk step x xs z

-- The first of a list and what comes after it, and the last of a list and what comes before it.
abbrev pub first_or : ℕ → List ℕ → ℕ
first_or z [] = z
first_or z (x ∷ xs) = x

abbrev pub last_or : ℕ → List ℕ → ℕ
last_or a [] = a
last_or a (x ∷ xs) = last_or x xs

pub Walk-frame :
    (f g : ℕ → ℕ) (a : ℕ) (xs : List ℕ) (z : ℕ)
    → Walk f a xs z
    → ((x : ℕ) → mem x (a ∷ xs) ≡ true → g x ≡ f x)
    → Walk g a xs z
Walk-frame f g a [] z w same = same a (ground arith) ∙ w
Walk-frame f g a (x ∷ xs) z w same =
    (same a (ground arith) ∙ w.0, Walk-frame f g x xs z w.1 (λ y m. same y (ground arith)))

pub Walk-first : (f : ℕ → ℕ) (a : ℕ) (xs : List ℕ) (z : ℕ) → Walk f a xs z → f a ≡ first_or z xs
Walk-first f a [] z w = w
Walk-first f a (x ∷ xs) z w = w.0

-- The place behind `b`.
pub Walk-at :
    (f : ℕ → ℕ) (a : ℕ) (xs : List ℕ) (b : ℕ) (ys : List ℕ) (z : ℕ)
    → Walk f a (xs ++ b ∷ ys) z
    → f b ≡ first_or z ys
Walk-at f a [] b ys z w = Walk-first f b ys z w.1
Walk-at f a (x ∷ xs) b ys z w = Walk-at f x xs b ys z w.1

mem-last_or : (a : ℕ) (xs : List ℕ) → mem (last_or a xs) (a ∷ xs) ≡ true
mem-last_or a [] = ground arith
mem-last_or a (x ∷ xs) = let ih = mem-last_or x xs in ground (arith, ih)

-- `b` is taken out: the place before it now leads behind it.
pub Walk-remove :
    (f g : ℕ → ℕ) (a : ℕ) (xs : List ℕ) (b : ℕ) (ys : List ℕ) (z : ℕ)
    → Walk f a (xs ++ b ∷ ys) z
    → Distinct (a ∷ xs ++ ys)
    → g (last_or a xs) ≡ first_or z ys
    → ((x : ℕ) → mem x (a ∷ xs ++ ys) ≡ true → (x == last_or a xs) ≡ false → g x ≡ f x)
    → Walk g a (xs ++ ys) z
Walk-remove f g a [] b [] z w d here same = here
Walk-remove f g a [] b (y ∷ ys) z w d here same =
    (here, Walk-frame f g y ys z w.1.1 (λ x m. same x (ground arith) (other x m)))
  where
    other : (x : ℕ) → mem x (y ∷ ys) ≡ true → (x == a) ≡ false
    other x m = elim (Bool-cases (x == a)) [
      | inr e ↦ e
      | inl e ↦
          let at : x ≡ a = (==_iff x a).0 e in cc (d.0, subst (λ k. mem k (y ∷ ys) ≡ true) at m)
    ]
Walk-remove f g a (x ∷ xs) b ys z w d here same =
    let last : mem (last_or x xs) (x ∷ xs ++ ys) ≡ true =
      mem-append (last_or x xs) (x ∷ xs) ys ∙ rw (mem-last_or x xs) refl in
    let off : (a == last_or x xs) ≡ false = elim (Bool-cases (a == last_or x xs)) [
      | inr e ↦ e
      | inl e ↦
          let at : a ≡ last_or x xs = (==_iff a (last_or x xs)).0 e in
          cc (d.0, subst (λ k. mem k (x ∷ xs ++ ys) ≡ true) (sym at) last)
    ] in
    (
      same a (ground arith) off ∙ w.0,
      Walk-remove f g x xs b ys z w.1 d.1 here (λ y m e. same y (ground arith) e),
    )

-- `b` comes first.
pub Walk-cons :
    (f g : ℕ → ℕ) (a b : ℕ) (xs : List ℕ) (z : ℕ)
    → Walk f a xs z
    → mem a xs ≡ false
    → g a ≡ b
    → g b ≡ f a
    → ((x : ℕ) → mem x xs ≡ true → g x ≡ f x)
    → Walk g a (b ∷ xs) z
Walk-cons f g a b [] z w off here next same = (here, next ∙ w)
Walk-cons f g a b (x ∷ xs) z w off here next same =
    (here, (next ∙ w.0, Walk-frame f g x xs z w.1 same))

-- `b` comes last.
pub Walk-snoc :
    (f g : ℕ → ℕ) (a : ℕ) (xs : List ℕ) (b z : ℕ)
    → Walk f a xs z
    → Distinct (a ∷ xs)
    → g (last_or a xs) ≡ b
    → g b ≡ z
    → ((x : ℕ) → mem x (a ∷ xs) ≡ true → (x == last_or a xs) ≡ false → g x ≡ f x)
    → Walk g a (xs ++ b ∷ []) z
Walk-snoc f g a [] b z w d here end same = (here, end)
Walk-snoc f g a (x ∷ xs) b z w d here end same =
    let off : (a == last_or x xs) ≡ false = elim (Bool-cases (a == last_or x xs)) [
      | inr e ↦ e
      | inl e ↦
          let at : a ≡ last_or x xs = (==_iff a (last_or x xs)).0 e in
          cc (d.0, subst (λ k. mem k (x ∷ xs) ≡ true) (sym at) (mem-last_or x xs))
    ] in
    (
      same a (ground arith) off ∙ w.0,
      Walk-snoc f g x xs b z w.1 d.1 here end (λ y m e. same y (ground arith) e),
    )

pub mem-reverse : (x : ℕ) (xs : List ℕ) → mem x (reverse xs) ≡ mem x xs
mem-reverse x [] = refl
mem-reverse x (y ∷ ys) =
    ap (mem x) (reverse-cons y ys)
    ∙ mem-append x (reverse ys) (y ∷ [])
    ∙ ground (arith, mem-reverse x ys)

pub length-reverse : (xs : List ℕ) → length (reverse xs) ≡ length xs
length-reverse [] = refl
length-reverse (y ∷ ys) =
    ap length (reverse-cons y ys)
    ∙ length-append (reverse ys) (y ∷ [])
    ∙ omega (arith, length-reverse ys)

pub Distinct-reverse : (xs : List ℕ) → Distinct xs → Distinct (reverse xs)
Distinct-reverse [] d = tt
Distinct-reverse (y ∷ ys) d =
    subst Distinct (sym (reverse-cons y ys))
      (Distinct-snoc (reverse ys) y (Distinct-reverse ys d.1) (mem-reverse y ys ∙ d.0))

last_or-append : (a : ℕ) (xs : List ℕ) (b : ℕ) → last_or a (xs ++ b ∷ []) ≡ b
last_or-append a [] b = refl
last_or-append a (x ∷ xs) b = last_or-append x xs b

first_or-append : (z : ℕ) (xs : List ℕ) (b : ℕ) → first_or z (xs ++ b ∷ []) ≡ first_or b xs
first_or-append z [] b = refl
first_or-append z (x ∷ xs) b = refl

pub last_or-reverse : (a : ℕ) (xs : List ℕ) → last_or a (reverse xs) ≡ first_or a xs
last_or-reverse a [] = refl
last_or-reverse a (x ∷ xs) = ap (last_or a) (reverse-cons x xs) ∙ last_or-append a (reverse xs) x

pub first_or-reverse : (a : ℕ) (xs : List ℕ) → first_or a (reverse xs) ≡ last_or a xs
first_or-reverse a [] = refl
first_or-reverse a (x ∷ xs) =
    ap (first_or a) (reverse-cons x xs) ∙ first_or-append a (reverse xs) x ∙ first_or-reverse x xs
