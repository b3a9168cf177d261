-- ===== src/Fs/Path/Elements.antt =====
-- The elements of a path, and skipelem of project3_filesystem/fs.c.
use ele3021_os.Fs.Path.{skipelem, elem_of, read_elem, slash, dirsiz, skip_slashes}
use ele3021_os.Prelude.{
  take, ◌∙◌, suc, ap, ◌+◌, refl, some, inr, true, ◌⊎◌, ◌<◌, Bool-cases, ◌≤◌, none, not, ◌==◌, inl,
  length, [], false, if◌then◌else◌, arith, ◌≡◌, Option, Bool, ◌∷◌, List, ℕ,
}

-- The parts of a path between slashes, empty ones too.
abbrev pub onto_first : ℕ → List (List ℕ) → List (List ℕ)
onto_first c [] = (c ∷ []) ∷ []
onto_first c (l ∷ ls) = (c ∷ l) ∷ ls

abbrev pub parts : List ℕ → List (List ℕ)
parts [] = [] ∷ []
parts (c ∷ cs) = let rest = parts cs in if c == slash then [] ∷ rest else onto_first c rest

-- The parts that are not empty, cut to the length of a name.
abbrev pub names : List (List ℕ) → List (List ℕ)
names [] = []
names ([] ∷ ls) = names ls
names ((c ∷ l) ∷ ls) = take dirsiz (c ∷ l) ∷ names ls

abbrev pub elements : List ℕ → List (List ℕ)
elements path = names (parts path)

-- Whether a path starts with an element.
abbrev pub starts_with_name : List ℕ → Bool
starts_with_name [] = false
starts_with_name (c ∷ cs) = not (c == slash)

-- What skipelem returns for a path.
pub data Skipped (path : List ℕ) : Option (List ℕ × List ℕ) → Type 0 where
  no_name : elements path ≡ [] → Skipped path none
  a_name :
      (name rest : List ℕ)
      → elements path ≡ name ∷ elements rest
      → length rest < length path
      → (rest ≡ []) ⊎ (starts_with_name rest ≡ true)
      → Skipped path (some (name, rest))

record SkippedSlashes (path rest : List ℕ) : Type 0 where
  same : elements path ≡ elements rest
  short : length rest ≤ length path
  start : (rest ≡ []) ⊎ (starts_with_name rest ≡ true)

skip_slashes-SkippedSlashes : (path : List ℕ) → SkippedSlashes path (skip_slashes path)
unfolding skip_slashes
skip_slashes-SkippedSlashes [] = record { same = refl; short = omega arith; start = inl refl }
skip_slashes-SkippedSlashes (c ∷ cs) = elim (Bool-cases (c == slash)) [
  | inl e ↦
      let ih = skip_slashes-SkippedSlashes cs in
      rw e (record { same = rw e ih.same; short = omega (arith, ih.short); start = ih.start })
  | inr e ↦ rw e (record { same = refl; short = omega arith; start = inr (rw e refl) })
]

-- An element and the parts behind it.
record ReadElem (path elem rest : List ℕ) : Type 0 where
  behind : List (List ℕ)
  split : parts path ≡ elem ∷ behind
  same : names behind ≡ elements rest
  short : length elem + length rest ≡ length path

read_elem-ReadElem : (path : List ℕ) → ReadElem path (read_elem path).0 (read_elem path).1
unfolding read_elem
read_elem-ReadElem [] = record { behind = []; split = refl; same = refl; short = omega arith }
read_elem-ReadElem (c ∷ cs) = elim (Bool-cases (c == slash)) [
  | inl e ↦
      rw e (record { behind = parts cs; split = rw e refl; same = rw e refl; short = omega arith })
  | inr e ↦
      let ih = read_elem-ReadElem cs in
      rw e (record {
        behind = ih.behind;
        split = rw e (ap (λ l. onto_first c l) ih.split);
        same = ih.same;
        short = omega (arith, ih.short);
      })
]

-- The element of a path that starts with a name is not empty.
first_char :
    (c : ℕ) (cs : List ℕ) → (c == slash) ≡ false → (read_elem (c ∷ cs)).0 ≡ c ∷ (read_elem cs).0
unfolding read_elem
first_char c cs e = rw e refl

elem_of-Skipped : (path l : List ℕ) → SkippedSlashes path l → Skipped path (elem_of l)
elem_of-Skipped path [] h = no_name h.same
elem_of-Skipped path (c ∷ cs) h =
    let off : (c == slash) ≡ false = start_char h.start in
    let elem : List ℕ = (read_elem (c ∷ cs)).0 in
    let rest : List ℕ = (read_elem (c ∷ cs)).1 in
    let read = read_elem-ReadElem (c ∷ cs) in
    let skipped = skip_slashes-SkippedSlashes rest in
    let nonempty : elem ≡ c ∷ (read_elem cs).0 = first_char c cs off in
    let more : length elem ≡ suc (length (read_elem cs).0) = ap length nonempty in
    let first : names (elem ∷ read.behind) ≡ take dirsiz elem ∷ names read.behind =
      rw nonempty refl in
    a_name (take dirsiz elem) (skip_slashes rest)
      (h.same
        ∙ ap names read.split
        ∙ first
        ∙ ap (λ l. take dirsiz elem ∷ l) (read.same ∙ skipped.same))
      (omega (arith, h.short, read.short, skipped.short, more)) skipped.start
  where
    start_char : ((c ∷ cs ≡ []) ⊎ (not (c == slash) ≡ true)) → (c == slash) ≡ false
    start_char (inl e) = cc
    start_char (inr e) = ground (arith, e)

-- skipelem returns NULL for a path without elements, and else the first element and a shorter path
-- that has the other elements and starts with one, if there is any.
pub skipelem-Skipped : (path : List ℕ) → Skipped path (skipelem path)
unfolding skipelem
skipelem-Skipped path = elem_of-Skipped path (skip_slashes path) (skip_slashes-SkippedSlashes path)
