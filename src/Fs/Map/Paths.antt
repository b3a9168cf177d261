-- ===== src/Fs/Map/Paths.antt =====
-- Places in the block map of project3_filesystem/fs.c: a root of the inode, and the indices that
-- lead down from it, the last first.
use ele3021_os.Prelude.{
  inr, ==_iff, inl, Bool-cases, refl, ◌/◌, ◌&&◌, ◌↔◌, false, ◌%◌, All, true, [], ◌==◌, ◌≤◌, arith,
  ◌≡◌, Bool, ltb, ◌∷◌, length, ◌<◌, if◌then◌else◌, List, ◌-◌, ℕ,
}
use ele3021_os.Fs.State.{FileSystem, Inode, word_at, nindirect}
use ele3021_os.Fs.Map.{root_of}

-- How many blocks of addresses lie below a root.
abbrev pub depth : ℕ → ℕ
depth r = r - 9

abbrev pub IsPlace : ℕ → List ℕ → Type 0
IsPlace r p = (r < 13) × (length p ≤ depth r) × All (λ i. i < nindirect) p

-- The address at a place, 0 if there is none.
unfoldable pub address : FileSystem → Inode → ℕ → List ℕ → ℕ
address s n r [] = root_of n r
address s n r (i ∷ p) = let a = address s n r p in if a == 0 then 0 else word_at (s.blocks a) i

-- The root and the indices of a block of a file.
abbrev pub root_of_block : ℕ → ℕ
root_of_block bn =
    if ltb bn 10 then bn else if ltb bn 138 then 10 else if ltb bn 16522 then 11 else 12

abbrev pub indices_of_block : ℕ → List ℕ
indices_of_block bn =
    if ltb bn 10
    then []
    else if ltb bn 138
    then (bn - 10) ∷ []
    else if ltb bn 16522
    then (bn - 138) % 128 ∷ (bn - 138) / 128 ∷ []
    else (bn - 16522) % 16384 % 128 ∷ (bn - 16522) % 16384 / 128 ∷ (bn - 16522) / 16384 ∷ []

-- MAXFILE
abbrev pub maxfile : ℕ
maxfile = 2113674

abbrev pub same_list : List ℕ → List ℕ → Bool
same_list [] [] = true
same_list [] (y ∷ ys) = false
same_list (x ∷ xs) [] = false
same_list (x ∷ xs) (y ∷ ys) = (x == y) && same_list xs ys

pub same_list_iff : (xs ys : List ℕ) → (same_list xs ys ≡ true) ↔ (xs ≡ ys)
same_list_iff [] [] = ((λ h. refl), (λ h. refl))
same_list_iff [] (y ∷ ys) = ((λ h. cc), (λ h. cc))
same_list_iff (x ∷ xs) [] = ((λ h. cc), (λ h. cc))
same_list_iff (x ∷ xs) (y ∷ ys) =
    ((λ h. ground (arith, (same_list_iff xs ys).0)), (λ h. ground (arith, (same_list_iff xs ys).1)))

pub same_list_refl : (xs : List ℕ) → same_list xs xs ≡ true
same_list_refl xs = (same_list_iff xs xs).1 refl

abbrev pub same_place : ℕ → List ℕ → ℕ → List ℕ → Bool
same_place q p r p' = (q == r) && same_list p p'

pub IsPlace-block : (bn : ℕ) → bn < maxfile → IsPlace (root_of_block bn) (indices_of_block bn)
IsPlace-block bn lt = ground arith

-- Every block of a file has a place of its own.
pub block_places :
    (bn bm : ℕ)
    → bn < maxfile
    → bm < maxfile
    → root_of_block bn ≡ root_of_block bm
    → indices_of_block bn ≡ indices_of_block bm
    → bn ≡ bm
block_places bn bm lt lt' e k = ground arith

-- No list is its own tail.
pub same_list_longer : (x : ℕ) (xs : List ℕ) → same_list (x ∷ xs) xs ≡ false
same_list_longer x [] = refl
same_list_longer x (y ∷ ys) = elim (Bool-cases (x == y)) [
  | inl e ↦ let at : x ≡ y = (==_iff x y).0 e in rw e (same_list_longer y ys)
  | inr e ↦ rw e refl
]

-- A block of a file stands at the lowest level of its root.
pub full_block : (bn : ℕ) → bn < maxfile → length (indices_of_block bn) ≡ depth (root_of_block bn)
full_block bn lt = ground arith
