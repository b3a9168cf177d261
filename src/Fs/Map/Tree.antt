-- ===== src/Fs/Map/Tree.antt =====
-- The block map of one inode as a tree: no block stands at two places.
use ele3021_os.Prelude.{
  ◌+◌, not, ◌≤◌, count, if◌then◌else◌, true, false, ◌≡◌, ◌==◌, Bool, ◌^◌, List, ◌<◌, ℕ,
}
use ele3021_os.Fs.State.{FileSystem, Inode}
use ele3021_os.Fs.Bitmap.{bblock, is_used, IsFormatted}
use ele3021_os.Fs.Map.Paths.{IsPlace, address, same_place}

-- How many blocks are free.
abbrev pub free_count : FileSystem → ℕ
free_count s = count s.size (λ c. not (is_used s c))

pub record IsTree (s : FileSystem) (n : Inode) : Type 0 where
  pub formatted : IsFormatted s
  pub words : s.size < 2 ^ 32
  pub used :
      (r : ℕ) (p : List ℕ)
      → IsPlace r p
      → (address s n r p == 0) ≡ false
      → (address s n r p < s.size) × (is_used s (address s n r p) ≡ true)
  pub data_ :
      (r : ℕ) (p : List ℕ) (c : ℕ)
      → IsPlace r p
      → (address s n r p == 0) ≡ false
      → c < s.size
      → (bblock s c == address s n r p) ≡ false
  pub unique :
      (r : ℕ) (p : List ℕ) (q : ℕ) (p' : List ℕ)
      → IsPlace r p
      → IsPlace q p'
      → (address s n r p == 0) ≡ false
      → address s n r p ≡ address s n q p'
      → same_place r p q p' ≡ true

-- What a step of bmap does: the place `(r, p)` holds `a`, other places hold what they held, blocks in
-- use are unchanged but for those of the free map and, with `changed`, the one that holds the place.
pub record Ensured (s : FileSystem) (n : Inode) (r : ℕ) (p : List ℕ) (changed : ℕ → Bool) (a : ℕ)
    (t : FileSystem) (m : Inode) : Type 0 where
  pub tree : IsTree t m
  pub here : address t m r p ≡ a
  pub real : (a == 0) ≡ false
  pub places :
      (q : ℕ) (p' : List ℕ)
      → IsPlace q p'
      → address t m q p' ≡ (if same_place q p' r p then a else address s n q p')
  pub old : (address s n r p == 0) ≡ false → a ≡ address s n r p
  pub fresh : (address s n r p == 0) ≡ true → is_used s a ≡ false
  pub blocks :
      (c : ℕ)
      → c < s.size
      → is_used s c ≡ true
      → changed c ≡ false
      → ((d : ℕ) → d < s.size → (bblock s d == c) ≡ false)
      → t.blocks c ≡ s.blocks c
  pub used : (c : ℕ) → c < s.size → is_used s c ≡ true → is_used t c ≡ true
  pub free : free_count s ≤ free_count t + 1
  pub size : t.size ≡ s.size
  pub bmapstart : t.bmapstart ≡ s.bmapstart
