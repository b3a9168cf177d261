-- ===== src/Fs/Trunc/Levels.antt =====
-- The levels below a root, freed by itrunc and freeDouble of project3_filesystem/fs.c.
use ele3021_os.Fs.Map.Chain.{same_place-eq}
use ele3021_os.Fs.Bitmap.{bfree}
use ele3021_os.Fs.Trunc.{each_word}
use ele3021_os.Fs.Trunc.Clear.{bfree-Cleared, Cleared-same, same_node, Cleared}
use ele3021_os.Fs.Map.Tree.{IsTree}
use ele3021_os.Fs.Map.Paths.{same_list_iff, same_list, same_place, address, IsPlace}
use ele3021_os.Fs.State.{Bytes, word_at, nindirect, Inode, FileSystem}
use ele3021_os.Prelude.{
  suc, length, inl, inr, ◌∙◌, Bool-cases, refl, [], ap, true, arith, ◌||◌, ◌&&◌, ◌==◌, ltb, ◌<◌,
  ◌≡◌, false, ◌∷◌, ◌+◌, Bool, List, ℕ,
}
use ele3021_os.Outcome.{Returns-mono, Returns-bind, returns, each-Returns, Returns, ◌>>◌}

-- The places one below `(r, p)` with an index before `k`.
abbrev pub children : ℕ → List ℕ → ℕ → ℕ → List ℕ → Bool
children r p k q [] = false
children r p k q (i ∷ p') = ltb i k && same_place q p' r p

-- The places below the root `r` that start with an index before `k`, at a depth of two.
abbrev pub branches : ℕ → ℕ → ℕ → List ℕ → Bool
branches r k q [] = false
branches r k q (i ∷ []) = (q == r) && ltb i k
branches r k q (j ∷ i ∷ []) = (q == r) && ltb i k
branches r k q (j ∷ i ∷ l ∷ p') = false

children_step :
    (r : ℕ) (p : List ℕ) (k q : ℕ) (p' : List ℕ)
    → children r p (k + 1) q p' ≡ (same_place q p' r (k ∷ p) || children r p k q p')
children_step r p k q [] = ground arith
children_step r p k q (i ∷ p') = ground arith

child_new : (r : ℕ) (p : List ℕ) (k : ℕ) → children r p k r (k ∷ p) ≡ false
child_new r p k = let e : ltb k k ≡ false = ground arith in rw e refl

not_self : (i : ℕ) (l p : List ℕ) → p ≡ i ∷ l → same_list l p ≡ false
not_self i l p e = elim (Bool-cases (same_list l p)) [
  | inr off ↦ off
  | inl on ↦
      let at : l ≡ p = (same_list_iff l p).0 on in
      let long : length p ≡ suc (length l) = ap length e in
      let same : length l ≡ length p = ap length at in absurd (omega arith)
]

-- A place is not below itself.
pub child_self : (r : ℕ) (p : List ℕ) → children r p nindirect r p ≡ false
child_self r [] = refl
child_self r (i ∷ l) = rw (not_self i l (i ∷ l) refl) (ground arith)

children_end :
    (r : ℕ) (p : List ℕ) (i q : ℕ) (p' : List ℕ)
    → IsPlace q (i ∷ p')
    → children r p nindirect q (i ∷ p') ≡ same_place q p' r p
children_end r p i q p' is = let e : ltb i 128 ≡ true = ground (arith, is.2.0) in rw e refl

module _ (s : FileSystem) (n : Inode) (tree : IsTree s n) (f : ℕ → Inode) where
  -- A word of a block of addresses is the address one below.
  pub word_below :
      (gone : ℕ → List ℕ → Bool) (t : FileSystem)
      → Cleared s n f gone t
      → (r : ℕ) (p : List ℕ) (i : ℕ) → IsPlace r p
      → (address s n r p == 0) ≡ false
      → word_at (t.blocks (address s n r p)) i ≡ address s n r (i ∷ p)
  unfolding address
  word_below gone t c r p i is real =
      ap (λ (d : Bytes). word_at d i) (same_node s n tree f gone t c r p is real) ∙ rw real refl

  module _ (gone : ℕ → List ℕ → Bool) (r : ℕ) (p : List ℕ)
      (inner : (i : ℕ) → i < nindirect → IsPlace r (i ∷ p)) (is : IsPlace r p)
      (real : (address s n r p == 0) ≡ false)
      (new : (i : ℕ) → i < nindirect → gone r (i ∷ p) ≡ false) where
    -- The blocks whose addresses a block of addresses holds.
    pub each_word-Cleared :
        (t : FileSystem)
        → Cleared s n f gone t
        → Returns
            (λ _. Cleared s n f (λ q p'. children r p nindirect q p' || gone q p'))
            (each_word bfree (address s n r p) t)
    each_word-Cleared t c =
        let before : ℕ → ℕ → List ℕ → Bool = λ k q p'. children r p k q p' || gone q p' in
        let start : Cleared s n f (before 0) t =
          Cleared-same s n tree f gone (before 0) t c (λ q p' is' real'. no_child q p') in
        each-Returns (λ k. Cleared s n f (before k)) nindirect _
          (λ i u lt c'.
            let word = word_below (before i) u c' r p i is real in
            elim (Bool-cases (address s n r (i ∷ p) == 0)) [
              | inl none_ ↦
                  rw (word, none_)
                    (returns (
                      Cleared-same s n tree f (before i) (before (i + 1)) u c'
                        (λ q p' is' real'. skipped i none_ q p' real')))
              | inr full ↦
                  rw (word, full)
                    (Returns-mono
                      (bfree-Cleared s n tree f (before i) u c' r (i ∷ p) (inner i lt) full
                        (rw (child_new r p i) (new i lt)))
                      (λ _ w c''.
                        Cleared-same s n tree f _ (before (i + 1)) w c''
                          (λ q p' is' real'. grown i q p')))
            ])
          nindirect 0 t refl start
      where
        no_child : (q : ℕ) (p' : List ℕ) → (children r p 0 q p' || gone q p') ≡ gone q p'
        no_child q [] = refl
        no_child q (i ∷ p') = ground arith

        grown :
            (i q : ℕ) (p' : List ℕ)
            → (children r p (i + 1) q p' || gone q p')
              ≡ (same_place q p' r (i ∷ p) || (children r p i q p' || gone q p'))
        grown i q p' = rw (children_step r p i q p') (ground arith)

        skipped :
            (i : ℕ)
            → (address s n r (i ∷ p) == 0) ≡ true
            → (q : ℕ) (p' : List ℕ) → (address s n q p' == 0) ≡ false
            → (children r p (i + 1) q p' || gone q p') ≡ (children r p i q p' || gone q p')
        skipped i none_ q p' real' =
            rw (children_step r p i q p') (elim (Bool-cases (same_place q p' r (i ∷ p))) [
              | inr off ↦ rw off refl
              | inl on ↦
                  let (eq, ep) = same_place-eq q p' r (i ∷ p) on in
                  let e : (address s n q p' == 0) ≡ true = rw (eq, ep) none_ in cc (e, real')
            ])

    -- And then the block of addresses itself.
    pub node-Cleared :
        (t : FileSystem)
        → gone r p ≡ false
        → Cleared s n f gone t
        → Returns
            (λ _.
              Cleared s n f
                (λ q p'. same_place q p' r p || (children r p nindirect q p' || gone q p')))
            ((each_word bfree (address s n r p) >> bfree (address s n r p)) t)
    node-Cleared t new' c =
        Returns-bind (each_word bfree (address s n r p) t) (λ _. bfree (address s n r p))
          (each_word-Cleared t c)
          (λ _ u c'. bfree-Cleared s n tree f _ u c' r p is real (rw (child_self r p) new'))
