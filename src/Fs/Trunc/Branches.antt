-- ===== src/Fs/Trunc/Branches.antt =====
-- freeDouble of project3_filesystem/fs.c, called on the double indirect block of the file.
use ele3021_os.Fs.Bitmap.{bfree}
use ele3021_os.Fs.Trunc.Clear.{bfree-Cleared, Cleared-same, Cleared}
use ele3021_os.Fs.Map.Chain.{same_place-eq}
use ele3021_os.Fs.Map.{root_of}
use ele3021_os.Fs.Trunc.{each_word, free_below, free_double}
use ele3021_os.Fs.Map.Tree.{IsTree}
use ele3021_os.Fs.Trunc.Levels.{child_self, each_word-Cleared, word_below, children, branches}
use ele3021_os.Fs.State.{nindirect, Inode, FileSystem}
use ele3021_os.Fs.Map.Paths.{same_place, IsPlace, address}
use ele3021_os.Prelude.{
  sym, subst, ◌∙◌, ap, inr, inl, Bool-cases, ltb, refl, ◌<◌, ◌||◌, arith, Bool, true, [], false,
  ◌+◌, ◌==◌, ◌∷◌, ◌≡◌, List, ℕ,
}
use ele3021_os.Outcome.{Returns-mono, returns, each-Returns, each, Returns-bind, Returns}

branches_step :
    (r k q : ℕ) (p : List ℕ)
    → IsPlace q p
    → branches r (k + 1) q p
      ≡ (same_place q p r (k ∷ []) || (children r (k ∷ []) nindirect q p || branches r k q p))
branches_step r k q [] is = ground arith
branches_step r k q (i ∷ []) is = ground arith
branches_step r k q (j ∷ i ∷ []) is =
    let small : ltb j 128 ≡ true = ground (arith, is.2.0) in rw small (ground arith)
branches_step r k q (j ∷ i ∷ l ∷ p) is = ground arith

no_branch : (r q : ℕ) (p : List ℕ) → branches r 0 q p ≡ false
no_branch r q [] = refl
no_branch r q (i ∷ []) = ground arith
no_branch r q (j ∷ i ∷ []) = ground arith
no_branch r q (j ∷ i ∷ l ∷ p) = refl

branch_new : (r k : ℕ) → branches r k r (k ∷ []) ≡ false
branch_new r k = ground arith

branch_below_new : (r k i : ℕ) → branches r k r (i ∷ k ∷ []) ≡ false
branch_below_new r k i = ground arith

zero_below :
    (s : FileSystem) (n : Inode) (r i : ℕ) (p : List ℕ)
    → (address s n r p == 0) ≡ true
    → (address s n r (i ∷ p) == 0) ≡ true
unfolding address
zero_below s n r i p none_ = rw none_ refl

module _ (s : FileSystem) (n : Inode) (tree : IsTree s n) (f : ℕ → Inode) (gone : ℕ → List ℕ → Bool)
    (r : ℕ) (double : r ≡ 11) (real : (address s n r [] == 0) ≡ false)
    (new : (p : List ℕ) → gone r p ≡ false) where
  abbrev before : ℕ → ℕ → List ℕ → Bool
  before k q p = branches r k q p || gone q p

  root : IsPlace r []
  root = (omega (arith, double), omega arith, tt)

  first : (i : ℕ) → i < nindirect → IsPlace r (i ∷ [])
  first i lt = (omega (arith, double), omega (arith, double), (lt, tt))

  second : (i j : ℕ) → i < nindirect → j < nindirect → IsPlace r (j ∷ i ∷ [])
  second i j lt lt' = (omega (arith, double), omega (arith, double), (lt', (lt, tt)))

  -- A word that is 0 has no branch.
  skipped :
      (i : ℕ)
      → (address s n r (i ∷ []) == 0) ≡ true
      → (q : ℕ) (p : List ℕ) → IsPlace q p
      → (address s n q p == 0) ≡ false
      → before (i + 1) q p ≡ before i q p
  skipped i none_ q p is real' =
      rw (branches_step r i q p is) (elim (Bool-cases (same_place q p r (i ∷ []))) [
        | inl on ↦
            let (eq, ep) = same_place-eq q p r (i ∷ []) on in
            let e : (address s n q p == 0) ≡ true = rw (eq, ep) none_ in cc (e, real')
        | inr off ↦ elim (Bool-cases (children r (i ∷ []) nindirect q p)) [
          | inr off' ↦ rw (off, off') refl
          | inl on' ↦ absurd (below p on' is real')
        ]
      ])
    where
      below :
          (p : List ℕ)
          → children r (i ∷ []) nindirect q p ≡ true
          → IsPlace q p
          → (address s n q p == 0) ≡ false
          → ⊥
      below [] on' is real' = cc on'
      below (j ∷ p) on' is real' =
          let (eq, ep) = same_place-eq q p r (i ∷ []) (ground (arith, on')) in
          let e : (address s n q (j ∷ p) == 0) ≡ true =
            rw (eq, ep) (zero_below s n r j (i ∷ []) none_) in
          cc (e, real')

  branch_Cleared :
      (i : ℕ) (u : FileSystem)
      → i < nindirect
      → Cleared s n f (before i) u
      → Returns (λ _. Cleared s n f (before (i + 1))) (free_below (address s n r []) i u)
  branch_Cleared i u lt c =
      let word = word_below s n tree f (before i) u c r [] i root real in
      elim (Bool-cases (address s n r (i ∷ []) == 0)) [
        | inl none_ ↦
            rw (word, none_)
              (returns (Cleared-same s n tree f (before i) (before (i + 1)) u c (skipped i none_)))
        | inr full ↦
            let inner : ℕ → List ℕ → Bool =
              λ q p. children r (i ∷ []) nindirect q p || before i q p in
            let here : before i r (i ∷ []) ≡ false = rw (branch_new r i) (new (i ∷ [])) in
            rw (word, full)
              (Returns-bind (each_word bfree (address s n r (i ∷ [])) u) _
                (each_word-Cleared s n tree f (before i) r (i ∷ []) (λ j lt'. second i j lt lt')
                  (first i lt) full (λ j lt'. rw (branch_below_new r i j) (new (j ∷ i ∷ []))) u c)
                (λ _ w c'.
                  let word' = word_below s n tree f inner w c' r [] i root real in
                  rw word' (
                    Returns-mono
                      (bfree-Cleared s n tree f inner w c' r (i ∷ []) (first i lt) full
                        (rw (child_self r (i ∷ [])) here))
                      (λ _ x c''.
                        Cleared-same s n tree f _ (before (i + 1)) x c''
                          (λ q p is real'. rw (branches_step r i q p is) (ground arith))))))
      ]

  -- The double indirect block goes with all below it.
  pub free_double-Cleared :
      (ip : ℕ) (t : FileSystem)
      → root_of (f ip) 11 ≡ root_of n 11
      → Cleared s n f gone t
      → Returns
          (λ _.
            Cleared s n f (λ q p. same_place q p r [] || (branches r nindirect q p || gone q p)))
          (free_double ip (address s n r []) t)
  unfolding free_double address
  free_double-Cleared ip t same c =
      Returns-bind (each nindirect 0 (free_below (address s n r [])) t) _
        (each-Returns (λ k. Cleared s n f (before k)) nindirect (free_below (address s n r []))
          (λ i u lt c'. branch_Cleared i u lt c') nindirect 0 t refl
          (Cleared-same s n tree f gone (before 0) t c (λ q p is real'. rw (no_branch r q p) refl)))
        (λ _ u c'.
          let at : (u.inodes ip).d_addr ≡ address s n r [] =
            ap (λ (g : ℕ → Inode). (g ip).d_addr) c'.inodes ∙ same ∙ rw double refl in
          subst
            (λ a.
              Returns (λ _. Cleared s n f (λ q p. same_place q p r [] || before nindirect q p))
                (bfree a u))
            (sym at) (bfree-Cleared s n tree f (before nindirect) u c' r [] root real (new [])))
