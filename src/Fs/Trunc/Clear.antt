-- ===== src/Fs/Trunc/Clear.antt =====
-- The blocks that truncation in project3_filesystem/fs.c has freed so far.
use ele3021_os.Fs.Map.Chain.{same_place-eq}
use ele3021_os.Outcome.{Returns-mono, Returns}
use ele3021_os.Fs.Bitmap.Free.{bfree-Freed, Freed}
use ele3021_os.Fs.Bitmap.{bfree, is_used, bblock}
use ele3021_os.Fs.Map.Paths.{same_list_refl, same_place, address, IsPlace}
use ele3021_os.Fs.Map.Tree.{IsTree}
use ele3021_os.Fs.State.{Inode, FileSystem}
use ele3021_os.Prelude.{
  ==_refl, arith, subst, ==_iff, inl, refl, ◌||◌, inr, ◌+◌, ◌∙◌, ◌<◌, Bool-cases, ◌/◌, sym, ap,
  ◌==◌, true, ◌≡◌, false, Bool, List, ℕ,
}

-- From `s`, exactly the blocks at the places in `gone` of the file `n` are freed, and no block but
-- those of the free map has changed. The inodes are `f`.
pub record Cleared (s : FileSystem) (n : Inode) (f : ℕ → Inode) (gone : ℕ → List ℕ → Bool)
    (t : FileSystem) : Type 0 where
  pub freed :
      (r : ℕ) (p : List ℕ)
      → IsPlace r p
      → gone r p ≡ true
      → (address s n r p == 0) ≡ false
      → is_used t (address s n r p) ≡ false
  pub kept :
      (c : ℕ)
      → c < s.size
      → ((r : ℕ) (p : List ℕ)
          → IsPlace r p
          → gone r p ≡ true
          → (address s n r p == 0) ≡ false
          → (address s n r p == c) ≡ false)
      → is_used t c ≡ is_used s c
  pub blocks :
      (c : ℕ) → ((d : ℕ) → d < s.size → (bblock s d == c) ≡ false) → t.blocks c ≡ s.blocks c
  pub bytes : (c i : ℕ) → t.blocks c i < 256
  pub inodes : t.inodes ≡ f
  pub size : t.size ≡ s.size
  pub bmapstart : t.bmapstart ≡ s.bmapstart
  pub inodestart : t.inodestart ≡ s.inodestart

module _ (s : FileSystem) (n : Inode) (tree : IsTree s n) (f : ℕ → Inode) where
  -- Places without a block do not count.
  pub Cleared-same :
      (gone gone' : ℕ → List ℕ → Bool) (t : FileSystem)
      → Cleared s n f gone t
      → ((r : ℕ) (p : List ℕ) → IsPlace r p → (address s n r p == 0) ≡ false → gone' r p ≡ gone r p)
      → Cleared s n f gone' t
  Cleared-same gone gone' t c same = record {
    freed = λ r p is on real. c.freed r p is (sym (same r p is real) ∙ on) real;
    kept = λ b lt away. c.kept b lt (λ r p is on real. away r p is (same r p is real ∙ on) real);
    blocks = c.blocks;
    bytes = c.bytes;
    inodes = c.inodes;
    size = c.size;
    bmapstart = c.bmapstart;
    inodestart = c.inodestart;
  }

  pub Cleared-start : Cleared s n s.inodes (λ r p. false) s
  Cleared-start = record {
    freed = λ r p is on real. cc;
    kept = λ b lt away. refl;
    blocks = λ c away. refl;
    bytes = tree.formatted.bytes;
    inodes = refl;
    size = refl;
    bmapstart = refl;
    inodestart = refl;
  }

  module _ (gone : ℕ → List ℕ → Bool) (t : FileSystem) (c : Cleared s n f gone t) where
    -- A block of the file reads as it did.
    pub same_node :
        (r : ℕ) (p : List ℕ)
        → IsPlace r p
        → (address s n r p == 0) ≡ false
        → t.blocks (address s n r p) ≡ s.blocks (address s n r p)
    same_node r p is real = c.blocks (address s n r p) (λ d lt. tree.data_ r p d is real lt)

    same_bblock : (b : ℕ) → bblock t b ≡ bblock s b
    same_bblock b = ap (λ k. b / 4096 + k) c.bmapstart

    module _ (r : ℕ) (p : List ℕ) (is : IsPlace r p) (real : (address s n r p == 0) ≡ false)
        (new : gone r p ≡ false) where
      apart :
          (q : ℕ) (p' : List ℕ)
          → IsPlace q p'
          → gone q p' ≡ true
          → (address s n q p' == 0) ≡ false
          → (address s n q p' == address s n r p) ≡ false
      apart q p' is' on real' = elim (Bool-cases (address s n q p' == address s n r p)) [
        | inr e ↦ e
        | inl e ↦
            let at : address s n q p' ≡ address s n r p =
              (==_iff (address s n q p') (address s n r p)).0 e in
            let (eq, ep) = same_place-eq q p' r p (tree.unique q p' r p is' is real' at) in
            let here : gone r p ≡ true =
              subst (λ k. gone k p ≡ true) eq (subst (λ l. gone q l ≡ true) ep on) in
            cc (new, here)
      ]

      Freed-Cleared :
          (u : FileSystem)
          → Freed t (address s n r p) u
          → Cleared s n f (λ q p'. same_place q p' r p || gone q p') u
      Freed-Cleared u e =
          let a : ℕ = address s n r p in
          record {
            freed = λ q p' is' on real'. elim (Bool-cases (same_place q p' r p)) [
              | inl same ↦
                  let (eq, ep) = same_place-eq q p' r p same in
                  let at : address s n q p' ≡ a = rw (eq, ep) refl in
                  let off : (address s n q p' == a) ≡ true = (==_iff (address s n q p') a).1 at in
                  e.used (address s n q p') ∙ rw off refl
              | inr other ↦
                  let on' : gone q p' ≡ true = ground arith in
                  e.used (address s n q p')
                  ∙ rw (c.freed q p' is' on' real', apart q p' is' on' real') refl
            ];
            kept = λ b lt away.
                let off : (a == b) ≡ false =
                  away r p is (rw (==_refl r, same_list_refl p) refl) real in
                let off' : (b == a) ≡ false = ground arith in
                e.used b
                ∙ rw off'
                    (c.kept b lt (λ q p' is' on real'. away q p' is' (ground (arith, on)) real'));
            blocks = λ b away.
                let map : (b == bblock t a) ≡ false =
                  ground (arith, away a (tree.used r p is real).0, same_bblock a) in
                e.kept b map ∙ c.blocks b away;
            bytes = e.bytes;
            inodes = e.inodes ∙ c.inodes;
            size = e.size ∙ c.size;
            bmapstart = e.bmapstart ∙ c.bmapstart;
            inodestart = e.inodestart ∙ c.inodestart;
          }

      -- bfree of a block of the file that has not been freed.
      pub bfree-Cleared :
          Returns
            (λ _. Cleared s n f (λ q p'. same_place q p' r p || gone q p'))
            (bfree (address s n r p) t)
      bfree-Cleared =
          let (lt, used) = tree.used r p is real in
          Returns-mono
            (bfree-Freed t c.bytes (address s n r p) (c.kept (address s n r p) lt apart ∙ used))
            (λ _ u e. Freed-Cleared u e)
