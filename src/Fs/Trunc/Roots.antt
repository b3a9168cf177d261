-- ===== src/Fs/Trunc/Roots.antt =====
-- itrunc of project3_filesystem/fs.c, root by root.
use ele3021_os.Fs.Trunc.Branches.{free_double-Cleared}
use ele3021_os.Fs.Trunc.Levels.{node-Cleared, branches, children}
use ele3021_os.Fs.Bitmap.{bfree}
use ele3021_os.Fs.Map.Bmap.{OthersKept}
use ele3021_os.Fs.Trunc.{drop_roots, free_double, each_word, drop_root}
use ele3021_os.Fs.Trunc.Clear.{bfree-Cleared, Cleared-start, Cleared-same, Cleared}
use ele3021_os.Fs.Map.Tree.{IsTree}
use ele3021_os.Fs.Map.{with_root, root_of}
use ele3021_os.Prelude.{
  sym, ==_refl, subst, update, ◌||◌, ap, inr, ==_iff, inl, false, arith, refl, ◌==◌, ltb, ◌∷◌,
  Bool-cases, ◌∙◌, if◌then◌else◌, ◌≤◌, [], Bool, ◌≡◌, List, ◌+◌, ◌<◌, ℕ,
}
use ele3021_os.Fs.Map.Paths.{same_place, IsPlace, address}
use ele3021_os.Fs.State.{nindirect, ndirect, FileSystem, Inode}
use ele3021_os.Outcome.{Returns-mono, each-Returns, Returns-bind, returns, each, Returns, Cmd, ◌>>◌}

-- The roots before `k` are 0 in `m`; the other fields but the size are as in `n`.
pub record Dropped (n : Inode) (k : ℕ) (m : Inode) : Type 0 where
  pub zeros : (r : ℕ) → r < k → root_of m r ≡ 0
  pub rest : (r : ℕ) → k ≤ r → r < 13 → root_of m r ≡ root_of n r
  pub inum : m.inum ≡ n.inum
  pub kind : m.kind ≡ n.kind
  pub major : m.major ≡ n.major
  pub minor : m.minor ≡ n.minor
  pub nlink : m.nlink ≡ n.nlink

root-with_root :
    (m : Inode) (r v q : ℕ) → root_of (with_root r v m) q ≡ (if q == r then v else root_of m q)
root-with_root m r v q = ground arith

Dropped-next : (n m : Inode) (k : ℕ) → Dropped n k m → Dropped n (k + 1) (with_root k 0 m)
Dropped-next n m k d = record {
  zeros = λ r lt. root-with_root m k 0 r ∙ ground (arith, d.zeros r);
  rest = λ r le lt.
      root-with_root m k 0 r
      ∙ (let off : (r == k) ≡ false = ground arith in rw off (d.rest r (omega arith) lt));
  inum = ground (arith, d.inum);
  kind = ground (arith, d.kind);
  major = ground (arith, d.major);
  minor = ground (arith, d.minor);
  nlink = ground (arith, d.nlink);
}

-- A root that is 0 is dropped already.
Dropped-zero : (n m : Inode) (k : ℕ) → root_of m k ≡ 0 → Dropped n k m → Dropped n (k + 1) m
Dropped-zero n m k none_ d = record {
  zeros = λ r lt. elim (Bool-cases (r == k)) [
    | inl e ↦ let at : r ≡ k = (==_iff r k).0 e in rw at none_
    | inr e ↦ d.zeros r (ground arith)
  ];
  rest = λ r le lt. d.rest r (omega arith) lt;
  inum = d.inum;
  kind = d.kind;
  major = d.major;
  minor = d.minor;
  nlink = d.nlink;
}

no_root : (s : FileSystem) (n : Inode) (r : ℕ) (p : List ℕ) → root_of n r ≡ 0 → address s n r p ≡ 0
unfolding address
no_root s n r [] none_ = none_
no_root s n r (i ∷ p) none_ = rw (no_root s n r p none_) refl

Cleared-inodes :
    (s : FileSystem) (n : Inode) (f g : ℕ → Inode) (gone : ℕ → List ℕ → Bool) (u : FileSystem)
    → Cleared s n f gone u
    → Cleared s n g gone (record u { inodes = g })
Cleared-inodes s n f g gone u c = record {
  freed = c.freed;
  kept = c.kept;
  blocks = c.blocks;
  bytes = c.bytes;
  inodes = refl;
  size = c.size;
  bmapstart = c.bmapstart;
  inodestart = c.inodestart;
}

module _ (s : FileSystem) (ip : ℕ) (tree : IsTree s (s.inodes ip)) where
  abbrev n : Inode
  n = s.inodes ip

  -- The blocks below the roots before `k` are free, and those roots are 0.
  abbrev pub Upto : ℕ → FileSystem → Type 0
  Upto k t = Cleared s n t.inodes (λ r p. ltb r k) t × Dropped n k (t.inodes ip) × OthersKept ip s t

  drop_root-Upto :
      (k : ℕ) (free : ℕ → Cmd FileSystem Unit) (t : FileSystem)
      → k < 13
      → Upto k t
      → ((root_of n k == 0) ≡ false
          → Returns (λ _. Cleared s n t.inodes (λ r p. ltb r (k + 1))) (free (root_of n k) t))
      → Returns (λ _. Upto (k + 1)) (drop_root ip k free t)
  drop_root-Upto k free t lt (c, d, others) frees =
      let at : root_of (t.inodes ip) k ≡ root_of n k = d.rest k (omega arith) lt in
      elim (Bool-cases (root_of n k == 0)) [
        | inl none_ ↦
            let zero_root : root_of n k ≡ 0 = (==_iff (root_of n k) 0).0 none_ in
            rw (at, none_)
              (returns (
                Cleared-same s n tree t.inodes _ (λ r p. ltb r (k + 1)) t c
                    (λ r p is real. elim (Bool-cases (r == k)) [
                      | inr off ↦ ground arith
                      | inl on ↦
                          let here : r ≡ k = (==_iff r k).0 on in
                          let e : address s n r p ≡ 0 =
                            no_root s n r p (ap (λ j. root_of n j) here ∙ zero_root) in
                          absurd (ground (arith, e))
                    ]),
                Dropped-zero n (t.inodes ip) k (at ∙ zero_root) d,
                others,
              ))
        | inr some_ ↦
            rw (at, some_)
              (Returns-bind (free (root_of n k) t) _ (frees some_) (λ _ u c'.
                let g : ℕ → Inode = update u.inodes ip (with_root k 0 (u.inodes ip)) in
                let same : u.inodes ip ≡ t.inodes ip = ap (λ (f : ℕ → Inode). f ip) c'.inodes in
                let here : g ip ≡ with_root k 0 (u.inodes ip) = rw (==_refl ip) refl in
                let d' : Dropped n (k + 1) (g ip) =
                  subst (Dropped n (k + 1)) (sym here)
                    (Dropped-next n (u.inodes ip) k (subst (Dropped n k) (sym same) d)) in
                returns (
                  Cleared-inodes s n t.inodes g (λ r p. ltb r (k + 1)) u c',
                  d',
                  λ j off. rw off (ap (λ (f : ℕ → Inode). f j) c'.inodes ∙ others j off),
                )))
      ]

  unfolding_root : (r : ℕ) → address s n r [] ≡ root_of n r
  unfolding address
  unfolding_root r = refl

  direct-Upto :
      (k : ℕ) (t : FileSystem)
      → k < ndirect
      → Upto k t
      → Returns (λ _. Upto (k + 1)) (drop_root ip k bfree t)
  direct-Upto k t lt up = drop_root-Upto k bfree t (omega arith) up (λ real.
      let real' : (address s n k [] == 0) ≡ false = ap (λ a. a == 0) (unfolding_root k) ∙ real in
      subst (λ a. Returns (λ _. Cleared s n t.inodes (λ r p. ltb r (k + 1))) (bfree a t))
        (unfolding_root k)
        (Returns-mono
          (bfree-Cleared s n tree t.inodes _ t up.0 k [] (omega arith, omega arith, tt) real'
            (ground arith))
          (λ _ u c.
            Cleared-same s n tree t.inodes _ (λ r p. ltb r (k + 1)) u c
              (λ r p is real. all_direct r p is))))
    where
      all_direct :
          (r : ℕ) (p : List ℕ) → IsPlace r p → ltb r (k + 1) ≡ (same_place r p k [] || ltb r k)
      all_direct r [] is = ground arith
      all_direct r (i ∷ p) is = ground (arith, is.1)

  indirect-Upto :
      (t : FileSystem)
      → Upto 10 t
      → Returns (λ _. Upto 11) (drop_root ip 10 (λ v. each_word bfree v >> bfree v) t)
  indirect-Upto t up =
      drop_root-Upto 10 (λ v. each_word bfree v >> bfree v) t (omega arith) up
        (λ real.
          let real' : (address s n 10 [] == 0) ≡ false =
            ap (λ a. a == 0) (unfolding_root 10) ∙ real in
          subst
            (λ a.
              Returns (λ _. Cleared s n t.inodes (λ r p. ltb r 11))
                ((each_word bfree a >> bfree a) t))
            (unfolding_root 10)
            (Returns-mono
              (node-Cleared s n tree t.inodes _ 10 [] (λ i lt. (omega arith, omega arith, (lt, tt)))
                (omega arith, omega arith, tt) real' (λ i lt. refl) t refl up.0)
              (λ _ u c.
                Cleared-same s n tree t.inodes _ (λ r p. ltb r 11) u c
                  (λ r p is real. all_single r p is))))
    where
      all_single :
          (r : ℕ) (p : List ℕ)
          → IsPlace r p
          → ltb r 11 ≡ (same_place r p 10 [] || (children 10 [] nindirect r p || ltb r 10))
      all_single r [] is = ground arith
      all_single r (i ∷ []) is = ground (arith, is.1, is.2.0)
      all_single r (i ∷ j ∷ p) is = ground (arith, is.1)

  double-Upto :
      (t : FileSystem) → Upto 11 t → Returns (λ _. Upto 12) (drop_root ip 11 (free_double ip) t)
  double-Upto t up = drop_root-Upto 11 (free_double ip) t (omega arith) up (λ real.
      let real' : (address s n 11 [] == 0) ≡ false = ap (λ a. a == 0) (unfolding_root 11) ∙ real in
      subst (λ a. Returns (λ _. Cleared s n t.inodes (λ r p. ltb r 12)) (free_double ip a t))
        (unfolding_root 11)
        (Returns-mono
          (free_double-Cleared s n tree t.inodes _ 11 refl real' (λ p. refl) ip t
            (up.1.rest 11 (omega arith) (omega arith)) up.0)
          (λ _ u c.
            Cleared-same s n tree t.inodes _ (λ r p. ltb r 12) u c
              (λ r p is real. all_double r p is))))
    where
      all_double :
          (r : ℕ) (p : List ℕ)
          → IsPlace r p
          → ltb r 12 ≡ (same_place r p 11 [] || (branches 11 nindirect r p || ltb r 11))
      all_double r [] is = ground arith
      all_double r (i ∷ []) is = ground (arith, is.1, is.2.0)
      all_double r (j ∷ i ∷ []) is = ground (arith, is.1, is.2.1.0)
      all_double r (j ∷ i ∷ l ∷ p) is = ground (arith, is.1)

  -- All roots but the last, which holds nothing.
  pub drop_roots-Upto : n.t_addr ≡ 0 → Returns (λ _. Upto 13) (drop_roots ip s)
  unfolding drop_roots
  drop_roots-Upto short =
      Returns-bind (each ndirect 0 (λ i. drop_root ip i bfree) s) _
        (each-Returns Upto ndirect (λ i. drop_root ip i bfree) (λ i t lt up. direct-Upto i t lt up)
          ndirect 0 s refl start)
        (λ _ t up.
          Returns-bind (drop_root ip 10 (λ v. each_word bfree v >> bfree v) t) _
            (indirect-Upto t up)
            (λ _ u up'.
              Returns-bind (drop_root ip 11 (free_double ip) u) _ (double-Upto u up') (λ _ w up''.
                drop_root-Upto 12 (λ v. each_word (free_double ip) v >> bfree v) w (omega arith)
                  up'' (λ real. absurd (ground (arith, short))))))
    where
      start : Upto 0 s
      start = (
        Cleared-same s n tree s.inodes _ (λ r p. ltb r 0) s (Cleared-start s n tree s.inodes)
            (λ r p is real. ground arith),
        record {
          zeros = λ r lt. absurd (omega arith);
          rest = λ r le lt. refl;
          inum = refl;
          kind = refl;
          major = refl;
          minor = refl;
          nlink = refl;
        },
        λ j off. refl,
      )
