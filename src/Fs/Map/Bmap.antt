-- ===== src/Fs/Map/Bmap.antt =====
-- bmap of project3_filesystem/fs.c on each of its levels.
use ele3021_os.Prelude.{
  ◌%◌, ◌/◌, true, ◌-◌, ltb, ◌≤◌, ==_refl, sym, update, refl, subst, ==_iff, inl, ◌∙◌, inr, ap,
  arith, Bool-cases, not, false, ◌∷◌, [], ◌≡◌, count_pos, Bool, ◌==◌, ◌<◌, List, ℕ,
}
use ele3021_os.Outcome.{◌>>=◌, Returns, returns, Returns-bind}
use ele3021_os.Fs.State.{nindirect, FileSystem, Inode, word_at}
use ele3021_os.Fs.Bitmap.{is_used, balloc}
use ele3021_os.Fs.Bitmap.Alloc.{Allocated, balloc-Allocated}
use ele3021_os.Fs.Map.{ntriple, ndouble, bmap, root_of, with_root, bmapstep, ensure_root}
use ele3021_os.Fs.Map.Paths.{
  IsPlace-block, indices_of_block, root_of_block, maxfile, IsPlace, address, same_place,
}
use ele3021_os.Fs.Map.Tree.{IsTree, Ensured, free_count}
use ele3021_os.Fs.Map.Step.{Grown-Ensured}
use ele3021_os.Fs.Map.Grow.{at_root-Grown, in_node-Grown}
use ele3021_os.Fs.Map.Chain.{Reached, Reached-root, Reached-step, same_place-eq}

-- A place that holds an address is left as it is.
unchanged :
    (s : FileSystem) (n : Inode) (r : ℕ) (p : List ℕ) (changed : ℕ → Bool)
    → IsTree s n
    → (address s n r p == 0) ≡ false
    → Ensured s n r p changed (address s n r p) s n
unchanged s n r p changed tree real = record {
  tree = tree;
  here = refl;
  real = real;
  places = λ q p' is. elim (Bool-cases (same_place q p' r p)) [
    | inr off ↦ rw off refl
    | inl on ↦ let (eq, ep) = same_place-eq q p' r p on in rw on (rw (eq, ep) refl)
  ];
  old = λ _. refl;
  fresh = λ none_. absurd (ground arith);
  blocks = λ c lt on off away. refl;
  used = λ c lt on. on;
  free = omega arith;
  size = refl;
  bmapstart = refl;
}

-- With a free block to count, balloc returns one.
balloc_counted :
    (s : FileSystem) (n : Inode) → IsTree s n → 0 < free_count s → Returns (Allocated s) (balloc s)
balloc_counted s n tree more =
    let (f, lt, free) = count_pos s.size (λ c. not (is_used s c)) more in
    balloc-Allocated s tree.formatted f lt (ground arith)

abbrev pub OthersKept : ℕ → FileSystem → FileSystem → Type 0
OthersKept ip s t = (j : ℕ) → (j == ip) ≡ false → t.inodes j ≡ s.inodes j

module _ (s : FileSystem) (ip : ℕ) where
  abbrev file : Inode
  file = s.inodes ip

  -- The places from the root `r` down to `(r, p)` hold addresses; `a` is the last.
  abbrev pub At : ℕ → List ℕ → ℕ → FileSystem → Type 0
  At r p a t = Reached s file r p a t (t.inodes ip) × OthersKept ip s t

  ensure_root-At :
      (r : ℕ) → IsTree s file → r < 13 → 0 < free_count s → Returns (At r []) (ensure_root ip r s)
  unfolding ensure_root address
  ensure_root-At r tree small more = elim (Bool-cases (root_of file r == 0)) [
    | inr real ↦ rw real (
        returns (
          Reached-root s file r (root_of file r) s file
              (unchanged s file r [] (λ c. false) tree real),
          λ j off. refl,
        ))
    | inl none_ ↦
        let empty : root_of file r ≡ 0 = (==_iff (root_of file r) 0).0 none_ in
        rw none_ (
          Returns-bind {Q = At r []} (balloc s) _ (balloc_counted s file tree more) (λ b t a.
            let at_ip : t.inodes ip ≡ file = ap (λ (f : ℕ → Inode). f ip) a.inodes in
            let grown = at_root-Grown s file tree b t a r ip small empty at_ip in
            let here : with_root r b file ≡ (update t.inodes ip (with_root r b (t.inodes ip))) ip =
              ap (λ k. with_root r b k) (sym at_ip) ∙ rw (==_refl ip) refl in
            returns (
              subst (Reached s file r [] b _) here (
                  Reached-root s file r b _ (with_root r b file) (
                    Grown-Ensured s file tree r [] (small, omega arith, tt) (λ c. false) empty b _
                      (with_root r b file) grown)),
              λ j off. rw off (ap (λ (f : ℕ → Inode). f j) a.inodes),
            )))
  ]

  bmapstep-At :
      (r : ℕ) (p : List ℕ) (i : ℕ) (a : ℕ) (t : FileSystem)
      → IsPlace r (i ∷ p)
      → At r p a t
      → 0 < free_count t
      → Returns (At r (i ∷ p)) (bmapstep a i t)
  unfolding bmapstep address
  bmapstep-At r p i a t place (g, others) more =
      let node : ℕ = address t (t.inodes ip) r p in
      let at : node ≡ a = g.here in
      let real : (node == 0) ≡ false = ap (λ k. k == 0) at ∙ g.real in
      let m : Inode = t.inodes ip in
      let g' : Reached s file r p node t m = subst (λ k. Reached s file r p k t m) (sym at) g in
      let value : address t m r (i ∷ p) ≡ word_at (t.blocks node) i = rw real refl in
      subst (λ k. Returns (At r (i ∷ p)) (bmapstep k i t)) at
        (elim (Bool-cases (word_at (t.blocks node) i == 0)) [
          | inr full ↦ rw full (
              returns (
                Reached-step s file r p i place node t m g' (word_at (t.blocks node) i) t m (
                    subst (λ k. Ensured t m r (i ∷ p) (λ c. c == node) k t m) value
                      (unchanged t m r (i ∷ p) (λ c. c == node) g.tree
                        (ap (λ k. k == 0) value ∙ full))),
                others,
              ))
          | inl none_ ↦
              let empty : word_at (t.blocks node) i ≡ 0 =
                (==_iff (word_at (t.blocks node) i) 0).0 none_ in
              rw none_ (
                Returns-bind {Q = At r (i ∷ p)} (balloc t) _ (balloc_counted t m g.tree more)
                  (λ b w al.
                    let same : m ≡ w.inodes ip = ap (λ (f : ℕ → Inode). f ip) (sym al.inodes) in
                    let e =
                      Grown-Ensured t m g.tree r (i ∷ p) place (λ c. c == node) (value ∙ empty) b _
                        m (in_node-Grown t m g.tree b w al r i p place real empty) in
                    returns (
                      subst (Reached s file r (i ∷ p) b _) same
                          (Reached-step s file r p i place node t m g' b _ m e),
                      λ j off. ap (λ (f : ℕ → Inode). f j) al.inodes ∙ others j off,
                    )))
        ])

  module _ (tree : IsTree s file) (room : 4 ≤ free_count s) where
    two :
        (r i : ℕ)
        → IsPlace r (i ∷ [])
        → Returns (At r (i ∷ [])) ((ensure_root ip r >>= λ a. bmapstep a i) s)
    two r i place =
        Returns-bind (ensure_root ip r s) (λ a. bmapstep a i)
          (ensure_root-At r tree place.0 (omega arith))
          (λ a t g. bmapstep-At r [] i a t place g (omega (arith, g.0.free)))

    three :
        (r i j : ℕ)
        → IsPlace r (j ∷ i ∷ [])
        → Returns
            (At r (j ∷ i ∷ []))
            ((ensure_root ip r >>= λ a. bmapstep a i >>= λ b. bmapstep b j) s)
    three r i j place =
        let above : IsPlace r (i ∷ []) = (place.0, omega (arith, place.1), place.2.1) in
        Returns-bind (ensure_root ip r s) (λ a. bmapstep a i >>= λ b. bmapstep b j)
          (ensure_root-At r tree place.0 (omega arith))
          (λ a t g.
            Returns-bind (bmapstep a i t) (λ b. bmapstep b j)
              (bmapstep-At r [] i a t above g (omega (arith, g.0.free)))
              (λ b u h. bmapstep-At r (i ∷ []) j b u place h (omega (arith, h.0.free))))

    four :
        (r i j k : ℕ)
        → IsPlace r (k ∷ j ∷ i ∷ [])
        → Returns
            (At r (k ∷ j ∷ i ∷ []))
            ((ensure_root ip r >>= λ a. bmapstep a i >>= λ b. bmapstep b j >>= λ c. bmapstep c k) s)
    four r i j k place =
        let above : IsPlace r (j ∷ i ∷ []) = (place.0, omega (arith, place.1), place.2.1) in
        let top : IsPlace r (i ∷ []) = (place.0, omega (arith, place.1), above.2.1) in
        Returns-bind (ensure_root ip r s)
          (λ a. bmapstep a i >>= λ b. bmapstep b j >>= λ c. bmapstep c k)
          (ensure_root-At r tree place.0 (omega arith))
          (λ a t g.
            Returns-bind (bmapstep a i t) (λ b. bmapstep b j >>= λ c. bmapstep c k)
              (bmapstep-At r [] i a t top g (omega (arith, g.0.free)))
              (λ b u h.
                Returns-bind (bmapstep b j u) (λ c. bmapstep c k)
                  (bmapstep-At r (i ∷ []) j b u above h (omega (arith, h.0.free)))
                  (λ c w l. bmapstep-At r (j ∷ i ∷ []) k c w place l (omega (arith, l.0.free)))))

    pub bmap-At :
        (bn : ℕ)
        → bn < maxfile
        → Returns (At (root_of_block bn) (indices_of_block bn)) (bmap ip bn s)
    unfolding bmap
    bmap-At bn lt =
        let place = IsPlace-block bn lt in
        elim (Bool-cases (ltb bn 10)) [
          | inl e ↦ rw e (ensure_root-At bn tree (ground arith) (omega arith))
          | inr e ↦ elim (Bool-cases (ltb bn 138)) [
            | inl f ↦
                let f' : ltb (bn - 10) nindirect ≡ true = ground arith in
                rw (e, f, f') (two 10 (bn - 10) (ground arith))
            | inr f ↦
                let f' : ltb (bn - 10) nindirect ≡ false = ground arith in
                elim (Bool-cases (ltb bn 16522)) [
                  | inl g ↦
                      let g' : ltb (bn - 138) ndouble ≡ true = ground arith in
                      rw (e, f, f', g, g')
                        (three 11 ((bn - 138) / 128) ((bn - 138) % 128) (ground arith))
                  | inr g ↦
                      let g' : ltb (bn - 138) ndouble ≡ false = ground arith in
                      let h : ltb (bn - 16522) ntriple ≡ true = ground arith in
                      rw (e, f, f', g, g', h)
                        (four 12 ((bn - 16522) / 16384) ((bn - 16522) % 16384 / 128)
                          ((bn - 16522) % 16384 % 128) (ground arith))
                ]
          ]
        ]
