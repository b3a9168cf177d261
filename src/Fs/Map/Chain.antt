-- ===== src/Fs/Map/Chain.antt =====
-- From the root of an inode down to a place: the steps of bmap in project3_filesystem/fs.c, composed.
use ele3021_os.Prelude.{
  refl, sym, ==_iff, subst, ◌+◌, inl, ◌/◌, ◌∙◌, ◌≤◌, inr, ap, arith, length, Bool-cases, ◌==◌, true,
  ◌∷◌, false, ◌≡◌, [], List, ◌<◌, ℕ,
}
use ele3021_os.Fs.State.{FileSystem, Inode}
use ele3021_os.Fs.Bitmap.{bblock, is_used}
use ele3021_os.Fs.Map.Paths.{same_list_iff, IsPlace, address, same_place, depth}
use ele3021_os.Fs.Map.Tree.{IsTree, Ensured, free_count}

-- No block of addresses of the file, and none of the free map.
abbrev pub IsOther : FileSystem → Inode → ℕ → Type 0
IsOther s n c =
    (c < s.size)
    × (is_used s c ≡ true)
    × ((d : ℕ) → d < s.size → (bblock s d == c) ≡ false)
    × ((q : ℕ) (p' : List ℕ) → IsPlace q p' → length p' < depth q → (address s n q p' == c) ≡ false)

-- The places from the root `r` down to `(r, p)` hold addresses, `a` the last of them.
pub record Reached (s : FileSystem) (n : Inode) (r : ℕ) (p : List ℕ) (a : ℕ) (t : FileSystem)
    (m : Inode) : Type 0 where
  pub tree : IsTree t m
  pub here : address t m r p ≡ a
  pub real : (a == 0) ≡ false
  pub kept :
      (q : ℕ) (p' : List ℕ)
      → IsPlace q p'
      → (address s n q p' == 0) ≡ false
      → address t m q p' ≡ address s n q p'
  pub leaves :
      (q : ℕ) (p' : List ℕ)
      → IsPlace q p'
      → length p' ≡ depth q
      → same_place q p' r p ≡ false
      → address t m q p' ≡ address s n q p'
  pub deeper :
      (q : ℕ) (p' : List ℕ)
      → IsPlace q p'
      → length p < length p'
      → address t m q p' ≡ address s n q p'
  pub fresh : (address s n r p == 0) ≡ true → is_used s a ≡ false
  pub blocks : (c : ℕ) → IsOther s n c → t.blocks c ≡ s.blocks c
  pub used : (c : ℕ) → c < s.size → is_used s c ≡ true → is_used t c ≡ true
  pub free : free_count s ≤ free_count t + length p + 1
  pub size : t.size ≡ s.size
  pub bmapstart : t.bmapstart ≡ s.bmapstart

pub same_place-eq :
    (q : ℕ) (p' : List ℕ) (r : ℕ) (p : List ℕ) → same_place q p' r p ≡ true → (q ≡ r) × (p' ≡ p)
same_place-eq q p' r p e = (ground arith, (same_list_iff p' p).0 (ground arith))

longer_apart :
    (q : ℕ) (p' : List ℕ) (r : ℕ) (p : List ℕ) → length p < length p' → same_place q p' r p ≡ false
longer_apart q p' r p lt = elim (Bool-cases (same_place q p' r p)) [
  | inr off ↦ off
  | inl on ↦
      let same : length p' ≡ length p = ap length (same_place-eq q p' r p on).1 in
      absurd (omega arith)
]

module _ (s : FileSystem) (n : Inode) (r : ℕ) where
  pub Reached-root :
      (a : ℕ) (t : FileSystem) (m : Inode)
      → Ensured s n r [] (λ c. false) a t m
      → Reached s n r [] a t m
  Reached-root a t m e = record {
    tree = e.tree;
    here = e.here;
    real = e.real;
    kept = λ q p' is real. elim (Bool-cases (same_place q p' r [])) [
      | inr off ↦ e.places q p' is ∙ rw off refl
      | inl on ↦
          let (eq, ep) = same_place-eq q p' r [] on in
          let real' : (address s n r [] == 0) ≡ false =
            subst (λ k. (address s n k [] == 0) ≡ false) eq
              (subst (λ l. (address s n q l == 0) ≡ false) ep real) in
          e.places q p' is ∙ rw on (e.old real' ∙ rw (eq, ep) refl)
    ];
    leaves = λ q p' is full off. e.places q p' is ∙ rw off refl;
    deeper = λ q p' is long. e.places q p' is ∙ rw (longer_apart q p' r [] long) refl;
    fresh = e.fresh;
    blocks = λ c (lt, on, away, inner). e.blocks c lt on refl away;
    used = e.used;
    free = omega (arith, e.free);
    size = e.size;
    bmapstart = e.bmapstart;
  }

  module _ (p : List ℕ) (i : ℕ) (is_inner : IsPlace r (i ∷ p)) (a : ℕ) (t : FileSystem) (m : Inode)
      (g : Reached s n r p a t m) (a' : ℕ) (u : FileSystem) (k : Inode)
      (e : Ensured t m r (i ∷ p) (λ c. c == a) a' u k) where
    same_map : (d : ℕ) → bblock t d ≡ bblock s d
    same_map d = ap (λ b. d / 4096 + b) g.bmapstart

    above : IsPlace r p
    above = (is_inner.0, omega (arith, is_inner.1), is_inner.2.1)

    -- A data block of the file does not stand where the next index is.
    not_above : (q : ℕ) (p' : List ℕ) → length p' ≡ depth q → same_place q p' r p ≡ false
    not_above q p' full = elim (Bool-cases (same_place q p' r p)) [
      | inr off ↦ off
      | inl on ↦
          let (eq, ep) = same_place-eq q p' r p on in
          let same : length p' ≡ length p = ap length ep in
          absurd (omega (arith, is_inner.1, same, full, eq))
    ]

    deeper_here : address t m r (i ∷ p) ≡ address s n r (i ∷ p)
    deeper_here = g.deeper r (i ∷ p) is_inner (omega arith)

    changed_other : (c : ℕ) → IsOther s n c → (c == a) ≡ false
    changed_other c (lt, on, away, inner) = elim (Bool-cases (c == a)) [
      | inr off ↦ off
      | inl same ↦
          let at : c ≡ a = (==_iff c a).0 same in
          elim (Bool-cases (address s n r p == 0)) [
            | inl none_ ↦ cc (g.fresh none_, subst (λ b. is_used s b ≡ true) at on)
            | inr real ↦
                let old : a ≡ address s n r p = sym g.here ∙ g.kept r p above real in
                let off = inner r p above (omega (arith, is_inner.1)) in
                absurd (ground (arith, off))
          ]
    ]

    pub Reached-step : Reached s n r (i ∷ p) a' u k
    Reached-step = record {
      tree = e.tree;
      here = e.here;
      real = e.real;
      kept = λ q p' is real.
          let before = g.kept q p' is real in
          elim (Bool-cases (same_place q p' r (i ∷ p))) [
            | inr off ↦ e.places q p' is ∙ rw off before
            | inl on ↦
                let (eq, ep) = same_place-eq q p' r (i ∷ p) on in
                let real' : (address t m r (i ∷ p) == 0) ≡ false =
                  subst (λ j. (address t m j (i ∷ p) == 0) ≡ false) eq
                    (subst (λ l. (address t m q l == 0) ≡ false) ep
                      (ap (λ b. b == 0) before ∙ real)) in
                e.places q p' is ∙ rw on (e.old real' ∙ deeper_here ∙ rw (eq, ep) refl)
          ];
      leaves = λ q p' is full off.
          e.places q p' is ∙ rw off (g.leaves q p' is full (not_above q p' full));
      deeper = λ q p' is long.
          e.places q p' is ∙ rw (longer_apart q p' r (i ∷ p) long) (g.deeper q p' is (omega arith));
      fresh = λ none_.
          let new = e.fresh (ap (λ b. b == 0) deeper_here ∙ none_) in
          elim (Bool-cases (is_used s a')) [
            | inr off ↦ off
            | inl on ↦
                let small = (e.tree.used r (i ∷ p) is_inner (ap (λ b. b == 0) e.here ∙ e.real)).0 in
                cc (g.used a' (omega (arith, e.here, e.size, g.size, small)) on, new)
          ];
      blocks = λ c o.
          let (lt, on, away, inner) = o in
          e.blocks c (omega (arith, g.size)) (g.used c lt on) (changed_other c o)
            (λ d lt'. ap (λ b. b == c) (same_map d) ∙ away d (omega (arith, g.size)))
          ∙ g.blocks c o;
      used = λ c lt on. e.used c (omega (arith, g.size)) (g.used c lt on);
      free = omega (arith, e.free, g.free);
      size = e.size ∙ g.size;
      bmapstart = e.bmapstart ∙ g.bmapstart;
    }
