-- ===== src/Fs/Map/Step.antt =====
-- A new block at one place of the block map of project3_filesystem/fs.c.
use ele3021_os.Prelude.{
  count_cleared, sym, refl, ==_refl, not, ==_iff, inl, inr, count, subst, ◌||◌, ◌+◌, ◌∙◌,
  Bool-cases, ◌/◌, if◌then◌else◌, arith, ◌≤◌, ◌==◌, true, ap, false, ◌≡◌, ◌<◌, Bool, List, ℕ,
}
use ele3021_os.Fs.State.{FileSystem, Inode}
use ele3021_os.Fs.Bitmap.{bblock, is_used, IsFormatted}
use ele3021_os.Fs.Map.Paths.{same_list_iff, same_list_refl, IsPlace, address, same_place}
use ele3021_os.Fs.Map.Tree.{IsTree, Ensured, free_count}

-- `b` is new, `u` maps the place `(r, p)` to it and is else as `s`.
pub record Grown (s : FileSystem) (n : Inode) (r : ℕ) (p : List ℕ) (changed : ℕ → Bool) (b : ℕ)
    (u : FileSystem) (m : Inode) : Type 0 where
  pub small : b < s.size
  pub fresh : is_used s b ≡ false
  pub real : (b == 0) ≡ false
  pub places :
      (q : ℕ) (p' : List ℕ)
      → IsPlace q p'
      → address u m q p' ≡ (if same_place q p' r p then b else address s n q p')
  pub used : (c : ℕ) → c < s.size → is_used u c ≡ ((c == b) || is_used s c)
  pub formatted : IsFormatted u
  pub size : u.size ≡ s.size
  pub bmapstart : u.bmapstart ≡ s.bmapstart
  pub blocks :
      (c : ℕ)
      → c < s.size
      → is_used s c ≡ true
      → changed c ≡ false
      → ((d : ℕ) → d < s.size → (bblock s d == c) ≡ false)
      → u.blocks c ≡ s.blocks c

module _ (s : FileSystem) (n : Inode) (tree : IsTree s n) (r : ℕ) (p : List ℕ) (place : IsPlace r p)
    (changed : ℕ → Bool) (empty : address s n r p ≡ 0) (b : ℕ) (u : FileSystem) (m : Inode)
    (g : Grown s n r p changed b u m) where
  -- The blocks of the map, as before.
  same_bblock : (c : ℕ) → bblock u c ≡ bblock s c
  same_bblock c = ap (λ k. c / 4096 + k) g.bmapstart

  -- A block in use is not the new one.
  other : (c : ℕ) → is_used s c ≡ true → (c == b) ≡ false
  other c on = elim (Bool-cases (c == b)) [
    | inr e ↦ e
    | inl e ↦
        let at : c ≡ b = (==_iff c b).0 e in cc (g.fresh, subst (λ k. is_used s k ≡ true) at on)
  ]

  used_at :
      (q : ℕ) (p' : List ℕ)
      → IsPlace q p'
      → (address u m q p' == 0) ≡ false
      → (address u m q p' < u.size) × (is_used u (address u m q p') ≡ true)
  used_at q p' is real = elim (Bool-cases (same_place q p' r p)) [
    | inl e ↦
        let at : address u m q p' ≡ b = g.places q p' is ∙ rw e refl in
        rw (at, g.size) (g.small, g.used b g.small ∙ ground arith)
    | inr e ↦
        let at : address u m q p' ≡ address s n q p' = g.places q p' is ∙ rw e refl in
        let (lt, on) = tree.used q p' is (subst (λ a. (a == 0) ≡ false) at real) in
        rw (at, g.size) (lt, g.used (address s n q p') lt ∙ ground (arith, on))
  ]

  data_at :
      (q : ℕ) (p' : List ℕ) (c : ℕ)
      → IsPlace q p'
      → (address u m q p' == 0) ≡ false
      → c < u.size
      → (bblock u c == address u m q p') ≡ false
  data_at q p' c is real lt =
      let lt' : c < s.size = omega (arith, g.size) in
      elim (Bool-cases (same_place q p' r p)) [
        | inl e ↦
            let at : address u m q p' ≡ b = g.places q p' is ∙ rw e refl in
            let map = tree.formatted.maps c lt' in rw (at, same_bblock c) (other (bblock s c) map.1)
        | inr e ↦
            let at : address u m q p' ≡ address s n q p' = g.places q p' is ∙ rw e refl in
            rw (at, same_bblock c)
              (tree.data_ q p' c is (subst (λ a. (a == 0) ≡ false) at real) lt')
      ]

  -- The new block stands at the place `(r, p)` only.
  unique_new :
      (q : ℕ) (p' : List ℕ) → IsPlace q p' → same_place q p' r p ≡ false → address s n q p' ≡ b → ⊥
  unique_new q p' is e at =
      let real : (address s n q p' == 0) ≡ false = ap (λ a. a == 0) at ∙ g.real in
      let (lt, on) = tree.used q p' is real in cc (g.fresh, subst (λ k. is_used s k ≡ true) at on)

  unique_at :
      (q : ℕ) (p' : List ℕ) (q' : ℕ) (p'' : List ℕ)
      → IsPlace q p'
      → IsPlace q' p''
      → (address u m q p' == 0) ≡ false
      → address u m q p' ≡ address u m q' p''
      → same_place q p' q' p'' ≡ true
  unique_at q p' q' p'' is is' real e = elim (Bool-cases (same_place q p' r p)) [
    | inl x ↦ elim (Bool-cases (same_place q' p'' r p)) [
      | inl y ↦ ground (arith, same_list_iff p' p, same_list_iff p'' p, same_list_iff p' p'')
      | inr y ↦ absurd (
          unique_new q' p'' is' y
            (sym (g.places q' p'' is' ∙ rw y refl) ∙ sym e ∙ (g.places q p' is ∙ rw x refl)))
    ]
    | inr x ↦
        let at : address u m q p' ≡ address s n q p' = g.places q p' is ∙ rw x refl in
        elim (Bool-cases (same_place q' p'' r p)) [
          | inl y ↦ absurd (unique_new q p' is x (sym at ∙ e ∙ (g.places q' p'' is' ∙ rw y refl)))
          | inr y ↦
              tree.unique q p' q' p'' is is' (subst (λ a. (a == 0) ≡ false) at real)
                (sym at ∙ e ∙ (g.places q' p'' is' ∙ rw y refl))
        ]
  ]

  free_after : free_count s ≤ free_count u + 1
  free_after =
      let same : count u.size (λ c. not (is_used u c)) ≡ count s.size (λ c. not (is_used u c)) =
        ap (λ k. count k (λ c. not (is_used u c))) g.size in
      let step : count s.size (λ c. not (is_used u c)) + 1 ≡ count s.size (λ c. not (is_used s c)) =
        count_cleared s.size b (λ c. not (is_used s c)) (λ c. not (is_used u c)) g.small
          (ground (arith, g.fresh)) (ground (arith, g.used b g.small))
          (λ x lt off. ground (arith, g.used x lt)) in
      omega (arith, same, step)

  pub Grown-Ensured : Ensured s n r p changed b u m
  Grown-Ensured = record {
    tree = record {
      formatted = g.formatted;
      words = omega (arith, g.size, tree.words);
      used = used_at;
      data_ = data_at;
      unique = unique_at;
    };
    here = g.places r p place ∙ rw (same_list_refl p, ==_refl r) refl;
    real = g.real;
    places = g.places;
    old = λ real. absurd (ground (arith, empty));
    fresh = λ none_. g.fresh;
    blocks = g.blocks;
    used = λ c lt on. g.used c lt ∙ ground (arith, on);
    free = free_after;
    size = g.size;
    bmapstart = g.bmapstart;
  }
