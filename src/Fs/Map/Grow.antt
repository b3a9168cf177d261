-- ===== src/Fs/Map/Grow.antt =====
-- A block that balloc has returned, put at a root of an inode or into a block of addresses.
use ele3021_os.Prelude.{
  ◌%◌, ◌*◌, not, ◌+◌, ◌/◌, ◌||◌, ◌&&◌, refl, sym, [], ap, subst, ◌∙◌, ==_iff, inl, inr,
  if◌then◌else◌, update, arith, ◌<◌, Bool-cases, ◌∷◌, true, false, List, ◌≡◌, ◌==◌, ℕ,
}
use ele3021_os.Fs.State.{Bytes, FileSystem, Inode, word_at, with_word, word-with_word}
use ele3021_os.Fs.Bitmap.{is_clear, bblock, is_used}
use ele3021_os.Fs.Bitmap.Alloc.{Allocated}
use ele3021_os.Fs.Map.{root_of, with_root}
use ele3021_os.Fs.Map.Paths.{
  same_list_longer, same_list, same_list_iff, IsPlace, address, same_place,
}
use ele3021_os.Fs.Map.Tree.{IsTree}
use ele3021_os.Fs.Map.Step.{Grown}

module _ (s : FileSystem) (n : Inode) (tree : IsTree s n) (b : ℕ) (t : FileSystem)
    (a : Allocated s b t) where
  fresh-real : (b == 0) ≡ false
  fresh-real = elim (Bool-cases (b == 0)) [
    | inr e ↦ e
    | inl e ↦
        let at : b ≡ 0 = (==_iff b 0).0 e in
        cc (a.free, subst (λ k. is_used s k ≡ true) (sym at) tree.formatted.boot)
  ]

  other : (c : ℕ) → is_used s c ≡ true → (c == b) ≡ false
  other c on = elim (Bool-cases (c == b)) [
    | inr e ↦ e
    | inl e ↦
        let at : c ≡ b = (==_iff c b).0 e in cc (a.free, subst (λ k. is_used s k ≡ true) at on)
  ]

  kept_used :
      (c : ℕ)
      → is_used s c ≡ true
      → ((d : ℕ) → d < s.size → (bblock s d == c) ≡ false)
      → t.blocks c ≡ s.blocks c
  kept_used c on away = a.kept c (other c on) (ground (arith, away b a.small))

  -- A block at a place of the tree keeps its contents.
  kept_place :
      (q : ℕ) (p' : List ℕ)
      → IsPlace q p'
      → (address s n q p' == 0) ≡ false
      → t.blocks (address s n q p') ≡ s.blocks (address s n q p')
  kept_place q p' is real =
      kept_used (address s n q p') (tree.used q p' is real).1 (λ d lt. tree.data_ q p' d is real lt)

  IsPlace-tail : (q i : ℕ) (p' : List ℕ) → IsPlace q (i ∷ p') → IsPlace q p'
  IsPlace-tail q i p' (small, short, below) = (small, omega arith, below.1)

  module _ (r i : ℕ) (p : List ℕ) (place : IsPlace r (i ∷ p))
      (real : (address s n r p == 0) ≡ false)
      (empty : word_at (s.blocks (address s n r p)) i ≡ 0) where
    abbrev pub node : ℕ
    node = address s n r p

    abbrev pub in_node : FileSystem
    in_node = record t {
      blocks = update t.blocks node (with_word (t.blocks node) i b);
      written = node ∷ t.written;
    }

    node_used : (node < s.size) × (is_used s node ≡ true)
    node_used = tree.used r p (IsPlace-tail r i p place) real

    node_kept : t.blocks node ≡ s.blocks node
    node_kept = kept_place r p (IsPlace-tail r i p place) real

    -- The words of a block of addresses, before and after.
    word_in :
        (q j : ℕ) (p' : List ℕ)
        → IsPlace q p'
        → (address s n q p' == 0) ≡ false
        → word_at (in_node.blocks (address s n q p')) j
          ≡ (if same_place q (j ∷ p') r (i ∷ p) then b else word_at (s.blocks (address s n q p')) j)
    word_in q j p' is real' =
        let words = tree.words in
        elim (Bool-cases (address s n q p' == node)) [
          | inl e ↦
              let at : address s n q p' ≡ node = (==_iff (address s n q p') node).0 e in
              let same = tree.unique q p' r p is (IsPlace-tail r i p place) real' at in
              let law = word-with_word (t.blocks node) i b j (omega (arith, a.small)) in
              let pick : same_place q (j ∷ p') r (i ∷ p) ≡ (j == i) = ground arith in
              rw (pick, e)
                (law
                  ∙ ap (λ (d : Bytes). if j == i then b else word_at d j)
                      (node_kept ∙ ap s.blocks (sym at)))
          | inr e ↦
              let apart : same_place q (j ∷ p') r (i ∷ p) ≡ false =
                elim (Bool-cases (same_place q (j ∷ p') r (i ∷ p))) [
                  | inr no_ ↦ no_
                  | inl yes_ ↦
                      let eq : q ≡ r = ground arith in
                      let ep : p' ≡ p = (same_list_iff p' p).0 (ground arith) in
                      let at : address s n q p' ≡ node = cc in absurd (ground arith)
                ] in
              rw (apart, e) (ap (λ (d : Bytes). word_at d j) (kept_place q p' is real'))
        ]

    in_node_fresh : in_node.blocks b ≡ t.blocks b
    in_node_fresh =
        let off = other node node_used.1 in
        let off' : (b == node) ≡ false = ground arith in rw off' refl

    places :
        (q : ℕ) (p' : List ℕ)
        → IsPlace q p'
        → address in_node n q p' ≡ (if same_place q p' r (i ∷ p) then b else address s n q p')
    unfolding address
    places q [] is = ground arith
    places q (j ∷ p') is =
        let ih = places q p' (IsPlace-tail q j p' is) in
        elim (Bool-cases (same_place q p' r (i ∷ p))) [
          | inl e ↦
              let at : address in_node n q p' ≡ b = ih ∙ rw e refl in
              let eq : q ≡ r = ground arith in
              let ep : p' ≡ i ∷ p = (same_list_iff p' (i ∷ p)).0 (ground arith) in
              let none_ : address s n q p' ≡ 0 =
                subst (λ k. address s n k p' ≡ 0) (sym eq)
                  (subst (λ l. address s n r l ≡ 0) (sym ep) (rw real empty)) in
              let longer : same_place q (j ∷ p') r (i ∷ p) ≡ false =
                subst (λ l. ((q == r) && ((j == i) && same_list l p)) ≡ false) (sym ep)
                  (rw (same_list_longer i p) (ground arith)) in
              let zero_ : word_at (in_node.blocks b) j ≡ 0 =
                ap (λ (d : Bytes). word_at d j) (in_node_fresh)
                ∙ ground (
                  arith,
                  a.zeroed (4 * j),
                  a.zeroed (4 * j + 1),
                  a.zeroed (4 * j + 2),
                  a.zeroed (4 * j + 3),
                ) in
              rw (at, longer, none_, fresh-real) zero_
          | inr e ↦
              let at : address in_node n q p' ≡ address s n q p' = ih ∙ rw e refl in
              elim (Bool-cases (address s n q p' == 0)) [
                | inr full ↦ rw (at, full) (word_in q j p' (IsPlace-tail q j p' is) full)
                | inl none_ ↦
                    let apart : same_place q (j ∷ p') r (i ∷ p) ≡ false =
                      elim (Bool-cases (same_place q (j ∷ p') r (i ∷ p))) [
                        | inr no_ ↦ no_
                        | inl yes_ ↦
                            let eq : q ≡ r = ground arith in
                            let ep : p' ≡ p = (same_list_iff p' p).0 (ground arith) in
                            let at' : address s n q p' ≡ node = cc in absurd (ground arith)
                      ] in
                    rw (at, none_, apart) refl
              ]
        ]

    used_after : (c : ℕ) → c < s.size → is_used in_node c ≡ ((c == b) || is_used s c)
    used_after c lt =
        let off = tree.data_ r p c (IsPlace-tail r i p place) real lt in
        let same : bblock in_node c ≡ bblock s c = ap (λ k. c / 4096 + k) a.bmapstart in
        let off' : (bblock in_node c == node) ≡ false = ap (λ k. k == node) same ∙ off in
        let kept : in_node.blocks (bblock in_node c) ≡ t.blocks (bblock t c) = rw off' refl in
        ap (λ (d : Bytes). not (is_clear d (c % 4096))) kept ∙ a.used c lt

    pub in_node-Grown : Grown s n r (i ∷ p) (λ c. c == node) b in_node n
    in_node-Grown = record {
      small = a.small;
      fresh = a.free;
      real = fresh-real;
      places = places;
      used = used_after;
      formatted = record {
        bytes = λ c k. ground (arith, a.formatted.bytes c k, a.formatted.bytes node k);
        boot = used_after 0 (omega (arith, a.small)) ∙ ground (arith, tree.formatted.boot);
        maps = λ c lt.
            let lt' : c < s.size = omega (arith, a.size) in
            let (small, on) = tree.formatted.maps c lt' in
            let same : bblock in_node c ≡ bblock s c = ap (λ k. c / 4096 + k) a.bmapstart in
            (
              omega (arith, a.size, same),
              ap (is_used in_node) same ∙ used_after (bblock s c) small ∙ ground (arith, on),
            );
      };
      size = a.size;
      bmapstart = a.bmapstart;
      blocks = λ c lt on off away. rw off (kept_used c on away);
    }

  root_of-with_root :
      (k : Inode) (r q : ℕ) (v : ℕ)
      → r < 13
      → q < 13
      → root_of (with_root r v k) q ≡ (if q == r then v else root_of k q)
  root_of-with_root k r q v lt lt' = ground arith

  module _ (r ip : ℕ) (small : r < 13) (empty : root_of n r ≡ 0) (at_ip : t.inodes ip ≡ n) where
    abbrev pub at_root : FileSystem
    at_root = record t { inodes = update t.inodes ip (with_root r b (t.inodes ip)) }

    root_places :
        (q : ℕ) (p' : List ℕ)
        → IsPlace q p'
        → address at_root (with_root r b n) q p'
          ≡ (if same_place q p' r [] then b else address s n q p')
    unfolding address
    root_places q [] is = root_of-with_root n r q b small is.0 ∙ ground arith
    root_places q (j ∷ p') is =
        let ih = root_places q p' (IsPlace-tail q j p' is) in
        let apart : same_place q (j ∷ p') r [] ≡ false = ground arith in
        elim (Bool-cases (same_place q p' r [])) [
          | inl e ↦
              let at : address at_root (with_root r b n) q p' ≡ b = ih ∙ rw e refl in
              let eq : q ≡ r = ground arith in
              let ep : p' ≡ [] = (same_list_iff p' []).0 (ground arith) in
              let none_ : address s n q p' ≡ 0 =
                subst (λ k. address s n k p' ≡ 0) (sym eq)
                  (subst (λ l. address s n r l ≡ 0) (sym ep) empty) in
              let zero_ : word_at (t.blocks b) j ≡ 0 = ground (
                arith,
                a.zeroed (4 * j),
                a.zeroed (4 * j + 1),
                a.zeroed (4 * j + 2),
                a.zeroed (4 * j + 3),
              ) in
              rw (at, apart, none_, fresh-real) zero_
          | inr e ↦
              let at : address at_root (with_root r b n) q p' ≡ address s n q p' = ih ∙ rw e refl in
              elim (Bool-cases (address s n q p' == 0)) [
                | inl none_ ↦ rw (at, none_, apart) refl
                | inr full ↦
                    rw (at, full, apart)
                      (ap (λ (d : Bytes). word_at d j)
                        (kept_place q p' (IsPlace-tail q j p' is) full))
              ]
        ]

    pub at_root-Grown : Grown s n r [] (λ c. false) b at_root (with_root r b n)
    at_root-Grown = record {
      small = a.small;
      fresh = a.free;
      real = fresh-real;
      places = root_places;
      used = a.used;
      formatted = record {
        bytes = a.formatted.bytes;
        boot = a.formatted.boot;
        maps = a.formatted.maps;
      };
      size = a.size;
      bmapstart = a.bmapstart;
      blocks = λ c lt on off away. kept_used c on away;
    }
