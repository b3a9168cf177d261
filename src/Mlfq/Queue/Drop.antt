-- ===== src/Mlfq/Queue/Drop.antt =====
-- Taking one node out of a doubly linked list: the first, the last, or one in between.
use ele3021_os.Prelude.{
  ℕ, ◌≡◌, Option, none, some, true, List, [], ◌∷◌, ◌++◌, arith, mem, Distinct, Distinct-append,
  update,
}
use ele3021_os.Mlfq.State.{Link, Queues}
use ele3021_os.Mlfq.Queue.Chain.{
  IsChain, Seg, SameLinks, Seg-frame, Seg-append, Seg-split, Seg-set_next, Seg-set_prev, Seg-cong,
}

module _ (s t : Queues) (q p : ℕ) where
  abbrev f : ℕ → Link
  f = s.links

  abbrev g : ℕ → Link
  g = t.links

  abbrev cur : Option ℕ
  cur = (s.queues q).front

  abbrev cur' : Option ℕ
  cur' = (t.queues q).front

  abbrev last : Option ℕ
  last = (s.queues q).back

  abbrev last' : Option ℕ
  last' = (t.queues q).back

  -- The first node `p` goes, and `z` behind it loses its prev pointer.
  pub Seg-drop_front :
      (z : ℕ) (zs : List ℕ)
      → Distinct (p ∷ z ∷ zs)
      → Seg f none cur (p ∷ z ∷ zs) last none
      → ((x : ℕ)
          → mem x (z ∷ zs) ≡ true
          → SameLinks (update f z (record (f z) { prev = none })) g x)
      → (cur' ≡ (f p).next) × (last' ≡ last)
      → IsChain t q (z ∷ zs)
  Seg-drop_front z zs d h same ends = record {
    seg =
        Seg-cong g (f p).next cur' (z ∷ zs) last last'
          (Seg-frame (update f z (record (f z) { prev = none })) g none (f p).next (z ∷ zs) last
            none (Seg-set_prev f (some p) (f p).next z zs last none none d.1 h.2) same)
          ends.0 ends.1;
  }

  -- The last node `p` goes, and the node `w` before it loses its next pointer.
  pub Seg-drop_back :
      (y w : ℕ) (ys : List ℕ)
      → Distinct ((y ∷ ys) ++ p ∷ [])
      → Seg f none cur ((y ∷ ys) ++ p ∷ []) last none
      → (f p).prev ≡ some w
      → ((x : ℕ)
          → mem x (y ∷ ys) ≡ true
          → SameLinks (update f w (record (f w) { next = none })) g x)
      → (cur' ≡ cur) × (last' ≡ some w)
      → IsChain t q (y ∷ ys)
  Seg-drop_back y w ys d h back same ends =
      let (mid, next, front, rest) = Seg-split f none cur (y ∷ ys) (p ∷ []) last none h in
      let e : mid ≡ some w = ground arith in
      record {
        seg =
            Seg-cong g cur cur' (y ∷ ys) (some w) last'
              (Seg-frame (update f w (record (f w) { next = none })) g none cur (y ∷ ys) (some w)
                none
                (Seg-set_next f none cur y ys w next none (Distinct-append (y ∷ ys) (p ∷ []) d).0
                  (rw e at front))
                same)
              ends.0 ends.1;
      }

  -- A node `p` between `w` and `z` goes, and these two are joined.
  pub Seg-drop_middle :
      (y w z : ℕ) (ys zs : List ℕ)
      → Distinct ((y ∷ ys) ++ p ∷ z ∷ zs)
      → Seg f none cur ((y ∷ ys) ++ p ∷ z ∷ zs) last none
      → (f p).prev ≡ some w
      → ((x : ℕ)
          → mem x (y ∷ ys) ≡ true
          → SameLinks (update f w (record (f w) { next = some z })) g x)
      → ((x : ℕ)
          → mem x (z ∷ zs) ≡ true
          → SameLinks (update f z (record (f z) { prev = some w })) g x)
      → (cur' ≡ cur) × (last' ≡ last)
      → IsChain t q ((y ∷ ys) ++ z ∷ zs)
  Seg-drop_middle y w z ys zs d h back front_same back_same ends =
      let (mid, next, front, rest) = Seg-split f none cur (y ∷ ys) (p ∷ z ∷ zs) last none h in
      let (dy, dz, apart) = Distinct-append (y ∷ ys) (p ∷ z ∷ zs) d in
      let e : mid ≡ some w = ground arith in
      let ahead : (f p).next ≡ some z = ground arith in
      record {
        seg =
            Seg-cong g cur cur' ((y ∷ ys) ++ z ∷ zs) last last'
              (Seg-append g none cur (y ∷ ys) (some w) (some z) (z ∷ zs) last none
                (Seg-frame (update f w (record (f w) { next = some z })) g none cur (y ∷ ys)
                  (some w) (some z)
                  (Seg-set_next f none cur y ys w next (some z) dy (rw e at front)) front_same)
                (Seg-frame (update f z (record (f z) { prev = some w })) g (some w) (some z)
                  (z ∷ zs) last none
                  (Seg-set_prev f (some p) (some z) z zs last none (some w) dz.1
                    (rw ahead at rest.2))
                  back_same))
              ends.0 ends.1;
      }
