-- ===== src/Files/PipeAlloc.antt =====
-- pipealloc of project3_filesystem/pipe.c on each of its branches, and closing both ends.
use ele3021_os.Mlfq.Kernel.{scan}
use ele3021_os.Files.{nfile, Files, File, fd_none, fd_pipe, filealloc, fileclose, pipealloc, update}
use ele3021_os.Files.Close.{with_file, close_last, IsTidy, update_twice, update_same}
use ele3021_os.Pipe.{pipeclose, Pipe}
use ele3021_os.Mlfq.Scan.{scan_sound}
use ele3021_os.Outcome.{Returns-bind, ◌>>◌, ◌>>=◌, pure, Cmd, ok, Returns, returns}
use ele3021_os.Prelude.{
  subst, ==_iff, if◌then◌else◌, Bool, sym, refl, Option-cases, ap, arith, inr, ◌⊎◌, ◌∙◌, Bool-cases,
  inl, some, [], none, ==_refl, fun_ext, Option, false, true, ◌≡◌, ◌==◌, ℕ,
}

update_comm :
    {A : Type 0} (f : ℕ → A) (x y : ℕ) (a b : A)
    → (x == y) ≡ false
    → update (update f x a) y b ≡ update (update f y b) x a
update_comm f x y a b off = fun_ext (λ z. elim (Bool-cases (z == y)) [
  | inl e ↦ let far : (z == x) ≡ false = ground arith in rw (e, far) refl
  | inr e ↦ rw e refl
])

abbrev taken : File → File
taken r = record r { ref = 1 }

-- An entry that filealloc has just given is given back.
undo_alloc :
    (s : Files) (a : ℕ) (r : File)
    → s.file a ≡ r
    → r.kind ≡ fd_none
    → r.ref ≡ 0
    → fileclose a (with_file s a (taken r)) ≡ ok tt s
undo_alloc s a r at kind ref =
    close_last (with_file s a (taken r)) a r (rw (==_refl a) refl)
    ∙ simp kind (
        ap (λ g. ok tt (record s { file = g }))
          (update_twice s.file a (taken (record r { kind = fd_none }))
              (record r { kind = fd_none; ref = 0 })
            ∙ update_same s.file a (record r { kind = fd_none; ref = 0 })
                (at
                  ∙ ap (λ k. record r { kind = k }) kind
                  ∙ ap (λ n. record r { kind = fd_none; ref = n }) ref)))

-- filealloc finds a free entry, or there is none.
alloc_cases :
    (s : Files)
    → (filealloc s ≡ ok none s)
      ⊎ ((a : ℕ) × (((s.file a).ref == 0) ≡ true)
          × (filealloc s ≡ ok (some a) (with_file s a (taken (s.file a)))))
unfolding filealloc
alloc_cases s = elim (Option-cases (scan nfile 0 (λ f. (s.file f).ref == 0))) [
  | inl e ↦ inl (rw e refl)
  | inr (a, e) ↦ inr (a, (scan_sound nfile 0 (λ f. (s.file f).ref == 0) a e).0, rw e refl)
]

abbrev pub fresh_pipe : Pipe
fresh_pipe = record {
  data_ = λ i. 0;
  nread = 0;
  nwrite = 0;
  readopen = true;
  writeopen = true;
  woken = [];
}

abbrev pub read_end : ℕ → File → File
read_end p r = record r { ref = 1; kind = fd_pipe; readable = true; writable = false; pipe = p }

abbrev pub write_end : ℕ → File → File
write_end p r = record r { ref = 1; kind = fd_pipe; readable = false; writable = true; pipe = p }

-- What a call comes to.
pub data Piped (s : Files) (kalloc : Option ℕ) (r : Option (ℕ × ℕ)) (t : Files) : Type 0 where
  made :
      (a b p : ℕ)
      → kalloc ≡ some p
      → r ≡ some (a, b)
      → (a == b) ≡ false
      → ((s.file a).ref == 0) ≡ true
      → ((s.file b).ref == 0) ≡ true
      → t ≡ record s {
        pipes = update s.pipes p (some fresh_pipe);
        file = update (update s.file a (read_end p (s.file a))) b (write_end p (s.file b));
      }
      → Piped s kalloc r t
  refused : r ≡ none → t ≡ s → Piped s kalloc r t

module _ (s : Files) (tidy : IsTidy s) where
  both :
      (a b : ℕ) (kalloc : Option ℕ)
      → ((s.file a).ref == 0) ≡ true
      → ((s.file b).ref == 0) ≡ true
      → (a == b) ≡ false
      → filealloc s ≡ ok (some a) (with_file s a (taken (s.file a)))
      → filealloc (with_file s a (taken (s.file a)))
        ≡ ok (some b) (with_file (with_file s a (taken (s.file a))) b (taken (s.file b)))
      → Returns (Piped s kalloc) (pipealloc kalloc s)
  unfolding pipealloc
  both a b none free free' apart e e' =
      let t = with_file s b (taken (s.file b)) in
      let first : fileclose a (with_file (with_file s a (taken (s.file a))) b (taken (s.file b)))
          ≡ ok tt t =
        ap (λ g. fileclose a (record s { file = g }))
          (update_comm s.file a b (taken (s.file a)) (taken (s.file b)) apart)
        ∙ undo_alloc t a (s.file a) (rw apart refl) (tidy a free) (ground arith) in
      rw (e, e', first, undo_alloc s b (s.file b) refl (tidy b free') (ground arith))
        (returns (refused refl refl))
  both a b (some p) free free' apart e e' =
      rw (e, e')
        (returns (
          made a b p refl refl apart free free' (
            ap (λ g. record s { pipes = update s.pipes p (some fresh_pipe); file = g })
              (fun_ext (λ x. elim (Bool-cases (x == b)) [
                | inl on ↦
                    let far : (b == a) ≡ false = ground (arith, apart) in
                    rw (on, ==_refl b, far) refl
                | inr off ↦ elim (Bool-cases (x == a)) [
                  | inl on ↦ rw (off, on, apart, ==_refl a) refl
                  | inr off' ↦ rw (off, off') refl
                ]
              ])))))

  pub pipealloc-Piped : (kalloc : Option ℕ) → Returns (Piped s kalloc) (pipealloc kalloc s)
  unfolding pipealloc
  pipealloc-Piped kalloc = elim (alloc_cases s) [
    | inl e ↦ rw e (returns (refused refl refl))
    | inr (a, free, e) ↦
        let s1 = with_file s a (taken (s.file a)) in
        elim (alloc_cases s1) [
          | inl e' ↦
              rw (e, e', undo_alloc s a (s.file a) refl (tidy a free) (ground arith))
                (returns (refused refl refl))
          | inr (b, free', e') ↦
              let apart : (b == a) ≡ false = elim (Bool-cases (b == a)) [
                | inr off ↦ off
                | inl on ↦ let used : (1 == 0) ≡ true = rw on at free' in cc
              ] in
              let at : s1.file b ≡ s.file b = rw apart refl in
              both a b kalloc free (ap (λ (r : File). r.ref == 0) (sym at) ∙ free')
                (ground (arith, apart)) e (e' ∙ ap (λ r. ok (some b) (with_file s1 b (taken r))) at)
        ]
  ]

-- One end of a pipe is closed, the last reference to its file.
close_end :
    (u : Files) (a : ℕ) (r : File) (p : ℕ) (w : Bool) (v : Pipe)
    → u.file a ≡ record r { ref = 1; kind = fd_pipe; pipe = p; writable = w }
    → u.pipes p ≡ some v
    → fileclose a u
      ≡ ok tt (record u {
        file = update u.file a (record r { ref = 0; kind = fd_none; pipe = p; writable = w });
        pipes = update u.pipes p (if (pipeclose w v).0 then none else some (pipeclose w v).1);
      })
close_end u a r p w v at there =
    close_last u a (record r { kind = fd_pipe; pipe = p; writable = w }) at ∙ simp there refl

abbrev pub close_ends : Option (ℕ × ℕ) → Cmd Files Unit
close_ends none = pure tt
close_ends (some ends) = fileclose ends.0 >> fileclose ends.1

-- No file, page or inode more is in use than before.
pub record Restored (s t : Files) : Type 0 where
  pub refs : (f : ℕ) → (t.file f).ref ≡ (s.file f).ref
  pub pipes : t.pipes ≡ s.pipes
  pub fs : t.fs ≡ s.fs
  pub tidy : IsTidy t

module _ (s : Files) (tidy : IsTidy s) where
  zero_ref : (x : ℕ) → ((s.file x).ref == 0) ≡ true → 0 ≡ (s.file x).ref
  zero_ref x e = ground arith

  closed :
      (a b p : ℕ)
      → (a == b) ≡ false
      → ((s.file a).ref == 0) ≡ true
      → ((s.file b).ref == 0) ≡ true
      → s.pipes p ≡ none
      → Returns
          (λ _. Restored s)
          (close_ends (some (a, b)) (record s {
            pipes = update s.pipes p (some fresh_pipe);
            file = update (update s.file a (read_end p (s.file a))) b (write_end p (s.file b));
          }))
  unfolding pipeclose
  closed a b p apart free free' page =
      let t : Files = record s {
        pipes = update s.pipes p (some fresh_pipe);
        file = update (update s.file a (read_end p (s.file a))) b (write_end p (s.file b));
      } in
      let first =
        close_end t a (record (s.file a) { readable = true }) p false fresh_pipe
          (rw (apart, ==_refl a) refl) (rw (==_refl p) refl) in
      let q : Pipe = (pipeclose false fresh_pipe).1 in
      let f : ℕ → File = update t.file a (record (s.file a) {
        ref = 0;
        kind = fd_none;
        readable = true;
        writable = false;
        pipe = p;
      }) in
      let t1 : Files = record t { file = f; pipes = update t.pipes p (some q) } in
      let back : (b == a) ≡ false = ground (arith, apart) in
      let second =
        close_end t1 b (record (s.file b) { readable = false }) p true q (rw (back, ==_refl b) refl)
          (rw (==_refl p) refl) in
      let t2 : Files = record t1 {
        file = update t1.file b (record (s.file b) {
          ref = 0;
          kind = fd_none;
          readable = false;
          writable = true;
          pipe = p;
        });
        pipes = update t1.pipes p none;
      } in
      rw (first, second)
        (returns {s = t2} (record {
          refs = λ x. elim (Bool-cases (x == b)) [
            | inl on ↦
                let at : x ≡ b = (==_iff x b).0 on in
                rw on (zero_ref x (subst (λ k. ((s.file k).ref == 0) ≡ true) (sym at) free'))
            | inr off ↦ elim (Bool-cases (x == a)) [
              | inl on ↦
                  let at : x ≡ a = (==_iff x a).0 on in
                  rw (off, on)
                    (zero_ref x (subst (λ k. ((s.file k).ref == 0) ≡ true) (sym at) free))
              | inr off' ↦ rw (off, off') refl
            ]
          ];
          pipes = fun_ext (λ x. elim (Bool-cases (x == p)) [
            | inl on ↦ let at : x ≡ p = (==_iff x p).0 on in rw on (sym (ap s.pipes at ∙ page))
            | inr off ↦ rw off refl
          ]);
          fs = refl;
          tidy = λ x e. elim (Bool-cases (x == b)) [
            | inl on ↦ rw on refl
            | inr off ↦ elim (Bool-cases (x == a)) [
              | inl on ↦ rw (off, on) refl
              | inr off' ↦ rw (off, off') (tidy x (rw (off, off') at e))
            ]
          ];
        }))

  -- When free entries of the table of files are of no kind, and kalloc() gives a page that holds no
  -- pipe, or none, pipealloc, and closing both ends where it has succeeded, returns with the
  -- reference counts, the pipes and the inodes as before, and free entries of no kind.
  pub pipealloc-Restored :
      (kalloc : Option ℕ)
      → ((p : ℕ) → kalloc ≡ some p → s.pipes p ≡ none)
      → Returns (λ _. Restored s) ((pipealloc kalloc >>= close_ends) s)
  pipealloc-Restored kalloc page =
      Returns-bind (pipealloc kalloc s) close_ends (pipealloc-Piped s tidy kalloc) after
    where
      after :
          (r : Option (ℕ × ℕ)) (t : Files)
          → Piped s kalloc r t
          → Returns (λ _. Restored s) (close_ends r t)
      after r t (refused e same) =
          rw (e, same) (returns (record { refs = λ f. refl; pipes = refl; fs = refl; tidy = tidy }))
      after r t (made a b p k e apart free free' same) =
          rw (e, same) (closed a b p apart free free' (page p k))
