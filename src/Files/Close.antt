-- ===== src/Files/Close.antt =====
-- filedup, fileclose and pipealloc: what they leave of the table of files.
use ele3021_os.Files.{Files, File, fd_none, filedup, fileclose, let_go, update}
use ele3021_os.Outcome.{ok, ◌>>=◌}
use ele3021_os.Prelude.{
  inr, ==_iff, inl, Bool-cases, refl, fun_ext, ==_refl, ◌-◌, ◌+◌, ◌∙◌, arith, sym, ltb, ap, true,
  false, ◌≡◌, ◌==◌, ℕ,
}

pub update_twice :
    {A : Type 0} (f : ℕ → A) (x : ℕ) (a b : A) → update (update f x a) x b ≡ update f x b
update_twice f x a b =
    fun_ext (λ y. elim (Bool-cases (y == x)) [ inl e ↦ rw e refl | inr e ↦ rw e refl ])

pub update_same : {A : Type 0} (f : ℕ → A) (x : ℕ) (a : A) → f x ≡ a → update f x a ≡ f
update_same f x a at = fun_ext (λ y. elim (Bool-cases (y == x)) [
  | inl e ↦ let here : y ≡ x = (==_iff y x).0 e in rw e (sym at ∙ ap f (sym here))
  | inr e ↦ rw e refl
])

abbrev pub with_file : Files → ℕ → File → Files
with_file s f r = record s { file = update s.file f r }

-- Another reference is left.
pub close_shared :
    (s : Files) (f : ℕ) (r : File)
    → s.file f ≡ r
    → ltb 1 r.ref ≡ true
    → fileclose f s ≡ ok tt (with_file s f (record r { ref = r.ref - 1 }))
unfolding fileclose
close_shared s f r at more =
    let some_ : ltb r.ref 1 ≡ false = ground arith in
    let left : ltb 0 (r.ref - 1) ≡ true = ground arith in simp (at, some_, ==_refl f, left) refl

-- The last reference.
pub close_last :
    (s : Files) (f : ℕ) (r : File)
    → s.file f ≡ record r { ref = 1 }
    → fileclose f s
      ≡ let_go (record r { ref = 0 }) (with_file s f (record r { ref = 0; kind = fd_none }))
unfolding fileclose
close_last s f r at =
    simp (at, ==_refl f)
      (ap (λ g. let_go (record r { ref = 0 }) (record s { file = g }))
        (update_twice s.file f (record r { ref = 0 }) (record r { ref = 0; kind = fd_none })))

-- What filedup counts, fileclose takes back.
pub fileclose-filedup :
    (s : Files) (f : ℕ) → ((s.file f).ref == 0) ≡ false → (filedup f >>= fileclose) s ≡ ok tt s
unfolding filedup
fileclose-filedup s f used =
    let some_ : ltb (s.file f).ref 1 ≡ false = ground arith in
    let r : File = record (s.file f) { ref = (s.file f).ref + 1 } in
    let more : ltb 1 r.ref ≡ true = ground arith in
    let back : (s.file f).ref + 1 - 1 ≡ (s.file f).ref = omega arith in
    rw some_ (
      close_shared (with_file s f r) f r (rw (==_refl f) refl) more
      ∙ ap (λ g. ok tt (record s { file = g }))
          (update_twice s.file f r (record r { ref = r.ref - 1 })
            ∙ ap (λ n. update s.file f (record r { ref = n })) back
            ∙ update_same s.file f (s.file f) refl))

-- A free entry of the table is of no kind.
abbrev pub IsTidy : Files → Type 0
IsTidy s = (f : ℕ) → ((s.file f).ref == 0) ≡ true → (s.file f).kind ≡ fd_none

same_file : (r : File) → r.kind ≡ fd_none → r.ref ≡ 0 → record r { kind = fd_none; ref = 0 } ≡ r
same_file r kind ref =
    ap (λ k. record r { kind = k; ref = 0 }) (sym kind) ∙ ap (λ n. record r { ref = n }) (sym ref)
