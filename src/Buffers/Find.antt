-- ===== src/Buffers/Find.antt =====
-- The walks of bget in project3_filesystem/bio.c over the list of buffers.
use ele3021_os.Outcome.{ok}
use ele3021_os.Buffers.{is_usable, head, find_buf, Buffer, count_usable, Cache}
use ele3021_os.Prelude.{
  refl, ap, zero, ◌∙◌, ==_iff, ◌==◌, suc, inr, subst, inl, [], length, arith, Bool-cases, ◌+◌,
  false, true, some, none, mem, ◌≡◌, if◌then◌else◌, Option, ◌<◌, ◌∷◌, Bool, List, ℕ,
}
use ele3021_os.Buffers.Walk.{Walk}

-- The first of a list whose buffer passes the test.
abbrev pub find_list : Cache → (Buffer → Bool) → List ℕ → Option ℕ
find_list s test [] = none
find_list s test (x ∷ xs) = if test (s.buf x) then some x else find_list s test xs

abbrev pub usable_in : Cache → List ℕ → ℕ
usable_in s [] = 0
usable_in s (x ∷ xs) = (if is_usable (s.buf x) then 1 else 0) + usable_in s xs

pub find_list-some :
    (s : Cache) (test : Buffer → Bool) (xs : List ℕ) (b : ℕ)
    → find_list s test xs ≡ some b
    → (mem b xs ≡ true) × (test (s.buf b) ≡ true)
find_list-some s test [] b e = cc
find_list-some s test (x ∷ xs) b e = elim (Bool-cases (test (s.buf x))) [
  | inl on ↦
      let at : some x ≡ some b = rw on at e in
      let same : x ≡ b = ground (arith, at) in
      (ground (arith, same), subst (λ k. test (s.buf k) ≡ true) same on)
  | inr off ↦ let (m, on) = find_list-some s test xs b (rw off at e) in (ground arith, on)
]

pub find_list-none :
    (s : Cache) (test : Buffer → Bool) (xs : List ℕ)
    → find_list s test xs ≡ none
    → (b : ℕ) → mem b xs ≡ true
    → test (s.buf b) ≡ false
find_list-none s test [] e b m = cc
find_list-none s test (x ∷ xs) e b m = elim (Bool-cases (test (s.buf x))) [
  | inl on ↦ let bad : some x ≡ none = rw on at e in cc
  | inr off ↦ elim (Bool-cases (b == x)) [
    | inl same ↦ let at : b ≡ x = (==_iff b x).0 same in rw at off
    | inr other ↦ find_list-none s test xs (rw off at e) b (ground arith)
  ]
]

pub usable_in-pos :
    (s : Cache) (xs : List ℕ)
    → 0 < usable_in s xs
    → (b : ℕ) × (mem b xs ≡ true) × (is_usable (s.buf b) ≡ true)
usable_in-pos s [] more = absurd (omega arith)
usable_in-pos s (x ∷ xs) more = elim (Bool-cases (is_usable (s.buf x))) [
  | inl on ↦ (x, ground arith, on)
  | inr off ↦
      let (b, m, on) = usable_in-pos s xs (let h = rw off at more in omega (arith, h)) in
      (b, ground arith, on)
]

module _ (s : Cache) (step : Buffer → ℕ) where
  pub find_buf-find_list :
      (test : Buffer → Bool) (fuel a : ℕ) (xs : List ℕ)
      → Walk (λ x. step (s.buf x)) a xs head
      → mem head xs ≡ false
      → length xs < fuel
      → find_buf fuel step test (step (s.buf a)) s ≡ ok (find_list s test xs) s
  unfolding find_buf
  find_buf-find_list test zero a xs w off lt = absurd (omega arith)
  find_buf-find_list test (suc fuel) a [] w off lt = rw w refl
  find_buf-find_list test (suc fuel) a (x ∷ xs) w off lt =
      let here : (x == head) ≡ false = ground arith in
      let rest = find_buf-find_list test fuel x xs w.1 (ground arith) (omega arith) in
      elim (Bool-cases (test (s.buf x))) [
        | inl on ↦ rw (w.0, here, on) refl
        | inr no_ ↦ rw (w.0, here, no_) rest
      ]

pub usable_in-mem :
    (s : Cache) (b : ℕ) (xs : List ℕ)
    → mem b xs ≡ true
    → is_usable (s.buf b) ≡ true
    → 0 < usable_in s xs
usable_in-mem s b [] m on = absurd (ground arith)
usable_in-mem s b (x ∷ xs) m on = elim (Bool-cases (b == x)) [
  | inl at ↦
      let same : b ≡ x = (==_iff b x).0 at in
      let on' : is_usable (s.buf x) ≡ true = subst (λ y. is_usable (s.buf y) ≡ true) same on in
      rw on' (omega arith)
  | inr off ↦ let some_ = usable_in-mem s b xs (ground arith) on in omega (arith, some_)
]

pub count_usable-usable_in :
    (s : Cache) (fuel a cnt : ℕ) (xs : List ℕ)
    → Walk (λ x. (s.buf x).prev) a xs head
    → mem head xs ≡ false
    → length xs < fuel
    → count_usable fuel (s.buf a).prev cnt s ≡ ok (cnt + usable_in s xs) s
unfolding count_usable
count_usable-usable_in s zero a cnt xs w off lt = absurd (omega arith)
count_usable-usable_in s (suc fuel) a cnt [] w off lt =
    let none_ : cnt + 0 ≡ cnt = omega arith in rw (w, none_) refl
count_usable-usable_in s (suc fuel) a cnt (x ∷ xs) w off lt =
    let here : (x == head) ≡ false = ground arith in
    let rest =
      count_usable-usable_in s fuel x (if is_usable (s.buf x) then cnt + 1 else cnt) xs w.1
        (ground arith) (omega arith) in
    let sum : (if is_usable (s.buf x) then cnt + 1 else cnt) + usable_in s xs
        ≡ cnt + ((if is_usable (s.buf x) then 1 else 0) + usable_in s xs) =
      ground arith in
    rw (w.0, here) (rest ∙ ap (λ k. ok k s) sum)
