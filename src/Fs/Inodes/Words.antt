-- ===== src/Fs/Inodes/Words.antt =====
-- The shorts and the words of a struct dinode of project3_filesystem/fs.h, read back after a write.
use ele3021_os.Fs.Inodes.{with_half, half_at, with_words}
use ele3021_os.Fs.State.{word-with_word, with_word, word_at, Bytes}
use ele3021_os.Prelude.{
  inr, true, inl, Bool-cases, zero, refl, ◌∙◌, ◌-◌, ◌≤◌, ◌+◌, ltb, ◌*◌, arith, suc, false,
  if◌then◌else◌, ◌≡◌, ◌==◌, ◌^◌, ◌/◌, ◌<◌, ℕ,
}

pub half-with_half :
    (d : Bytes) (k v j : ℕ)
    → v < 2 ^ 16
    → half_at (with_half d k v) j ≡ (if j == k then v else half_at d j)
half-with_half d k v j lt = ground arith

pub half-with_word :
    (d : Bytes) (i v j : ℕ) → (j / 2 == i) ≡ false → half_at (with_word d i v) j ≡ half_at d j
half-with_word d i v j off =
    let a : (2 * j == 4 * i) ≡ false = ground arith in
    let b : (2 * j == 4 * i + 1) ≡ false = ground arith in
    let c : (2 * j == 4 * i + 2) ≡ false = ground arith in
    let e : (2 * j == 4 * i + 3) ≡ false = ground arith in
    let a' : (2 * j + 1 == 4 * i) ≡ false = ground arith in
    let b' : (2 * j + 1 == 4 * i + 1) ≡ false = ground arith in
    let c' : (2 * j + 1 == 4 * i + 2) ≡ false = ground arith in
    let e' : (2 * j + 1 == 4 * i + 3) ≡ false = ground arith in rw (a, b, c, e, a', b', c', e') refl

pub word-with_half :
    (d : Bytes) (k v i : ℕ) → (k / 2 == i) ≡ false → word_at (with_half d k v) i ≡ word_at d i
word-with_half d k v i off =
    let at : (j : ℕ) → 4 * i ≤ j → j ≤ 4 * i + 3 → with_half d k v j ≡ d j =
      λ j le ge. ground arith in
    rw
      (
        at (4 * i) (omega arith) (omega arith),
        at (4 * i + 1) (omega arith) (omega arith),
        at (4 * i + 2) (omega arith) (omega arith),
        at (4 * i + 3) (omega arith) (omega arith),
      )
      refl

module _ (d : Bytes) (w : ℕ) (f : ℕ → ℕ) where
  pub word-with_words :
      (n j : ℕ)
      → ((i : ℕ) → i < n → f i < 2 ^ 32)
      → word_at (with_words d w n f) j
        ≡ (if ltb j w then word_at d j else if ltb j (w + n) then f (j - w) else word_at d j)
  unfolding with_words
  word-with_words zero j small = ground arith
  word-with_words (suc n) j small =
      let ih = word-with_words n j (λ i lt. small i (omega arith)) in
      word-with_word (with_words d w n f) (w + n) (f n) j (small n (omega arith))
      ∙ elim (Bool-cases (j == w + n)) [
        | inl e ↦
            let at : j - w ≡ n = ground arith in
            let a : ltb j w ≡ false = ground arith in
            let b : ltb j (w + suc n) ≡ true = ground arith in rw (e, a, b, at) refl
        | inr e ↦ let same : ltb j (w + suc n) ≡ ltb j (w + n) = ground arith in rw (e, same) ih
      ]

  pub half-with_words :
      (n j : ℕ)
      → ((i : ℕ) → i < n → (j / 2 == w + i) ≡ false)
      → half_at (with_words d w n f) j ≡ half_at d j
  unfolding with_words
  half-with_words zero j off = refl
  half-with_words (suc n) j off =
      half-with_word (with_words d w n f) (w + n) (f n) j (off n (omega arith))
      ∙ half-with_words n j (λ i lt. off i (omega arith))
