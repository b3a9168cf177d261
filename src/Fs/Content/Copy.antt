-- ===== src/Fs/Content/Copy.antt =====
-- Bytes that memmove puts into a block, in project3_filesystem/fs.c.
use ele3021_os.Fs.State.{Bytes}
use ele3021_os.Fs.Content.{overwrite}
use ele3021_os.Prelude.{
  take, drop, ◌∙◌, inr, ==_refl, true, ==_iff, inl, ◌==◌, Bool-cases, refl, false, zero, ◌-◌, [],
  ◌+◌, arith, if◌then◌else◌, ◌&&◌, suc, length, ◌≡◌, ltb, ◌<◌, ◌≤◌, not, ◌∷◌, Bool, List, ℕ,
}

-- Byte `i` of a list, 0 past its end.
abbrev pub nth : List ℕ → ℕ → ℕ
nth [] i = 0
nth (b ∷ bs) zero = b
nth (b ∷ bs) (suc i) = nth bs i

-- Whether `j` is one of `k` places from `i` on.
abbrev pub within : ℕ → ℕ → ℕ → Bool
within i k j = not (ltb j i) && ltb j (i + k)

pub overwrite_lem :
    (d : Bytes) (i : ℕ) (bs : List ℕ) (j : ℕ)
    → overwrite d i bs j ≡ (if within i (length bs) j then nth bs (j - i) else d j)
unfolding overwrite
overwrite_lem d i [] j = let off : within i 0 j ≡ false = ground arith in rw off refl
overwrite_lem d i (b ∷ bs) j = elim (Bool-cases (j == i)) [
  | inl e ↦
      let at : j ≡ i = (==_iff j i).0 e in
      let on : within i (suc (length bs)) i ≡ true = ground arith in
      let first : i - i ≡ 0 = omega arith in rw (at, ==_refl i, on, first) refl
  | inr e ↦ rw e (
      overwrite_lem d (i + 1) bs j ∙ elim (Bool-cases (within (i + 1) (length bs) j)) [
        | inl on ↦
            let on' : within i (suc (length bs)) j ≡ true = ground arith in
            let next : j - i ≡ suc (j - (i + 1)) = ground arith in rw (on, on', next) refl
        | inr off ↦
            let off' : within i (suc (length bs)) j ≡ false = ground arith in rw (off, off') refl
      ])
]

pub length-take : (m : ℕ) (bs : List ℕ) → m ≤ length bs → length (take m bs) ≡ m
length-take zero bs le = refl
length-take (suc m) [] le = absurd (omega arith)
length-take (suc m) (b ∷ bs) le = omega (arith, length-take m bs (omega arith))

pub length-drop : (m : ℕ) (bs : List ℕ) → m ≤ length bs → length (drop m bs) + m ≡ length bs
length-drop zero bs le = omega arith
length-drop (suc m) [] le = absurd (omega arith)
length-drop (suc m) (b ∷ bs) le = omega (arith, length-drop m bs (omega arith))

pub nth-take : (m : ℕ) (bs : List ℕ) (i : ℕ) → i < m → nth (take m bs) i ≡ nth bs i
nth-take zero bs i lt = absurd (omega arith)
nth-take (suc m) [] i lt = refl
nth-take (suc m) (b ∷ bs) zero lt = refl
nth-take (suc m) (b ∷ bs) (suc i) lt = nth-take m bs i (omega arith)

pub nth-drop : (m : ℕ) (bs : List ℕ) (i : ℕ) → nth (drop m bs) i ≡ nth bs (m + i)
nth-drop zero bs i = let at : 0 + i ≡ i = omega arith in rw at refl
nth-drop (suc m) [] i = refl
nth-drop (suc m) (b ∷ bs) i =
    let at : suc m + i ≡ suc (m + i) = omega arith in rw at (nth-drop m bs i)
