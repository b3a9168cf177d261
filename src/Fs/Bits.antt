-- ===== src/Fs/Bits.antt =====
-- The bits of a byte, as balloc and bfree of project3_filesystem/fs.c test, set and clear them.
use Prim.Native.Nat.{bit_and, bit_or}
use ele3021_os.Prelude.{
  inr, ==_iff, inl, Bool-cases, refl, zero, ◌||◌, false, suc, sym, arith, ◌==◌, ltb→lt, ◌&&◌, ◌≡◌,
  true, not, ◌<◌, ltb, ◌-◌, Bool, ◌^◌, ℕ,
}

-- 1 << k
abbrev pub mask : ℕ → ℕ
mask k = 2 ^ k

abbrev pub has_bit : ℕ → ℕ → Bool
has_bit v k = not (bit_and v (mask k) == 0)

abbrev pub with_bit : ℕ → ℕ → ℕ
with_bit v k = bit_or v (mask k)

-- v & ~m in a byte
abbrev pub without_bit : ℕ → ℕ → ℕ
without_bit v k = bit_and v (255 - mask k)

-- Whether a test passes at every number before `n`.
every : (ℕ → Bool) → ℕ → Bool
every test zero = true
every test (suc m) = every test m && test m

every_at : (test : ℕ → Bool) (n : ℕ) → every test n ≡ true → (i : ℕ) → i < n → test i ≡ true
unfolding every
every_at test zero passed i lt = absurd (omega arith)
every_at test (suc m) passed i lt =
    let parts : (every test m ≡ true) × (test m ≡ true) = ground arith in
    elim (Bool-cases (i == m)) [
      | inl e ↦ let here : i ≡ m = (==_iff i m).0 e in rw here parts.1
      | inr e ↦ every_at test m parts.0 i (ground arith)
    ]

iff : Bool → Bool → Bool
iff true b = b
iff false b = not b

iff_sound : (a b : Bool) → iff a b ≡ true → a ≡ b
unfolding iff
iff_sound true b h = sym h
iff_sound false b h = ground arith

set_table :
    every
      (λ v.
        every
          (λ k.
            ltb (with_bit v k) 256
            && every (λ j. iff (has_bit (with_bit v k) j) (j == k || has_bit v j)) 8)
          8)
      256
    ≡ true
unfolding every iff
set_table = refl

clear_table :
    every
      (λ v.
        every
          (λ k.
            ltb (without_bit v k) 256
            && every (λ j. iff (has_bit (without_bit v k) j) (not (j == k) && has_bit v j)) 8)
          8)
      256
    ≡ true
unfolding every iff
clear_table = refl

module _ (v k : ℕ) (byte : v < 256) (small : k < 8) where
  set_row :
      (ltb (with_bit v k) 256
        && every (λ j. iff (has_bit (with_bit v k) j) (j == k || has_bit v j)) 8)
      ≡ true
  set_row = every_at _ 8 (every_at _ 256 set_table v byte) k small

  clear_row :
      (ltb (without_bit v k) 256
        && every (λ j. iff (has_bit (without_bit v k) j) (not (j == k) && has_bit v j)) 8)
      ≡ true
  clear_row = every_at _ 8 (every_at _ 256 clear_table v byte) k small

  both : (a b : Bool) → (a && b) ≡ true → (a ≡ true) × (b ≡ true)
  both a b h = ground arith

  pub with_bit-lt : with_bit v k < 256
  with_bit-lt = ltb→lt _ _ (both _ _ set_row).0

  pub has_bit-with_bit : (j : ℕ) → j < 8 → has_bit (with_bit v k) j ≡ (j == k || has_bit v j)
  has_bit-with_bit j lt = iff_sound _ _ (every_at _ 8 (both _ _ set_row).1 j lt)

  pub without_bit-lt : without_bit v k < 256
  without_bit-lt = ltb→lt _ _ (both _ _ clear_row).0

  pub has_bit-without_bit :
      (j : ℕ) → j < 8 → has_bit (without_bit v k) j ≡ (not (j == k) && has_bit v j)
  has_bit-without_bit j lt = iff_sound _ _ (every_at _ 8 (both _ _ clear_row).1 j lt)
