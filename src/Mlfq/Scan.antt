-- ===== src/Mlfq/Scan.antt =====
-- Scans of a table: what an entry found, or none, says of the entries.
use ele3021_os.Prelude.{
  ==_iff, zero, ◌==◌, inr, inl, arith, Bool-cases, suc, false, ◌+◌, ◌<◌, ◌≤◌, true, none, some, ◌≡◌,
  Bool, ℕ,
}
use ele3021_os.Mlfq.Kernel.{scan}

pub scan_sound :
    (n i : ℕ) (test : ℕ → Bool) (p : ℕ) → scan n i test ≡ some p → (test p ≡ true) × (p < i + n)
unfolding scan
scan_sound zero i test p h = cc
scan_sound (suc n) i test p h = elim (Bool-cases (test i)) [
  | inl e ↦ ground arith
  | inr e ↦ let ih = scan_sound n (i + 1) test p (rw e at h) in (ih.0, omega arith)
]

pub scan-none :
    (n i : ℕ) (test : ℕ → Bool)
    → scan n i test ≡ none
    → (j : ℕ) → i ≤ j
    → j < i + n
    → test j ≡ false
unfolding scan
scan-none zero i test h j l m = absurd (omega arith)
scan-none (suc n) i test h j l m = elim (Bool-cases (test i)) [
  | inl e ↦ absurd (ground arith)
  | inr e ↦ elim (Bool-cases (i == j)) [
    | inl at ↦ let at' : i ≡ j = (==_iff i j).0 at in rw (← at') e
    | inr apart ↦ scan-none n (i + 1) test (rw e at h) j (ground arith) (omega arith)
  ]
]

-- A scan finds the first entry that passes.
pub scan_first :
    (n i : ℕ) (test : ℕ → Bool) (p : ℕ)
    → scan n i test ≡ some p
    → (j : ℕ) → i ≤ j
    → j < p
    → test j ≡ false
unfolding scan
scan_first zero i test p h j l m = cc
scan_first (suc n) i test p h j l m = elim (Bool-cases (test i)) [
  | inl e ↦ absurd (ground arith)
  | inr e ↦ elim (Bool-cases (i == j)) [
    | inl at ↦ let at' : i ≡ j = (==_iff i j).0 at in rw (← at') e
    | inr apart ↦ scan_first n (i + 1) test p (rw e at h) j (ground arith) m
  ]
]

pub scan_above : (n i : ℕ) (test : ℕ → Bool) (p : ℕ) → scan n i test ≡ some p → i ≤ p
unfolding scan
scan_above zero i test p h = cc
scan_above (suc n) i test p h = ground (arith, scan_above n (i + 1) test p)
