-- ===== src/Log/Crash.antt =====
-- What a crash may leave on the disk while project3_filesystem/log.c commits a transaction.
use native.Mathlib.Numerals.{add-one}
use ele3021_os.Prelude.{
  refl, leb, zero, ◌||◌, arith, ◌==◌, false, ltb, suc, true, ◌+◌, Bool, ◌≡◌, ◌<◌, ℕ,
}
use ele3021_os.Log.{Disk, Log}

-- Outside the log area, that is at home.
abbrev pub is_home : ℕ → ℕ → ℕ → Bool
is_home start size b = ltb b start || leb (start + size) b

-- Whether `b` is one of the first `n` blocks of a header.
unfoldable pub logged : ℕ → (ℕ → ℕ) → ℕ → Bool
logged zero blk b = false
logged (suc n) blk b = (blk n == b) || logged n blk b

pub logged_step :
    (n : ℕ) (blk : ℕ → ℕ) (b : ℕ) → logged (n + 1) blk b ≡ ((blk n == b) || logged n blk b)
unfolding logged
logged_step n blk b = rw (add-one n) refl

pub logged-congr :
    (n : ℕ) (f g : ℕ → ℕ) (b : ℕ) → ((i : ℕ) → i < n → g i ≡ f i) → logged n g b ≡ logged n f b
unfolding logged
logged-congr zero f g b same = refl
logged-congr (suc n) f g b same =
    ground (arith, same n, logged-congr n f g b (λ i lt. same i (omega arith)))

-- A transaction: where the log is, the blocks logged, and the disk before and after.
pub record Transaction : Type 0 where
  pub start : ℕ
  pub size : ℕ
  pub n : ℕ
  pub blk : ℕ → ℕ
  pub old : Disk
  pub new : Disk

-- The log has room for it, it writes only at home, and what it does not log it does not change.
pub record IsTransaction (x : Transaction) : Type 0 where
  pub fits : x.n < x.size
  pub homes : (i : ℕ) → i < x.n → is_home x.start x.size (x.blk i) ≡ true
  pub kept :
      (b : ℕ) → is_home x.start x.size b ≡ true → logged x.n x.blk b ≡ false → x.new b ≡ x.old b

module _ (x : Transaction) where
  -- An empty log and the contents `v` at home.
  pub record IsClean (v d : Disk) : Type 0 where
    pub empty : d x.start 0 ≡ 0
    pub home : (b : ℕ) → is_home x.start x.size b ≡ true → d b ≡ v b

  -- The whole transaction is in the log, and what it does not change is at home.
  pub record IsCommitted (d : Disk) : Type 0 where
    pub number : d x.start 0 ≡ x.n
    pub blocks : (i : ℕ) → i < x.n → d x.start (i + 1) ≡ x.blk i
    pub data_ : (i : ℕ) → i < x.n → d (x.start + i + 1) ≡ x.new (x.blk i)
    pub rest :
        (b : ℕ) → is_home x.start x.size b ≡ true → logged x.n x.blk b ≡ false → d b ≡ x.new b

  -- What every disk of a commit is.
  pub data IsSafe (d : Disk) : Type 0 where
    before : IsClean x.old d → IsSafe d
    within : IsCommitted d → IsSafe d
    after : IsClean x.new d → IsSafe d

  -- The log holds the transaction in memory.
  pub record Frame (s : Log) : Type 0 where
    pub start : s.start ≡ x.start
    pub number : s.n ≡ x.n
    pub blocks : (i : ℕ) → i < x.n → s.block i ≡ x.blk i
