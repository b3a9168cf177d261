-- ===== src/Log/Write.antt =====
-- log_write of project3_filesystem/log.c: a modified block joins the pending transaction.
use ele3021_os.Outcome.{returns, ◌>>◌, Returns}
use ele3021_os.Log.Commit.{IsPending}
use ele3021_os.Prelude.{
  ◌∙◌, ap, leb, not, Bool, inr, refl, ==_iff, zero, inl, suc, Bool-cases, arith, ◌||◌, true, false,
  ◌≡◌, ◌==◌, ◌+◌, update, if◌then◌else◌, ◌<◌, ◌≤◌, ℕ,
}
use ele3021_os.Log.{set_data, logsize, Block, log_write, Log, absorb}
use ele3021_os.Log.Crash.{is_home, IsTransaction, Transaction, logged, logged_step, logged-congr}

-- The loop ends at the first position of the block, or behind the last one.
absorb_lem :
    (k i : ℕ) (block : ℕ → ℕ) (b : ℕ)
    → (absorb k i block b ≤ i + k)
      × (absorb k i block b < i + k → block (absorb k i block b) ≡ b)
      × (absorb k i block b ≡ i + k → (j : ℕ) → i ≤ j → j < i + k → (block j == b) ≡ false)
unfolding absorb
absorb_lem zero i block b =
    (omega arith, (λ h. absurd (omega arith)), λ e j l h. absurd (omega arith))
absorb_lem (suc k) i block b =
    let ih = absorb_lem k (i + 1) block b in
    elim (Bool-cases (block i == b)) [
      | inl e ↦ rw e (omega arith, (λ h. (==_iff (block i) b).0 e), λ h j l m. absurd (omega arith))
      | inr e ↦ rw e (
        omega (arith, ih.0),
        (λ h. ih.1 (omega arith)),
        λ h j l m. elim (Bool-cases (i == j)) [
          | inl same ↦ ground arith
          | inr apart ↦ ih.2 (omega arith) j (ground arith) (omega arith)
        ],
      )
    ]

logged_absent :
    (n : ℕ) (blk : ℕ → ℕ) (b : ℕ)
    → ((j : ℕ) → j < n → (blk j == b) ≡ false)
    → logged n blk b ≡ false
unfolding logged
logged_absent zero blk b h = refl
logged_absent (suc n) blk b h =
    ground (arith, h n, logged_absent n blk b (λ j lt. h j (omega arith)))

logged_at : (n : ℕ) (blk : ℕ → ℕ) (i b : ℕ) → i < n → blk i ≡ b → logged n blk b ≡ true
unfolding logged
logged_at zero blk i b lt e = absurd (omega arith)
logged_at (suc n) blk i b lt e = elim (Bool-cases (n == i)) [
  | inl same ↦ ground arith
  | inr apart ↦ ground (arith, logged_at n blk i b (ground arith) e)
]

abbrev grown : ℕ → ℕ → ℕ
grown n i = if i == n then n + 1 else n

-- The header after log_write: `b` besides the blocks that it had, and one more only if `b` is new.
pub logged-absorb :
    (n : ℕ) (block : ℕ → ℕ) (b c : ℕ)
    → logged (grown n (absorb n 0 block b)) (update block (absorb n 0 block b) b) c
      ≡ ((b == c) || logged n block c)
logged-absorb n block b c =
    let i : ℕ = absorb n 0 block b in
    let (le, found, new) = absorb_lem n 0 block b in
    elim (Bool-cases (i == n)) [
      | inl e ↦
          let at : i ≡ n = (==_iff i n).0 e in
          let same = logged-congr n block (update block n b) c (λ j lt. ground arith) in
          rw e (rw at (ground (arith, logged_step n (update block n b) c)))
      | inr e ↦
          let lt : i < n = ground arith in
          let here : block i ≡ b = found (omega arith) in
          let same = logged-congr n block (update block i b) c (λ j lt. ground arith) in
          rw e (ground (arith, logged_at n block i c lt))
    ]

-- The transaction `x` with the block `b` rewritten to `v`, as the header of `t` lists it.
abbrev pub extended : Transaction → Log → ℕ → Block → Transaction
extended x t b v = record {
  start = x.start;
  size = x.size;
  n = t.n;
  blk = t.block;
  old = x.old;
  new = update x.new b v;
}

-- There is room for one more block in the header and in the log.
abbrev pub has_room : Log → Bool
has_room s = not (leb logsize s.n || leb s.size (s.n + 1))

pub record Joined (x : Transaction) (s : Log) (b : ℕ) (v : Block) (t : Log) : Type 0 where
  pub valid : IsTransaction (extended x t b v)
  pub pending : IsPending (extended x t b v) t
  pub members : (c : ℕ) → logged t.n t.block c ≡ ((b == c) || logged x.n x.blk c)
  pub grows : t.n ≡ (if logged x.n x.blk b then s.n else s.n + 1)
  pub disk : t.disk ≡ s.disk
  pub dirty : t.dirty b ≡ true

grown_lem :
    (n : ℕ) (block : ℕ → ℕ) (b : ℕ)
    → grown n (absorb n 0 block b) ≡ (if logged n block b then n else n + 1)
grown_lem n block b =
    let (le, found, new) = absorb_lem n 0 block b in
    elim (Bool-cases (absorb n 0 block b == n)) [
      | inl e ↦
          let at : absorb n 0 block b ≡ n = (==_iff (absorb n 0 block b) n).0 e in
          rw (e, logged_absent n block b (λ j lt. new (omega arith) j (omega arith) (omega arith)))
            refl
      | inr e ↦
          let lt : absorb n 0 block b < n = ground arith in
          rw (e, logged_at n block (absorb n 0 block b) b lt (found (omega arith))) refl
    ]

-- When the log has room, writing a block at home and log_write: the block joins the pending
-- transaction, which stays pending and within the log, and is counted only if it had not been
-- logged. The disk is untouched.
pub log_write-Joined :
    (x : Transaction) (s : Log) (b : ℕ) (v : Block)
    → IsTransaction x
    → IsPending x s
    → s.size ≡ x.size
    → is_home x.start x.size b ≡ true
    → has_room s ≡ true
    → Returns (λ _. Joined x s b v) ((set_data b v >> log_write b) s)
unfolding log_write
log_write-Joined x s b v valid pending size home room =
    let number : s.n ≡ x.n = pending.frame.number in
    let (le, found, new) = absorb_lem s.n 0 s.block b in
    let i : ℕ = absorb s.n 0 s.block b in
    let same : (c : ℕ) → logged s.n s.block c ≡ logged x.n x.blk c = λ c.
      ap (λ m. logged m s.block c) number ∙ logged-congr x.n x.blk s.block c pending.frame.blocks in
    let members : (c : ℕ)
        → logged (grown s.n i) (update s.block i b) c ≡ ((b == c) || logged x.n x.blk c) =
      λ c. logged-absorb s.n s.block b c ∙ ap (λ l. (b == c) || l) (same c) in
    let free : (leb logsize s.n || leb s.size (s.n + 1)) ≡ false = ground arith in
    rw free (
      returns (record {
        valid = record {
          fits = ground arith;
          homes = λ j lt. ground (arith, pending.frame.blocks j, valid.homes j);
          kept = λ c h l. ground (arith, members c, valid.kept c h);
        };
        pending = record {
          frame = record { start = pending.frame.start; number = refl; blocks = λ j lt. refl };
          clean = record { empty = pending.clean.empty; home = pending.clean.home };
          cached = λ c h. ground (arith, pending.cached c h);
        };
        members = members;
        grows = grown_lem s.n s.block b ∙ ap (λ l. if l then s.n else s.n + 1) (same b);
        disk = refl;
        dirty = ground arith;
      }))
