-- ===== src/Lwp/RoundRobin.antt =====
-- thidxtorun of project2_LWP/proc.c goes round the threads of a process.
use ele3021_os.Mlfq.Kernel.{runnable, same_state}
use ele3021_os.Prelude.{
  ◌≢◌, ◌-◌, subst, refl, zero, inr, sym, ==_iff, inl, Bool-cases, true, suc, ◌||◌, arith, ◌==◌,
  false, ◌%◌, ◌<◌, ◌≡◌, ◌+◌, ℕ,
}
use ele3021_os.Outcome.{Returns, returns}
use ele3021_os.Lwp.State.{nthread, Machine, Process}
use ele3021_os.Lwp.Thread.{thidxtorun, nextth, state_of, next_runnable}

-- The thread `k` steps after `i`.
abbrev pub ahead : ℕ → ℕ → ℕ
ahead i k = (i + k) % nthread

-- The first runnable thread after the one that ran, or that one if no other is runnable.
pub record IsNext (p : Process) (i : ℕ) : Type 0 where
  pub steps : ℕ
  pub turn : i ≡ ahead p.thidx (steps + 1)
  pub within : steps < nthread
  pub passed :
      (k : ℕ) → k < steps → same_state (state_of p (ahead p.thidx (k + 1))) runnable ≡ false
  pub stop : ((i == p.thidx) || same_state (state_of p i) runnable) ≡ true

module _ (s : Machine) (p : Process) (small : p.thidx < nthread) where
  walk :
      (fuel k : ℕ)
      → fuel + k ≡ nthread
      → 0 < fuel
      → ((j : ℕ) → j < k → same_state (state_of p (ahead p.thidx (j + 1))) runnable ≡ false)
      → Returns (λ i t. IsNext p i × (t ≡ s)) (next_runnable fuel p (ahead p.thidx (k + 1)) s)
  unfolding next_runnable
  walk zero k e more passed = absurd (omega arith)
  walk (suc fuel) k e more passed = elim (Bool-cases (ahead p.thidx (k + 1) == p.thidx)) [
    | inl same ↦
        let here = (==_iff (ahead p.thidx (k + 1)) p.thidx).0 same in
        rw same (
          returns (
            record {
              steps = k;
              turn = sym here;
              within = omega arith;
              passed = passed;
              stop = ground arith;
            },
            refl,
          ))
    | inr other ↦ elim (Bool-cases (same_state (state_of p (ahead p.thidx (k + 1))) runnable)) [
      | inl ready ↦
          rw (other, ready)
            (returns (
              record {
                steps = k;
                turn = refl;
                within = omega arith;
                passed = passed;
                stop = ground arith;
              },
              refl,
            ))
      | inr idle ↦
          let step : nextth (ahead p.thidx (k + 1)) ≡ ahead p.thidx (k + 1 + 1) = omega arith in
          rw (other, idle, step)
            (walk fuel (k + 1) (omega arith) (ground arith) (λ j lt. elim (Bool-cases (j == k)) [
              | inl at ↦ let at' : j ≡ k = (==_iff j k).0 at in rw at' idle
              | inr before ↦ passed j (ground arith)
            ]))
    ]
  ]

  from_next : Returns (λ i t. IsNext p i × (t ≡ s)) (next_runnable nthread p (nextth p.thidx) s)
  from_next =
      let first : ahead p.thidx (0 + 1) ≡ nextth p.thidx = refl in
      subst (λ i. Returns (λ j t. IsNext p j × (t ≡ s)) (next_runnable nthread p i s)) first
        (walk nthread 0 refl (omega arith) (λ j lt. absurd (omega arith)))

-- thidxtorun ends within NTHREAD rounds: it comes to the first runnable thread after the one that ran,
-- in the order round the table, or to that one if no other is runnable, and changes nothing.
pub thidxtorun-IsNext :
    (s : Machine) (p : ℕ)
    → (s.procs p).thidx < nthread
    → Returns (λ i t. IsNext (s.procs p) i × (t ≡ s)) (thidxtorun p s)
unfolding thidxtorun
thidxtorun-IsNext s p small = from_next s (s.procs p) small

-- Where a thread is runnable, the next one is.
pub IsNext-runnable :
    (p : Process) (i r : ℕ)
    → p.thidx < nthread
    → IsNext p i
    → r < nthread
    → same_state (state_of p r) runnable ≡ true
    → (i < nthread) × (same_state (state_of p i) runnable ≡ true)
IsNext-runnable p i r small next lt ready = (
  omega (arith, next.turn),
  elim (Bool-cases (same_state (state_of p i) runnable)) [
    | inl e ↦ e
    | inr e ↦
        let at : (i == p.thidx) ≡ true = ground (arith, next.stop) in
        let here : i ≡ p.thidx = (==_iff i p.thidx).0 at in
        let all : next.steps ≡ 63 = omega (arith, next.turn, next.within) in
        let k : ℕ = (r + 63 - p.thidx) % 64 in
        elim (Bool-cases (r == p.thidx)) [
          | inl same ↦ let same' : r ≡ p.thidx = (==_iff r p.thidx).0 same in absurd (ground arith)
          | inr other ↦
              let ne : r ≢ p.thidx = ground arith in
              let place : r ≡ ahead p.thidx (k + 1) = omega arith in
              let idle = next.passed k (omega arith) in absurd (cc (ready, idle, place))
        ]
  ],
)
