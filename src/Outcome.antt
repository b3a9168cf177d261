-- ===== src/Outcome.antt =====
-- Kernel code as commands on a state: a command returns a value with the new state, stops in
-- `panic(message)`, dereferences NULL or leaves an array (`fault`), or uses up the model's fuel.
use ele3021_os.Prelude.{refl, subst, arith, ◌<◌, ◌+◌, zero, suc, ◌≡◌, ℕ, String, Option, none, some}

pub data Outcome (S A : Type 0) : Type 0 where
  ok : A → S → Outcome S A
  panic : String → Outcome S A
  fault : Outcome S A
  out_of_fuel : Outcome S A

abbrev pub Cmd : Type 0 → Type 0 → Type 0
Cmd S A = S → Outcome S A

abbrev pub pure : {S A : Type 0} → A → Cmd S A
pure a s = ok a s

abbrev pub halt : {S A : Type 0} → String → Cmd S A
halt message s = panic message

abbrev pub crash : {S A : Type 0} → Cmd S A
crash s = fault

abbrev pub gets : {S A : Type 0} → (S → A) → Cmd S A
gets f s = ok (f s) s

abbrev pub modify : {S : Type 0} → (S → S) → Cmd S (Unit {0})
modify f s = ok tt (f s)

module _ {S A B : Type 0} where
  abbrev pub and_then : Outcome S A → (A → Cmd S B) → Outcome S B
  and_then (ok a s) k = k a s
  and_then (panic message) k = panic message
  and_then fault k = fault
  and_then out_of_fuel k = out_of_fuel

  infixl 5 ◌>>=◌ ◌>>◌
  abbrev pub ◌>>=◌ : Cmd S A → (A → Cmd S B) → Cmd S B
  ◌>>=◌ m k s = and_then (m s) k

  abbrev pub ◌>>◌ : Cmd S A → Cmd S B → Cmd S B
  ◌>>◌ m n s = and_then (m s) (λ _. n)

pub and_then_assoc :
    {S A B C : Type 0} (r : Outcome S A) (k : A → Cmd S B) (j : B → Cmd S C)
    → and_then (and_then r k) j ≡ and_then r (λ a s. and_then (k a s) j)
and_then_assoc (ok a s) k j = refl
and_then_assoc (panic message) k j = refl
and_then_assoc fault k j = refl
and_then_assoc out_of_fuel k j = refl

-- `*p`: what follows gets the index that the pointer holds.
abbrev pub deref : {S A : Type 0} → Option ℕ → (ℕ → Cmd S A) → Cmd S A
deref none k = crash
deref (some p) k = k p

-- Total correctness of a run: it returns, and the result and the new state satisfy `P`.
pub data Returns {S A : Type 0} (P : A → S → Type 0) : Outcome S A → Type 0 where
  returns : {a : A} {s : S} → P a s → Returns P (ok a s)

module _ {S A : Type 0} {P : A → S → Type 0} where
  pub Returns-bind :
      {B : Type 0} {Q : B → S → Type 0} (r : Outcome S A) (k : A → Cmd S B)
      → Returns P r
      → ((a : A) (s : S) → P a s → Returns Q (k a s))
      → Returns Q (and_then r k)
  Returns-bind r k (returns h) next = next _ _ h

  pub Returns-mono :
      {Q : A → S → Type 0} {r : Outcome S A}
      → Returns P r
      → ((a : A) (s : S) → P a s → Q a s)
      → Returns Q r
  Returns-mono (returns h) weaken = returns (weaken _ _ h)

  -- A command that ends in the same way from every state that satisfies `P`.
  pub Returns-eq :
      {B : Type 0} (r : Outcome S A) (k : A → Cmd S B) (o : Outcome S B)
      → Returns P r
      → ((a : A) (s : S) → P a s → k a s ≡ o)
      → and_then r k ≡ o
  Returns-eq r k o (returns h) same = same _ _ h

-- for (p = i; p < i + n; p++) body
unfoldable pub each : {S : Type 0} → ℕ → ℕ → (ℕ → Cmd S Unit) → Cmd S Unit
each zero i body = pure tt
each (suc n) i body = body i >> each n (i + 1) body

-- What the body carries from `i` to `i + 1` holds at the end.
pub each-Returns :
    {S : Type 0} (P : ℕ → S → Type 0) (stop : ℕ) (body : ℕ → Cmd S Unit)
    → ((i : ℕ) (s : S) → i < stop → P i s → Returns (λ _. P (i + 1)) (body i s))
    → (n i : ℕ) (s : S) → i + n ≡ stop
    → P i s
    → Returns (λ _. P stop) (each n i body s)
unfolding each
each-Returns P stop body keep zero i s e h =
    let e' : i ≡ stop = omega arith in returns (subst (λ k. P k s) e' h)
each-Returns P stop body keep (suc n) i s e h =
    Returns-bind (body i s) (λ _. each n (i + 1) body) (keep i s (omega arith) h)
      (λ _ t k. each-Returns P stop body keep n (i + 1) t (omega arith) k)
