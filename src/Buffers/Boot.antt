-- ===== src/Buffers/Boot.antt =====
-- binit of project3_filesystem/bio.c.
use ele3021_os.Buffers.Ring.{IsRing-push, strip, IsRing}
use ele3021_os.Buffers.Coherent.{IsCoherent}
use ele3021_os.Prelude.{
  sym, subst, zero, ◌∙◌, ◌∷◌, refl, suc, ◌==◌, ap, ◌+◌, false, ltb, [], ◌<◌, ◌≡◌, mem, List, arith,
  ℕ,
}
use ele3021_os.Outcome.{◌>>◌, returns, Returns, Returns-bind, Returns-mono, each-Returns, each}
use ele3021_os.Buffers.{push_front, nbuf, binit, Buffer, Cache, set_prev, set_next, head}

-- The buffers below `n`, the last first.
abbrev pub down : ℕ → List ℕ
down zero = []
down (suc n) = n ∷ down n

pub mem-down : (b n : ℕ) → mem b (down n) ≡ ltb b n
mem-down b zero = ground arith
mem-down b (suc n) = ground (arith, mem-down b n)

-- A buffer as the kernel's zeroed memory holds it.
pub record IsZeroed (r : Buffer) : Type 0 where
  pub valid : r.valid ≡ false
  pub dirty : r.dirty ≡ false
  pub dev : r.dev ≡ 0
  pub held : r.held ≡ false

pub record Booted (s t : Cache) : Type 0 where
  pub cache : IsCoherent t (down nbuf)
  pub rest : (x : ℕ) → strip (t.buf x) ≡ strip (s.buf x)
  pub disk : t.disk ≡ s.disk

record Listed (s : Cache) (i : ℕ) (t : Cache) : Type 0 where
  ring : IsRing t (down i)
  rest : (x : ℕ) → strip (t.buf x) ≡ strip (s.buf x)
  disk : t.disk ≡ s.disk

module _ (s : Cache) where
  first : Returns (λ _. Listed s 0) ((set_prev head head >> set_next head head) s)
  first = returns (record {
    ring = record { forward = ground arith; backward = ground arith; distinct = (refl, tt) };
    rest = λ x. ground arith;
    disk = refl;
  })

  push :
      (i : ℕ) (u : Cache)
      → i < nbuf
      → Listed s i u
      → Returns (λ _. Listed s (i + 1)) (push_front i u)
  push i u lt h =
      Returns-mono (IsRing-push u i (down i) h.ring (let off = mem-down i i in ground arith))
        (λ _ t (r, same). record {
          ring = let up : i + 1 ≡ suc i = omega arith in subst (λ k. IsRing t (down k)) (sym up) r;
          rest = λ x. same.0 x ∙ h.rest x;
          disk = same.1 ∙ h.disk;
        })

  -- From buffers as zeroed memory holds them, binit puts all of them on the list, the last in front:
  -- the buffers are coherent, and but for the pointers they and the disk are as before.
  pub binit-Booted : ((x : ℕ) → IsZeroed (s.buf x)) → Returns (λ _. Booted s) (binit s)
  unfolding binit
  binit-Booted zeroed =
      Returns-bind ((set_prev head head >> set_next head head) s) (λ _. each nbuf 0 push_front)
        first
        (λ _ u h.
          Returns-mono (each-Returns (Listed s) nbuf push_front push nbuf 0 u refl h)
            (λ _ t k. record { cache = coherent t k; rest = k.rest; disk = k.disk }))
    where
      coherent : (t : Cache) → Listed s nbuf t → IsCoherent t (down nbuf)
      coherent t k = record {
        ring = k.ring;
        members = λ b. mem-down b nbuf;
        single = λ b c lt lt' real e.
            let at = ap (λ (r : Buffer). r.dev == 0) (k.rest b) ∙ ap (λ d. d == 0) (zeroed b).dev in
            cc (at, real);
        clean = λ b lt e v d.
            let at = ap (λ (r : Buffer). r.valid) (k.rest b) ∙ (zeroed b).valid in cc (at, v);
        counted = λ b lt e.
            let at = ap (λ (r : Buffer). r.held) (k.rest b) ∙ (zeroed b).held in cc (at, e);
        read_first = λ b lt e.
            let at = ap (λ (r : Buffer). r.dirty) (k.rest b) ∙ (zeroed b).dirty in cc (at, e);
      }
