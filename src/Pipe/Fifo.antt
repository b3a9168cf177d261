-- ===== src/Pipe/Fifo.antt =====
-- pipewrite and piperead of project3_filesystem/pipe.c on the queue of bytes in the pipe.
use ele3021_os.Pipe.Contents.{
  contents-put, contents-taken, IsPipe-put, IsPipe-taken, taken, full_iff, empty_iff, fill,
  length-bytes_from, contents, IsPipe,
}
use ele3021_os.Pipe.{
  put, is_full, failed, readers, wake, asleep, pipesize, done, is_empty, pipewrite_from, Turn,
  piperead, copy_out, pipewrite, Pipe,
}
use ele3021_os.Prelude.{
  ◌<◌, ◌≤◌, length-append, zero, ◌+◌, ◌%◌, inr, ap, ◌||◌, not, inl, subst, true, refl, false,
  Bool-cases, ◌∙◌, suc, ◌&&◌, sym, ◌∷◌, arith, length, [], ◌≡◌, ◌++◌, Bool, List, ℕ,
}
use mathlib.Core.List.{append_assoc, append-nil}
use Prim.Native.Nat.{min}

-- The ends are open as before.
abbrev pub SameEnds : Pipe → Pipe → Type 0
SameEnds p q = (q.readopen ≡ p.readopen) × (q.writeopen ≡ p.writeopen)

-- How pipewrite of `bytes` ends, from the pipe `p`: all is written, it sleeps, or it returns -1.
pub data Wrote (killed : Bool) (p : Pipe) (bytes : List ℕ) : Turn → Pipe → Type 0 where
  wrote_all :
      (q : Pipe)
      → contents q ≡ contents p ++ bytes
      → SameEnds p q
      → q.woken ≡ readers ∷ p.woken
      → Wrote killed p bytes (done (length bytes)) q
  wrote_some :
      (q : Pipe) (front : List ℕ) (b : ℕ) (back : List ℕ)
      → bytes ≡ front ++ (b ∷ back)
      → contents q ≡ contents p ++ front
      → length (contents q) ≡ pipesize
      → q.readopen ≡ true
      → killed ≡ false
      → SameEnds p q
      → q.woken ≡ readers ∷ p.woken
      → Wrote killed p bytes (asleep (length front)) q
  refused :
      (q : Pipe) (front : List ℕ) (b : ℕ) (back : List ℕ)
      → bytes ≡ front ++ (b ∷ back)
      → contents q ≡ contents p ++ front
      → length (contents q) ≡ pipesize
      → (not q.readopen || killed) ≡ true
      → SameEnds p q
      → q.woken ≡ p.woken
      → Wrote killed p bytes failed q

-- What has been written so far.
record IsPrefix (s : Pipe) (bytes sent left : List ℕ) (p : Pipe) : Type 0 where
  pipe : IsPipe p
  split : bytes ≡ sent ++ left
  queued : contents p ≡ contents s ++ sent
  ends : SameEnds s p
  woken : p.woken ≡ s.woken

module _ (killed : Bool) (s : Pipe) (bytes : List ℕ) where
  pipewrite_from-Wrote :
      (left sent : List ℕ) (p : Pipe)
      → IsPrefix s bytes sent left p
      → Wrote killed s bytes
          (pipewrite_from killed left (length sent) p).0
          (pipewrite_from killed left (length sent) p).1
        × IsPipe (pipewrite_from killed left (length sent) p).1
  unfolding pipewrite_from
  pipewrite_from-Wrote [] sent p h =
      let whole : sent ≡ bytes = sym (h.split ∙ append-nil sent) in
      (
        subst (λ l. Wrote killed s bytes (done (length l)) (wake readers p)) (sym whole)
            (wrote_all (wake readers p) (h.queued ∙ ap (λ l. contents s ++ l) whole) h.ends
              (ap (λ l. readers ∷ l) h.woken)),
        record { nread = h.pipe.nread; nwrite = h.pipe.nwrite; room = h.pipe.room },
      )
  pipewrite_from-Wrote (b ∷ left) sent p h = elim (Bool-cases (is_full p)) [
    | inl full ↦
        let many : length (contents p) ≡ pipesize =
          length-bytes_from p.data_ (fill p) p.nread ∙ (full_iff p h.pipe).0 full in
        let woken : IsPipe (wake readers p) = record {
          nread = h.pipe.nread;
          nwrite = h.pipe.nwrite;
          room = h.pipe.room;
        } in
        elim (Bool-cases (not p.readopen || killed)) [
          | inl stop ↦
              rw (full, stop)
                (refused p sent b left h.split h.queued many stop h.ends h.woken, h.pipe)
          | inr wait ↦
              rw (full, wait)
                (
                  wrote_some (wake readers p) sent b left h.split h.queued many
                      (ground (arith, wait)) (ground (arith, wait)) h.ends
                      (ap (λ l. readers ∷ l) h.woken),
                  woken,
                )
        ]
    | inr free ↦
        let step : IsPrefix s bytes (sent ++ (b ∷ [])) left (put b p) = record {
          pipe = IsPipe-put p h.pipe b free;
          split = h.split ∙ sym (append_assoc sent (b ∷ []) left);
          queued =
              contents-put p h.pipe b free
              ∙ ap (λ l. l ++ (b ∷ [])) h.queued
              ∙ append_assoc (contents s) sent (b ∷ []);
          ends = h.ends;
          woken = h.woken;
        } in
        let count : length (sent ++ (b ∷ [])) ≡ length sent + 1 = length-append sent (b ∷ []) in
        rw free (
          subst
            (λ i.
              Wrote killed s bytes (pipewrite_from killed left i (put b p)).0
                (pipewrite_from killed left i (put b p)).1
              × IsPipe (pipewrite_from killed left i (put b p)).1)
            count (pipewrite_from-Wrote left (sent ++ (b ∷ [])) (put b p) step))
  ]

-- From a pipe whose counters are words at most 512 apart, pipewrite ends in one of three ways: all
-- bytes are at the end of the queue, and the readers are woken; for a process that has not been
-- killed, it wakes the readers and sleeps on a full pipe that can be read, with the front of the
-- bytes at the end of the queue; or it returns -1 on a full pipe that cannot be read, or because the
-- process has been killed. The ends are open as before, and the counters stay at most 512 apart.
pub pipewrite-Wrote :
    (killed : Bool) (p : Pipe) (bytes : List ℕ)
    → IsPipe p
    → Wrote killed p bytes (pipewrite killed bytes p).0 (pipewrite killed bytes p).1
      × IsPipe (pipewrite killed bytes p).1
unfolding pipewrite
pipewrite-Wrote killed p bytes is = pipewrite_from-Wrote killed p bytes bytes [] p (record {
  pipe = is;
  split = refl;
  queued = sym (append-nil (contents p));
  ends = (refl, refl);
  woken = refl;
})

-- The bytes that copy_out moves are the front of the queue, as many as were asked for and are there.
pub record Copied (n : ℕ) (p : Pipe) (bytes : List ℕ) (q : Pipe) : Type 0 where
  pub queue : contents p ≡ bytes ++ contents q
  pub count : length bytes ≡ min n (length (contents p))
  pub pipe : IsPipe q

copy_out-Copied : (n : ℕ) (p : Pipe) → IsPipe p → Copied n p (copy_out n p).0 (copy_out n p).1
unfolding copy_out
copy_out-Copied zero p is = record { queue = refl; count = omega arith; pipe = is }
copy_out-Copied (suc n) p is = elim (Bool-cases (is_empty p)) [
  | inl none_ ↦
      let length_p = length-bytes_from p.data_ (fill p) p.nread in
      let zero_ = (empty_iff p is).0 none_ in
      rw none_ (record { queue = refl; count = omega (arith, length_p, zero_); pipe = is })
  | inr some_ ↦
      let ih = copy_out-Copied n (taken p is some_) (IsPipe-taken p is some_) in
      let first = contents-taken p is some_ in
      let longer : length (contents p) ≡ suc (length (contents (taken p is some_))) =
        ap length first in
      rw some_ (record {
        queue = first ∙ ap (λ l. p.data_ (p.nread % 512) ∷ l) ih.queue;
        count = omega (arith, longer, ih.count);
        pipe = ih.pipe;
      })
]

-- From a pipe whose counters are words at most 512 apart that holds bytes or that nobody can write
-- to, piperead of `n` returns the front of the queue, of `n` bytes or of all there are, and leaves
-- the rest; the counters stay at most 512 apart.
pub piperead-Copied :
    (killed : Bool) (n : ℕ) (p : Pipe)
    → IsPipe p
    → (is_empty p && p.writeopen) ≡ false
    → ((piperead killed n p).0 ≡ done (length (piperead killed n p).1))
      × Copied n p (piperead killed n p).1 (piperead killed n p).2
unfolding piperead
piperead-Copied killed n p is ready =
    let c = copy_out-Copied n p is in
    rw ready (
      refl,
      record {
        queue = c.queue;
        count = c.count;
        pipe = record { nread = c.pipe.nread; nwrite = c.pipe.nwrite; room = c.pipe.room };
      },
    )

module _ (killed : Bool) (p : Pipe) (bytes : List ℕ) (fits : length bytes ≤ pipesize)
    (empty : contents p ≡ []) where
  not_full :
      (q : Pipe) (front : List ℕ) (b : ℕ) (back : List ℕ)
      → bytes ≡ front ++ (b ∷ back)
      → contents q ≡ contents p ++ front
      → length (contents q) ≡ pipesize
      → ⊥
  not_full q front b back split queued many =
      let at : length (contents q) ≡ length front =
        ap length (queued ∙ ap (λ l. l ++ front) empty) in
      let total : length bytes ≡ length front + suc (length back) =
        ap length split ∙ length-append front (b ∷ back) in
      omega (arith, at, total, many, fits)

  -- Bytes that fit are all written.
  Wrote-fitting :
      (turn : Turn) (q : Pipe)
      → Wrote killed p bytes turn q
      → (turn ≡ done (length bytes)) × (contents q ≡ bytes)
  Wrote-fitting _ q (wrote_all _ queued ends woken) = (refl, queued ∙ ap (λ l. l ++ bytes) empty)
  Wrote-fitting _ q (wrote_some _ front b back split queued many open_ live ends woken) =
      absurd (not_full q front b back split queued many)
  Wrote-fitting _ q (refused _ front b back split queued many why ends woken) =
      absurd (not_full q front b back split queued many)

length_zero : (l : List ℕ) → length l ≡ 0 → l ≡ []
length_zero [] e = refl
length_zero (x ∷ l) e = absurd (omega arith)

-- Bytes written into an empty pipe, at least one and at most 512 of them, are read back whole and in
-- order by a read of as many or more.
pub piperead-pipewrite :
    (killed : Bool) (n : ℕ) (p : Pipe) (bytes : List ℕ)
    → IsPipe p
    → contents p ≡ []
    → 0 < length bytes
    → length bytes ≤ pipesize
    → length bytes ≤ n
    → ((pipewrite killed bytes p).0 ≡ done (length bytes))
      × ((piperead killed n (pipewrite killed bytes p).1).0 ≡ done (length bytes))
      × ((piperead killed n (pipewrite killed bytes p).1).1 ≡ bytes)
piperead-pipewrite killed n p bytes is empty more fits enough =
    let (wrote, is') = pipewrite-Wrote killed p bytes is in
    let q : Pipe = (pipewrite killed bytes p).1 in
    let (turn, queued) = Wrote-fitting killed p bytes fits empty _ q wrote in
    let held : length (contents q) ≡ length bytes = ap length queued in
    let filled = length-bytes_from q.data_ (fill q) q.nread in
    let ready : (is_empty q && q.writeopen) ≡ false = elim (Bool-cases (is_empty q)) [
      | inr some_ ↦ rw some_ refl
      | inl none_ ↦
          let zero_ = (empty_iff q is').0 none_ in absurd (omega (arith, zero_, filled, held))
    ] in
    let (turn', c) = piperead-Copied killed n q is' ready in
    let out : List ℕ = (piperead killed n q).1 in
    let r : Pipe = (piperead killed n q).2 in
    let all_ : length out ≡ length bytes = omega (arith, c.count, held) in
    let total : length (contents q) ≡ length out + length (contents r) =
      ap length c.queue ∙ length-append out (contents r) in
    let rest : contents r ≡ [] = length_zero (contents r) (omega (arith, all_, total, held)) in
    (
      turn,
      turn' ∙ ap done all_,
      sym (sym queued ∙ c.queue ∙ ap (λ l. out ++ l) rest ∙ append-nil out),
    )
