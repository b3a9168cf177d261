-- ===== src/Pipe/Contents.antt =====
-- The bytes in a pipe of project3_filesystem/pipe.c, the oldest first.
use ele3021_os.Pipe.{next, put, pipesize, is_empty, is_full, Pipe}
use ele3021_os.Prelude.{
  ==_refl, ◌∙◌, refl, ◌≢◌, ap, zero, ==_iff, update, ◌∷◌, ◌==◌, ◌↔◌, ◌++◌, arith, false, true, suc,
  ◌%◌, ◌≤◌, ◌-◌, ◌≡◌, ◌^◌, [], ◌+◌, ◌<◌, length, List, ℕ,
}

-- How many bytes there are.
abbrev pub fill : Pipe → ℕ
fill p = (p.nwrite + 2 ^ 32 - p.nread) % 2 ^ 32

-- `k` bytes of the ring from the counter `r` on.
unfoldable pub bytes_from : (ℕ → ℕ) → ℕ → ℕ → List ℕ
bytes_from d zero r = []
bytes_from d (suc k) r = d (r % pipesize) ∷ bytes_from d k (next r)

abbrev pub contents : Pipe → List ℕ
contents p = bytes_from p.data_ (fill p) p.nread

-- The counters are words, at most a ring apart.
pub record IsPipe (p : Pipe) : Type 0 where
  pub nread : p.nread < 2 ^ 32
  pub nwrite : p.nwrite < 2 ^ 32
  pub room : fill p ≤ pipesize

pub length-bytes_from : (d : ℕ → ℕ) (k r : ℕ) → length (bytes_from d k r) ≡ k
unfolding bytes_from
length-bytes_from d zero r = refl
length-bytes_from d (suc k) r = omega (arith, length-bytes_from d k (next r))

-- Bytes elsewhere in the ring do not matter.
bytes_from-update :
    (d : ℕ → ℕ) (k r i b : ℕ)
    → r < 2 ^ 32
    → ((j : ℕ) → j < k → ((r + j) % 2 ^ 32 % pipesize == i) ≡ false)
    → bytes_from (update d i b) k r ≡ bytes_from d k r
unfolding bytes_from
bytes_from-update d zero r i b lt off = refl
bytes_from-update d (suc k) r i b lt off =
    let here : (r % 512 == i) ≡ false = ground (arith, off 0 (omega arith)) in
    let rest = bytes_from-update d k (next r) i b (omega arith) (λ j lt'.
      let same : (next r + j) % 2 ^ 32 ≡ (r + suc j) % 2 ^ 32 = omega arith in
      rw same (off (suc j) (omega arith))) in
    rw (here, rest) refl

-- One more byte at the end.
bytes_from-end :
    (d : ℕ → ℕ) (k r : ℕ)
    → r < 2 ^ 32
    → bytes_from d (suc k) r ≡ bytes_from d k r ++ (d ((r + k) % 2 ^ 32 % pipesize) ∷ [])
unfolding bytes_from
bytes_from-end d zero r lt = let same : (r + 0) % 2 ^ 32 ≡ r = omega arith in rw same refl
bytes_from-end d (suc k) r lt =
    let same : (next r + k) % 2 ^ 32 ≡ (r + suc k) % 2 ^ 32 = omega arith in
    let rest = bytes_from-end d k (next r) (omega arith) in
    ap (λ l. d (r % 512) ∷ l) (rest ∙ rw same refl)

module _ (p : Pipe) (is : IsPipe p) where
  pub full_iff : (is_full p ≡ true) ↔ (fill p ≡ pipesize)
  full_iff = (
    (λ e.
        let at : p.nwrite ≡ (p.nread + 512) % 2 ^ 32 =
          (==_iff p.nwrite ((p.nread + 512) % 2 ^ 32)).0 e in
        omega (arith, at, is.nread, is.nwrite)),
    (λ e. (==_iff p.nwrite ((p.nread + 512) % 2 ^ 32)).1 (omega (arith, e, is.nread, is.nwrite))),
  )

  pub empty_iff : (is_empty p ≡ true) ↔ (fill p ≡ 0)
  empty_iff = (
    (λ e.
        let at : p.nread ≡ p.nwrite = (==_iff p.nread p.nwrite).0 e in
        omega (arith, at, is.nread, is.nwrite)),
    (λ e. (==_iff p.nread p.nwrite).1 (omega (arith, e, is.nread, is.nwrite))),
  )

  module _ (b : ℕ) (free : is_full p ≡ false) where
    fill-put : fill (put b p) ≡ suc (fill p)
    fill-put =
        let not_full : (fill p == 512) ≡ false = ground (arith, full_iff) in
        let less : fill p < 512 = ground (arith, is.room) in
        omega (arith, less, is.nread, is.nwrite)

    pub IsPipe-put : IsPipe (put b p)
    IsPipe-put =
        let not_full : (fill p == 512) ≡ false = ground (arith, full_iff) in
        let less : fill p < 512 = ground (arith, is.room) in
        record { nread = is.nread; nwrite = omega arith; room = omega (arith, fill-put, less) }

    -- A byte put into a pipe that is not full goes to the end.
    pub contents-put : contents (put b p) ≡ contents p ++ (b ∷ [])
    contents-put =
        let not_full : (fill p == 512) ≡ false = ground (arith, full_iff) in
        let less : fill p < 512 = ground (arith, is.room) in
        let d : ℕ → ℕ = update p.data_ (p.nwrite % 512) b in
        let end : (p.nread + fill p) % 2 ^ 32 ≡ p.nwrite = omega (arith, is.nread, is.nwrite) in
        let kept : bytes_from d (fill p) p.nread ≡ contents p =
          bytes_from-update p.data_ (fill p) p.nread (p.nwrite % 512) b is.nread (λ j lt.
            let apart : (p.nread + j) % 2 ^ 32 % 512 ≢ p.nwrite % 512 =
              λ e. omega (arith, e, lt, less, is.nread, is.nwrite) in
            ground arith) in
        ap (λ k. bytes_from d k p.nread) fill-put
        ∙ bytes_from-end d (fill p) p.nread is.nread
        ∙ rw (kept, end, ==_refl (p.nwrite % 512)) refl

  module _ (some_ : is_empty p ≡ false) where
    abbrev pub taken : Pipe
    taken = record p { nread = next p.nread }

    fill-taken : fill p ≡ suc (fill taken)
    fill-taken =
        let not_empty : (fill p == 0) ≡ false = ground (arith, empty_iff) in
        let more : 0 < fill p = ground arith in omega (arith, more, is.nread, is.nwrite, is.room)

    pub IsPipe-taken : IsPipe taken
    IsPipe-taken = record {
      nread = omega arith;
      nwrite = is.nwrite;
      room = omega (arith, fill-taken, is.room);
    }

    -- The first byte and what is left.
    pub contents-taken : contents p ≡ p.data_ (p.nread % pipesize) ∷ contents taken
    unfolding bytes_from
    contents-taken = ap (λ k. bytes_from p.data_ k p.nread) fill-taken
