-- ===== src/Fs/Trunc/Put.antt =====
-- References to inodes: idup and iput of project3_filesystem/fs.c.
use ele3021_os.Prelude.{
  ◌∙◌, sym, subst, ap, ==_iff, inl, inr, Bool-cases, ==_refl, refl, ◌-◌, arith, update, ◌+◌, false,
  ◌≡◌, ◌&&◌, ◌==◌, ℕ,
}
use ele3021_os.Fs.State.{Inode, FileSystem}
use ele3021_os.Fs.Trunc.{iput}
use ele3021_os.Fs.Inodes.{idup}
use ele3021_os.Outcome.{returns, ok, Returns, ◌>>=◌}

-- iput of an entry whose inode has links, or that is referenced elsewhere, drops one reference and
-- nothing else.
pub iput_linked :
    (s : FileSystem) (ip : ℕ)
    → ((s.inodes ip).valid && ((s.inodes ip).nlink == 0 && (s.inodes ip).ref == 1)) ≡ false
    → iput ip s
      ≡ ok tt (record s {
        inodes = update s.inodes ip (record (s.inodes ip) { ref = (s.inodes ip).ref - 1 });
      })
unfolding iput
iput_linked s ip kept = rw kept refl

-- For an entry that is referenced, iput takes back what idup did: every entry and every block is as
-- before, nothing is written, and the inode is not truncated.
pub iput-idup :
    (s : FileSystem) (ip : ℕ)
    → ((s.inodes ip).ref == 0) ≡ false
    → Returns
        (λ _ t.
          ((j : ℕ) → t.inodes j ≡ s.inodes j) × (t.blocks ≡ s.blocks) × (t.written ≡ s.written))
        ((idup ip >>= iput) s)
unfolding idup
iput-idup s ip held =
    let n : Inode = s.inodes ip in
    let m : Inode = record n { ref = n.ref + 1 } in
    let t : FileSystem = record s { inodes = update s.inodes ip m } in
    let at : t.inodes ip ≡ m = rw (==_refl ip) refl in
    let more : (n.ref + 1 == 1) ≡ false = ground arith in
    let dropped : (k : Inode) → k ≡ m → (k.valid && (k.nlink == 0 && k.ref == 1)) ≡ false =
      λ k e. let e' : k.ref ≡ n.ref + 1 = ap (λ (o : Inode). o.ref) e in ground (arith, more, e') in
    subst (Returns _) (sym (iput_linked t ip (dropped (t.inodes ip) at))) (
      returns (
        λ j. elim (Bool-cases (j == ip)) [
          | inr off ↦ rw off refl
          | inl on ↦
              let here : j ≡ ip = (==_iff j ip).0 on in
              let back : n.ref + 1 - 1 ≡ n.ref = omega arith in
              rw (on, ==_refl ip)
                (ap (λ k. record n { ref = k }) back ∙ ap (λ i. s.inodes i) (sym here))
        ],
        refl,
        refl,
      ))
