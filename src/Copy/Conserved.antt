-- ===== src/Copy/Conserved.antt =====
-- What is read is written: nothing is lost, invented or reordered on the way.
use websocat.Base.{
  ℕ, suc, zero, ◌≡◌, ◌⊎◌, inl, inr, refl, sym, ◌∙◌, not, ◌&&◌, some, ◌==◌, Bytes, Bool-cases,
  ==_iff, subst, &&-parts, if-true, if-false,
}
use websocat.Copy.{Copy, Poll, Round, yields, goes_on, is_exhausted, copy_phase, copy_round, poll}
use websocat.Copy.Writing.{IsCopying, IsComplete, IsSoundRound, write_phase-IsSoundRound}
use websocat.Copy.Reading.{no_more-IsCopying, read_phase-IsSoundRound}

copy_phase-IsSoundRound :
    (all : Bytes) (c : Copy) → IsCopying all c → IsSoundRound all (copy_phase c)
unfolding copy_phase
copy_phase-IsSoundRound all c k = elim (Bool-cases (c.pos == c.cap && not c.read_done)) [
  | inl empty ↦
      let at_end = (==_iff c.pos c.cap).0 (&&-parts (c.pos == c.cap) (not c.read_done) empty).0 in
      subst (IsSoundRound all) (sym (if-true _ _ empty))
        (elim (Bool-cases (c.read_occurred && c.opts.once)) [
          | inl enough ↦
              subst (IsSoundRound all) (sym (if-true _ _ enough)) (no_more-IsCopying all c k)
          | inr another ↦
              subst (IsSoundRound all) (sym (if-false _ _ another))
                (elim (Bool-cases (is_exhausted c.remaining_ops)) [
                  | inl spent ↦
                      subst (IsSoundRound all) (sym (if-true _ _ spent)) (no_more-IsCopying all c k)
                  | inr left ↦
                      subst (IsSoundRound all) (sym (if-false _ _ left))
                        (read_phase-IsSoundRound all c.reader c at_end refl k)
                ])
        ])
  | inr more ↦ subst (IsSoundRound all) (sym (if-false _ _ more)) (write_phase-IsSoundRound all c k)
]

copy_round-IsSoundRound :
    (all : Bytes) (c : Copy) → IsCopying all c → IsSoundRound all (copy_round c)
unfolding copy_round
copy_round-IsSoundRound all c k =
    subst (IsSoundRound all) (sym (if-false _ _ k.drained ∙ if-false _ _ k.enabled))
      (copy_phase-IsSoundRound all c k)

pub Round-cases :
    (r : Round) → ((c : Copy) × (p : Poll) × (r ≡ yields c p)) ⊎ ((c : Copy) × (r ≡ goes_on c))
Round-cases (yields c p) = inl (c, p, refl)
Round-cases (goes_on c) = inr (c, refl)

some-eq {ℓ} : {A : Type ℓ} {a b : A} → some a ≡ some b → a ≡ b
some-eq e = cc

-- Behind the preamble, a poll of the copy loses, invents and reorders no byte: what is written, then
-- what waits in the buffer, then what is not yet read, is the same before and after it, whether it
-- waits, fails or is ready, and the count is that of the bytes written. If it is ready, the reader has
-- ended, nothing waits in the buffer, and the count is returned.
pub poll-IsCopying :
    (all : Bytes) (f : ℕ) (c c' : Copy) (p : Poll)
    → IsCopying all c
    → poll f c ≡ some (c', p)
    → IsCopying all c' × IsComplete c' p
unfolding poll
poll-IsCopying all zero c c' p k e = cc
poll-IsCopying all (suc f) c c' p k e = elim (Round-cases (copy_round c)) [
  | inl (d, q, r) ↦
      let same : (d, q) ≡ (c', p) = some-eq (rw (r, poll) at e) in
      subst (λ z. IsCopying all z.0 × IsComplete z.0 z.1) same
        (subst (IsSoundRound all) r (copy_round-IsSoundRound all c k))
  | inr (d, r) ↦
      poll-IsCopying all f d c' p (subst (IsSoundRound all) r (copy_round-IsSoundRound all c k))
        (rw (r, poll) at e)
]
