-- ===== src/Resources/Budget/Ledger/Wakeups.antt =====
-- The wake protocol: what a thread that was refused may conclude from an unchanged generation.
use stimela_ninja.Prelude.{ℕ, ◌<◌, ◌≡◌, ◌≢◌, ap, subst, sym, ◌∙◌, true, false, [], ◌∷◌, arith}
use stimela_ninja.Resources.{Resources, Amounts, is_empty, resolved_against}
use stimela_ninja.Resources.Budget.{
  Budget, fits, exceeds_total, acquire_amounts, try_acquire, grant, is_behind, must_wait, ticket_of,
  oldest, without,
}
use stimela_ninja.Resources.Budget.Ledger.Within.{exceeds_total-fresh}

granted :
    (who : ℕ) (d : Amounts) (b : Budget)
    → is_behind who b.waiters ≡ false
    → is_empty d ≡ false
    → exceeds_total b d ≡ false
    → fits b d ≡ true
    → acquire_amounts who d b ≡ (true, b.generation, grant who d b)
unfolding acquire_amounts
granted who d b front e x f = rw (e, x, front, f)

refused_behind :
    (who : ℕ) (d : Amounts) (b : Budget)
    → is_behind who b.waiters ≡ true
    → is_empty d ≡ false
    → exceeds_total b d ≡ false
    → ((acquire_amounts who d b).0 ≡ false) × ((acquire_amounts who d b).1 ≡ b.generation)
unfolding acquire_amounts
refused_behind who d b behind e x = (rw (e, x, behind), rw (e, x, behind))

module _ (h k th tk : ℕ) (ne : h ≢ k) (lt : th < tk) where
  first_front : is_behind h ((h, th) ∷ (k, tk) ∷ []) ≡ false
  unfolding is_behind oldest ticket_of
  first_front = ground arith

  second_behind : is_behind k ((h, th) ∷ (k, tk) ∷ []) ≡ true
  unfolding is_behind oldest ticket_of
  second_behind = ground arith

  second_front : is_behind k (without h ((h, th) ∷ (k, tk) ∷ [])) ≡ false
  unfolding is_behind oldest ticket_of without
  second_front = ground arith

parks : (h : ℕ) (d : Amounts) (b : Budget) → must_wait b.generation (grant h d b) ≡ true
unfolding must_wait grant
parks h d b = ground arith

abbrev pub AreQueued : ℕ → ℕ → ℕ → ℕ → Budget → Type 0
AreQueued h k th tk b = (b.waiters ≡ (h, th) ∷ (k, tk) ∷ []) × (h ≢ k) × (th < tk)

-- The demand reserves something, is not larger than the pool, and fits now.
abbrev pub CanStart : Resources → Budget → Type 0
CanStart demand b =
    (is_empty (resolved_against demand b.total) ≡ false)
    × (exceeds_total b (resolved_against demand b.total) ≡ false)
    × (fits b (resolved_against demand b.total) ≡ true)

-- The second thread's side, once the first has its grant.
missed_by_second :
    (h k th tk : ℕ) (dh dk : Resources) (d : Amounts) (b : Budget)
    → AreQueued h k th tk b
    → CanStart dk (grant h d b)
    → ((try_acquire k dk b).0 ≡ false)
      × ((try_acquire k dk b).1 ≡ b.generation)
      × ((try_acquire k dk (grant h d b)).0 ≡ true)
unfolding try_acquire grant
missed_by_second h k th tk dh dk d b q s =
    let r = resolved_against dk b.total in
    let x = exceeds_total-fresh b r ∙ sym (exceeds_total-fresh (grant h d b) r) ∙ s.1 in
    let (no_grant, at) = refused_behind k r b (rw q.0 (second_behind h k th tk q.1 q.2)) s.0 x in
    let front =
      subst (λ ws. is_behind k (without h ws) ≡ false) (sym q.0) (second_front h k th tk q.1 q.2) in
    (no_grant, at, ap (λ t. t.0) (granted k r (grant h d b) front s.0 s.1 s.2))

first_granted :
    (h k th tk : ℕ) (dh : Resources) (b : Budget)
    → AreQueued h k th tk b
    → CanStart dh b
    → try_acquire h dh b ≡ (true, b.generation, grant h (resolved_against dh b.total) b)
unfolding try_acquire
first_granted h k th tk dh b q s =
    granted h (resolved_against dh b.total) b (rw q.0 (first_front h k th tk q.1 q.2)) s.0 s.1 s.2

-- Two threads wait, and both demands fit together. The second is refused, since the first is
-- ahead of it. The first is then granted, which leaves the generation as it was: the second
-- parks on it, although `try_acquire` would now grant its demand.
pub missed_wakeup :
    (h k th tk : ℕ) (dh dk : Resources) (b : Budget)
    → AreQueued h k th tk b
    → CanStart dh b
    → CanStart dk (try_acquire h dh b).2
    → ((try_acquire k dk b).0 ≡ false)
      × ((try_acquire h dh b).0 ≡ true)
      × (must_wait (try_acquire k dk b).1 (try_acquire h dh b).2 ≡ true)
      × ((try_acquire k dk (try_acquire h dh b).2).0 ≡ true)
missed_wakeup h k th tk dh dk b q sh sk =
    let d = resolved_against dh b.total in
    let e : try_acquire h dh b ≡ (true, b.generation, grant h d b) =
      first_granted h k th tk dh b q sh in
    let b' = ap (λ t. t.2) e in
    let (refused, at, fits_now) =
      missed_by_second h k th tk dh dk d b q (subst (CanStart dk) b' sk) in
    (refused, ap (λ t. t.0) e, rw (at, b') (parks h d b), rw b' fits_now)
