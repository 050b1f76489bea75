-- ===== src/Resources/Budget/Queue.antt =====
-- The queue of tickets: strict order of arrival, and what it means to lead it.
use stimela_ninja.Prelude.{
  ℕ, ◌≤◌, ◌<◌, ◌≡◌, ◌≢◌, ◌⊎◌, refl, inl, inr, true, false, none, some, List, [], ◌∷◌, ◌++◌, arith,
  All, ◌==◌, Bool-cases, Option-cases, ◌∙◌,
}
use stimela_ninja.Resources.{Resources, is_empty, resolved_against}
use stimela_ninja.Resources.Budget.{
  Budget, can_backfill, try_backfill, backfill, ticket_of, without, oldest, is_behind,
  acquire_amounts, try_acquire, exceeds_total, enqueue,
}

-- Every queued ticket is at least `t`.
abbrev pub FromTicket : ℕ → List (ℕ × ℕ) → Type 0
FromTicket t = All (λ w. t ≤ w.1)

FromTicket-mono :
    (m n : ℕ) (waiters : List (ℕ × ℕ)) → m ≤ n → FromTicket n waiters → FromTicket m waiters
FromTicket-mono m n [] h f = tt
FromTicket-mono m n (w ∷ rest) h f = (omega arith, FromTicket-mono m n rest h f.1)

oldest-none : (P : ℕ × ℕ → Type 0) (waiters : List (ℕ × ℕ)) → oldest waiters ≡ none → All P waiters
unfolding oldest
oldest-none P [] e = tt
oldest-none P (w ∷ rest) e = ground arith

oldest-le : (waiters : List (ℕ × ℕ)) (m : ℕ) → oldest waiters ≡ some m → FromTicket m waiters
unfolding oldest
oldest-le [] m h = tt
oldest-le ((who, t) ∷ rest) m h = elim (Option-cases (oldest rest)) [
  | inl e ↦ (ground arith, oldest-none _ rest e)
  | inr (u, e) ↦ (ground arith, FromTicket-mono m u rest (ground arith) (oldest-le rest u e))
]

oldest-ge :
    (t v : ℕ) (waiters : List (ℕ × ℕ)) → FromTicket t waiters → oldest waiters ≡ some v → t ≤ v
unfolding oldest
oldest-ge t v [] f e = ground arith
oldest-ge t v ((who, u) ∷ rest) f e = elim (Option-cases (oldest rest)) [
  | inl e' ↦ ground arith
  | inr (m, e') ↦ let h = oldest-ge t m rest f.1 e' in ground arith
]

oldest-eq :
    (waiters : List (ℕ × ℕ)) (ident t : ℕ)
    → ticket_of ident waiters ≡ some t
    → FromTicket t waiters
    → oldest waiters ≡ some t
unfolding oldest ticket_of
oldest-eq [] ident t e f = ground arith
oldest-eq ((who, u) ∷ rest) ident t e f = elim (Bool-cases (who == ident)) [
  | inl same ↦ elim (Option-cases (oldest rest)) [
    | inl none_left ↦ ground arith
    | inr (m, e') ↦ let h = oldest-ge t m rest f.1 e' in ground arith
  ]
  | inr other ↦ let ih = oldest-eq rest ident t (ground arith) f.1 in ground arith
]

-- A thread that is not behind has a ticket that is not later than any other, if anyone waits.
abbrev pub ServedInOrder : ℕ → List (ℕ × ℕ) → Type 0
ServedInOrder ident waiters =
    All (λ w. (mine : ℕ) × (ticket_of ident waiters ≡ some mine) × (mine ≤ w.1)) waiters

All-map {ℓ} :
    {A : Type ℓ} {P Q : A → Type 0} (xs : List A) → ((x : A) → P x → Q x) → All P xs → All Q xs
All-map [] f h = tt
All-map (x ∷ xs) f h = (f x h.0, All-map xs f h.1)

not_behind-ServedInOrder :
    (ident : ℕ) (waiters : List (ℕ × ℕ))
    → is_behind ident waiters ≡ false
    → ServedInOrder ident waiters
unfolding is_behind
not_behind-ServedInOrder ident waiters h = elim (Option-cases (oldest waiters)) [
  | inl empty ↦ oldest-none _ waiters empty
  | inr (m, e) ↦ elim (Option-cases (ticket_of ident waiters)) [
    | inl outsider ↦ absurd (ground arith)
    | inr (mine, e') ↦ All-map waiters (λ w le. (mine, e', ground arith)) (oldest-le waiters m e)
  ]
]

-- `ident` holds `ticket`, and everyone else in the queue holds a later one.
pub record Leads (ident ticket : ℕ) (b : Budget) : Type 0 where
  pub mine : ticket_of ident b.waiters ≡ some ticket
  pub first : FromTicket ticket b.waiters
  pub others : All (λ w. (w.0 ≡ ident) ⊎ (ticket < w.1)) b.waiters
  pub issued : ticket < b.next_ticket

pub Leads-not_behind :
    {ident ticket : ℕ} {b : Budget} → Leads ident ticket b → is_behind ident b.waiters ≡ false
unfolding is_behind
Leads-not_behind {ident} {ticket} {b} l =
    let e = oldest-eq b.waiters ident ticket l.mine l.first in let m = l.mine in ground arith

ticket_of-later :
    (who ident ticket u : ℕ) (waiters : List (ℕ × ℕ))
    → who ≢ ident
    → All (λ w. (w.0 ≡ ident) ⊎ (ticket < w.1)) waiters
    → ticket_of who waiters ≡ some u
    → ticket < u
unfolding ticket_of
ticket_of-later who ident ticket u [] ne h e = ground arith
ticket_of-later who ident ticket u ((x, t) ∷ rest) ne h e =
    ground (arith, ticket_of-later who ident ticket u rest ne h.1)

pub Leads-behind :
    {ident ticket : ℕ} {b : Budget} (who : ℕ)
    → who ≢ ident
    → Leads ident ticket b
    → is_behind who b.waiters ≡ true
unfolding is_behind
Leads-behind {ident} {ticket} {b} who ne l =
    let e = oldest-eq b.waiters ident ticket l.mine l.first in
    elim (Option-cases (ticket_of who b.waiters)) [
      | inl e' ↦ ground arith
      | inr (u, e') ↦
          let later = ticket_of-later who ident ticket u b.waiters ne l.others e' in ground arith
    ]

-- A thread that `try_acquire` grants a demand which reserves something and is not larger than the
-- whole pool has a ticket at least as old as that of every waiting thread.
pub acquire_in_order :
    (ident : ℕ) (demand : Resources) (b : Budget)
    → is_empty (resolved_against demand b.total) ≡ false
    → exceeds_total b (resolved_against demand b.total) ≡ false
    → (try_acquire ident demand b).0 ≡ true
    → ServedInOrder ident b.waiters
unfolding try_acquire acquire_amounts
acquire_in_order ident demand b something small granted =
    not_behind-ServedInOrder ident b.waiters (ground arith)

All-snoc {ℓ} :
    {A : Type ℓ} (P : A → Type 0) (xs : List A) (x : A) → All P xs → P x → All P (xs ++ x ∷ [])
All-snoc P [] x h p = (p, tt)
All-snoc P (y ∷ xs) x h p = (h.0, All-snoc P xs x h.1 p)

All-without :
    (P : ℕ × ℕ → Type 0) (who : ℕ) (waiters : List (ℕ × ℕ))
    → All P waiters
    → All P (without who waiters)
unfolding without
All-without P who [] h = tt
All-without P who ((x, t) ∷ rest) h = elim (Bool-cases (x == who)) [
  | inl e ↦ rw e (All-without P who rest h.1)
  | inr e ↦ rw e (h.0, All-without P who rest h.1)
]

ticket_of-snoc :
    (ident who t u : ℕ) (waiters : List (ℕ × ℕ))
    → ticket_of ident waiters ≡ some t
    → ticket_of ident (waiters ++ (who, u) ∷ []) ≡ some t
unfolding ticket_of
ticket_of-snoc ident who t u [] e = ground arith
ticket_of-snoc ident who t u ((x, v) ∷ rest) e = ground (arith, ticket_of-snoc ident who t u rest)

ticket_of-without :
    (ident who : ℕ) (waiters : List (ℕ × ℕ))
    → who ≢ ident
    → ticket_of ident (without who waiters) ≡ ticket_of ident waiters
unfolding ticket_of without
ticket_of-without ident who [] ne = refl
ticket_of-without ident who ((x, v) ∷ rest) ne = ground (arith, ticket_of-without ident who rest ne)

pub Leads-enqueue :
    {ident ticket : ℕ} {b : Budget} (who : ℕ)
    → Leads ident ticket b
    → Leads ident ticket (enqueue who b)
unfolding enqueue
Leads-enqueue {ident} {ticket} {b} who l = elim (Option-cases (ticket_of who b.waiters)) [
  | inl e ↦ rw e (record {
    mine = ticket_of-snoc ident who ticket b.next_ticket b.waiters l.mine;
    first = All-snoc _ b.waiters _ l.first (omega (arith, l.issued));
    others = All-snoc _ b.waiters _ l.others (inr l.issued);
    issued = omega (arith, l.issued);
  })
  | inr (u, e) ↦ rw e l
]

-- The queue without someone else.
pub Leads-without :
    {ident ticket : ℕ} {b : Budget} (who : ℕ) (b' : Budget)
    → who ≢ ident
    → b'.waiters ≡ without who b.waiters
    → b'.next_ticket ≡ b.next_ticket
    → Leads ident ticket b
    → Leads ident ticket b'
Leads-without {ident} {ticket} {b} who b' ne e n l = record {
  mine = rw e (ticket_of-without ident who b.waiters ne ∙ l.mine);
  first = rw e (All-without _ who b.waiters l.first);
  others = rw e (All-without _ who b.waiters l.others);
  issued = rw n l.issued;
}

pub Leads-same :
    {ident ticket : ℕ} {b : Budget} (b' : Budget)
    → b'.waiters ≡ b.waiters
    → b'.next_ticket ≡ b.next_ticket
    → Leads ident ticket b
    → Leads ident ticket b'
Leads-same b' e n l = record {
  mine = rw e l.mine;
  first = rw e l.first;
  others = rw e l.others;
  issued = rw n l.issued;
}

-- `can_backfill` answers what `try_backfill` would grant, for every candidate, head and state; a
-- refused backfill changes nothing, and a granted one leaves the queue as it was.
pub can_backfill_lem :
    (ident : ℕ) (demand behind : Resources) (b : Budget)
    → (can_backfill ident demand behind b ≡ (try_backfill ident demand behind b).0)
      × ((try_backfill ident demand behind b).0 ≡ false
          → (try_backfill ident demand behind b).1 ≡ b)
      × ((try_backfill ident demand behind b).1.waiters ≡ b.waiters)
unfolding can_backfill try_backfill backfill
can_backfill_lem ident demand behind b = (ground arith, (λ h. ground arith), ground arith)
