-- ===== src/Scheduler/Stopped.antt =====
-- The pool is never larger than its workers, and a scheduler that stopped starts nothing.
use stimela_ninja.Prelude.{
  ℕ, zero, suc, ◌≤◌, Bool, true, false, not, ◌&&◌, nat_eq, Option, none, some, List, [], ◌∷◌,
  length, any, ◌≡◌, refl, arith, ap, subst, inl, inr, Bool-cases, Option-cases, some_inj,
}
use stimela_ninja.Graph.{RecipeGraph}
use stimela_ninja.Graph.Topology.{least}
use stimela_ninja.Scheduler.{
  reap, Slots, Entry, same_entry, least_entry, remove_entry, Scheduler, begin, released,
  step_completed, Expansion, unresolved, passed_through, whole, sliced, aggregate, expand,
  pop_ready, submit, fill_in, slots_of, drop, complete, gathered, Outcome, raised, returned, reaped,
}
use stimela_ninja.Scheduler.Steps.{
  Answers, first_fit, chosen, backfill_lookahead, backfill_behind, Step, refill, admit, overtake,
  park, collect, Reach, here, next,
}

-- What completing, expanding and reaping do to the pool and to a stopped scheduler.
step_completed-futures :
    (g : RecipeGraph) (i code : ℕ) (s : Scheduler) → (step_completed g i code s).futures ≡ s.futures
unfolding step_completed released
step_completed-futures g i zero s = refl
step_completed-futures g i (suc code) s = refl

expand-futures :
    (g : RecipeGraph) (found : Expansion) (i : ℕ) (s : Scheduler)
    → (expand g found i s).futures ≡ s.futures
unfolding expand
expand-futures g unresolved i s = refl
expand-futures g passed_through i s = step_completed-futures g i 0 s
expand-futures g whole i s = refl
expand-futures g (sliced zero) i s = step_completed-futures g i (aggregate []) s
expand-futures g (sliced (suc n)) i s = refl

reaped-futures :
    (g : RecipeGraph) (e : Entry) (outcome : Outcome) (s : Scheduler)
    → (reaped g e outcome s).futures ≡ s.futures
unfolding reaped gathered
reaped-futures g (i, slot) raised s = refl
reaped-futures g (i, zero) (returned code) s = step_completed-futures g i code s
reaped-futures g (i, suc k) (returned code) s =
    elim (Bool-cases (complete (slots_of i (fill_in i k code s.gathering)))) [
      | inl c ↦ rw c (
          step_completed-futures g i (aggregate (slots_of i (fill_in i k code s.gathering)))
            (record s { gathering = drop i (fill_in i k code s.gathering) }))
      | inr c ↦ rw c refl
    ]

step_completed-stop :
    (g : RecipeGraph) (i code : ℕ) (s : Scheduler)
    → s.stop ≡ true
    → (step_completed g i code s).stop ≡ true
unfolding step_completed released
step_completed-stop g i zero s h = h
step_completed-stop g i (suc code) s h = refl

reaped-stop :
    (g : RecipeGraph) (e : Entry) (outcome : Outcome) (s : Scheduler)
    → s.stop ≡ true
    → (reaped g e outcome s).stop ≡ true
unfolding reaped gathered
reaped-stop g (i, slot) raised s h = refl
reaped-stop g (i, zero) (returned code) s h = step_completed-stop g i code s h
reaped-stop g (i, suc k) (returned code) s h =
    elim (Bool-cases (complete (slots_of i (fill_in i k code s.gathering)))) [
      | inl c ↦ rw c (
          step_completed-stop g i (aggregate (slots_of i (fill_in i k code s.gathering)))
            (record s { gathering = drop i (fill_in i k code s.gathering) }) h)
      | inr c ↦ rw c h
    ]

length-remove_entry : (e : Entry) (es : List Entry) → length (remove_entry e es) ≤ length es
unfolding remove_entry
length-remove_entry e [] = omega arith
length-remove_entry e (f ∷ es) = ground (arith, length-remove_entry e es)

backfill_behind-futures :
    (g : RecipeGraph) (answers : Answers) (inputs : ℕ → Expansion) (head : Entry) (s t : Scheduler)
    → backfill_behind g answers inputs head s ≡ some t
    → length t.futures ≤ suc (length s.futures)
unfolding backfill_behind
backfill_behind-futures g answers inputs head s t e =
    let behind = remove_entry head s.pending in
    elim (Option-cases (first_fit (length behind) answers.try_backfill behind)) [
      | inr (u, f) ↦
          subst (λ (r : Scheduler). length r.futures ≤ suc (length s.futures))
            (some_inj (submit u s) t (rw (f, backfill_behind) at e)) (omega arith)
      | inl f ↦
          elim (Option-cases (chosen backfill_lookahead head.0 answers.can_backfill s.ready)) [
            | inl c ↦ ground (arith, rw (f, c, backfill_behind) at e)
            | inr (x, c) ↦
                subst (λ (r : Scheduler). length r.futures ≤ suc (length s.futures))
                  (some_inj (expand g (inputs x) x (pop_ready x s)) t
                    (rw (f, c, backfill_behind) at e))
                  (omega (
                    arith,
                    ap (λ (l : List Entry). length l)
                        (expand-futures g (inputs x) x (pop_ready x s)),
                  ))
          ]
    ]

Step-workers :
    {g : RecipeGraph} {workers : ℕ} {s t : Scheduler}
    → Step g workers s t
    → length s.futures ≤ workers
    → length t.futures ≤ workers
Step-workers {g} (refill s x rest found a b c) h = omega (
  arith,
  h,
  ap (λ (l : List Entry). length l)
      (expand-futures g found (least x rest) (pop_ready (least x rest) s)),
)
Step-workers (admit s e rest a b c) h = omega (arith, c)
Step-workers {g} (overtake s t e rest answers inputs a b c d f) h =
    omega (arith, c, backfill_behind-futures g answers inputs (least_entry e rest) s t f)
Step-workers (park s e rest answers inputs a b c d f) h = h
Step-workers {g} (collect s e outcome a) h = omega (
  arith,
  h,
  length-remove_entry e s.futures,
  ap (λ (l : List Entry). length l)
      (reaped-futures g e outcome (record s { futures = remove_entry e s.futures })),
)

-- In any reachable state the pool has at most as many units as there are workers.
pub pool_bounded :
    {g : RecipeGraph} {workers : ℕ} {s : Scheduler}
    → Reach g workers (begin g) s
    → length s.futures ≤ workers
unfolding begin
pool_bounded here = omega arith
pool_bounded (next r st) = Step-workers st (pool_bounded r)

-- A turn of a scheduler that stopped takes a unit out of the pool and leaves it stopped.
Step-stopped :
    {g : RecipeGraph} {workers : ℕ} {s t : Scheduler}
    → Step g workers s t
    → s.stop ≡ true
    → (t.stop ≡ true) × ((e : Entry) × (t.futures ≡ remove_entry e s.futures))
Step-stopped (refill s x rest found a b c) h = absurd (ground (arith, a, h))
Step-stopped (admit s e rest a b c) h = absurd (ground (arith, a, h))
Step-stopped (overtake s t e rest answers inputs a b c d f) h = absurd (ground (arith, a, h))
Step-stopped (park s e rest answers inputs a b c d f) h = absurd (ground (arith, a, h))
Step-stopped {g} (collect s e outcome a) h = (
  reaped-stop g e outcome (record s { futures = remove_entry e s.futures }) h,
  (e, reaped-futures g e outcome (record s { futures = remove_entry e s.futures })),
)

any-remove_entry :
    (u e : Entry) (es : List Entry)
    → any (same_entry u) (remove_entry e es) ≡ true
    → any (same_entry u) es ≡ true
unfolding remove_entry
any-remove_entry u e [] h = h
any-remove_entry u e (f ∷ es) h = ground (arith, h, any-remove_entry u e es)

Reach-stopped :
    {g : RecipeGraph} {workers : ℕ} {s t : Scheduler}
    → Reach g workers s t
    → s.stop ≡ true
    → t.stop ≡ true
Reach-stopped here h = h
Reach-stopped (next r st) h = (Step-stopped st (Reach-stopped r h)).0

Reach-any :
    {g : RecipeGraph} {workers : ℕ} {s t : Scheduler}
    → Reach g workers s t
    → s.stop ≡ true
    → (u : Entry) → any (same_entry u) t.futures ≡ true
    → any (same_entry u) s.futures ≡ true
Reach-any here h u m = m
Reach-any (next {t} r st) h u m =
    let (e, same) = (Step-stopped st (Reach-stopped r h)).1 in
    Reach-any r h u (
      any-remove_entry u e t.futures
        (subst (λ (l : List Entry). any (same_entry u) l ≡ true) same m))

-- A slice that came back with a failure.
abbrev pub failed : Option ℕ → Bool
failed none = false
failed (some zero) = false
failed (some (suc code)) = true

-- A worker raised, a whole step returned a failure, or the last slice of a step came back and one of
-- its slices had failed.
abbrev pub is_failure : Entry → Outcome → List (ℕ × Slots) → Bool
is_failure (i, slot) raised gathering = true
is_failure (i, zero) (returned code) gathering = not (nat_eq code 0)
is_failure (i, suc k) (returned code) gathering =
    let slots = slots_of i (fill_in i k code gathering) in complete slots && any failed slots

aggregate-failed : (slots : Slots) → any failed slots ≡ true → nat_eq (aggregate slots) 0 ≡ false
unfolding aggregate
aggregate-failed [] h = ground (arith, h)
aggregate-failed (none ∷ slots) h = aggregate-failed slots h
aggregate-failed (some zero ∷ slots) h = aggregate-failed slots h
aggregate-failed (some (suc code) ∷ slots) h = ground arith

step_completed-failed :
    (g : RecipeGraph) (i code : ℕ) (s : Scheduler)
    → nat_eq code 0 ≡ false
    → (step_completed g i code s).stop ≡ true
unfolding step_completed
step_completed-failed g i zero s h = ground (arith, h)
step_completed-failed g i (suc code) s h = refl

reaped-failed :
    (g : RecipeGraph) (e : Entry) (outcome : Outcome) (s : Scheduler)
    → is_failure e outcome s.gathering ≡ true
    → (reaped g e outcome s).stop ≡ true
unfolding reaped gathered
reaped-failed g (i, slot) raised s h = refl
reaped-failed g (i, zero) (returned code) s h = step_completed-failed g i code s (ground (arith, h))
reaped-failed g (i, suc k) (returned code) s h =
    let slots = slots_of i (fill_in i k code s.gathering) in
    let whole_step : complete slots ≡ true = ground (arith, h) in
    rw whole_step (
      step_completed-failed g i (aggregate slots)
        (record s { gathering = drop i (fill_in i k code s.gathering) })
        (aggregate-failed slots (ground (arith, h))))

-- When a worker raises, a whole step returns a failure, or the last slice of a step comes back and
-- one of its slices has failed, the scheduler is stopped from then on, and whatever is in the pool
-- later was in the pool already: nothing is started any more.
pub failure_drains :
    {g : RecipeGraph} {workers : ℕ} {t : Scheduler} (s : Scheduler) (e u : Entry)
    (outcome : Outcome)
    → is_failure e outcome s.gathering ≡ true
    → Reach g workers (reap g e outcome s) t
    → (t.stop ≡ true)
      × ((any (same_entry u) t.futures && not (any (same_entry u) (remove_entry e s.futures)))
          ≡ false)
failure_drains {g} {t = t} s e u outcome h run =
    let taken : Scheduler = record s { futures = remove_entry e s.futures } in
    let stopped = reaped-failed g e outcome taken h in
    (
      Reach-stopped run stopped,
      elim (Bool-cases (any (same_entry u) t.futures)) [
        | inl m ↦
            let kept : any (same_entry u) (remove_entry e s.futures) ≡ true =
              subst (λ (l : List Entry). any (same_entry u) l ≡ true)
                (reaped-futures g e outcome taken) (Reach-any run stopped u m) in
            ground (arith, kept)
        | inr m ↦ ground (arith, m)
      ],
    )
