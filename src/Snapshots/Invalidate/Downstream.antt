-- ===== src/Snapshots/Invalidate/Downstream.antt =====
-- Which other steps an invalidation sends back to work, and which states it leaves without a restore.
use stimela_ninja.Prelude.{
  ℕ, String, Bool, true, false, Option, none, some, List, [], ◌∷◌, ◌++◌, any, leb, is_some, is_nil,
  In, ◌≡◌, refl, arith, ap, subst, Bool-cases, inl, inr,
}
use stimela_ninja.Prelude.Dict.{Dict, get}
use stimela_ninja.Prelude.Results.{ok}
use stimela_ninja.Snapshots.{Generation, Chain, Journal, named, order_of, taint_blocks}
use stimela_ninja.Snapshots.Taint.{last, get-order_of, is_some-last}
use stimela_ninja.Snapshots.Evict.{has, remove_snapshots}
use stimela_ninja.Snapshots.Invalidate.{
  Cache, Entry, cache_key_of, remove_entries, is_of, produced_by, first_of, step_of, downstream,
  downstream_of, rolled, invalidate_chains, invalidate_states, invalidate,
}
use stimela_ninja.Snapshots.Invalidate.Forgotten.{
  get-remove_entries, get-invalidate_chains, invalidate_ok,
}
use stimela_ninja.Snapshots.Invalidate.Rolled.{has-produced_by, rolled-IsForgotten}
use text.Mathlib.TextEquality.{eq_iff}

-- Two known positions, the first at or before the second.
abbrev ordered : Option ℕ → Option ℕ → Bool
ordered none j = false
ordered (some i) none = false
ordered (some i) (some j) = leb i j

-- A state at the split of the chain or after it stands no earlier than the state at the split.
ordered-split :
    (r : String) (g : Generation) (xs ys : List Generation)
    → named g.name ys ≡ false
    → named r (g ∷ ys) ≡ true
    → ordered (last g.name (xs ++ (g ∷ ys))) (last r (xs ++ (g ∷ ys))) ≡ true
unfolding last
ordered-split r g [] ys h k =
    ground (arith, h, k, is_some-last g.name ys, is_some-last r ys, eq_iff g.name g.name)
ordered-split r g (x ∷ xs) ys h k = ground (arith, ordered-split r g xs ys h k)

-- The least position is no later than that of any produced name.
first_of-ordered :
    (n : String) (order : Dict ℕ) (j : Option ℕ) (ns : List String)
    → has n ns ≡ true
    → ordered (get n order) j ≡ true
    → ordered (first_of order ns) j ≡ true
unfolding first_of
first_of-ordered n order j [] h o = ground (arith, h)
first_of-ordered n order j (m ∷ ns) h o =
    ground (
      arith,
      h,
      o,
      eq_iff m n,
      λ (e : m ≡ n). ap (λ x. get x order) e,
      first_of-ordered n order j ns,
    )

has-downstream :
    (k state : String) (order : Dict ℕ) (first : Option ℕ) (consumed : Dict String)
    → In (k, state) consumed
    → ordered first (get state order) ≡ true
    → has (step_of k) (downstream order first consumed) ≡ true
unfolding downstream
has-downstream k state order first [] i o = absurd (i tt)
has-downstream k state order first (x ∷ consumed) (inl e) o =
    ground (
      arith,
      o,
      ap (λ y. step_of y.0) e,
      ap (λ y. get y.1 order) e,
      eq_iff (step_of x.0) (step_of k),
    )
has-downstream k state order first (x ∷ consumed) (inr i) o =
    ground (arith, has-downstream k state order first consumed i o)

chains-downstream :
    (works : String → Bool) (key : Option String) (k cid : String) (c : Chain) (chains : Journal)
    (manifest : Dict Entry) (states : Dict ℕ)
    → In (cid, c) chains
    → has (step_of k) (downstream_of key c) ≡ true
    → get (step_of k) (invalidate_chains works key chains manifest states).manifest ≡ none
unfolding invalidate_chains
chains-downstream works key k cid c [] manifest states i h = absurd (i tt)
chains-downstream works key k cid c (x ∷ chains) manifest states (inl e) h =
    get-invalidate_chains works key (step_of k) chains
      (remove_entries (downstream_of key x.1) manifest)
      (remove_snapshots works (produced_by key x.1.generations) states)
      (ground (
        arith,
        h,
        get-remove_entries (step_of k) (downstream_of key x.1) manifest,
        ap (λ y. has (step_of k) (downstream_of key y.1)) e,
      ))
chains-downstream works key k cid c (x ∷ chains) manifest states (inr i) h =
    chains-downstream works key k cid c chains (remove_entries (downstream_of key x.1) manifest)
      (remove_snapshots works (produced_by key x.1.generations) states) i h

-- On a chain whose states read `xs`, then a state of the invalidated key, the last of its name,
-- then `ys`, a step that is recorded as having consumed that state or one of `ys` has no cached
-- result after the invalidation.
pub invalidate_reruns_downstream :
    (works : String → Bool) (step key : String) (cache after : Cache) (cid : String) (c : Chain)
    (xs : List Generation) (g : Generation) (ys : List Generation) (consumer state : String)
    → cache_key_of (get step cache.manifest) ≡ some key
    → invalidate works step cache ≡ ok after
    → In (cid, c) cache.chains
    → c.generations ≡ xs ++ (g ∷ ys)
    → is_of (some key) g.name ≡ true
    → named g.name ys ≡ false
    → named state (g ∷ ys) ≡ true
    → In (consumer, state) c.consumed
    → get (step_of consumer) after.manifest ≡ none
unfolding invalidate_states
invalidate_reruns_downstream works step key cache after cid c xs g ys consumer state k e i split
      of_key final later used =
    let manifest = remove_entries (step ∷ []) cache.manifest in
    let reached : invalidate_chains works (some key) cache.chains manifest cache.states ≡ after =
      rw k at (invalidate_ok works step cache after e) in
    let order = order_of c.generations in
    let produced : has g.name (produced_by (some key) c.generations) ≡ true = ground (
      arith,
      has-produced_by (some key) g.name c.generations,
      of_key,
      ap (λ gs. named g.name gs) split,
      named-split g xs ys,
    ) in
    let apart : ordered (get g.name order) (get state order) ≡ true = ground (
      arith,
      get-order_of g.name c.generations,
      get-order_of state c.generations,
      ap (λ gs. last g.name gs) split,
      ap (λ gs. last state gs) split,
      ordered-split state g xs ys final later,
    ) in
    subst (λ s. get (step_of consumer) s.manifest ≡ none) reached
      (chains-downstream works (some key) consumer cid c cache.chains manifest cache.states i (
        has-downstream consumer state order (first_of order (produced_by (some key) c.generations))
          c.consumed used
          (first_of-ordered g.name order (get state order) (produced_by (some key) c.generations)
            produced apart)))
  where
    named-split : (h : Generation) (us vs : List Generation) → named h.name (us ++ (h ∷ vs)) ≡ true
    named-split h [] vs = ground (arith, eq_iff h.name h.name)
    named-split h (u ∷ us) vs = ground (arith, named-split h us vs)

rolled-tainted :
    (key : Option String) (c : Chain) (anchor required : String)
    → c.tainted_through ≡ some anchor
    → is_of key anchor ≡ true
    → taint_blocks (rolled key c) required ≡ true
unfolding taint_blocks rolled
rolled-tainted key c anchor required t k =
    let gone : is_some (last anchor (rolled key c).generations) ≡ false = ground (
      arith,
      is_some-last anchor (rolled key c).generations,
      absent (rolled key c).generations (rolled-IsForgotten key c),
    ) in
    rw (untouched, taint_blocks)
      (ground (arith, gone, get-order_of anchor (rolled key c).generations))
  where
    absent :
        (gs : List Generation) → any (λ g. is_of key g.name) gs ≡ false → named anchor gs ≡ false
    absent [] h = refl
    absent (g ∷ gs) h =
        ground
          (arith, k, h, absent gs, eq_iff g.name anchor, λ (e : g.name ≡ anchor). ap (is_of key) e)

    untouched : (rolled key c).tainted_through ≡ some anchor
    untouched = elim (Bool-cases (is_nil (produced_by key c.generations))) [
      | inl e ↦ rw (e, rolled) t
      | inr e ↦ rw (e, rolled) t
    ]

In-rolled :
    (works : String → Bool) (key : Option String) (cid : String) (c : Chain) (chains : Journal)
    (manifest : Dict Entry) (states : Dict ℕ)
    → In (cid, c) chains
    → In (cid, rolled key c) (invalidate_chains works key chains manifest states).chains
unfolding invalidate_chains
In-rolled works key cid c [] manifest states i = absurd (i tt)
In-rolled works key cid c (x ∷ chains) manifest states (inl e) =
    inl (ap (λ y. (y.0, rolled key y.1)) e)
In-rolled works key cid c (x ∷ chains) manifest states (inr i) = inr (
    In-rolled works key cid c chains (remove_entries (downstream_of key x.1) manifest)
      (remove_snapshots works (produced_by key x.1.generations) states) i)

-- When the taint of a chain names a state of the invalidated key, the journal afterwards has a
-- chain under the same id on which every restore is refused.
pub anchor_lost :
    (works : String → Bool) (step key : String) (cache after : Cache) (cid : String) (c : Chain)
    (anchor : String)
    → cache_key_of (get step cache.manifest) ≡ some key
    → invalidate works step cache ≡ ok after
    → In (cid, c) cache.chains
    → c.tainted_through ≡ some anchor
    → is_of (some key) anchor ≡ true
    → (left : Chain) × In (cid, left) after.chains
      × ((required : String) → taint_blocks left required ≡ true)
unfolding invalidate_states
anchor_lost works step key cache after cid c anchor k e i t of_key =
    let manifest = remove_entries (step ∷ []) cache.manifest in
    let reached : invalidate_chains works (some key) cache.chains manifest cache.states ≡ after =
      rw k at (invalidate_ok works step cache after e) in
    (
      rolled (some key) c,
      subst (λ s. In (cid, rolled (some key) c) s.chains) reached
          (In-rolled works (some key) cid c cache.chains manifest cache.states i),
      λ required. rolled-tainted (some key) c anchor required t of_key,
    )
