-- ===== src/Storage/Update/Delta.antt =====
-- The top-level sets and deletes of a record turn the old object into the new one.
use text.Mathlib.Text.{◌==◌}
use text.Mathlib.TextEquality.{eq_iff}
use stimela_ninja.Prelude.{
  is_some, is_nil, ◌≡◌, inl, inr, refl, ap, String, Bool, true, false, not, ◌&&◌, ◌||◌, Option,
  none, some, List, [], ◌∷◌, arith, if◌then◌else◌, Bool-cases,
}
use stimela_ninja.Prelude.Dict.{Dict, get, pop, put, Lacks, IsDict, get-pop, get-put, get-Lacks}
use stimela_ninja.Storage.{Codec, Same, pop_all, put_all}
use stimela_ninja.Storage.Update.{kept, holds_same, changed, deleted, unchanged}

abbrev has : String → List String → Bool
has j [] = false
has j (k ∷ ks) = k == j || has j ks

-- An entry of the first, or else of the second.
abbrev or_else {ℓ} : {A : Type ℓ} → Option A → Option A → Option A
or_else none o = o
or_else (some v) o = some v

nil_of : {A : Type 0} (xs : List A) → is_nil xs ≡ true → xs ≡ []
nil_of [] e = refl
nil_of (x ∷ xs) e = cc

module _ {V : Type 0} where
  get-pop_all :
      (j : String) (ks : List String) (d : Dict V)
      → get j (pop_all ks d) ≡ (if has j ks then none else get j d)
  unfolding pop_all
  get-pop_all j [] d = refl
  get-pop_all j (k ∷ ks) d = rw (get-pop_all j ks (pop k d), get-pop k j d) (ground arith)

  get-put_all :
      (j : String) (s d : Dict V) → IsDict s → get j (put_all s d) ≡ or_else (get j s) (get j d)
  unfolding put_all get
  get-put_all j [] d h = refl
  get-put_all j ((k, v) ∷ s) d h =
      rw (get-put_all j s (put k v d) h.1, get-put k j v d)
        (ground (arith, eq_iff k j, get-Lacks k s h.0, ap (λ x. get x s) {x = k} {y = j}))

module _ {V : Type 0} (c : Codec V) where
  changed-Lacks : (k : String) (before d : Dict V) → Lacks k d → Lacks k (changed c before d)
  unfolding changed
  changed-Lacks k before [] h = tt
  changed-Lacks k before ((j, v) ∷ d) h =
      let ih = changed-Lacks k before d h.1 in
      elim (Bool-cases (holds_same c v (get j before))) [ inl e ↦ rw e ih | inr e ↦ rw e (h.0, ih) ]

  pub changed-IsDict : (before d : Dict V) → IsDict d → IsDict (changed c before d)
  unfolding changed
  changed-IsDict before [] h = tt
  changed-IsDict before ((j, v) ∷ d) h =
      let ih = changed-IsDict before d h.1 in
      elim (Bool-cases (holds_same c v (get j before))) [
        | inl e ↦ rw e ih
        | inr e ↦ rw e (changed-Lacks j before d h.0, ih)
      ]

  -- What `changed` records of a key.
  abbrev recorded : Option V → Option V → Option V
  recorded none old = none
  recorded (some v) old = if holds_same c v old then none else some v

  get-changed :
      (j : String) (before d : Dict V)
      → IsDict d
      → get j (changed c before d) ≡ recorded (get j d) (get j before)
  unfolding changed get
  get-changed j before [] h = refl
  get-changed j before ((k, v) ∷ d) h = ground (
    arith,
    get-changed j before d h.1,
    eq_iff k j,
    get-Lacks k (changed c before d) (changed-Lacks k before d h.0),
    ap (λ x. get x before) {x = k} {y = j},
    ap (λ x. get x (changed c before d)) {x = k} {y = j},
  )

  has-deleted :
      (j : String) (before d : Dict V)
      → has j (deleted c before d) ≡ (is_some (get j before) && not (is_some (get j d)))
  unfolding deleted get
  has-deleted j [] d = refl
  has-deleted j ((k, v) ∷ before) d =
      ground (arith, has-deleted j before d, eq_iff k j, ap (λ x. get x d) {x = k} {y = j})

  -- Deleting what went and setting what changed, in whatever order, gives the new object, key by
  -- key, but for values that are equal to the former ones.
  pub get-delta :
      (j : String) (before d s : Dict V)
      → IsDict d
      → IsDict s
      → Same s (changed c before d)
      → get j (put_all s (pop_all (deleted c before d) before)) ≡ kept c (get j d) (get j before)
  get-delta j before d s h i same =
      rw
        (
          get-put_all j s (pop_all (deleted c before d) before) i,
          same j,
          get-pop_all j (deleted c before d) before,
          has-deleted j before d,
          get-changed j before d h,
        )
        (both (get j d) (get j before))
    where
      both :
          (new old : Option V)
          → or_else (recorded new old) (if is_some old && not (is_some new) then none else old)
            ≡ kept c new old
      both none none = refl
      both none (some w) = refl
      both (some v) none = refl
      both (some v) (some w) = elim (Bool-cases (c.same_value w v)) [
        | inl e ↦ rw e refl
        | inr e ↦ rw e refl
      ]

  -- Without a change the old object is left.
  pub get-unchanged :
      (j : String) (before d : Dict V)
      → IsDict d
      → unchanged c before d ≡ true
      → get j before ≡ kept c (get j d) (get j before)
  unfolding unchanged put_all pop_all
  get-unchanged j before d h e =
      let p : changed c before d ≡ [] = nil_of (changed c before d) (ground arith) in
      let q : deleted c before d ≡ [] = nil_of (deleted c before d) (ground arith) in
      let same : Same [] (changed c before d) = λ k. rw p refl in
      rw q at (get-delta j before d [] h tt same)
