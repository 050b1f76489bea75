-- ===== src/Snapshots/Json/Fields.antt =====
-- What is read of an object after its entries were written: the lookups, lists and dicts.
use stimela_ninja.Prelude.{
  ◌≡◌, refl, arith, String, Bool, true, false, not, ◌&&◌, Option, none, some, List, [], ◌∷◌, map,
  any, all,
}
use stimela_ninja.Prelude.Dict.{Dict, get}
use stimela_ninja.Prelude.Results.{ok}
use stimela_ninja.Snapshots.Json.{
  Json, string, elements, listed, members, keyed, Read, read_text, each, nullable, required, given,
  present,
}
use mathlib.Core.Option.{map as optionally}
use text.Mathlib.Text.{◌==◌}
use text.Mathlib.TextEquality.{eq_iff}

pub elements-listed : (js : List Json) → elements (listed js) ≡ js
unfolding elements listed
elements-listed [] = refl
elements-listed (j ∷ js) = rw (elements-listed js) refl

pub members-keyed : (d : Dict Json) → members (keyed d) ≡ d
unfolding members keyed
members-keyed [] = refl
members-keyed ((k, j) ∷ d) = rw (members-keyed d) refl

module _ {A : Type 0} where
  abbrev pub has_key : String → Dict A → Bool
  has_key k d = any (λ entry. entry.0 == k) d

  -- Are the keys distinct?
  abbrev pub distinct : Dict A → Bool
  distinct [] = true
  distinct ((k, a) ∷ d) = not (has_key k d) && distinct d

-- What is written under a key.
abbrev pub flatten : Option (Option Json) → Option Json
flatten none = none
flatten (some o) = o

absent-present :
    (k : String) (d : Dict (Option Json)) → has_key k d ≡ false → get k (present d) ≡ none
unfolding get present
absent-present k [] h = refl
absent-present k ((j, none) ∷ d) h = absent-present k d (ground (arith, h))
absent-present k ((j, some v) ∷ d) h = ground (arith, h, absent-present k d)

pub get-present :
    (k : String) (d : Dict (Option Json))
    → distinct d ≡ true
    → get k (present d) ≡ flatten (get k d)
unfolding get present
get-present k [] h = refl
get-present k ((j, none) ∷ d) h = ground (arith, h, get-present k d, absent-present k d, eq_iff j k)
get-present k ((j, some v) ∷ d) h = ground (arith, h, get-present k d)

pub all-present :
    (test : String → Bool) (d : Dict (Option Json))
    → all (λ entry. test entry.0) d ≡ true
    → all (λ entry. test entry.0) (present d) ≡ true
unfolding present
all-present test [] h = refl
all-present test ((k, none) ∷ d) h = ground (arith, h, all-present test d)
all-present test ((k, some v) ∷ d) h = ground (arith, h, all-present test d)

pub each-map :
    {A : Type 0} (read : Json → Read A) (write : A → Json)
    → ((a : A) → read (write a) ≡ ok a)
    → (xs : List A) → each read (map write xs) ≡ ok xs
each-map read write back [] = refl
each-map read write back (a ∷ xs) = rw (back a, each-map read write back xs) refl

-- A field of an object whose entries have distinct keys.
module _ (d : Dict (Option Json)) (h : distinct d ≡ true) where
  module _ {A : Type 0} (read : Json → Read A) where
    pub required_ok :
        (k : String) (j : Json) (a : A)
        → flatten (get k d) ≡ some j
        → read j ≡ ok a
        → required read k (present d) ≡ ok a
    required_ok k j a e r = rw (required, get-present k d h, e, r) refl

    pub given_ok :
        (default : A) (k : String) (j : Json) (a : A)
        → flatten (get k d) ≡ some j
        → read j ≡ ok a
        → given read default k (present d) ≡ ok a
    given_ok default k j a e r = rw (given, get-present k d h, e, r) refl

    -- An argument that is `None` when it is not written.
    pub given_optional :
        (k : String) (write : A → Json) (o : Option A)
        → flatten (get k d) ≡ optionally write o
        → ((a : A) → nullable read (write a) ≡ ok (some a))
        → given (nullable read) none k (present d) ≡ ok o
    given_optional k write none e r = rw (given, get-present k d h, e) refl
    given_optional k write (some a) e r = rw (given, get-present k d h, e, r a) refl

  pub required_text :
      (k : String) (s : String)
      → flatten (get k d) ≡ some (string s)
      → required read_text k (present d) ≡ ok s
  required_text k s e = required_ok read_text k (string s) s e refl

  pub optional_text :
      (k : String) (o : Option String)
      → flatten (get k d) ≡ optionally string o
      → given (nullable read_text) none k (present d) ≡ ok o
  optional_text k o e = given_optional read_text k string o e (λ s. refl)
