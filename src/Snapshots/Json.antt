-- ===== src/Snapshots/Json.antt =====
-- The journal as it stands in its file: parsed JSON, and how the fields of a dataclass of
-- src/shinobi/snapshots.py are written to and read from an object.
mod Fields
mod States
mod Chains
mod RoundTrip
mod Journal
mod Samples
use stimela_ninja.Prelude.{ℕ, String, Bool, Option, none, some, List, [], ◌∷◌, any, all}
use stimela_ninja.Prelude.Dict.{Dict, get}
use stimela_ninja.Prelude.Results.{Result, ok, refused, check, found, ◌>>=◌}
use text.Mathlib.Text.{◌==◌}

mutual
  pub data Json : Type 0 where
    null : Json
    boolean : Bool → Json
    number : ℕ → Json
    string : String → Json
    array : Elements → Json
    object : Members → Json

  pub data Elements : Type 0 where
    end : Elements
    element : Json → Elements → Elements

  pub data Members : Type 0 where
    done : Members
    member : String → Json → Members → Members

-- A list and a dict as Python has them.
unfoldable pub elements : Elements → List Json
elements end = []
elements (element j js) = j ∷ elements js

unfoldable pub listed : List Json → Elements
listed [] = end
listed (j ∷ js) = element j (listed js)

unfoldable pub members : Members → Dict Json
members done = []
members (member k j ms) = (k, j) ∷ members ms

unfoldable pub keyed : Dict Json → Members
keyed [] = done
keyed ((k, j) ∷ d) = member k j (keyed d)

-- Why an object is not read: a `KeyError`, the `TypeError` of an unknown or a missing argument,
-- the `ValueError` of an unknown status. A value of another type than its field declares is
-- refused here too; the source would notice it only where it uses it.
pub data Malformed : Type 0 where
  missing_key unexpected_argument unknown_status wrong_type : Malformed

abbrev pub Read : Type 0 → Type 0
Read A = Result Malformed A

abbrev pub read_text : Json → Read String
read_text j = elim j [ string s ↦ ok s | _ ↦ refused wrong_type ]

abbrev pub read_number : Json → Read ℕ
read_number j = elim j [ number n ↦ ok n | _ ↦ refused wrong_type ]

abbrev pub read_boolean : Json → Read Bool
read_boolean j = elim j [ boolean b ↦ ok b | _ ↦ refused wrong_type ]

abbrev pub read_object : Json → Read (Dict Json)
read_object j = elim j [ object ms ↦ ok (members ms) | _ ↦ refused wrong_type ]

module _ {A : Type 0} (read : Json → Read A) where
  abbrev pub each : List Json → Read (List A)
  each [] = ok []
  each (j ∷ js) = do a ← read j; rest ← each js; ok (a ∷ rest)

  abbrev pub values : Dict Json → Read (Dict A)
  values [] = ok []
  values ((k, j) ∷ d) = do a ← read j; rest ← values d; ok ((k, a) ∷ rest)

  abbrev pub read_list : Json → Read (List A)
  read_list j = elim j [ array js ↦ each (elements js) | _ ↦ refused wrong_type ]

  abbrev pub read_dict : Json → Read (Dict A)
  read_dict j = elim j [ object ms ↦ values (members ms) | _ ↦ refused wrong_type ]

  -- A field that may be `None`
  abbrev pub nullable : Json → Read (Option A)
  nullable j = elim j [ null ↦ ok none | other ↦ read other >>= λ a. ok (some a) ]

  -- `data[k]`, and an argument without a default
  abbrev pub required : String → Dict Json → Read A
  required k d = found (get k d) missing_key >>= read

  -- `data.get(k, default)`, and an argument with a default
  abbrev pub given : A → String → Dict Json → Read A
  given default k d = elim (get k d) [ none ↦ ok default | some j ↦ read j ]

-- The call of a dataclass with `**data` knows only its own arguments.
abbrev pub arguments : List String → Dict Json → Read (Unit {0})
arguments names d = check (all (λ entry. any (λ name. name == entry.0) names) d) unexpected_argument

-- The entries that are written, those with a value.
unfoldable pub present : Dict (Option Json) → Dict Json
present [] = []
present ((k, none) ∷ d) = present d
present ((k, some j) ∷ d) = (k, j) ∷ present d
