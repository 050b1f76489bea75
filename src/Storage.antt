-- ===== src/Storage.antt =====
-- `JsonFileStore` of src/shinobi/storage.py: one JSON object behind a checksummed transaction log.
-- This file reads a store, `Storage/Update` changes it.
-- `hashlib.sha256`, `json.dumps` and `json.loads` are the interface `Codec`.
pub mod Update
use stimela_ninja.Prelude.{
  ℕ, ◌+◌, ◌≡◌, String, Bool, true, false, not, ◌&&◌, ◌||◌, Option, none, some, List, [], ◌∷◌,
  length, ◌==◌, if◌then◌else◌, All,
}
use stimela_ninja.Prelude.Dict.{Dict, IsDict, get, pop, put}

abbrev pub Bytes : Type 0
Bytes = List ℕ

abbrev pub newline : ℕ
newline = 10

abbrev pub carriage_return : ℕ
carriage_return = 13

abbrev pub space : ℕ
space = 32

-- What a log record says: a full snapshot, or the keys to delete and to set.
pub data Body (V : Type 0) : Type 0 where
  snapshot : Dict V → Body V
  delta : List String → Dict V → Body V

pub record Record (V : Type 0) : Type 0 where
  pub version : ℕ
  pub body : Body V

abbrev pub is_break : ℕ → Bool
is_break c = c == newline || c == carriage_return

abbrev pub NoBreak : Bytes → Type 0
NoBreak = All (λ c. is_break c ≡ false)

abbrev pub NoSpace : Bytes → Type 0
NoSpace = All (λ c. (c == space) ≡ false)

-- Two objects with the same entries, in whatever order.
abbrev pub Same : {V : Type 0} → Dict V → Dict V → Type 0
Same d e = (k : String) → get k d ≡ get k e

-- The objects of a record have distinct keys, as Python's have.
abbrev pub HasKeys : {V : Type 0} → Body V → Type 0
HasKeys (snapshot d) = IsDict d
HasKeys (delta ks s) = IsDict s

-- What the dump of the first may be loaded as: the keys of an object are dumped in the order that
-- `sort_keys=True` gives them, a list of keys keeps its order.
abbrev pub IsRead : {V : Type 0} → Body V → Body V → Type 0
IsRead (snapshot d) (snapshot e) = IsDict e × Same e d
IsRead (delta ks s) (delta ls u) = (ls ≡ ks) × IsDict u × Same u s
IsRead (snapshot d) (delta ls u) = ⊥
IsRead (delta ks s) (snapshot e) = ⊥

-- The external functions, and what the store relies on: what was dumped loads as the same record
-- but for the order of keys, neither a dump nor a digest holds a line break, and a digest (in
-- hexadecimal) holds no space. `same_value` is Python's `==` of values, of which nothing is
-- assumed: `1 == True`. A value is a JSON value, in which the order of keys counts for nothing.
pub record Codec (V : Type 0) : Type 0 where
  pub sha256 : Bytes → Bytes
  pub dumps : Record V → Bytes
  pub loads : Bytes → Option (Record V)
  pub same_value : V → V → Bool
  pub loads-dumps :
      (n : ℕ) (b : Body V)
      → HasKeys b
      → (b' : Body V) × IsRead b b'
        × (loads (dumps (record { version = n; body = b }))
            ≡ some (record { version = n; body = b' }))
  pub dumps-NoBreak : (r : Record V) → NoBreak (dumps r)
  pub sha256-NoBreak : (b : Bytes) → NoBreak (sha256 b)
  pub sha256-NoSpace : (b : Bytes) → NoSpace (sha256 b)

-- `lines[-1].endswith(b"\n")`
abbrev pub ends_line : Bytes → Bool
ends_line [] = false
ends_line (c ∷ []) = c == newline
ends_line (c ∷ d ∷ cs) = ends_line (d ∷ cs)

abbrev push : ℕ → List Bytes → List Bytes
push c [] = (c ∷ []) ∷ []
push c (l ∷ ls) = (c ∷ l) ∷ ls

-- Whether a line ends behind `c`: "\r\n" is one break.
abbrev breaks : ℕ → Bytes → Bool
breaks c [] = is_break c
breaks c (d ∷ rest) = c == newline || c == carriage_return && not (d == newline)

-- `raw.splitlines(keepends=True)`
pub split_lines : Bytes → List Bytes
split_lines [] = []
split_lines (c ∷ rest) =
    let ls = split_lines rest in if breaks c rest then (c ∷ []) ∷ ls else push c ls

-- `lines if lines[-1].endswith(b"\n") else lines[:-1]`
pub complete : List Bytes → List Bytes
complete [] = []
complete (l ∷ []) = if ends_line l then l ∷ [] else []
complete (l ∷ m ∷ ls) = l ∷ complete (m ∷ ls)

pub total_length : List Bytes → ℕ
total_length [] = 0
total_length (l ∷ ls) = length l + total_length ls

-- `line[:-1]`
pub but_last : Bytes → Bytes
but_last [] = []
but_last (c ∷ []) = []
but_last (c ∷ d ∷ cs) = c ∷ but_last (d ∷ cs)

abbrev in_front : ℕ → Option (Bytes × Bytes) → Option (Bytes × Bytes)
in_front c none = none
in_front c (some (a, b)) = some (c ∷ a, b)

-- `.split(b" ", 1)`, unpacked into two parts
pub split_space : Bytes → Option (Bytes × Bytes)
split_space [] = none
split_space (c ∷ cs) =
    let rest = split_space cs in if c == space then some ([], cs) else in_front c rest

pub bytes_eq : Bytes → Bytes → Bool
bytes_eq [] [] = true
bytes_eq (a ∷ as') (b ∷ bs) = a == b && bytes_eq as' bs
bytes_eq _ _ = false

pub data Result (A : Type 0) : Type 0 where
  ok : A → Result A
  corrupt : Result A

abbrev pub and_then : {A B : Type 0} → Result A → (A → Result B) → Result B
and_then (ok a) f = f a
and_then corrupt f = corrupt

module _ {V : Type 0} where
  -- `for key in record["delete"]: data.pop(key, None)`
  pub pop_all : List String → Dict V → Dict V
  pop_all [] d = d
  pop_all (k ∷ ks) d = pop_all ks (pop k d)

  -- `data.update(record["set"])`
  pub put_all : Dict V → Dict V → Dict V
  put_all [] d = d
  put_all ((k, v) ∷ s) d = put_all s (put k v d)

  abbrev apply_body : Body V → Dict V → Dict V
  apply_body (snapshot d) before = d
  apply_body (delta ks s) before = put_all s (pop_all ks before)

  pub apply_record : Record V → Dict V → Result (Dict V)
  apply_record r before = if r.version == 1 then ok (apply_body r.body before) else corrupt

-- The materialized JSON file.
pub data View (V : Type 0) : Type 0 where
  absent : View V
  unreadable : View V
  readable : Dict V → View V

-- The files of a store: the log in the lock file, and the materialized view.
pub record Disk (V : Type 0) : Type 0 where
  pub log : Bytes
  pub view : View V

-- The legacy file of a store that was never logged.
pub read_base : {V : Type 0} → View V → Result (Dict V)
read_base absent = ok []
read_base unreadable = corrupt
read_base (readable d) = ok d

abbrev pub is_empty {ℓ} : {A : Type ℓ} → List A → Bool
is_empty [] = true
is_empty (x ∷ xs) = false

-- The object, whether the log has a committed record, and the committed size.
abbrev pub Snapshot : Type 0 → Type 0
Snapshot V = Dict V × Bool × ℕ

module _ {V : Type 0} (c : Codec V) where
  abbrev load_record : Option (Record V) → Dict V → Result (Dict V)
  load_record none before = corrupt
  load_record (some r) before = apply_record r before

  abbrev checked : Option (Bytes × Bytes) → Dict V → Result (Dict V)
  checked none before = corrupt
  checked (some (expected, payload)) before =
      if bytes_eq (c.sha256 payload) expected then load_record (c.loads payload) before else corrupt

  -- One committed line.
  pub replay_line : Bytes → Dict V → Result (Dict V)
  replay_line line before = checked (split_space (but_last line)) before

  pub replay_lines : List Bytes → Dict V → Result (Dict V)
  replay_lines [] data' = ok data'
  replay_lines (l ∷ ls) data' = and_then (replay_line l data') (replay_lines ls)

  read_log : Bytes → Result (Snapshot V)
  read_log raw =
      let lines = complete (split_lines raw) in
      and_then (replay_lines lines []) λ d. ok (d, not (is_empty lines), total_length lines)

  pub read_unlocked : Disk V → Result (Snapshot V)
  unfolding read_log
  read_unlocked disk =
      if is_empty disk.log
      then and_then (read_base disk.view) (λ d. ok (d, false, 0))
      else read_log disk.log
