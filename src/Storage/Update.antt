-- ===== src/Storage/Update.antt =====
-- `JsonFileStore.update` and `reset`, with the disk that an interruption leaves.
pub mod Lines
pub mod Delta
pub mod Replay
pub mod Commit
pub mod Upgrade
mod Tokens
mod Samples
use stimela_ninja.Prelude.{
  ℕ, zero, suc, String, Bool, true, false, ◌&&◌, Option, none, some, List, [], ◌∷◌, ◌++◌,
  if◌then◌else◌, is_some, is_nil,
}
use stimela_ninja.Prelude.Dict.{Dict, get}
use stimela_ninja.Storage.{
  Bytes, newline, space, snapshot, delta, Record, Codec, Result, ok, and_then, absent, readable,
  Disk, read_unlocked, Snapshot,
}

pub take : ℕ → Bytes → Bytes
take zero b = []
take (suc n) [] = []
take (suc n) (x ∷ b) = x ∷ take n b

-- How far an append gets: all of it, or the process stops when `k` bytes are written; an append
-- that fails is truncated back, as after zero bytes.
pub data Fate : Type 0 where
  written : Bool → Fate
  torn : ℕ → Fate

module _ {V : Type 0} (c : Codec V) where
  abbrev pub holds_same : V → Option V → Bool
  holds_same v none = false
  holds_same v (some w) = c.same_value w v

  -- What an update leaves of a key that holds the one and held the other: a value that Python finds
  -- equal to the former one is not written.
  abbrev pub kept : Option V → Option V → Option V
  kept none old = none
  kept (some v) none = some v
  kept (some v) (some w) = if c.same_value w v then some w else some v

  -- The entries of `data` that `before` lacks or holds otherwise.
  pub changed : Dict V → Dict V → Dict V
  changed before [] = []
  changed before ((k, v) ∷ d) =
      let rest = changed before d in if holds_same v (get k before) then rest else (k, v) ∷ rest

  -- The keys of `before` that `data` lacks.
  pub deleted : Dict V → Dict V → List String
  deleted [] data' = []
  deleted ((k, v) ∷ before) data' =
      let rest = deleted before data' in if is_some (get k data') then rest else k ∷ rest

  pub unchanged : Dict V → Dict V → Bool
  unfolding changed deleted
  unchanged before data' = is_nil (changed before data') && is_nil (deleted before data')

  -- The first record of a log is a full snapshot.
  pub commit_record : Bool → Dict V → Dict V → Record V
  commit_record logged before data' = record {
    version = 1;
    body = if logged then delta (deleted before data') (changed before data') else snapshot data';
  }

  -- The bytes that `_append_unlocked` writes.
  pub line_of : Record V → Bytes
  line_of r = let payload = c.dumps r in c.sha256 payload ++ space ∷ (payload ++ newline ∷ [])

  -- `written true` also refreshes the view; `written false` could not.
  pub append : Fate → ℕ → Bytes → Dict V → Disk V → Disk V
  unfolding take
  append (written refreshed) size line data' disk = record {
    log = take size disk.log ++ line;
    view = if refreshed then readable data' else disk.view;
  }
  append (torn k) size line data' disk = record {
    log = take size disk.log ++ take k line;
    view = disk.view;
  }

  -- `mutate` gives `none` where the callback raises: no commit is attempted.
  abbrev pub commit : Fate → Option (Dict V) → Snapshot V → Disk V → Disk V
  commit fate none s disk = disk
  commit fate (some data') (before, logged, size) disk =
      if unchanged before data'
      then disk
      else append fate size (line_of (commit_record logged before data')) data' disk

  pub update : Fate → (Dict V → Option (Dict V)) → Disk V → Result (Disk V)
  unfolding append
  update fate mutate disk =
      and_then (read_unlocked c disk) λ s. ok (commit fate (mutate s.0) s disk)

-- `reset` removes the view and truncates the log.
pub reset : {V : Type 0} → Disk V → Disk V
reset disk = record { log = []; view = absent }
