-- ===== src/Storage/Update/Commit.antt =====
-- Updates commit, and an interrupted one leaves the old object or the new one.
use stimela_ninja.Prelude.{ℕ, ◌≡◌, true, Option, none, some, List, [], ◌∷◌}
use stimela_ninja.Prelude.Dict.{Dict, IsDict}
use stimela_ninja.Storage.{Codec, Result, ok, and_then, Disk, Snapshot}
use stimela_ninja.Storage.Update.{Fate, torn, update}
use stimela_ninja.Storage.Update.Replay.{Settled, Stored, size_of}

module _ {V : Type 0} (c : Codec V) where
  -- The store holds what the change of `d` into `after` leaves.
  abbrev pub Committed : Disk V → Dict V → Dict V → Type 0
  Committed disk d after = (e : Dict V) × Settled c d after e × Stored c disk e

  module _ {disk : Disk V} {d : Dict V} (s : Stored c disk d) (after : Dict V)
      (keys : IsDict after) where
    abbrev state : Snapshot V
    state = (d, true, size_of c disk d s)

  abbrev pub Op : Type 0
  Op = Fate × (Dict V → Option (Dict V))

  -- Callbacks leave dictionaries.
  abbrev pub KeepsKeys : List Op → Type 0
  KeepsKeys [] = Unit
  KeepsKeys (op ∷ ops) = ((d after : Dict V) → op.1 d ≡ some after → IsDict after) × KeepsKeys ops

  -- What an operation may make of an object.
  pub data Outcome (op : Op) (d : Dict V) : Dict V → Type 0 where
    raised : op.1 d ≡ none → Outcome op d d
    interrupted : (k : ℕ) → op.0 ≡ torn k → Outcome op d d
    took : (after e : Dict V) → op.1 d ≡ some after → Settled c d after e → Outcome op d e

  pub data Trace : List Op → Dict V → Dict V → Type 0 where
    end : {d : Dict V} → Trace [] d d
    next :
        {op : Op} {ops : List Op} {d e f : Dict V}
        → Outcome op d e
        → Trace ops e f
        → Trace (op ∷ ops) d f

  pub run : List Op → Disk V → Result (Disk V)
  run [] disk = ok disk
  run (op ∷ ops) disk = and_then (update c op.0 op.1 disk) (run ops)

  abbrev Reached : Op → Disk V → Dict V → Type 0
  Reached op disk d =
      (disk' : Disk V) × (e : Dict V) × (update c op.0 op.1 disk ≡ ok disk')
      × Stored c disk' e
      × Outcome op d e
