-- ===== src/Storage/Update/Upgrade.antt =====
-- The first record of a log, which imports the legacy file or starts a new store.
use mathlib.Core.List.{append-nil}
use stimela_ninja.Prelude.{
  ℕ, zero, suc, ◌<◌, ◌≡◌, refl, ap, sym, subst, Bool, false, Option, some, [], ◌∷◌, ◌++◌, length,
  arith,
}
use stimela_ninja.Prelude.Dict.{Dict, IsDict}
use stimela_ninja.Storage.{
  Bytes, newline, NoBreak, Body, snapshot, delta, Same, IsRead, Codec, ok, View, readable, Disk,
  read_base, is_empty, read_unlocked, apply_record, replay_lines, total_length,
}
use stimela_ninja.Storage.Update.{
  take, written, torn, line_of, commit_record, append, commit, update, unchanged, reset,
}
use stimela_ninja.Storage.Update.Lines.{
  replay_line-line_of, log_of, text_of, text_of-NoBreak, line_of-text, split_lines-tail,
  complete-tail,
}
use stimela_ninja.Storage.Update.Replay.{Stored}

take-short :
    (k : ℕ) (b : Bytes)
    → NoBreak b
    → k < length (b ++ newline ∷ [])
    → NoBreak (take k (b ++ newline ∷ []))
unfolding take
take-short zero b h lt = tt
take-short (suc k) [] h lt = absurd (omega arith)
take-short (suc k) (x ∷ b) h lt = (h.0, take-short k b h.1 (omega arith))

take-begun : (k : ℕ) (b : Bytes) → 0 < k → is_empty (take k (b ++ newline ∷ [])) ≡ false
unfolding take
take-begun zero b h = absurd (omega arith)
take-begun (suc k) [] h = refl
take-begun (suc k) (x ∷ b) h = refl

module _ {V : Type 0} (c : Codec V) where
  -- A log that is one unfinished line reads as an empty object, whatever the legacy file holds.
  read_torn :
      (t : Bytes) (view : View V)
      → NoBreak t
      → is_empty t ≡ false
      → read_unlocked c (record { log = t; view = view }) ≡ ok ([], false, 0)
  unfolding read_unlocked replay_lines total_length
  read_torn t view n begun = rw (begun, split_lines-tail t n, complete-tail t n)

  abbrev legacy : Dict V → Disk V
  legacy base = record { log = []; view = readable base }

  -- The bytes of the record that imports a legacy object.
  abbrev pub import_line : Dict V → Dict V → Bytes
  import_line base after = line_of c (commit_record c false base after)

  torn_first :
      (k : ℕ) (base after : Dict V)
      → 0 < k
      → k < length (import_line base after)
      → read_unlocked c (append c (torn k) 0 (import_line base after) after (legacy base))
        ≡ ok ([], false, 0)
  unfolding append
  torn_first k base after begun short =
      let r = commit_record c false base after in
      let line = line_of-text c r in
      let short' = subst (λ l. k < length l) line short in
      rw line (
        read_torn (take k (text_of c r ++ newline ∷ [])) (readable base)
          (take-short k (text_of c r) (text_of-NoBreak c r) short')
          (take-begun k (text_of c r) begun))

  whole_first :
      (refreshed : Bool) (base after : Dict V)
      → IsDict after
      → (e : Dict V) × Same e after
        × Stored c (append c (written refreshed) 0 (import_line base after) after (legacy base)) e
  unfolding append commit_record apply_record log_of replay_lines
  whole_first refreshed base after keys = of_read (c.loads-dumps 1 (snapshot after) keys)
    where
      of_read :
          (b : Body V) × IsRead (snapshot after) b
            × (c.loads (c.dumps (commit_record c false base after))
                ≡ some (record { version = 1; body = b }))
          → (e : Dict V) × Same e after
            × Stored c
                (append c (written refreshed) 0 (import_line base after) after (legacy base))
                e
      of_read (delta ls u, wrong, p) = absurd wrong
      of_read (snapshot e, (e_keys, same), p) = (
        e,
        same,
        record {
          first = commit_record c false base after;
          rest = [];
          tail = [];
          lines = sym (append-nil (import_line base after));
          unfinished = tt;
          replayed =
              rw
                (replay_line-line_of c (commit_record c false base after)
                  (record { version = 1; body = snapshot e }) [] p)
                refl;
        },
      )

  -- A store that was never logged reads as its legacy file. If the first update of it is
  -- interrupted after at least one byte of its line, and before the last, it reads as an empty
  -- object from then on: the legacy entries are gone for every reader and every later update.
  pub torn_upgrade :
      (k : ℕ) (mutate : Dict V → Option (Dict V)) (base after : Dict V)
      → mutate base ≡ some after
      → unchanged c base after ≡ false
      → 0 < k
      → k < length (import_line base after)
      → (read_unlocked c (legacy base) ≡ ok (base, false, 0))
        × ((disk : Disk V) × (update c (torn k) mutate (legacy base) ≡ ok disk)
            × (read_unlocked c disk ≡ ok ([], false, 0)))
  unfolding read_unlocked update read_base
  torn_upgrade k mutate base after m ch begun short = (
    refl,
    (
      commit c (torn k) (some after) (base, false, 0) (legacy base),
      ap (λ o. ok (commit c (torn k) o (base, false, 0) (legacy base))) m,
      rw ch (torn_first k base after begun short),
    ),
  )

  -- An uninterrupted first update upgrades the store: it then reads as the new object.
  pub upgrade_commits :
      (refreshed : Bool) (mutate : Dict V → Option (Dict V)) (base after : Dict V)
      → mutate base ≡ some after
      → unchanged c base after ≡ false
      → IsDict after
      → (disk : Disk V) × (update c (written refreshed) mutate (legacy base) ≡ ok disk)
        × ((e : Dict V) × Same e after × Stored c disk e)
  unfolding read_unlocked update read_base
  upgrade_commits refreshed mutate base after m ch keys = (
    commit c (written refreshed) (some after) (base, false, 0) (legacy base),
    ap (λ o. ok (commit c (written refreshed) o (base, false, 0) (legacy base))) m,
    rw ch (whole_first refreshed base after keys),
  )

  -- After a reset the store reads as an empty object that was never logged.
  pub read-reset : (disk : Disk V) → read_unlocked c (reset disk) ≡ ok ([], false, 0)
  unfolding reset read_unlocked read_base
  read-reset disk = refl
