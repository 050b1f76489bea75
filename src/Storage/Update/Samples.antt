-- ===== src/Storage/Update/Samples.antt =====
-- The theorems about stores at a small one.
use stimela_ninja.Prelude.{ℕ, ◌≡◌, refl, true, false, Option, none, some, List, [], ◌∷◌, arith}
use stimela_ninja.Prelude.Dict.{Dict, get}
use stimela_ninja.Storage.{snapshot, ok, absent, readable, Disk, read_unlocked}
use stimela_ninja.Storage.Update.{written, torn, update, unchanged, line_of, commit_record}
use stimela_ninja.Storage.Update.Tokens.{codec, dump, token, dump_sets, dump_key}
use stimela_ninja.Storage.Update.Lines.{log_of}
use stimela_ninja.Storage.Update.Commit.{Op}
use stimela_ninja.Storage.Update.Upgrade.{torn_upgrade}

abbrev one : Dict ℕ
one = ("a", 1) ∷ []

abbrev two : Dict ℕ
two = ("a", 1) ∷ ("b", 2) ∷ []

abbrev disk_one : Disk ℕ
disk_one = record {
  log = log_of codec (record { version = 1; body = snapshot one } ∷ []) [];
  view = absent;
}

abbrev to_two : Dict ℕ → Option (Dict ℕ)
to_two d = some two

abbrev history : List (Op codec)
history = (torn 3, to_two) ∷ (written false, (λ d. none)) ∷ (written true, to_two) ∷ []

two_differs : unchanged codec one two ≡ false
unfolding unchanged get
two_differs = refl

torn_upgrade_example :
    (read_unlocked codec (record { log = []; view = readable one }) ≡ ok (one, false, 0))
    × ((disk : Disk ℕ) × (update codec (torn 3) to_two (record { log = []; view = readable one })
          ≡ ok disk)
        × (read_unlocked codec disk ≡ ok ([], false, 0)))
unfolding line_of commit_record dump token dump_sets dump_key
torn_upgrade_example =
    torn_upgrade codec 3 to_two one two refl two_differs (omega arith) (omega arith)
