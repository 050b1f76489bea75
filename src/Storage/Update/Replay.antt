-- ===== src/Storage/Update/Replay.antt =====
-- A store whose log has a committed record, and what an update leaves of it.
use stimela_ninja.Prelude.{
  ℕ, ◌≡◌, refl, ap, ◌∙◌, ◌⊎◌, inl, inr, String, Bool, true, some, List, [], ◌∷◌, ◌++◌, map, arith,
}
use stimela_ninja.Prelude.Dict.{Dict, IsDict, get}
use stimela_ninja.Storage.{
  Bytes, NoBreak, Body, snapshot, delta, IsRead, replay_line, Record, Codec, Result, ok, corrupt,
  and_then, View, Disk, read_unlocked, replay_lines, apply_record, total_length, pop_all, put_all,
}
use stimela_ninja.Storage.Update.{
  kept, take, line_of, commit_record, written, torn, append, changed, deleted,
}
use stimela_ninja.Storage.Update.Delta.{changed-IsDict, get-delta}
use stimela_ninja.Storage.Update.Lines.{
  log_of, complete-log_of, replay_line-line_of, take-log_of, is_empty-log_of, log_of-append,
  log_of-snoc, take-line_of,
}

and_then-ok : {A : Type 0} (m : Result A) → and_then m ok ≡ m
and_then-ok (ok a) = refl
and_then-ok corrupt = refl

and_then-next :
    {A : Type 0} (m : Result A) (f g : A → Result A) {a : A} {out : Result A}
    → ((x : A) → f x ≡ ok a → g x ≡ out)
    → and_then m f ≡ ok a
    → and_then m g ≡ out
and_then-next (ok x) f g h e = h x e
and_then-next corrupt f g h e = cc

map-snoc :
    {A B : Type 0} (f : A → B) (xs : List A) (x : A) → map f (xs ++ x ∷ []) ≡ map f xs ++ f x ∷ []
map-snoc f [] x = refl
map-snoc f (y ∷ xs) x = ap (λ l. f y ∷ l) (map-snoc f xs x)

module _ {V : Type 0} (c : Codec V) where
  replay_lines-append :
      (ls : List Bytes) (l : Bytes) (d e : Dict V)
      → replay_lines c ls d ≡ ok e
      → replay_lines c (ls ++ l ∷ []) d ≡ replay_line c l e
  unfolding replay_lines
  replay_lines-append [] l d e h =
      let p : d ≡ e = ground arith in rw p (and_then-ok (replay_line c l e))
  replay_lines-append (m ∷ ls) l d e h =
      and_then-next (replay_line c m d) (replay_lines c ls) (replay_lines c (ls ++ l ∷ []))
        (λ x h'. replay_lines-append ls l x e h') h

  -- The log is whole lines, the first of which is there, and perhaps a torn one. They replay to `d`.
  pub record Stored (disk : Disk V) (d : Dict V) : Type 0 where
    pub first : Record V
    pub rest : List (Record V)
    pub tail : Bytes
    pub lines : disk.log ≡ log_of c (first ∷ rest) tail
    pub unfinished : NoBreak tail
    pub replayed : replay_lines c (map (line_of c) (first ∷ rest)) [] ≡ ok d

  abbrev pub size_of : (disk : Disk V) (d : Dict V) → Stored disk d → ℕ
  size_of disk d s = total_length (map (line_of c) (s.first ∷ s.rest))

  pub read-Stored :
      (disk : Disk V) (d : Dict V) (s : Stored disk d)
      → read_unlocked c disk ≡ ok (d, true, size_of disk d s)
  unfolding read_unlocked
  read-Stored disk d s = rw (
    s.lines,
    is_empty-log_of c s.first s.rest s.tail,
    complete-log_of c (s.first ∷ s.rest) s.tail s.unfinished,
    s.replayed,
  )

  -- The object that a change of `d` into `after` leaves: key by key `after`, but for the values
  -- that are equal to those of `d`, which stay.
  abbrev pub Settled : Dict V → Dict V → Dict V → Type 0
  Settled d after e = (k : String) → get k e ≡ kept c (get k after) (get k d)

  module _ {disk : Disk V} {d : Dict V} (s : Stored disk d) where
    abbrev records : List (Record V)
    records = s.first ∷ s.rest

    -- The committed prefix.
    take-size : take (size_of disk d s) disk.log ≡ log_of c records []
    take-size = rw s.lines (take-log_of c records s.tail)

    append_whole :
        (r : Record V) (e : Dict V) (view : View V) (log : Bytes)
        → replay_line c (line_of c r) d ≡ ok e
        → log ≡ log_of c records (line_of c r)
        → Stored (record { log = log; view = view }) e
    append_whole r e view log a p = record {
      first = s.first;
      rest = s.rest ++ r ∷ [];
      tail = [];
      lines = p ∙ log_of-snoc c records r;
      unfinished = tt;
      replayed =
          ap (λ l. replay_lines c l []) (map-snoc (line_of c) records r)
          ∙ replay_lines-append (map (line_of c) records) (line_of c r) [] d s.replayed
          ∙ a;
    }

    append_torn :
        (t : Bytes) (view : View V) (log : Bytes)
        → NoBreak t
        → log ≡ log_of c records t
        → Stored (record { log = log; view = view }) d
    append_torn t view log n p = record {
      first = s.first;
      rest = s.rest;
      tail = t;
      lines = p;
      unfinished = n;
      replayed = s.replayed;
    }

    append_line : (t : Bytes) → take (size_of disk d s) disk.log ++ t ≡ log_of c records t
    append_line t = rw take-size (log_of-append c records t)

    -- What the record of a change is replayed as.
    replay-commit :
        (after : Dict V)
        → IsDict after
        → (e : Dict V) × Settled d after e
          × (replay_line c (line_of c (commit_record c true d after)) d ≡ ok e)
    unfolding commit_record apply_record
    replay-commit after keys =
        let ks = deleted c d after in
        let body = delta ks (changed c d after) in
        of_read after keys (c.loads-dumps 1 body (changed-IsDict c d after keys))
      where
        of_read :
            (after : Dict V)
            → IsDict after
            → (b : Body V) × IsRead (delta (deleted c d after) (changed c d after)) b
              × (c.loads (c.dumps (commit_record c true d after))
                  ≡ some (record { version = 1; body = b }))
            → (e : Dict V) × Settled d after e
              × (replay_line c (line_of c (commit_record c true d after)) d ≡ ok e)
        of_read after keys (snapshot e, wrong, p) = absurd wrong
        of_read after keys (delta ls u, (q, u_keys, same), p) = (
          put_all u (pop_all ls d),
          (λ k. rw q (get-delta c k d after u keys u_keys same)),
          replay_line-line_of c (commit_record c true d after)
              (record { version = 1; body = delta ls u }) d p,
        )

    pub append-written :
        (after : Dict V) (refreshed : Bool)
        → IsDict after
        → (e : Dict V) × Settled d after e
          × Stored
              (append c
                (written refreshed)
                (size_of disk d s)
                (line_of c (commit_record c true d after))
                after
                disk)
              e
    unfolding append
    append-written after refreshed keys =
        let (e, settled, p) = replay-commit after keys in
        (e, settled, append_whole (commit_record c true d after) e _ _ p (append_line _))

    pub append-torn :
        (after : Dict V) (k : ℕ)
        → IsDict after
        → Stored
            (append c
              (torn k)
              (size_of disk d s)
              (line_of c (commit_record c true d after))
              after
              disk)
            d
          ⊎ ((e : Dict V) × Settled d after e
              × Stored
                  (append c
                    (torn k)
                    (size_of disk d s)
                    (line_of c (commit_record c true d after))
                    after
                    disk)
                  e)
    unfolding append
    append-torn after k keys = elim (take-line_of c k (commit_record c true d after)) [
      | inl short ↦ inl (append_torn _ _ _ short (append_line _))
      | inr whole ↦
          let (e, settled, p) = replay-commit after keys in
          inr (
            e,
            settled,
            append_whole (commit_record c true d after) e _ _ p
                (append_line _ ∙ ap (log_of c records) whole),
          )
    ]
