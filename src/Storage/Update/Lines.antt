-- ===== src/Storage/Update/Lines.antt =====
-- How a log of whole lines, with an unfinished line at its end, is read back.
use mathlib.Core.List.{append_assoc, append-nil}
use stimela_ninja.Prelude.{
  zero, suc, ◌∙◌, inl, inr, ◌⊎◌, ℕ, ◌+◌, ◌≡◌, refl, ap, sym, true, false, some, List, [], ◌∷◌, ◌++◌,
  map, length, arith, All,
}
use stimela_ninja.Prelude.Dict.{Dict}
use stimela_ninja.Storage.{
  Bytes, newline, space, NoBreak, NoSpace, Record, Codec, ends_line, split_lines, complete,
  total_length, but_last, split_space, bytes_eq, is_empty, apply_record, replay_line,
}
use stimela_ninja.Storage.Update.{take, line_of}

All-append {ℓ} :
    {A : Type ℓ} (P : A → Type 0) (xs ys : List A) → All P xs → All P ys → All P (xs ++ ys)
All-append P [] ys h k = k
All-append P (x ∷ xs) ys h k = (h.0, All-append P xs ys h.1 k)

-- A whole line is cut off at its end.
split_lines-line :
    (b rest : Bytes)
    → NoBreak b
    → split_lines (b ++ newline ∷ rest) ≡ (b ++ newline ∷ []) ∷ split_lines rest
unfolding split_lines
split_lines-line [] [] h = refl
split_lines-line [] (d ∷ rest) h = refl
split_lines-line (x ∷ []) rest h = let ih = split_lines-line [] rest tt in ground arith
split_lines-line (x ∷ y ∷ b) rest h = let ih = split_lines-line (y ∷ b) rest h.1 in ground arith

-- An unfinished line is one line, if it has begun.
abbrev pub tail_line : Bytes → List Bytes
tail_line [] = []
tail_line (x ∷ t) = (x ∷ t) ∷ []

pub split_lines-tail : (t : Bytes) → NoBreak t → split_lines t ≡ tail_line t
unfolding split_lines
split_lines-tail [] h = refl
split_lines-tail (x ∷ []) h = ground arith
split_lines-tail (x ∷ y ∷ t) h = let ih = split_lines-tail (y ∷ t) h.1 in ground arith

ends_line-line : (b : Bytes) → ends_line (b ++ newline ∷ []) ≡ true
ends_line-line [] = refl
ends_line-line (x ∷ []) = refl
ends_line-line (x ∷ y ∷ b) = ends_line-line (y ∷ b)

ends_line-tail : (t : Bytes) → NoBreak t → ends_line t ≡ false
ends_line-tail [] h = refl
ends_line-tail (x ∷ []) h = ground arith
ends_line-tail (x ∷ y ∷ t) h = ends_line-tail (y ∷ t) h.1

complete-cons :
    (l : Bytes) (ls : List Bytes) → ends_line l ≡ true → complete (l ∷ ls) ≡ l ∷ complete ls
unfolding complete
complete-cons l [] h = rw h
complete-cons l (m ∷ ls) h = refl

pub complete-tail : (t : Bytes) → NoBreak t → complete (tail_line t) ≡ []
unfolding complete
complete-tail [] h = refl
complete-tail (x ∷ t) h = rw (ends_line-tail (x ∷ t) h)

is_empty-line : (b rest : Bytes) → is_empty (b ++ newline ∷ rest) ≡ false
is_empty-line [] rest = refl
is_empty-line (x ∷ b) rest = refl

but_last-line : (b : Bytes) → but_last (b ++ newline ∷ []) ≡ b
unfolding but_last
but_last-line [] = refl
but_last-line (x ∷ []) = refl
but_last-line (x ∷ y ∷ b) = ap (λ l. x ∷ l) (but_last-line (y ∷ b))

split_space-first : (a b : Bytes) → NoSpace a → split_space (a ++ space ∷ b) ≡ some (a, b)
unfolding split_space
split_space-first [] b h = refl
split_space-first (x ∷ a) b h = rw (h.0, split_space-first a b h.1)

take-line :
    (k : ℕ) (b : Bytes)
    → NoBreak b
    → NoBreak (take k (b ++ newline ∷ [])) ⊎ (take k (b ++ newline ∷ []) ≡ b ++ newline ∷ [])
unfolding take
take-line zero b h = inl tt
take-line (suc zero) [] h = inr refl
take-line (suc (suc k)) [] h = inr refl
take-line (suc k) (x ∷ b) h = elim (take-line k b h.1) [
  | inl short ↦ inl (h.0, short)
  | inr whole ↦ inr (ap (λ l. x ∷ l) whole)
]

bytes_eq_refl : (b : Bytes) → bytes_eq b b ≡ true
unfolding bytes_eq
bytes_eq_refl [] = refl
bytes_eq_refl (x ∷ b) = ground (arith, bytes_eq_refl b)

take-zero : (b : Bytes) → take 0 b ≡ []
unfolding take
take-zero b = refl

take-append : (b rest : Bytes) → take (length b) (b ++ rest) ≡ b
unfolding take
take-append [] rest = refl
take-append (x ∷ b) rest = ap (λ l. x ∷ l) (take-append b rest)

take-longer : (b rest : Bytes) (n : ℕ) → take (length b + n) (b ++ rest) ≡ b ++ take n rest
unfolding take
take-longer [] rest n = let e : 0 + n ≡ n = omega arith in rw e
take-longer (x ∷ b) rest n =
    let e : suc (length b) + n ≡ suc (length b + n) = omega arith in
    rw e (ap (λ l. x ∷ l) (take-longer b rest n))

module _ {V : Type 0} (c : Codec V) where
  -- A line without its line break.
  abbrev pub text_of : Record V → Bytes
  text_of r = c.sha256 (c.dumps r) ++ space ∷ c.dumps r

  pub text_of-NoBreak : (r : Record V) → NoBreak (text_of r)
  text_of-NoBreak r =
      All-append _ (c.sha256 (c.dumps r)) (space ∷ c.dumps r) (c.sha256-NoBreak _)
        (refl, c.dumps-NoBreak r)

  pub line_of-text : (r : Record V) → line_of c r ≡ text_of r ++ newline ∷ []
  unfolding line_of
  line_of-text r = sym (append_assoc (c.sha256 (c.dumps r)) (space ∷ c.dumps r) (newline ∷ []))

  -- Whole lines, and what is left of an append that was torn.
  unfoldable pub log_of : List (Record V) → Bytes → Bytes
  log_of [] t = t
  log_of (r ∷ rs) t = line_of c r ++ log_of rs t

  pub is_empty-log_of :
      (r : Record V) (rs : List (Record V)) (t : Bytes) → is_empty (log_of (r ∷ rs) t) ≡ false
  unfolding log_of
  is_empty-log_of r rs t =
      rw (line_of-text r, append_assoc (text_of r) (newline ∷ []) (log_of rs t))
        (is_empty-line (text_of r) (log_of rs t))

  pub complete-log_of :
      (rs : List (Record V)) (t : Bytes)
      → NoBreak t
      → complete (split_lines (log_of rs t)) ≡ map (line_of c) rs
  unfolding log_of
  complete-log_of [] t h = rw (split_lines-tail t h) (complete-tail t h)
  complete-log_of (r ∷ rs) t h = rw (
    line_of-text r,
    append_assoc (text_of r) (newline ∷ []) (log_of rs t),
    split_lines-line (text_of r) (log_of rs t) (text_of-NoBreak r),
    complete-cons (text_of r ++ newline ∷ []) (split_lines (log_of rs t))
        (ends_line-line (text_of r)),
    complete-log_of rs t h,
  )

  pub replay_line-line_of :
      (r s : Record V) (d : Dict V)
      → c.loads (c.dumps r) ≡ some s
      → replay_line c (line_of c r) d ≡ apply_record s d
  unfolding replay_line
  replay_line-line_of r s d e = rw (
    line_of-text r,
    but_last-line (text_of r),
    split_space-first (c.sha256 (c.dumps r)) (c.dumps r) (c.sha256-NoSpace _),
    bytes_eq_refl (c.sha256 (c.dumps r)),
    e,
  )

  pub take-log_of :
      (rs : List (Record V)) (t : Bytes)
      → take (total_length (map (line_of c) rs)) (log_of rs t) ≡ log_of rs []
  unfolding log_of total_length
  take-log_of [] t = take-zero t
  take-log_of (r ∷ rs) t = rw (
    take-longer (line_of c r) (log_of rs t) (total_length (map (line_of c) rs)),
    take-log_of rs t,
  )

  pub log_of-append : (rs : List (Record V)) (t : Bytes) → log_of rs [] ++ t ≡ log_of rs t
  unfolding log_of
  log_of-append [] t = refl
  log_of-append (r ∷ rs) t =
      append_assoc (line_of c r) (log_of rs []) t ∙ ap (λ l. line_of c r ++ l) (log_of-append rs t)

  pub log_of-snoc :
      (rs : List (Record V)) (r : Record V) → log_of rs (line_of c r) ≡ log_of (rs ++ r ∷ []) []
  unfolding log_of
  log_of-snoc [] r = sym (append-nil (line_of c r))
  log_of-snoc (q ∷ rs) r = ap (λ l. line_of c q ++ l) (log_of-snoc rs r)

  -- A prefix of a line is the line, or has no line break.
  pub take-line_of :
      (k : ℕ) (r : Record V) → NoBreak (take k (line_of c r)) ⊎ (take k (line_of c r) ≡ line_of c r)
  take-line_of k r = rw (line_of-text r) (take-line k (text_of r) (text_of-NoBreak r))
