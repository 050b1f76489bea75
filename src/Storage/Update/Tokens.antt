-- ===== src/Storage/Update/Tokens.antt =====
-- A concrete codec for numbers, which shows that the laws of the interface can hold.
-- A record is dumped as tokens: one for each character, key and head.
use Prim.Native.Nat.{Ordering, compare, ◌/◌, ◌%◌}
use Prim.Native.Char.{Char, char, code, IsLt, IsScalar}
use text.Mathlib.TextEquality.{Char-path}
use mathlib.Core.List.{foldr}
use stimela_ninja.Prelude.{
  ℕ, ◌+◌, ◌-◌, ◌*◌, ◌<◌, ◌≡◌, refl, ap, ◌∙◌, String, false, Option, none, some, List, [], ◌∷◌,
  arith, if◌then◌else◌, ◌==◌,
}
use stimela_ninja.Prelude.Dict.{Dict}
use stimela_ninja.Storage.{
  Bytes, is_break, NoBreak, Body, snapshot, delta, Record, HasKeys, IsRead, Codec,
}

abbrev Both : Ordering → Ordering → Type 0
Both Ordering.lt o = IsLt o
Both Ordering.eq _ = ⊥
Both Ordering.gt _ = ⊥

abbrev Scalar : Ordering → Ordering → Ordering → Type 0
Scalar Ordering.lt _ _ = Unit
Scalar Ordering.eq o p = Both o p
Scalar Ordering.gt o p = Both o p

abbrev find_lt : (o : Ordering) → Option (IsLt o)
find_lt Ordering.lt = some tt
find_lt Ordering.eq = none
find_lt Ordering.gt = none

abbrev find_both : (o p : Ordering) → Option (Both o p)
find_both Ordering.lt p = find_lt p
find_both Ordering.eq _ = none
find_both Ordering.gt _ = none

abbrev find_scalar : (o p q : Ordering) → Option (Scalar o p q)
find_scalar Ordering.lt _ _ = some tt
find_scalar Ordering.eq p q = find_both p q
find_scalar Ordering.gt p q = find_both p q

find_scalar-some :
    (o p q : Ordering) → Scalar o p q → (h : Scalar o p q) × (find_scalar o p q ≡ some h)
find_scalar-some Ordering.lt p q h = (tt, refl)
find_scalar-some Ordering.eq Ordering.lt Ordering.lt h = (tt, refl)
find_scalar-some Ordering.gt Ordering.lt Ordering.lt h = (tt, refl)
find_scalar-some Ordering.eq Ordering.lt Ordering.eq h = elim h [ ]
find_scalar-some Ordering.eq Ordering.lt Ordering.gt h = elim h [ ]
find_scalar-some Ordering.gt Ordering.lt Ordering.eq h = elim h [ ]
find_scalar-some Ordering.gt Ordering.lt Ordering.gt h = elim h [ ]
find_scalar-some Ordering.eq Ordering.eq q h = elim h [ ]
find_scalar-some Ordering.eq Ordering.gt q h = elim h [ ]
find_scalar-some Ordering.gt Ordering.eq q h = elim h [ ]
find_scalar-some Ordering.gt Ordering.gt q h = elim h [ ]

-- What a scan from the right has read: the current key, the deletes, the sets, the whole.
record Scan : Type 0 where
  key : String
  deletes : List String
  sets : Dict ℕ
  read : Option (Record ℕ)

abbrev blank : Scan
blank = record { key = ""; deletes = []; sets = []; read = none }

abbrev typed : (n : ℕ) → Option (IsScalar n) → Scan → Scan
typed n none s = s
typed n (some h) s = record s { key = String.◌∷◌ (char n h) s.key }

abbrev type_char : ℕ → Scan → Scan
type_char n s = typed n (find_scalar (compare n 55296) (compare 57343 n) (compare n 1114112)) s

unfoldable pub token : ℕ → ℕ → ℕ
token kind n = 16 + 5 * n + kind

act : ℕ → ℕ → Scan → Scan
act kind n s =
    if kind == 0
    then type_char n s
    else if kind == 1
    then record s { key = ""; deletes = s.key ∷ s.deletes }
    else if kind == 2
    then record s { key = ""; sets = (s.key, n) ∷ s.sets }
    else if kind == 3
    then record s { read = some (record { version = n; body = snapshot s.sets }) }
    else record s { read = some (record { version = n; body = delta s.deletes s.sets }) }

scan : ℕ → Scan → Scan
scan t s = act ((t - 16) % 5) ((t - 16) / 5) s

unfoldable pub dump_key : String → Bytes → Bytes
dump_key String.[] rest = rest
dump_key (String.◌∷◌ c s) rest = token 0 (code c) ∷ dump_key s rest

pub dump_deletes : List String → Bytes → Bytes
dump_deletes [] rest = rest
dump_deletes (k ∷ ks) rest = token 1 0 ∷ dump_key k (dump_deletes ks rest)

unfoldable pub dump_sets : Dict ℕ → Bytes
dump_sets [] = []
dump_sets ((k, v) ∷ d) = token 2 v ∷ dump_key k (dump_sets d)

unfoldable pub dump : Record ℕ → Bytes
dump r = elim r.body [
  | snapshot d ↦ token 3 r.version ∷ dump_sets d
  | delta ks d ↦ token 4 r.version ∷ dump_deletes ks (dump_sets d)
]

pub load : Bytes → Option (Record ℕ)
load b = (foldr scan blank b).read

-- A string on top of another.
abbrev onto : String → String → String
onto String.[] t = t
onto (String.◌∷◌ c s) t = String.◌∷◌ c (onto s t)

onto-empty : (s : String) → onto s "" ≡ s
onto-empty String.[] = refl
onto-empty (String.◌∷◌ c s) = ap (String.◌∷◌ c) (onto-empty s)

type_char-code :
    (c : Char) (s : Scan) → type_char (code c) s ≡ record s { key = String.◌∷◌ c s.key }
type_char-code (char n p) s =
    let (h, e) = find_scalar-some (compare n 55296) (compare 57343 n) (compare n 1114112) p in
    ap (λ o. typed n o s) e
    ∙ ap (λ x. record s { key = String.◌∷◌ x s.key }) (Char-path (char n h) (char n p) refl)

scan-token : (kind n : ℕ) (s : Scan) → kind < 5 → scan (token kind n) s ≡ act kind n s
unfolding scan token
scan-token kind n s h =
    let e : (16 + 5 * n + kind - 16) % 5 ≡ kind = omega arith in
    let f : (16 + 5 * n + kind - 16) / 5 ≡ n = omega arith in
    ap (λ k. act k ((16 + 5 * n + kind - 16) / 5) s) e ∙ ap (λ m. act kind m s) f

-- What the scan holds after the bytes.
abbrev scanned : Bytes → Scan
scanned = foldr scan blank

scanned-key :
    (k : String) (rest : Bytes)
    → scanned (dump_key k rest) ≡ record (scanned rest) { key = onto k (scanned rest).key }
unfolding dump_key act
scanned-key String.[] rest = refl
scanned-key (String.◌∷◌ c k) rest =
    scan-token 0 (code c) (scanned (dump_key k rest)) (omega arith)
    ∙ type_char-code c (scanned (dump_key k rest))
    ∙ ap (λ (s : Scan). record s { key = String.◌∷◌ c s.key }) (scanned-key k rest)

scanned-sets : (d : Dict ℕ) → scanned (dump_sets d) ≡ record blank { sets = d }
unfolding dump_sets act
scanned-sets [] = refl
scanned-sets ((k, v) ∷ d) =
    scan-token 2 v (scanned (dump_key k (dump_sets d))) (omega arith)
    ∙ ap (act 2 v) (
        scanned-key k (dump_sets d)
        ∙ ap (λ (s : Scan). record s { key = onto k s.key }) (scanned-sets d))
    ∙ ap (λ x. record blank { sets = (x, v) ∷ d }) (onto-empty k)

scanned-deletes :
    (ks : List String) (d : Dict ℕ)
    → scanned (dump_deletes ks (dump_sets d)) ≡ record blank { deletes = ks; sets = d }
unfolding dump_deletes act
scanned-deletes [] d = scanned-sets d
scanned-deletes (k ∷ ks) d =
    scan-token 1 0 (scanned (dump_key k (dump_deletes ks (dump_sets d)))) (omega arith)
    ∙ ap (act 1 0) (
        scanned-key k (dump_deletes ks (dump_sets d))
        ∙ ap (λ (s : Scan). record s { key = onto k s.key }) (scanned-deletes ks d))
    ∙ ap (λ x. record blank { deletes = x ∷ ks; sets = d }) (onto-empty k)

load-dump_body :
    (n : ℕ) (b : Body ℕ)
    → load (dump (record { version = n; body = b })) ≡ some (record { version = n; body = b })
unfolding load dump act
load-dump_body n (snapshot d) =
    ap (λ (s : Scan). s.read)
      (scan-token 3 n (scanned (dump_sets d)) (omega arith) ∙ ap (act 3 n) (scanned-sets d))
load-dump_body n (delta ks d) =
    ap (λ (s : Scan). s.read)
      (scan-token 4 n (scanned (dump_deletes ks (dump_sets d))) (omega arith)
        ∙ ap (act 4 n) (scanned-deletes ks d))

pub load-dump : (r : Record ℕ) → load (dump r) ≡ some r
load-dump r = load-dump_body r.version r.body

token-NoBreak : (kind n : ℕ) → is_break (token kind n) ≡ false
unfolding token
token-NoBreak kind n = ground arith

dump_key-NoBreak : (k : String) (rest : Bytes) → NoBreak rest → NoBreak (dump_key k rest)
unfolding dump_key
dump_key-NoBreak String.[] rest h = h
dump_key-NoBreak (String.◌∷◌ c k) rest h = (token-NoBreak 0 (code c), dump_key-NoBreak k rest h)

dump_sets-NoBreak : (d : Dict ℕ) → NoBreak (dump_sets d)
unfolding dump_sets
dump_sets-NoBreak [] = tt
dump_sets-NoBreak ((k, v) ∷ d) =
    (token-NoBreak 2 v, dump_key-NoBreak k (dump_sets d) (dump_sets-NoBreak d))

dump_deletes-NoBreak :
    (ks : List String) (rest : Bytes) → NoBreak rest → NoBreak (dump_deletes ks rest)
unfolding dump_deletes
dump_deletes-NoBreak [] rest h = h
dump_deletes-NoBreak (k ∷ ks) rest h =
    (token-NoBreak 1 0, dump_key-NoBreak k _ (dump_deletes-NoBreak ks rest h))

pub dump_body-NoBreak : (n : ℕ) (b : Body ℕ) → NoBreak (dump (record { version = n; body = b }))
unfolding dump
dump_body-NoBreak n (snapshot d) = (token-NoBreak 3 n, dump_sets-NoBreak d)
dump_body-NoBreak n (delta ks d) =
    (token-NoBreak 4 n, dump_deletes-NoBreak ks (dump_sets d) (dump_sets-NoBreak d))

-- Keys are dumped in the order that they have.
pub load-dump-IsRead :
    (n : ℕ) (b : Body ℕ)
    → HasKeys b
    → (b' : Body ℕ) × IsRead b b'
      × (load (dump (record { version = n; body = b })) ≡ some (record { version = n; body = b' }))
load-dump-IsRead n (snapshot d) h = (snapshot d, (h, λ k. refl), load-dump_body n (snapshot d))
load-dump-IsRead n (delta ks s) h =
    (delta ks s, (refl, h, λ k. refl), load-dump_body n (delta ks s))

abbrev pub codec : Codec ℕ
codec = record {
  sha256 = λ b. [];
  dumps = dump;
  loads = load;
  same_value = λ v w. v == w;
  loads-dumps = load-dump-IsRead;
  dumps-NoBreak = λ r. dump_body-NoBreak r.version r.body;
  sha256-NoBreak = λ b. tt;
  sha256-NoSpace = λ b. tt;
}
