-- ===== src/Snapshots/Json/Journal.antt =====
-- The journal's file against the dict of chains that the other modules of Snapshots work on.
use stimela_ninja.Prelude.{
  ◌≡◌, refl, arith, String, Bool, true, Option, none, some, List, [], ◌∷◌, all, All, Option-cases,
  inl, inr, subst,
}
use stimela_ninja.Prelude.Dict.{Dict, get, put, pop}
use stimela_ninja.Prelude.Results.{ok}
use stimela_ninja.Snapshots.{Chain, Journal}
use stimela_ninja.Snapshots.Json.{Json}
use stimela_ninja.Snapshots.Json.Chains.{
  get_chain, chain_json, load_chains, get_chain, current, with_chain, update_chains,
}
use stimela_ninja.Snapshots.Json.RoundTrip.{keeps_marker, read_chain-chain_json}
use mathlib.Core.Option.{map as optionally}

abbrev pub Change : Type 0
Change = Option Chain → Option Chain

-- The content of the file.
abbrev pub dump : Journal → Dict Json
dump [] = []
dump ((cid, c) ∷ j) = (cid, chain_json c) ∷ dump j

-- The dict after a change of a chain, which is removed when none is given back.
abbrev pub replaced : String → Option Chain → Journal → Journal
replaced cid none j = pop cid j
replaced cid (some c) j = put cid c j

abbrev pub all_changed : List (String × Change) → Journal → Journal
all_changed [] j = j
all_changed ((cid, mutate) ∷ changes) j = all_changed changes (replaced cid (mutate (get cid j)) j)

abbrev pub keeps_markers : Journal → Bool
keeps_markers j = all (λ entry. keeps_marker entry.1) j

abbrev pub keeps : Option Chain → Bool
keeps none = true
keeps (some c) = keeps_marker c

-- From a chain whose marker is written without a loss, a change makes another.
abbrev pub IsKeeping : Change → Type 0
IsKeeping mutate = (o : Option Chain) → keeps o ≡ true → keeps (mutate o) ≡ true

load_chains-dump : (j : Journal) → keeps_markers j ≡ true → load_chains (dump j) ≡ ok j
unfolding load_chains
load_chains-dump [] h = refl
load_chains-dump ((cid, c) ∷ j) h =
    rw (read_chain-chain_json c (ground (arith, h)), load_chains-dump j (ground (arith, h))) refl

get-dump : (k : String) (j : Journal) → get k (dump j) ≡ optionally chain_json (get k j)
unfolding get
get-dump k [] = refl
get-dump k ((cid, c) ∷ j) = ground (arith, get-dump k j)

put-dump : (k : String) (c : Chain) (j : Journal) → put k (chain_json c) (dump j) ≡ dump (put k c j)
unfolding put
put-dump k c [] = refl
put-dump k c ((cid, b) ∷ j) = ground (arith, put-dump k c j)

pop-dump : (k : String) (j : Journal) → pop k (dump j) ≡ dump (pop k j)
unfolding pop
pop-dump k [] = refl
pop-dump k ((cid, b) ∷ j) = ground (arith, pop-dump k j)

keeps-get : (k : String) (j : Journal) → keeps_markers j ≡ true → keeps (get k j) ≡ true
unfolding get
keeps-get k [] h = refl
keeps-get k ((cid, c) ∷ j) h = ground (arith, h, keeps-get k j)

keeps_markers-put :
    (k : String) (c : Chain) (j : Journal)
    → keeps_markers j ≡ true
    → keeps_marker c ≡ true
    → keeps_markers (put k c j) ≡ true
unfolding put
keeps_markers-put k c [] h e = ground (arith, e)
keeps_markers-put k c ((cid, b) ∷ j) h e = ground (arith, h, e, keeps_markers-put k c j)

keeps_markers-pop :
    (k : String) (j : Journal) → keeps_markers j ≡ true → keeps_markers (pop k j) ≡ true
unfolding pop
keeps_markers-pop k [] h = refl
keeps_markers-pop k ((cid, b) ∷ j) h = ground (arith, h, keeps_markers-pop k j)

current-dump :
    (k : String) (j : Journal) → keeps_markers j ≡ true → current k (dump j) ≡ ok (get k j)
current-dump k j h = elim (Option-cases (get k j)) [
  | inl e ↦ rw (current, get-dump k j, e) refl
  | inr (c, e) ↦
      let kept = subst (λ o. keeps o ≡ true) e (keeps-get k j h) in
      rw (current, get-dump k j, e, read_chain-chain_json c kept) refl
]

with_chain-dump :
    (k : String) (o : Option Chain) (j : Journal) → with_chain k o (dump j) ≡ dump (replaced k o j)
with_chain-dump k none j = pop-dump k j
with_chain-dump k (some c) j = put-dump k c j

keeps_markers-replaced :
    (k : String) (o : Option Chain) (j : Journal)
    → keeps_markers j ≡ true
    → keeps o ≡ true
    → keeps_markers (replaced k o j) ≡ true
keeps_markers-replaced k none j h e = keeps_markers-pop k j h
keeps_markers-replaced k (some c) j h e = keeps_markers-put k c j h e

keeps_markers-all_changed :
    (changes : List (String × Change)) (j : Journal)
    → All (λ change. IsKeeping change.1) changes
    → keeps_markers j ≡ true
    → keeps_markers (all_changed changes j) ≡ true
keeps_markers-all_changed [] j ok_changes h = h
keeps_markers-all_changed ((k, mutate) ∷ changes) j (first, others) h =
    keeps_markers-all_changed changes (replaced k (mutate (get k j)) j) others
      (keeps_markers-replaced k (mutate (get k j)) j h (first (get k j) (keeps-get k j h)))

written :
    (changes : List (String × Change)) (j : Journal)
    → All (λ change. IsKeeping change.1) changes
    → keeps_markers j ≡ true
    → update_chains changes (dump j) ≡ ok (dump (all_changed changes j))
unfolding update_chains
written [] j kept h = refl
written ((k, mutate) ∷ changes) j (first, others) h =
    rw
      (
        current-dump k j h,
        with_chain-dump k (mutate (get k j)) j,
        written changes (replaced k (mutate (get k j)) j) others
            (keeps_markers-replaced k (mutate (get k j)) j h (first (get k j) (keeps-get k j h))),
      )
      refl

get_chain-dump :
    (cid : String) (j : Journal) → keeps_markers j ≡ true → get_chain cid (dump j) ≡ ok (get cid j)
unfolding get_chain
get_chain-dump cid j h = rw (load_chains-dump j h) refl

-- A transaction of the journal's file does to the file what its changes, one after the other, do
-- to the dict of chains, and any chain is then read from the file as it stands in that dict: from a
-- file that was written from chains whose markers are written without a loss, by changes that
-- keep this.
pub update_chains-dump :
    (changes : List (String × Change)) (j : Journal) (cid : String)
    → keeps_markers j ≡ true
    → All (λ change. IsKeeping change.1) changes
    → (update_chains changes (dump j) ≡ ok (dump (all_changed changes j)))
      × (get_chain cid (dump (all_changed changes j)) ≡ ok (get cid (all_changed changes j)))
update_chains-dump changes j cid h kept = (
  written changes j kept h,
  get_chain-dump cid (all_changed changes j) (keeps_markers-all_changed changes j kept h),
)
