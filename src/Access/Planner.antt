-- ===== src/Access/Planner.antt =====
-- `ResolvedAccessPlanner` of src/shinobi/dataset_access.py: the hazards that a step's accesses have
-- with those of the steps before it in the plan's order.
pub mod Order
pub mod Claimed
pub mod Seen
pub mod Remembered
pub mod Conflicts
pub mod Steps
pub mod Backward
pub mod Ranked
mod Samples
use stimela_ninja.Prelude.{
  String, Bool, true, false, not, ◌&&◌, ◌||◌, Option, none, some, List, [], ◌∷◌, ◌++◌, map, any,
  is_nil, if◌then◌else◌, ℕ, zero, suc, leb,
}
use stimela_ninja.Prelude.Dict.{Dict, put}
use stimela_ninja.Access.{
  Place, parts, is_relative_to, ResolvedDatasetAccess, is_read, requires_exclusive,
}
use stimela_ninja.Access.Tree.{AccessState, Children, leaf, find, reach, overlapping, modify}
use text.Mathlib.Text.{◌==◌}

pub data Hazard : Type 0 where
  write_after_read write_after_write read_after_write : Hazard

-- A dependency of `name` on `parent`, with the text of its reason.
pub record Reason : Type 0 where
  name : String
  parent : String
  hazard : Hazard
  label : String

-- One canonical path that a step reads or writes.
pub record Claim : Type 0 where
  name : String
  place : Place
  writes : Bool
  label : String

-- What the planner carries from step to step: the tree, and the decisions of all steps.
pub record Plan : Type 0 where
  tree : Children
  reasons : List Reason

abbrev pub fresh : Plan
fresh = record { tree = leaf; reasons = [] }

-- `label or previous_label`
abbrev or_else : String → String → String
or_else label previous = if label == "" then previous else label

-- A step does not wait for itself.
pub imposed : Claim → Hazard → String × String → List Reason
imposed c hazard (parent, previous) =
    if parent == c.name
    then []
    else record {
      name = c.name;
      parent = parent;
      hazard = hazard;
      label = or_else c.label previous;
    }
      ∷ []

pub after_readers : Claim → Dict String → List Reason
unfolding imposed
after_readers c [] = []
after_readers c (reader ∷ readers) = imposed c write_after_read reader ++ after_readers c readers

pub after_writer : Claim → Option (String × String) → List Reason
unfolding imposed
after_writer c none = []
after_writer c (some writer) =
    imposed c (if c.writes then write_after_write else read_after_write) writer

-- What one overlapping state imposes: its readers on a write, and else its last writer.
pub hazards : Claim → AccessState → List Reason
unfolding after_readers after_writer
hazards c previous =
    if c.writes && not (is_nil previous.readers_since_write)
    then after_readers c previous.readers_since_write
    else after_writer c previous.last_writer

pub hazards_of : Claim → Option AccessState → List Reason
unfolding hazards
hazards_of c none = []
hazards_of c (some previous) = hazards c previous

pub hazards_at : Claim → List Place → Children → List Reason
unfolding hazards_of
hazards_at c [] tree = []
hazards_at c ((k, p) ∷ places) tree = hazards_of c (find k p tree) ++ hazards_at c places tree

pub written_by : Claim → AccessState → AccessState
written_by c s = record { last_writer = some (c.name, c.label); readers_since_write = [] }

pub read_by : Claim → AccessState → AccessState
read_by c s = record s { readers_since_write = put c.name c.label s.readers_since_write }

-- `for item in [*overlapping, state]`: the assignments of a write.
pub overwrite : Claim → List Place → Children → Children
unfolding written_by
overwrite c [] tree = tree
overwrite c ((k, p) ∷ places) tree = overwrite c places (modify (written_by c) k p tree)

pub settled : Claim → List Place → Children → Children
unfolding overwrite read_by
settled c places tree =
    if c.writes
    then overwrite c (places ++ c.place ∷ []) tree
    else modify (read_by c) c.place.0 c.place.1 tree

-- The body of the loop over `accesses`.
pub claim : Claim → Plan → Plan
unfolding hazards_at settled
claim c plan =
    let places = overlapping c.place.0 c.place.1 plan.tree in
    record {
      tree = settled c places (reach c.place.0 c.place.1 plan.tree);
      reasons = plan.reasons ++ hazards_at c places plan.tree;
    }

pub claim_all : List Claim → Plan → Plan
unfolding claim
claim_all [] plan = plan
claim_all (c ∷ cs) plan = claim_all cs (claim c plan)

-- A path of the schema, whether the step writes it, and its text.
abbrev pub Generic : Type 0
Generic = Place × Bool × String

-- `path == resource or path.is_relative_to(resource)` for one of the resources.
pub is_within : Place → List Place → Bool
is_within place resources = any (λ r. is_relative_to (parts place) (parts r)) resources

-- A READ declaration beside a write that the schema declares to the same dataset.
pub contradicts : ResolvedDatasetAccess → List Generic → Bool
unfolding is_within
contradicts access generic =
    is_read access.mode && any (λ g. g.1 && is_within g.0 access.resources) generic

pub resource_claims : String → ResolvedDatasetAccess → List Claim
resource_claims name access =
    map
      (λ place. record {
        name = name;
        place = place;
        writes = requires_exclusive access;
        label = access.label;
      })
      access.resources

pub dataset_claims : String → List ResolvedDatasetAccess → List Claim
unfolding resource_claims
dataset_claims name [] = []
dataset_claims name (access ∷ rest) = resource_claims name access ++ dataset_claims name rest

pub declared_resources : List ResolvedDatasetAccess → List Place
declared_resources [] = []
declared_resources (access ∷ rest) = access.resources ++ declared_resources rest

-- The schema's paths, without those that a dataset's declaration covers.
pub generic_claims : String → List Place → List Generic → List Claim
unfolding is_within
generic_claims name declared [] = []
generic_claims name declared ((place, writes, text) ∷ rest) =
    let kept = generic_claims name declared rest in
    if is_within place declared
    then kept
    else record { name = name; place = place; writes = writes; label = text } ∷ kept

pub claims_of : String → List ResolvedDatasetAccess → List Generic → List Claim
unfolding dataset_claims declared_resources generic_claims
claims_of name datasets generic =
    dataset_claims name datasets ++ generic_claims name (declared_resources datasets) generic

-- `none` where a READ contradicts the schema. Ownership asks without the order, and gets no decision.
-- The roots that a CREATE plans serve the resolution of later declarations and are left to it.
pub order_after : Bool → String → List ResolvedDatasetAccess → List Generic → Plan → Option Plan
unfolding contradicts claims_of claim_all
order_after track_order name datasets generic plan =
    if any (λ access. contradicts access generic) datasets
    then none
    else if not track_order
    then some plan
    else some (claim_all (claims_of name datasets generic) plan)

-- One step as the planner is given it; a strict scatter, which is planned slice by slice, is not.
pub record Step : Type 0 where
  name : String
  datasets : List ResolvedDatasetAccess
  generic : List Generic

abbrev pub step_claims : Step → List Claim
step_claims s = claims_of s.name s.datasets s.generic

abbrev and_then : Option Plan → (Plan → Option Plan) → Option Plan
and_then none f = none
and_then (some plan) f = f plan

-- The steps of a recipe in its stable order.
pub plan_all : List Step → Plan → Option Plan
unfolding order_after
plan_all [] plan = some plan
plan_all (s ∷ steps) plan =
    and_then (order_after true s.name s.datasets s.generic plan) λ next. plan_all steps next

-- A step's place in the recipe's stable order, by name; an unknown name is past the end.
pub rank : String → List Step → ℕ
rank name [] = zero
rank name (s ∷ recipe) = let rest = rank name recipe in if s.name == name then zero else suc rest

-- `rank[parent_index] >= rank[index]` for a dependency of the step.
pub non_backward : List Step → String → Reason → Bool
unfolding rank
non_backward recipe name r = r.name == name && leb (rank name recipe) (rank r.parent recipe)

-- The loop with its check of each decision.
pub plan_ranked : List Step → List Step → Plan → Option Plan
unfolding order_after non_backward
plan_ranked recipe [] plan = some plan
plan_ranked recipe (s ∷ steps) plan =
    and_then (order_after true s.name s.datasets s.generic plan) λ next.
      if any (non_backward recipe s.name) next.reasons then none else plan_ranked recipe steps next
