-- ===== src/Access/Planner/Samples.antt =====
-- Plans of a few steps.
use stimela_ninja.Access.Planner.Ranked.{plan_ranked-plan_all}
use stimela_ninja.Prelude.{
  ◌≢◌, String, Bool, true, false, ◌||◌, Option, none, some, List, [], ◌∷◌, ◌++◌, ◌≡◌, refl, inl,
  inr, map,
}
use stimela_ninja.Access.{
  Place, ResolvedDatasetAccess, DatasetMode, read, write, paths_overlap, is_relative_to, path_eq,
  requires_exclusive,
}
use stimela_ninja.Access.Tree.{find, reach, overlapping, modify}
use stimela_ninja.Access.Planner.{
  Claim, Plan, fresh, claim_all, Step, plan_all, claims_of, plan_ranked, rank, non_backward,
}
use stimela_ninja.Access.Planner.Order.{Follows}
use stimela_ninja.Access.Planner.Steps.{steps_ordered}

abbrev image : Place
image = ("/", "data" ∷ "image" ∷ [])

abbrev folder : Place
folder = ("/", "data" ∷ [])

abbrev table : Place
table = ("/", "data" ∷ "obs.ms" ∷ [])

abbrev on_table : DatasetMode → ResolvedDatasetAccess
on_table mode = record { resources = table ∷ []; mode = mode; exclusive = false; label = "obs.ms" }

abbrev calibrate : Step
calibrate = record { name = "calibrate"; datasets = on_table write ∷ []; generic = [] }

abbrev plot : Step
plot = record { name = "plot"; datasets = on_table read ∷ []; generic = [] }

abbrev archive : Step
archive = record { name = "archive"; datasets = []; generic = (folder, true, "/data") ∷ [] }

abbrev clean : Step
clean = record {
  name = "clean";
  datasets = on_table read ∷ [];
  generic = (table, true, "/data/obs.ms") ∷ [];
}

abbrev planned : List Step → List (String × String)
planned steps = elim (plan_all steps fresh) [
  | none ↦ []
  | some plan ↦ map (λ r. (r.name, r.parent)) plan.reasons
]

unfolded : Unit {0}
unfolding plan_all overlapping requires_exclusive modify reach find stimela_ninja.Prelude.Dict.put
    claim_all paths_overlap path_eq is_relative_to claims_of
unfolded = tt

archive_waits :
    planned (calibrate ∷ plot ∷ archive ∷ []) ≡ ("plot", "calibrate") ∷ ("archive", "plot") ∷ []
unfolding unfolded
archive_waits = refl

-- A READ of a dataset that the schema writes is refused.
clean-refused : plan_all (calibrate ∷ clean ∷ []) fresh ≡ none
unfolding unfolded
clean-refused = refl

abbrev survey : Step
survey = record { name = "survey"; datasets = []; generic = (folder, false, "/data") ∷ [] }

abbrev draw : Step
draw = record { name = "draw"; datasets = []; generic = (image, true, "/data/image") ∷ [] }

-- After a read of the folder, a write of one file in it orders the reads of its siblings.
sibling_waits : planned (survey ∷ draw ∷ plot ∷ []) ≡ ("draw", "survey") ∷ ("plot", "draw") ∷ []
unfolding unfolded
sibling_waits = refl

sibling_free : planned (draw ∷ plot ∷ []) ≡ []
unfolding unfolded
sibling_free = refl

abbrev made : Plan
made = elim (plan_all (calibrate ∷ plot ∷ archive ∷ []) fresh) [ none ↦ fresh | some plan ↦ plan ]

abbrev calibrate_table : Claim
calibrate_table = record { name = "calibrate"; place = table; writes = true; label = "obs.ms" }

abbrev archive_folder : Claim
archive_folder = record { name = "archive"; place = folder; writes = true; label = "/data" }

abbrev plot_table : Claim
plot_table = record { name = "plot"; place = table; writes = false; label = "obs.ms" }

steps_ordered_example : Follows made.reasons "archive" "calibrate"
unfolding unfolded
steps_ordered_example =
    steps_ordered [] (plot ∷ []) [] calibrate archive calibrate_table archive_folder made refl
      (inl refl) (inl refl) refl refl

plan_ranked-plan_all_example :
    plan_ranked (calibrate ∷ plot ∷ archive ∷ []) (calibrate ∷ plot ∷ archive ∷ []) fresh
    ≡ plan_all (calibrate ∷ plot ∷ archive ∷ []) fresh
plan_ranked-plan_all_example =
    plan_ranked-plan_all (calibrate ∷ plot ∷ archive ∷ []) (refl, (refl, (refl, tt)))

-- In an order that is not the plan's, the check refuses the reader's dependency.
misordered : plan_ranked (plot ∷ calibrate ∷ []) (calibrate ∷ plot ∷ []) fresh ≡ none
unfolding unfolded plan_ranked rank non_backward
misordered = refl
