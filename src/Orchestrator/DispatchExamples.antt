-- ===== src/Orchestrator/DispatchExamples.antt =====
-- A delegation of the leaf of Store.Sample.
use agamemnon.Base.{String, ◌≡◌, refl, str_eq, ◌&&◌, true, [], some, if◌then◌else◌}
use agamemnon.Base.Dict.{lookup}
use agamemnon.Json.Sample.{sample, Value}
use agamemnon.Store.Sample.{quiet, leaf, store, store_keyed}
use agamemnon.Orchestrator.{World}
use agamemnon.Orchestrator.Delegation.{delegate}
use agamemnon.Orchestrator.Unblocking.{at, freed}
use agamemnon.Orchestrator.Dispatches.{dispatches, delegate_effect}

abbrev world : World Value Unit
world = record { store = store; sent = []; draws = λ n i. 0; uuids_used = 0 }

delegate_effect_example :
    let (answer, w') = delegate sample quiet "t1" "c" world in
    (answer ≡ some true)
    × ((k : String)
        → at sample quiet w' k ≡ (
            if str_eq "c" k && true
            then some (freed sample quiet leaf)
            else at sample quiet world k))
    × (w'.sent ≡ dispatches sample quiet (freed sample quiet leaf))
unfolding lookup
delegate_effect_example =
    delegate_effect sample quiet "t1" "c" world leaf (λ number body g. refl) (refl, store_keyed)
      refl
