-- ===== src/Orchestrator/SubmitExamples.antt =====
-- A brief with one repository, submitted to an empty store.
use agamemnon.Base.{
  String, str_eq, str_eq_iff, if◌then◌else◌, ◌≡◌, ◌≢◌, refl, true, List, [], ◌∷◌, Option, none,
  some, arith,
}
use agamemnon.Base.Dict.{lookup}
use agamemnon.HmasTypes.{HmasTask, TaskBrief, delegated}
use agamemnon.Json.Sample.{sample, Value}
use agamemnon.PlanningBreakdown.{decompose}
use agamemnon.PlanningBreakdown.ImplRef.{parse_impl_ref}
use agamemnon.Store.{init}
use agamemnon.Store.Sample.{quiet, lead}
use agamemnon.Store.Lookup.{IsReliable}
use agamemnon.Uuid.{generate_uuid}
use agamemnon.Orchestrator.{World, uuid}
use agamemnon.Orchestrator.Unblocking.{at, IsReady}
use agamemnon.Orchestrator.Submission.{submit}
use agamemnon.Orchestrator.Planting.{latest}
use agamemnon.Orchestrator.Submitted.{submit_effect}
use agamemnon.Orchestrator.Acceptance.{IsAccepting, submit_returns}

abbrev brief : TaskBrief
brief = record {
  id = "b";
  title = "T";
  description = "D";
  repos = "r" ∷ [];
  modules = [];
  impls = [];
}

-- The n-th id is made of the digit n.
abbrev world : World Value Unit
world = record {
  store = record (init (some tt)) { hmas_tasks_loaded = true; briefs_loaded = true };
  sent = [];
  draws = λ n i. n;
  uuids_used = 0;
}

empty-IsReady : IsReady sample quiet world
unfolding lookup
empty-IsReady = (refl, λ k t h. ground (arith, h))

abbrev head : Option (List HmasTask) → HmasTask
head none = lead
head (some []) = lead
head (some (t ∷ ts)) = t

abbrev tail : Option (List HmasTask) → List HmasTask
tail none = []
tail (some []) = []
tail (some (t ∷ ts)) = ts

abbrev tasks : Option (List HmasTask)
tasks = decompose (uuid world) "t0" brief 0

quiet-IsReliable : IsReliable sample quiet
quiet-IsReliable number body g = refl

quiet-IsAccepting : IsAccepting sample quiet
quiet-IsAccepting title body label g h = ground (arith, h)

b_is_named : ◌≢◌ {A = String} "b" ""
b_is_named e = ground (arith, str_eq_iff "b" "")

submit_returns_example : (submit sample quiet "t0" brief world).0 ≡ some "b"
unfolding decompose uuid generate_uuid parse_impl_ref lookup
submit_returns_example =
    submit_returns sample quiet "t0" brief world (head tasks) (tail tasks) quiet-IsAccepting
      quiet-IsReliable b_is_named empty-IsReady refl refl

submit_effect_example :
    (brief.id ≡ brief.id)
    × ((k : String)
        → at sample quiet (submit sample quiet "t0" brief world).1 k ≡ (
            if str_eq (head tasks).id k
            then some (record (head tasks) { state = delegated })
            else latest k (tail tasks) none))
unfolding decompose uuid generate_uuid parse_impl_ref lookup latest
submit_effect_example =
    submit_effect sample quiet "t0" "b" brief world (head tasks) (tail tasks) b_is_named
      empty-IsReady refl refl refl
      (submit_returns sample quiet "t0" brief world (head tasks) (tail tasks) quiet-IsAccepting
        quiet-IsReliable b_is_named empty-IsReady refl refl)
