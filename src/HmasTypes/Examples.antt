-- ===== src/HmasTypes/Examples.antt =====
-- Round trips of concrete values.
use agamemnon.Base.{◌≡◌, [], ◌∷◌, some}
use agamemnon.Base.Int.{pos}
use agamemnon.HmasTypes.{HmasTask, l3_task_agent, escalated}
use agamemnon.HmasTypes.Codec.{hmas_task_to_json, hmas_task_from_json}
use agamemnon.HmasTypes.RoundTrip.{task_round_trip}
use agamemnon.Json.Sample.{sample}

abbrev escalated_task : HmasTask
escalated_task = record {
  id = "c";
  brief_id = "b";
  parent_task_id = "p";
  layer = l3_task_agent;
  state = escalated;
  subject = "s";
  description = "d";
  repo = "r";
  module_name = "m";
  issue = pos 12;
  assigned_lead_id = "a@h";
  blocked_by = "p" ∷ [];
  child_task_ids = [];
  escalations =
      record { task_id = "c"; reason = "stuck"; escalated_at = "t1"; from_layer = l3_task_agent }
      ∷ [];
  created_at = "t0";
  completed_at = "";
}

task_round_trip_example :
    hmas_task_from_json sample (hmas_task_to_json sample escalated_task) ≡ some escalated_task
task_round_trip_example = task_round_trip sample escalated_task
