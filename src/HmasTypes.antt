-- ===== src/HmasTypes.antt =====
-- include/agamemnon/hmas_types.hpp and src/hmas_types.cpp: the layers, states and records of the
-- HMAS task tree, their names on the wire, and (in the children) their JSON form.
pub mod Codec
pub mod BriefCodec
pub mod RoundTrip
pub mod Examples
use Prim.Native.String.{◌++◌}
use agamemnon.Base.{ℕ, String, Bool, List, Option, none, some, str_eq, ◌==◌, if◌then◌else◌}
use agamemnon.Base.Dict.{Dict}
use agamemnon.Base.Int.{ℤ}

pub data HmasLayer : Type 0 where
  l0_chief_architect l1_component_lead l2_module_lead l3_task_agent : HmasLayer

pub data TaskState : Type 0 where
  pending decomposing delegated in_progress escalated completed failed : TaskState

-- static_cast<int>(layer), and equality of two layers by it.
abbrev pub layer_code : HmasLayer → ℕ
layer_code l0_chief_architect = 0
layer_code l1_component_lead = 1
layer_code l2_module_lead = 2
layer_code l3_task_agent = 3

abbrev pub layer_eq : HmasLayer → HmasLayer → Bool
layer_eq a b = layer_code a == layer_code b

-- static_cast<int>(state), and equality of two states by it.
abbrev pub state_code : TaskState → ℕ
state_code pending = 0
state_code decomposing = 1
state_code delegated = 2
state_code in_progress = 3
state_code escalated = 4
state_code completed = 5
state_code failed = 6

abbrev pub state_eq : TaskState → TaskState → Bool
state_eq a b = state_code a == state_code b

pub record EscalationRecord : Type 0 where
  pub task_id : String
  pub reason : String
  pub escalated_at : String
  pub from_layer : HmasLayer

-- `module` of the source is `module_name` here.
pub record HmasTask : Type 0 where
  pub id : String
  pub brief_id : String
  pub parent_task_id : String
  pub layer : HmasLayer
  pub state : TaskState
  pub subject : String
  pub description : String
  pub repo : String
  pub module_name : String
  pub issue : ℤ
  pub assigned_lead_id : String
  pub blocked_by : List String
  pub child_task_ids : List String
  pub escalations : List EscalationRecord
  pub created_at : String
  pub completed_at : String

pub record TaskBrief : Type 0 where
  pub id : String
  pub title : String
  pub description : String
  pub repos : List String
  pub modules : Dict (List String)
  pub impls : Dict (Dict (List String))

unfoldable pub hmas_layer_to_string : HmasLayer → String
hmas_layer_to_string l0_chief_architect = "L0_ChiefArchitect"
hmas_layer_to_string l1_component_lead = "L1_ComponentLead"
hmas_layer_to_string l2_module_lead = "L2_ModuleLead"
hmas_layer_to_string l3_task_agent = "L3_TaskAgent"

unfoldable pub task_state_to_string : TaskState → String
task_state_to_string pending = "Pending"
task_state_to_string decomposing = "Decomposing"
task_state_to_string delegated = "Delegated"
task_state_to_string in_progress = "InProgress"
task_state_to_string escalated = "Escalated"
task_state_to_string completed = "Completed"
task_state_to_string failed = "Failed"

-- `none` is the std::invalid_argument that the source throws.
unfoldable pub hmas_layer_from_string : String → Option HmasLayer
hmas_layer_from_string s =
    if str_eq s "L0_ChiefArchitect"
    then some l0_chief_architect
    else if str_eq s "L1_ComponentLead"
    then some l1_component_lead
    else if str_eq s "L2_ModuleLead"
    then some l2_module_lead
    else if str_eq s "L3_TaskAgent"
    then some l3_task_agent
    else none

unfoldable pub task_state_from_string : String → Option TaskState
task_state_from_string s =
    if str_eq s "Pending"
    then some pending
    else if str_eq s "Decomposing"
    then some decomposing
    else if str_eq s "Delegated"
    then some delegated
    else if str_eq s "InProgress"
    then some in_progress
    else if str_eq s "Escalated"
    then some escalated
    else if str_eq s "Completed"
    then some completed
    else if str_eq s "Failed"
    then some failed
    else none

unfoldable pub mesh_role_name : HmasLayer → String
mesh_role_name l0_chief_architect = "chief-architect"
mesh_role_name l1_component_lead = "component-lead"
mesh_role_name l2_module_lead = "module-lead"
mesh_role_name l3_task_agent = "task-agent"

unfoldable pub mesh_dispatch_subject : String → String → String → String
mesh_dispatch_subject domain role task_id =
    "hi.myrmidon." ++ (domain ++ ("." ++ (role ++ (".task." ++ task_id))))
