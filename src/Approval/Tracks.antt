-- ===== src/Approval/Tracks.antt =====
-- `calculateApprovalTracks`, `getRequiredAttachments` and `buildInitialTasks`. The numbers of a form are
-- whole ones; a missing number counts as 0 and a missing flag as false.
use udyog_setu.Common.{
  ℕ, String, Option, none, some, Bool, true, false, ◌||◌, List, [], ◌∷◌, ◌++◌, ◌+◌, ◌*◌, ◌/◌, map,
  includes, truthy, str_eq, leb, ltb, if◌then◌else◌,
}

pub record Form : Type 0 where
  pub pollution_category : String
  pub effluent_generated : Bool
  pub emissions_generated : Bool
  pub hazardous_waste_generated : Bool
  pub water_requirement_kld : ℕ
  pub power_requirement_kw : ℕ
  pub connected_load_kw : ℕ
  pub contract_demand_kva : ℕ
  pub transformer_required : Bool
  pub fire_noc_required : Bool
  pub building_height_m : ℕ
  pub storage_of_flammables : Bool
  pub occupancy_type : String
  pub factory_license_required : Bool
  pub machinery_installed : Bool
  pub boilers : Bool
  pub pressure_vessels : Bool
  pub hazardous_process : Bool
  pub employee_count : ℕ
  pub contract_labour_count : ℕ
  pub interstate_migrant_workers : Bool
  pub shops_establishment_required : Bool
  pub labour_registration_required : Bool

pub record Requirement : Type 0 where
  pub department_code : String
  pub reason : String
  pub required_approval_type : String
  pub is_mandatory : Bool

pub record Track : Type 0 where
  pub department_code : String
  pub task_type : String
  pub title : String
  pub sla_days : ℕ
  pub explanation : String
  pub required_attachments : List String
  pub is_mandatory : Bool

pub record Plan : Type 0 where
  pub required_departments : List Requirement
  pub approval_tracks : List Track
  pub required_attachments : List String
  pub explanations : List String

-- `[...new Set(array)]`: the first occurrence of each text.
unfoldable pub unique_after : List String → List String → List String
unique_after seen [] = []
unique_after seen (x ∷ xs) =
    let skip = unique_after seen xs in
    let take = unique_after (x ∷ seen) xs in if includes seen x then skip else x ∷ take

unfoldable pub unique : List String → List String
unique = unique_after []

unfoldable pub default_sla_days : String → ℕ
default_sla_days code =
    if str_eq code "pollution"
    then 30
    else if str_eq code "power"
    then 21
    else if str_eq code "fire"
    then 15
    else if str_eq code "industrial_safety"
    then 30
    else 15

unfoldable pub build_track : String → String → String → String → List String → Track
build_track code type title reason attachments = record {
  department_code = code;
  task_type = type;
  title = title;
  sla_days = default_sla_days code;
  explanation = reason;
  required_attachments = attachments;
  is_mandatory = true;
}

unfoldable pub pollution_needed : Form → Bool
pollution_needed f =
    includes ("red" ∷ "orange" ∷ "green" ∷ []) f.pollution_category
    || f.effluent_generated
    || f.emissions_generated
    || f.hazardous_waste_generated
    || ltb 5 f.water_requirement_kld

unfoldable pub power_needed : Form → Bool
power_needed f =
    ltb 0 f.power_requirement_kw
    || ltb 0 f.connected_load_kw
    || ltb 0 f.contract_demand_kva
    || f.transformer_required

unfoldable pub fire_needed : Form → Bool
fire_needed f =
    f.fire_noc_required
    || leb 15 f.building_height_m
    || f.storage_of_flammables
    || includes ("industrial" ∷ "warehouse" ∷ "public" ∷ []) f.occupancy_type

unfoldable pub industrial_safety_needed : Form → Bool
industrial_safety_needed f =
    f.factory_license_required
    || f.machinery_installed
    || f.boilers
    || f.pressure_vessels
    || f.hazardous_process
    || leb 10 f.employee_count

unfoldable pub labour_needed : Form → Bool
labour_needed f =
    leb 10 f.employee_count
    || ltb 0 f.contract_labour_count
    || f.interstate_migrant_workers
    || f.shops_establishment_required
    || f.labour_registration_required

-- One of the five `if` blocks: what it pushes where its condition holds.
unfoldable pub require : Bool → String → String → String → String → List String → Plan → Plan
require false code type title reason attachments plan = plan
require true code type title reason attachments plan = record {
  required_departments =
      plan.required_departments
      ++ record {
        department_code = code;
        reason = reason;
        required_approval_type = type;
        is_mandatory = true;
      }
        ∷ [];
  approval_tracks = plan.approval_tracks ++ build_track code type title reason attachments ∷ [];
  required_attachments = plan.required_attachments ++ attachments;
  explanations = plan.explanations ++ reason ∷ [];
}

abbrev pub empty_plan : Plan
empty_plan = record {
  required_departments = [];
  approval_tracks = [];
  required_attachments = "project_report" ∷ [];
  explanations = [];
}

unfoldable pub collect : Form → Plan
collect f =
    require (labour_needed f) "labour" "labour_registration" "Labour Registration Review"
      "Labour registration required because workforce and labour deployment thresholds are declared."
      ("labour_documents" ∷ [])
      (require (industrial_safety_needed f) "industrial_safety" "factory_license"
        "Industrial Safety and Factory Licence Review"
        "Industrial safety clearance required because machinery, boilers, hazardous process, or workforce thresholds are met."
        ("factory_safety_documents" ∷ [])
        (require (fire_needed f) "fire" "fire_noc" "Fire Safety Review"
          "Fire NOC required because occupancy, height, or flammable storage criteria are met."
          ("fire_safety_plan" ∷ "layout_plan" ∷ [])
          (require (power_needed f) "power" "power_connection" "Power Connection Review"
            "Power connection approval required because electrical load or transformer details are declared."
            []
            (require (pollution_needed f) "pollution" "consent" "Pollution Consent Review"
              "Pollution consent required because environmental discharge or category data is declared."
              ("pollution_control_documents" ∷ []) empty_plan))))

unfoldable pub calculate_approval_tracks : Form → Plan
calculate_approval_tracks f =
    let plan = collect f in record plan { required_attachments = unique plan.required_attachments }

unfoldable pub all_attachments : List Track → List String
all_attachments [] = []
all_attachments (t ∷ ts) = t.required_attachments ++ all_attachments ts

unfoldable pub get_required_attachments : List Track → List String
get_required_attachments tracks = unique (all_attachments tracks ++ "project_report" ∷ [])

pub record Item : Type 0 where
  pub code : String
  pub label : String
  pub required : Bool
  pub status : String

pub record Application : Type 0 where
  pub case_id : ℕ
  pub universal_case_id : Option String
  pub priority : Option String
  pub correlation_id : Option String

pub record InitialTask : Type 0 where
  pub case_id : ℕ
  pub universal_case_id : Option String
  pub department_code : String
  pub task_type : String
  pub title : String
  pub status : String
  pub priority : String
  pub checklist : List Item
  pub due_at : ℕ
  pub warning_at : ℕ
  pub correlation_id : Option String
  pub reason : String
  pub required_attachments : List String

abbrev text_or : Option String → String → String
text_or none d = d
text_or (some s) d = if truthy (some s) then s else d

abbrev or_text : Option String → Option String → Option String
or_text a b = if truthy a then a else if truthy b then b else none

abbrev pub day : ℕ
day = 86400000

unfoldable pub build_initial_task : ℕ → Application → Option String → Track → InitialTask
build_initial_task now c correlation_id t = record {
  case_id = c.case_id;
  universal_case_id = or_text c.universal_case_id none;
  department_code = t.department_code;
  task_type = t.task_type;
  title = t.title;
  status = "pending";
  priority = text_or c.priority "normal";
  checklist =
      record {
        code = "initial_scrutiny";
        label = "Initial scrutiny completed";
        required = true;
        status = "pending";
      }
      ∷ record {
        code = "required_documents";
        label = "Required documents verified";
        required = true;
        status = "pending";
      }
      ∷ [];
  due_at = now + t.sla_days * day;
  warning_at = now + t.sla_days * 8 / 10 * day;
  correlation_id = or_text correlation_id c.correlation_id;
  reason = t.explanation;
  required_attachments = t.required_attachments;
}

unfoldable pub build_initial_tasks : ℕ → Application → List Track → Option String → List InitialTask
build_initial_tasks now c tracks correlation_id =
    map (build_initial_task now c correlation_id) tracks
