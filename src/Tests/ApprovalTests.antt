-- ===== src/Tests/ApprovalTests.antt =====
-- The plan for a factory of twelve.
use udyog_setu.Common.{some, none, true, false, ◌≡◌, ◌↔◌}
use udyog_setu.Approval.Tracks.{Form, Application, calculate_approval_tracks}
use udyog_setu.Approval.TrackLaws.{
  asks_for, Pollutes, DrawsPower, NeedsFireSafety, NeedsFactorySafety, NeedsLabourRegistration,
  plan_asks_for_what_is_needed,
}

abbrev factory : Form
factory = record {
  pollution_category = "white";
  effluent_generated = false;
  emissions_generated = false;
  hazardous_waste_generated = false;
  water_requirement_kld = 6;
  power_requirement_kw = 40;
  connected_load_kw = 0;
  contract_demand_kva = 0;
  transformer_required = false;
  fire_noc_required = false;
  building_height_m = 9;
  storage_of_flammables = false;
  occupancy_type = "office";
  factory_license_required = false;
  machinery_installed = false;
  boilers = false;
  pressure_vessels = false;
  hazardous_process = false;
  employee_count = 12;
  contract_labour_count = 0;
  interstate_migrant_workers = false;
  shops_establishment_required = false;
  labour_registration_required = false;
}

abbrev application : Application
application = record {
  case_id = 7;
  universal_case_id = some "US360-7";
  priority = none;
  correlation_id = none;
}

plan_asks_for_what_is_needed_example :
    ((asks_for "pollution" (calculate_approval_tracks factory) ≡ true) ↔ Pollutes factory)
    × ((asks_for "power" (calculate_approval_tracks factory) ≡ true) ↔ DrawsPower factory)
    × ((asks_for "fire" (calculate_approval_tracks factory) ≡ true) ↔ NeedsFireSafety factory)
    × ((asks_for "industrial_safety" (calculate_approval_tracks factory) ≡ true)
        ↔ NeedsFactorySafety factory)
    × ((asks_for "labour" (calculate_approval_tracks factory) ≡ true)
        ↔ NeedsLabourRegistration factory)
plan_asks_for_what_is_needed_example = plan_asks_for_what_is_needed factory
