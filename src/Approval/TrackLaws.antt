-- ===== src/Approval/TrackLaws.antt =====
-- What the plan for a common application form promises.
use udyog_setu.Common.{
  ℕ, String, Option, Bool, true, false, List, [], ◌∷◌, ◌++◌, ◌≤◌, map, includes, any, ◌≡◌, refl, ap,
  arith, Bool-cases, inl, inr, All, eq_iff, length, ◌⊎◌, ◌↔◌, str_eq,
}
use udyog_setu.Approval.Tracks.{
  Form, Track, Plan, Application, unique, unique_after, build_track, pollution_needed, power_needed,
  fire_needed, industrial_safety_needed, labour_needed, require, collect, calculate_approval_tracks,
  all_attachments, get_required_attachments, build_initial_task, build_initial_tasks,
}

-- Whether the plan asks for a department.
unfoldable pub asks_for : String → Plan → Bool
asks_for code plan = any (λ r. str_eq r.department_code code) plan.required_departments

asks_for_needed :
    (f : Form)
    → let plan = calculate_approval_tracks f in
      (asks_for "pollution" plan ≡ pollution_needed f)
      × (asks_for "power" plan ≡ power_needed f)
      × (asks_for "fire" plan ≡ fire_needed f)
      × (asks_for "industrial_safety" plan ≡ industrial_safety_needed f)
      × (asks_for "labour" plan ≡ labour_needed f)
unfolding calculate_approval_tracks collect require asks_for
asks_for_needed f = ground arith

-- The criteria of the five departments, apart from the code.
abbrev pub Pollutes : Form → Type 0
Pollutes f =
    (f.pollution_category ≡ "red")
    ⊎ (f.pollution_category ≡ "orange")
    ⊎ (f.pollution_category ≡ "green")
    ⊎ (f.effluent_generated ≡ true)
    ⊎ (f.emissions_generated ≡ true)
    ⊎ (f.hazardous_waste_generated ≡ true)
    ⊎ (6 ≤ f.water_requirement_kld)

abbrev pub DrawsPower : Form → Type 0
DrawsPower f =
    (1 ≤ f.power_requirement_kw)
    ⊎ (1 ≤ f.connected_load_kw)
    ⊎ (1 ≤ f.contract_demand_kva)
    ⊎ (f.transformer_required ≡ true)

abbrev pub NeedsFireSafety : Form → Type 0
NeedsFireSafety f =
    (f.fire_noc_required ≡ true)
    ⊎ (15 ≤ f.building_height_m)
    ⊎ (f.storage_of_flammables ≡ true)
    ⊎ (f.occupancy_type ≡ "industrial")
    ⊎ (f.occupancy_type ≡ "warehouse")
    ⊎ (f.occupancy_type ≡ "public")

abbrev pub NeedsFactorySafety : Form → Type 0
NeedsFactorySafety f =
    (f.factory_license_required ≡ true)
    ⊎ (f.machinery_installed ≡ true)
    ⊎ (f.boilers ≡ true)
    ⊎ (f.pressure_vessels ≡ true)
    ⊎ (f.hazardous_process ≡ true)
    ⊎ (10 ≤ f.employee_count)

abbrev pub NeedsLabourRegistration : Form → Type 0
NeedsLabourRegistration f =
    (10 ≤ f.employee_count)
    ⊎ (1 ≤ f.contract_labour_count)
    ⊎ (f.interstate_migrant_workers ≡ true)
    ⊎ (f.shops_establishment_required ≡ true)
    ⊎ (f.labour_registration_required ≡ true)

category_iff :
    (a b c s : String) → (includes (a ∷ b ∷ c ∷ []) s ≡ true) ↔ ((s ≡ a) ⊎ (s ≡ b) ⊎ (s ≡ c))
category_iff a b c s = ground (arith, eq_iff a s, eq_iff b s, eq_iff c s)

pollution_iff : (f : Form) → (pollution_needed f ≡ true) ↔ Pollutes f
unfolding pollution_needed
pollution_iff f = ground (arith, category_iff "red" "orange" "green" f.pollution_category)

power_iff : (f : Form) → (power_needed f ≡ true) ↔ DrawsPower f
unfolding power_needed
power_iff f = ground arith

fire_iff : (f : Form) → (fire_needed f ≡ true) ↔ NeedsFireSafety f
unfolding fire_needed
fire_iff f = ground (arith, category_iff "industrial" "warehouse" "public" f.occupancy_type)

industrial_safety_iff : (f : Form) → (industrial_safety_needed f ≡ true) ↔ NeedsFactorySafety f
unfolding industrial_safety_needed
industrial_safety_iff f = ground arith

labour_iff : (f : Form) → (labour_needed f ≡ true) ↔ NeedsLabourRegistration f
unfolding labour_needed
labour_iff f = ground arith

-- The plan asks for each of the five departments exactly when the form meets one of that department's
-- criteria: the categories, marks and thresholds written out.
pub plan_asks_for_what_is_needed :
    (f : Form)
    → let plan = calculate_approval_tracks f in
      ((asks_for "pollution" plan ≡ true) ↔ Pollutes f)
      × ((asks_for "power" plan ≡ true) ↔ DrawsPower f)
      × ((asks_for "fire" plan ≡ true) ↔ NeedsFireSafety f)
      × ((asks_for "industrial_safety" plan ≡ true) ↔ NeedsFactorySafety f)
      × ((asks_for "labour" plan ≡ true) ↔ NeedsLabourRegistration f)
plan_asks_for_what_is_needed f =
    let asked = asks_for_needed f in
    rw (asked.0, asked.1, asked.2, asked.3, asked.4)
      (pollution_iff f, power_iff f, fire_iff f, industrial_safety_iff f, labour_iff f)

-- The departments of the tracks are those of the requirements, in the same order, and at most five.
pub tracks_match_departments :
    (f : Form)
    → let plan = calculate_approval_tracks f in
      (map (λ t. t.department_code) plan.approval_tracks
        ≡ map (λ r. r.department_code) plan.required_departments)
      × (length plan.approval_tracks ≤ 5)
unfolding calculate_approval_tracks collect require build_track
tracks_match_departments f = ground arith

-- A form with ten employees or more needs both the safety clearance and the labour registration.
pub ten_employees_need_both :
    (f : Form)
    → 10 ≤ f.employee_count
    → let plan = calculate_approval_tracks f in
      (asks_for "industrial_safety" plan ≡ true) × (asks_for "labour" plan ≡ true)
unfolding industrial_safety_needed labour_needed
ten_employees_need_both f h = ground (arith, asks_for_needed f)

unique_after-includes :
    (seen xs : List String) (x : String)
    → includes seen x ≡ false
    → includes (unique_after seen xs) x ≡ includes xs x
unfolding unique_after
unique_after-includes seen [] x h = refl
unique_after-includes seen (y ∷ ys) x h =
    let later = unique_after-includes seen ys x h in
    elim (Bool-cases (includes seen y)) [
      | inl known ↦ elim (Bool-cases (str_eq y x)) [
        | inl same ↦ absurd (ground (arith, ap (includes seen) ((eq_iff y x).0 same)))
        | inr other ↦ ground arith
      ]
      | inr new ↦ elim (Bool-cases (str_eq y x)) [
        | inl same ↦ ground arith
        | inr other ↦ ground (arith, unique_after-includes (y ∷ seen) ys x (ground arith))
      ]
    ]

unique-includes : (xs : List String) (x : String) → includes (unique xs) x ≡ includes xs x
unfolding unique
unique-includes xs x = unique_after-includes [] xs x refl

-- The attachments that the plan lists are those that its tracks ask for, and the project report.
pub attachments_agree :
    (f : Form) (x : String)
    → let plan = calculate_approval_tracks f in
      includes plan.required_attachments x
      ≡ includes (get_required_attachments plan.approval_tracks) x
unfolding calculate_approval_tracks collect require build_track get_required_attachments
    all_attachments
attachments_agree f x = ground (
  arith,
  unique-includes (collect f).required_attachments x,
  unique-includes (all_attachments (collect f).approval_tracks ++ "project_report" ∷ []) x,
)

-- Each track gets one task, due after its days of service, with a warning before, and with what the
-- track asks to be attached.
pub initial_tasks_follow_tracks :
    (now : ℕ) (c : Application) (tracks : List Track) (correlation_id : Option String)
    → (length (build_initial_tasks now c tracks correlation_id) ≡ length tracks)
      × (map (λ t. t.department_code) (build_initial_tasks now c tracks correlation_id)
          ≡ map (λ t. t.department_code) tracks)
      × All
          (λ t. (now ≤ t.warning_at) × (t.warning_at ≤ t.due_at))
          (build_initial_tasks now c tracks correlation_id)
unfolding build_initial_tasks build_initial_task
initial_tasks_follow_tracks now c [] correlation_id = (refl, refl, tt)
initial_tasks_follow_tracks now c (t ∷ ts) correlation_id =
    let (same_length, same_codes, times) = initial_tasks_follow_tracks now c ts correlation_id in
    (ground arith, ground (arith, same_codes), ((omega arith, omega arith), times))
