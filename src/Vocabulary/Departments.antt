-- ===== src/Vocabulary/Departments.antt =====
-- packages/shared/src/constants/department.constants.js: the departments.
use Prim.Native.String.{String}

abbrev pub pollution : String
pollution = "pollution"

abbrev pub power : String
power = "power"

abbrev pub fire : String
fire = "fire"

abbrev pub industrial_safety : String
industrial_safety = "industrial_safety"

abbrev pub labour : String
labour = "labour"
