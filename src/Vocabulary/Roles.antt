-- ===== src/Vocabulary/Roles.antt =====
-- packages/shared/src/constants/user-role.constants.js: the roles of users. A role in a token may be any text.
use Prim.Native.String.{String}

abbrev pub investor : String
investor = "investor"

abbrev pub department_officer : String
department_officer = "department_officer"

abbrev pub department_supervisor : String
department_supervisor = "department_supervisor"

abbrev pub nodal_officer : String
nodal_officer = "nodal_officer"

abbrev pub admin : String
admin = "admin"

abbrev pub auditor : String
auditor = "auditor"

abbrev pub system : String
system = "system"
