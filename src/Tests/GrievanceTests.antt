-- ===== src/Tests/GrievanceTests.antt =====
-- Grievances at concrete documents.
use mathlib.Core.Bool.{true≢false}
use udyog_setu.Common.{ap, sym, is_some, none, some, true, List, [], ◌∷◌, refl, All}
use udyog_setu.Store.{logged}
use udyog_setu.Store.Updates.{Stored}
use udyog_setu.Grievances.Records.{
  Grievance, grievance_id, Context, Message, internal, investor_visible,
}
use udyog_setu.Grievances.Service.{Input, World, created_grievance}
use udyog_setu.Grievances.Reading.{User, Filters, get_grievance_detail, list_grievances}
use udyog_setu.Grievances.HistoryLaws.{
  IsTracked, Operation, create, acknowledge, comment, close, perform_all, history_is_a_chain,
}
use udyog_setu.Grievances.AccessLaws.{AllShown, AnswerShown, internal_messages_stay_internal}

abbrev context : Context
context = record {
  now = 50;
  user_id = some "u1";
  role = some "investor";
  department_code = none;
  correlation_id = none;
  message_id = "m1";
}

abbrev input : Input
input = record {
  grievance_number = "GRV-1";
  case_id = none;
  universal_case_id = none;
  task_id = none;
  organisation_id = some "o1";
  raised_by = none;
  raised_by_role = none;
  department_code = some "fire";
  category = "delay";
  subject = "No answer";
  description = "None for a month";
  priority = none;
  source = none;
  due_at = some 90000000;
  attachments = [];
}

abbrev grievance : Grievance
grievance = created_grievance (λ p. 5) 3 input context

abbrev note : Message
note = record {
  message_id = "m1";
  author_user_id = some "u2";
  author_role = some "department_officer";
  author_department_code = some "fire";
  body = "Check the file";
  visibility = internal;
  attachments = [];
  created_at = 60;
}

abbrev answer : Message
answer = record note { message_id = "m2"; visibility = investor_visible }

abbrev discussed : Grievance
discussed = record grievance { messages = note ∷ answer ∷ [] }

abbrev world : Grievance → World (logged Grievance grievance_id)
world g = record { grievances = g ∷ []; effects = [] }

abbrev empty_world : World (logged Grievance grievance_id)
empty_world = record { grievances = []; effects = [] }

abbrev operations : List Operation
operations =
    create (λ p. 5) 3 input context
    ∷ acknowledge 3 context
    ∷ comment 3 (record { body = "Check"; visibility = none; attachments = [] }) context
    ∷ close 3 (some "answered") none context
    ∷ []

history_is_a_chain_example :
    Stored
      (logged Grievance grievance_id)
      IsTracked
      (perform_all (logged Grievance grievance_id) operations empty_world).grievances
history_is_a_chain_example =
    history_is_a_chain (logged Grievance grievance_id) operations empty_world
      (λ k d found. absurd (true≢false (ap is_some (sym found))))

abbrev investor : User
investor = record {
  primary_role = some "investor";
  role = none;
  organisation_id = some "o1";
  department_code = none;
}

abbrev all_of_them : Filters
all_of_them = record {
  is_deleted = none;
  organisation_id = none;
  department_code = none;
  others = λ g. true;
}

internal_messages_stay_internal_example :
    AnswerShown
      (logged Grievance grievance_id)
      (get_grievance_detail (logged Grievance grievance_id) investor 3 (world discussed).grievances)
    × All AllShown (
        list_grievances
          (logged Grievance grievance_id)
          investor
          all_of_them
          (world discussed).grievances)
internal_messages_stay_internal_example =
    internal_messages_stay_internal (logged Grievance grievance_id) investor 3 all_of_them
      (world discussed).grievances refl
