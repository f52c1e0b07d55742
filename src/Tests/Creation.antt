-- ===== src/Tests/Creation.antt =====
-- The creation of tasks by the API.
use tapis_workflows.Base.{true, false, none, some, [], ◌∷◌}
use tapis_workflows.TaskService.{TaskRow, TaskService, TaskRequest, Calls}

-- One task, with its context
abbrev old_task : TaskRow
old_task = record { pipeline = 0; id = "build"; context = some 9; destination = none }

abbrev service : TaskService
service = record {
  rows = record {
    credentials = [];
    contexts = record { uuid = 9; credentials = none; identity = none } ∷ [];
    destinations = [];
    tasks = old_task ∷ [];
  };
  rollbacks = [];
}

-- Everything is made but the task.
abbrev lost : Calls
lost = record {
  identities = [];
  context_secret = some 1;
  context_row = some 2;
  destination_secret = some 3;
  destination_valid = true;
  destination_row = some 4;
  task_saved = false;
  secret_deleted = λ _. true;
}

abbrev image_build : TaskRequest
image_build = record {
  id = "image";
  is_image_build = true;
  context = some (record { identity_uuid = none; has_credentials = true });
  destination = some (record { identity_uuid = none; has_credentials = true });
}

abbrev made : Calls
made = record lost { task_saved = true }

abbrev image_task : TaskRow
image_task = record { pipeline = 0; id = "image"; context = some 2; destination = some 4 }

-- The identity of the next request is not there.
abbrev unknown : TaskRequest
unknown = record {
  id = "other";
  is_image_build = true;
  context = some (record { identity_uuid = some "nobody"; has_credentials = false });
  destination = none;
}
