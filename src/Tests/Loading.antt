-- ===== src/Tests/Loading.antt =====
-- A container with one singleton, and a service with rollbacks.
use tapis_workflows.Base.{ℕ, []}
use tapis_workflows.Container.{Container}

abbrev bare : Container ℕ
bare = record { configurations = []; cache = [] }
