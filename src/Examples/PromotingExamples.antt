-- ===== src/Examples/PromotingExamples.antt =====
-- internal/server/promote.go: Promote over a directory of small files, into an environment that
-- does not have the flag yet.
use goff_studio.Base.{
  ℕ, ◌==◌, text_eq, none, some, List, [], ◌∷◌, if◌then◌else◌, Text, codes, Result, ok, length,
  is_empty, ltb, ◌+◌, ◌-◌, ◌*◌, ◌/◌,
}
use goff_studio.Storage.FileBackend.{Disk}
use goff_studio.Service.{Failure, Studio}
use goff_studio.Service.Memory.{State}
use goff_studio.Service.Files.{files}
use goff_studio.Service.Promoting.{PromoteRequest}
use goff_studio.Promote.{Clock}
use goff_studio.Examples.OneLine.{studio_of, root, hash_of, no_faults, start_with}

abbrev listed_in : Text → Disk → Result Failure (List Text)
listed_in dir disk = if dir == codes "dev" then ok (codes "dev/core.goff.yaml" ∷ []) else ok []

abbrev by_team : Studio ℕ Text ℕ Disk
by_team = record (studio_of (codes "team-files")) {
  backend = files hash_of root no_faults listed_in;
}

abbrev start : State ℕ Text ℕ Disk
start = record (start_with (codes "+beta")) {
  environments = some (codes "dev" ∷ codes "prod" ∷ [], 0);
}

abbrev days : Clock ℕ ℕ
days = record {
  parse = λ date. if is_empty date then none else some (length date);
  after = λ a b. ltb b a;
  seconds = λ a b. a - b;
  hundred = 100;
  plus = λ a b. a + b;
  minus = λ a b. a - b;
  times = λ a b. a * b;
  divided = λ a b. a / b;
}

abbrev to_prod : PromoteRequest
to_prod = record {
  key = codes "beta";
  from_environment = codes "dev";
  to_environment = codes "prod";
  team = [];
  fields = codes "rules" ∷ [];
  file_sha = [];
}
