-- ===== src/Engine/Tests.antt =====
-- Runs of the engine's setup.
use filedrop.Base.{
  ℕ, list_eq, nat_eq, ◌==◌, ◌≡◌, refl, ap, Option, none, some, List, [], ◌∷◌, if◌then◌else◌, Text,
  text,
}
use filedrop.Errors.{io, serde, ok, err}
use filedrop.Engine.{Disk, init}
use filedrop.Storage.History.{Json}

abbrev json : Json
json = record { to_vec_pretty = λ l. ok []; from_slice = λ raw. err (serde (text "no json")) }

-- The staging directory cannot be created.
abbrev full : Disk
full = record {
  create_dir_all = λ dir. if dir == text "/d/staging" then some (text "disk full") else none;
  read_fault = none;
  content = λ path. none;
}

-- The setup fails, and leaves the directories before it.
disk_full :
    init json full 1 (text "desk") (text "/d")
    ≡ (err (io (text "disk full")), text "/d" ∷ text "/d/received" ∷ [])
unfolding init list_eq filedrop.Base.ℕ_discrete
disk_full = refl
