-- ===== src/Workflows/Config.antt =====
-- `VersionFlavor`, the parts of `workflows.yml` that `make_workflows.py` reads, and what it writes.
use irctest.Base.{ℕ, Bool, Option, List, String, Eq}
use irctest.Base.Dict.{Dict}

pub data VersionFlavor : Type 0 where
  stable release devel devel_release : VersionFlavor

flavor_discrete : Discrete VersionFlavor
flavor_discrete = hlevel

instance unfoldable pub flavor_eq : Eq VersionFlavor
unfolding flavor_discrete
flavor_eq = record { dec = flavor_discrete }

-- `version_flavor.value`
unfoldable pub flavor_value : VersionFlavor → String
flavor_value stable = "stable"
flavor_value release = "release"
flavor_value devel = "devel"
flavor_value devel_release = "devel_release"

-- The scalars of YAML that occur; `script` is a string that is written as a block, and `float` a
-- number by its digits.
pub data Scalar : Type 0 where
  str script float : String → Scalar
  int : ℕ → Scalar

pub data Field : Type 0 where
  scalar : Scalar → Field
  fields : Dict String Scalar → Field

-- A step of a job.
abbrev pub Step : Type 0
Step = Dict String Field

-- A mapping with one entry for each flavor, which may be `null`.
abbrev pub ByFlavor : Type 0 → Type 0
ByFlavor A = Dict VersionFlavor (Option A)

pub record Repository : Type 0 where
  pub repository : String
  pub refs : ByFlavor String
  pub path : String
  pub submodules : Option String
  pub pre_deps : Option (List Step)
  pub build_script : String

-- Whether `"install_steps" in software_config`.
pub data Origin : Type 0 where
  install_steps : ByFlavor (List Step) → Origin
  checkout : Repository → Origin

pub record SoftwareConfig : Type 0 where
  pub name : String
  pub origin : Origin
  pub separate_build_job : Bool
  pub cache : Option Bool
  pub env : Option (Dict String Scalar)
  pub prefix : Option String
  pub extra_deps : Option (List String)

pub record TestConfig : Type 0 where
  pub software : Option (List String)
  pub exclude_versions : Option (List String)

pub record Config : Type 0 where
  pub software : Dict String SoftwareConfig
  pub tests : Dict String TestConfig

-- A job. `condition` is its `if`.
pub record Job : Type 0 where
  pub name : Option String
  pub runs_on : String
  pub needs : Option (List String)
  pub condition : Option String
  pub steps : List Step

abbrev pub Jobs : Type 0
Jobs = Dict String Job

-- What starts a workflow: any event, changes of some files, times, or a person.
pub data Trigger : Type 0 where
  always : Trigger
  paths crons : List String → Trigger

pub record Workflow : Type 0 where
  pub name : String
  pub on : Dict String Trigger
  pub jobs : Jobs
