-- ===== src/Workflows/Generate/Complete.antt =====
-- Which tests of the configuration have a job in the workflow for the stable flavor.
use mathlib.Core.Option.{get_or}
use irctest.Base.{
  ◌≡◌, ◌≢◌, ◌⊎◌, inl, inr, true, false, Option, none, some, List, [], ◌∷◌, String, ◌<>◌, arith, All,
  contains, string_eq, Bool-cases, Option-cases,
}
use irctest.Base.Dict.{Dict, get, insert, keys, contains-keys-insert, contains-keys-insert_same}
use irctest.Result.{ok, Result-cases}
use irctest.Workflows.Config.{
  VersionFlavor, stable, SoftwareConfig, TestConfig, Config, Job, Jobs, Workflow, flavor_eq,
  flavor_value,
}
use irctest.Workflows.Steps.{get_install_steps}
use irctest.Workflows.Jobs.{Collected, collect_one, collect, start, finish_test_job, get_test_job}
use irctest.Workflows.Generate.{
  add_job, add_build_jobs, add_test_jobs, add_publish_job, generate_workflow,
}

-- Some listed software would be built in the job itself, and has no version of the flavor.
abbrev pub IsUnavailable : Config → VersionFlavor → List String → Type 0
IsUnavailable config flavor [] = ⊥
IsUnavailable config flavor (id ∷ ids) =
    ((s : SoftwareConfig) × (get config.software id ≡ some s)
      × (s.separate_build_job ≡ false)
      × (get_install_steps s flavor ≡ ok none))
    ⊎ IsUnavailable config flavor ids

-- The test is excluded from the flavor, or its software is not available.
abbrev pub IsSkipped : Config → VersionFlavor → TestConfig → Type 0
IsSkipped config flavor test =
    (contains (get_or test.exclude_versions []) (flavor_value flavor) ≡ true)
    ⊎ IsUnavailable config flavor (get_or test.software [])

abbrev pub HasJob : Jobs → String → Type 0
HasJob jobs test_id = contains (keys jobs) ("test-" <> test_id) ≡ true

collect_one-none :
    (s : SoftwareConfig) (id : String) (flavor : VersionFlavor) (c : Collected)
    → collect_one s id flavor c ≡ ok none
    → (s.separate_build_job ≡ false) × (get_install_steps s flavor ≡ ok none)
unfolding collect_one
collect_one-none s id flavor c h = ground arith

collect-none :
    (config : Config) (flavor : VersionFlavor) (ids : List String) (c : Collected)
    → collect config flavor ids c ≡ ok none
    → IsUnavailable config flavor ids
unfolding collect
collect-none config flavor [] c h = absurd (ground arith)
collect-none config flavor (id ∷ ids) c h = elim (Option-cases (get config.software id)) [
  | inl e ↦ absurd (ground arith)
  | inr (s, e) ↦ elim (Result-cases (collect_one s id flavor c)) [
    | inl (none, f) ↦
        let (separate, steps) = collect_one-none s id flavor c f in inl (s, e, separate, steps)
    | inl (some c', f) ↦ inr (collect-none config flavor ids c' (ground arith))
    | inr (x, f) ↦ absurd (ground arith)
  ]
]

finish_test_job-stable :
    (test_id : String) (names : List String) (c : Collected)
    → finish_test_job test_id stable names c ≢ ok none
unfolding finish_test_job
finish_test_job-stable test_id names c h = ground arith

get_test_job-none :
    (config : Config) (test : TestConfig) (test_id : String) (names : List String)
    → get_test_job config test test_id stable names ≡ ok none
    → IsSkipped config stable test
unfolding get_test_job
get_test_job-none config test test_id names h =
    elim (Bool-cases (contains (get_or test.exclude_versions []) (flavor_value stable))) [
      | inl e ↦ inl e
      | inr e ↦ elim (Result-cases (collect config stable (get_or test.software []) start)) [
        | inl (none, f) ↦ inr (collect-none config stable (get_or test.software []) start f)
        | inl (some c, f) ↦ absurd (finish_test_job-stable test_id names c (ground arith))
        | inr (x, f) ↦ absurd (ground arith)
      ]
    ]

-- What has a job keeps it.
add_job-keeps :
    (k n : String) (job : Option Job) (jobs : Jobs)
    → contains (keys jobs) n ≡ true
    → contains (keys (add_job k job jobs)) n ≡ true
add_job-keeps k n none jobs h = h
add_job-keeps k n (some job) jobs h = contains-keys-insert k job jobs n h

add_test_jobs-keeps :
    (config : Config) (flavor : VersionFlavor) (tests : Dict String TestConfig) (jobs jobs' : Jobs)
    (n : String)
    → add_test_jobs config flavor tests jobs ≡ ok jobs'
    → contains (keys jobs) n ≡ true
    → contains (keys jobs') n ≡ true
unfolding add_test_jobs
add_test_jobs-keeps config flavor [] jobs jobs' n h e =
    let same : jobs ≡ jobs' = cc in rw (← same) e
add_test_jobs-keeps config flavor ((id, t) ∷ rest) jobs jobs' n h e =
    elim (Result-cases (get_test_job config t id flavor (keys jobs))) [
      | inl (job, f) ↦
          add_test_jobs-keeps config flavor rest (add_job ("test-" <> id) job jobs) jobs' n
            (rw f at h) (add_job-keeps ("test-" <> id) n job jobs e)
      | inr (x, f) ↦ absurd (ground arith)
    ]

abbrev IsCovered : Config → Jobs → Dict String TestConfig → Type 0
IsCovered config jobs =
    All (λ (entry : String × TestConfig). IsSkipped config stable entry.1 ⊎ HasJob jobs entry.0)

add_test_jobs-IsCovered :
    (config : Config) (tests : Dict String TestConfig) (jobs jobs' : Jobs)
    → add_test_jobs config stable tests jobs ≡ ok jobs'
    → IsCovered config jobs' tests
unfolding add_test_jobs
add_test_jobs-IsCovered config [] jobs jobs' h = tt
add_test_jobs-IsCovered config ((id, t) ∷ rest) jobs jobs' h =
    elim (Result-cases (get_test_job config t id stable (keys jobs))) [
      | inl (none, f) ↦ (
        inl (get_test_job-none config t id (keys jobs) f),
        add_test_jobs-IsCovered config rest jobs jobs' (rw f at h),
      )
      | inl (some job, f) ↦ (
        inr (
            add_test_jobs-keeps config stable rest (insert ("test-" <> id) job jobs) jobs'
              ("test-" <> id) (rw f at h) (contains-keys-insert_same ("test-" <> id) job jobs)),
        add_test_jobs-IsCovered config rest (insert ("test-" <> id) job jobs) jobs' (rw f at h),
      )
      | inr (x, f) ↦ absurd (ground arith)
    ]

IsCovered-insert :
    (config : Config) (k : String) (job : Job) (jobs : Jobs) (tests : Dict String TestConfig)
    → IsCovered config jobs tests
    → IsCovered config (insert k job jobs) tests
IsCovered-insert config k job jobs [] h = tt
IsCovered-insert config k job jobs ((id, t) ∷ tests) (inl s, h) =
    (inl s, IsCovered-insert config k job jobs tests h)
IsCovered-insert config k job jobs ((id, t) ∷ tests) (inr s, h) = (
  inr (contains-keys-insert k job jobs ("test-" <> id) s),
  IsCovered-insert config k job jobs tests h,
)

-- If the stable workflow is generated, every test of the configuration has its job, unless it is
-- excluded from the flavor or lists software that is built in the job and has no stable version.
pub generate_workflow-IsCovered :
    (config : Config) (workflow : Workflow)
    → generate_workflow config stable ≡ ok workflow
    → All
        (λ (entry : String × TestConfig).
          IsSkipped config stable entry.1 ⊎ HasJob workflow.jobs entry.0)
        config.tests
unfolding generate_workflow
generate_workflow-IsCovered config workflow h =
    elim (Result-cases (add_build_jobs stable config.software [])) [
      | inl (built, f) ↦ elim (Result-cases (add_test_jobs config stable config.tests built)) [
        | inl (jobs, g) ↦
            let same : add_publish_job config jobs ≡ workflow.jobs = ground arith in
            rw (← same) (
              IsCovered-insert config "publish-test-results" _ jobs config.tests
                (add_test_jobs-IsCovered config config.tests built jobs g))
        | inr (x, g) ↦ absurd (ground arith)
      ]
      | inr (x, f) ↦ absurd (ground arith)
    ]
