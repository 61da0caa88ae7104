-- ===== src/Workflows/Generate/Needs.antt =====
-- Every job that a job of a generated workflow needs is a job of that workflow.
use mathlib.Core.Option.{get_or}
use irctest.Base.{
  ◌≡◌, refl, true, Option, none, some, inl, inr, List, [], ◌∷◌, String, ◌<>◌, arith, All, contains,
  string_eq, ◌==◌, Bool-cases,
}
use irctest.Base.Dict.{Dict, insert, keys, contains-keys-insert}
use irctest.Result.{ok, Result-cases}
use irctest.Workflows.Config.{
  VersionFlavor, SoftwareConfig, TestConfig, Config, Job, Jobs, Workflow, flavor_eq, flavor_value,
}
use irctest.Workflows.Steps.{get_build_job}
use irctest.Workflows.Jobs.{Collected, collect, start, is_subset, finish_test_job, get_test_job}
use irctest.Workflows.Generate.{
  add_job, add_build_jobs, add_test_jobs, insert_sorted, published, publish_job, add_publish_job,
  generate_workflow,
}

-- All the names are among the others.
abbrev pub AreAmong : List String → List String → Type 0
AreAmong others = All (λ n. contains others n ≡ true)

abbrev pub NeedsAmong : List String → Option (List String) → Type 0
NeedsAmong names none = Unit {0}
NeedsAmong names (some needs) = AreAmong names needs

abbrev pub NeedsIn : List String → Job → Type 0
NeedsIn names job = NeedsAmong names job.needs

abbrev pub EachNeedsIn : List String → Jobs → Type 0
EachNeedsIn names = All (λ (entry : String × Job). NeedsIn names entry.1)

-- Each job needs jobs of the same workflow only.
abbrev pub IsClosed : Jobs → Type 0
IsClosed jobs = EachNeedsIn (keys jobs) jobs

AreAmong-insert :
    (k : String) (job : Job) (jobs : Jobs) (names : List String)
    → AreAmong (keys jobs) names
    → AreAmong (keys (insert k job jobs)) names
AreAmong-insert k job jobs [] h = tt
AreAmong-insert k job jobs (n ∷ names) h =
    (contains-keys-insert k job jobs n h.0, AreAmong-insert k job jobs names h.1)

NeedsIn-insert :
    (k : String) (job : Job) (jobs : Jobs) (needs : Option (List String))
    → NeedsAmong (keys jobs) needs
    → NeedsAmong (keys (insert k job jobs)) needs
NeedsIn-insert k job jobs none h = tt
NeedsIn-insert k job jobs (some names) h = AreAmong-insert k job jobs names h

EachNeedsIn-weaken :
    (k : String) (job : Job) (jobs some_jobs : Jobs)
    → EachNeedsIn (keys jobs) some_jobs
    → EachNeedsIn (keys (insert k job jobs)) some_jobs
EachNeedsIn-weaken k job jobs [] h = tt
EachNeedsIn-weaken k job jobs ((j, other) ∷ rest) h =
    (NeedsIn-insert k job jobs other.needs h.0, EachNeedsIn-weaken k job jobs rest h.1)

EachNeedsIn-insert :
    (names : List String) (k : String) (job : Job) (jobs : Jobs)
    → NeedsIn names job
    → EachNeedsIn names jobs
    → EachNeedsIn names (insert k job jobs)
unfolding insert
EachNeedsIn-insert names k job [] h e = (h, tt)
EachNeedsIn-insert names k job ((j, other) ∷ jobs) h e = elim (Bool-cases (j == k)) [
  | inl same ↦ rw same (h, e.1)
  | inr differ ↦ rw differ (e.0, EachNeedsIn-insert names k job jobs h e.1)
]

IsClosed-insert :
    (k : String) (job : Job) (jobs : Jobs)
    → NeedsIn (keys jobs) job
    → IsClosed jobs
    → IsClosed (insert k job jobs)
IsClosed-insert k job jobs h e =
    EachNeedsIn-insert (keys (insert k job jobs)) k job jobs (NeedsIn-insert k job jobs job.needs h)
      (EachNeedsIn-weaken k job jobs jobs e)

is_subset-AreAmong :
    (names others : List String) → is_subset names others ≡ true → AreAmong others names
unfolding is_subset
is_subset-AreAmong [] others h = tt
is_subset-AreAmong (n ∷ names) others h =
    (ground arith, is_subset-AreAmong names others (ground arith))

add_job-IsClosed :
    (k : String) (job : Option Job) (jobs : Jobs)
    → ((j : Job) → job ≡ some j → NeedsIn (keys jobs) j)
    → IsClosed jobs
    → IsClosed (add_job k job jobs)
add_job-IsClosed k none jobs h e = e
add_job-IsClosed k (some job) jobs h e = IsClosed-insert k job jobs (h job refl) e

-- A build job needs no other.
get_build_job-needs :
    (software : SoftwareConfig) (software_id : String) (flavor : VersionFlavor) (job : Job)
    → get_build_job software software_id flavor ≡ ok (some job)
    → job.needs ≡ none
unfolding get_build_job
get_build_job-needs software software_id flavor job h = ground arith

finish_test_job-needs :
    (test_id : String) (flavor : VersionFlavor) (names : List String) (c : Collected) (job : Job)
    → finish_test_job test_id flavor names c ≡ ok (some job)
    → (is_subset c.needs names ≡ true) × (job.needs ≡ some c.needs)
unfolding finish_test_job
finish_test_job-needs test_id flavor names c job h = ground arith

get_test_job-NeedsIn :
    (config : Config) (test : TestConfig) (test_id : String) (flavor : VersionFlavor)
    (names : List String) (job : Job)
    → get_test_job config test test_id flavor names ≡ ok (some job)
    → NeedsIn names job
unfolding get_test_job
get_test_job-NeedsIn config test test_id flavor names job h =
    elim (Bool-cases (contains (get_or test.exclude_versions []) (flavor_value flavor))) [
      | inl e ↦ absurd (ground arith)
      | inr e ↦ elim (Result-cases (collect config flavor (get_or test.software []) start)) [
        | inl (none, f) ↦ absurd (ground arith)
        | inl (some c, f) ↦
            let (subset, needs) = finish_test_job-needs test_id flavor names c job (ground arith) in
            rw needs (is_subset-AreAmong c.needs names subset)
        | inr (x, f) ↦ absurd (ground arith)
      ]
    ]

add_build_jobs-IsClosed :
    (flavor : VersionFlavor) (software : Dict String SoftwareConfig) (jobs jobs' : Jobs)
    → add_build_jobs flavor software jobs ≡ ok jobs'
    → IsClosed jobs
    → IsClosed jobs'
unfolding add_build_jobs
add_build_jobs-IsClosed flavor [] jobs jobs' h e = let same : jobs ≡ jobs' = cc in rw (← same) e
add_build_jobs-IsClosed flavor ((id, s) ∷ rest) jobs jobs' h e =
    elim (Result-cases (get_build_job s id flavor)) [
      | inl (job, f) ↦
          add_build_jobs-IsClosed flavor rest (add_job ("build-" <> id) job jobs) jobs' (rw f at h)
            (add_job-IsClosed ("build-" <> id) job jobs
              (λ j g. rw (get_build_job-needs s id flavor j (rw (f, g))) tt) e)
      | inr (x, f) ↦ absurd (ground arith)
    ]

add_test_jobs-IsClosed :
    (config : Config) (flavor : VersionFlavor) (tests : Dict String TestConfig) (jobs jobs' : Jobs)
    → add_test_jobs config flavor tests jobs ≡ ok jobs'
    → IsClosed jobs
    → IsClosed jobs'
unfolding add_test_jobs
add_test_jobs-IsClosed config flavor [] jobs jobs' h e =
    let same : jobs ≡ jobs' = cc in rw (← same) e
add_test_jobs-IsClosed config flavor ((id, t) ∷ rest) jobs jobs' h e =
    elim (Result-cases (get_test_job config t id flavor (keys jobs))) [
      | inl (job, f) ↦
          add_test_jobs-IsClosed config flavor rest (add_job ("test-" <> id) job jobs) jobs'
            (rw f at h)
            (add_job-IsClosed ("test-" <> id) job jobs
              (λ j g. get_test_job-NeedsIn config t id flavor (keys jobs) j (rw (f, g))) e)
      | inr (x, f) ↦ absurd (ground arith)
    ]

insert_sorted-AreAmong :
    (names : List String) (s : String) (sorted : List String)
    → contains names s ≡ true
    → AreAmong names sorted
    → AreAmong names (insert_sorted s sorted)
unfolding insert_sorted
insert_sorted-AreAmong names s [] h e = (h, tt)
insert_sorted-AreAmong names s (t ∷ ts) h e =
    ground (arith, insert_sorted-AreAmong names s ts h e.1)

published-AreAmong : (test_ids names : List String) → AreAmong names (published test_ids names)
unfolding published
published-AreAmong [] names = tt
published-AreAmong (id ∷ ids) names = elim (Bool-cases (contains names ("test-" <> id))) [
  | inl h ↦ rw h (insert_sorted-AreAmong names _ _ h (published-AreAmong ids names))
  | inr h ↦ rw h (published-AreAmong ids names)
]

add_publish_job-IsClosed :
    (config : Config) (jobs : Jobs) → IsClosed jobs → IsClosed (add_publish_job config jobs)
unfolding publish_job
add_publish_job-IsClosed config jobs e =
    IsClosed-insert "publish-test-results" _ jobs
      (published-AreAmong (keys config.tests) (keys jobs)) e

-- In every workflow that is generated, each job needs only jobs that the workflow has.
pub generate_workflow-IsClosed :
    (config : Config) (flavor : VersionFlavor) (workflow : Workflow)
    → generate_workflow config flavor ≡ ok workflow
    → IsClosed workflow.jobs
unfolding generate_workflow
generate_workflow-IsClosed config flavor workflow h =
    elim (Result-cases (add_build_jobs flavor config.software [])) [
      | inl (built, f) ↦ elim (Result-cases (add_test_jobs config flavor config.tests built)) [
        | inl (jobs, g) ↦
            let same : add_publish_job config jobs ≡ workflow.jobs = ground arith in
            rw (← same) (
              add_publish_job-IsClosed config jobs (
                add_test_jobs-IsClosed config flavor config.tests built jobs g
                  (add_build_jobs-IsClosed flavor config.software [] built f tt)))
        | inr (x, g) ↦ absurd (ground arith)
      ]
      | inr (x, f) ↦ absurd (ground arith)
    ]
