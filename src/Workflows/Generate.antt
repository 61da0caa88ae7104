-- ===== src/Workflows/Generate.antt =====
-- `generate_workflow` of `make_workflows.py`, up to the writing of the file.
pub mod Needs
pub mod Complete
use irctest.Base.{
  ℕ, Bool, true, false, Option, none, some, List, [], ◌∷◌, ◌++◌, String, ◌<>◌, join_strings,
  contains, codes, Text, string_eq, text_le, ◌==◌, leb, nat_eq, if◌then◌else◌,
}
use irctest.Base.Dict.{Dict, get, insert, keys}
use irctest.Result.{Result, ok, ◌>>=◌}
use irctest.Workflows.Config.{
  VersionFlavor, stable, flavor_eq, flavor_value, str, script, fields, scalar, Step, SoftwareConfig,
  TestConfig, Config, Job, Jobs, Trigger, always, paths, crons, Workflow,
}
use irctest.Workflows.Steps.{text, checkout_step, get_build_job}
use irctest.Workflows.Jobs.{get_test_job}

abbrev pub add_job : String → Option Job → Jobs → Jobs
add_job name none jobs = jobs
add_job name (some job) jobs = insert name job jobs

-- The loop over `config["software"]`.
unfoldable pub add_build_jobs : VersionFlavor → Dict String SoftwareConfig → Jobs → Result Jobs
unfolding get_build_job insert string_eq
add_build_jobs flavor [] jobs = ok jobs
add_build_jobs flavor ((software_id, software) ∷ rest) jobs =
    get_build_job software software_id flavor >>= λ job.
    add_build_jobs flavor rest (add_job ("build-" <> software_id) job jobs)

-- The loop over `config["tests"]`.
unfoldable pub add_test_jobs : Config → VersionFlavor → Dict String TestConfig → Jobs → Result Jobs
unfolding get_test_job insert string_eq keys
add_test_jobs config flavor [] jobs = ok jobs
add_test_jobs config flavor ((test_id, test) ∷ rest) jobs =
    get_test_job config test test_id flavor (keys jobs) >>= λ job.
    add_test_jobs config flavor rest (add_job ("test-" <> test_id) job jobs)

-- A string put in its place in a sorted list, unless it is there.
unfoldable pub insert_sorted : String → List String → List String
unfolding text_le string_eq
insert_sorted s [] = s ∷ []
insert_sorted s (t ∷ ts) =
    if s == t
    then t ∷ ts
    else if text_le (codes s) (codes t)
    then s ∷ t ∷ ts
    else t ∷ insert_sorted s ts

-- `sorted({f"test-{test_id}" for test_id in config["tests"]} & set(jobs))`
unfoldable pub published : List String → List String → List String
unfolding insert_sorted
published [] jobs = []
published (test_id ∷ test_ids) jobs =
    let rest = published test_ids jobs in
    if contains jobs ("test-" <> test_id) then insert_sorted ("test-" <> test_id) rest else rest

unfoldable pub publish_job : List String → Job
publish_job needs = record {
  name = some "Publish Dashboard";
  runs_on = "ubuntu-24.04";
  needs = some needs;
  condition = some "success() || failure()";
  steps =
      checkout_step
      ∷ (("name", text "Download Artifacts")
          ∷ ("uses", text "actions/download-artifact@v8")
          ∷ ("with", fields (("path", str "artifacts") ∷ []))
          ∷ [])
      ∷ (("name", text "Install dashboard dependencies")
          ∷ (
            "run",
            scalar (
                script (
                  join_strings "\n" (
                    "python -m pip install --upgrade pip"
                    ∷ "pip install defusedxml docutils -r requirements.txt" ∷ []))),
          )
          ∷ [])
      ∷ (("name", text "Generate dashboard")
          ∷ (
            "run",
            scalar (
                script (
                  join_strings "\n" (
                    "shopt -s globstar"
                    ∷ "python3 -m irctest.dashboard.format dashboard/ artifacts/**/*.xml"
                    ∷ "echo '/ /index.xhtml' > dashboard/_redirects" ∷ []))),
          )
          ∷ [])
      ∷ (("name", text "Install netlify-cli") ∷ ("run", text "npm i -g netlify-cli") ∷ [])
      ∷ (("name", text "Deploy to Netlify")
          ∷ ("run", text "./.github/deploy_to_netlify.py")
          ∷ (
            "env",
            fields (
                ("NETLIFY_SITE_ID", str "${{ secrets.NETLIFY_SITE_ID }}")
                ∷ ("NETLIFY_AUTH_TOKEN", str "${{ secrets.NETLIFY_AUTH_TOKEN }}")
                ∷ ("GITHUB_TOKEN", str "${{ secrets.GITHUB_TOKEN }}")
                ∷ []),
          )
          ∷ [])
      ∷ [];
}

-- When the workflow runs.
unfoldable pub triggers : VersionFlavor → Dict String Trigger
unfolding flavor_value
triggers stable = ("push", always) ∷ ("pull_request", always) ∷ []
triggers flavor =
    let relative_workflow : String = ".github/workflows/test-" <> (flavor_value flavor <> ".yml") in
    ("push", paths (relative_workflow ∷ []))
    ∷ ("pull_request", paths (relative_workflow ∷ []))
    ∷ ("schedule", crons ("51 8 * * 6" ∷ "51 8 * * 0" ∷ "51 17 * * *" ∷ []))
    ∷ ("workflow_dispatch", always)
    ∷ []

abbrev pub add_publish_job : Config → Jobs → Jobs
add_publish_job config jobs =
    insert "publish-test-results" (publish_job (published (keys config.tests) (keys jobs))) jobs

unfoldable pub generate_workflow : Config → VersionFlavor → Result Workflow
unfolding add_build_jobs add_test_jobs published publish_job triggers
generate_workflow config flavor = do
  built ← add_build_jobs flavor config.software []
  jobs ← add_test_jobs config flavor config.tests built
  ok (record {
    name = "irctest with " <> (flavor_value flavor <> " versions");
    on = triggers flavor;
    jobs = add_publish_job config jobs;
  })
