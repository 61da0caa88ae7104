-- ===== src/Workflows/Jobs.antt =====
-- `get_test_job` of `make_workflows.py`.
use mathlib.Core.Option.{get_or}
use irctest.Base.{
  Bool, true, false, not, Option, none, some, List, [], ◌∷◌, ◌++◌, String, ◌<>◌, join_strings,
  contains, string_eq, ◌==◌, if◌then◌else◌,
}
use irctest.Base.Dict.{Dict, get, insert}
use irctest.Result.{
  Result, ok, key_error, name_error, assertion_error, ◌>>=◌, ◌>>◌, or_raise, require,
}
use irctest.Workflows.Config.{
  VersionFlavor, stable, flavor_eq, flavor_value, Scalar, str, script, float, int, scalar, fields,
  Step, SoftwareConfig, TestConfig, Config, Job,
}
use irctest.Workflows.Steps.{text, checkout_step, get_install_steps}

-- The variables of the loop of `get_test_job`. `last` is what `software_config` is left at.
pub record Collected : Type 0 where
  pub env : Dict String Scalar
  pub paths : List String
  pub needs : List String
  pub downloads : List Step
  pub install_steps : List Step
  pub last : Option SoftwareConfig

abbrev pub start : Collected
start = record {
  env =
      ("IRCTEST_DEBUG_LOGS", str "${{ runner.debug }}")
      ∷ ("PYTEST_ARGS", str "--junit-xml pytest.xml --timeout 300")
      ∷ [];
  paths = "~/.local/bin" ∷ [];
  needs = [];
  downloads = [];
  install_steps = [];
  last = none;
}

-- `env |= other`
unfoldable pub update : Dict String Scalar → Dict String Scalar → Dict String Scalar
unfolding insert string_eq
update env [] = env
update env ((k, v) ∷ other) = update (insert k v env) other

unfoldable pub prefix_paths : Option String → List String
prefix_paths none = []
prefix_paths (some prefix) = (prefix <> "/sbin") ∷ (prefix <> "/bin") ∷ prefix ∷ []

unfoldable pub download_step : String → Step
download_step software_id =
    ("name", text "Download build artefacts")
    ∷ ("uses", text "actions/download-artifact@v8")
    ∷ ("with", fields (("name", str ("installed-" <> software_id)) ∷ ("path", str "~") ∷ []))
    ∷ []

-- One round of the loop. `none` where the function returns, since nothing is to be built.
unfoldable pub collect_one :
    SoftwareConfig → String → VersionFlavor → Collected → Result (Option Collected)
unfolding update prefix_paths download_step
collect_one software software_id flavor c =
    let c' : Collected = record c {
      env = update c.env (get_or software.env []);
      paths = c.paths ++ prefix_paths software.prefix;
      last = some software;
    } in
    if software.separate_build_job
    then ok (
        some (record c' {
          needs = c.needs ++ (("build-" <> software_id) ∷ []);
          downloads = c.downloads ++ (download_step software_id ∷ []);
        }))
    else (get_install_steps software flavor >>= elim [
      | none ↦ ok none
      | some steps ↦ ok (some (record c' { install_steps = c.install_steps ++ steps }))
    ])

unfoldable pub collect :
    Config → VersionFlavor → List String → Collected → Result (Option Collected)
unfolding collect_one get string_eq
collect config flavor [] c = ok (some c)
collect config flavor (software_id ∷ rest) c = do
  software ← or_raise (get config.software software_id) key_error
  collect_one software software_id flavor c
      >>= elim [ none ↦ ok none | some c' ↦ collect config flavor rest c' ]

-- `set(names) <= set(others)`
unfoldable pub is_subset : List String → List String → Bool
unfolding string_eq
is_subset [] others = true
is_subset (name ∷ names) others = if contains others name then is_subset names others else false

-- `dict.fromkeys(names)`: each name once, in the order of their first places.
unfoldable pub unique : List String → List String → List String
unfolding string_eq
unique seen [] = []
unique seen (name ∷ names) = elim (contains seen name) [
  | true ↦ unique seen names
  | false ↦ name ∷ unique (name ∷ seen) names
]

abbrev pub unpack : List Step → List Step
unpack [] = []
unpack (d ∷ ds) =
    (("name", text "Unpack artefacts")
      ∷ ("run", text "cd ~; find -name 'artefacts-*.tar.gz' -exec tar -xzf '{}' \\;")
      ∷ [])
    ∷ []

-- The name of the artefact that a test publishes.
abbrev pub results_artifact : String → VersionFlavor → String
results_artifact test_id flavor = "pytest-results_" <> (test_id <> ("_" <> flavor_value flavor))

unfoldable pub test_job : String → VersionFlavor → Collected → SoftwareConfig → Job
unfolding unique join_strings flavor_value
test_job test_id flavor c last = record {
  name = none;
  runs_on = "ubuntu-24.04";
  needs = some c.needs;
  condition = none;
  steps =
      checkout_step
      ∷ (("name", text "Set up Python 3.11")
          ∷ ("uses", text "actions/setup-python@v5")
          ∷ ("with", fields (("python-version", float "3.11") ∷ []))
          ∷ [])
      ∷ (c.downloads
          ++ (unpack c.downloads
              ++ (c.install_steps
                  ++ ((("name", text "Install system dependencies")
                        ∷ ("run", text "sudo apt-get install faketime")
                        ∷ [])
                      ∷ (("name", text "Install irctest dependencies")
                          ∷ (
                            "run",
                            scalar (
                                script (
                                  join_strings "\n" (
                                    "python -m pip install --upgrade pip"
                                    ∷ "pip install -r requirements.txt pytest-xdist pytest-timeout"
                                    ∷ get_or last.extra_deps []))),
                          )
                          ∷ [])
                      ∷ (("name", text "Test with pytest")
                          ∷ ("timeout-minutes", scalar (int 30))
                          ∷ ("env", fields c.env)
                          ∷ (
                            "run",
                            scalar (
                                script (
                                  join_strings "\n" (
                                    ("export PATH="
                                      <> (join_strings ":" (unique [] c.paths) <> ":$PATH"))
                                    ∷ ("make " <> test_id)
                                    ∷ []))),
                          )
                          ∷ [])
                      ∷ (("name", text "Publish results")
                          ∷ ("if", text "always()")
                          ∷ ("uses", text "actions/upload-artifact@v7")
                          ∷ (
                            "with",
                            fields (
                                ("name", str (results_artifact test_id flavor))
                                ∷ ("path", str "pytest.xml")
                                ∷ []),
                          )
                          ∷ [])
                      ∷ []))));
}

-- The end of `get_test_job`. A job whose builds do not all exist is left out, but not for the
-- stable flavor. The last step needs a `software_config`, so some software must have been listed.
unfoldable pub finish_test_job :
    String → VersionFlavor → List String → Collected → Result (Option Job)
unfolding is_subset test_job flavor_eq
finish_test_job test_id flavor jobs c =
    if is_subset c.needs jobs
    then (or_raise c.last name_error >>= λ last. ok (some (test_job test_id flavor c last)))
    else (require (not (flavor == stable)) assertion_error >> ok none)

unfoldable pub get_test_job :
    Config → TestConfig → String → VersionFlavor → List String → Result (Option Job)
unfolding collect finish_test_job
get_test_job config test test_id flavor jobs =
    if contains (get_or test.exclude_versions []) (flavor_value flavor)
    then ok none
    else (collect config flavor (get_or test.software []) start
        >>= elim [ none ↦ ok none | some c ↦ finish_test_job test_id flavor jobs c ])
