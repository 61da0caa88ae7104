-- ===== src/Workflows/Steps.antt =====
-- `get_install_steps`, `get_build_job` and `upload_steps` of `make_workflows.py`.
use irctest.Base.{true, Option, none, some, List, [], ◌∷◌, ◌++◌, String, ◌<>◌, if◌then◌else◌}
use mathlib.Core.Option.{get_or}
use irctest.Base.Dict.{get}
use irctest.Result.{Result, ok, key_error, ◌>>=◌, or_raise}
use irctest.Workflows.Config.{
  VersionFlavor, flavor_eq, flavor_value, str, script, float, int, Field, scalar, fields, Step,
  ByFlavor, Repository, Origin, install_steps, checkout, SoftwareConfig, Job,
}

-- `mapping[version_flavor.value]`
unfoldable pub at_flavor : {A : Type 0} → ByFlavor A → VersionFlavor → Result (Option A)
unfolding get flavor_eq
at_flavor mapping flavor = or_raise (get mapping flavor) key_error

abbrev pub text : String → Field
text s = scalar (str s)

unfoldable pub checkout_steps : String → Repository → String → List Step
checkout_steps name r ref =
    (("name", text ("Checkout " <> name))
      ∷ ("uses", text "actions/checkout@v7")
      ∷ (
        "with",
        fields (
            ("repository", str r.repository)
            ∷ ("ref", str ref)
            ∷ ("path", str r.path)
            ∷ ("submodules", str (get_or r.submodules ""))
            ∷ []),
      )
      ∷ [])
    ∷ (get_or r.pre_deps []
        ++ ((("name", text ("Build " <> name))
              ∷ ("run", scalar (script r.build_script))
              ∷ ("working-directory", text r.path)
              ∷ [])
            ∷ []))

unfoldable pub get_install_steps : SoftwareConfig → VersionFlavor → Result (Option (List Step))
unfolding at_flavor checkout_steps
get_install_steps software flavor = elim software.origin [
  | install_steps steps ↦ at_flavor steps flavor
  | checkout r ↦
      at_flavor r.refs flavor
      >>= elim [ none ↦ ok none | some ref ↦ ok (some (checkout_steps software.name r ref)) ]
]

unfoldable pub upload_steps : String → List Step
upload_steps software_id =
    (("name", text "Make artefact tarball")
      ∷ ("run", text ("cd ~; tar -czf artefacts-" <> software_id <> ".tar.gz .local/ go/"))
      ∷ [])
    ∷ (("name", text "Upload build artefacts")
        ∷ ("uses", text "actions/upload-artifact@v7")
        ∷ (
          "with",
          fields (
              ("name", str ("installed-" <> software_id))
              ∷ ("path", str "~/artefacts-*.tar.gz")
              ∷ ("retention-days", int 1)
              ∷ []),
        )
        ∷ [])
    ∷ []

-- The path for the cache of a software. That of one with its own install steps is a placeholder.
abbrev pub software_path : Origin → String
software_path (install_steps steps) = "placeholder"
software_path (checkout r) = r.path

-- The path of the cache is an f-string, in which doubled braces stand for single ones.
unfoldable pub cache_steps : SoftwareConfig → String → VersionFlavor → List Step
unfolding flavor_value
cache_steps software software_id flavor =
    if get_or software.cache true
    then (("name", text "Cache dependencies")
        ∷ ("uses", text "actions/cache@v6")
        ∷ (
          "with",
          fields (
              (
                "path",
                str ("~/.cache\n${ github.workspace }/" <> software_path software.origin <> "\n"),
              )
              ∷ ("key", str ("3-${{ runner.os }}-" <> software_id <> "-" <> flavor_value flavor))
              ∷ []),
        )
        ∷ [])
      ∷ []
    else []

abbrev pub checkout_step : Step
checkout_step = ("uses", text "actions/checkout@v7") ∷ []

unfoldable pub build_job : SoftwareConfig → String → VersionFlavor → List Step → Job
unfolding cache_steps upload_steps
build_job software software_id flavor steps = record {
  name = none;
  runs_on = "ubuntu-24.04";
  needs = none;
  condition = none;
  steps =
      (("name", text "Create directories") ∷ ("run", text "cd ~/; mkdir -p .local/ go/") ∷ [])
      ∷ (cache_steps software software_id flavor
          ++ (checkout_step
              ∷ (("name", text "Set up Python 3.11")
                  ∷ ("uses", text "actions/setup-python@v6")
                  ∷ ("with", fields (("python-version", float "3.11") ∷ []))
                  ∷ [])
              ∷ (("name", text "Install system dependencies")
                  ∷ ("run", text "sudo apt-get install libltdl-dev")
                  ∷ [])
              ∷ (("name", text "Calculate job count")
                  ∷ (
                    "run",
                    text "echo MAKEFLAGS=-j$(($(getconf _NPROCESSORS_ONLN) + 1)) >> $GITHUB_ENV",
                  )
                  ∷ [])
              ∷ (steps ++ upload_steps software_id)));
}

unfoldable pub get_build_job : SoftwareConfig → String → VersionFlavor → Result (Option Job)
unfolding get_install_steps build_job
get_build_job software software_id flavor =
    if software.separate_build_job
    then (get_install_steps software flavor >>= elim [
      | none ↦ ok none
      | some steps ↦ ok (some (build_job software software_id flavor steps))
    ])
    else ok none
