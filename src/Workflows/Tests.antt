-- ===== src/Workflows/Tests.antt =====
-- The generation of a workflow at a small configuration.
use irctest.Base.{◌≡◌, ◌⊎◌, All, refl, true, false, some, none, [], ◌∷◌, String, string_eq}
use irctest.Base.Dict.{keys}
use irctest.Result.{ok, raised}
use irctest.Workflows.Config.{
  stable, release, flavor_eq, install_steps, checkout, SoftwareConfig, TestConfig, Config, Workflow,
}
use irctest.Workflows.Generate.{generate_workflow}
use irctest.Workflows.Generate.Complete.{IsSkipped, HasJob, generate_workflow-IsCovered}
use irctest.Workflows.Generate.Needs.{IsClosed, generate_workflow-IsClosed}

abbrev solanum : SoftwareConfig
solanum = record {
  name = "Solanum";
  origin = checkout (record {
    repository = "solanum-ircd/solanum";
    refs = (stable, some "main") ∷ (release, none) ∷ [];
    path = "solanum";
    submodules = none;
    pre_deps = none;
    build_script = "make";
  });
  separate_build_job = true;
  cache = some false;
  env = none;
  prefix = some "~/.local";
  extra_deps = none;
}

abbrev limnoria : SoftwareConfig
limnoria = record solanum {
  name = "Limnoria";
  origin = install_steps ((stable, some []) ∷ []);
  separate_build_job = false;
}

abbrev config : Config
config = record {
  software = ("solanum", solanum) ∷ ("limnoria", limnoria) ∷ [];
  tests =
      ("solanum", record { software = some ("solanum" ∷ []); exclude_versions = none })
      ∷ (
        "limnoria",
        record { software = some ("limnoria" ∷ "solanum" ∷ []); exclude_versions = none },
      )
      ∷ [];
}

-- What is generated, or else nothing.
abbrev workflow : Workflow
workflow = elim (generate_workflow config stable) [
  | raised x ↦ record { name = ""; on = []; jobs = [] }
  | ok w ↦ w
]

generated : generate_workflow config stable ≡ ok workflow
unfolding generate_workflow
generated = refl

job_names :
    keys workflow.jobs
    ≡ "build-solanum" ∷ "test-solanum" ∷ "test-limnoria" ∷ "publish-test-results" ∷ []
unfolding generate_workflow
job_names = refl

generate_workflow-IsClosed_example : IsClosed workflow.jobs
generate_workflow-IsClosed_example = generate_workflow-IsClosed config stable workflow generated

generate_workflow-IsCovered_example :
    All
      (λ (entry : String × TestConfig).
        IsSkipped config stable entry.1 ⊎ HasJob workflow.jobs entry.0)
      config.tests
generate_workflow-IsCovered_example = generate_workflow-IsCovered config workflow generated
