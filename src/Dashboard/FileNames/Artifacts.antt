-- ===== src/Dashboard/FileNames/Artifacts.antt =====
-- The job of a results file that a generated workflow publishes: its path is the name of the
-- artefact and `pytest.xml` (`make_workflows.py`).
use irctest.Base.{
  ◌≡◌, refl, ap, ◌∙◌, none, some, [], ◌∷◌, ◌++◌, append_assoc, Text, String, ◌<>◌, codes-append,
  codes, arith, nat_eq, Lacks, is,
}
use irctest.Workflows.Config.{VersionFlavor, stable, release, devel, devel_release, flavor_value}
use irctest.Workflows.Jobs.{results_artifact}
use irctest.Dashboard.FileNames.{longest_name, name_here, name_behind, job_name}

-- `artifacts/pytest-results_{test_id}_{flavor}/pytest.xml`
abbrev results_file : Text → VersionFlavor → Text
results_file test_id flavor =
    codes "artifacts/pytest-results_"
    ++ (test_id ++ (codes "_" ++ (codes (flavor_value flavor) ++ codes "/pytest.xml")))

-- What is read of a line goes on as what is read of its end.
longest_name-append :
    (w s name : Text)
    → Lacks (is 10) w
    → longest_name s ≡ some name
    → longest_name (w ++ s) ≡ some (w ++ name)
unfolding longest_name
longest_name-append [] s name h e = e
longest_name-append (c ∷ w) s name h e =
    rw (longest_name, h.0, longest_name-append w s name h.1 e) refl

name_behind-none :
    (w s : Text) → Lacks (is b'/') w → name_behind s ≡ none → name_behind (w ++ s) ≡ none
unfolding name_behind
name_behind-none [] s h e = e
name_behind-none (c ∷ w) s h e = ground (arith, name_behind-none w s h.1 e)

name_behind-directory :
    (w s name : Text)
    → Lacks (is b'/') w
    → Lacks (is 10) w
    → name_behind s ≡ none
    → name_here s ≡ some name
    → name_behind (w ++ (b'/' ∷ s)) ≡ some name
unfolding name_behind nat_eq
name_behind-directory [] s name h k e f = rw (e, f, name_behind) refl
name_behind-directory (c ∷ w) s name h k e f =
    ground (arith, name_behind-directory w s name h.1 k.1 e f)

-- What the flavor adds to the name of the job.
abbrev pub flavor_seen : VersionFlavor → Text
flavor_seen devel_release = codes "_devel"
flavor_seen flavor = []

flavor_part : VersionFlavor → Text
flavor_part flavor = codes "_" ++ (codes (flavor_value flavor) ++ codes "/pytest.xml")

longest_name-flavor :
    (flavor : VersionFlavor) → longest_name (flavor_part flavor) ≡ some (flavor_seen flavor)
unfolding longest_name flavor_part flavor_value
longest_name-flavor stable = refl
longest_name-flavor release = refl
longest_name-flavor devel = refl
longest_name-flavor devel_release = refl

name_behind-flavor : (flavor : VersionFlavor) → name_behind (flavor_part flavor) ≡ none
unfolding name_behind flavor_part flavor_value
name_behind-flavor stable = refl
name_behind-flavor release = refl
name_behind-flavor devel = refl
name_behind-flavor devel_release = refl

name_here-results : (s : Text) → name_here (codes "pytest-results_" ++ s) ≡ longest_name s
unfolding name_here
name_here-results s = refl

job_name-behind : (file name : Text) → name_behind file ≡ some name → job_name file ≡ some name
unfolding job_name
job_name-behind file name e = rw (job_name, e) refl

job_name-results_file :
    (test_id : Text) (flavor : VersionFlavor)
    → Lacks (is b'/') test_id
    → Lacks (is 10) test_id
    → job_name (results_file test_id flavor) ≡ some (test_id ++ flavor_seen flavor)
unfolding flavor_part
job_name-results_file test_id flavor h k =
    job_name-behind (results_file test_id flavor) (test_id ++ flavor_seen flavor) (
      name_behind-directory (codes "artifacts")
        (codes "pytest-results_" ++ (test_id ++ flavor_part flavor)) (test_id ++ flavor_seen flavor)
        (ground arith) (ground arith)
        (name_behind-none (codes "pytest-results_") (test_id ++ flavor_part flavor) (ground arith)
          (name_behind-none test_id (flavor_part flavor) h (name_behind-flavor flavor)))
        (name_here-results (test_id ++ flavor_part flavor)
          ∙ longest_name-append test_id (flavor_part flavor) (flavor_seen flavor) k
              (longest_name-flavor flavor)))

results_artifact-codes :
    (test_id : String) (flavor : VersionFlavor)
    → codes ("artifacts/" <> (results_artifact test_id flavor <> "/pytest.xml"))
      ≡ results_file (codes test_id) flavor
results_artifact-codes test_id flavor = simp (codes-append, append_assoc)

-- The job that is read off the path of a published results file is the id of its test, except that
-- the flavor `devel_release` leaves its first half in the name. The id has no `/` and no newline.
pub job_name-results_artifact :
    (test_id : String) (flavor : VersionFlavor)
    → Lacks (is b'/') (codes test_id)
    → Lacks (is 10) (codes test_id)
    → job_name (codes ("artifacts/" <> (results_artifact test_id flavor <> "/pytest.xml")))
      ≡ some (codes test_id ++ flavor_seen flavor)
job_name-results_artifact test_id flavor h k =
    ap job_name (results_artifact-codes test_id flavor)
    ∙ job_name-results_file (codes test_id) flavor h k
