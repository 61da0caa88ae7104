-- ===== src/Dashboard/Results.antt =====
pub mod Names
-- `CaseResult` and `iter_job_results` (`irctest/dashboard/format.py`).
use irctest.Base.{
  ℕ, Bool, true, false, not, ◌&&◌, ◌||◌, Option, none, some, List, [], ◌∷◌, ◌++◌, Text, codes, ◌==◌,
  list_eq, nat_eq, length, leb, any, contains, is_space, starts_with, if◌then◌else◌,
}
use irctest.Base.Dict.{Dict, get, keys}
use irctest.Result.{
  Result, ok, raised, value_error, key_error, type_error, attribute_error, assertion_error, ◌>>=◌,
  ◌>>◌, require, or_raise,
}
use irctest.Dashboard.Xml.{Element, element, Elements, none_left, first}
use irctest.Dashboard.FileNames.{job_name}

pub record CaseResult : Type 0 where
  pub module_name : Text
  pub class_name : Text
  pub test_name : Text
  pub job : Text
  pub success : Bool
  pub skipped : Bool
  pub system_out : Option Text
  pub details : Option Text
  pub type : Option Text
  pub message : Option Text

-- The variables of the loop over what stands in a test case.
pub record Outcome : Type 0 where
  pub success : Bool
  pub skipped : Bool
  pub details : Option Text
  pub system_out : Option Text
  pub extra : Dict Text Text

abbrev pub passed : Outcome
passed = record { success = true; skipped = false; details = none; system_out = none; extra = [] }

-- `s.rstrip()`
unfoldable pub rstrip : Text → Text
unfolding is_space
rstrip [] = []
rstrip (c ∷ s) = elim (rstrip s) [ [] ↦ (if is_space c then [] else c ∷ []) | d ∷ t ↦ c ∷ d ∷ t ]

-- Another output must go on where the one before ends.
unfoldable pub continues : Option Text → Option Text → Result Bool
unfolding rstrip starts_with
continues none text = ok true
continues (some before) none = raised attribute_error
continues (some before) (some text) = ok (starts_with text (rstrip before))

unfoldable pub read_child : Outcome → Element → Result Outcome
unfolding continues list_eq nat_eq
read_child o (element tag text attrib es) =
    if tag == codes "skipped"
    then ok (record o { success = true; skipped = true; details = none; extra = attrib })
    else if contains (codes "failure" ∷ codes "error" ∷ []) tag
    then ok (record o { success = false; skipped = false; details = text; extra = attrib })
    else if tag == codes "system-out"
    then (continues o.system_out text >>= λ fits.
        require fits assertion_error >> ok (record o { system_out = text }))
    else raised assertion_error

unfoldable pub read_children : Outcome → Elements → Result Outcome
unfolding read_child
read_children o none_left = ok o
read_children o (first e es) = read_child o e >>= λ o'. read_children o' es

-- `s.rsplit(".", 1)`, in two parts.
unfoldable pub cut_last : ℕ → Text → Option (Text × Text)
unfolding nat_eq
cut_last sep [] = none
cut_last sep (c ∷ s) = elim (cut_last sep s) [
  | some (a, b) ↦ some (c ∷ a, b)
  | none ↦ (if c == sep then some ([], s) else none)
]

-- `**extra` may only give the arguments that the call does not give itself.
unfoldable pub extra_allowed : Dict Text Text → Bool
unfolding keys list_eq nat_eq
extra_allowed extra =
    not (any (λ k. not (contains (codes "type" ∷ codes "message" ∷ []) k)) (keys extra))

unfoldable pub case_result : Text → Text → Dict Text Text → Outcome → Result CaseResult
unfolding get cut_last job_name extra_allowed list_eq nat_eq
case_result file name attrib o = do
  class_path ← or_raise (get attrib (codes "classname")) key_error
  (module_name, class_name) ← or_raise (cut_last b'.' class_path) value_error
  job ← or_raise (job_name file) assertion_error
  allowed ← require (extra_allowed o.extra) type_error
  ok (record {
    module_name = module_name;
    class_name = class_name;
    test_name = name;
    job = job;
    success = o.success;
    skipped = o.skipped;
    system_out = o.system_out;
    details = o.details;
    type = get o.extra (codes "type");
    message = get o.extra (codes "message");
  })

-- The loop over the cases of a suite. One with no name is passed over.
unfoldable pub read_cases : Text → Elements → Result (List CaseResult)
unfolding read_children case_result get list_eq nat_eq
read_cases file none_left = ok []
read_cases file (first (element tag text attrib es) cases) = elim (get attrib (codes "name")) [
  | none ↦ read_cases file cases
  | some name ↦ read_children passed es >>= λ o.
      case_result file name attrib o >>= λ r. read_cases file cases >>= λ rest. ok (r ∷ rest)
]

unfoldable pub iter_job_results : Text → Element → Result (List CaseResult)
unfolding read_cases
iter_job_results file (element tag text attrib (first (element t x a cases) none_left)) =
    read_cases file cases
iter_job_results file root = raised value_error

-- `NETLIFY_CHAR_BLACKLIST`
unfoldable pub is_blacklisted : ℕ → Bool
unfolding nat_eq
is_blacklisted c = contains (codes "\":<>|*?\r\n#") c

-- What is taken of other libraries: the digest, its encoding, and what `\w` matches.
pub record Digests : Type 0 where
  pub md5 : Text → List ℕ
  pub urlsafe_b64encode : List ℕ → Text
  pub is_word : ℕ → Bool

module _ (l : Digests) where
  unfoldable pub md5sum : Text → Text
  md5sum text = l.urlsafe_b64encode (l.md5 text)

  -- `\w+?`, up to a `[`.
  unfoldable pub function_name : Text → Option (Text × Text)
  unfolding nat_eq
  function_name [] = none
  function_name (c ∷ s) = elim (l.is_word c) [
    | false ↦ (if c == b'[' then some ([], s) else none)
    | true ↦ elim (function_name s) [ none ↦ none | some (f, rest) ↦ some (c ∷ f, rest) ]
  ]

  -- `.+` up to the last `]` of the line.
  unfoldable pub params_in : Text → Option Text
  unfolding nat_eq
  params_in [] = none
  params_in (c ∷ s) = elim (if c == 10 then none else params_in s) [
    | some params ↦ some (c ∷ params)
    | none ↦ (if c == b']' then some [] else none)
  ]

  -- `function[params]`, of which neither part is empty.
  unfoldable pub split_params : Text → Option (Text × Text)
  unfolding function_name params_in
  split_params name = elim (function_name name) [
    | none ↦ none
    | some ([], rest) ↦ none
    | some (c ∷ f, rest) ↦ elim (params_in rest) [
      | none ↦ none
      | some [] ↦ none
      | some (d ∷ params) ↦ some (c ∷ f, d ∷ params)
    ]
  ]

  -- The name of a test in a file's name: its parameters are hashed if it is long or has a character
  -- that is not allowed.
  unfoldable pub short_name : Text → Result Text
  unfolding split_params md5sum is_blacklisted any
  short_name name =
      if not (leb (length name) 50) || any is_blacklisted name
      then (elim (split_params name) [
        | none ↦ raised assertion_error
        | some (f, params) ↦ ok (f ++ (codes "[" ++ (md5sum params ++ codes "]")))
      ])
      else ok name

  unfoldable pub output_filename : CaseResult → Result Text
  unfolding short_name
  output_filename r = short_name r.test_name >>= λ name. ok (
      r.job
      ++ (codes "_"
          ++ (r.module_name
              ++ (codes "." ++ (r.class_name ++ (codes "." ++ (name ++ codes ".txt")))))))
