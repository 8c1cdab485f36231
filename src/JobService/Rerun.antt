-- ===== src/JobService/Rerun.antt =====
-- The inputs that `rerunJob` of backend/src/services/jobService.js takes from an earlier job, up to
-- its call of `createSkillJob`. What a file holds and its SHA-256 digest are parameters.
use Prim.Native.Nat.{ℕ}
use ai_worker_platform.Common.{
  Bool, not, Option, none, some, is_some, same_id, List, [], ◌∷◌, ◌++◌, ◌&&◌, ◌||◌, if◌then◌else◌,
  ◌==◌, ◌≡◌, refl,
}
use ai_worker_platform.Query.Filter.{Dates}
use ai_worker_platform.Cleanup.Plan.{JobFile}
use ai_worker_platform.JobService.Files.{answered, refused, resolve_tracked_file_path, Answer}

-- A record of an input file; `is_config` is its inputName 'config'.
pub record Input : Type 0 where
  pub file : JobFile
  pub input_name : ℕ
  pub is_config : Bool
  pub sha256 : Option ℕ

-- What the source job says of itself: its worker type and its skill.
pub record Source : Type 0 where
  pub is_skill : Bool
  pub skill_id : Option ℕ

-- The errors, LEGACY_RERUN_REQUIRES_NEW_REQUEST and the kinds of RERUN_INPUTS_UNAVAILABLE.
pub data RerunError : Type 0 where
  job_not_found legacy_rerun no_inputs input_unavailable : RerunError
  template_not_verified template_unavailable : RerunError

-- The skill, the files by their input names, and the frozen template of the BOM generator.
pub record Inputs : Type 0 where
  pub skill_id : ℕ
  pub files : List (ℕ × ℕ)
  pub template : Option ℕ

pub data Rerun {ℓ} (A : Type ℓ) : Type ℓ where
  ready : A → Rerun A
  rejected : RerunError → Rerun A

infixl 5 ◌>>=◌
abbrev pub ◌>>=◌ {ℓ κ} : {A : Type ℓ} {B : Type κ} → Rerun A → (A → Rerun B) → Rerun B
ready a >>= f = f a
rejected e >>= f = rejected e

-- A path that does not resolve makes the input unavailable.
unfoldable pub readable_path : Answer ℕ → Rerun ℕ
readable_path (answered path) = ready path
readable_path (refused e) = rejected input_unavailable

pub >>=-eq-ready {ℓ κ} :
    {A : Type ℓ} {B : Type κ} (m : Rerun A) (f : A → Rerun B) {b : B}
    → (m >>= f) ≡ ready b
    → (a : A) × (m ≡ ready a) × (f a ≡ ready b)
>>=-eq-ready (ready a) f h = (a, refl, h)
>>=-eq-ready (rejected e) f h = cc

module _ (d : Dates) (inside exists readable : ℕ → Bool) (content digest : ℕ → ℕ) (now : ℕ)
    (bom_generator : ℕ) where
  -- The buffer of a tracked input, if its path resolves.
  unfoldable pub read_input : Input → Rerun ℕ
  read_input input =
      readable_path (resolve_tracked_file_path d inside exists readable now input.file) >>= λ path.
      ready (content path)

  -- file.sha256 && checksum === file.sha256
  abbrev pub is_verified : Input → ℕ → Bool
  is_verified input buffer = same_id input.sha256 (some (digest buffer))

  -- One round of the loop, on the files and the template so far.
  unfoldable pub take_input : Bool → Input → ℕ → Inputs → Rerun Inputs
  take_input is_bom input buffer so_far =
      if is_bom && input.is_config
      then if not (is_verified input buffer) || is_some so_far.template
        then rejected template_not_verified
        else ready (record so_far { template = some buffer })
      else ready (record so_far { files = so_far.files ++ ((input.input_name, buffer) ∷ []) })

  -- for (const file of trackedInputs)
  unfoldable pub take_inputs : Bool → List Input → Inputs → Rerun Inputs
  take_inputs is_bom [] so_far = ready so_far
  take_inputs is_bom (input ∷ inputs) so_far = read_input input >>= λ buffer.
      take_input is_bom input buffer so_far >>= λ next. take_inputs is_bom inputs next

  -- The template is there if the skill is the BOM generator.
  unfoldable pub require_template : Bool → Inputs → Rerun Inputs
  require_template is_bom inputs =
      if is_bom && not (is_some inputs.template)
      then rejected template_unavailable
      else ready inputs

  -- The inputs of a skill's job.
  unfoldable pub inputs_of : ℕ → List Input → Rerun Inputs
  inputs_of skill_id [] = rejected no_inputs
  inputs_of skill_id (input ∷ inputs) =
      let is_bom = skill_id == bom_generator in
      take_inputs is_bom (input ∷ inputs)
        (record { skill_id = skill_id; files = []; template = none })
      >>= require_template is_bom

  -- A job of no skill is not rerun.
  unfoldable pub rerun_skill : Option ℕ → List Input → Rerun Inputs
  rerun_skill none inputs = rejected legacy_rerun
  rerun_skill (some skill_id) inputs = inputs_of skill_id inputs

  -- rerunJob, up to the creation of the new job
  unfoldable pub rerun_inputs : Option Source → List Input → Rerun Inputs
  rerun_inputs none inputs = rejected job_not_found
  rerun_inputs (some source) inputs =
      rerun_skill (if source.is_skill then source.skill_id else none) inputs
