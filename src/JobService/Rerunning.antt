-- ===== src/JobService/Rerunning.antt =====
-- What a rerun starts from: backend/src/services/jobService.js.
use Prim.Native.Nat.{ℕ}
use ai_worker_platform.Common.{
  Bool, is_some, List, [], ◌∷◌, ◌≡◌, if◌then◌else◌, false, arith, ◌∙◌, Bool-cases, true, ◌&&◌, ◌==◌,
  inl, none, not, some, ap, inr, sym, Option, same_id, subst, ◌++◌, eqb→eq,
}
use mathlib.Core.List.{append-nil, append_assoc}
use ai_worker_platform.Query.Filter.{Dates}
use ai_worker_platform.JobService.Files.{answered, resolve_tracked_file_path, Answer, refused}
use ai_worker_platform.JobService.Rerun.{
  Input, Inputs, ready, read_input, readable_path, take_input, take_inputs, >>=-eq-ready, Source,
  inputs_of, require_template, rerun_inputs, rerun_skill,
}

module _ (d : Dates) (inside exists readable : ℕ → Bool) (content digest : ℕ → ℕ) (now : ℕ)
    (bom_generator : ℕ) where
  -- What a rerun takes over from a list of inputs: each can be read now, and its contents become
  -- the frozen template, if it is the configuration of the BOM generator and has the digest that is
  -- recorded of it, or the file of its name otherwise.
  pub data TakenOver (is_bom : Bool) : List Input → List (ℕ × ℕ) → List ℕ → Type 0 where
    nothing_left : TakenOver is_bom [] [] []
    as_file :
        {input : Input} {inputs : List Input} {files : List (ℕ × ℕ)} {templates : List ℕ} (path : ℕ)
        → (is_bom && input.is_config) ≡ false
        → resolve_tracked_file_path d inside exists readable now input.file ≡ answered path
        → TakenOver is_bom inputs files templates
        → TakenOver is_bom (input ∷ inputs) ((input.input_name, content path) ∷ files) templates
    as_template :
        {input : Input} {inputs : List Input} {files : List (ℕ × ℕ)} {templates : List ℕ} (path : ℕ)
        → (is_bom && input.is_config) ≡ true
        → resolve_tracked_file_path d inside exists readable now input.file ≡ answered path
        → input.sha256 ≡ some (digest (content path))
        → TakenOver is_bom inputs files templates
        → TakenOver is_bom (input ∷ inputs) files (content path ∷ templates)

  abbrev pub templates_of : Option ℕ → List ℕ
  templates_of none = []
  templates_of (some template) = template ∷ []

  answered_path : (a : Answer ℕ) (path : ℕ) → readable_path a ≡ ready path → a ≡ answered path
  unfolding readable_path
  answered_path (answered p) path h = ground arith
  answered_path (refused e) path h = cc

  same_id_eq : (a : Option ℕ) (b : ℕ) → same_id a (some b) ≡ true → a ≡ some b
  same_id_eq none b h = cc
  same_id_eq (some a) b h = ap some (eqb→eq a b h)

  -- What the loop adds to the inputs so far.
  abbrev Adds : Bool → List Input → Inputs → Inputs → Type 0
  Adds is_bom inputs so_far made =
      (files : List (ℕ × ℕ)) × (templates : List ℕ) × TakenOver is_bom inputs files templates
      × (made.files ≡ so_far.files ++ files)
      × (templates_of made.template ≡ templates_of so_far.template ++ templates)
      × (made.skill_id ≡ so_far.skill_id)
      × (is_bom ≡ false → made.template ≡ so_far.template)

  take_input_lem :
      (is_bom : Bool) (input : Input) (inputs : List Input) (path : ℕ) (so_far next made : Inputs)
      → resolve_tracked_file_path d inside exists readable now input.file ≡ answered path
      → take_input d inside exists readable content digest now bom_generator is_bom input
          (content path)
          so_far
        ≡ ready next
      → Adds is_bom inputs next made
      → Adds is_bom (input ∷ inputs) so_far made
  unfolding take_input
  take_input_lem is_bom input inputs path so_far next made found h
        (files, templates, over, same_files, same_templates, same_skill, kept) =
      elim (Bool-cases (is_bom && input.is_config)) [
        | inl config ↦
            (let verified : same_id input.sha256 (some (digest (content path))) ≡ true =
                ground arith in
              (
                files,
                content path ∷ templates,
                as_template path config found
                    (same_id_eq input.sha256 (digest (content path)) verified) over,
                ground arith,
                ground arith,
                ground arith,
                λ other. ground arith,
              ))
        | inr plain ↦ (
          (input.input_name, content path) ∷ files,
          templates,
          as_file path plain found over,
          ground (arith, append_assoc so_far.files ((input.input_name, content path) ∷ []) files),
          ground arith,
          ground arith,
          λ other. ground arith,
        )
      ]

  take_inputs_lem :
      (is_bom : Bool) (inputs : List Input) (so_far made : Inputs)
      → take_inputs d inside exists readable content digest now bom_generator is_bom inputs so_far
        ≡ ready made
      → Adds is_bom inputs so_far made
  unfolding take_inputs read_input
  take_inputs_lem is_bom [] so_far made h =
      let e : so_far ≡ made = ground arith in
      (
        [],
        [],
        nothing_left,
        ground (arith, append-nil so_far.files),
        ground (arith, append-nil (templates_of so_far.template)),
        ground arith,
        λ other. ground arith,
      )
  take_inputs_lem is_bom (input ∷ inputs) so_far made h =
      let (buffer, first, later) =
        >>=-eq-ready (read_input d inside exists readable content digest now bom_generator input) _
          h in
      let (path, found, read) =
        >>=-eq-ready
          (readable_path (resolve_tracked_file_path d inside exists readable now input.file)) _
          first in
      let (next, one, others) =
        >>=-eq-ready
          (take_input d inside exists readable content digest now bom_generator is_bom input buffer
            so_far)
          _ later in
      let same : buffer ≡ content path = ground arith in
      take_input_lem is_bom input inputs path so_far next made
        (answered_path (resolve_tracked_file_path d inside exists readable now input.file) path
          found)
        (subst
          (λ b.
            take_input d inside exists readable content digest now bom_generator is_bom input b
              so_far
            ≡ ready next)
          same one)
        (take_inputs_lem is_bom inputs next made others)

  required :
      (is_bom : Bool) (before made : Inputs)
      → require_template d inside exists readable content digest now bom_generator is_bom before
        ≡ ready made
      → (before ≡ made) × (is_bom ≡ true → is_some made.template ≡ true)
  unfolding require_template
  required is_bom before made h = elim (Bool-cases (is_bom && not (is_some before.template))) [
    | inl missing ↦ ground arith
    | inr there ↦ let same : before ≡ made = ground arith in (same, λ bom. ground (arith, same))
  ]

  abbrev TakesOver : ℕ → List Input → Inputs → Type 0
  TakesOver skill_id inputs made =
      (made.skill_id ≡ skill_id)
      × TakenOver (skill_id == bom_generator) inputs made.files (templates_of made.template)
      × (is_some made.template ≡ skill_id == bom_generator)

  inputs_of_lem :
      (skill_id : ℕ) (inputs : List Input) (made : Inputs)
      → inputs_of d inside exists readable content digest now bom_generator skill_id inputs
        ≡ ready made
      → TakesOver skill_id inputs made
  unfolding inputs_of
  inputs_of_lem skill_id [] made h = cc
  inputs_of_lem skill_id (input ∷ inputs) made h =
      let is_bom : Bool = skill_id == bom_generator in
      let start : Inputs = record { skill_id = skill_id; files = []; template = none } in
      let (before, loop, last) =
        >>=-eq-ready
          (take_inputs d inside exists readable content digest now bom_generator is_bom
            (input ∷ inputs) start)
          _ h in
      let (files, templates, over, same_files, same_templates, same, kept) =
        take_inputs_lem is_bom (input ∷ inputs) start before loop in
      let (e, has_template) = required is_bom before made last in
      subst (TakesOver skill_id (input ∷ inputs)) e (
        same,
        subst (λ f. TakenOver is_bom (input ∷ inputs) f (templates_of before.template))
            (sym same_files)
            (subst (λ t. TakenOver is_bom (input ∷ inputs) files t) (sym same_templates) over),
        elim (Bool-cases is_bom) [
          | inl bom ↦ ap (λ (i : Inputs). is_some i.template) e ∙ has_template bom ∙ sym bom
          | inr other ↦ ap is_some (kept other) ∙ sym other
        ],
      )

  skill_lem :
      (skill : Option ℕ) (inputs : List Input) (made : Inputs)
      → rerun_skill d inside exists readable content digest now bom_generator skill inputs
        ≡ ready made
      → (skill ≡ some made.skill_id) × TakesOver made.skill_id inputs made
  unfolding rerun_skill
  skill_lem none inputs made h = cc
  skill_lem (some skill_id) inputs made h =
      let t = inputs_of_lem skill_id inputs made h in
      (ap some (sym t.0), subst (λ s. TakesOver s inputs made) (sym t.0) t)

  -- A rerun that is ready to be created is of an earlier job of a skill, and of the same skill. Each
  -- input that was tracked for that job can be read now, and in their order its contents are the
  -- files of the rerun under their names, but for the configuration of the BOM generator, whose
  -- contents, with the digest on record, are the frozen template; nothing else is taken over. There
  -- is a frozen template exactly when the skill is the BOM generator.
  pub rerun_inputs_lem :
      (source : Source) (inputs : List Input) (made : Inputs)
      → rerun_inputs d inside exists readable content digest now bom_generator (some source) inputs
        ≡ ready made
      → (source.is_skill ≡ true)
        × (source.skill_id ≡ some made.skill_id)
        × TakenOver (made.skill_id == bom_generator) inputs made.files (templates_of made.template)
        × (is_some made.template ≡ made.skill_id == bom_generator)
  unfolding rerun_inputs
  rerun_inputs_lem source inputs made h =
      let (chosen, (same, over, bom)) =
        skill_lem (if source.is_skill then source.skill_id else none) inputs made h in
      (ground (arith, chosen), ground (arith, chosen), over, bom)
