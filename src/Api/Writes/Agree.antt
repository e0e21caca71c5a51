-- ===== src/Api/Writes/Agree.antt =====
-- internal/api/presets.go: the check of a request agrees with the check of the store.
use gsm_system.Base.{
  ◌≡◌, ◌↔◌, refl, Bool, true, false, not, ◌&&◌, ◌||◌, [], ◌∷◌, ◌++◌, List, map, Option, none, some,
  length, ltb, if◌then◌else◌,
}
use gsm_system.Gsm.Params.{FieldIssue, is_blank, validate, validate_detailed}
use gsm_system.Gsm.Presets.{Preset, valid_preset_id, valid_preset}
use gsm_system.Api.Writes.{
  PresetField, id_field, name_required, name_too_long, description_too_long, params_field, if_not,
  validate_preset_request,
}

abbrev has_none : Option FieldIssue → Bool
has_none none = true
has_none (some _) = false

abbrev first_issue : List FieldIssue → Option FieldIssue
first_issue [] = none
first_issue (i ∷ _) = some i

abbrev issues : Bool → Bool → Bool → Bool → List FieldIssue → List PresetField
issues id blank long described l =
    if_not id id_field
    ++ ((if blank then name_required ∷ [] else if_not (not long) name_too_long)
        ++ (if_not (not described) description_too_long ++ map params_field l))

agree :
    (id blank long described : Bool) (l : List FieldIssue)
    → (issues id blank long described l ≡ [])
      ↔ ((id && not (blank || long) && not described && has_none (first_issue l)) ≡ true)
agree true false false false [] = ((λ h. refl), (λ h. refl))
agree true false false false (i ∷ l) = ((λ h. cc), (λ h. cc))
agree true false false true l = ((λ h. cc), (λ h. cc))
agree true false true described l = ((λ h. cc), (λ h. cc))
agree true true long described l = ((λ h. cc), (λ h. cc))
agree false blank long described l = ((λ h. cc), (λ h. cc))

-- A request to create a preset has nothing to refuse exactly when the store's own check accepts
-- the preset.
pub validate_preset_request_iff :
    (p : Preset) → (validate_preset_request p true ≡ []) ↔ (valid_preset p ≡ true)
unfolding validate_preset_request valid_preset validate
validate_preset_request_iff p =
    agree (valid_preset_id p.id) (is_blank p.name) (ltb 128 (length p.name))
      (ltb 2048 (length p.description)) (validate_detailed p.params)
