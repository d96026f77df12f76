-- ===== src/Routing/Study.antt =====
-- src/api/control/study_agent/graph/graph.py and resume_router.py, and resolve_reference_mode of
-- src/api/control/study_agent/nodes/reference_router_node.py.
use study_agent_service.Prelude.{
  ℕ, Bool, true, false, not, ◌||◌, Option, none, some, ltb, if◌then◌else◌,
}

pub data StudyNode : Type 0 where
  resolver llamaparse concept_checklist reference_router : StudyNode
  external_research checklist_realign study_agent quality_check end other : StudyNode

-- `GraphGenerationOutcome`
pub data GenerationOutcome : Type 0 where
  study_document reference_required vague_feedback malformed_document generator_error :
      GenerationOutcome

pub data ReferenceMode : Type 0 where
  pdf external without : ReferenceMode

pub data StudyRetryMode : Type 0 where
  section_patch section_insert section_patch_then_insert full_regeneration no_retry : StudyRetryMode

pub record StudyState : Type 0 where
  pub terminal_llm_failure : Bool
  pub error : Bool
  pub generation_outcome : Option GenerationOutcome
  pub generator_format_attempt : ℕ
  pub generated_content : Bool
  pub skip_llamaparse : Bool
  pub has_reference_material : Bool
  pub reference_file_path : Bool
  pub reference_material_id : Bool
  pub parsed_sections : Bool
  pub reference_mode : Option ReferenceMode
  pub external_research_enabled : Bool
  pub external_research_cache_hit : Bool
  pub external_research_status : Bool
  pub must_cover_checklist : Bool
  pub qc_passed : Bool
  pub qc_failed_permanently : Bool
  pub qc_infra_error : Bool
  pub qc_retry_mode : StudyRetryMode

unfoldable pub route_after_study_agent : StudyState → StudyNode
route_after_study_agent s =
    if s.terminal_llm_failure || s.error then end else (elim s.generation_outcome [
      | none ↦ if s.generated_content then quality_check else study_agent
      | some outcome ↦ elim outcome [
        | study_document ↦ quality_check
        | malformed_document ↦ if ltb s.generator_format_attempt 3 then study_agent else end
        | _ ↦ end
      ]
    ])

unfoldable pub is_terminal_generation_outcome : Option GenerationOutcome → Bool
is_terminal_generation_outcome none = false
is_terminal_generation_outcome (some study_document) = false
is_terminal_generation_outcome (some _) = true

-- `_needs_llamaparse` of the graph.
unfoldable pub needs_llamaparse : StudyState → Bool
needs_llamaparse s =
    if s.skip_llamaparse
    then false
    else (if not s.has_reference_material
        then false
        else (if not s.reference_file_path then false else not s.parsed_sections))

-- `_needs_llamaparse_on_resume` of the resume router.
unfoldable pub needs_llamaparse_on_resume : StudyState → Bool
needs_llamaparse_on_resume s =
    if s.skip_llamaparse
    then false
    else (if not s.has_reference_material
        then false
        else (if not s.reference_file_path then false else not s.parsed_sections))

unfoldable pub resolve_reference_mode : StudyState → ReferenceMode
resolve_reference_mode s =
    if s.external_research_enabled then external else (elim s.reference_mode [
      | some mode ↦ mode
      | none ↦ if s.has_reference_material || s.reference_material_id then pdf else without
    ])

-- `_route_after_reference_router` of the graph.
unfoldable pub route_after_reference_router : StudyState → StudyNode
unfolding needs_llamaparse resolve_reference_mode
route_after_reference_router s =
    if s.terminal_llm_failure
    then end
    else (if s.error then end else (elim (resolve_reference_mode s) [
      | external ↦
          if s.external_research_cache_hit || s.external_research_status
          then checklist_realign
          else external_research
      | pdf ↦ if needs_llamaparse s then llamaparse else study_agent
      | without ↦ study_agent
    ]))

-- `_route_after_reference_mode` of the resume router.
unfoldable pub route_after_reference_mode : StudyState → StudyNode
unfolding needs_llamaparse_on_resume resolve_reference_mode
route_after_reference_mode s = elim (resolve_reference_mode s) [
  | external ↦
      if s.external_research_cache_hit || s.external_research_status
      then checklist_realign
      else external_research
  | pdf ↦ if needs_llamaparse_on_resume s then llamaparse else study_agent
  | without ↦ study_agent
]

unfoldable pub route_after_quality_check : StudyState → StudyNode
route_after_quality_check s =
    if s.qc_passed
    then end
    else (if s.qc_failed_permanently
        then end
        else (if s.qc_infra_error then quality_check else study_agent))

-- The conditional edges of `build_study_material_graph`.
unfoldable pub study_edge : StudyNode → StudyState → StudyNode
unfolding route_after_study_agent route_after_reference_router route_after_quality_check
study_edge resolver s = if s.error then end else concept_checklist
study_edge llamaparse s = if s.error then end else study_agent
study_edge concept_checklist s = if s.terminal_llm_failure || s.error then end else reference_router
study_edge reference_router s = route_after_reference_router s
study_edge external_research s = if s.error then end else checklist_realign
study_edge checklist_realign s = if s.error then end else study_agent
study_edge study_agent s = route_after_study_agent s
study_edge quality_check s = route_after_quality_check s
study_edge end s = end
study_edge other s = end

abbrev pub is_study_retry : StudyRetryMode → Bool
is_study_retry no_retry = false
is_study_retry _ = true

-- The branch on a completed quality check.
unfoldable pub resume_after_quality_check : StudyState → StudyNode
unfolding is_terminal_generation_outcome
resume_after_quality_check s =
    if is_terminal_generation_outcome s.generation_outcome
    then end
    else (if s.qc_infra_error
        then quality_check
        else (if is_study_retry s.qc_retry_mode
            then study_agent
            else (if s.generated_content then quality_check else resolver)))

-- `resolve_resume_next_node`
unfoldable pub study_resume : StudyState → Option StudyNode → StudyNode
unfolding route_after_study_agent route_after_reference_mode resume_after_quality_check
study_resume s none = resolver
study_resume s (some resolver) = concept_checklist
study_resume s (some concept_checklist) =
    if s.must_cover_checklist then reference_router else concept_checklist
study_resume s (some reference_router) = route_after_reference_mode s
study_resume s (some llamaparse) = study_agent
study_resume s (some external_research) = checklist_realign
study_resume s (some checklist_realign) = study_agent
study_resume s (some study_agent) = route_after_study_agent s
study_resume s (some quality_check) = resume_after_quality_check s
study_resume s (some end) = resolver
study_resume s (some other) = resolver
