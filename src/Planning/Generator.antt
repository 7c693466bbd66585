-- ===== src/Planning/Generator.antt =====
-- planning/generator.py: validation of the request, the grounded template, and its personalization.
mod Personalize
mod Generate
pub mod Additions
unfoldable pub use Personalize.{fact_bundle, additions_loop, personalize}
pub use Personalize.{Profile, PipelineInput, Generated, Pipeline}
unfoldable pub use Generate.{validate_request, make_draft, generate}
