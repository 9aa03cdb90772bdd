-- ===== src/Dsl.antt =====
-- internal/dsl: the parts of a job's definition that decide where and under which name it runs.
pub mod Capabilities
pub mod QualifiedName
pub mod Values
pub mod SecurityContext
pub mod PodTemplate
pub mod Matrix
