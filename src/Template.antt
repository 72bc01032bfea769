-- ===== src/Template.antt =====
-- internal/template: the template engine's functions over SQL text.
pub mod Sanitizer
pub mod FuncMap
pub mod Params
pub mod Keys
pub mod Pagination
pub mod Renderer
pub mod Counts
pub mod Engine
pub mod Registry
pub mod Loader
