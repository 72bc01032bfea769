-- ===== src/Template/Loader/Found.antt =====
-- What is found under a name after a load.
use mountain_king.Prelude.{Option, none, some, Bytes}
use mountain_king.Template.Loader.{Outside}
use mountain_king.Template.Renderer.{RegisteredTemplate}

module _ (o : Outside) where
  -- The template of what a load gives.
  abbrev pub template_of : Option (RegisteredTemplate × Bytes) → Option RegisteredTemplate
  template_of none = none
  template_of (some (tmpl, hash)) = some tmpl
