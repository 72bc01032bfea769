-- ===== src/Server/Depth/Tests.antt =====
-- A document of one operation with three levels.
use mountain_king.Errors.{Result, ok, validation_error, err_validation_depth_exceeded}
use mountain_king.Prelude.{ℕ, ◌⊎◌, ◌≡◌, refl, List, [], ◌∷◌}
use mountain_king.Prelude.Int.{pos}
use mountain_king.Server.Depth.{SelectionSet, empty, and, field, inline_fragment, limit_depth}
use mountain_king.Server.Depth.Paths.{HasChain, limit_depth-HasChain}

abbrev document : List SelectionSet
document =
    and (field empty) (and (field (and (inline_fragment (and (field empty) empty)) empty)) empty)
    ∷ []

abbrev next : List SelectionSet → Result ℕ
next ops = ok 0

deep : limit_depth (pos 2) next document ≡ validation_error err_validation_depth_exceeded
unfolding limit_depth
deep = refl

shallow : limit_depth (pos 3) next document ≡ ok 0
unfolding limit_depth
shallow = refl

limit_depth-HasChain_example :
    (HasChain 3 document
      × (limit_depth (pos 2) next document ≡ validation_error err_validation_depth_exceeded))
    ⊎ (¬ HasChain 3 document × (limit_depth (pos 2) next document ≡ next document))
limit_depth-HasChain_example = limit_depth-HasChain 1 next document
