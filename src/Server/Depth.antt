-- ===== src/Server/Depth.antt =====
-- internal/server/server.go: the depth of the operations of a document and the test of it. The parser
-- has put the definition of a fragment where it is spread, if there is one.
mod Paths
mod Tests
use mountain_king.Errors.{Result, validation_error, err_validation_depth_exceeded}
use mountain_king.Prelude.{ℕ, zero, suc, ◌+◌, List, [], ◌∷◌, if◌then◌else◌, ltb}
use mountain_king.Prelude.Int.{ℤ, pos, ltb_ℤ}

mutual
  pub data SelectionSet : Type 0 where
    empty : SelectionSet
    and : Selection → SelectionSet → SelectionSet

  pub data Selection : Type 0 where
    field : SelectionSet → Selection
    inline_fragment : SelectionSet → Selection
    fragment_spread : SelectionSet → Selection
    unknown_spread : Selection

-- What a selection holds.
abbrev pub children : Selection → SelectionSet
children (field ss) = ss
children (inline_fragment ss) = ss
children (fragment_spread ss) = ss
children unknown_spread = empty

abbrev pub max : ℕ → ℕ → ℕ
max m n = if ltb m n then n else m

unfoldable mutual
  pub selection_set_depth : SelectionSet → ℕ
  selection_set_depth empty = 0
  selection_set_depth (and sel ss) = 1 + max (child_depth sel) (max_child ss)

  pub max_child : SelectionSet → ℕ
  max_child empty = 0
  max_child (and sel ss) = max (child_depth sel) (max_child ss)

  pub child_depth : Selection → ℕ
  child_depth (field ss) = selection_set_depth ss
  child_depth (inline_fragment ss) = selection_set_depth ss
  child_depth (fragment_spread ss) = selection_set_depth ss
  child_depth unknown_spread = 0

unfoldable pub calc_selection_set_depth : List SelectionSet → ℕ
unfolding selection_set_depth
calc_selection_set_depth [] = 0
calc_selection_set_depth (op ∷ ops) = max (selection_set_depth op) (calc_selection_set_depth ops)

-- The handler of operations in `NewGraphQLHandler`, in front of `next`.
unfoldable pub limit_depth :
    {A : Type 0} → ℤ → (List SelectionSet → Result A) → List SelectionSet → Result A
unfolding calc_selection_set_depth
limit_depth max_depth next ops =
    if ltb_ℤ (pos 0) max_depth
    then (if ltb_ℤ max_depth (pos (calc_selection_set_depth ops))
        then validation_error err_validation_depth_exceeded
        else next ops)
    else next ops
