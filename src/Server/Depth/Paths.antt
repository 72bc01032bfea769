-- ===== src/Server/Depth/Paths.antt =====
-- The depth is the length of the longest chain of selections, each in the one before.
use mountain_king.Errors.{Result, validation_error, err_validation_depth_exceeded}
use mountain_king.Prelude.{
  ℕ, zero, suc, ◌+◌, ◌≡◌, ◌≤◌, ◌<◌, refl, ◌⊎◌, inl, inr, Bool-cases, true, List, [], ◌∷◌, arith,
  leb,
}
use mountain_king.Prelude.Int.{pos, ltb_ℤ}
use mountain_king.Server.Depth.{
  SelectionSet, empty, and, Selection, field, inline_fragment, fragment_spread, unknown_spread,
  children, max, selection_set_depth, max_child, child_depth, calc_selection_set_depth, limit_depth,
}

-- A chain of `n` selections, each held by the one before; the first is one of the set.
pub data Chain : ℕ → SelectionSet → Type 0 where
  stop : (ss : SelectionSet) → Chain 0 ss
  here :
      (n : ℕ) (sel : Selection) (ss : SelectionSet)
      → Chain n (children sel)
      → Chain (suc n) (and sel ss)
  there :
      (n : ℕ) (sel : Selection) (ss : SelectionSet) → Chain (suc n) ss → Chain (suc n) (and sel ss)

child_depth-children : (sel : Selection) → child_depth sel ≡ selection_set_depth (children sel)
unfolding child_depth selection_set_depth
child_depth-children (field ss) = refl
child_depth-children (inline_fragment ss) = refl
child_depth-children (fragment_spread ss) = refl
child_depth-children unknown_spread = refl

depth-max_child : (ss : SelectionSet) → selection_set_depth ss ≤ suc (max_child ss)
unfolding selection_set_depth max_child
depth-max_child empty = omega arith
depth-max_child (and sel ss) = omega arith

max_child-depth :
    (n : ℕ) (ss : SelectionSet) → suc n ≤ max_child ss → suc (suc n) ≤ selection_set_depth ss
unfolding selection_set_depth max_child
max_child-depth n empty h = absurd (omega arith)
max_child-depth n (and sel ss) h = omega arith

Chain-depth : {n : ℕ} {ss : SelectionSet} → Chain n ss → n ≤ selection_set_depth ss
unfolding selection_set_depth
Chain-depth (stop ss) = omega arith
Chain-depth (here m sel rest c) =
    let below = Chain-depth c in let same = child_depth-children sel in ground arith
Chain-depth (there m sel rest c) =
    let below = Chain-depth c in let less = depth-max_child rest in ground arith

depth-rest :
    (n k : ℕ) (ss : SelectionSet)
    → k < n
    → suc n ≤ 1 + max k (max_child ss)
    → suc n ≤ selection_set_depth ss
depth-rest zero k ss h e = absurd (omega arith)
depth-rest (suc n) k ss h e = max_child-depth n ss (ground arith)

depth-Chain : (n : ℕ) (ss : SelectionSet) → n ≤ selection_set_depth ss → Chain n ss
unfolding selection_set_depth
depth-Chain zero ss h = stop ss
depth-Chain (suc n) empty h = absurd (omega arith)
depth-Chain (suc n) (and sel ss) h =
    let same = child_depth-children sel in
    elim (Bool-cases (leb n (child_depth sel))) [
      | inl deep ↦ here n sel ss (depth-Chain n (children sel) (ground arith))
      | inr shallow ↦
          there n sel ss
            (depth-Chain (suc n) ss (depth-rest n (child_depth sel) ss (ground arith) h))
    ]

-- An operation with a chain of `n` selections.
abbrev pub HasChain : ℕ → List SelectionSet → Type 0
HasChain n [] = ⊥
HasChain n (op ∷ ops) = Chain n op ⊎ HasChain n ops

HasChain-depth :
    (n : ℕ) (ops : List SelectionSet) → HasChain n ops → n ≤ calc_selection_set_depth ops
unfolding calc_selection_set_depth
HasChain-depth n [] x = elim x [ ]
HasChain-depth n (op ∷ ops) (inl c) = let deep = Chain-depth c in ground arith
HasChain-depth n (op ∷ ops) (inr c) = let deep = HasChain-depth n ops c in ground arith

depth-HasChain :
    (n : ℕ) (ops : List SelectionSet) → suc n ≤ calc_selection_set_depth ops → HasChain (suc n) ops
unfolding calc_selection_set_depth
depth-HasChain n [] h = absurd (omega arith)
depth-HasChain n (op ∷ ops) h = elim (Bool-cases (leb (suc n) (selection_set_depth op))) [
  | inl deep ↦ inl (depth-Chain (suc n) op (ground arith))
  | inr shallow ↦ inr (depth-HasChain n ops (ground arith))
]

-- With a positive maximum, a document with a chain of more selections than the maximum, each held by
-- the one before, fields, inline fragments and spread fragments alike, is refused; any other is handed on.
pub limit_depth-HasChain :
    {A : Type 0} (m : ℕ) (next : List SelectionSet → Result A) (ops : List SelectionSet)
    → (HasChain (suc (suc m)) ops
        × (limit_depth (pos (suc m)) next ops ≡ validation_error err_validation_depth_exceeded))
      ⊎ (¬ HasChain (suc (suc m)) ops × (limit_depth (pos (suc m)) next ops ≡ next ops))
unfolding limit_depth
limit_depth-HasChain m next ops =
    let limited : ltb_ℤ (pos 0) (pos (suc m)) ≡ true = ground arith in
    elim (Bool-cases (ltb_ℤ (pos (suc m)) (pos (calc_selection_set_depth ops)))) [
      | inl over ↦ inl (depth-HasChain (suc m) ops (ground arith), rw (limited, over) refl)
      | inr within ↦ inr (
        λ chain. let deep = HasChain-depth (suc (suc m)) ops chain in absurd (ground arith),
        rw (limited, within) refl,
      )
    ]
