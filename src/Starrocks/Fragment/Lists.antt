-- ===== src/Starrocks/Fragment/Lists.antt =====
-- Lists of fragments, joined by a separator without placeholders.
use mountain_king.Prelude.{
  ℕ, zero, suc, ◌+◌, ◌*◌, ◌≡◌, refl, subst, List, [], ◌∷◌, ◌++◌, map, arith, Bytes, All, length,
  replicate, join,
}
use mountain_king.Starrocks.Fragment.{IsFragment, nil-IsFragment, append-IsFragment}

-- Fragments with `n` placeholders in all.
pub data AreFragments : ℕ → List Bytes → Type 0 where
  none_left : AreFragments 0 []
  more :
      {m n k : ℕ} {x : Bytes} {xs : List Bytes}
      → IsFragment m x
      → AreFragments n xs
      → k ≡ m + n
      → AreFragments k (x ∷ xs)

pub cast : {m n : ℕ} {s : Bytes} → m ≡ n → IsFragment m s → IsFragment n s
cast e p = ground arith

pub append-AreFragments :
    {m n k : ℕ} {xs ys : List Bytes}
    → AreFragments m xs
    → AreFragments n ys
    → k ≡ m + n
    → AreFragments k (xs ++ ys)
append-AreFragments {ys} none_left q e = subst (λ j. AreFragments j ys) (omega arith) q
append-AreFragments (more p ps d) q e = more p (append-AreFragments ps q refl) (omega arith)

pub join-IsFragment :
    {n : ℕ} {xs : List Bytes} (sep : Bytes)
    → IsFragment 0 sep
    → AreFragments n xs
    → IsFragment n (join xs sep)
unfolding join
join-IsFragment sep s none_left = nil-IsFragment
join-IsFragment sep s (more p none_left e) = cast (omega arith) p
join-IsFragment sep s (more p (more q qs d) e) =
    cast (omega arith)
      (append-IsFragment p (append-IsFragment s (join-IsFragment sep s (more q qs d))))

pub replicate-AreFragments :
    (k : ℕ) {m : ℕ} {x : Bytes} → IsFragment m x → AreFragments (k * m) (replicate k x)
replicate-AreFragments zero p = subst (λ j. AreFragments j []) (omega arith) none_left
replicate-AreFragments (suc k) p = more p (replicate-AreFragments k p) (grind arith)

-- `f` of each text of a list, where `f` adds `m` placeholders to a text with none.
pub map-AreFragments :
    (f : Bytes → Bytes) (m : ℕ)
    → ((s : Bytes) → IsFragment 0 s → IsFragment m (f s))
    → (xs : List Bytes) → All (IsFragment 0) xs
    → AreFragments (length xs * m) (map f xs)
map-AreFragments f m h [] a = subst (λ j. AreFragments j []) (omega arith) none_left
map-AreFragments f m h (x ∷ xs) (a, as') =
    more (h x a) (map-AreFragments f m h xs as') (grind arith)
