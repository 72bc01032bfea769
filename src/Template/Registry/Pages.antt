-- ===== src/Template/Registry/Pages.antt =====
-- The pages of the list of templates.
use mountain_king.Prelude.{
  true, ℕ, zero, suc, ◌+◌, ◌≡◌, refl, sym, ap, ◌∙◌, Bool, Option, none, some, List, [], ◌∷◌, arith,
  ltb, leb, length, if◌then◌else◌, Bool-cases, inl, inr, true,
}
use mountain_king.Prelude.Int.{ℤ, pos, negsuc}
use mountain_king.Template.Registry.{drop, take, skip_to, cut_at, page_of_templates}

-- The element at an index.
unfoldable pub get_elem? : {A : Type 0} → List A → ℕ → Option A
get_elem? [] i = none
get_elem? (x ∷ xs) zero = some x
get_elem? (x ∷ xs) (suc i) = get_elem? xs i

-- The number of elements that are left out, and whether an index is in front of the end of the page.
abbrev pub start : Option ℤ → ℕ
start (some (pos n)) = n
start offset = 0

abbrev pub is_within : Option ℤ → ℕ → Bool
is_within (some (pos n)) i = ltb i n
is_within first i = true

get_elem?-drop :
    {A : Type 0} (n : ℕ) (xs : List A) (i : ℕ) → get_elem? (drop n xs) i ≡ get_elem? xs (n + i)
unfolding get_elem? drop
get_elem?-drop zero xs i = ap (get_elem? xs) (omega arith)
get_elem?-drop (suc n) [] i = refl
get_elem?-drop (suc n) (x ∷ xs) i =
    get_elem?-drop n xs i ∙ ap (get_elem? (x ∷ xs)) {x = suc (n + i)} (omega arith)

get_elem?-take :
    {A : Type 0} (n : ℕ) (xs : List A) (i : ℕ)
    → get_elem? (take n xs) i ≡ (if ltb i n then get_elem? xs i else none)
unfolding get_elem? take
get_elem?-take zero xs i = ground arith
get_elem?-take (suc n) [] i = ground arith
get_elem?-take (suc n) (x ∷ xs) zero = ground arith
get_elem?-take (suc n) (x ∷ xs) (suc i) = ground (arith, get_elem?-take n xs i)

get_elem?-length :
    {A : Type 0} (xs : List A) (i : ℕ) → (leb (length xs) i) ≡ true → get_elem? xs i ≡ none
unfolding get_elem?
get_elem?-length [] i h = refl
get_elem?-length (x ∷ xs) zero h = ground arith
get_elem?-length (x ∷ xs) (suc i) h = ground (arith, get_elem?-length xs i (ground arith))

get_elem?-skip_to :
    {A : Type 0} (offset : Option ℤ) (xs : List A) (i : ℕ)
    → get_elem? (skip_to offset xs) i ≡ get_elem? xs (start offset + i)
unfolding skip_to get_elem?
get_elem?-skip_to none xs i = ap (get_elem? xs) (omega arith)
get_elem?-skip_to (some (negsuc n)) xs i = ap (get_elem? xs) (omega arith)
get_elem?-skip_to (some (pos n)) xs i = elim (Bool-cases (leb (length xs) n)) [
  | inl past ↦ rw (past) (sym (get_elem?-length xs (n + i) (ground arith)))
  | inr inside ↦ rw (inside) (get_elem?-drop n xs i)
]

uncut :
    {A : Type 0} (n : ℕ) (xs : List A) (i : ℕ)
    → leb (length xs) n ≡ true
    → get_elem? xs i ≡ (if ltb i n then get_elem? xs i else none)
uncut n xs i h = elim (Bool-cases (ltb i n)) [
  | inl below ↦ ground arith
  | inr beyond ↦ let nothing = get_elem?-length xs i (ground arith) in ground arith
]

get_elem?-cut_at :
    {A : Type 0} (first : Option ℤ) (xs : List A) (i : ℕ)
    → get_elem? (cut_at first xs) i ≡ (if is_within first i then get_elem? xs i else none)
unfolding cut_at
get_elem?-cut_at none xs i = refl
get_elem?-cut_at (some (negsuc n)) xs i = refl
get_elem?-cut_at (some (pos n)) xs i = elim (Bool-cases (ltb n (length xs))) [
  | inl cut ↦ rw (cut) (get_elem?-take n xs i)
  | inr whole ↦ rw (whole) (uncut n xs i (ground arith))
]

-- The i-th template of a page is the one that stands `offset` places behind in the list, for i below
-- `first`, and none from there on; a negative offset counts as none, and so does a negative first.
pub get_elem?-page_of_templates :
    {A : Type 0} (first offset : Option ℤ) (infos : List A) (i : ℕ)
    → get_elem? (page_of_templates first offset infos) i
      ≡ (if is_within first i then get_elem? infos (start offset + i) else none)
unfolding page_of_templates
get_elem?-page_of_templates first offset infos i =
    get_elem?-cut_at first (skip_to offset infos) i ∙ rw (get_elem?-skip_to offset infos i) refl
