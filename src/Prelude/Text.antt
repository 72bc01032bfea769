-- ===== src/Prelude/Text.antt =====
-- Go strings as lists of bytes, with the operations of the package strings that the code calls.
use Prim.Native.Char.{code}
use Prim.Native.Nat.{ℕ}
use Prim.Native.String.{String}
use mathlib.Core.Bool.{Bool, true, false, ◌&&◌, ◌||◌}
use mathlib.Core.List.{List, [], ◌∷◌, ◌++◌}
use mathlib.Core.Logic.{◌↔◌, ◌≢◌}
use mathlib.Core.Path.{◌≡◌, refl}
use native.Mathlib.Omega.{arith}
use mountain_king.Prelude.Tests.{◌==◌, leb, if◌then◌else◌}
use mountain_king.Prelude.Lists.{all, All}

abbrev pub Bytes : Type 0
Bytes = List ℕ

-- The code points of a literal: its bytes, since the program's literals are ASCII.
abbrev pub codes : String → Bytes
codes String.[] = []
codes (String.◌∷◌ c s) = code c ∷ codes s

-- `strings.Join`.
unfoldable pub join : List Bytes → Bytes → Bytes
join [] sep = []
join (p ∷ []) sep = p
join (p ∷ q ∷ ps) sep = p ++ (sep ++ join (q ∷ ps) sep)

-- `strings.HasPrefix s prefix`.
unfoldable pub has_prefix : Bytes → Bytes → Bool
has_prefix s [] = true
has_prefix [] (p ∷ ps) = false
has_prefix (c ∷ s) (p ∷ ps) = c == p && has_prefix s ps

-- `==` on strings.
unfoldable pub bytes_eq : Bytes → Bytes → Bool
bytes_eq [] [] = true
bytes_eq [] (d ∷ t) = false
bytes_eq (c ∷ s) [] = false
bytes_eq (c ∷ s) (d ∷ t) = c == d && bytes_eq s t

pub bytes_eq_iff : (s t : Bytes) → (bytes_eq s t ≡ true) ↔ (s ≡ t)
unfolding bytes_eq
bytes_eq_iff [] [] = ground arith
bytes_eq_iff [] (d ∷ t) = ground arith
bytes_eq_iff (c ∷ s) [] = ground arith
bytes_eq_iff (c ∷ s) (d ∷ t) = ground (arith, bytes_eq_iff s t)

-- `strings.Split` at one byte: always at least one part.
cons_head : ℕ → List Bytes → List Bytes
cons_head c [] = (c ∷ []) ∷ []
cons_head c (p ∷ ps) = (c ∷ p) ∷ ps

unfoldable pub split : Bytes → ℕ → List Bytes
unfolding cons_head
split [] sep = [] ∷ []
split (c ∷ s) sep = let rest = split s sep in if c == sep then [] ∷ rest else cons_head c rest

split-ne-nil : (s : Bytes) (sep : ℕ) → split s sep ≢ []
unfolding split
split-ne-nil [] sep = ground arith
split-ne-nil (c ∷ s) sep = ground (arith, split-ne-nil s sep)

cons_head-append :
    (c : ℕ) (ps qs : List Bytes) → ps ≢ [] → cons_head c (ps ++ qs) ≡ cons_head c ps ++ qs
unfolding cons_head
cons_head-append c [] qs h = absurd (h refl)
cons_head-append c (p ∷ ps) qs h = refl

-- A separator splits what stands before it from what stands behind it.
pub split-append : (s t : Bytes) (sep : ℕ) → split (s ++ sep ∷ t) sep ≡ split s sep ++ split t sep
unfolding split
split-append [] t sep = ground arith
split-append (c ∷ s) t sep = ground (
  arith,
  split-append s t sep,
  cons_head-append c (split s sep) (split t sep) (split-ne-nil s sep),
)

-- A text without the separator is one part.
pub split_lacking : (t : Bytes) (sep : ℕ) → All (λ c. c ≢ sep) t → split t sep ≡ t ∷ []
unfolding split
split_lacking [] sep h = refl
split_lacking (c ∷ t) sep (h, hs) = ground (arith, split_lacking t sep hs)

-- `strings.ReplaceAll` of one byte.
unfoldable pub replace_all : Bytes → ℕ → Bytes → Bytes
replace_all [] old new = []
replace_all (c ∷ s) old new =
    let rest = replace_all s old new in if c == old then new ++ rest else c ∷ rest

-- `[a-zA-Z_]` and `[a-zA-Z0-9_]`.
abbrev pub is_letter : ℕ → Bool
is_letter c = leb b'a' c && leb c b'z' || leb b'A' c && leb c b'Z'

abbrev pub is_digit : ℕ → Bool
is_digit c = leb b'0' c && leb c b'9'

abbrev pub is_word : ℕ → Bool
is_word c = is_letter c || (is_digit c || c == b'_')

-- `^[a-zA-Z0-9_]+$`.
unfoldable pub is_words : Bytes → Bool
is_words [] = false
is_words (c ∷ s) = all is_word (c ∷ s)
