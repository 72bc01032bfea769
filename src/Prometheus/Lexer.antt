-- ===== src/Prometheus/Lexer.antt =====
-- The lexer of PromQL: what a query has outside of its string literals and comments. A literal stands
-- between double or single quotes, where a backslash takes the next byte with it and the end of a line is
-- an error, or between backticks; a comment goes from `#` to the end of the line.
use mountain_king.Prelude.{
  ℕ, ◌||◌, ◌≡◌, ◌≢◌, refl, [], ◌∷◌, ◌++◌, arith, Bytes, All, ◌==◌, if◌then◌else◌,
}

abbrev pub quote : ℕ
quote = 34

abbrev pub single_quote : ℕ
single_quote = 39

abbrev pub backtick : ℕ
backtick = 96

abbrev pub hash : ℕ
hash = 35

abbrev pub backslash : ℕ
backslash = 92

abbrev pub newline : ℕ
newline = 10

-- Inside of a literal with its delimiter, behind a backslash in it, in a raw literal, in a comment, and
-- behind an error.
pub data Lexer : Type 0 where
  outside raw comment broken : Lexer
  inside escaped : ℕ → Lexer

-- A text with the contents of its literals and its comments left out, up to an error.
unfoldable pub skeleton : Lexer → Bytes → Bytes
skeleton lexer [] = []
skeleton outside (c ∷ s) =
    let opened = skeleton (inside c) s in
    let opened_raw = skeleton raw s in
    let commented = skeleton comment s in
    let same = skeleton outside s in
    if c == quote || c == single_quote
    then c ∷ opened
    else if c == backtick
    then c ∷ opened_raw
    else if c == hash
    then commented
    else c ∷ same
skeleton (inside d) (c ∷ s) =
    let taken = skeleton (escaped d) s in
    let failed = skeleton broken s in
    let closed = skeleton outside s in
    let same = skeleton (inside d) s in
    if c == backslash
    then taken
    else if c == newline
    then failed
    else if c == d
    then c ∷ closed
    else same
skeleton (escaped d) (c ∷ s) = skeleton (inside d) s
skeleton raw (c ∷ s) =
    let closed = skeleton outside s in
    let same = skeleton raw s in if c == backtick then c ∷ closed else same
skeleton comment (c ∷ s) =
    let ended = skeleton outside s in
    let same = skeleton comment s in if c == newline then c ∷ ended else same
skeleton broken (c ∷ s) = []

-- No byte that opens a literal or a comment, and none that ends a literal in double quotes, escapes in it
-- or breaks it.
abbrev pub Quoteless : Bytes → Type 0
Quoteless = All (λ c. (c ≢ quote) × (c ≢ single_quote) × (c ≢ backtick) × (c ≢ hash))

abbrev pub Opaque : Bytes → Type 0
Opaque = All (λ c. (c ≢ quote) × (c ≢ backslash) × (c ≢ newline))

pub skeleton-outside :
    (s rest : Bytes) → Quoteless s → skeleton outside (s ++ rest) ≡ s ++ skeleton outside rest
unfolding skeleton
skeleton-outside [] rest h = refl
skeleton-outside (c ∷ s) rest (h, hs) = ground (arith, skeleton-outside s rest hs)

pub skeleton-inside :
    (s rest : Bytes) → Opaque s → skeleton (inside quote) (s ++ rest) ≡ skeleton (inside quote) rest
unfolding skeleton
skeleton-inside [] rest h = refl
skeleton-inside (c ∷ s) rest (h, hs) = ground (arith, skeleton-inside s rest hs)
