-- ===== src/Cache/Normalize.antt =====
-- internal/cache/normalize.go and key.go: the text of a query from which a key is made. Letters and
-- spaces are those of ASCII; the hash and the JSON of the variables are parameters.
mod Tokens
mod Tests
use mountain_king.Middleware.AuthFailureLimiter.ClientIp.{is_space}
use mountain_king.Prelude.{
  ℕ, zero, suc, ◌-◌, Bool, true, false, not, ◌&&◌, List, [], ◌∷◌, ◌++◌, Bytes, codes, leb, ◌==◌,
  if◌then◌else◌, any, map, join, has_prefix, bytes_eq,
}
use mountain_king.Prometheus.Validator.{to_lower}

-- Where the loop of `removeComments` stands.
pub data Place : Type 0 where
  outside in_string in_comment : Place

-- `escaped` is `isEscaped(query, i)`: whether the backslashes in front of the byte are of an odd number.
abbrev next_escaped : Bool → ℕ → Bool
next_escaped escaped ch = ch == 92 && not escaped

unfoldable pub remove_comments_from : Place → Bool → Bytes → Bytes
remove_comments_from place escaped [] = []
remove_comments_from outside escaped (ch ∷ s) =
    let opened = remove_comments_from in_string false s in
    let skipped = remove_comments_from in_comment false s in
    let copied = remove_comments_from outside (next_escaped escaped ch) s in
    if ch == 34 && not escaped then ch ∷ opened else if ch == b'#' then skipped else ch ∷ copied
remove_comments_from in_string escaped (ch ∷ s) =
    let closed = remove_comments_from outside false s in
    let copied = remove_comments_from in_string (next_escaped escaped ch) s in
    if ch == 34 && not escaped then ch ∷ closed else ch ∷ copied
remove_comments_from in_comment escaped (ch ∷ s) =
    let ended = remove_comments_from outside false s in
    let skipped = remove_comments_from in_comment false s in
    if ch == 10 then ch ∷ ended else skipped

unfoldable pub remove_comments : Bytes → Bytes
unfolding remove_comments_from
remove_comments query = remove_comments_from outside false query

unfoldable pub is_punctuation : ℕ → Bool
is_punctuation r = any (λ c. r == c) (codes "{}():!@$=,[]|&")

-- `flush`, in front of the tokens that follow.
unfoldable pub flush : Bytes → List Bytes → List Bytes
flush [] tokens = tokens
flush (c ∷ current) tokens = (c ∷ current) ∷ tokens

-- The loop of `tokenize`; `skip` is what `i += 2` has read ahead.
unfoldable pub tokenize_from : ℕ → Bytes → Bytes → List Bytes
unfolding flush is_space is_punctuation has_prefix
tokenize_from skip current [] = flush current []
tokenize_from (suc skip) current (r ∷ s) = tokenize_from skip current s
tokenize_from zero current (r ∷ s) =
    let cleared = tokenize_from zero [] s in
    let spread = tokenize_from 2 [] s in
    let longer = tokenize_from zero (current ++ r ∷ []) s in
    if is_space r
    then flush current cleared
    else if has_prefix (r ∷ s) (codes "...")
    then flush current (codes "..." ∷ spread)
    else if is_punctuation r
    then flush current ((r ∷ []) ∷ cleared)
    else longer

unfoldable pub tokenize : Bytes → List Bytes
unfolding tokenize_from
tokenize query = tokenize_from zero [] query

abbrev pub to_upper : ℕ → ℕ
to_upper c = if leb b'a' c && leb c b'z' then c - 32 else c

abbrev graphql_keywords : List Bytes
graphql_keywords =
    codes "QUERY"
    ∷ codes "MUTATION"
    ∷ codes "SUBSCRIPTION"
    ∷ codes "FRAGMENT"
    ∷ codes "ON"
    ∷ codes "TRUE"
    ∷ codes "FALSE"
    ∷ codes "NULL"
    ∷ []

unfoldable pub normal_token : Bytes → Bytes
unfolding to_lower bytes_eq
normal_token tok =
    if any (bytes_eq (map to_upper tok)) graphql_keywords then map to_lower tok else tok

unfoldable pub normalize_query : Bytes → Bytes
unfolding remove_comments tokenize normal_token join
normalize_query query = join (map normal_token (tokenize (remove_comments query))) (codes " ")

-- `Generate`, where `sum` is the hash of a text in hexadecimal digits, and `variables` what
-- `sortedVariablesJSON` makes of the variables.
unfoldable pub generate : (Bytes → Bytes) → Bytes → Bytes → Bytes → Bytes
unfolding normalize_query
generate sum datasource query variables =
    codes "cache:" ++ datasource ++ codes ":" ++ sum (normalize_query query ++ variables)
