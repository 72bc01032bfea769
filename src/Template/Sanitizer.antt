-- ===== src/Template/Sanitizer.antt =====
-- internal/template/sanitizer.go: `sanitizeSQL`, a scanner of seven states over the bytes of the
-- rendered SQL. A round of its loop reads up to three bytes, writes some, and moves `i` on.
mod Steps
mod Fixpoint
mod Tests
use mountain_king.Errors.{err_validation_unsafe_sql, Result, ok, validation_error}
use mountain_king.Prelude.{
  ℕ, zero, suc, Bool, false, ◌&&◌, [], ◌∷◌, ◌++◌, Bytes, ◌==◌, if◌then◌else◌,
}

pub data State : Type 0 where
  normal in_single_quote in_double_quote in_backtick in_line_comment in_block_comment in_hint :
      State

-- What a round of the loop does: the bytes that it writes, the next state, and how many bytes after
-- the current one it reads; or the return with an error.
pub data Round : Type 0 where
  move : Bytes → State → ℕ → Round
  reject : Round

-- `i+1 < n && sql[i+1] == c` and `i+2 < n && sql[i+2] == c`, for `rest` = `sql[i+1:]`.
unfoldable pub next_is : ℕ → Bytes → Bool
next_is c [] = false
next_is c (d ∷ rest) = d == c

unfoldable pub second_is : ℕ → Bytes → Bool
second_is c [] = false
second_is c (d ∷ rest) = next_is c rest

abbrev pub single_quote : ℕ
single_quote = 39

abbrev pub double_quote : ℕ
double_quote = 34

abbrev pub backtick : ℕ
backtick = 96

abbrev pub backslash : ℕ
backslash = 92

abbrev pub newline : ℕ
newline = 10

-- The `switch state` of the loop, at `ch` = `sql[i]`.
unfoldable pub round : State → ℕ → Bytes → Round
unfolding next_is second_is
round normal ch rest =
    if ch == single_quote
    then move (ch ∷ []) in_single_quote 0
    else if ch == double_quote
    then move (ch ∷ []) in_double_quote 0
    else if ch == backtick
    then move (ch ∷ []) in_backtick 0
    else if ch == b'-' && next_is b'-' rest
    then move [] in_line_comment 1
    else if ch == b'/' && next_is b'*' rest
    then if second_is b'+' rest
      then move (b'/' ∷ b'*' ∷ b'+' ∷ []) in_hint 2
      else move [] in_block_comment 1
    else if ch == b';'
    then reject
    else move (ch ∷ []) normal 0
round in_single_quote ch rest =
    if ch == backslash && next_is backslash rest
    then move (backslash ∷ backslash ∷ []) in_single_quote 1
    else if ch == backslash && next_is single_quote rest
    then move (backslash ∷ single_quote ∷ []) in_single_quote 1
    else if ch == single_quote && next_is single_quote rest
    then move (single_quote ∷ single_quote ∷ []) in_single_quote 1
    else if ch == single_quote
    then move (ch ∷ []) normal 0
    else move (ch ∷ []) in_single_quote 0
round in_double_quote ch rest =
    if ch == double_quote && next_is double_quote rest
    then move (double_quote ∷ double_quote ∷ []) in_double_quote 1
    else if ch == double_quote
    then move (ch ∷ []) normal 0
    else move (ch ∷ []) in_double_quote 0
round in_backtick ch rest =
    if ch == backtick && next_is backtick rest
    then move (backtick ∷ backtick ∷ []) in_backtick 1
    else if ch == backtick
    then move (ch ∷ []) normal 0
    else move (ch ∷ []) in_backtick 0
round in_line_comment ch rest =
    if ch == newline then move (newline ∷ []) normal 0 else move [] in_line_comment 0
round in_block_comment ch rest =
    if ch == b'*' && next_is b'/' rest
    then move (b' ' ∷ []) normal 1
    else move [] in_block_comment 0
round in_hint ch rest =
    if ch == b'*' && next_is b'/' rest
    then move (b'*' ∷ b'/' ∷ []) normal 1
    else move (ch ∷ []) in_hint 0

-- The check for unclosed states behind the loop.
unfoldable pub finish : State → Bytes → Result Bytes
finish normal out = ok out
finish in_line_comment out = ok out
finish in_single_quote out = validation_error err_validation_unsafe_sql
finish in_double_quote out = validation_error err_validation_unsafe_sql
finish in_backtick out = validation_error err_validation_unsafe_sql
finish in_block_comment out = validation_error err_validation_unsafe_sql
finish in_hint out = validation_error err_validation_unsafe_sql

-- The loop. `skip` is the number of bytes that the last round has read beyond its own.
unfoldable pub scan : ℕ → State → Bytes → Bytes → Result Bytes
scan skip state [] out = finish state out
scan (suc skip) state (ch ∷ rest) out = scan skip state rest out
scan zero state (ch ∷ rest) out = elim (round state ch rest) [
  | move bytes state' skip ↦ scan skip state' rest (out ++ bytes)
  | reject ↦ validation_error err_validation_unsafe_sql
]

unfoldable pub sanitize_sql : Bytes → Result Bytes
unfolding scan round finish next_is second_is
sanitize_sql sql = scan 0 normal sql []
