-- ===== src/Template/Sanitizer/Fixpoint.antt =====
-- The scanner leaves its own output alone.
use mountain_king.Errors.{ok}
use mountain_king.Prelude.{ℕ, zero, suc, ◌≡◌, ◌≢◌, refl, [], ◌∷◌, true, false, arith, Bytes}
use mountain_king.Template.Sanitizer.{
  State, normal, in_single_quote, in_double_quote, in_backtick, in_line_comment, in_block_comment,
  in_hint, next_is, second_is, round, finish, scan, sanitize_sql, backslash, single_quote,
  double_quote, backtick,
}
use mountain_king.Template.Sanitizer.Steps.{Split, split, scan-prepend}

-- The state in which the scanner meets its output again: comments are gone from it.
abbrev visible : State → State
visible in_line_comment = normal
visible in_block_comment = normal
visible state = state

abbrev IsComment : State → Type 0
IsComment state = visible state ≢ state

-- What a comment leaves begins with the blank or the newline that stands for it.
comment-next_is :
    (d skip : ℕ) (state : State) (sql o : Bytes)
    → visible state ≢ state
    → d ≢ b' '
    → d ≢ 10
    → scan skip state sql [] ≡ ok o
    → next_is d o ≡ false
unfolding scan finish next_is round
comment-next_is d skip normal [] o c a b h = ground arith
comment-next_is d skip state [] o c a b h = ground arith
comment-next_is d (suc skip) state (ch ∷ rest) o c a b h =
    comment-next_is d skip state rest o c a b h
comment-next_is d zero in_line_comment (ch ∷ rest) o c a b h =
    let p = split in_line_comment ch rest o h in
    ground (arith, comment-next_is d 0 in_line_comment rest o c a b)
comment-next_is d zero in_block_comment (ch ∷ rest) o c a b h =
    let p = split in_block_comment ch rest o h in
    ground (arith, comment-next_is d 0 in_block_comment rest o c a b)
comment-next_is d zero state (ch ∷ rest) o c a b h = absurd (c refl)

-- Outside comments the output begins as the text does, but for what stands for a comment.
next_is-scan :
    (d : ℕ) (state : State) (sql o : Bytes)
    → visible state ≡ state
    → d ≢ b' '
    → d ≢ 10
    → scan zero state sql [] ≡ ok o
    → next_is d o ≡ true
    → next_is d sql ≡ true
unfolding scan finish next_is round
next_is-scan d normal [] o v a b h n = ground arith
next_is-scan d state [] o v a b h n = ground arith
next_is-scan d normal (ch ∷ rest) o v a b h n =
    let p = split normal ch rest o h in
    ground (
      arith,
      comment-next_is d 1 in_line_comment rest p.o' (cc) a b,
      comment-next_is d 1 in_block_comment rest p.o' (cc) a b,
    )
next_is-scan d state (ch ∷ rest) o v a b h n = let p = split state ch rest o h in ground arith

-- The output of one round, and what follows it, is scanned to itself, if what follows is.
module _ (ch : ℕ) (rest o : Bytes) where
  rescan-normal :
      (p : Split normal ch rest o)
      → scan zero (visible p.state') p.o' [] ≡ ok p.o'
      → scan zero normal o [] ≡ ok o
  unfolding scan next_is second_is round
  rescan-normal p ih = ground (
    arith,
    ih,
    p.tail,
    scan-prepend zero (visible p.state') p.o' p.bytes,
    next_is-scan b'-' normal rest p.o',
    next_is-scan b'*' normal rest p.o',
  )

  rescan-in_single_quote :
      (p : Split in_single_quote ch rest o)
      → scan zero (visible p.state') p.o' [] ≡ ok p.o'
      → scan zero in_single_quote o [] ≡ ok o
  unfolding scan next_is second_is round
  rescan-in_single_quote p ih = ground (
    arith,
    ih,
    p.tail,
    scan-prepend zero (visible p.state') p.o' p.bytes,
    next_is-scan backslash in_single_quote rest p.o',
    next_is-scan single_quote in_single_quote rest p.o',
    next_is-scan single_quote normal rest p.o',
  )

  rescan-in_double_quote :
      (p : Split in_double_quote ch rest o)
      → scan zero (visible p.state') p.o' [] ≡ ok p.o'
      → scan zero in_double_quote o [] ≡ ok o
  unfolding scan next_is second_is round
  rescan-in_double_quote p ih = ground (
    arith,
    ih,
    p.tail,
    scan-prepend zero (visible p.state') p.o' p.bytes,
    next_is-scan double_quote normal rest p.o',
  )

  rescan-in_backtick :
      (p : Split in_backtick ch rest o)
      → scan zero (visible p.state') p.o' [] ≡ ok p.o'
      → scan zero in_backtick o [] ≡ ok o
  unfolding scan next_is second_is round
  rescan-in_backtick p ih = ground (
    arith,
    ih,
    p.tail,
    scan-prepend zero (visible p.state') p.o' p.bytes,
    next_is-scan backtick normal rest p.o',
  )

  rescan-in_line_comment :
      (p : Split in_line_comment ch rest o)
      → scan zero (visible p.state') p.o' [] ≡ ok p.o'
      → scan zero normal o [] ≡ ok o
  unfolding scan next_is second_is round
  rescan-in_line_comment p ih = ground (arith, ih, p.tail, scan-prepend zero normal p.o' p.bytes)

  rescan-in_block_comment :
      (p : Split in_block_comment ch rest o)
      → scan zero (visible p.state') p.o' [] ≡ ok p.o'
      → scan zero normal o [] ≡ ok o
  unfolding scan next_is second_is round
  rescan-in_block_comment p ih = ground (arith, ih, p.tail, scan-prepend zero normal p.o' p.bytes)

  rescan-in_hint :
      (p : Split in_hint ch rest o)
      → scan zero (visible p.state') p.o' [] ≡ ok p.o'
      → scan zero in_hint o [] ≡ ok o
  unfolding scan next_is second_is round
  rescan-in_hint p ih = ground (
    arith,
    ih,
    p.tail,
    scan-prepend zero (visible p.state') p.o' p.bytes,
    next_is-scan b'/' in_hint rest p.o',
  )

rescan_end :
    (skip : ℕ) (state : State) (o : Bytes)
    → scan skip state [] [] ≡ ok o
    → scan zero (visible state) o [] ≡ ok o
unfolding scan finish
rescan_end skip normal o h = ground arith
rescan_end skip state o h = ground arith

scan-suc :
    (skip : ℕ) (state : State) (ch : ℕ) (rest o : Bytes)
    → scan (suc skip) state (ch ∷ rest) [] ≡ ok o
    → scan skip state rest [] ≡ ok o
unfolding scan
scan-suc skip state ch rest o h = h

rescan :
    (skip : ℕ) (state : State) (sql o : Bytes)
    → scan skip state sql [] ≡ ok o
    → scan zero (visible state) o [] ≡ ok o
rescan skip state [] o h = rescan_end skip state o h
rescan (suc skip) state (ch ∷ rest) o h = rescan skip state rest o (scan-suc skip state ch rest o h)
rescan zero normal (ch ∷ rest) o h =
    let p = split normal ch rest o h in
    rescan-normal ch rest o p (rescan p.skip p.state' rest p.o' p.tail)
rescan zero in_single_quote (ch ∷ rest) o h =
    let p = split in_single_quote ch rest o h in
    rescan-in_single_quote ch rest o p (rescan p.skip p.state' rest p.o' p.tail)
rescan zero in_double_quote (ch ∷ rest) o h =
    let p = split in_double_quote ch rest o h in
    rescan-in_double_quote ch rest o p (rescan p.skip p.state' rest p.o' p.tail)
rescan zero in_backtick (ch ∷ rest) o h =
    let p = split in_backtick ch rest o h in
    rescan-in_backtick ch rest o p (rescan p.skip p.state' rest p.o' p.tail)
rescan zero in_line_comment (ch ∷ rest) o h =
    let p = split in_line_comment ch rest o h in
    rescan-in_line_comment ch rest o p (rescan p.skip p.state' rest p.o' p.tail)
rescan zero in_block_comment (ch ∷ rest) o h =
    let p = split in_block_comment ch rest o h in
    rescan-in_block_comment ch rest o p (rescan p.skip p.state' rest p.o' p.tail)
rescan zero in_hint (ch ∷ rest) o h =
    let p = split in_hint ch rest o h in
    rescan-in_hint ch rest o p (rescan p.skip p.state' rest p.o' p.tail)

-- What the sanitizer accepts it does not change again: its output has no comment left, nothing that
-- would be refused, and no new comment, quote or hint made by joining what stood around a comment.
pub sanitize_sql_idem : (sql o : Bytes) → sanitize_sql sql ≡ ok o → sanitize_sql o ≡ ok o
unfolding sanitize_sql
sanitize_sql_idem sql o h = rescan zero normal sql o h
