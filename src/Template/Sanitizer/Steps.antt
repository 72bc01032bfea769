-- ===== src/Template/Sanitizer/Steps.antt =====
-- The loop of the scanner, one round at a time and with its output apart.
use mountain_king.Errors.{Result, ok, err}
use mountain_king.Prelude.{
  ℕ, zero, suc, ◌≡◌, refl, sym, ap, ◌∙◌, ◌++◌, [], ◌∷◌, append-nil, append_assoc, arith, Bytes,
}
use mountain_king.Template.Sanitizer.{State, Round, move, reject, round, finish, scan}

abbrev pub prepend : Bytes → Result Bytes → Result Bytes
prepend out (ok o) = ok (out ++ o)
prepend out (err e) = err e

prepend-append : (a b : Bytes) (r : Result Bytes) → prepend (a ++ b) r ≡ prepend a (prepend b r)
prepend-append a b (ok o) = ground (arith, append_assoc a b o)
prepend-append a b (err e) = refl

-- One round, when the bytes behind it are known to be scanned apart from the output.
scan-prepend-round :
    (state : State) (ch : ℕ) (rest out : Bytes)
    → ((skip : ℕ) (state' : State) (out' : Bytes)
        → scan skip state' rest out' ≡ prepend out' (scan skip state' rest []))
    → (r : Round) → round state ch rest ≡ r
    → scan zero state (ch ∷ rest) out ≡ prepend out (scan zero state (ch ∷ rest) [])
unfolding scan
scan-prepend-round state ch rest out ih (move bytes state' skip) e =
    rw (e, scan)
      (rw (ih skip state' (out ++ bytes), ih skip state' bytes) (prepend-append out bytes _))
scan-prepend-round state ch rest out ih reject e = rw (e, scan)

-- What is written so far does not change what the scanner makes of the bytes ahead.
pub scan-prepend :
    (skip : ℕ) (state : State) (sql out : Bytes)
    → scan skip state sql out ≡ prepend out (scan skip state sql [])
unfolding scan finish
scan-prepend skip state [] out = ground (arith, append-nil out)
scan-prepend (suc skip) state (ch ∷ rest) out = scan-prepend skip state rest out
scan-prepend zero state (ch ∷ rest) out =
    scan-prepend-round state ch rest out (λ skip state' out'. scan-prepend skip state' rest out') _
      refl

-- An accepted text splits into its first round and the rest.
pub record Split (state : State) (ch : ℕ) (rest o : Bytes) : Type 0 where
  pub bytes : Bytes
  pub state' : State
  pub skip : ℕ
  pub o' : Bytes
  pub head : round state ch rest ≡ move bytes state' skip
  pub tail : scan skip state' rest [] ≡ ok o'
  pub whole : o ≡ bytes ++ o'

prepend-eq-ok :
    (b : Bytes) (r : Result Bytes) (o : Bytes)
    → prepend b r ≡ ok o
    → (o' : Bytes) × (r ≡ ok o') × (o ≡ b ++ o')
prepend-eq-ok b (ok o') o h = (o', refl, cc)
prepend-eq-ok b (err e) o h = cc

split_at :
    (state : State) (ch : ℕ) (rest o : Bytes) (r : Round)
    → round state ch rest ≡ r
    → scan zero state (ch ∷ rest) [] ≡ ok o
    → Split state ch rest o
unfolding scan
split_at state ch rest o reject e h = ground arith
split_at state ch rest o (move bytes state' skip) e h =
    let found : scan skip state' rest bytes ≡ ok o = ground arith in
    let (o', tail, whole) =
      prepend-eq-ok bytes (scan skip state' rest []) o
        (sym (scan-prepend skip state' rest bytes) ∙ found) in
    record {
      bytes = bytes;
      state' = state';
      skip = skip;
      o' = o';
      head = e;
      tail = tail;
      whole = whole;
    }

pub split :
    (state : State) (ch : ℕ) (rest o : Bytes)
    → scan zero state (ch ∷ rest) [] ≡ ok o
    → Split state ch rest o
split state ch rest o h = split_at state ch rest o _ refl h

-- The other way round: a round and the scan of the rest make a scan.
pub scan-move :
    (state : State) (ch : ℕ) (rest : Bytes) {bytes : Bytes} {state' : State} {skip : ℕ} {o' : Bytes}
    → round state ch rest ≡ move bytes state' skip
    → scan skip state' rest [] ≡ ok o'
    → scan zero state (ch ∷ rest) [] ≡ ok (bytes ++ o')
unfolding scan
scan-move state ch rest {bytes} {state'} {skip} e h =
    rw (e, scan) (scan-prepend skip state' rest bytes ∙ ap (prepend bytes) h)
