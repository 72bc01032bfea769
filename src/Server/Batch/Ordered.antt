-- ===== src/Server/Batch/Ordered.antt =====
-- The results of a batch stand in the order of its queries.
use mountain_king.Errors.{ok}
use mountain_king.Prelude.{
  ℕ, zero, suc, ◌≡◌, ◌<◌, ◌≤◌, refl, ap, ◌∙◌, sym, true, false, Option, some, List, [], ◌∷◌, Bytes,
  ◌==◌, if◌then◌else◌, length, length-map, map, ltb, any, replicate, arith, ◌⊎◌, inl, inr,
  Bool-cases,
}
use mountain_king.Prelude.Int.{ℤ}
use mountain_king.Server.Batch.{
  batch_limit, set_result, finish_all, batch, query_at, run_batch, serve_http, is_batch_request,
}
use mountain_king.Template.Registry.Pages.{get_elem?}

length-set_result : (rs : List Bytes) (j : ℕ) (v : Bytes) → length (set_result rs j v) ≡ length rs
unfolding set_result
length-set_result [] j v = refl
length-set_result (r ∷ rs) zero v = refl
length-set_result (r ∷ rs) (suc j) v = ap suc (length-set_result rs j v)

get_elem?-set_result :
    (rs : List Bytes) (j i : ℕ) (v : Bytes)
    → i < length rs
    → get_elem? (set_result rs j v) i ≡ (if j == i then some v else get_elem? rs i)
unfolding set_result get_elem?
get_elem?-set_result [] j i v h = absurd (omega arith)
get_elem?-set_result (r ∷ rs) zero zero v h = refl
get_elem?-set_result (r ∷ rs) zero (suc i) v h = ground arith
get_elem?-set_result (r ∷ rs) (suc j) zero v h = ground arith
get_elem?-set_result (r ∷ rs) (suc j) (suc i) v h =
    get_elem?-set_result rs j i v (omega arith) ∙ ground arith

length-finish_all :
    (f : ℕ → Bytes) (order : List ℕ) (rs : List Bytes) → length (finish_all f order rs) ≡ length rs
unfolding finish_all
length-finish_all f [] rs = refl
length-finish_all f (j ∷ order) rs =
    length-finish_all f order (set_result rs j (f j)) ∙ length-set_result rs j (f j)

get_elem?-finish_all :
    (f : ℕ → Bytes) (order : List ℕ) (rs : List Bytes) (i : ℕ)
    → i < length rs
    → (any (λ j. j == i) order ≡ true) ⊎ (get_elem? rs i ≡ some (f i))
    → get_elem? (finish_all f order rs) i ≡ some (f i)
unfolding finish_all
get_elem?-finish_all f [] rs i h (inl e) = cc
get_elem?-finish_all f [] rs i h (inr e) = e
get_elem?-finish_all f (j ∷ order) rs i h found =
    let same_length = length-set_result rs j (f j) in
    let placed = get_elem?-set_result rs j i (f j) h in
    get_elem?-finish_all f order (set_result rs j (f j)) i (omega arith)
      (elim (Bool-cases (j == i)) [
        | inl same ↦ let same_place : j ≡ i = ground arith in inr cc
        | inr other ↦ elim found [ inl later ↦ inl cc | inr before ↦ inr cc ]
      ])

get_elem?-ext :
    (xs ys : List Bytes)
    → length xs ≡ length ys
    → ((i : ℕ) → i < length xs → get_elem? xs i ≡ get_elem? ys i)
    → xs ≡ ys
unfolding get_elem?
get_elem?-ext [] [] e h = refl
get_elem?-ext [] (b ∷ ys) e h = absurd (omega arith)
get_elem?-ext (a ∷ xs) [] e h = absurd (omega arith)
get_elem?-ext (a ∷ xs) (b ∷ ys) e h =
    let first = h 0 (omega arith) in
    let rest = get_elem?-ext xs ys (omega arith) (λ i k. h (suc i) (omega arith)) in cc

get_elem?-query_at :
    (f : Bytes → Bytes) (qs : List Bytes) (i : ℕ)
    → i < length qs
    → get_elem? (map f qs) i ≡ some (f (query_at qs i))
unfolding get_elem?
get_elem?-query_at f [] i h = absurd (omega arith)
get_elem?-query_at f (q ∷ qs) zero h = refl
get_elem?-query_at f (q ∷ qs) (suc i) h = get_elem?-query_at f qs i (omega arith)

abbrev blank_result : Bytes
blank_result = []

length-replicate : (n : ℕ) → length (replicate n blank_result) ≡ n
length-replicate zero = refl
length-replicate (suc n) = ap suc (length-replicate n)

-- Every place of a batch is that of a goroutine which ends.
abbrev pub IsComplete : List ℕ → ℕ → Type 0
IsComplete order count = (i : ℕ) → i < count → any (λ j. j == i) order ≡ true

run_batch-ordered :
    (max : ℤ) (next : ℕ → Bytes → Bytes) (order : List ℕ) (queries : List Bytes)
    → length queries ≤ batch_limit max
    → IsComplete order (length queries)
    → run_batch max next order (some queries) ≡ ok (batch (map (next (length queries)) queries))
unfolding run_batch
run_batch-ordered max next order [] small complete = refl
run_batch-ordered max next order (q ∷ queries) small complete =
    let count = length (q ∷ queries) in
    let at : ℕ → Bytes = λ i. next count (query_at (q ∷ queries) i) in
    let blank : List Bytes = replicate count [] in
    let size : length blank ≡ count = length-replicate count in
    let kept = length-finish_all at order blank in
    let mapped = length-map (q ∷ queries) (next count) in
    let same =
      get_elem?-ext (finish_all at order blank) (map (next count) (q ∷ queries)) (omega arith)
        (λ i h.
          get_elem?-finish_all at order blank i (omega arith) (inl (complete i (omega arith)))
          ∙ sym (get_elem?-query_at (next count) (q ∷ queries) i (omega arith))) in
    let within : ltb (batch_limit max) count ≡ false = ground arith in
    rw within (ap (λ rs. ok (batch rs)) same)

-- A body that is an array of at most as many queries as the limit allows gets the answers of its
-- queries in their order, in whatever order the goroutines end, each of them once or more often; the
-- handler behind sees the number of queries with each.
pub serve_http-ordered :
    (max : ℤ) (parse : Bytes → Option (List Bytes)) (next : ℕ → Bytes → Bytes) (order : List ℕ)
    (body : Bytes) (queries : List Bytes)
    → is_batch_request body ≡ true
    → parse body ≡ some queries
    → length queries ≤ batch_limit max
    → IsComplete order (length queries)
    → serve_http max parse next order (some body) ≡ ok (batch (map (next (length queries)) queries))
unfolding serve_http
serve_http-ordered max parse next order body queries array parsed small complete =
    rw array (rw parsed (run_batch-ordered max next order queries small complete))
