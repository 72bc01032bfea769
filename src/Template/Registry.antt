-- ===== src/Template/Registry.antt =====
-- internal/template/registry.go, and `Reload` and `ListTemplates` of engine.go. A map is the list of its
-- entries, in the order in which a `range` goes through it. `A` is the type of templates; what the
-- loader read from the disk is an input.
pub mod Reloaded
pub mod Pages
mod Tests
use mountain_king.Prelude.{
  ℕ, zero, suc, ◌-◌, Bool, true, false, not, ◌&&◌, ◌||◌, Option, none, some, List, [], ◌∷◌, Bytes,
  bytes_eq, ltb, leb, if◌then◌else◌, length,
}
use mountain_king.Prelude.Int.{ℤ, pos, negsuc}
use mountain_king.Table.{Table, find, put}
use mountain_king.Template.Keys.{less}

module _ {A : Type 0} where
  -- `sort.Slice` by the names.
  unfoldable pub insert_named : Bytes × A → List (Bytes × A) → List (Bytes × A)
  unfolding less
  insert_named x [] = x ∷ []
  insert_named x (y ∷ ys) =
      let rest = insert_named x ys in if less y.0 x.0 then y ∷ rest else x ∷ y ∷ ys

  unfoldable pub get_all : Table A → List (Bytes × A)
  unfolding insert_named
  get_all [] = []
  get_all (x ∷ xs) = insert_named x (get_all xs)

  unfoldable pub drop : ℕ → List A → List A
  drop zero xs = xs
  drop (suc n) [] = []
  drop (suc n) (x ∷ xs) = drop n xs

  unfoldable pub take : ℕ → List A → List A
  take zero xs = []
  take (suc n) [] = []
  take (suc n) (x ∷ xs) = x ∷ take n xs

  -- `if offset != nil && *offset > 0 { … }`; an offset behind the end leaves nothing.
  unfoldable pub skip_to : Option ℤ → List A → List A
  unfolding drop
  skip_to (some (pos n)) infos = if leb (length infos) n then [] else drop n infos
  skip_to offset infos = infos

  -- `if first != nil && *first >= 0 && *first < len(infos) { … }`.
  unfoldable pub cut_at : Option ℤ → List A → List A
  unfolding take
  cut_at (some (pos n)) infos = if ltb n (length infos) then take n infos else infos
  cut_at first infos = infos

  unfoldable pub page_of_templates : Option ℤ → Option ℤ → List A → List A
  unfolding skip_to cut_at
  page_of_templates first offset infos = cut_at first (skip_to offset infos)

pub record TemplateRegistry (A : Type 0) : Type 0 where
  pub templates : List (Bytes × A)
  pub hashes : List (Bytes × Bytes)

-- What the loader returns: the templates that it read with their hashes, and the names that failed.
pub record LoadResult (A : Type 0) : Type 0 where
  pub registered : List (Bytes × A)
  pub hashes : List (Bytes × Bytes)
  pub failures : List Bytes

pub record ReloadResult : Type 0 where
  pub success_count : ℕ
  pub failures : List Bytes

pub record ReloadState (A : Type 0) : Type 0 where
  pub registry : TemplateRegistry A
  pub last_reload_at : ℕ
  pub last_reload_result : Option ReloadResult

-- The answer, nothing for the error of the loader; the names whose cache is cleared; the state.
pub record Reloading (A : Type 0) : Type 0 where
  pub answer : Option ReloadResult
  pub cleared : List Bytes
  pub state : ReloadState A

-- 10 seconds, in nanoseconds.
abbrev pub cooldown : ℕ
cooldown = 10000000000

abbrev pub is_some : Option ReloadResult → Bool
is_some none = false
is_some (some r) = true

module _ {A : Type 0} where
  -- The templates that failed to load keep their old version.
  unfoldable pub keep_old : TemplateRegistry A → List Bytes → List (Bytes × A) → List (Bytes × A)
  unfolding find put
  keep_old old [] registered = registered
  keep_old old (f ∷ fs) registered = elim (find f old.templates) [
    | none ↦ keep_old old fs registered
    | some a ↦ keep_old old fs (put f a registered)
  ]

  unfoldable pub keep_hashes :
      TemplateRegistry A → List Bytes → List (Bytes × Bytes) → List (Bytes × Bytes)
  unfolding find put
  keep_hashes old [] hashes = hashes
  keep_hashes old (f ∷ fs) hashes = elim (find f old.templates) [
    | none ↦ keep_hashes old fs hashes
    | some a ↦ elim (find f old.hashes) [
      | none ↦ keep_hashes old fs hashes
      | some h ↦ keep_hashes old fs (put f h hashes)
    ]
  ]

  unfoldable pub is_changed : TemplateRegistry A → Bytes → Bytes → Bool
  unfolding find
  is_changed old name hash = elim (find name old.hashes) [
    | none ↦ true
    | some h ↦ not (bytes_eq h hash)
  ]

  unfoldable pub changed : TemplateRegistry A → List (Bytes × Bytes) → List Bytes
  unfolding is_changed
  changed old [] = []
  changed old ((name, hash) ∷ hashes) =
      let rest = changed old hashes in if is_changed old name hash then name ∷ rest else rest

  -- Behind the cooldown; `has_cache` tells whether there is a cache layer.
  unfoldable pub reload_now : Bool → ℕ → Option (LoadResult A) → ReloadState A → Reloading A
  unfolding keep_old keep_hashes changed
  reload_now has_cache now none st = record { answer = none; cleared = []; state = st }
  reload_now has_cache now (some lr) st =
      let hashes = keep_hashes st.registry lr.failures lr.hashes in
      let result : ReloadResult = record {
        success_count = length lr.registered;
        failures = lr.failures;
      } in
      record {
        answer = some result;
        cleared = if has_cache then changed st.registry hashes else [];
        state = record {
          registry = record {
            templates = keep_old st.registry lr.failures lr.registered;
            hashes = hashes;
          };
          last_reload_at = now;
          last_reload_result = some result;
        };
      }

  unfoldable pub reload : Bool → Bool → ℕ → Option (LoadResult A) → ReloadState A → Reloading A
  unfolding reload_now
  reload has_cache from_mutation now lr st =
      let fresh = reload_now has_cache now lr st in
      if from_mutation && (ltb (now - st.last_reload_at) cooldown && is_some st.last_reload_result)
      then record { answer = st.last_reload_result; cleared = []; state = st }
      else fresh
