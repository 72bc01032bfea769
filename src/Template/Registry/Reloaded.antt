-- ===== src/Template/Registry/Reloaded.antt =====
-- What the registry holds after a reload.
use mountain_king.Prelude.{
  ℕ, ltb, ◌-◌, ◌&&◌, ◌≡◌, refl, Bool, Option, none, some, List, [], ◌∷◌, Bytes, arith, bytes_eq,
  bytes_eq_iff, any, if◌then◌else◌, Option-cases, inl, inr, false,
}
use mountain_king.Table.{Table, find, put, find-put}
use mountain_king.Template.Registry.{
  is_some, cooldown, reload, Table, find, put, TemplateRegistry, LoadResult, ReloadState, keep_old,
  reload_now,
}

-- The first, or else the second.
abbrev pub or_else : {A : Type 0} → Option A → Option A → Option A
or_else none b = b
or_else (some a) b = some a

find-keep_old :
    {A : Type 0} (old : TemplateRegistry A) (failures : List Bytes) (registered : Table A)
    (q : Bytes)
    → find q (keep_old old failures registered) ≡ (
        if any (λ f. bytes_eq f q) failures
        then or_else (find q old.templates) (find q registered)
        else find q registered)
unfolding keep_old
find-keep_old old [] registered q = refl
find-keep_old old (f ∷ fs) registered q = elim (Option-cases (find f old.templates)) [
  | inl missing ↦ ground (arith, find-keep_old old fs registered q, bytes_eq_iff f q)
  | inr (a, found) ↦ ground (
    arith,
    find-keep_old old fs (put f a registered) q,
    find-put q f a registered,
    bytes_eq_iff f q,
  )
]

-- After a reload that the cooldown does not hold off and whose loader ran, a template that failed to
-- load is the one that was registered before, if there was one, and every other name is what was
-- loaded: a broken file takes no template away.
pub find-reload :
    {A : Type 0} (has_cache from_mutation : Bool) (now : ℕ) (lr : LoadResult A) (st : ReloadState A)
    (q : Bytes)
    → from_mutation && (ltb (now - st.last_reload_at) cooldown && is_some st.last_reload_result)
      ≡ false
    → find q (reload has_cache from_mutation now (some lr) st).state.registry.templates ≡ (
        if any (λ f. bytes_eq f q) lr.failures
        then or_else (find q st.registry.templates) (find q lr.registered)
        else find q lr.registered)
unfolding reload reload_now
find-reload has_cache from_mutation now lr st q h =
    simp (h) (find-keep_old st.registry lr.failures lr.registered q)
