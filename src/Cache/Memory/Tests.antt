-- ===== src/Cache/Memory/Tests.antt =====
-- A cache of two entries and eight bytes.
use mountain_king.Cache.Lru.{Lru, lookup}
use mountain_king.Cache.Lru.Listed.{listed, pushed_out}
use mountain_king.Cache.Lru.Lists.{total}
use mountain_king.Cache.Memory.{MemoryCache, get, set}
use mountain_king.Cache.Memory.Reads.{get-set}
use mountain_king.Cache.Memory.Room.{IsAccounted}
use mountain_king.Cache.Memory.Usage.{set_at, apply, apply-IsAccounted}
use mountain_king.Prelude.{◌+◌, ◌≡◌, refl, none, some, [], arith, codes, if◌then◌else◌, ltb}
use mountain_king.Prelude.Int.{pos, ◌+ℤ◌}

abbrev two : Lru
two = listed 2 (omega arith)

abbrev empty : MemoryCache two
empty = record { cache = ([], tt); mem_used = pos 0; max_memory = 8 }

empty-IsAccounted : IsAccounted two empty
unfolding total
empty-IsAccounted = refl

apply-IsAccounted_example :
    IsAccounted two (apply two (set_at 5 (codes "k") (codes "value") 10) empty)
apply-IsAccounted_example =
    apply-IsAccounted two (set_at 5 (codes "k") (codes "value") 10) empty empty-IsAccounted

get-set_example :
    (get two 9 (codes "k") (set two 5 (codes "k") (codes "value") 10 empty)).0
    ≡ (if ltb (5 + 10) 9 then none else some (codes "value"))
get-set_example = get-set two 5 9 (codes "k") (codes "value") 10 empty empty-IsAccounted

-- A value above the limit is stored all the same, alone.
too_large : (set two 5 (codes "k") (codes "ten bytes!") 10 empty).mem_used ≡ pos 10
unfolding set pushed_out lookup ◌+ℤ◌
too_large = refl
