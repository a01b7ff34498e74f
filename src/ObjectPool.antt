-- ===== src/ObjectPool.antt =====
-- src/ObjectPool.h: an allocator of objects of one type that keeps the memory of destroyed ones.
-- Memory is an address; the address that `operator new` returns is an argument, and so is whether the
-- constructor of the object throws.
pub mod Laws
mod Tests
use homa.Base.{ℕ, ◌+◌, ◌-◌, ◌%◌, ◌^◌, Bool, Option, none, some, List, [], ◌∷◌, ltb, if◌then◌else◌}

-- `ObjectPool`; the back of the vector comes first.
pub record ObjectPool : Type 0 where
  pub outstanding_objects : ℕ
  pub pool : List ℕ

unfoldable pub make_pool : ObjectPool
make_pool = record { outstanding_objects = 0; pool = [] }

-- The memory for a new object, and what is left of the pool: from the pool, or from `operator new`.
unfoldable pub take_backing : ℕ → List ℕ → ℕ × List ℕ
take_backing fresh [] = (fresh, [])
take_backing fresh (backing ∷ pool) = (backing, pool)

-- `ObjectPool::construct`, `none` where the constructor throws.
unfoldable pub construct : ℕ → (throws : Bool) → ObjectPool → Option ℕ × ObjectPool
construct fresh throws p =
    let (backing, rest) = take_backing fresh p.pool in
    if throws then (none, record p { pool = backing ∷ rest }) else (
      some backing,
      record { outstanding_objects = (p.outstanding_objects + 1) % 2 ^ 64; pool = rest },
    )

-- `ObjectPool::destroy`; the count is positive, by the assertion.
unfoldable pub destroy : ℕ → ObjectPool → ObjectPool
destroy object p = record {
  outstanding_objects = p.outstanding_objects - 1;
  pool = object ∷ p.pool;
}

-- The destructor: the memory that it frees, and whether it logs that objects are still outstanding.
unfoldable pub delete : ObjectPool → List ℕ × Bool
delete p = (p.pool, ltb 0 p.outstanding_objects)
