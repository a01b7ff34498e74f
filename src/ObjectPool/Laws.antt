-- ===== src/ObjectPool/Laws.antt =====
-- An object pool never gives out memory that is in use, and takes no more than the most objects that
-- were alive at a time.
use homa.Base.{
  ℕ, ◌+◌, ◌^◌, ◌≤◌, ◌<◌, max, ◌≡◌, refl, Bool, true, false, Option, none, some, List, [], ◌∷◌,
  arith, ==_iff, ==_refl, length, maybe,
}
use homa.Intrusive.{remove, contains}
use homa.Intrusive.Members.{occurrences, occurrences-remove, contains_iff}
use homa.Intrusive.Sums.{length-remove}
use homa.ObjectPool.{ObjectPool, make_pool, take_backing, construct, destroy}

-- `live` are the objects that are alive: they are counted, and no memory is in use or pooled twice.
pub record IsValid (live : List ℕ) (p : ObjectPool) : Type 0 where
  pub counted : p.outstanding_objects ≡ length live
  pub once : (a : ℕ) → occurrences a live + occurrences a p.pool ≤ 1

-- `operator new` returns memory that is neither in use nor in the pool.
abbrev pub IsFresh : ℕ → List ℕ → ObjectPool → Type 0
IsFresh fresh live p = (occurrences fresh live ≡ 0) × (occurrences fresh p.pool ≡ 0)

-- The objects that are alive after `construct`.
abbrev pub with_new : Option ℕ → List ℕ → List ℕ
with_new none live = live
with_new (some a) live = a ∷ live

-- What `construct` does: it gives out memory of no object that is alive, counts the object and keeps
-- the pool valid, or gives out nothing and keeps the memory; new memory is for lack of pooled memory.
pub record Constructed (live : List ℕ) (p : ObjectPool) (object : Option ℕ) (p' : ObjectPool)
    : Type 0 where
  pub valid : IsValid (with_new object live) p'
  pub apart : maybe Unit (λ a. occurrences a live ≡ 0) object
  pub memory :
      length p'.pool + length (with_new object live)
      ≡ max (length p.pool + length live) (length live + 1)

pub construct-Constructed :
    (fresh : ℕ) (throws : Bool) (live pool : List ℕ) (n : ℕ)
    → IsValid live (record { outstanding_objects = n; pool = pool })
    → IsFresh fresh live (record { outstanding_objects = n; pool = pool })
    → length live + 1 < 2 ^ 64
    → let p : ObjectPool = record { outstanding_objects = n; pool = pool } in
      Constructed live p (construct fresh throws p).0 (construct fresh throws p).1
unfolding construct take_backing
construct-Constructed fresh true live [] n v f h = record {
  valid = record { counted = v.counted; once = λ a. ground (arith, v.once a, ==_iff fresh a, f.0) };
  apart = tt;
  memory = omega arith;
}
construct-Constructed fresh true live (b ∷ pool) n v f h = record {
  valid = record { counted = v.counted; once = v.once };
  apart = tt;
  memory = omega arith;
}
construct-Constructed fresh false live [] n v f h = record {
  valid = record {
    counted = omega (arith, v.counted);
    once = λ a. ground (arith, v.once a, ==_iff fresh a, f.0);
  };
  apart = f.0;
  memory = omega arith;
}
construct-Constructed fresh false live (b ∷ pool) n v f h = record {
  valid = record { counted = omega (arith, v.counted); once = λ a. ground (arith, v.once a) };
  apart = ground (arith, v.once b, ==_refl b);
  memory = omega arith;
}

pub destroy-IsValid :
    (object : ℕ) (live : List ℕ) (p : ObjectPool)
    → IsValid live p
    → contains object live ≡ true
    → IsValid (remove object live) (destroy object p)
      × (length (destroy object p).pool + length (remove object live) ≡ length p.pool + length live)
unfolding destroy
destroy-IsValid object live p v c = (
  record {
    counted = omega (arith, v.counted, length-remove object live c);
    once = λ a. ground (
      arith,
      v.once a,
      occurrences-remove a object live,
      (contains_iff object live).0 c,
      ==_iff a object,
      ==_iff object a,
    );
  },
  omega (arith, length-remove object live c),
)

-- What may happen to a pool: objects are constructed in memory that is not in use, and objects that are
-- alive are destroyed. `live` are the objects that are alive, and `peak` is the largest number of
-- objects that were alive, or under construction, at a time.
pub data Used : List ℕ → ObjectPool → ℕ → Type 0 where
  new : Used [] make_pool 0
  constructed :
      {live : List ℕ} {p : ObjectPool} {peak : ℕ} (fresh : ℕ) (throws : Bool)
      → Used live p peak
      → IsFresh fresh live p
      → length live + 1 < 2 ^ 64
      → Used
          (with_new (construct fresh throws p).0 live)
          (construct fresh throws p).1
          (max peak (length live + 1))
  destroyed :
      {live : List ℕ} {p : ObjectPool} {peak : ℕ} (object : ℕ)
      → Used live p peak
      → contains object live ≡ true
      → Used (remove object live) (destroy object p) peak

-- However a pool is used, no memory is ever given out twice at a time or pooled while it is in use, the
-- outstanding objects are counted, and the memory that the pool has taken, which is in use or pooled, is
-- that of the largest number of objects that were alive, or under construction, at a time. (Memory from
-- `operator new` is not in use; there are fewer than 2^64 - 1 objects at a time.)
pub used_lem :
    {live : List ℕ} {p : ObjectPool} {peak : ℕ}
    → Used live p peak
    → IsValid live p × (length p.pool + length live ≡ peak)
used_lem new = unfold make_pool in (record { counted = refl; once = λ a. omega arith }, refl)
used_lem (constructed {live} {p} fresh throws u f h) =
    let (v, size) = used_lem u in
    let k = construct-Constructed fresh throws live p.pool p.outstanding_objects v f h in
    (k.valid, omega (arith, k.memory, size))
used_lem (destroyed {live} {p} object u c) =
    let (v, size) = used_lem u in
    let (w, kept) = destroy-IsValid object live p v c in (w, omega (arith, kept, size))
