-- ===== src/ObjectPool/Tests.antt =====
-- A pool whose one object is destroyed and constructed again in the same memory.
use homa.Base.{◌+◌, ◌≡◌, refl, true, false, [], ◌∷◌, arith, length}
use homa.ObjectPool.{ObjectPool, make_pool, take_backing, construct, destroy, delete}
use homa.ObjectPool.Laws.{IsValid, Used, new, constructed, destroyed, used_lem}

abbrev first : ObjectPool
first = (construct 100 false make_pool).1

abbrev again : ObjectPool
again = (construct 200 false (destroy 100 first)).1

used : Used (100 ∷ []) again 1
unfolding construct take_backing make_pool destroy
used =
    constructed 200 false
      (destroyed 100 (constructed 100 false new (omega arith) (omega arith)) refl) (omega arith)
      (omega arith)

used_example : IsValid (100 ∷ []) again × (length again.pool + 1 ≡ 1)
used_example = used_lem used

-- The destructor reports the object that is left.
delete_outstanding : delete again ≡ ([], true)
unfolding delete construct take_backing make_pool destroy
delete_outstanding = refl
