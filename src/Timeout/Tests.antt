-- ===== src/Timeout/Tests.antt =====
-- The theorems on timeouts at a manager with an interval of 20 cycles.
use homa.Base.{◌≡◌, true, false, some, arith, All}
use homa.Timeout.{
  Timeout, TimeoutManager, make_manager, set_timeout, any_elapsed, has_elapsed, front,
}
use homa.Timeout.Laws.{IsValid, make_manager-IsValid, set_timeout-IsValid, any_elapsed_exact}

abbrev manager : TimeoutManager
manager = set_timeout 100 1 (make_manager 20)

manager-IsValid : IsValid 100 manager
unfolding make_manager
manager-IsValid =
    set_timeout-IsValid 90 100 1 (make_manager 20) (make_manager-IsValid 90 20) (omega arith)
      (omega arith)

any_elapsed_example :
    (any_elapsed 130 manager ≡ false → All (λ t. has_elapsed 130 t ≡ false) manager.list)
    × (any_elapsed 130 manager ≡ true
        → (t : Timeout) × (front manager ≡ some t) × (has_elapsed 130 t ≡ true))
any_elapsed_example = any_elapsed_exact 100 130 manager manager-IsValid (omega arith)
