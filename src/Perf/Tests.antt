-- ===== src/Perf/Tests.antt =====
-- Concrete instances: two threads count bytes, and one of them has exited.
use homa.Base.{◌+◌, ◌%◌, ◌^◌, ◌≡◌, refl, ◌==◌, if◌then◌else◌}
use homa.Perf.{
  total_cycles, active_cycles, tx_bytes, Counter, Counters, counter_number, Registry, register,
  deregister, count, make_registry, get_stats,
}
use homa.Perf.Counting.{Run, begin, enters, leaves, counts, get_stats_lem}

abbrev registry : Registry
registry =
    deregister 8
      (count 9 total_cycles 7 (count 8 tx_bytes 100 (register 9 (register 8 make_registry))))

abbrev tally : Counters
tally d =
    let bytes = if counter_number d == counter_number tx_bytes then 0 + 100 else 0 in
    if counter_number d == counter_number total_cycles then bytes + 7 else bytes

registry-Run : Run registry tally
unfolding make_registry register deregister count
registry-Run = leaves 8 refl (
    counts 9 total_cycles 7 refl (counts 8 tx_bytes 100 refl (enters 9 refl (enters 8 refl begin))))

get_stats_example :
    ((c : Counter) → (get_stats 5 registry).counts c ≡ tally c % 2 ^ 64)
    × (((get_stats 5 registry).idle_cycles + tally active_cycles) % 2 ^ 64
        ≡ tally total_cycles % 2 ^ 64)
get_stats_example = get_stats_lem 5 registry-Run
