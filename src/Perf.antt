-- ===== src/Perf.antt =====
-- src/Perf.h, src/Perf.cc: performance counters, one set for each thread, which stays counted when the
-- thread exits.
pub mod Counting
mod Tests
use homa.Base.{ℕ, ◌+◌, ◌-◌, ◌%◌, ◌^◌, Bool, List, [], ◌∷◌, ◌==◌, if◌then◌else◌}
use homa.Intrusive.{remove}

-- The members of `Counters`.
pub data Counter : Type 0 where
  total_cycles active_cycles allocated_rx_messages received_rx_messages delivered_rx_messages :
      Counter
  destroyed_rx_messages allocated_tx_messages released_tx_messages destroyed_tx_messages : Counter
  tx_bytes rx_bytes tx_data_pkts rx_data_pkts tx_grant_pkts rx_grant_pkts tx_done_pkts : Counter
  rx_done_pkts tx_resend_pkts rx_resend_pkts tx_busy_pkts rx_busy_pkts tx_ping_pkts : Counter
  rx_ping_pkts tx_unknown_pkts rx_unknown_pkts tx_error_pkts rx_error_pkts : Counter

-- Their places in the class.
abbrev pub counter_number : Counter → ℕ
counter_number total_cycles = 0
counter_number active_cycles = 1
counter_number allocated_rx_messages = 2
counter_number received_rx_messages = 3
counter_number delivered_rx_messages = 4
counter_number destroyed_rx_messages = 5
counter_number allocated_tx_messages = 6
counter_number released_tx_messages = 7
counter_number destroyed_tx_messages = 8
counter_number tx_bytes = 9
counter_number rx_bytes = 10
counter_number tx_data_pkts = 11
counter_number rx_data_pkts = 12
counter_number tx_grant_pkts = 13
counter_number rx_grant_pkts = 14
counter_number tx_done_pkts = 15
counter_number rx_done_pkts = 16
counter_number tx_resend_pkts = 17
counter_number rx_resend_pkts = 18
counter_number tx_busy_pkts = 19
counter_number rx_busy_pkts = 20
counter_number tx_ping_pkts = 21
counter_number rx_ping_pkts = 22
counter_number tx_unknown_pkts = 23
counter_number rx_unknown_pkts = 24
counter_number tx_error_pkts = 25
counter_number rx_error_pkts = 26

-- `Counters`: the value of each, a `Stat<uint64_t>`.
abbrev pub Counters : Type 0
Counters = Counter → ℕ

-- The constructor.
unfoldable pub make_counters : Counters
make_counters c = 0

-- `Stat::add` of a value, for one counter.
unfoldable pub add_value : Counter → ℕ → Counters → Counters
add_value c val counters d =
    if counter_number d == counter_number c then (counters d + val) % 2 ^ 64 else counters d

-- `Counters::add`
unfoldable pub add : (other : Counters) → Counters → Counters
add other counters c = (counters c + other c) % 2 ^ 64

-- `Stats`, less `cycles_per_second`, a floating-point number: its members with the name of a counter are
-- one function.
pub record Stats : Type 0 where
  pub timestamp : ℕ
  pub idle_cycles : ℕ
  pub counts : Counters

-- `Counters::dumpStats`
unfoldable pub dump_stats : (timestamp : ℕ) → Counters → Stats
dump_stats timestamp counters = record {
  timestamp = timestamp;
  idle_cycles = (counters total_cycles + 2 ^ 64 - counters active_cycles) % 2 ^ 64;
  counts = counters;
}

-- The counters of all threads; a thread's counters have an address.
pub record Registry : Type 0 where
  pub global_counters : Counters
  pub per_thread_counters : List ℕ
  pub memory : ℕ → Counters

unfoldable pub make_registry : Registry
make_registry = record {
  global_counters = make_counters;
  per_thread_counters = [];
  memory = λ t. make_counters;
}

abbrev pub write : ℕ → Counters → (ℕ → Counters) → ℕ → Counters
write t counters memory u = if u == t then counters else memory u

-- `ThreadCounters::ThreadCounters`
unfoldable pub register : ℕ → Registry → Registry
register t r = record r {
  per_thread_counters = t ∷ r.per_thread_counters;
  memory = write t make_counters r.memory;
}

-- `ThreadCounters::~ThreadCounters`
unfoldable pub deregister : ℕ → Registry → Registry
deregister t r = record r {
  global_counters = add (r.memory t) r.global_counters;
  per_thread_counters = remove t r.per_thread_counters;
}

-- A thread adds to one of its counters.
unfoldable pub count : ℕ → Counter → ℕ → Registry → Registry
count t c val r = record r { memory = write t (add_value c val (r.memory t)) r.memory }

-- The loop of `getStats`.
unfoldable pub add_all : (ℕ → Counters) → List ℕ → Counters → Counters
add_all memory [] output = output
add_all memory (t ∷ ts) output = add_all memory ts (add (memory t) output)

-- `getStats`
unfoldable pub get_stats : (timestamp : ℕ) → Registry → Stats
get_stats timestamp r =
    dump_stats timestamp
      (add_all r.memory r.per_thread_counters (add r.global_counters make_counters))
