-- ===== src/Perf/Counting.antt =====
-- Nothing that a thread counts is lost.
use homa.Base.{
  ℕ, ◌+◌, ◌%◌, ◌^◌, ◌<◌, ◌≡◌, refl, ap, inl, inr, true, false, List, [], ◌∷◌, arith, ◌==◌, ==_iff,
  ==_refl, Bool-cases, if◌then◌else◌,
}
use homa.Intrusive.{remove, contains}
use homa.Perf.{
  total_cycles, active_cycles, Counter, counter_number, Counters, make_counters, add_value, add,
  Registry, make_registry, write, register, deregister, count, add_all, get_stats, dump_stats,
}

-- The addresses are those of different threads.
abbrev pub AreApart : List ℕ → Type 0
AreApart [] = Unit
AreApart (t ∷ ts) = (contains t ts ≡ false) × AreApart ts

-- What the threads do to the counters, in any order, with the sum of all that was added to each counter.
-- A thread registers its counters before it counts, and removes them once, at its exit.
pub data Run : Registry → Counters → Type 0 where
  begin : Run make_registry (λ c. 0)
  enters :
      (t : ℕ) {r : Registry} {tally : Counters}
      → contains t r.per_thread_counters ≡ false
      → Run r tally
      → Run (register t r) tally
  leaves :
      (t : ℕ) {r : Registry} {tally : Counters}
      → contains t r.per_thread_counters ≡ true
      → Run r tally
      → Run (deregister t r) tally
  counts :
      (t : ℕ) (c : Counter) (val : ℕ) {r : Registry} {tally : Counters}
      → contains t r.per_thread_counters ≡ true
      → Run r tally
      → Run
          (count t c val r)
          (λ d. if counter_number d == counter_number c then tally d + val else tally d)

-- The sum of a counter over threads.
abbrev sum : (ℕ → Counters) → Counter → List ℕ → ℕ
sum memory c [] = 0
sum memory c (t ∷ ts) = memory t c + sum memory c ts

sum-remove :
    (memory : ℕ → Counters) (c : Counter) (t : ℕ) (ts : List ℕ)
    → contains t ts ≡ true
    → sum memory c ts ≡ memory t c + sum memory c (remove t ts)
sum-remove memory c t [] h = cc
sum-remove memory c t (u ∷ ts) h = elim (Bool-cases (u == t)) [
  | inl e ↦ cc (e, (==_iff u t).0 e)
  | inr e ↦ rw e (omega (arith, sum-remove memory c t ts (rw e at h)))
]

-- A write to the counters of another thread.
sum-write :
    (memory : ℕ → Counters) (c : Counter) (t : ℕ) (counters : Counters) (ts : List ℕ)
    → contains t ts ≡ false
    → sum (write t counters memory) c ts ≡ sum memory c ts
sum-write memory c t counters [] h = refl
sum-write memory c t counters (u ∷ ts) h = elim (Bool-cases (u == t)) [
  | inl e ↦ absurd (cc (e, h))
  | inr e ↦ rw e (ap (λ n. memory u c + n) (sum-write memory c t counters ts (rw e at h)))
]

contains-remove : (t : ℕ) (ts : List ℕ) → AreApart ts → contains t (remove t ts) ≡ false
contains-remove t [] a = refl
contains-remove t (u ∷ ts) a = elim (Bool-cases (u == t)) [
  | inl e ↦ cc (e, (==_iff u t).0 e, a.0)
  | inr e ↦ rw e (rw e (contains-remove t ts a.1))
]

contains-remove_other :
    (t u : ℕ) (ts : List ℕ) → contains u ts ≡ false → contains u (remove t ts) ≡ false
contains-remove_other t u [] h = refl
contains-remove_other t u (v ∷ ts) h = elim (Bool-cases (v == u)) [
  | inl e ↦ absurd (cc (e, h))
  | inr e ↦ elim (Bool-cases (v == t)) [
    | inl f ↦ rw f (rw e at h)
    | inr f ↦ rw f (rw e (contains-remove_other t u ts (rw e at h)))
  ]
]

AreApart-remove : (t : ℕ) (ts : List ℕ) → AreApart ts → AreApart (remove t ts)
AreApart-remove t [] a = tt
AreApart-remove t (u ∷ ts) a = elim (Bool-cases (u == t)) [
  | inl e ↦ rw e a.1
  | inr e ↦ rw e ((contains-remove_other t u ts a.0, AreApart-remove t ts a.1))
]

add_all_lem :
    (memory : ℕ → Counters) (ts : List ℕ) (output : Counters) (c : Counter)
    → output c < 2 ^ 64
    → add_all memory ts output c ≡ (output c + sum memory c ts) % 2 ^ 64
unfolding add_all add
add_all_lem memory [] output c h = omega arith
add_all_lem memory (t ∷ ts) output c h =
    omega (arith, add_all_lem memory ts (add (memory t) output) c (omega arith))

record Counted (r : Registry) (tally : Counters) : Type 0 where
  apart : AreApart r.per_thread_counters
  small : (c : Counter) → r.global_counters c < 2 ^ 64
  whole :
      (c : Counter)
      → (r.global_counters c + sum r.memory c r.per_thread_counters) % 2 ^ 64 ≡ tally c % 2 ^ 64

-- The sum after a write to the counters of one of the threads.
sum-write_one :
    (memory : ℕ → Counters) (c : Counter) (t : ℕ) (counters : Counters) (ts : List ℕ)
    → AreApart ts
    → contains t ts ≡ true
    → sum (write t counters memory) c ts + memory t c ≡ sum memory c ts + counters c
sum-write_one memory c t counters ts a h =
    let memory' = write t counters memory in
    let written : memory' t c ≡ counters c = rw ==_refl in
    omega (
      arith,
      written,
      sum-remove memory c t ts h,
      sum-remove memory' c t ts h,
      sum-write memory c t counters (remove t ts) (contains-remove t ts a),
    )

count-Counted :
    (t : ℕ) (c : Counter) (val : ℕ) (r : Registry) (tally : Counters)
    → contains t r.per_thread_counters ≡ true
    → Counted r tally
    → Counted
        (count t c val r)
        (λ d. if counter_number d == counter_number c then tally d + val else tally d)
unfolding count add_value
count-Counted t c val r tally h k = record {
  apart = k.apart;
  small = k.small;
  whole = λ d. ground (
    arith,
    k.whole d,
    sum-write_one r.memory d t (add_value c val (r.memory t)) r.per_thread_counters k.apart h,
  );
}

Run-Counted : {r : Registry} {tally : Counters} → Run r tally → Counted r tally
unfolding make_registry make_counters register deregister add
Run-Counted begin = record { apart = tt; small = λ c. omega arith; whole = λ c. refl }
Run-Counted (enters t {r} {tally} h run) =
    let k = Run-Counted run in
    record {
      apart = (h, k.apart);
      small = k.small;
      whole = λ c.
          rw ==_refl (
            omega (arith, k.whole c, sum-write r.memory c t make_counters r.per_thread_counters h));
    }
Run-Counted (leaves t {r} {tally} h run) =
    let k = Run-Counted run in
    record {
      apart = AreApart-remove t r.per_thread_counters k.apart;
      small = λ c. omega arith;
      whole = λ c. omega (arith, k.whole c, sum-remove r.memory c t r.per_thread_counters h);
    }
Run-Counted (counts t c val {r} {tally} h run) = count-Counted t c val r tally h (Run-Counted run)

-- However threads come, count and exit, what `getStats` reports of a counter is the sum of all that was
-- added to it, modulo 2^64, and the idle cycles are the difference of the total and the active ones.
pub get_stats_lem :
    {r : Registry} {tally : Counters} (timestamp : ℕ)
    → Run r tally
    → ((c : Counter) → (get_stats timestamp r).counts c ≡ tally c % 2 ^ 64)
      × (((get_stats timestamp r).idle_cycles + tally active_cycles) % 2 ^ 64
          ≡ tally total_cycles % 2 ^ 64)
unfolding get_stats dump_stats add make_counters
get_stats_lem {r} {tally} timestamp run =
    let k = Run-Counted run in
    let first = add r.global_counters make_counters in
    let all : (c : Counter) → add_all r.memory r.per_thread_counters first c ≡ tally c % 2 ^ 64 =
      λ c. omega (
        arith,
        k.small c,
        k.whole c,
        add_all_lem r.memory r.per_thread_counters first c (omega arith),
      ) in
    (all, omega (arith, all total_cycles, all active_cycles))
