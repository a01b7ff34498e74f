-- ===== src/ThreadId/Names.antt =====
-- A thread has an identifier of its own, and keeps its name.
use homa.Base.{
  ℕ, ◌+◌, ◌^◌, ◌≤◌, ◌<◌, ◌≡◌, ◌≢◌, ◌⊎◌, refl, inl, inr, false, some, List, [], ◌∷◌, arith, ◌==◌,
  ==_iff, ==_refl, length, All, Bool-cases,
}
use homa.StringUtil.{Chars}
use homa.ThreadId.{ThreadIds, make_thread_ids, assign, get_id, name_entry, set_name, get_name}

-- Identifiers that are given out are below the next one, and no two threads have the same.
pub record IsValid (s : ThreadIds) : Type 0 where
  pub positive : 0 < s.next_id
  pub below : (t : ℕ) → s.id t < s.next_id
  pub unique : (t u : ℕ) → s.id t ≡ s.id u → s.id t ≡ 0 ⊎ (t ≡ u)

pub make_thread_ids-IsValid : IsValid make_thread_ids
unfolding make_thread_ids
make_thread_ids-IsValid = record {
  positive = omega arith;
  below = λ t. omega arith;
  unique = λ t u e. inl refl;
}

get_id-IsValid : (t : ℕ) (s : ThreadIds) → IsValid s → s.next_id + 1 < 2 ^ 64 → IsValid (get_id t s)
unfolding get_id assign
get_id-IsValid t s v h = elim (Bool-cases (s.id t == 0)) [
  | inr e ↦ rw e v
  | inl e ↦ rw e (record {
    positive = omega (arith, h);
    below = λ u. ground (arith, h, v.below u);
    unique = λ u w f.
        ground (arith, v.unique u w, v.below u, v.below w, v.positive, ==_iff u t, ==_iff w t);
  })
]

-- The identifier of a thread after `getId`.
get_id_positive : (t : ℕ) (s : ThreadIds) → IsValid s → 0 < (get_id t s).id t
unfolding get_id assign
get_id_positive t s v = ground (arith, v.positive, ==_refl t)

-- A thread has identifier `i`, and its name.
record Has (t i : ℕ) (name : Chars) (s : ThreadIds) : Type 0 where
  valid : IsValid s
  mine : s.id t ≡ i
  given : 0 < i
  called : s.thread_names i ≡ some name

get_id-Has :
    (t i : ℕ) (name : Chars) (u : ℕ) (s : ThreadIds)
    → s.next_id + 1 < 2 ^ 64
    → Has t i name s
    → Has t i name (get_id u s)
get_id-Has t i name u s h k = record {
  valid = get_id-IsValid u s k.valid h;
  mine = unfold get_id assign in ground (arith, k.mine, k.given, ==_iff t u);
  given = k.given;
  called =
      unfold get_id assign in
      elim (Bool-cases (s.id u == 0)) [ inl e ↦ rw e k.called | inr e ↦ rw e k.called ];
}

get_id_next :
    (t : ℕ) (s : ThreadIds) → s.next_id + 1 < 2 ^ 64 → (get_id t s).next_id ≤ s.next_id + 1
unfolding get_id assign
get_id_next t s h = ground (arith, h)

name_entry-some : (name : Chars) → name ≢ [] → name_entry name ≡ some name
name_entry-some [] n = absurd (n refl)
name_entry-some (c ∷ name) n = refl

-- A name that another thread sets.
set_name-Has :
    (t i : ℕ) (name : Chars) (u : ℕ) (other : Chars) (s : ThreadIds)
    → (u == t) ≡ false
    → s.next_id + 1 < 2 ^ 64
    → Has t i name s
    → Has t i name (set_name u other s)
unfolding set_name
set_name-Has t i name u other s d h k =
    let k' = get_id-Has t i name u s h k in
    let apart : (i == (get_id u s).id u) ≡ false = ground (
      arith,
      d,
      k'.valid.unique t u,
      k'.mine,
      k'.given,
      ==_iff u t,
      ==_iff i ((get_id u s).id u),
    ) in
    record {
      valid = record {
        positive = k'.valid.positive;
        below = k'.valid.below;
        unique = k'.valid.unique;
      };
      mine = k'.mine;
      given = k.given;
      called = rw apart k'.called;
    }

-- The thread's own call of `setName`.
own_name-Has :
    (t : ℕ) (name : Chars) (s : ThreadIds)
    → name ≢ []
    → s.next_id + 1 < 2 ^ 64
    → IsValid s
    → Has t ((get_id t s).id t) name (set_name t name s)
unfolding set_name
own_name-Has t name s n h v =
    let v' = get_id-IsValid t s v h in
    record {
      valid = record { positive = v'.positive; below = v'.below; unique = v'.unique };
      mine = refl;
      given = get_id_positive t s v;
      called = rw ==_refl (name_entry-some name n);
    }

-- What threads call.
pub data Call : Type 0 where
  calls_get_id calls_get_name : Call
  calls_set_name : Chars → Call

module _ (format : ℕ → Chars) where
  unfoldable pub apply : Call → ℕ → ThreadIds → ThreadIds
  apply calls_get_id t s = get_id t s
  apply calls_get_name t s = (get_name format t s).1
  apply (calls_set_name name) t s = set_name t name s

  unfoldable pub run : List (ℕ × Call) → ThreadIds → ThreadIds
  run [] s = s
  run ((t, call) ∷ calls) s = run calls (apply call t s)

  apply-Has :
      (t i : ℕ) (name : Chars) (call : Call) (u : ℕ) (s : ThreadIds)
      → (u == t) ≡ false
      → s.next_id + 1 < 2 ^ 64
      → Has t i name s
      → Has t i name (apply call u s)
  unfolding apply get_name
  apply-Has t i name calls_get_id u s d h k = get_id-Has t i name u s h k
  apply-Has t i name calls_get_name u s d h k = get_id-Has t i name u s h k
  apply-Has t i name (calls_set_name other) u s d h k = set_name-Has t i name u other s d h k

  apply_next :
      (call : Call) (t : ℕ) (s : ThreadIds)
      → s.next_id + 1 < 2 ^ 64
      → (apply call t s).next_id ≤ s.next_id + 1
  unfolding apply get_name set_name
  apply_next calls_get_id t s h = get_id_next t s h
  apply_next calls_get_name t s h = get_id_next t s h
  apply_next (calls_set_name name) t s h = get_id_next t s h

  run-Has :
      (t i : ℕ) (name : Chars) (calls : List (ℕ × Call)) (s : ThreadIds)
      → All (λ c. (c.0 == t) ≡ false) calls
      → s.next_id + length calls < 2 ^ 64
      → Has t i name s
      → Has t i name (run calls s)
  unfolding run
  run-Has t i name [] s d h k = k
  run-Has t i name ((u, call) ∷ calls) s d h k =
      run-Has t i name calls (apply call u s) d.1
        (omega (arith, h, apply_next call u s (omega (arith, h))))
        (apply-Has t i name call u s d.0 (omega (arith, h)) k)

  get_name-Has :
      (t i : ℕ) (name : Chars) (s : ThreadIds) → Has t i name s → (get_name format t s).0 ≡ name
  unfolding get_name get_id
  get_name-Has t i name s k =
      let e : (s.id t == 0) ≡ false = ground (arith, k.mine, k.given) in cc (e, k.mine, k.called)

  -- After a thread has set its name, and whatever the other threads call, `getName` gives it that name,
  -- its identifier is the one that it had, and no other thread has that identifier. (The name is not
  -- empty, and fewer than 2^64 identifiers are given out.)
  pub get_name_lem :
      (t : ℕ) (name : Chars) (calls : List (ℕ × Call)) (s : ThreadIds)
      → IsValid s
      → name ≢ []
      → All (λ c. (c.0 == t) ≡ false) calls
      → s.next_id + length calls + 1 < 2 ^ 64
      → let s' = run calls (set_name t name s) in
        ((get_name format t s').0 ≡ name)
        × (s'.id t ≡ (get_id t s).id t)
        × ((u : ℕ) → s'.id u ≡ s'.id t → u ≡ t)
  unfolding apply
  get_name_lem t name calls s v n d h =
      let few : s.next_id + 1 < 2 ^ 64 = omega (arith, h) in
      let k =
        run-Has t ((get_id t s).id t) name calls (set_name t name s) d
          (omega (arith, h, apply_next (calls_set_name name) t s few))
          (own_name-Has t name s n few v) in
      (
        get_name-Has t ((get_id t s).id t) name _ k,
        k.mine,
        λ u e. ground (arith, k.valid.unique u t e, k.mine, k.given),
      )
