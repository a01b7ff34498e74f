-- ===== src/Intrusive/Order.antt =====
-- Reordering by a numeric key (`ComparePriority` compares one number of each object).
use homa.Base.{
  ℕ, ◌≤◌, ◌≡◌, refl, sym, ap, inl, inr, Bool, true, false, List, [], ◌∷◌, ◌++◌, arith, ltb, ◌==◌,
  ==_iff, ==_refl, Bool-cases, All, AtLeast, AtMost, IsSorted, IsDescending, AtLeast-le,
  IsSorted-append_le, IsSorted-congr, AtLeast-congr, IsSorted-append_left, IsSorted-append_right,
  IsSorted-append,
}
use homa.Intrusive.Members.{
  reverse_onto-All, remove-eq-before-after, All-remove, occurrences, occurrences-cut,
  occurrences-remove, contains_iff,
}
use homa.Intrusive.{
  contains, remove, before, after, reverse_onto, climb, sink, prioritize, deprioritize,
}

module _ (key : ℕ → ℕ) where
  -- `ComparePriority`: strictly smaller keys come first.
  abbrev pub comp : ℕ → ℕ → Bool
  comp a b = ltb (key a) (key b)

  reverse_onto-AtLeast :
      (k : ℕ) (xs ys : List ℕ)
      → AtLeast key k xs
      → AtLeast key k ys
      → AtLeast key k (reverse_onto xs ys)
  reverse_onto-AtLeast k [] ys p q = q
  reverse_onto-AtLeast k (x ∷ xs) ys p q = reverse_onto-AtLeast k xs (x ∷ ys) p.1 (p.0, q)

  -- A descending list, turned round in front of a sorted one that lies above it.
  pub reverse_onto-IsSorted :
      (above below : List ℕ)
      → IsDescending key above
      → IsSorted key below
      → All (λ a. AtLeast key (key a) below) above
      → IsSorted key (reverse_onto above below)
  reverse_onto-IsSorted [] below d s c = s
  reverse_onto-IsSorted (x ∷ above) below d s c =
      reverse_onto-IsSorted above (x ∷ below) d.1 (c.0, s) (join above d.0 c.1)
    where
      join :
          (ys : List ℕ)
          → AtMost key (key x) ys
          → All (λ a. AtLeast key (key a) below) ys
          → All (λ a. AtLeast key (key a) (x ∷ below)) ys
      join [] m q = tt
      join (y ∷ ys) m q = ((m.0, q.0), join ys m.1 q.1)

  -- `sink` puts a node into its place in a sorted list.
  sink-AtLeast :
      (k n : ℕ) (xs : List ℕ) → k ≤ key n → AtLeast key k xs → AtLeast key k (sink comp n xs)
  unfolding sink
  sink-AtLeast k n [] h p = (h, tt)
  sink-AtLeast k n (x ∷ xs) h p = elim (Bool-cases (comp n x)) [
    | inl e ↦ rw e (h, p)
    | inr e ↦ rw e (p.0, sink-AtLeast k n xs h p.1)
  ]

  pub sink-IsSorted : (n : ℕ) (xs : List ℕ) → IsSorted key xs → IsSorted key (sink comp n xs)
  unfolding sink
  sink-IsSorted n [] s = (tt, tt)
  sink-IsSorted n (x ∷ xs) s = elim (Bool-cases (comp n x)) [
    | inl e ↦ let h : key n ≤ key x = ground arith in rw e ((h, AtLeast-le key xs h s.0), s)
    | inr e ↦ rw e (sink-AtLeast (key x) n xs (ground arith) s.0, sink-IsSorted n xs s.1)
  ]

  -- `climb` puts a node with a lowered key into its place among the nodes before it.
  pub climb-IsSorted :
      (n : ℕ) (above below : List ℕ)
      → IsDescending key above
      → IsSorted key below
      → All (λ a. AtLeast key (key a) below) above
      → AtLeast key (key n) below
      → IsSorted key (climb comp n above below)
  unfolding climb
  climb-IsSorted n [] below d s c l = (l, s)
  climb-IsSorted n (p ∷ above) below d s c l = elim (Bool-cases (comp n p)) [
    | inl e ↦
        rw e
          (climb-IsSorted n above (p ∷ below) d.1 (c.0, s) (join above d.0 c.1) (ground arith, l))
    | inr e ↦ rw e (
        reverse_onto-IsSorted (p ∷ above) (n ∷ below) d (l, s)
          ((ground arith, c.0), drop_in above (ground arith) d.0 c.1))
  ]
    where
      join :
          (ys : List ℕ)
          → AtMost key (key p) ys
          → All (λ a. AtLeast key (key a) below) ys
          → All (λ a. AtLeast key (key a) (p ∷ below)) ys
      join [] m q = tt
      join (y ∷ ys) m q = ((m.0, q.0), join ys m.1 q.1)

      drop_in :
          (ys : List ℕ)
          → key p ≤ key n
          → AtMost key (key p) ys
          → All (λ a. AtLeast key (key a) below) ys
          → All (λ a. AtLeast key (key a) (n ∷ below)) ys
      drop_in [] h m q = tt
      drop_in (y ∷ ys) h m q = ((omega arith, q.0), drop_in ys h m.1 q.1)

  -- The nodes before the cut, nearest first, fall in a sorted list.
  reverse_onto-IsDescending :
      (xs acc : List ℕ)
      → IsSorted key xs
      → IsDescending key acc
      → All (λ x. AtMost key (key x) acc) xs
      → IsDescending key (reverse_onto xs acc)
  reverse_onto-IsDescending [] acc s d c = d
  reverse_onto-IsDescending (x ∷ xs) acc s d c =
      reverse_onto-IsDescending xs (x ∷ acc) s.1 (c.0, d) (join xs s.0 c.1)
    where
      join :
          (ys : List ℕ)
          → AtLeast key (key x) ys
          → All (λ a. AtMost key (key a) acc) ys
          → All (λ a. AtMost key (key a) (x ∷ acc)) ys
      join [] m q = tt
      join (y ∷ ys) m q = ((m.0, q.0), join ys m.1 q.1)

all_AtMost_nil : (key : ℕ → ℕ) (xs : List ℕ) → All (λ x. AtMost key (key x) []) xs
all_AtMost_nil key [] = tt
all_AtMost_nil key (x ∷ xs) = (tt, all_AtMost_nil key xs)

module _ (key : ℕ → ℕ) (n : ℕ) (xs : List ℕ) (linked : contains n xs ≡ true)
    (sorted : IsSorted key (remove n xs)) where
  cut : IsSorted key (before n xs ++ after n xs)
  cut = rw (remove-eq-before-after n xs linked) at sorted

  -- Where the other nodes of the list are sorted and no later node has a smaller key, `prioritize`
  -- makes the whole list sorted.
  pub prioritize-IsSorted :
      AtLeast key (key n) (after n xs) → IsSorted key (prioritize (comp key) n xs)
  unfolding prioritize
  prioritize-IsSorted l = rw linked (
      climb-IsSorted key n (reverse_onto (before n xs) []) (after n xs)
        (reverse_onto-IsDescending key (before n xs) [] (IsSorted-append_left key _ _ cut) tt
          (all_AtMost_nil key (before n xs)))
        (IsSorted-append_right key (before n xs) _ cut)
        (reverse_onto-All _ (before n xs) [] (IsSorted-append_le key (before n xs) _ cut) tt) l)

  -- Where the other nodes of the list are sorted and no earlier node has a larger key, `deprioritize`
  -- makes the whole list sorted.
  pub deprioritize-IsSorted :
      AtMost key (key n) (before n xs) → IsSorted key (deprioritize (comp key) n xs)
  unfolding deprioritize
  deprioritize-IsSorted m = rw linked (
      IsSorted-append key (before n xs) _ (IsSorted-append_left key _ _ cut)
        (sink-IsSorted key n (after n xs) (IsSorted-append_right key (before n xs) _ cut))
        (below (before n xs) m (IsSorted-append_le key (before n xs) _ cut)))
    where
      below :
          (ys : List ℕ)
          → AtMost key (key n) ys
          → All (λ y. AtLeast key (key y) (after n xs)) ys
          → All (λ y. AtLeast key (key y) (sink (comp key) n (after n xs))) ys
      below [] m' c = tt
      below (y ∷ ys) m' c = (sink-AtLeast key (key y) n (after n xs) m'.0 c.0, below ys m'.1 c.1)

-- A sorted list stays sorted when a node leaves it.
pub remove-IsSorted :
    (key : ℕ → ℕ) (n : ℕ) (xs : List ℕ) → IsSorted key xs → IsSorted key (remove n xs)
remove-IsSorted key n [] s = tt
remove-IsSorted key n (x ∷ xs) s = elim (Bool-cases (x == n)) [
  | inl e ↦ rw e s.1
  | inr e ↦ rw e (All-remove _ n xs s.0, remove-IsSorted key n xs s.1)
]

-- `push_front` and then `deprioritize`, as the sender and the receiver insert, puts a node into its
-- place in a sorted list.
pub insert-IsSorted :
    (key : ℕ → ℕ) (n : ℕ) (xs : List ℕ)
    → IsSorted key xs
    → IsSorted key (deprioritize (comp key) n (n ∷ xs))
insert-IsSorted key n xs s =
    deprioritize-IsSorted key n (n ∷ xs) (rw ==_refl refl) (rw ==_refl s) (rw ==_refl tt)

-- Two keys that agree away from one node give the same order to lists without it.
module _ (key key' : ℕ → ℕ) (n : ℕ) (same : (m : ℕ) → (m == n) ≡ false → key' m ≡ key m) where
  pub agree_away : (xs : List ℕ) → occurrences n xs ≡ 0 → All (λ m. key m ≡ key' m) xs
  agree_away [] e = tt
  agree_away (x ∷ xs) e = elim (Bool-cases (x == n)) [
    | inl here ↦ absurd (ground arith)
    | inr there ↦ (sym (same x there), agree_away xs (rw there at e))
  ]

  after-AtLeast :
      (xs : List ℕ) → contains n xs ≡ true → IsSorted key xs → AtLeast key (key n) (after n xs)
  after-AtLeast [] c s = cc
  after-AtLeast (x ∷ xs) c s = elim (Bool-cases (x == n)) [
    | inl e ↦ rw e (AtLeast-le key xs (omega (arith, ap key (sym ((==_iff x n).0 e)))) s.0)
    | inr e ↦ rw e (after-AtLeast xs (rw e at c) s.1)
  ]

  -- Where the key of one node of a sorted list falls and no other key changes, `prioritize` of that
  -- node makes the list sorted by the new keys.
  pub lowered-IsSorted :
      (xs : List ℕ)
      → occurrences n xs ≡ 1
      → IsSorted key xs
      → key' n ≤ key n
      → IsSorted key' (prioritize (comp key') n xs)
  lowered-IsSorted xs once s low =
      prioritize-IsSorted key' n xs linked
        (IsSorted-congr key key' (remove n xs) (agree_away (remove n xs) gone)
          (remove-IsSorted key n xs s))
        (AtLeast-congr key key' (key' n) (after n xs) (agree_away (after n xs) last)
          (AtLeast-le key (after n xs) low (after-AtLeast xs linked s)))
    where
      linked : contains n xs ≡ true
      linked = (contains_iff n xs).1 (omega arith)

      gone : occurrences n (remove n xs) ≡ 0
      gone = ground (arith, occurrences-remove n n xs)

      last : occurrences n (after n xs) ≡ 0
      last = ground (arith, occurrences-cut n n xs linked)
