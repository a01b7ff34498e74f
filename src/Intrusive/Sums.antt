-- ===== src/Intrusive/Sums.antt =====
-- Sums over the nodes of a list, and the nodes before one.
use homa.Base.{
  ℕ, suc, ◌+◌, ◌*◌, ◌≤◌, ◌<◌, ◌≡◌, refl, sym, ap, ◌∙◌, subst, inl, inr, Bool, true, false, none,
  some, List, [], ◌∷◌, arith, ◌==◌, ==_iff, ==_refl, Bool-cases, length, All,
}
use homa.Intrusive.{contains, remove, before, after, front, reverse_onto, climb, prioritize}
use homa.Intrusive.Members.{
  reverse_onto-All, occurrences, occurrences-append, remove-eq-before-after,
}

module _ (g : ℕ → ℕ) where
  -- The sum of a number of each node.
  abbrev pub total : List ℕ → ℕ
  total [] = 0
  total (x ∷ xs) = g x + total xs

  total-reverse_onto : (xs ys : List ℕ) → total (reverse_onto xs ys) ≡ total xs + total ys
  total-reverse_onto [] ys = omega arith
  total-reverse_onto (x ∷ xs) ys = omega (arith, total-reverse_onto xs (x ∷ ys))

  total-climb :
      (comp : ℕ → ℕ → Bool) (n : ℕ) (xs ys : List ℕ)
      → total (climb comp n xs ys) ≡ g n + total xs + total ys
  unfolding climb
  total-climb comp n [] ys = omega arith
  total-climb comp n (x ∷ xs) ys =
      ground (arith, total-climb comp n xs (x ∷ ys), total-reverse_onto xs (x ∷ n ∷ ys))

  total-cut :
      (n : ℕ) (xs : List ℕ)
      → contains n xs ≡ true
      → total xs ≡ g n + total (before n xs) + total (after n xs)
  total-cut n [] c = cc
  total-cut n (x ∷ xs) c = elim (Bool-cases (x == n)) [
    | inl e ↦ rw e (omega (arith, ap g ((==_iff x n).0 e)))
    | inr e ↦ rw e (omega (arith, total-cut n xs (rw e at c)))
  ]

  pub total-prioritize :
      (comp : ℕ → ℕ → Bool) (n : ℕ) (xs : List ℕ) → total (prioritize comp n xs) ≡ total xs
  unfolding prioritize
  total-prioritize comp n xs = ground (
    arith,
    total-climb comp n (reverse_onto (before n xs) []) (after n xs),
    total-reverse_onto (before n xs) [],
    total-cut n xs,
  )

  pub total-remove : (n : ℕ) (xs : List ℕ) → total (remove n xs) ≤ total xs
  total-remove n [] = omega arith
  total-remove n (x ∷ xs) = ground (arith, total-remove n xs)

pub total-congr : (g g' : ℕ → ℕ) → ((m : ℕ) → g' m ≡ g m) → (xs : List ℕ) → total g' xs ≡ total g xs
total-congr g g' same [] = refl
total-congr g g' same (x ∷ xs) = omega (arith, same x, total-congr g g' same xs)

-- The sum when the number of one node, which is linked once, changes.
pub total-update :
    (g g' : ℕ → ℕ) (n : ℕ)
    → ((m : ℕ) → (m == n) ≡ false → g' m ≡ g m)
    → (xs : List ℕ) → (k : ℕ) → occurrences n xs ≡ k
    → total g' xs + k * g n ≡ total g xs + k * g' n
total-update g g' n same [] k e = rw (← e) (omega arith)
total-update g g' n same (x ∷ xs) k e = elim (Bool-cases (x == n)) [
  | inl h ↦
      rw (← e, h)
        (omega (
          arith,
          total-update g g' n same xs (occurrences n xs) refl,
          ap g ((==_iff x n).0 h),
          ap g' ((==_iff x n).0 h),
        ))
  | inr h ↦ omega (arith, same x h, total-update g g' n same xs k (rw h at e))
]

length-eq-total : (xs : List ℕ) → length xs ≡ total (λ _. 1) xs
length-eq-total [] = refl
length-eq-total (x ∷ xs) = omega (arith, length-eq-total xs)

pub length-prioritize :
    (comp : ℕ → ℕ → Bool) (n : ℕ) (xs : List ℕ) → length (prioritize comp n xs) ≡ length xs
length-prioritize comp n xs =
    length-eq-total (prioritize comp n xs)
    ∙ total-prioritize (λ _. 1) comp n xs
    ∙ sym (length-eq-total xs)

pub length-remove :
    (n : ℕ) (xs : List ℕ) → contains n xs ≡ true → length (remove n xs) + 1 ≡ length xs
length-remove n [] c = cc
length-remove n (x ∷ xs) c = ground (arith, length-remove n xs)

pub length-after : (n : ℕ) (xs : List ℕ) → contains n xs ≡ true → length (after n xs) < length xs
length-after n [] c = cc
length-after n (x ∷ xs) c = ground (arith, length-after n xs)

occurrences-after-le : (m n : ℕ) (xs : List ℕ) → occurrences m (after n xs) ≤ occurrences m xs
occurrences-after-le m n [] = omega arith
occurrences-after-le m n (x ∷ xs) = ground (arith, occurrences-after-le m n xs)

pub front-occurs : (m : ℕ) (xs : List ℕ) → front xs ≡ some m → 0 < occurrences m xs
front-occurs m [] e = cc
front-occurs m (x ∷ xs) e = ground arith

-- What an iterator steps to stands in the list.
pub next-occurs : (n m : ℕ) (xs : List ℕ) → front (after n xs) ≡ some m → 0 < occurrences m xs
next-occurs n m xs e = omega (arith, front-occurs m (after n xs) e, occurrences-after-le m n xs)

pub next-occurs-remove :
    (n m : ℕ) (xs : List ℕ)
    → contains n xs ≡ true
    → front (after n xs) ≡ some m
    → 0 < occurrences m (remove n xs)
next-occurs-remove n m xs c e =
    rw (remove-eq-before-after n xs c) (
      omega (arith, occurrences-append m (before n xs) (after n xs), front-occurs m (after n xs) e))

after-front : (m : ℕ) (xs : List ℕ) → front xs ≡ some m → suc (length (after m xs)) ≡ length xs
after-front m [] e = cc
after-front m (x ∷ xs) e = ground arith

-- The step of an iterator shortens what lies before it.
pub length-after-next :
    (n m : ℕ) (xs : List ℕ)
    → front (after n xs) ≡ some m
    → occurrences m xs ≡ 1
    → length (after m xs) < length (after n xs)
length-after-next n m [] e k = cc
length-after-next n m (x ∷ xs) e k = elim (Bool-cases (x == n)) [
  | inl h ↦
      let f : front xs ≡ some m = rw h at e in
      ground (arith, front-occurs m xs f, after-front m xs f)
  | inr h ↦
      let f : front (after n xs) ≡ some m = rw h at e in
      ground (arith, next-occurs n m xs f, length-after-next n m xs f)
]

module _ (P : ℕ → Type 0) where
  reverse_onto-before :
      (n : ℕ) (xs ys : List ℕ)
      → All P xs
      → All P (before n ys)
      → All P (before n (reverse_onto xs ys))
  reverse_onto-before n [] ys p q = q
  reverse_onto-before n (x ∷ xs) ys p q = reverse_onto-before n xs (x ∷ ys) p.1 joined
    where
      joined : All P (before n (x ∷ ys))
      joined = elim (Bool-cases (x == n)) [ inl e ↦ rw e tt | inr e ↦ rw e (p.0, q) ]

  climb-before :
      (comp : ℕ → ℕ → Bool) (n : ℕ) (xs ys : List ℕ)
      → All P xs
      → All P (before n (climb comp n xs ys))
  unfolding climb
  climb-before comp n [] ys p = rw ==_refl tt
  climb-before comp n (x ∷ xs) ys p = elim (Bool-cases (comp n x)) [
    | inl e ↦ rw e (climb-before comp n xs (x ∷ ys) p.1)
    | inr e ↦ rw e (reverse_onto-before n (x ∷ xs) (n ∷ ys) p (rw ==_refl tt))
  ]

  -- Nothing new comes before a node that moves up.
  pub prioritize-before :
      (comp : ℕ → ℕ → Bool) (n : ℕ) (xs : List ℕ)
      → All P (before n xs)
      → All P (before n (prioritize comp n xs))
  unfolding prioritize
  prioritize-before comp n xs p = elim (Bool-cases (contains n xs)) [
    | inl e ↦ rw e (
        climb-before comp n (reverse_onto (before n xs) []) (after n xs)
          (reverse_onto-All P (before n xs) [] p tt))
    | inr e ↦ rw e p
  ]

  pub front-before : (m : ℕ) (ys : List ℕ) → front ys ≡ some m → All P (before m ys)
  front-before m [] f = tt
  front-before m (y ∷ ys) f = rw (let q : y ≡ m = ground arith in (==_iff y m).1 q) tt

  pub front-none : (ys : List ℕ) → front ys ≡ none → All P ys
  front-none [] e = tt
  front-none (y ∷ ys) e = cc

  -- Before the node that follows stands only what stood before the node, and the node itself.
  pub next-before :
      (n m : ℕ) (xs : List ℕ)
      → All P (before n xs)
      → P n
      → front (after n xs) ≡ some m
      → All P (before m xs)
  next-before n m [] p h e = tt
  next-before n m (x ∷ xs) p h e = elim (Bool-cases (x == m)) [
    | inl k ↦ rw k tt
    | inr k ↦ rw k (elim (Bool-cases (x == n)) [
      | inl i ↦ (subst P (sym ((==_iff x n).0 i)) h, front-before m xs (rw i at e))
      | inr i ↦
          let q : P x × All P (before n xs) = rw i at p in
          (q.0, next-before n m xs q.1 h (rw i at e))
    ])
  ]

  -- So it is when the node itself is taken out.
  pub next-before-remove :
      (n m : ℕ) (xs : List ℕ)
      → All P (before n xs)
      → front (after n xs) ≡ some m
      → All P (before m (remove n xs))
  next-before-remove n m [] p e = tt
  next-before-remove n m (x ∷ xs) p e = elim (Bool-cases (x == n)) [
    | inl i ↦ rw i (front-before m xs (rw i at e))
    | inr i ↦ rw i (elim (Bool-cases (x == m)) [
      | inl k ↦ rw k tt
      | inr k ↦
          let q : P x × All P (before n xs) = rw i at p in
          rw k (q.0, next-before-remove n m xs q.1 (rw i at e))
    ])
  ]

  -- At the end of the list everything stands before the iterator.
  pub end-before :
      (n : ℕ) (xs : List ℕ) → All P (before n xs) → P n → front (after n xs) ≡ none → All P xs
  end-before n [] p h e = tt
  end-before n (x ∷ xs) p h e = elim (Bool-cases (x == n)) [
    | inl i ↦ (subst P (sym ((==_iff x n).0 i)) h, front-none xs (rw i at e))
    | inr i ↦
        let q : P x × All P (before n xs) = rw i at p in (q.0, end-before n xs q.1 h (rw i at e))
  ]

  pub end-before-remove :
      (n : ℕ) (xs : List ℕ) → All P (before n xs) → front (after n xs) ≡ none → All P (remove n xs)
  end-before-remove n [] p e = tt
  end-before-remove n (x ∷ xs) p e = elim (Bool-cases (x == n)) [
    | inl i ↦ rw i (front-none xs (rw i at e))
    | inr i ↦
        let q : P x × All P (before n xs) = rw i at p in
        rw i (q.0, end-before-remove n xs q.1 (rw i at e))
  ]

  -- What holds before a node of all but that node.
  pub before-map {ℓ} :
      (Q : ℕ → Type ℓ) (n : ℕ)
      → ((m : ℕ) → (m == n) ≡ false → P m → Q m)
      → (xs : List ℕ) → All P (before n xs)
      → All Q (before n xs)
  before-map Q n f [] p = tt
  before-map Q n f (x ∷ xs) p = elim (Bool-cases (x == n)) [
    | inl e ↦ rw e tt
    | inr e ↦
        let q : P x × All P (before n xs) = rw e at p in rw e (f x e q.0, before-map Q n f xs q.1)
  ]
