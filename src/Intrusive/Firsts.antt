-- ===== src/Intrusive/Firsts.antt =====
-- The smallest key of a sorted list, and lists that are sorted by it.
use homa.Base.{
  not, AtLeast-le, AtMost-le, ℕ, ◌≤◌, ◌≡◌, ap, inl, inr, true, false, List, [], ◌∷◌, arith, ◌==◌,
  ==_iff, ==_refl, maybe, Bool-cases, All-map, AtLeast, AtMost, IsSorted, IsSorted-congr,
}
use homa.Intrusive.{contains, remove, before, after, front, deprioritize}
use homa.Intrusive.Members.{occurrences, occurrences-remove, occurrences-cut, contains_iff}
use homa.Intrusive.Order.{comp, remove-IsSorted, agree_away, deprioritize-IsSorted}

-- The key of the front, 0 without one.
abbrev pub first : (ℕ → ℕ) → List ℕ → ℕ
first key xs = maybe 0 key (front xs)

AtLeast-member :
    (key : ℕ → ℕ) (k n : ℕ) (xs : List ℕ) → AtLeast key k xs → contains n xs ≡ true → k ≤ key n
AtLeast-member key k n [] a c = cc
AtLeast-member key k n (x ∷ xs) a c = elim (Bool-cases (x == n)) [
  | inl e ↦ omega (arith, a.0, ap key ((==_iff x n).0 e))
  | inr e ↦ AtLeast-member key k n xs a.1 (rw e at c)
]

-- The front of a sorted list has the smallest key.
pub first_le :
    (key : ℕ → ℕ) (n : ℕ) (xs : List ℕ)
    → IsSorted key xs
    → contains n xs ≡ true
    → first key xs ≤ key n
first_le key n [] s c = cc
first_le key n (x ∷ xs) s c = elim (Bool-cases (x == n)) [
  | inl e ↦ omega (arith, ap key ((==_iff x n).0 e))
  | inr e ↦ AtLeast-member key (key x) n xs s.0 (rw e at c)
]

-- What became of the first key when one node came into a sorted list, or moved in it with a lowered key:
-- it did not rise, and it is the same where the front is another node.
pub first_lowered :
    (key key' : ℕ → ℕ) (n x : ℕ) (xs ys : List ℕ)
    → ((m : ℕ) → (m == n) ≡ false → key' m ≡ key m)
    → key' n ≤ key n
    → IsSorted key (x ∷ xs)
    → IsSorted key' ys
    → ((m : ℕ) → occurrences m (x ∷ xs) ≤ occurrences m ys)
    → ((m : ℕ) → (m == n) ≡ false → occurrences m ys ≤ occurrences m (x ∷ xs))
    → (first key' ys ≤ key x)
      × (maybe false (λ q. q == n) (front ys) ≡ false → first key' ys ≡ key x)
first_lowered key key' n x xs ys same low s t keeps others =
    let low_all : (m : ℕ) → key' m ≤ key m = λ m. elim (Bool-cases (m == n)) [
      | inl e ↦ omega (arith, low, ap key ((==_iff m n).0 e), ap key' ((==_iff m n).0 e))
      | inr e ↦ omega (arith, same m e)
    ] in
    let there : contains x ys ≡ true = (contains_iff x ys).1 (ground (arith, keeps x, ==_refl x)) in
    let least : first key' ys ≤ key x = omega (arith, first_le key' x ys t there, low_all x) in
    (least, at_front ys there least others)
  where
    at_front :
        (zs : List ℕ)
        → contains x zs ≡ true
        → first key' zs ≤ key x
        → ((m : ℕ) → (m == n) ≡ false → occurrences m zs ≤ occurrences m (x ∷ xs))
        → maybe false (λ q. q == n) (front zs) ≡ false
        → first key' zs ≡ key x
    at_front [] c l o e = cc
    at_front (z ∷ zs) c l o e =
        let member : contains z (x ∷ xs) ≡ true =
          (contains_iff z (x ∷ xs)).1 (let h = o z e in ground (arith, h, ==_refl z)) in
        omega (arith, l, same z e, first_le key z (x ∷ xs) s member)

-- Where no key falls.
AtLeast-mono :
    (key key' : ℕ → ℕ) (k : ℕ) (xs : List ℕ)
    → ((m : ℕ) → key m ≤ key' m)
    → AtLeast key k xs
    → AtLeast key' k xs
AtLeast-mono key key' k xs up a = All-map _ _ (λ x h. omega (arith, h, up x)) xs a

before-AtMost :
    (key : ℕ → ℕ) (n : ℕ) (xs : List ℕ)
    → IsSorted key xs
    → contains n xs ≡ true
    → AtMost key (key n) (before n xs)
before-AtMost key n [] s c = tt
before-AtMost key n (x ∷ xs) s c = elim (Bool-cases (x == n)) [
  | inl e ↦ rw e tt
  | inr e ↦
      rw e (AtLeast-member key (key x) n xs s.0 (rw e at c), before-AtMost key n xs s.1 (rw e at c))
]

-- One node's key has risen, and no other key changed.
module _ (key key' : ℕ → ℕ) (n : ℕ) (same : (m : ℕ) → (m == n) ≡ false → key' m ≡ key m)
    (up : key n ≤ key' n) where
  up_all : (m : ℕ) → key m ≤ key' m
  up_all m = elim (Bool-cases (m == n)) [
    | inl e ↦ omega (arith, up, ap key ((==_iff m n).0 e), ap key' ((==_iff m n).0 e))
    | inr e ↦ omega (arith, same m e)
  ]

  behind :
      (xs : List ℕ)
      → occurrences n xs ≡ 0
      → IsSorted key xs
      → maybe true (λ m. not (comp key' m n)) (front xs) ≡ true
      → IsSorted key' xs × AtLeast key' (key' n) xs
  behind [] o s e = (tt, tt)
  behind (y ∷ ys) o s e =
      let s' : IsSorted key' (y ∷ ys) =
        IsSorted-congr key key' (y ∷ ys) (agree_away key key' n same (y ∷ ys) o) s in
      let h : key' n ≤ key' y = ground (arith, e) in (s', (h, AtLeast-le key' ys h s'.0))

  -- The list is still sorted where the next node's key is not smaller, if there is a next node.
  pub kept-IsSorted :
      (xs : List ℕ)
      → occurrences n xs ≡ 1
      → IsSorted key xs
      → maybe true (λ m. not (comp key' m n)) (front (after n xs)) ≡ true
      → IsSorted key' xs
  kept-IsSorted [] o s e = tt
  kept-IsSorted (x ∷ xs) o s e = elim (Bool-cases (x == n)) [
    | inl h ↦
        let (s', a) = behind xs (let o' = o in ground (arith, h)) s.1 (rw h at e) in
        (AtLeast-le key' xs (omega (arith, ap key' ((==_iff x n).0 h))) a, s')
    | inr h ↦ (
      AtLeast-le key' xs (omega (arith, same x h)) (AtLeast-mono key key' (key x) xs up_all s.0),
      kept-IsSorted xs (rw h at o) s.1 (rw h at e),
    )
  ]

  -- `deprioritize` of the node makes the list sorted by the new keys.
  pub raised-IsSorted :
      (xs : List ℕ)
      → occurrences n xs ≡ 1
      → IsSorted key xs
      → IsSorted key' (deprioritize (comp key') n xs)
  raised-IsSorted xs once s =
      let linked : contains n xs ≡ true = (contains_iff n xs).1 (omega arith) in
      deprioritize-IsSorted key' n xs linked
        (IsSorted-congr key key' (remove n xs)
          (agree_away key key' n same (remove n xs)
            (ground (arith, once, occurrences-remove n n xs)))
          (remove-IsSorted key n xs s))
        (AtMost-le key' (before n xs) up (
          AtMost-same (before n xs) (ground (arith, once, occurrences-cut n n xs linked))
            (before-AtMost key n xs s linked)))
    where
      AtMost-same :
          (ys : List ℕ) → occurrences n ys ≡ 0 → AtMost key (key n) ys → AtMost key' (key n) ys
      AtMost-same [] o a = tt
      AtMost-same (y ∷ ys) o a = elim (Bool-cases (y == n)) [
        | inl e ↦ absurd (ground (arith, e))
        | inr e ↦ (omega (arith, same y e, a.0), AtMost-same ys (rw e at o) a.1)
      ]
