-- ===== src/Intrusive/Members.antt =====
-- What the operations of the list do to its set of nodes and to the order of the others.
use homa.Base.{
  ℕ, suc, ◌+◌, ◌-◌, ◌≤◌, ◌<◌, ◌≡◌, refl, ap, subst, ◌↔◌, inl, inr, Bool, true, List, [], ◌∷◌, ◌++◌,
  arith, ◌==◌, if◌then◌else◌, ==_iff, ==_refl, Bool-cases, All,
}
use homa.Intrusive.{
  contains, remove, before, after, reverse_onto, climb, sink, prioritize, deprioritize,
}

-- How often a node stands in a list.
abbrev pub occurrences : ℕ → List ℕ → ℕ
occurrences m [] = 0
occurrences m (x ∷ xs) = if x == m then suc (occurrences m xs) else occurrences m xs

-- No node is linked twice.
abbrev pub IsNodup : List ℕ → Type 0
IsNodup xs = (m : ℕ) → occurrences m xs ≤ 1

pub occurrences-append :
    (m : ℕ) (xs ys : List ℕ) → occurrences m (xs ++ ys) ≡ occurrences m xs + occurrences m ys
occurrences-append m [] ys = omega arith
occurrences-append m (x ∷ xs) ys = ground (arith, occurrences-append m xs ys)

occurrences-reverse_onto :
    (m : ℕ) (xs ys : List ℕ)
    → occurrences m (reverse_onto xs ys) ≡ occurrences m xs + occurrences m ys
occurrences-reverse_onto m [] ys = omega arith
occurrences-reverse_onto m (x ∷ xs) ys = ground (arith, occurrences-reverse_onto m xs (x ∷ ys))

occurrences-climb :
    (comp : ℕ → ℕ → Bool) (m n : ℕ) (xs ys : List ℕ)
    → occurrences m (climb comp n xs ys)
      ≡ (if n == m then 1 else 0) + occurrences m xs + occurrences m ys
unfolding climb
occurrences-climb comp m n [] ys = ground arith
occurrences-climb comp m n (x ∷ xs) ys =
    ground
      (arith, occurrences-climb comp m n xs (x ∷ ys), occurrences-reverse_onto m xs (x ∷ n ∷ ys))

occurrences-sink :
    (comp : ℕ → ℕ → Bool) (m n : ℕ) (xs : List ℕ)
    → occurrences m (sink comp n xs) ≡ (if n == m then 1 else 0) + occurrences m xs
unfolding sink
occurrences-sink comp m n [] = ground arith
occurrences-sink comp m n (x ∷ xs) = ground (arith, occurrences-sink comp m n xs)

pub occurrences-cut :
    (m n : ℕ) (xs : List ℕ)
    → contains n xs ≡ true
    → occurrences m xs
      ≡ (if n == m then 1 else 0) + occurrences m (before n xs) + occurrences m (after n xs)
occurrences-cut m n [] c = cc
occurrences-cut m n (x ∷ xs) c = ground (arith, occurrences-cut m n xs)

-- Reordering keeps every node as often as it stood there.
pub occurrences-prioritize :
    (comp : ℕ → ℕ → Bool) (m n : ℕ) (xs : List ℕ)
    → occurrences m (prioritize comp n xs) ≡ occurrences m xs
unfolding prioritize
occurrences-prioritize comp m n xs = ground (
  arith,
  occurrences-climb comp m n (reverse_onto (before n xs) []) (after n xs),
  occurrences-reverse_onto m (before n xs) [],
  occurrences-cut m n xs,
)

pub occurrences-deprioritize :
    (comp : ℕ → ℕ → Bool) (m n : ℕ) (xs : List ℕ)
    → occurrences m (deprioritize comp n xs) ≡ occurrences m xs
unfolding deprioritize
occurrences-deprioritize comp m n xs = ground (
  arith,
  occurrences-append m (before n xs) (sink comp n (after n xs)),
  occurrences-sink comp m n (after n xs),
  occurrences-cut m n xs,
)

pub occurrences-remove :
    (m n : ℕ) (xs : List ℕ)
    → occurrences m (remove n xs) ≡ occurrences m xs - (if n == m then 1 else 0)
occurrences-remove m n [] = ground arith
occurrences-remove m n (x ∷ xs) = ground (arith, occurrences-remove m n xs)

pub contains_iff : (m : ℕ) (xs : List ℕ) → (contains m xs ≡ true) ↔ (0 < occurrences m xs)
contains_iff m [] = (λ e. cc, λ h. absurd (omega arith))
contains_iff m (x ∷ xs) = ground (arith, contains_iff m xs)

-- Membership, as `contains` tells it, is kept by reordering.
pub contains-prioritize :
    (comp : ℕ → ℕ → Bool) (m n : ℕ) (xs : List ℕ)
    → contains m (prioritize comp n xs) ≡ contains m xs
contains-prioritize comp m n xs =
    same (occurrences-prioritize comp m n xs) (contains_iff m (prioritize comp n xs))
      (contains_iff m xs)
  where
    same : {a b : ℕ} {p q : Bool} → a ≡ b → (p ≡ true) ↔ (0 < a) → (q ≡ true) ↔ (0 < b) → p ≡ q
    same e f g = ground arith

-- What holds of every node of a list holds of every node of a part of it.
pub All-remove {ℓ} : (P : ℕ → Type ℓ) (n : ℕ) (xs : List ℕ) → All P xs → All P (remove n xs)
All-remove P n [] p = tt
All-remove P n (x ∷ xs) p = elim (Bool-cases (x == n)) [
  | inl e ↦ rw e p.1
  | inr e ↦ rw e (p.0, All-remove P n xs p.1)
]

pub All_at {ℓ} : (P : ℕ → Type ℓ) (n : ℕ) (xs : List ℕ) → All P xs → contains n xs ≡ true → P n
All_at P n [] p c = cc
All_at P n (x ∷ xs) p c = elim (Bool-cases (x == n)) [
  | inl e ↦ subst P ((==_iff x n).0 e) p.0
  | inr e ↦ All_at P n xs p.1 (rw e at c)
]

pub All_of_at {ℓ} :
    (P : ℕ → Type ℓ) (xs : List ℕ) → ((n : ℕ) → contains n xs ≡ true → P n) → All P xs
All_of_at P [] f = tt
All_of_at P (x ∷ xs) f = (f x (rw ==_refl refl), All_of_at P xs λ n c. f n (ground arith))

-- `remove` takes out the node between `before` and `after`.
pub remove-eq-before-after :
    (n : ℕ) (xs : List ℕ) → contains n xs ≡ true → remove n xs ≡ before n xs ++ after n xs
remove-eq-before-after n [] c = cc
remove-eq-before-after n (x ∷ xs) c = elim (Bool-cases (x == n)) [
  | inl e ↦ rw e
  | inr e ↦ rw e (ap (λ l. x ∷ l) (remove-eq-before-after n xs (rw e at c)))
]

pub reverse_onto-All {ℓ} :
    (P : ℕ → Type ℓ) (xs ys : List ℕ) → All P xs → All P ys → All P (reverse_onto xs ys)
reverse_onto-All P [] ys p q = q
reverse_onto-All P (x ∷ xs) ys p q = reverse_onto-All P xs (x ∷ ys) p.1 (p.0, q)
