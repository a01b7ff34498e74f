-- ===== src/Base/Order.antt =====
-- Lists in ascending order of a key.
use Prim.Native.Nat.{ℕ, ◌≤◌}
use mathlib.Core.Path.{◌≡◌}
use mathlib.Core.List.{List, [], ◌∷◌, ◌++◌}
use native.Mathlib.Omega.{arith}
use homa.Base.Lists.{All, All-map, All-append, All-append_left, All-append_right}

module _ {ℓ} {A : Type ℓ} (key : A → ℕ) where
  -- The key of every element is at least `k`.
  abbrev pub AtLeast : ℕ → List A → Type 0
  AtLeast k = All (λ x. k ≤ key x)

  -- The key of every element is at most `k`.
  abbrev pub AtMost : ℕ → List A → Type 0
  AtMost k = All (λ x. key x ≤ k)

  -- The keys never fall from one element to a later one.
  abbrev pub IsSorted : List A → Type 0
  IsSorted [] = Unit
  IsSorted (x ∷ xs) = AtLeast (key x) xs × IsSorted xs

  -- The keys never rise from one element to a later one.
  abbrev pub IsDescending : List A → Type 0
  IsDescending [] = Unit
  IsDescending (x ∷ xs) = AtMost (key x) xs × IsDescending xs

  pub AtLeast-le : {j k : ℕ} (xs : List A) → j ≤ k → AtLeast k xs → AtLeast j xs
  AtLeast-le {j} {k} xs h p = All-map _ _ (λ x q. omega arith) xs p

  pub AtMost-le : {j k : ℕ} (xs : List A) → j ≤ k → AtMost j xs → AtMost k xs
  AtMost-le {j} {k} xs h p = All-map _ _ (λ x q. omega arith) xs p

  -- An element whose key is not below the others may follow them.
  pub IsSorted-append_last :
      (xs : List A) (y : A) → IsSorted xs → AtMost (key y) xs → IsSorted (xs ++ (y ∷ []))
  IsSorted-append_last [] y s m = (tt, tt)
  IsSorted-append_last (x ∷ xs) y s m =
      (All-append _ xs (y ∷ []) s.0 (m.0, tt), IsSorted-append_last xs y s.1 m.1)

-- The order depends on the keys alone.
pub AtLeast-congr {ℓ} :
    {A : Type ℓ} (f g : A → ℕ) (k : ℕ) (xs : List A)
    → All (λ x. f x ≡ g x) xs
    → AtLeast f k xs
    → AtLeast g k xs
AtLeast-congr f g k [] e p = tt
AtLeast-congr f g k (x ∷ xs) e p = (omega arith, AtLeast-congr f g k xs e.1 p.1)

pub IsSorted-congr {ℓ} :
    {A : Type ℓ} (f g : A → ℕ) (xs : List A)
    → All (λ x. f x ≡ g x) xs
    → IsSorted f xs
    → IsSorted g xs
IsSorted-congr f g [] e s = tt
IsSorted-congr f g (x ∷ xs) e s = (
  AtLeast-congr f g (g x) xs e.1 (AtLeast-le f xs (omega arith) s.0),
  IsSorted-congr f g xs e.1 s.1,
)

module _ {ℓ} {A : Type ℓ} (key : A → ℕ) where
  -- The parts of a sorted list.
  pub IsSorted-append_left : (xs ys : List A) → IsSorted key (xs ++ ys) → IsSorted key xs
  IsSorted-append_left [] ys s = tt
  IsSorted-append_left (x ∷ xs) ys s = (All-append_left _ xs ys s.0, IsSorted-append_left xs ys s.1)

  pub IsSorted-append_right : (xs ys : List A) → IsSorted key (xs ++ ys) → IsSorted key ys
  IsSorted-append_right [] ys s = s
  IsSorted-append_right (x ∷ xs) ys s = IsSorted-append_right xs ys s.1

  -- In a sorted list the earlier part lies below the later part.
  pub IsSorted-append_le :
      (xs ys : List A) → IsSorted key (xs ++ ys) → All (λ x. AtLeast key (key x) ys) xs
  IsSorted-append_le [] ys s = tt
  IsSorted-append_le (x ∷ xs) ys s = (All-append_right _ xs ys s.0, IsSorted-append_le xs ys s.1)

  pub IsSorted-append :
      (xs ys : List A)
      → IsSorted key xs
      → IsSorted key ys
      → All (λ x. AtLeast key (key x) ys) xs
      → IsSorted key (xs ++ ys)
  IsSorted-append [] ys s t c = t
  IsSorted-append (x ∷ xs) ys s t c = (All-append _ xs ys s.0 c.0, IsSorted-append xs ys s.1 t c.1)
