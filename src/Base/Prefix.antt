-- ===== src/Base/Prefix.antt =====
-- The first elements of a list, and the others, measured by native numbers.
use Prim.Native.Nat.{ℕ, zero, suc, ◌-◌, min}
use mathlib.Core.Path.{◌≡◌, refl, ap, ◌∙◌}
use mathlib.Core.List.{List, [], ◌∷◌, ◌++◌}
use native.Mathlib.Omega.{arith}
use homa.Base.Lists.{length}

abbrev pub take : {A : Type 0} → ℕ → List A → List A
take n [] = []
take zero (x ∷ xs) = []
take (suc n) (x ∷ xs) = x ∷ take n xs

abbrev pub drop : {A : Type 0} → ℕ → List A → List A
drop n [] = []
drop zero (x ∷ xs) = x ∷ xs
drop (suc n) (x ∷ xs) = drop n xs

pub length-take : {A : Type 0} (n : ℕ) (xs : List A) → length (take n xs) ≡ min n (length xs)
length-take n [] = omega arith
length-take zero (x ∷ xs) = omega arith
length-take (suc n) (x ∷ xs) = omega (arith, length-take n xs)

pub take-append :
    {A : Type 0} (n : ℕ) (xs ys : List A) → take n (xs ++ ys) ≡ take n xs ++ take (n - length xs) ys
take-append n [] ys = ap (λ k. take k ys) (omega arith)
take-append zero (x ∷ xs) [] = refl
take-append zero (x ∷ xs) (y ∷ ys) =
    let nothing : 0 ≡ 0 - suc (length xs) = omega arith in ap (λ k. take k (y ∷ ys)) nothing
take-append (suc n) (x ∷ xs) ys =
    let same : n - length xs ≡ suc n - suc (length xs) = omega arith in
    ap (λ zs. x ∷ zs) (take-append n xs ys) ∙ ap (λ k. x ∷ take n xs ++ take k ys) same

pub drop-append :
    {A : Type 0} (n : ℕ) (xs ys : List A) → drop n (xs ++ ys) ≡ drop n xs ++ drop (n - length xs) ys
drop-append n [] ys = ap (λ k. drop k ys) (omega arith)
drop-append zero (x ∷ xs) [] = refl
drop-append zero (x ∷ xs) (y ∷ ys) =
    let nothing : 0 ≡ 0 - suc (length xs) = omega arith in
    ap (λ k. x ∷ xs ++ drop k (y ∷ ys)) nothing
drop-append (suc n) (x ∷ xs) ys =
    let same : n - length xs ≡ suc n - suc (length xs) = omega arith in
    drop-append n xs ys ∙ ap (λ k. drop n xs ++ drop k ys) same
