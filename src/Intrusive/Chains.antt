-- ===== src/Intrusive/Chains.antt =====
-- src/Intrusive.h: chains of pointers, and what a change of one pointer does to them.
use homa.Base.{
  ℕ, ◌≡◌, refl, sym, ◌∙◌, subst, inl, inr, true, false, ◌||◌, List, [], ◌∷◌, ◌++◌, arith, ◌==◌,
  ==_iff, ==_refl, Bool-cases,
}
use homa.Intrusive.{contains}

-- From `a` a pointer leads through some nodes to `b`.
abbrev pub Chain : (ℕ → ℕ) → ℕ → List ℕ → ℕ → Type 0
Chain f a [] b = f a ≡ b
Chain f a (x ∷ xs) b = (f a ≡ x) × Chain f x xs b

-- The pointers back: from `b` through the same nodes to `a`.
abbrev pub Back : (ℕ → ℕ) → ℕ → List ℕ → ℕ → Type 0
Back g a [] b = g b ≡ a
Back g a (x ∷ xs) b = (g x ≡ a) × Back g x xs b

abbrev pub IsDistinct : List ℕ → Type 0
IsDistinct [] = Unit
IsDistinct (x ∷ xs) = (contains x xs ≡ false) × IsDistinct xs

-- The last node before an insertion, and the first behind it.
abbrev pub last : ℕ → List ℕ → ℕ
last a [] = a
last a (x ∷ xs) = last x xs

abbrev pub first : List ℕ → ℕ → ℕ
first [] b = b
first (x ∷ xs) b = x

pub contains-append :
    (n : ℕ) (xs ys : List ℕ) → contains n (xs ++ ys) ≡ (contains n xs || contains n ys)
contains-append n [] ys = refl
contains-append n (x ∷ xs) ys = elim (Bool-cases (x == n)) [
  | inl e ↦ rw e refl
  | inr e ↦ rw e (contains-append n xs ys)
]

pub contains-last : (a : ℕ) (xs : List ℕ) → contains (last a xs) (a ∷ xs) ≡ true
contains-last a [] = rw ==_refl refl
contains-last a (x ∷ xs) = ground (arith, contains-last x xs)

pub contains-first : (xs : List ℕ) (b : ℕ) → contains (first xs b) (xs ++ b ∷ []) ≡ true
contains-first [] b = rw ==_refl refl
contains-first (x ∷ xs) b = rw ==_refl refl

pub first-inside : (ys zs : List ℕ) (b : ℕ) → contains (first zs b) ((ys ++ zs) ++ b ∷ []) ≡ true
first-inside [] zs b = contains-first zs b
first-inside (y ∷ ys) zs b = ground (arith, first-inside ys zs b)

pub first-inside_behind :
    (n : ℕ) (ys zs : List ℕ) (b : ℕ) → contains (first zs b) ((ys ++ n ∷ zs) ++ b ∷ []) ≡ true
first-inside_behind n [] zs b = ground (arith, contains-first zs b)
first-inside_behind n (y ∷ ys) zs b = ground (arith, first-inside_behind n ys zs b)

pub Chain-frame :
    (f f' : ℕ → ℕ) (a : ℕ) (xs : List ℕ) (b : ℕ)
    → ((i : ℕ) → contains i (a ∷ xs) ≡ true → f' i ≡ f i)
    → Chain f a xs b
    → Chain f' a xs b
Chain-frame f f' a [] b same c = same a (rw ==_refl refl) ∙ c
Chain-frame f f' a (x ∷ xs) b same c = (
  same a (rw ==_refl refl) ∙ c.0,
  Chain-frame f f' x xs b (λ i m. same i (ground (arith, m))) c.1,
)

pub Back-frame :
    (g g' : ℕ → ℕ) (a : ℕ) (xs : List ℕ) (b : ℕ)
    → ((i : ℕ) → contains i (xs ++ b ∷ []) ≡ true → g' i ≡ g i)
    → Back g a xs b
    → Back g' a xs b
Back-frame g g' a [] b same c = same b (rw ==_refl refl) ∙ c
Back-frame g g' a (x ∷ xs) b same c =
    (same x (rw ==_refl refl) ∙ c.0, Back-frame g g' x xs b (λ i m. same i (ground (arith, m))) c.1)

-- Two nodes are different if only one is in a list.
pub apart :
    (i j : ℕ) (xs : List ℕ) → contains i xs ≡ true → contains j xs ≡ false → (i == j) ≡ false
apart i j xs inside outside = elim (Bool-cases (i == j)) [
  | inl e ↦
      let there : contains i xs ≡ false =
        subst (λ k. contains k xs ≡ false) (sym ((==_iff i j).0 e)) outside in
      absurd (grind arith)
  | inr e ↦ e
]

module _ (f f' : ℕ → ℕ) (n b : ℕ) where
  -- A node between two parts of a chain.
  pub Chain-insert :
      (a : ℕ) (ys zs : List ℕ)
      → IsDistinct (a ∷ ys ++ zs)
      → contains n (a ∷ ys ++ zs) ≡ false
      → f' (last a ys) ≡ n
      → f' n ≡ first zs b
      → ((i : ℕ) → (i == last a ys) ≡ false → (i == n) ≡ false → f' i ≡ f i)
      → Chain f a (ys ++ zs) b
      → Chain f' a (ys ++ n ∷ zs) b
  Chain-insert a [] [] d new at_p at_n same c = (at_p, at_n)
  Chain-insert a [] (z ∷ zs) d new at_p at_n same c = (
    at_p,
    (
      at_n,
      Chain-frame f f' z zs b
          (λ i m. same i (apart i a (z ∷ zs) m d.0) (apart i n (z ∷ zs) m (ground (arith, new))))
          c.1,
    ),
  )
  Chain-insert a (y ∷ ys) zs d new at_p at_n same c =
      let p : ℕ = last y ys in
      let inside : contains p (y ∷ ys ++ zs) ≡ true =
        ground (arith, contains-last y ys, contains-append p ys zs) in
      let before : (a == p) ≡ false = ground (arith, apart p a (y ∷ ys ++ zs) inside d.0) in
      (
        same a before (ground (arith, new)) ∙ c.0,
        Chain-insert y ys zs d.1 (ground (arith, new)) at_p at_n same c.1,
      )

  -- And without it.
  pub Chain-remove :
      (a : ℕ) (ys zs : List ℕ)
      → IsDistinct (a ∷ ys ++ n ∷ zs)
      → f' (last a ys) ≡ first zs b
      → ((i : ℕ) → (i == last a ys) ≡ false → (i == n) ≡ false → f' i ≡ f i)
      → Chain f a (ys ++ n ∷ zs) b
      → Chain f' a (ys ++ zs) b
  Chain-remove a [] [] d at_p same c = at_p
  Chain-remove a [] (z ∷ zs) d at_p same c = (
    at_p,
    Chain-frame f f' z zs b
        (λ i m. same i (apart i a (z ∷ zs) m (ground (arith, d.0))) (apart i n (z ∷ zs) m d.1.0))
        c.1.1,
  )
  Chain-remove a (y ∷ ys) zs d at_p same c =
      let p : ℕ = last y ys in
      let inside : contains p (y ∷ ys ++ n ∷ zs) ≡ true =
        ground (arith, contains-last y ys, contains-append p ys (n ∷ zs)) in
      let before : (a == p) ≡ false = ground (arith, apart p a (y ∷ ys ++ n ∷ zs) inside d.0) in
      let away : (a == n) ≡ false = ground (arith, d.0, contains-append a ys (n ∷ zs)) in
      (same a before away ∙ c.0, Chain-remove y ys zs d.1 at_p same c.1)

  pub Back-insert :
      (a : ℕ) (ys zs : List ℕ)
      → IsDistinct ((ys ++ zs) ++ b ∷ [])
      → contains n ((ys ++ zs) ++ b ∷ []) ≡ false
      → f' (first zs b) ≡ n
      → f' n ≡ last a ys
      → ((i : ℕ) → (i == first zs b) ≡ false → (i == n) ≡ false → f' i ≡ f i)
      → Back f a (ys ++ zs) b
      → Back f' a (ys ++ n ∷ zs) b
  Back-insert a [] [] d new at_q at_n same c = (at_n, at_q)
  Back-insert a [] (z ∷ zs) d new at_q at_n same c = (
    at_n,
    (
      at_q,
      Back-frame f f' z zs b
          (λ i m.
            same i (apart i z (zs ++ b ∷ []) m d.0)
              (apart i n (zs ++ b ∷ []) m (ground (arith, new))))
          c.1,
    ),
  )
  Back-insert a (y ∷ ys) zs d new at_q at_n same c =
      let q : ℕ = first zs b in
      let inside : contains q ((ys ++ zs) ++ b ∷ []) ≡ true = first-inside ys zs b in
      let before : (y == q) ≡ false = ground (arith, apart q y ((ys ++ zs) ++ b ∷ []) inside d.0) in
      (
        same y before (ground (arith, new)) ∙ c.0,
        Back-insert y ys zs d.1 (ground (arith, new)) at_q at_n same c.1,
      )

  pub Back-remove :
      (a : ℕ) (ys zs : List ℕ)
      → IsDistinct ((ys ++ n ∷ zs) ++ b ∷ [])
      → f' (first zs b) ≡ last a ys
      → ((i : ℕ) → (i == first zs b) ≡ false → (i == n) ≡ false → f' i ≡ f i)
      → Back f a (ys ++ n ∷ zs) b
      → Back f' a (ys ++ zs) b
  Back-remove a [] [] d at_q same c = at_q
  Back-remove a [] (z ∷ zs) d at_q same c = (
    at_q,
    Back-frame f f' z zs b
        (λ i m.
          same i (apart i z (zs ++ b ∷ []) m d.1.0)
            (apart i n (zs ++ b ∷ []) m (ground (arith, d.0))))
        c.1.1,
  )
  Back-remove a (y ∷ ys) zs d at_q same c =
      let q : ℕ = first zs b in
      let inside : contains q ((ys ++ n ∷ zs) ++ b ∷ []) ≡ true = first-inside_behind n ys zs b in
      let before : (y == q) ≡ false =
        ground (arith, apart q y ((ys ++ n ∷ zs) ++ b ∷ []) inside d.0) in
      let away : (y == n) ≡ false =
        ground
          (arith, d.0, contains-append y (ys ++ n ∷ zs) (b ∷ []), contains-append y ys (n ∷ zs)) in
      (same y before away ∙ c.0, Back-remove y ys zs d.1 at_q same c.1)
