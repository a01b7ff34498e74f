-- ===== src/Intrusive/Linked.antt =====
-- src/Intrusive.h: the pointers of a list stand for the sequence of its nodes.
use homa.Base.{
  ℕ, ◌≡◌, refl, sym, ◌∙◌, inl, inr, false, List, [], ◌∷◌, ◌++◌, arith, ◌==◌, ==_refl, Bool-cases,
  length, length-append,
}
use homa.Intrusive.{contains}
use homa.Intrusive.Nodes.{Store, is_linked, insert, insert_node}
use homa.Intrusive.Chains.{
  Chain, Back, IsDistinct, last, first, contains-append, contains-last, first-inside, apart,
  Chain-insert, Back-insert,
}

-- From its root the pointers of a list lead through its nodes, in both directions, back to the root. The
-- nodes are different, and they and the root are those that name the list.
pub record Links (s : Store) (root : ℕ) (nodes : List ℕ) : Type 0 where
  pub forward : Chain s.next root nodes root
  pub backward : Back s.prev root nodes root
  pub distinct : IsDistinct (root ∷ nodes)
  pub members : (n : ℕ) → is_linked root n s ≡ contains n (root ∷ nodes)

-- The pointers of a list stand for a sequence of nodes, and the list counts them.
pub record Represents (s : Store) (root : ℕ) (nodes : List ℕ) : Type 0 where
  pub links : Links s root nodes
  pub counted : s.count root ≡ length nodes

pub Chain-at :
    (f : ℕ → ℕ) (n a : ℕ) (ys zs : List ℕ) (b : ℕ) → Chain f a (ys ++ n ∷ zs) b → f n ≡ first zs b
Chain-at f n a [] [] b c = c.1
Chain-at f n a [] (z ∷ zs) b c = c.1.0
Chain-at f n a (y ∷ ys) zs b c = Chain-at f n y ys zs b c.1

pub Chain-first : (f : ℕ → ℕ) (a : ℕ) (zs : List ℕ) (b : ℕ) → Chain f a zs b → f a ≡ first zs b
Chain-first f a [] b c = c
Chain-first f a (z ∷ zs) b c = c.0

pub Back-at :
    (g : ℕ → ℕ) (a : ℕ) (ys zs : List ℕ) (b : ℕ)
    → Back g a (ys ++ zs) b
    → g (first zs b) ≡ last a ys
Back-at g a [] [] b c = c
Back-at g a [] (z ∷ zs) b c = c.0
Back-at g a (y ∷ ys) zs b c = Back-at g y ys zs b c.1

pub IsDistinct-last :
    (r : ℕ) (xs : List ℕ) → contains r xs ≡ false → IsDistinct xs → IsDistinct (xs ++ r ∷ [])
IsDistinct-last r [] new d = (refl, tt)
IsDistinct-last r (x ∷ xs) new d = (
  ground (arith, new, d.0, contains-append x xs (r ∷ [])),
  IsDistinct-last r xs (ground (arith, new)) d.1,
)

IsDistinct-insert :
    (n : ℕ) (ys zs : List ℕ)
    → contains n (ys ++ zs) ≡ false
    → IsDistinct (ys ++ zs)
    → IsDistinct (ys ++ n ∷ zs)
IsDistinct-insert n [] zs new d = (new, d)
IsDistinct-insert n (y ∷ ys) zs new d = (
  ground (arith, new, d.0, contains-append y ys zs, contains-append y ys (n ∷ zs)),
  IsDistinct-insert n ys zs (ground (arith, new)) d.1,
)

pub IsDistinct-remove :
    (n : ℕ) (ys zs : List ℕ)
    → IsDistinct (ys ++ n ∷ zs)
    → (contains n (ys ++ zs) ≡ false) × IsDistinct (ys ++ zs)
IsDistinct-remove n [] zs d = d
IsDistinct-remove n (y ∷ ys) zs d =
    let r = IsDistinct-remove n ys zs d.1 in
    (
      ground (arith, d.0, r.0, contains-append y ys (n ∷ zs)),
      (ground (arith, d.0, contains-append y ys zs, contains-append y ys (n ∷ zs)), r.1),
    )

-- A node that is linked between two parts of a list.
module _ (s : Store) (r n : ℕ) (ys zs : List ℕ) (v : Links s r (ys ++ zs))
    (new : is_linked r n s ≡ false) where
  abbrev pub pos : ℕ
  pos = first zs r

  outside : contains n (r ∷ ys ++ zs) ≡ false
  outside = sym (v.members n) ∙ new

  around : IsDistinct ((ys ++ zs) ++ r ∷ [])
  around = IsDistinct-last r (ys ++ zs) v.distinct.0 v.distinct.1

  outside_last : contains n ((ys ++ zs) ++ r ∷ []) ≡ false
  outside_last = ground (arith, outside, contains-append n (ys ++ zs) (r ∷ []))

  pos_not_n : (pos == n) ≡ false
  pos_not_n = apart (first zs r) n ((ys ++ zs) ++ r ∷ []) (first-inside ys zs r) outside_last

  p_not_n : (last r ys == n) ≡ false
  p_not_n =
      apart (last r ys) n (r ∷ ys ++ zs)
        (ground (arith, contains-last r ys, contains-append (last r ys) ys zs)) outside

  behind : s.prev pos ≡ last r ys
  behind = Back-at s.prev r ys zs r v.backward

  flip : (i j : ℕ) → (i == j) ≡ false → (j == i) ≡ false
  flip i j e = ground arith

  pub insert_node-Links : Links (insert_node pos n s) r (ys ++ n ∷ zs)
  unfolding insert_node
  insert_node-Links = record {
    forward =
        Chain-insert s.next (insert_node pos n s).next n r r ys zs v.distinct outside
          (rw (pos_not_n, behind, ==_refl (last r ys)) refl)
          (rw (pos_not_n, behind, flip (last r ys) n p_not_n, ==_refl n) refl)
          (λ i e e'. rw (pos_not_n, behind, e, e') refl) v.forward;
    backward =
        Back-insert s.prev (insert_node pos n s).prev n r r ys zs around outside_last
          (rw (==_refl pos) refl) (rw (flip pos n pos_not_n, ==_refl n) behind)
          (λ i e e'. rw (e, e') refl) v.backward;
    distinct = IsDistinct-insert n (r ∷ ys) zs outside v.distinct;
    members = λ i. elim (Bool-cases (i == n)) [
      | inl e ↦ rw e (
          v.members pos
          ∙ ground (
            arith,
            first-inside ys zs r,
            contains-append pos (ys ++ zs) (r ∷ []),
            contains-append i ys (n ∷ zs),
          ))
      | inr e ↦
          rw e
            (v.members i ∙ ground (arith, contains-append i ys zs, contains-append i ys (n ∷ zs)))
    ];
  }

  -- An insertion before the first node of the second part.
  pub insert-Represents :
      s.count r ≡ length (ys ++ zs) → Represents (insert r pos n s).1 r (ys ++ n ∷ zs)
  unfolding insert insert_node
  insert-Represents counted =
      let l = insert_node-Links in
      record {
        links = record {
          forward = l.forward;
          backward = l.backward;
          distinct = l.distinct;
          members = l.members;
        };
        counted =
            rw (==_refl r) (omega (arith, counted, length-append ys zs, length-append ys (n ∷ zs)));
      }
