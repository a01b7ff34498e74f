-- ===== src/Intrusive/Unlinking.antt =====
-- src/Intrusive.h: taking nodes out of a list.
use homa.Base.{
  ℕ, ◌≡◌, refl, sym, ap, ◌∙◌, subst, inl, inr, true, false, none, List, [], ◌∷◌, ◌++◌, arith, ◌==◌,
  ==_iff, ==_refl, maybe, Bool-cases, length-append,
}
use homa.Intrusive.{contains}
use homa.Intrusive.Nodes.{Store, is_linked, remove_node, unlink}
use homa.Intrusive.Chains.{
  IsDistinct, last, first, contains-append, contains-last, first-inside, Chain-frame, Back-frame,
  apart, Chain-remove, Back-remove,
}
use homa.Intrusive.Linked.{Represents, Links, Chain-at, Back-at, IsDistinct-last, IsDistinct-remove}

module _ (s : Store) (r n : ℕ) (ys zs : List ℕ) (v : Links s r (ys ++ n ∷ zs)) where
  around : IsDistinct ((ys ++ n ∷ zs) ++ r ∷ [])
  around = IsDistinct-last r (ys ++ n ∷ zs) v.distinct.0 v.distinct.1

  gone : contains n (r ∷ ys ++ zs) ≡ false
  gone = (IsDistinct-remove n (r ∷ ys) zs v.distinct).0

  p_not_n : (last r ys == n) ≡ false
  p_not_n =
      apart (last r ys) n (r ∷ ys ++ zs)
        (ground (arith, contains-last r ys, contains-append (last r ys) ys zs)) gone

  q_not_n : (first zs r == n) ≡ false
  q_not_n =
      apart (first zs r) n (r ∷ ys ++ zs)
        (ground (arith, first-inside ys zs r, contains-append (first zs r) (ys ++ zs) (r ∷ [])))
        gone

  next_n : s.next n ≡ first zs r
  next_n = Chain-at s.next n r ys zs r v.forward

  prev_n : s.prev n ≡ last r ys
  prev_n = Back-at s.prev r ys (n ∷ zs) r v.backward

  flip : (i j : ℕ) → (i == j) ≡ false → (j == i) ≡ false
  flip i j e = ground arith

  pub unlink-Links : Links (unlink n s) r (ys ++ zs)
  unfolding unlink
  unlink-Links =
      let n_not_q = flip (first zs r) n q_not_n in
      record {
        forward =
            Chain-remove s.next (unlink n s).next n r r ys zs v.distinct
              (rw (next_n, prev_n, n_not_q, p_not_n) (rw (==_refl (last r ys)) refl))
              (λ i e e'. rw (next_n, prev_n, n_not_q, e, e') refl) v.forward;
        backward =
            Back-remove s.prev (unlink n s).prev n r r ys zs around
              (rw (next_n, prev_n, q_not_n, ==_refl (first zs r)) refl)
              (λ i e e'. rw (next_n, e, e') refl) v.backward;
        distinct = (IsDistinct-remove n (r ∷ ys) zs v.distinct).1;
        members = λ i. elim (Bool-cases (i == n)) [
          | inl e ↦
              rw e
                (sym (subst (λ k. contains k (r ∷ ys ++ zs) ≡ false) (sym ((==_iff i n).0 e)) gone))
          | inr e ↦
              rw e (
                v.members i
                ∙ ground (arith, contains-append i ys zs, contains-append i ys (n ∷ zs)))
        ];
      }

-- A node that is taken out of a list, and one that is in no list.
module _ (s : Store) (r n : ℕ) where
  pub remove_node-linked :
      (ys zs : List ℕ) → Represents s r (ys ++ n ∷ zs) → Represents (remove_node r n s) r (ys ++ zs)
  unfolding remove_node unlink
  remove_node-linked ys zs v =
      let l = unlink-Links s r n ys zs v.links in
      let inside : is_linked r n s ≡ true =
        v.links.members n ∙ ground (arith, contains-append n ys (n ∷ zs), ==_refl n) in
      record {
        links = record {
          forward = l.forward;
          backward = l.backward;
          distinct = l.distinct;
          members = l.members;
        };
        counted =
            rw (==_refl r, inside)
              (omega (arith, v.counted, length-append ys zs, length-append ys (n ∷ zs)));
      }

  pub remove_node-unlinked :
      (xs : List ℕ)
      → s.next n ≡ n
      → s.prev n ≡ n
      → s.list n ≡ none
      → Represents s r xs
      → Represents (remove_node r n s) r xs
  unfolding remove_node unlink
  remove_node-unlinked xs next prev alone v =
      let same_next : (i : ℕ) → contains i (r ∷ xs) ≡ true → (remove_node r n s).next i ≡ s.next i =
        (λ i m. elim (Bool-cases (i == n)) [
          | inl e ↦ rw e (sym (ap s.next ((==_iff i n).0 e) ∙ next))
          | inr e ↦ rw (next, ==_refl n, prev, e) refl
        ]) in
      let same_prev : (i : ℕ)
          → contains i (xs ++ r ∷ []) ≡ true
          → (remove_node r n s).prev i ≡ s.prev i =
        (λ i m. elim (Bool-cases (i == n)) [
          | inl e ↦ rw e (sym (ap s.prev ((==_iff i n).0 e) ∙ prev))
          | inr e ↦ rw (next, e) refl
        ]) in
      record {
        links = record {
          forward = Chain-frame s.next _ r xs r same_next v.links.forward;
          backward = Back-frame s.prev _ r xs r same_prev v.links.backward;
          distinct = v.links.distinct;
          members = λ i. elim (Bool-cases (i == n)) [
            | inl e ↦ rw e (
                sym (ap (maybe false (λ l. l == r)) (ap s.list ((==_iff i n).0 e) ∙ alone))
                ∙ v.links.members i)
            | inr e ↦ rw e (v.links.members i)
          ];
        };
        counted = rw (==_refl r, alone) (omega (arith, v.counted));
      }
