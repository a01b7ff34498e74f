-- ===== src/Intrusive/Sinking.antt =====
-- src/Intrusive.h: `deprioritize` on the pointers does what it does on the sequence of the nodes.
use homa.Base.{
  ℕ, zero, suc, ◌≤◌, ◌≡◌, refl, sym, ap, ◌∙◌, subst, inl, inr, Bool, true, false, List, [], ◌∷◌,
  ◌++◌, arith, ◌==◌, if◌then◌else◌, ==_refl, Bool-cases, length, length-append, append_assoc,
}
use homa.Intrusive.{contains, before, after, sink, deprioritize}
use homa.Intrusive.Nodes.{
  Store, is_linked, insert, remove_at, remove_node, sink_node, deprioritize_node,
}
use homa.Intrusive.Chains.{IsDistinct, first, contains-append, contains-first, apart}
use homa.Intrusive.Linked.{Represents, Links, Chain-at, insert-Represents, IsDistinct-remove}
use homa.Intrusive.Unlinking.{remove_node-linked}
use homa.Intrusive.Climbing.{around}

-- Where the loop stops: behind the nodes that it passed, and before the others.
record Sunk (comp : ℕ → ℕ → Bool) (s : Store) (r n fuel : ℕ) (zs : List ℕ) : Type 0 where
  passed : List ℕ
  others : List ℕ
  parts : zs ≡ passed ++ others
  stops : sink_node comp fuel r n (first zs r) s ≡ first others r
  result : sink comp n zs ≡ passed ++ n ∷ others

module _ (comp : ℕ → ℕ → Bool) (s : Store) (r n : ℕ) where
  sink_node_lem :
      (front zs : List ℕ) (fuel : ℕ)
      → length zs ≤ fuel
      → Links s r (front ++ zs)
      → Sunk comp s r n fuel zs
  unfolding sink_node sink
  sink_node_lem front [] zero enough l = record {
    passed = [];
    others = [];
    parts = refl;
    stops = refl;
    result = refl;
  }
  sink_node_lem front [] (suc fuel) enough l = record {
    passed = [];
    others = [];
    parts = refl;
    stops = rw (==_refl r) refl;
    result = refl;
  }
  sink_node_lem front (z ∷ zs) zero enough l = absurd (omega arith)
  sink_node_lem front (z ∷ zs) (suc fuel) enough l =
      let at : s.next z ≡ first zs r = Chain-at s.next z r front zs r l.forward in
      let away : (z == r) ≡ false = ground (arith, l.distinct, contains-append r front (z ∷ zs)) in
      elim (Bool-cases (comp n z)) [
        | inl e ↦ record {
          passed = [];
          others = z ∷ zs;
          parts = refl;
          stops = rw (away, e) refl;
          result = rw e refl;
        }
        | inr e ↦
            let c =
              sink_node_lem (front ++ z ∷ []) zs fuel (omega arith)
                (subst (Links s r) (sym (append_assoc front (z ∷ []) zs)) l) in
            record {
              passed = z ∷ c.passed;
              others = c.others;
              parts = ap (λ ks. z ∷ ks) c.parts;
              stops = rw (away, e, at) c.stops;
              result = rw e (ap (λ ks. z ∷ ks) c.result);
            }
      ]

-- The node is moved to where the loop stopped.
moved-Represents :
    (s : Store) (r n : ℕ) (ys passed others : List ℕ)
    → Represents s r (ys ++ n ∷ (passed ++ others))
    → Represents
        (if first others r == s.next n
          then s
          else (insert r (first others r) n (remove_at r n s).1).1)
        r
        (ys ++ (passed ++ n ∷ others))
unfolding remove_at
moved-Represents s r n ys [] others v =
    let at : s.next n ≡ first others r = Chain-at s.next n r ys others r v.links.forward in
    rw (at, ==_refl (first others r)) v
moved-Represents s r n ys (z ∷ passed) others v =
    let at : s.next n ≡ z = Chain-at s.next n r ys (z ∷ passed ++ others) r v.links.forward in
    let q : ℕ = first others r in
    let distinct : IsDistinct ((r ∷ ys ++ n ∷ []) ++ z ∷ (passed ++ others)) =
      subst (λ ks. IsDistinct (r ∷ ks)) (sym (append_assoc ys (n ∷ []) (z ∷ (passed ++ others))))
        v.links.distinct in
    let alone = (IsDistinct-remove z (r ∷ ys ++ n ∷ []) (passed ++ others) distinct).0 in
    let away : (q == z) ≡ false = apart q z (others ++ r ∷ []) (contains-first others r) (
      ground (
        arith,
        alone,
        contains-append z (r ∷ ys ++ n ∷ []) (passed ++ others),
        contains-append z passed others,
        contains-append z others (r ∷ []),
      )) in
    let whole : ys ++ ((z ∷ passed) ++ others) ≡ (ys ++ z ∷ passed) ++ others =
      sym (append_assoc ys (z ∷ passed) others) in
    let taken : Represents (remove_node r n s) r ((ys ++ z ∷ passed) ++ others) =
      subst (Represents (remove_node r n s) r) whole
        (remove_node-linked s r n ys ((z ∷ passed) ++ others) v) in
    let gone : contains n (r ∷ ys ++ ((z ∷ passed) ++ others)) ≡ false =
      (IsDistinct-remove n (r ∷ ys) ((z ∷ passed) ++ others) v.links.distinct).0 in
    let unlinked : is_linked r n (remove_node r n s) ≡ false =
      taken.links.members n ∙ subst (λ ks. contains n (r ∷ ks) ≡ false) whole gone in
    rw (at, away)
      (subst (Represents (insert r q n (remove_node r n s)).1 r)
        (append_assoc ys (z ∷ passed) (n ∷ others))
        (insert-Represents (remove_node r n s) r n (ys ++ z ∷ passed) others taken.links unlinked
          taken.counted))

-- `deprioritize` of a node of a list, on the pointers: they stand for the sequence that `deprioritize` makes
-- of the nodes, the loop taking no more rounds than the list has nodes.
pub deprioritize_node-Represents :
    (comp : ℕ → ℕ → Bool) (s : Store) (root node : ℕ) (nodes : List ℕ)
    → Represents s root nodes
    → contains node nodes ≡ true
    → Represents (deprioritize_node comp root node s) root (deprioritize comp node nodes)
unfolding deprioritize_node deprioritize
deprioritize_node-Represents comp s r n xs v inside =
    let ys : List ℕ = before n xs in
    let zs : List ℕ = after n xs in
    let whole : xs ≡ ys ++ n ∷ zs = around n xs inside in
    let v' : Represents s r (ys ++ n ∷ zs) = subst (Represents s r) whole v in
    let count : length zs ≤ s.count r =
      omega (arith, v.counted, ap length whole, length-append ys (n ∷ zs)) in
    let c =
      sink_node_lem comp s r n (ys ++ n ∷ []) zs (s.count r) count
        (subst (Links s r) (sym (append_assoc ys (n ∷ []) zs)) v'.links) in
    let at : s.next n ≡ first zs r = Chain-at s.next n r ys zs r v'.links.forward in
    let moved =
      moved-Represents s r n ys c.passed c.others
        (subst (λ ks. Represents s r (ys ++ n ∷ ks)) c.parts v') in
    let stops : sink_node comp (s.count r) r n (s.next n) s ≡ first c.others r =
      ap (λ k. sink_node comp (s.count r) r n k s) at ∙ c.stops in
    rw (inside, c.result)
      (subst
        (λ pos.
          Represents (if pos == s.next n then s else (insert r pos n (remove_at r n s).1).1) r
            (ys ++ (c.passed ++ n ∷ c.others)))
        (sym stops) moved)
