-- ===== src/Intrusive/Climbing.antt =====
-- src/Intrusive.h: `prioritize` on the pointers does what it does on the sequence of the nodes.
use homa.Base.{
  ℕ, zero, suc, ◌+◌, ◌≤◌, ◌≡◌, refl, sym, ap, ◌∙◌, subst, inl, inr, Bool, true, false, List, [],
  ◌∷◌, ◌++◌, arith, ◌==◌, if◌then◌else◌, ==_iff, ==_refl, Bool-cases, length, length-append,
  append_assoc,
}
use homa.Intrusive.{contains, before, after, reverse_onto, climb, prioritize}
use homa.Intrusive.Nodes.{
  Store, is_linked, insert, remove_at, remove_node, climb_node, prioritize_node,
}
use homa.Intrusive.Chains.{Back, IsDistinct, last, first, contains-append, contains-first, apart}
use homa.Intrusive.Linked.{
  Represents, Links, Chain-first, Back-at, insert-Represents, IsDistinct-remove,
}
use homa.Intrusive.Unlinking.{remove_node-linked}

reverse_onto-append : (xs ys : List ℕ) → reverse_onto xs ys ≡ reverse_onto xs [] ++ ys
reverse_onto-append [] ys = refl
reverse_onto-append (x ∷ xs) ys =
    reverse_onto-append xs (x ∷ ys)
    ∙ sym (append_assoc (reverse_onto xs []) (x ∷ []) ys)
    ∙ ap (λ ks. ks ++ ys) (sym (reverse_onto-append xs (x ∷ [])))

reverse_onto-length : (xs ys : List ℕ) → length (reverse_onto xs ys) ≡ length xs + length ys
reverse_onto-length [] ys = omega arith
reverse_onto-length (x ∷ xs) ys = omega (arith, reverse_onto-length xs (x ∷ ys))

-- The first node of a list is not among the nodes behind another.
first_apart :
    (xs : List ℕ) (p pos r : ℕ) (zs : List ℕ)
    → IsDistinct (xs ++ p ∷ zs)
    → contains pos (zs ++ r ∷ []) ≡ true
    → contains r (xs ++ p ∷ zs) ≡ false
    → (pos == first (xs ++ p ∷ zs) r) ≡ false
first_apart [] p pos r zs d inside out =
    apart pos p (zs ++ r ∷ []) inside (ground (arith, d, out, contains-append p zs (r ∷ [])))
first_apart (x ∷ xs) p pos r zs d inside out =
    apart pos x (zs ++ r ∷ []) inside
      (ground (arith, d, out, contains-append x zs (r ∷ []), contains-append x xs (p ∷ zs)))

last-append_one : (a p : ℕ) (xs : List ℕ) → last a (xs ++ p ∷ []) ≡ p
last-append_one a p [] = refl
last-append_one a p (x ∷ xs) = last-append_one x p xs

-- Where the loop stops: `up` are the nodes before the position, nearest first, and `down` those from it to
-- the node.
record Climbed (comp : ℕ → ℕ → Bool) (s : Store) (r n fuel : ℕ) (above below zs : List ℕ)
    : Type 0 where
  up : List ℕ
  down : List ℕ
  stops : climb_node comp fuel r n (first (below ++ n ∷ zs) r) s ≡ first (down ++ n ∷ zs) r
  result : climb comp n above (below ++ zs) ≡ reverse_onto up (n ∷ down ++ zs)
  same : reverse_onto above (below ++ n ∷ zs) ≡ reverse_onto up (down ++ n ∷ zs)

module _ (comp : ℕ → ℕ → Bool) (s : Store) (r n : ℕ) (zs : List ℕ) where
  climb_node_lem :
      (above below : List ℕ) (fuel : ℕ)
      → length above ≤ fuel
      → Links s r (reverse_onto above (below ++ n ∷ zs))
      → Climbed comp s r n fuel above below zs
  unfolding climb_node climb
  climb_node_lem [] below zero enough l = record {
    up = [];
    down = below;
    stops = refl;
    result = refl;
    same = refl;
  }
  climb_node_lem [] below (suc fuel) enough l =
      let at : s.next r ≡ first (below ++ n ∷ zs) r =
        Chain-first s.next r (below ++ n ∷ zs) r l.forward in
      record {
        up = [];
        down = below;
        stops = rw (at, ==_refl (first (below ++ n ∷ zs) r)) refl;
        result = refl;
        same = refl;
      }
  climb_node_lem (p ∷ above) below zero enough l = absurd (omega arith)
  climb_node_lem (p ∷ above) below (suc fuel) enough l =
      let rest : List ℕ = below ++ n ∷ zs in
      let pos : ℕ = first rest r in
      let head : List ℕ = reverse_onto above [] in
      let whole : reverse_onto above (p ∷ rest) ≡ head ++ p ∷ rest =
        reverse_onto-append above (p ∷ rest) in
      let l' : Links s r (head ++ p ∷ rest) = subst (Links s r) whole l in
      let at : s.next r ≡ first (head ++ p ∷ rest) r =
        Chain-first s.next r (head ++ p ∷ rest) r l'.forward in
      let not_first : (pos == first (head ++ p ∷ rest) r) ≡ false =
        first_apart head p pos r rest l'.distinct.1 (contains-first rest r) l'.distinct.0 in
      let back : s.prev pos ≡ p =
        Back-at s.prev r (head ++ p ∷ []) rest r
          (subst (λ k. Back s.prev r k r) (sym (append_assoc head (p ∷ []) rest)) l'.backward)
        ∙ last-append_one r p head in
      elim (Bool-cases (comp n p)) [
        | inl e ↦
            let c = climb_node_lem above (p ∷ below) fuel (omega arith) l in
            record {
              up = c.up;
              down = c.down;
              stops = rw (at, not_first, back, e) c.stops;
              result = rw e c.result;
              same = c.same;
            }
        | inr e ↦ record {
          up = p ∷ above;
          down = below;
          stops = rw (at, not_first, back, e) refl;
          result = rw e refl;
          same = refl;
        }
      ]

-- A list is what stands before one of its nodes, the node, and what stands behind it.
pub around : (n : ℕ) (xs : List ℕ) → contains n xs ≡ true → xs ≡ before n xs ++ n ∷ after n xs
around n [] inside = absurd (grind arith)
around n (x ∷ xs) inside = elim (Bool-cases (x == n)) [
  | inl e ↦ rw e (ap (λ k. k ∷ xs) ((==_iff x n).0 e))
  | inr e ↦ rw e (ap (λ ks. x ∷ ks) (around n xs (ground (arith, inside, e))))
]

reverse_onto-twice :
    (xs ys zs : List ℕ) → reverse_onto (reverse_onto xs ys) zs ≡ reverse_onto ys (xs ++ zs)
reverse_onto-twice [] ys zs = refl
reverse_onto-twice (x ∷ xs) ys zs = reverse_onto-twice xs (x ∷ ys) zs

-- The node is moved to where the loop stopped.
moved-Represents :
    (s : Store) (r n : ℕ) (up down zs : List ℕ)
    → Represents s r (reverse_onto up (down ++ n ∷ zs))
    → (let pos : ℕ = first (down ++ n ∷ zs) r in
        Represents
          (if pos == n then s else (insert r pos n (remove_at r n s).1).1)
          r
          (reverse_onto up (n ∷ down ++ zs)))
unfolding remove_at
moved-Represents s r n up [] zs v = rw (==_refl n) v
moved-Represents s r n up (b ∷ down) zs v =
    let head : List ℕ = reverse_onto up [] in
    let front : List ℕ = head ++ b ∷ down in
    let whole : reverse_onto up ((b ∷ down) ++ n ∷ zs) ≡ front ++ n ∷ zs =
      reverse_onto-append up ((b ∷ down) ++ n ∷ zs) ∙ sym (append_assoc head (b ∷ down) (n ∷ zs)) in
    let v' : Represents s r (front ++ n ∷ zs) = subst (Represents s r) whole v in
    let gone : contains n (r ∷ front ++ zs) ≡ false =
      (IsDistinct-remove n (r ∷ front) zs v'.links.distinct).0 in
    let away : (b == n) ≡ false =
      ground (arith, gone, contains-append n front zs, contains-append n head (b ∷ down)) in
    let taken : Represents (remove_node r n s) r (head ++ ((b ∷ down) ++ zs)) =
      subst (Represents (remove_node r n s) r) (append_assoc head (b ∷ down) zs)
        (remove_node-linked s r n front zs v') in
    let unlinked : is_linked r n (remove_node r n s) ≡ false =
      taken.links.members n
      ∙ subst (λ ks. contains n (r ∷ ks) ≡ false) (append_assoc head (b ∷ down) zs) gone in
    rw away (
      subst (Represents (insert r b n (remove_node r n s)).1 r)
        (sym (reverse_onto-append up (n ∷ (b ∷ down) ++ zs)))
        (insert-Represents (remove_node r n s) r n head ((b ∷ down) ++ zs) taken.links unlinked
          taken.counted))

-- `prioritize` of a node of a list, on the pointers: they stand for the sequence that `prioritize` makes of
-- the nodes, the loop taking no more rounds than the list has nodes.
pub prioritize_node-Represents :
    (comp : ℕ → ℕ → Bool) (s : Store) (root node : ℕ) (nodes : List ℕ)
    → Represents s root nodes
    → contains node nodes ≡ true
    → Represents (prioritize_node comp root node s) root (prioritize comp node nodes)
unfolding prioritize_node prioritize
prioritize_node-Represents comp s r n xs v inside =
    let ys : List ℕ = before n xs in
    let zs : List ℕ = after n xs in
    let above : List ℕ = reverse_onto ys [] in
    let whole : xs ≡ ys ++ n ∷ zs = around n xs inside in
    let turned : reverse_onto above (n ∷ zs) ≡ ys ++ n ∷ zs = reverse_onto-twice ys [] (n ∷ zs) in
    let v' : Represents s r (reverse_onto above (n ∷ zs)) =
      subst (Represents s r) (whole ∙ sym turned) v in
    let count : length above ≤ s.count r =
      omega
        (arith, v.counted, reverse_onto-length ys [], ap length whole, length-append ys (n ∷ zs)) in
    let c = climb_node_lem comp s r n zs above [] (s.count r) count v'.links in
    let moved = moved-Represents s r n c.up c.down zs (subst (Represents s r) c.same v') in
    rw (inside, c.stops, c.result) moved
