-- ===== src/Intrusive/Refinement.antt =====
-- src/Intrusive.h: the operations on the pointers do what they do on the sequence of the nodes.
use homa.Base.{
  ℕ, zero, suc, ◌+◌, ◌-◌, ◌≤◌, ◌≡◌, refl, sym, ap, ◌∙◌, subst, ◌⊎◌, inl, inr, Bool, true, false,
  none, List, [], ◌∷◌, ◌++◌, arith, ◌==◌, ==_iff, ==_refl, maybe, Bool-cases, length, length-append,
  append-nil,
}
use homa.Intrusive.{contains, remove, push_back, push_front}
use homa.Intrusive.Nodes.{
  Store, is_linked, insert, insert_node, push_back_node, push_front_node, remove_node, unlink,
  pop_back, pop_front, clear, clear_loop, begin, back, is_empty, size_of, set_count,
}
use homa.Intrusive.Chains.{Back, last, first, contains-append}
use homa.Intrusive.Linked.{Represents, Links, Chain-first, insert-Represents}
use homa.Intrusive.Unlinking.{unlink-Links, remove_node-linked, remove_node-unlinked}

-- The two parts of a list around one of its nodes.
split :
    (n : ℕ) (xs : List ℕ)
    → contains n xs ≡ true
    → (ys : List ℕ) × (zs : List ℕ) × (xs ≡ ys ++ n ∷ zs) × (remove n xs ≡ ys ++ zs)
split n [] inside = absurd (grind arith)
split n (x ∷ xs) inside = elim (Bool-cases (x == n)) [
  | inl e ↦ ([], xs, ap (λ k. k ∷ xs) ((==_iff x n).0 e), rw e refl)
  | inr e ↦
      let (ys, zs, same, removed) = split n xs (ground arith) in
      (x ∷ ys, zs, ap (λ ks. x ∷ ks) same, rw e (ap (λ ks. x ∷ ks) removed))
]

remove-none : (n : ℕ) (xs : List ℕ) → contains n xs ≡ false → remove n xs ≡ xs
remove-none n [] outside = refl
remove-none n (x ∷ xs) outside =
    let away : (x == n) ≡ false = ground (arith, outside) in
    rw away (ap (λ ks. x ∷ ks) (remove-none n xs (ground (arith, outside))))

-- A list is empty, or has a last node.
init : (xs : List ℕ) → (xs ≡ []) ⊎ ((ys : List ℕ) × (n : ℕ) × (xs ≡ ys ++ n ∷ []))
init [] = inl refl
init (x ∷ xs) = elim (init xs) [
  | inl e ↦ inr ([], x, ap (λ ks. x ∷ ks) e)
  | inr (ys, n, e) ↦ inr (x ∷ ys, n, ap (λ ks. x ∷ ks) e)
]

Back-last : (g : ℕ → ℕ) (a : ℕ) (xs : List ℕ) (b : ℕ) → Back g a xs b → g b ≡ last a xs
Back-last g a [] b c = c
Back-last g a (x ∷ xs) b c = Back-last g x xs b c.1

last-append : (a n : ℕ) (ys : List ℕ) → last a (ys ++ n ∷ []) ≡ n
last-append a n [] = refl
last-append a n (y ∷ ys) = last-append y n ys

prev_of_root : (s : Store) (r n : ℕ) (ys : List ℕ) → Links s r (ys ++ n ∷ []) → s.prev r ≡ n
prev_of_root s r n ys l = Back-last s.prev r (ys ++ n ∷ []) r l.backward ∙ last-append r n ys

not_root : (s : Store) (r n : ℕ) (ys zs : List ℕ) → Links s r (ys ++ n ∷ zs) → (n == r) ≡ false
not_root s r n ys zs l = ground (arith, l.distinct, contains-append r ys (n ∷ zs))

-- The loop of `clear`, with a round for each node.
clear_loop-Links :
    (r fuel : ℕ) (s : Store) (xs : List ℕ)
    → length xs ≤ fuel
    → Links s r xs
    → Links (clear_loop fuel r s) r []
unfolding clear_loop
clear_loop-Links r zero s [] enough l = l
clear_loop-Links r zero s (x ∷ xs) enough l = absurd (omega arith)
clear_loop-Links r (suc fuel) s xs enough l = elim (init xs) [
  | inl e ↦
      let nil : Links s r [] = subst (Links s r) e l in
      let done : s.prev r ≡ r = nil.backward in rw (done, ==_refl r) nil
  | inr (ys, n, e) ↦
      let whole : Links s r (ys ++ n ∷ []) = subst (Links s r) e l in
      let count : length xs ≡ length ys + 1 = ap length e ∙ length-append ys (n ∷ []) in
      let at : s.prev r ≡ n = prev_of_root s r n ys whole in
      let rest : Links (unlink n s) r ys =
        subst (Links (unlink n s) r) (append-nil ys) (unlink-Links s r n ys [] whole) in
      rw (at, not_root s r n ys [] whole)
        (clear_loop-Links r fuel (unlink n s) ys (omega (arith, count)) rest)
]

-- A change of a count changes no links.
with_count : (s : Store) (r k : ℕ) (xs : List ℕ) → Links s r xs → Links (set_count r k s) r xs
with_count s r k xs l = record {
  forward = l.forward;
  backward = l.backward;
  distinct = l.distinct;
  members = l.members;
}

clear-Represents :
    (s : Store) (r : ℕ) (xs : List ℕ) → Represents s r xs → Represents (clear r s) r []
unfolding clear
clear-Represents s r xs v = record {
  links =
      with_count (clear_loop (s.count r) r s) r 0 []
        (clear_loop-Links r (s.count r) s xs (omega (arith, v.counted)) v.links);
  counted = rw (==_refl r) refl;
}

push_front-Represents :
    (s : Store) (r n : ℕ) (xs : List ℕ)
    → Represents s r xs
    → is_linked r n s ≡ false
    → Represents (push_front_node r n s) r (push_front n xs)
unfolding push_front_node insert
push_front-Represents s r n xs v new =
    subst (λ k. Represents (insert_node k n (set_count r (s.count r + 1) s)) r (n ∷ xs))
      (sym (Chain-first s.next r xs r v.links.forward))
      (insert-Represents s r n [] xs v.links new v.counted)

pub push_back-Represents :
    (s : Store) (r n : ℕ) (xs : List ℕ)
    → Represents s r xs
    → is_linked r n s ≡ false
    → Represents (push_back_node r n s) r (push_back n xs)
unfolding push_back_node insert
push_back-Represents s r n xs v new =
    let whole = append-nil xs in
    insert-Represents s r n xs [] (subst (Links s r) (sym whole) v.links) new
      (v.counted ∙ ap length (sym whole))

-- The node at one end of a list leaves it.
popped-Represents :
    (s : Store) (r n : ℕ) (ys zs : List ℕ)
    → Represents s r (ys ++ n ∷ zs)
    → Represents (unlink n (set_count r (s.count r - 1) s)) r (ys ++ zs)
unfolding unlink
popped-Represents s r n ys zs v = record {
  links =
      unlink-Links (set_count r (s.count r - 1) s) r n ys zs
        (with_count s r (s.count r - 1) (ys ++ n ∷ zs) v.links);
  counted =
      rw (==_refl r) (omega (arith, v.counted, length-append ys zs, length-append ys (n ∷ zs)));
}

pop_front-Represents :
    (s : Store) (r n : ℕ) (zs : List ℕ)
    → Represents s r (push_front n zs)
    → Represents (pop_front r s) r zs
unfolding pop_front
pop_front-Represents s r n zs v =
    subst (λ k. Represents (unlink k (set_count r (s.count r - 1) s)) r zs) (sym v.links.forward.0)
      (popped-Represents s r n [] zs v)

pop_back-Represents :
    (s : Store) (r n : ℕ) (ys : List ℕ)
    → Represents s r (push_back n ys)
    → Represents (pop_back r s) r ys
unfolding pop_back
pop_back-Represents s r n ys v =
    subst (λ k. Represents (unlink k (set_count r (s.count r - 1) s)) r ys)
      (sym (prev_of_root s r n ys v.links))
      (subst (Represents (unlink n (set_count r (s.count r - 1) s)) r) (append-nil ys)
        (popped-Represents s r n ys [] v))

remove-Represents :
    (s : Store) (r n : ℕ) (xs : List ℕ)
    → Represents s r xs
    → (r == n) ≡ false
    → (is_linked r n s ≡ true) ⊎ ((s.next n ≡ n) × (s.prev n ≡ n) × (s.list n ≡ none))
    → Represents (remove_node r n s) r (remove n xs)
remove-Represents s r n xs v away (inl linked) =
    let (ys, zs, same, removed) = split n xs (ground (arith, v.links.members n, linked, away)) in
    subst (Represents (remove_node r n s) r) (sym removed)
      (remove_node-linked s r n ys zs (subst (Represents s r) same v))
remove-Represents s r n xs v away (inr (next, prev, alone)) =
    let unlinked : is_linked r n s ≡ false = ap (maybe false (λ l. l == r)) alone in
    let outside : contains n xs ≡ false = ground (arith, v.links.members n, unlinked, away) in
    subst (Represents (remove_node r n s) r) (sym (remove-none n xs outside))
      (remove_node-unlinked s r n xs next prev alone v)

-- A node that is in no list.
abbrev pub IsAlone : ℕ → Store → Type 0
IsAlone n s = (s.next n ≡ n) × (s.prev n ≡ n) × (s.list n ≡ none)

-- What is read of a list.
abbrev pub is_nil : List ℕ → Bool
is_nil [] = true
is_nil (x ∷ xs) = false

is_empty_lem : (s : Store) (r : ℕ) (xs : List ℕ) → Represents s r xs → is_empty r s ≡ is_nil xs
is_empty_lem s r [] v = rw v.links.forward (==_refl r)
is_empty_lem s r (x ∷ xs) v = rw v.links.forward.0 (ground (arith, v.links.distinct))

-- The pointers of a list stand for a sequence of nodes. `push_front` and `push_back` of a node that is not in
-- the list do to the pointers what they do to the sequence, and so does `remove` of a node of the list or of
-- one that is in no list; `pop_front` and `pop_back` undo the pushes, and `clear` leaves no node. `empty`,
-- `size`, `front` and `back` read what the sequence tells, the root standing for a node that is missing.
pub list_refines :
    (s : Store) (root : ℕ) (nodes : List ℕ) (new old : ℕ)
    → Represents s root nodes
    → is_linked root new s ≡ false
    → (root == old) ≡ false
    → (is_linked root old s ≡ true) ⊎ IsAlone old s
    → Represents (push_front_node root new s) root (push_front new nodes)
      × Represents (push_back_node root new s) root (push_back new nodes)
      × Represents (pop_front root (push_front_node root new s)) root nodes
      × Represents (pop_back root (push_back_node root new s)) root nodes
      × Represents (remove_node root old s) root (remove old nodes)
      × Represents (clear root s) root []
      × (is_empty root s ≡ is_nil nodes)
      × (size_of root s ≡ length nodes)
      × (begin root s ≡ first nodes root)
      × (back root s ≡ last root nodes)
list_refines s root nodes new old v outside away ready =
    let front = push_front-Represents s root new nodes v outside in
    let behind = push_back-Represents s root new nodes v outside in
    (
      front,
      behind,
      pop_front-Represents (push_front_node root new s) root new nodes front,
      pop_back-Represents (push_back_node root new s) root new nodes behind,
      remove-Represents s root old nodes v away ready,
      clear-Represents s root nodes v,
      is_empty_lem s root nodes v,
      v.counted,
      Chain-first s.next root nodes root v.links.forward,
      Back-last s.prev root nodes root v.links.backward,
    )
