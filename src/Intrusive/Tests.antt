-- ===== src/Intrusive/Tests.antt =====
-- The list's theorems at lists of two and three nodes.
use homa.Base.{ltb, List, length, ◌≡◌, none, inl, ℕ, ◌-◌, refl, [], ◌∷◌, arith, ◌==◌, if◌then◌else◌}
use homa.Intrusive.{prioritize, deprioritize}
use homa.Intrusive.{remove, push_front, push_back}
use homa.Intrusive.Climbing.{prioritize_node-Represents}
use homa.Intrusive.Sinking.{deprioritize_node-Represents}
use homa.Intrusive.Nodes.{
  deprioritize_node, prioritize_node, Store, make_list, make_node, push_back_node, push_front_node,
  pop_front, pop_back, remove_node, clear, is_empty, size_of, begin, back, insert_node,
}
use homa.Intrusive.Linked.{Represents}
use homa.Intrusive.Chains.{first, last}
use homa.Intrusive.Refinement.{list_refines, push_back-Represents, is_nil}

-- Node 3 stands behind the larger keys 5 and 4.
abbrev key : ℕ → ℕ
key n = 10 - n

-- The key of node 3 falls from 7 to 1.
abbrev lowered : ℕ → ℕ
lowered n = if n == 3 then 1 else key n

-- A list at 0 of the nodes 2 and 1, and the node 3, which is in no list.
abbrev fresh_store : Store
fresh_store = make_list 0 (
    make_node 1 (
      make_node 2
        (make_node 3 (record { next = λ i. i; prev = λ i. i; list = λ _. none; count = λ _. 0 }))))

fresh-Represents : Represents fresh_store 0 []
unfolding make_list make_node
fresh-Represents = record {
  links = record {
    forward = refl;
    backward = refl;
    distinct = (refl, tt);
    members = λ n. ground arith;
  };
  counted = refl;
}

abbrev one : Store
one = push_back_node 0 2 fresh_store

abbrev both : Store
both = push_back_node 0 1 one

both-Represents : Represents both 0 (2 ∷ 1 ∷ [])
unfolding push_back_node insert_node make_list make_node
both-Represents =
    push_back-Represents one 0 1 (2 ∷ [])
      (push_back-Represents fresh_store 0 2 [] fresh-Represents refl) refl

abbrev pair : List ℕ
pair = 2 ∷ 1 ∷ []

list_refines_example :
    Represents (push_front_node 0 3 both) 0 (push_front 3 pair)
    × Represents (push_back_node 0 3 both) 0 (push_back 3 pair)
    × Represents (pop_front 0 (push_front_node 0 3 both)) 0 pair
    × Represents (pop_back 0 (push_back_node 0 3 both)) 0 pair
    × Represents (remove_node 0 2 both) 0 (remove 2 pair)
    × Represents (clear 0 both) 0 []
    × (is_empty 0 both ≡ is_nil pair)
    × (size_of 0 both ≡ length pair)
    × (begin 0 both ≡ first pair 0)
    × (back 0 both ≡ last 0 pair)
unfolding push_back_node insert_node make_list make_node
list_refines_example = list_refines both 0 pair 3 2 both-Represents refl refl (inl refl)

-- Node 1 has the larger key, and moves to the front of the list.
prioritize_node-Represents_example :
    Represents
      (prioritize_node (λ a b. ltb (key b) (key a)) 0 1 both)
      0
      (prioritize (λ a b. ltb (key b) (key a)) 1 pair)
prioritize_node-Represents_example =
    prioritize_node-Represents (λ a b. ltb (key b) (key a)) both 0 1 pair both-Represents refl

-- Node 2 has the smaller key, and moves behind the other.
deprioritize_node-Represents_example :
    Represents
      (deprioritize_node (λ a b. ltb (key b) (key a)) 0 2 both)
      0
      (deprioritize (λ a b. ltb (key b) (key a)) 2 pair)
deprioritize_node-Represents_example =
    deprioritize_node-Represents (λ a b. ltb (key b) (key a)) both 0 2 pair both-Represents refl
