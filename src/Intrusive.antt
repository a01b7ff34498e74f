-- ===== src/Intrusive.antt =====
-- src/Intrusive.h: the doubly linked list whose links live inside the listed objects.
-- A list is the sequence of the addresses of its nodes, first node first; a node is linked to a list
-- when its address stands in it. `Order` proves what reordering does.
pub mod Order
pub mod Firsts
pub mod Members
pub mod Sums
pub mod Nodes
pub mod Chains
pub mod Linked
pub mod Unlinking
pub mod Refinement
pub mod Climbing
pub mod Sinking
mod Tests
use homa.Base.{ℕ, Bool, false, ◌||◌, List, [], ◌∷◌, ◌++◌, Option, none, some, ◌==◌, if◌then◌else◌}

-- `List::contains`
abbrev pub contains : ℕ → List ℕ → Bool
contains n [] = false
contains n (x ∷ xs) = x == n || contains n xs

-- `List::remove`: a node that is not linked stays so.
abbrev pub remove : ℕ → List ℕ → List ℕ
remove n [] = []
remove n (x ∷ xs) = if x == n then xs else x ∷ remove n xs

-- `List::push_front`
abbrev pub push_front : ℕ → List ℕ → List ℕ
push_front n xs = n ∷ xs

-- `List::push_back`
abbrev pub push_back : ℕ → List ℕ → List ℕ
push_back n xs = xs ++ (n ∷ [])

-- `List::front`
abbrev pub front : List ℕ → Option ℕ
front [] = none
front (x ∷ xs) = some x

-- The nodes between `begin()` and the node.
abbrev pub before : ℕ → List ℕ → List ℕ
before n [] = []
before n (x ∷ xs) = if x == n then [] else x ∷ before n xs

-- The nodes between the node and `end()`.
abbrev pub after : ℕ → List ℕ → List ℕ
after n [] = []
after n (x ∷ xs) = if x == n then xs else after n xs

-- `above` reversed, put in front of `below`.
abbrev pub reverse_onto : List ℕ → List ℕ → List ℕ
reverse_onto [] below = below
reverse_onto (x ∷ above) below = reverse_onto above (x ∷ below)

module _ (comp : ℕ → ℕ → Bool) where
  -- The loop of `prioritize`: `above` holds the nodes before `it_pos`, nearest first, and `below`
  -- those behind it.
  unfoldable pub climb : ℕ → List ℕ → List ℕ → List ℕ
  climb n [] below = n ∷ below
  climb n (p ∷ above) below =
      if comp n p then climb n above (p ∷ below) else reverse_onto (p ∷ above) (n ∷ below)

  -- The loop of `deprioritize`, over the nodes from `it_pos` on.
  unfoldable pub sink : ℕ → List ℕ → List ℕ
  sink n [] = n ∷ []
  sink n (x ∷ xs) = if comp n x then n ∷ x ∷ xs else x ∷ sink n xs

  -- Calls with a node that is not in the list fail an assertion; here they change nothing.
  unfoldable pub prioritize : ℕ → List ℕ → List ℕ
  prioritize n xs =
      if contains n xs then climb n (reverse_onto (before n xs) []) (after n xs) else xs

  unfoldable pub deprioritize : ℕ → List ℕ → List ℕ
  deprioritize n xs = if contains n xs then before n xs ++ sink n (after n xs) else xs
