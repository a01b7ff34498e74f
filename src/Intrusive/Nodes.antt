-- ===== src/Intrusive/Nodes.antt =====
-- src/Intrusive.h: the nodes of the lists, with their pointers.
-- A store holds the pointers of all nodes by address. A list is named by the address of its root, so that
-- `list` of a node is the root of the list that it is linked to, and an iterator is the address of a node.
use homa.Base.{ℕ, zero, suc, ◌+◌, ◌-◌, Bool, false, Option, none, some, ◌==◌, if◌then◌else◌, maybe}

pub record Store : Type 0 where
  pub next : ℕ → ℕ
  pub prev : ℕ → ℕ
  pub list : ℕ → Option ℕ
  pub count : ℕ → ℕ

-- A write to the entry of an address.
abbrev pub write : {A : Type 0} → (ℕ → A) → (address : ℕ) → A → ℕ → A
write f address value a = if a == address then value else f a

abbrev pub set_next : (node target : ℕ) → Store → Store
set_next node target s = record s { next = write s.next node target }

abbrev pub set_prev : (node target : ℕ) → Store → Store
set_prev node target s = record s { prev = write s.prev node target }

abbrev pub set_list : ℕ → Option ℕ → Store → Store
set_list node list s = record s { list = write s.list node list }

abbrev pub set_count : ℕ → ℕ → Store → Store
set_count root n s = record s { count = write s.count root n }

-- The constructors of a node and of a list
unfoldable pub make_node : ℕ → Store → Store
make_node node s = set_prev node node (set_next node node (set_list node none s))

unfoldable pub make_list : ℕ → Store → Store
make_list root s = set_list root (some root) (set_count root 0 (make_node root s))

-- `Node::unlink`: each write reads the pointers as the writes before have left them.
unfoldable pub unlink : ℕ → Store → Store
unlink node s =
    let s₁ : Store = set_prev (s.next node) (s.prev node) s in
    let s₂ : Store = set_next (s₁.prev node) (s₁.next node) s₁ in
    set_list node none (set_prev node node (set_next node node s₂))

-- `List::__insert`
unfoldable pub insert_node : (pos node : ℕ) → Store → Store
insert_node pos node s =
    let s₁ : Store = set_next node pos s in
    let s₂ : Store = set_prev node (s₁.prev pos) s₁ in
    let s₃ : Store = set_list node (s₂.list pos) s₂ in
    let s₄ : Store = set_next (s₃.prev pos) node s₃ in set_prev pos node s₄

-- `List::contains`
abbrev pub is_linked : (root node : ℕ) → Store → Bool
is_linked root node s = maybe false (λ l. l == root) (s.list node)

-- `List::insert`: the iterator to the node, and the store.
unfoldable pub insert : (root pos node : ℕ) → Store → ℕ × Store
insert root pos node s = (node, insert_node pos node (set_count root (s.count root + 1) s))

-- `List::remove` of a node, and at an iterator: the iterator behind it, and the store.
unfoldable pub remove_node : (root node : ℕ) → Store → Store
remove_node root node s =
    unlink node (set_count root (s.count root - (if is_linked root node s then 1 else 0)) s)

unfoldable pub remove_at : (root pos : ℕ) → Store → ℕ × Store
remove_at root pos s = (s.next pos, remove_node root pos s)

unfoldable pub push_back_node : (root node : ℕ) → Store → Store
push_back_node root node s = insert_node root node (set_count root (s.count root + 1) s)

unfoldable pub push_front_node : (root node : ℕ) → Store → Store
push_front_node root node s = insert_node (s.next root) node (set_count root (s.count root + 1) s)

-- `List::pop_back` and `List::pop_front`, of a list that is not empty.
unfoldable pub pop_back : (root : ℕ) → Store → Store
pop_back root s = unlink (s.prev root) (set_count root (s.count root - 1) s)

unfoldable pub pop_front : (root : ℕ) → Store → Store
pop_front root s = unlink (s.next root) (set_count root (s.count root - 1) s)

-- `List::begin`, which is where `front` is read, and `List::back`, `empty`, `size`
abbrev pub begin : (root : ℕ) → Store → ℕ
begin root s = s.next root

abbrev pub back : (root : ℕ) → Store → ℕ
back root s = s.prev root

abbrev pub is_empty : (root : ℕ) → Store → Bool
is_empty root s = root == s.next root

abbrev pub size_of : (root : ℕ) → Store → ℕ
size_of root s = s.count root

-- `List::get`, whose `end()` is the root.
abbrev pub get_node : (root node : ℕ) → Store → ℕ
get_node root node s = if is_linked root node s then node else root

-- The loop of `List::clear`, which takes a round for each node.
unfoldable pub clear_loop : (fuel root : ℕ) → Store → Store
clear_loop zero root s = s
clear_loop (suc fuel) root s =
    let rest = clear_loop fuel root (unlink (s.prev root) s) in
    if s.prev root == root then s else rest

-- `List::clear`
unfoldable pub clear : (root : ℕ) → Store → Store
clear root s = set_count root 0 (clear_loop (s.count root) root s)

module _ (comp : ℕ → ℕ → Bool) where
  -- The loop of `prioritize`, from the node `pos` to the front, which takes at most a round for each node.
  unfoldable pub climb_node : (fuel root node pos : ℕ) → Store → ℕ
  climb_node zero root node pos s = pos
  climb_node (suc fuel) root node pos s =
      let rest = climb_node fuel root node (s.prev pos) s in
      if pos == begin root s then pos else if comp node (s.prev pos) then rest else pos

  -- `prioritize`, of a node that is in the list.
  unfoldable pub prioritize_node : (root node : ℕ) → Store → Store
  prioritize_node root node s =
      let pos = climb_node (s.count root) root node node s in
      let moved = (insert root pos node (remove_at root node s).1).1 in
      if pos == node then s else moved

  -- The loop of `deprioritize`, from the node `pos` to the end.
  unfoldable pub sink_node : (fuel root node pos : ℕ) → Store → ℕ
  sink_node zero root node pos s = pos
  sink_node (suc fuel) root node pos s =
      let rest = sink_node fuel root node (s.next pos) s in
      if pos == root then pos else if comp node pos then pos else rest

  -- `deprioritize`, of a node that is in the list.
  unfoldable pub deprioritize_node : (root node : ℕ) → Store → Store
  deprioritize_node root node s =
      let pos = sink_node (s.count root) root node (s.next node) s in
      let moved = (insert root pos node (remove_at root node s).1).1 in
      if pos == s.next node then s else moved
