-- ===== src/RgaList.antt =====
-- pkg/document/json/rga_tree_list.go: the replicated list of an array. The linked list is the list of
-- its elements, the dummy head first; `nodeMapByCreatedAt` leads to the element of that creation
-- time. A fatal log line ends the program: `none`. The size is an `int`: a word of 64 bits in two's
-- complement, so that -1 is the greatest word. The splay tree `nodeMapByIndex` holds the
-- same sequence, and is modelled in Splay.
pub mod Positions
pub mod Nodes
pub mod Convergence
pub mod Length
pub mod Copy
pub mod Tests
use rotty.Prelude.{
  ℕ, suc, ◌+◌, ◌-◌, ◌%◌, ◌^◌, Bool, true, false, not, ◌&&◌, Option, none, some, ◌>>=◌, Ord, List,
  [], ◌∷◌, ◌++◌, if◌then◌else◌,
}
use rotty.Prelude.Assoc.{is_eq}
use rotty.Element.{Elem, is_removed, positioned_at, after, remove}

pub record RgaList (T C : Type 0) : Type 0 where
  pub nodes : List (Elem T C)
  pub last : T
  pub size : ℕ

-- One more and one less, as words.
abbrev pub increment : ℕ → ℕ
increment n = (n + 1) % 2 ^ 64

abbrev pub decrement : ℕ → ℕ
decrement n = (n + (2 ^ 64 - 1)) % 2 ^ 64

module _ {T C : Type 0} ⦃o : Ord T⦄ where
  abbrev pub is_at : T → Elem T C → Bool
  is_at t e = is_eq (o.cmp e.created_at t)

  abbrev pub find_node : T → List (Elem T C) → Option (Elem T C)
  find_node t [] = none
  find_node t (x ∷ xs) = if is_at t x then some x else find_node t xs

  -- The loop of `findNextBeforeExecutedAt`, from a node on: the node is put in front of the first one
  -- that is not positioned after `executed_at`.
  pub skip_later : T → Elem T C → List (Elem T C) → List (Elem T C)
  skip_later executed_at e [] = e ∷ []
  skip_later executed_at e (x ∷ xs) =
      if after (positioned_at x) executed_at then x ∷ skip_later executed_at e xs else e ∷ x ∷ xs

  -- `insertAfter` on the linked list.
  pub place_after : T → T → Elem T C → List (Elem T C) → Option (List (Elem T C))
  unfolding skip_later
  place_after prev executed_at e [] = none
  place_after prev executed_at e (x ∷ xs) =
      let rest = place_after prev executed_at e xs in
      if is_at prev x then some (x ∷ skip_later executed_at e xs) else do ys ← rest; some (x ∷ ys)

  -- The node that `findNextBeforeExecutedAt` returns.
  node_before : T → Elem T C → List (Elem T C) → Elem T C
  node_before executed_at x [] = x
  node_before executed_at x (y ∷ ys) =
      if after (positioned_at y) executed_at then node_before executed_at y ys else x

  find_next_before_executed_at : T → T → List (Elem T C) → Option (Elem T C)
  unfolding node_before
  find_next_before_executed_at created_at executed_at [] = none
  find_next_before_executed_at created_at executed_at (x ∷ xs) =
      let rest = find_next_before_executed_at created_at executed_at xs in
      if is_at created_at x then some (node_before executed_at x xs) else rest

  pub insert_after : RgaList T C → T → Elem T C → T → Option (RgaList T C)
  unfolding place_after find_next_before_executed_at
  insert_after a prev_created_at value executed_at = do
    prev ← find_next_before_executed_at prev_created_at executed_at a.nodes
    ns ← place_after prev_created_at executed_at value a.nodes
    some (record {
      nodes = ns;
      last = if is_eq (o.cmp prev.created_at a.last) then value.created_at else a.last;
      size = increment a.size;
    })

  -- `InsertAfter`
  pub insert_new_after : RgaList T C → T → Elem T C → Option (RgaList T C)
  unfolding insert_after
  insert_new_after a prev_created_at elem = insert_after a prev_created_at elem elem.created_at

  pub add : RgaList T C → Elem T C → Option (RgaList T C)
  unfolding insert_after
  add a elem = insert_after a a.last elem elem.created_at

  -- The list with the element of a creation time changed.
  pub update : T → (Elem T C → Elem T C) → List (Elem T C) → List (Elem T C)
  update t f [] = []
  update t f (x ∷ xs) = if is_at t x then f x ∷ xs else x ∷ update t f xs

  pub delete_by_created_at : RgaList T C → T → T → Option (RgaList T C)
  unfolding update
  delete_by_created_at a created_at deleted_at = do
    e ← find_node created_at a.nodes
    some (
        if (remove e deleted_at).1
        then record a {
          nodes = update created_at (λ x. (remove x deleted_at).0) a.nodes;
          size = decrement a.size;
        }
        else a)

  -- The creation time of the node before; the dummy head has none.
  prev_of : T → T → List (Elem T C) → Option T
  prev_of before t [] = none
  prev_of before t (x ∷ xs) = if is_at t x then some before else prev_of x.created_at t xs

  unlink : T → List (Elem T C) → List (Elem T C)
  unlink t [] = []
  unlink t (x ∷ xs) = if is_at t x then xs else x ∷ unlink t xs

  prev_in : T → List (Elem T C) → Option T
  unfolding prev_of
  prev_in t [] = none
  prev_in t (head ∷ xs) = prev_of head.created_at t xs

  -- `release`; the dummy head is never released, and a node that is not there is `none`.
  pub release : RgaList T C → T → Option (RgaList T C)
  unfolding prev_in unlink
  release a t = do
    e ← find_node t a.nodes
    before ← prev_in t a.nodes
    some (record {
      nodes = unlink t a.nodes;
      last = if is_eq (o.cmp a.last t) then before else a.last;
      size = if is_removed e then a.size else decrement a.size;
    })

  -- `purge`, by the creation time of the element.
  abbrev pub purge : RgaList T C → T → Option (RgaList T C)
  purge = release

  may_move : Elem T C → T → Bool
  may_move e executed_at = elim e.moved_at [ none ↦ true | some t ↦ after executed_at t ]

  pub move_after : RgaList T C → T → T → T → Option (RgaList T C)
  unfolding may_move release insert_after
  move_after a prev_created_at created_at executed_at = do
    prev ← find_node prev_created_at a.nodes
    e ← find_node created_at a.nodes
    let moved = do
      b ← release a created_at
      c ← insert_after b prev.created_at e executed_at
      some (record c {
        nodes = update created_at (λ x. record x { moved_at = some executed_at }) c.nodes;
      })
    if may_move e executed_at then moved else some a

  -- `Nodes`: all but the dummy head.
  pub nodes : RgaList T C → List (Elem T C)
  nodes a = elim a.nodes [ [] ↦ [] | head ∷ xs ↦ xs ]

  abbrev pub last_created_at : RgaList T C → T
  last_created_at a = a.last

  -- The last node in front of the element that is the head or is not removed, given the last such
  -- node so far; `none` when the element is not there.
  live_before : T → T → List (Elem T C) → Option T
  live_before before t [] = none
  live_before before t (x ∷ xs) =
      let further = live_before (if is_removed x then before else x.created_at) t xs in
      if is_at t x then some before else further

  -- `FindPrevCreatedAt`, of an element that is not the dummy head.
  pub find_prev_created_at : RgaList T C → T → Option T
  unfolding live_before
  find_prev_created_at a t = elim a.nodes [
    | [] ↦ none
    | head ∷ xs ↦ live_before head.created_at t xs
  ]

  add_all : RgaList T C → List (Elem T C) → Option (RgaList T C)
  add_all a [] = some a
  add_all a (e ∷ es) = do b ← add a e; add_all b es

-- Which fields `DeepCopy` of an element carries over, by the kind of element: primitive.go and
-- counter.go copy the struct, object.go and array.go set `removedAt` alone, and text.go and
-- rich_text.go set neither time.
pub data ElementKind : Type 0 where
  struct_kind : ElementKind
  container_kind : ElementKind
  text_kind : ElementKind

-- `DeepCopy` of the elements of a list: of what kind a content is, and its copy.
pub record Copies (C : Type 0) : Type 0 where
  pub kind_of : C → ElementKind
  pub copy_content : C → C

module _ {T C : Type 0} (copies : Copies C) where
  pub copy_as : ElementKind → Elem T C → Elem T C
  copy_as struct_kind e = record e { content = copies.copy_content e.content }
  copy_as container_kind e = record e { moved_at = none; content = copies.copy_content e.content }
  copy_as text_kind e = record e {
    moved_at = none;
    removed_at = none;
    content = copies.copy_content e.content;
  }

  pub copy_elem : Elem T C → Elem T C
  copy_elem e = copy_as (copies.kind_of e.content) e

  pub copy_all : List (Elem T C) → List (Elem T C)
  copy_all [] = []
  copy_all (e ∷ es) = copy_elem e ∷ copy_all es

module _ {T C : Type 0} ⦃o : Ord T⦄ (copies : Copies C) where
  -- `DeepCopy` of an array: the copies of the nodes are added to a new list, which has the dummy head
  -- of the old one.
  pub deep_copy : RgaList T C → Option (RgaList T C)
  unfolding add_all
  deep_copy a = elim a.nodes [
    | [] ↦ none
    | head ∷ xs ↦
        add_all (record { nodes = head ∷ []; last = head.created_at; size = 0 })
          (copy_all copies xs)
  ]
