-- ===== src/Root.antt =====
-- pkg/document/json/root.go with object.go and array.go, and the operations Set, Add, Move and Remove
-- of pkg/document/operation. An element stands in its parent with its times; what an object or an
-- array holds is its `Body`, on a heap by the creation time of the container. The other kinds of
-- elements are any type.
pub mod Invariant
pub mod Setting
pub mod Frame
pub mod Tests
use Prim.Native.String.{String}
use rotty.Prelude.{Option, none, some, ◌>>=◌, Ord, List, [], ◌∷◌}
use rotty.Prelude.Assoc.{ord_keyed, lookup, insert, delete}
use rotty.Element.{Elem}
use rotty.RhtPq.{RhtPqMap, new_map}
use rotty.RhtPq as RhtPq
use rotty.RgaList.{RgaList}
use rotty.RgaList as Rga

-- What an element is: a container, or something that contains no element.
pub data Content (P : Type 0) : Type 0 where
  leaf : P → Content P
  object : Content P
  array : Content P

pub data Body (T P : Type 0) : Type 0 where
  members : RhtPqMap T (Content P) → Body T P
  elements : RgaList T (Content P) → Body T P

pub record Root (T P : Type 0) : Type 0 where
  pub heap : List (T × Body T P)
  pub element_by_created_at : List (T × Content P)
  -- The parent of an element that was removed, by the creation time of the element.
  pub removed_pair_by_created_at : List (T × T)

pub data Operation (T P : Type 0) : Type 0 where
  set : (parent_created_at : T) → (key : String) → (value : Elem T (Content P)) → Operation T P
  add : (parent_created_at prev_created_at : T) → (value : Elem T (Content P)) → Operation T P
  move : (parent_created_at prev_created_at created_at executed_at : T) → Operation T P
  remove : (parent_created_at created_at executed_at : T) → Operation T P

pub data Executed (T P : Type 0) : Type 0 where
  done : Root T P → Executed T P
  not_applicable_data_type : Executed T P

-- The dummy head of a list: the ticket `InitialTicket`, and the primitive 0.
pub record Dummy (T P : Type 0) : Type 0 where
  pub initial_ticket : T
  pub nought : P

abbrev pub new_list : {T P : Type 0} ⦃dummy : Dummy T P⦄ → RgaList T (Content P)
new_list ⦃dummy⦄ = record {
  nodes =
      record {
        created_at = dummy.initial_ticket;
        moved_at = none;
        removed_at = some dummy.initial_ticket;
        content = leaf dummy.nought;
      }
      ∷ [];
  last = dummy.initial_ticket;
  size = 0;
}

abbrev pub parent_of : {T P : Type 0} → Operation T P → T
parent_of (set parent key value) = parent
parent_of (add parent prev value) = parent
parent_of (move parent prev t executed_at) = parent
parent_of (remove parent t executed_at) = parent

module _ {T P : Type 0} ⦃o : Ord T⦄ where
  -- `FindByCreatedAt`, followed to what the container that is found holds; the times of an element
  -- stand in its parent.
  pub find_body : Root T P → T → Option (Body T P)
  find_body r t = do
    c ← lookup ⦃e = ord_keyed⦄ t r.element_by_created_at
    lookup ⦃e = ord_keyed⦄ t r.heap

  pub put_body : Root T P → T → Body T P → Root T P
  put_body r t b = record r { heap = insert ⦃e = ord_keyed⦄ t b r.heap }

  pub register_removed_element_pair : Root T P → T → T → Root T P
  register_removed_element_pair r parent t = record r {
    removed_pair_by_created_at = insert ⦃e = ord_keyed⦄ t parent r.removed_pair_by_created_at;
  }

  -- The pair of an element that was removed, if there is one.
  pub note_removed : Root T P → T → Option (Elem T (Content P)) → Root T P
  note_removed r parent none = r
  note_removed r parent (some e) = register_removed_element_pair r parent e.created_at

  pub register_element : Root T P → T → Content P → Root T P
  register_element r t c = record r {
    element_by_created_at = insert ⦃e = ord_keyed⦄ t c r.element_by_created_at;
  }

  pub deregister_element : Root T P → T → Root T P
  deregister_element r t = record r {
    element_by_created_at = delete ⦃e = ord_keyed⦄ t r.element_by_created_at;
    removed_pair_by_created_at = delete ⦃e = ord_keyed⦄ t r.removed_pair_by_created_at;
  }

  pub move_in : Root T P → T → T → T → T → Body T P → Option (Executed T P)
  move_in r parent prev t executed_at (members m) = some not_applicable_data_type
  move_in r parent prev t executed_at (elements a) = do
    a' ← Rga.move_after a prev t executed_at
    some (done (put_body r parent (elements a')))

  -- A list gives the element back whether the removal took or not.
  pub remove_in : Root T P → T → T → T → Body T P → Option (Executed T P)
  remove_in r parent t executed_at (members m) =
      let (m', removed) = RhtPq.delete_by_created_at m t executed_at in
      some (done (note_removed (put_body r parent (members m')) parent removed))
  remove_in r parent t executed_at (elements a) = do
    a' ← Rga.delete_by_created_at a t executed_at
    some (done (register_removed_element_pair (put_body r parent (elements a')) parent t))

module _ {T P : Type 0} ⦃o : Ord T⦄ ⦃dummy : Dummy T P⦄ where
  -- The copy of a value that a change brings: a leaf or, as the proxies and the converter make them,
  -- a container that is empty.
  pub copy_value : Root T P → T → Content P → Root T P
  copy_value r t (leaf p) = r
  copy_value r t object = put_body r t (members new_map)
  copy_value r t array = put_body r t (elements new_list)

  pub set_in : Root T P → T → String → Elem T (Content P) → Body T P → Option (Executed T P)
  set_in r parent key value (elements a) = some not_applicable_data_type
  set_in r parent key value (members m) = do
    (m', removed) ← RhtPq.set_value m key value
    let r1 = put_body (copy_value r value.created_at value.content) parent (members m')
    some (done (note_removed (register_element r1 value.created_at value.content) parent removed))

  pub add_in : Root T P → T → T → Elem T (Content P) → Body T P → Option (Executed T P)
  add_in r parent prev value (members m) = some not_applicable_data_type
  add_in r parent prev value (elements a) = do
    a' ← Rga.insert_new_after a prev value
    let r1 = put_body (copy_value r value.created_at value.content) parent (elements a')
    some (done (register_element r1 value.created_at value.content))

  pub execute_in : Root T P → Operation T P → Body T P → Option (Executed T P)
  execute_in r (set parent key value) b = set_in r parent key value b
  execute_in r (add parent prev value) b = add_in r parent prev value b
  execute_in r (move parent prev t executed_at) b = move_in r parent prev t executed_at b
  execute_in r (remove parent t executed_at) b = remove_in r parent t executed_at b

  -- `Execute` of the operations. A parent that is not found, like one of another kind, is an error;
  -- a fatal log line is `none`.
  pub execute : Root T P → Operation T P → Option (Executed T P)
  execute r op = elim (find_body r (parent_of op)) [
    | none ↦ some not_applicable_data_type
    | some b ↦ execute_in r op b
  ]
