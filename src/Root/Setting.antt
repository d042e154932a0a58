-- ===== src/Root/Setting.antt =====
-- The operation Set, from the root of a document to the member that its object shows.
use Prim.Native.String.{String}
use rotty.Prelude.{◌≡◌, ◌≢◌, refl, ◌∙◌, true, false, some, Ord, is_gt}
use rotty.Element.{Elem, is_removed}
use rotty.RhtPq.{RhtPqMap, get}
use rotty.RhtPq.Latest.{latest}
use rotty.RhtPq.Shown.{set_value-get}
use rotty.Root.{
  Content, members, Root, set, done, Dummy, find_body, put_body, note_removed, register_element,
  copy_value, set_in, execute_in, execute,
}
use rotty.Root.Invariant.{IsRoot, find-IsHolding}
use rotty.Root.Frame.{find-note_removed, find-register_element, find-put_body_self, find-copy_value}

module _ {T P : Type 0} ⦃o : Ord T⦄ ⦃dummy : Dummy T P⦄ where
  -- A Set on an object of the document is executed, and the object then shows the value for the key,
  -- if the value is not removed, is newer than the members that the key has, and is not the object
  -- itself.
  pub execute-get :
      (r : Root T P) (parent : T) (key : String) (value : Elem T (Content P))
      (m : RhtPqMap T (Content P))
      → IsRoot r
      → find_body r parent ≡ some (members m)
      → is_removed value ≡ false
      → ((t : T) → latest m key ≡ some t → is_gt (o.cmp value.created_at t) ≡ true)
      → value.created_at ≢ parent
      → (r' : Root T P) × (m' : RhtPqMap T (Content P)) × (execute r (set parent key value)
          ≡ some (done r'))
        × (find_body r' parent ≡ some (members m'))
        × (get m' key ≡ some value)
  unfolding execute execute_in set_in
  execute-get r parent key value m s found alive newer other =
      let (m', removed, sets, shown) =
        set_value-get m key value (find-IsHolding r parent (members m) s found m refl) alive
          newer in
      let t = value.created_at in
      let copy = copy_value r t value.content in
      let put = put_body copy parent (members m') in
      (
        note_removed (register_element put t value.content) parent removed,
        m',
        rw (found, sets, execute, set_in) refl,
        find-note_removed (register_element put t value.content) parent parent removed
            ∙ find-register_element put t parent value.content other
            ∙ find-put_body_self copy parent (members m) (members m')
                (find-copy_value r t parent value.content other ∙ found),
        shown,
      )
