-- ===== src/Time/ActorId.antt =====
-- pkg/document/time/actor_id.go: actors, their order and their hexadecimal names.
-- An actor is its list of bytes, a pointer to one an `Option`, a text its list of bytes.
pub mod Hex
use rotty.Prelude.{
  ℕ, ◌<◌, ◌≡◌, refl, ap, compare, Ordering, lt, eq, gt, List, [], ◌∷◌, Option, none, some, arith,
  ◌==◌, if◌then◌else◌, first_of_two, flip, IsTotal, length, All, replicate,
}

abbrev pub actor_id_size : ℕ
actor_id_size = 12

abbrev pub ActorId : Type 0
ActorId = List ℕ

-- The array type [12]byte.
pub record IsActorId (id : ActorId) : Type 0 where
  pub size : length id ≡ actor_id_size
  pub bytes : All (λ b. b < 256) id

-- A pointer that is nil, or points to such an array.
abbrev pub IsActorPointer : Option ActorId → Type 0
IsActorPointer none = Unit
IsActorPointer (some id) = IsActorId id

abbrev pub initial_actor_id : ActorId
initial_actor_id = replicate 12 0

abbrev pub max_actor_id : ActorId
max_actor_id = replicate 12 255

pub data Error : Type 0 where
  invalid_hex_string : Error

pub data Result {ℓ} (A : Type ℓ) : Type ℓ where
  ok : A → Result A
  err : Error → Result A

-- The standard library's `bytes.Compare`.
unfoldable pub compare_bytes : ActorId → ActorId → Ordering
compare_bytes [] [] = eq
compare_bytes [] (b ∷ bs) = lt
compare_bytes (a ∷ as') [] = gt
compare_bytes (a ∷ as') (b ∷ bs) = first_of_two (compare a b) (compare_bytes as' bs)

-- `none` is the panic on a nil receiver or argument.
unfoldable pub compare_actors : Option ActorId → Option ActorId → Option Ordering
compare_actors none other = none
compare_actors (some id) none = none
compare_actors (some id) (some other) = some (compare_bytes id other)

pub actor_id_from_bytes : List ℕ → Result (Option ActorId)
actor_id_from_bytes [] = ok none
actor_id_from_bytes (b ∷ bs) =
    if length (b ∷ bs) == actor_id_size then ok (some (b ∷ bs)) else err invalid_hex_string

-- The receiver may be nil.
pub actor_bytes : Option ActorId → List ℕ
actor_bytes none = []
actor_bytes (some id) = id

cmp_refl : (a : ActorId) → compare_bytes a a ≡ eq
unfolding compare_bytes
cmp_refl [] = refl
cmp_refl (a ∷ as') = ground (arith, cmp_refl as')

cmp_eq : (a b : ActorId) → compare_bytes a b ≡ eq → a ≡ b
unfolding compare_bytes
cmp_eq [] [] h = refl
cmp_eq [] (b ∷ bs) h = ground arith
cmp_eq (a ∷ as') [] h = ground arith
cmp_eq (a ∷ as') (b ∷ bs) h = ground (arith, cmp_eq as' bs)

cmp_flip : (a b : ActorId) → compare_bytes b a ≡ flip (compare_bytes a b)
unfolding compare_bytes
cmp_flip [] [] = refl
cmp_flip [] (b ∷ bs) = refl
cmp_flip (a ∷ as') [] = refl
cmp_flip (a ∷ as') (b ∷ bs) = ground (arith, cmp_flip as' bs)

cmp_trans :
    (a b c : ActorId) → compare_bytes a b ≡ lt → compare_bytes b c ≡ lt → compare_bytes a c ≡ lt
unfolding compare_bytes
cmp_trans [] b [] h k = ground arith
cmp_trans [] b (c ∷ cs) h k = refl
cmp_trans (a ∷ as') [] c h k = ground arith
cmp_trans (a ∷ as') (b ∷ bs) [] h k = ground arith
cmp_trans (a ∷ as') (b ∷ bs) (c ∷ cs) h k = ground (arith, cmp_trans as' bs cs)

pub compare_bytes-IsTotal : IsTotal compare_bytes
compare_bytes-IsTotal = record {
  cmp_refl = cmp_refl;
  cmp_eq = cmp_eq;
  cmp_flip = cmp_flip;
  cmp_trans = cmp_trans;
}

-- What `Bytes` returns is read back as the actor that it was called on, nil included.
pub actor_id_from_bytes-bytes :
    (id : Option ActorId) → IsActorPointer id → actor_id_from_bytes (actor_bytes id) ≡ ok id
unfolding actor_id_from_bytes actor_bytes
actor_id_from_bytes-bytes none h = refl
actor_id_from_bytes-bytes (some []) h = absurd (omega (arith, h.size))
actor_id_from_bytes-bytes (some (b ∷ bs)) h = ground (arith, h.size)
