-- ===== src/Time/Ticket/Key.antt =====
-- `Key` of ticket.go: the text "lamport:delimiter:actor" under which the documents file a ticket.
use rotty.Prelude.{
  ℕ, zero, suc, ◌+◌, ◌*◌, ◌-◌, ◌/◌, ◌%◌, ◌^◌, ◌<◌, ◌≡◌, refl, ap, sym, ◌∙◌, List, [], ◌∷◌, ◌++◌,
  Option, arith, ltb, if◌then◌else◌, All, All-append, Bool-cases, inl, inr,
}
use rotty.Time.ActorId.Hex.{actor_string, actor_id_from_hex, actor_id_from_hex-string}
use native.Mathlib.Nat.{pow-suc}
use rotty.Time.ActorId.{ActorId, IsActorPointer, ok}
use rotty.Time.Ticket.{Ticket}

-- `%d` of a number below 10 ^ fuel, most significant digit first.
decimal : ℕ → ℕ → List ℕ
decimal zero n = []
decimal (suc fuel) n =
    let rest = decimal fuel (n / 10) ++ (48 + n % 10) ∷ [] in
    if ltb n 10 then (48 + n) ∷ [] else rest

-- A uint64 has at most 20 digits.
pub key : Ticket → List ℕ
key t = decimal 20 t.lamport ++ 58 ∷ (decimal 20 t.delimiter ++ 58 ∷ actor_string t.actor_id)

abbrev value : ℕ → List ℕ → ℕ
value acc [] = acc
value acc (c ∷ cs) = value (acc * 10 + (c - 48)) cs

value-append : (acc : ℕ) (xs ys : List ℕ) → value acc (xs ++ ys) ≡ value (value acc xs) ys
value-append acc [] ys = refl
value-append acc (x ∷ xs) ys = value-append (acc * 10 + (x - 48)) xs ys

value-decimal : (fuel n : ℕ) → n < 10 ^ fuel → value 0 (decimal fuel n) ≡ n
unfolding decimal
value-decimal zero n h = ground arith
value-decimal (suc fuel) n h = elim (Bool-cases (ltb n 10)) [
  | inl small ↦ rw small (omega arith)
  | inr large ↦
      rw (large, value-append 0 (decimal fuel (n / 10)) ((48 + n % 10) ∷ []))
        (rw (value-decimal fuel (n / 10) (omega (arith, pow-suc 10 fuel))) (omega arith))
]

All-decimal : (fuel n : ℕ) → All (λ c. c < 58) (decimal fuel n)
unfolding decimal
All-decimal zero n = tt
All-decimal (suc fuel) n = ground (
  arith,
  All-append (λ c. c < 58) (decimal fuel (n / 10)) ((48 + n % 10) ∷ []) (All-decimal fuel (n / 10)),
)

-- The first colon splits the text.
split_colon :
    (xs ys us vs : List ℕ)
    → All (λ c. c < 58) xs
    → All (λ c. c < 58) us
    → xs ++ 58 ∷ ys ≡ us ++ 58 ∷ vs
    → (xs ≡ us) × (ys ≡ vs)
split_colon [] ys [] vs hx hu e = ground arith
split_colon [] ys (u ∷ us) vs hx hu e = absurd (ground arith)
split_colon (x ∷ xs) ys [] vs hx hu e = absurd (ground arith)
split_colon (x ∷ xs) ys (u ∷ us) vs hx hu e = ground (arith, split_colon xs ys us vs hx.1 hu.1)

pub record IsTicket (t : Ticket) : Type 0 where
  pub lamport : t.lamport < 2 ^ 64
  pub delimiter : t.delimiter < 2 ^ 32
  pub actor : IsActorPointer t.actor_id

decimal-injective : (m n : ℕ) → m < 2 ^ 64 → n < 2 ^ 64 → decimal 20 m ≡ decimal 20 n → m ≡ n
decimal-injective m n hm hn e =
    sym (value-decimal 20 m (omega arith)) ∙ ap (value 0) e ∙ value-decimal 20 n (omega arith)

ok-injective : (a b : Option ActorId) → ok a ≡ ok b → a ≡ b
ok-injective a b e = ground arith

actor_string-injective :
    (a b : Option ActorId)
    → IsActorPointer a
    → IsActorPointer b
    → actor_string a ≡ actor_string b
    → a ≡ b
actor_string-injective a b ha hb e =
    ok-injective a b
      (sym (actor_id_from_hex-string a ha) ∙ ap actor_id_from_hex e ∙ actor_id_from_hex-string b hb)

-- Two tickets whose numbers fit their types and whose actors are nil or have twelve bytes are
-- filed under the same key only if they are the same ticket.
pub key-injective : (t u : Ticket) → IsTicket t → IsTicket u → key t ≡ key u → t ≡ u
unfolding key
key-injective t u ht hu e =
    let (el, rest) =
      split_colon (decimal 20 t.lamport) _ (decimal 20 u.lamport) _ (All-decimal 20 t.lamport)
        (All-decimal 20 u.lamport) e in
    let (ed, ea) =
      split_colon (decimal 20 t.delimiter) _ (decimal 20 u.delimiter) _ (All-decimal 20 t.delimiter)
        (All-decimal 20 u.delimiter) rest in
    let pl = decimal-injective t.lamport u.lamport ht.lamport hu.lamport el in
    let pd =
      decimal-injective t.delimiter u.delimiter (omega (arith, ht.delimiter))
        (omega (arith, hu.delimiter)) ed in
    let pa = actor_string-injective t.actor_id u.actor_id ht.actor hu.actor ea in
    λ i. record { lamport = pl i; delimiter = pd i; actor_id = pa i }
