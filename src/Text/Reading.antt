-- ===== src/Text/Reading.antt =====
-- How the strings of text.go read as UTF-16. A half of a surrogate pair that stands alone reads as
-- U+FFFD, so that a value reads the same when it is cut inside a character.
use rotty.Prelude.{
  ℕ, zero, suc, ◌+◌, ◌-◌, ◌*◌, ◌≡◌, ◌≤◌, ◌<◌, inl, inr, refl, sym, ap, ◌∙◌, true, List, [], ◌∷◌,
  ◌++◌, map, arith, length, take, drop, take-drop, length-take, All, All-append, Bool-cases,
}
use rotty.TextSplit.Shape.{Spelled}
use rotty.Text.{
  encode_rune, encode, decode, decode_unit, is_pair, is_surrogate, TextValue, split,
  text_split_value,
}
use rotty.Text.Utf16.{encode-append}

-- The code units of a string, as they can be told after a cut.
abbrev pub reading : List ℕ → List ℕ
reading rs = map decode_unit (encode rs)

length-map : (f : ℕ → ℕ) (xs : List ℕ) → length (map f xs) ≡ length xs
length-map f [] = refl
length-map f (x ∷ xs) = ground (arith, length-map f xs)

map-append : (f : ℕ → ℕ) (xs ys : List ℕ) → map f (xs ++ ys) ≡ map f xs ++ map f ys
map-append f [] ys = refl
map-append f (x ∷ xs) ys = ap (◌∷◌ (f x)) (map-append f xs ys)

pub reading-append : (rs ss : List ℕ) → reading (rs ++ ss) ≡ reading rs ++ reading ss
reading-append rs ss =
    ap (map decode_unit) (encode-append rs ss) ∙ map-append decode_unit (encode rs) (encode ss)

abbrev IsUnit : ℕ → Type 0
IsUnit u = u < 65536

encode_rune-IsUnit : (r : ℕ) → All IsUnit (encode_rune r)
encode_rune-IsUnit r = ground arith

encode-IsUnit : (rs : List ℕ) → All IsUnit (encode rs)
encode-IsUnit [] = tt
encode-IsUnit (r ∷ rs) =
    All-append IsUnit (encode_rune r) (encode rs) (encode_rune-IsUnit r) (encode-IsUnit rs)

take-All : (P : ℕ → Type 0) (n : ℕ) (xs : List ℕ) → All P xs → All P (take n xs)
take-All P zero xs h = tt
take-All P (suc n) [] h = tt
take-All P (suc n) (x ∷ xs) h = (h.0, take-All P n xs h.1)

drop-All : (P : ℕ → Type 0) (n : ℕ) (xs : List ℕ) → All P xs → All P (drop n xs)
drop-All P zero xs h = h
drop-All P (suc n) [] h = tt
drop-All P (suc n) (x ∷ xs) h = drop-All P n xs h.1

reading_one :
    (u : ℕ) → IsUnit u → map decode_unit (encode_rune (decode_unit u)) ≡ decode_unit u ∷ []
reading_one u h = elim (Bool-cases (is_surrogate u)) [
  | inl half ↦ rw half refl
  | inr whole ↦ ground (arith, whole)
]

-- A pair of surrogates is encoded as it was.
encode_pair :
    (u v : ℕ)
    → is_pair u v ≡ true
    → encode_rune ((u - 55296) * 1024 + (v - 56320) + 65536) ≡ u ∷ v ∷ []
encode_pair u v h = ground arith

reading-decode : (us : List ℕ) → All IsUnit us → reading (decode us) ≡ map decode_unit us
unfolding decode
reading-decode [] h = refl
reading-decode (u ∷ []) h =
    map-append decode_unit (encode_rune (decode_unit u)) []
    ∙ ap (λ xs. xs ++ []) (reading_one u h.0)
reading-decode (u ∷ v ∷ us) h = elim (Bool-cases (is_pair u v)) [
  | inl pair ↦
      rw (pair, decode)
        (rw (encode_pair u v pair)
          (ap (λ xs. decode_unit u ∷ (decode_unit v ∷ xs)) (reading-decode us h.1.1)))
  | inr alone ↦
      rw (alone, decode)
        (map-append decode_unit (encode_rune (decode_unit u)) (encode (decode (v ∷ us)))
          ∙ ap (λ xs. xs ++ reading (decode (v ∷ us))) (reading_one u h.0)
          ∙ ap (◌∷◌ (decode_unit u)) (reading-decode (v ∷ us) h.1))
]

-- The parts of a cut read as the whole, and the first has the length of the cut.
pub reading-cut :
    (n : ℕ) (rs : List ℕ)
    → reading (decode (take n (encode rs))) ++ reading (decode (drop n (encode rs))) ≡ reading rs
reading-cut n rs =
    ap (λ xs. xs ++ reading (decode (drop n (encode rs))))
      (reading-decode (take n (encode rs)) (take-All IsUnit n (encode rs) (encode-IsUnit rs)))
    ∙ ap (λ xs. map decode_unit (take n (encode rs)) ++ xs)
        (reading-decode (drop n (encode rs)) (drop-All IsUnit n (encode rs) (encode-IsUnit rs)))
    ∙ sym (map-append decode_unit (take n (encode rs)) (drop n (encode rs)))
    ∙ ap (map decode_unit) (take-drop n (encode rs))

pub length-cut :
    (n : ℕ) (rs : List ℕ)
    → n ≤ length (encode rs)
    → length (encode (decode (take n (encode rs)))) ≡ n
length-cut n rs h =
    let part = take n (encode rs) in
    sym (length-map decode_unit (encode (decode part)))
    ∙ ap length (reading-decode part (take-All IsUnit n (encode rs) (encode-IsUnit rs)))
    ∙ length-map decode_unit part
    ∙ length-take n (encode rs) h

pub length-reading : (rs : List ℕ) → length (reading rs) ≡ length (encode rs)
length-reading rs = length-map decode_unit (encode rs)

unfoldable pub text_spelled : Spelled TextValue ℕ
unfolding split
text_spelled = record {
  chars = λ v. reading v.value;
  length-chars = λ v. length-reading v.value;
  len-split = λ n v h. length-cut n v.value h;
  chars-split = λ n v h. reading-cut n v.value;
}
