-- ===== src/Text/Utf16.antt =====
-- `Split` of the values of text.go and the coding in UTF-16 that it rests on.
use mathlib.Core.List.{append_assoc}
use rotty.Prelude.{
  ℕ, ◌+◌, ◌-◌, ◌*◌, ◌/◌, ◌%◌, ◌≡◌, ◌≤◌, ◌<◌, inl, inr, refl, sym, ap, ◌∙◌, Bool, true, false, not,
  ◌&&◌, List, [], ◌∷◌, ◌++◌, arith, ltb, leb, take-append, drop-append, All, Bool-cases,
}
use rotty.Text.{encode_rune, encode, decode, is_pair, is_surrogate, new_text_value, split, len}

-- A character: a code point that is not half of a pair.
abbrev pub is_scalar : ℕ → Bool
is_scalar r = leb r 1114111 && not (is_surrogate r)

abbrev pub IsScalar : ℕ → Type 0
IsScalar r = is_scalar r ≡ true

decode-single : (u : ℕ) (us : List ℕ) → is_surrogate u ≡ false → decode (u ∷ us) ≡ u ∷ decode us
unfolding decode
decode-single u [] h = rw h refl
decode-single u (v ∷ us) h = ground arith

decode_pair :
    (u v : ℕ) (us : List ℕ)
    → is_pair u v ≡ true
    → decode (u ∷ v ∷ us) ≡ ((u - 55296) * 1024 + (v - 56320) + 65536) ∷ decode us
unfolding decode
decode_pair u v us h = rw h refl

pair_halves :
    (r : ℕ)
    → 65536 ≤ r
    → r ≤ 1114111
    → (is_pair (55296 + (r - 65536) / 1024) (56320 + (r - 65536) % 1024) ≡ true)
      × ((55296 + (r - 65536) / 1024 - 55296) * 1024 + (56320 + (r - 65536) % 1024 - 56320) + 65536
          ≡ r)
pair_halves r low high =
    let a : (r - 65536) / 1024 < 1024 = omega arith in
    let b : (r - 65536) % 1024 < 1024 = omega arith in
    let c : (r - 65536) / 1024 * 1024 + (r - 65536) % 1024 ≡ r - 65536 = omega arith in
    (ground (arith, a, b), omega (arith, c))

decode-encode_rune :
    (r : ℕ) (us : List ℕ) → IsScalar r → decode (encode_rune r ++ us) ≡ r ∷ decode us
decode-encode_rune r us h = elim (Bool-cases (ltb r 65536)) [
  | inl small ↦
      (let plain : is_surrogate r ≡ false = ground arith in
        rw (plain, small) (decode-single r us plain))
  | inr large ↦
      (let low : 65536 ≤ r = ground arith in
        let high : r ≤ 1114111 = ground arith in
        let (pair, whole) = pair_halves r low high in
        let two : encode_rune r ≡ (55296 + (r - 65536) / 1024) ∷ (56320 + (r - 65536) % 1024) ∷ [] =
          ground arith in
        rw two (decode_pair _ _ us pair ∙ ap (λ z. z ∷ decode us) whole))
]

-- Decoding gives back the characters that were encoded.
pub decode-encode : (rs : List ℕ) → All IsScalar rs → decode (encode rs) ≡ rs
decode-encode [] h = unfold decode in refl
decode-encode (r ∷ rs) h = decode-encode_rune r (encode rs) h.0 ∙ ap (◌∷◌ r) (decode-encode rs h.1)

pub encode-append : (cs ds : List ℕ) → encode (cs ++ ds) ≡ encode cs ++ encode ds
encode-append [] ds = refl
encode-append (a ∷ cs) ds =
    ap (◌++◌ (encode_rune a)) (encode-append cs ds)
    ∙ sym (append_assoc (encode_rune a) (encode cs) (encode ds))

-- A split between two characters gives the two parts.
pub split-between :
    (cs ds : List ℕ)
    → All IsScalar cs
    → All IsScalar ds
    → split (len (new_text_value cs)) (new_text_value (cs ++ ds))
      ≡ (new_text_value cs, new_text_value ds)
unfolding split
split-between cs ds ha hb = rw (encode-append cs ds) (
    rw
      (
        take-append (encode cs) (encode ds),
        drop-append (encode cs) (encode ds),
        decode-encode cs ha,
        decode-encode ds hb,
      )
      refl)
