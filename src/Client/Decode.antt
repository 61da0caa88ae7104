-- ===== src/Client/Decode.antt =====
-- `bytes.decode()`: UTF-8 into code points.
use mathlib.Core.Option
use irctest.Base.{
  ℕ, zero, suc, ◌≡◌, refl, arith, Bool, true, false, ◌+◌, ◌-◌, ◌*◌, ◌&&◌, Option, none, some, List,
  [], ◌∷◌, Text, ◌==◌, nat_eq, leb, if◌then◌else◌,
}

-- What a first byte tells: how many bytes follow, its own bits, and the range of the next byte.
pub record Lead : Type 0 where
  pub follow : ℕ
  pub bits : ℕ
  pub lo : ℕ
  pub hi : ℕ

abbrev lead_of : ℕ → ℕ → ℕ → ℕ → Option Lead
lead_of follow bits lo hi = some (record { follow = follow; bits = bits; lo = lo; hi = hi })

abbrev within : ℕ → ℕ → ℕ → Bool
within lo hi b = leb lo b && leb b hi

lead : ℕ → Option Lead
unfolding nat_eq
lead b =
    if leb b 0x7f
    then lead_of 0 b 0 0
    else if within 0xc2 0xdf b
    then lead_of 1 (b - 0xc0) 0x80 0xbf
    else if b == 0xe0
    then lead_of 2 0 0xa0 0xbf
    else if b == 0xed
    then lead_of 2 13 0x80 0x9f
    else if within 0xe1 0xef b
    then lead_of 2 (b - 0xe0) 0x80 0xbf
    else if b == 0xf0
    then lead_of 3 0 0x90 0xbf
    else if within 0xf1 0xf3 b
    then lead_of 3 (b - 0xf0) 0x80 0xbf
    else if b == 0xf4
    then lead_of 3 4 0x80 0x8f
    else none

-- The numbers are the bytes that are to follow, the bits so far, and the range of the next byte.
decode_from : ℕ → ℕ → ℕ → ℕ → List ℕ → Option Text
unfolding lead
decode_from zero bits lo hi [] = some []
decode_from (suc n) bits lo hi [] = none
decode_from zero bits lo hi (b ∷ s) = elim (lead b) [
  | none ↦ none
  | some l ↦ elim l.follow [
    | zero ↦ Option.map (λ t. l.bits ∷ t) (decode_from zero 0 0 0 s)
    | suc n ↦ decode_from (suc n) l.bits l.lo l.hi s
  ]
]
decode_from (suc n) bits lo hi (b ∷ s) = elim (within lo hi b) [
  | false ↦ none
  | true ↦ elim n [
    | zero ↦ Option.map (λ t. (bits * 64 + (b - 0x80)) ∷ t) (decode_from zero 0 0 0 s)
    | suc m ↦ decode_from (suc m) (bits * 64 + (b - 0x80)) 0x80 0xbf s
  ]
]

-- `none` is a `UnicodeDecodeError`.
unfoldable pub decode : List ℕ → Option Text
unfolding decode_from
decode = decode_from 0 0 0 0

-- ASCII is read as it stands.
pub decode_ascii :
    (c : ℕ) (s : Text) → leb c 0x7f ≡ true → decode (c ∷ s) ≡ Option.map (λ t. c ∷ t) (decode s)
unfolding decode
decode_ascii c s h = ground arith

two_and_three_bytes :
    decode (0x61 ∷ 0xc3 ∷ 0xa9 ∷ 0xe2 ∷ 0x82 ∷ 0xac ∷ []) ≡ some (97 ∷ 233 ∷ 8364 ∷ [])
unfolding decode
two_and_three_bytes = refl

surrogate : decode (0xed ∷ 0xa0 ∷ 0x80 ∷ []) ≡ none
unfolding decode
surrogate = refl
