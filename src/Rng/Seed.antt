-- ===== src/Rng/Seed.antt =====
-- Seeds in hexadecimal, pkg/rng/rng.go: `Seed.Hex` and `ParseSeed`, with the standard library's hex
-- digits. Texts are lists of character codes.
use f.Prelude.{
  ℕ, ◌+◌, ◌-◌, ◌*◌, ◌/◌, ◌%◌, ◌<◌, ◌≡◌, refl, arith, ltb, leb, ◌==◌, if◌then◌else◌, ◌&&◌, Option,
  none, some, List, [], ◌∷◌, length, All, Result, ok, err,
}

abbrev pub seed_size : ℕ
seed_size = 32

pub data SeedError : Type 0 where
  bad_hex bad_length : SeedError

unfoldable pub hex_digit : ℕ → ℕ
hex_digit n = if ltb n 10 then b'0' + n else b'a' + (n - 10)

-- `Seed.Hex`
unfoldable pub hex : List ℕ → List ℕ
unfolding hex_digit
hex [] = []
hex (b ∷ bs) = hex_digit (b / 16) ∷ hex_digit (b % 16) ∷ hex bs

-- The value of a digit in either case.
unfoldable pub from_hex : ℕ → Option ℕ
from_hex c =
    if leb b'0' c && leb c b'9'
    then some (c - b'0')
    else if leb b'a' c && leb c b'f'
    then some (c - b'a' + 10)
    else if leb b'A' c && leb c b'F'
    then some (c - b'A' + 10)
    else none

abbrev pub cons_byte : Option ℕ → Option ℕ → Option (List ℕ) → Option (List ℕ)
cons_byte (some h) (some l) (some bs) = some ((h * 16 + l) ∷ bs)
cons_byte _ _ _ = none

-- `hex.DecodeString`
unfoldable pub decode : List ℕ → Option (List ℕ)
unfolding from_hex
decode [] = some []
decode (c ∷ []) = none
decode (c ∷ d ∷ cs) = cons_byte (from_hex c) (from_hex d) (decode cs)

abbrev pub sized : Option (List ℕ) → Result SeedError (List ℕ)
sized none = err bad_hex
sized (some bs) = if length bs == seed_size then ok bs else err bad_length

unfoldable pub parse_seed : List ℕ → Result SeedError (List ℕ)
unfolding decode
parse_seed cs = sized (decode cs)

from_hex-hex_digit : (n : ℕ) → n < 16 → from_hex (hex_digit n) ≡ some n
unfolding from_hex hex_digit
from_hex-hex_digit n h = ground arith

decode-hex : (bs : List ℕ) → All (λ b. b < 256) bs → decode (hex bs) ≡ some bs
unfolding decode hex
decode-hex [] h = refl
decode-hex (b ∷ bs) h =
    ground (arith, from_hex-hex_digit (b / 16), from_hex-hex_digit (b % 16), decode-hex bs h.1)

-- The seed of 32 bytes stored with a round as hexadecimal is the seed that is read back.
pub parse_seed-hex :
    (bs : List ℕ) → All (λ b. b < 256) bs → length bs ≡ seed_size → parse_seed (hex bs) ≡ ok bs
unfolding parse_seed
parse_seed-hex bs h e = ground (arith, decode-hex bs h)
