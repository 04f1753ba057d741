-- ===== src/Ident/Recipient.antt =====
-- crates/fido-key-wrap/src/id.rs: `RecipientId`, its display as lowercase hex and its parser.
-- An identity is its 32 bytes; a string is the list of its UTF-8 bytes.
use fido_key_wrap.Common.{
  ℕ, zero, suc, ◌+◌, ◌-◌, ◌*◌, ◌/◌, ◌%◌, ◌^◌, ◌<◌, ◌≡◌, refl, ap, Bool, true, not, ◌&&◌, ◌||◌, [],
  ◌∷◌, leb, ltb, ◌==◌, if◌then◌else◌, arith, Bytes, IsArray, IsByte, length, all, All,
}
use mathlib.Core.Path.{subst}
use fido_key_wrap.Error.{Result, ok, reject_if, ◌>>◌, invalid_recipient_id}

-- One digit of `{:02x}`.
hex_digit : ℕ → ℕ
hex_digit n = if ltb n 10 then 0x30 + n else 0x61 + (n - 10)

-- `Display::fmt`
unfoldable pub display : Bytes → Bytes
unfolding hex_digit
display [] = []
display (b ∷ bs) = hex_digit (b / 16) ∷ hex_digit (b % 16) ∷ display bs

-- `u8` arithmetic: the subtractions stay above 0, and the sum below 256.
unfoldable pub decode_hex : ℕ → ℕ
decode_hex v =
    if leb 0x30 v && leb v 0x39
    then v - 0x30
    else if leb 0x61 v && leb v 0x66
    then v - 0x61 + 10
    else 0

abbrev is_hex : ℕ → Bool
is_hex b = (leb 0x30 b && leb b 0x39) || (leb 0x61 b && leb b 0x66)

-- The loop over `chunks_exact(2)`, which leaves an odd last byte out. The two halves of `|` share
-- no bit, so it is a sum.
unfoldable pub pairs : Bytes → Bytes
unfolding decode_hex
pairs [] = []
pairs (h ∷ []) = []
pairs (h ∷ l ∷ rest) = (decode_hex h * 2 ^ 4 % 256 + decode_hex l) ∷ pairs rest

-- `FromStr::from_str`
unfoldable pub from_str : Bytes → Result Bytes
from_str value = do
  reject_if (not (length value == 64) || not (all is_hex value)) invalid_recipient_id
  ok (pairs value)

hex_digit-is_hex : (n : ℕ) → n < 16 → is_hex (hex_digit n) ≡ true
unfolding hex_digit
hex_digit-is_hex n h = ground arith

decode_hex-hex_digit : (n : ℕ) → n < 16 → decode_hex (hex_digit n) ≡ n
unfolding decode_hex hex_digit
decode_hex-hex_digit n h = ground arith

hex_digit-decode_hex :
    (v : ℕ) → is_hex v ≡ true → (hex_digit (decode_hex v) ≡ v) × (decode_hex v < 16)
unfolding decode_hex hex_digit
hex_digit-decode_hex v h = (ground arith, ground arith)

length-display : (bs : Bytes) → length (display bs) ≡ 2 * length bs
unfolding display
length-display [] = omega arith
length-display (b ∷ bs) = omega (arith, length-display bs)

all-display : (bs : Bytes) → All IsByte bs → all is_hex (display bs) ≡ true
unfolding display
all-display [] h = refl
all-display (b ∷ bs) (h, hs) = ground (
  arith,
  hex_digit-is_hex (b / 16) (omega arith),
  hex_digit-is_hex (b % 16) (omega arith),
  all-display bs hs,
)

pairs-display : (bs : Bytes) → All IsByte bs → pairs (display bs) ≡ bs
unfolding pairs display
pairs-display [] h = refl
pairs-display (b ∷ bs) (h, hs) = ground (
  arith,
  decode_hex-hex_digit (b / 16) (omega arith),
  decode_hex-hex_digit (b % 16) (omega arith),
  pairs-display bs hs,
)

byte_parts :
    (a b : ℕ)
    → a < 16
    → b < 16
    → ((a * 2 ^ 4 % 256 + b) / 16 ≡ a)
      × ((a * 2 ^ 4 % 256 + b) % 16 ≡ b)
      × (a * 2 ^ 4 % 256 + b < 256)
byte_parts a b h k = omega arith

display-pairs :
    (n : ℕ) (v : Bytes)
    → length v ≡ 2 * n
    → all is_hex v ≡ true
    → (display (pairs v) ≡ v) × IsArray n (pairs v)
unfolding pairs display
display-pairs n [] h k = (refl, (omega arith, tt))
display-pairs n (x ∷ []) h k = absurd (omega arith)
display-pairs zero (x ∷ y ∷ rest) h k = absurd (omega arith)
display-pairs (suc n) (x ∷ y ∷ rest) h k =
    let (ex, bx) = hex_digit-decode_hex x (ground arith) in
    let (ey, by') = hex_digit-decode_hex y (ground arith) in
    let (hi, lo, small) = byte_parts (decode_hex x) (decode_hex y) bx by' in
    let (e, m) = display-pairs n rest (omega arith) (ground arith) in
    (cc (ap hex_digit hi, ap hex_digit lo), (ap suc m.0, (small, m.1)))

-- Parsing the display of an identity gives that identity; and a text that parses gives a 32-byte
-- identity which displays as exactly that text, so no other spelling is accepted.
pub from_str-display :
    ((id : Bytes) → IsArray 32 id → from_str (display id) ≡ ok id)
    × ((v id : Bytes) → from_str v ≡ ok id → IsArray 32 id × (display id ≡ v))
unfolding from_str
from_str-display = (parse_printed, print_parsed)
  where
    parse_printed : (id : Bytes) → IsArray 32 id → from_str (display id) ≡ ok id
    parse_printed id h = ground (arith, length-display id, all-display id h.1, pairs-display id h.1)

    print_parsed : (v id : Bytes) → from_str v ≡ ok id → IsArray 32 id × (display id ≡ v)
    print_parsed v id h =
        let (e, m) = display-pairs 32 v (ground arith) (ground arith) in
        let same : pairs v ≡ id = ground arith in (subst (IsArray 32) same m, cc)
