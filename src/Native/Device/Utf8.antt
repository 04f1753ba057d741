-- ===== src/Native/Device/Utf8.antt =====
-- `CStr::to_str` of the standard library: whether bytes are UTF-8.
use fido_key_wrap.Common.{
  ℕ, zero, suc, Bool, true, false, ◌&&◌, ltb, leb, ◌==◌, [], ◌∷◌, Bytes, if◌then◌else◌,
}

-- What the next byte has to be: the first of a character, or one of the bytes that follow, with the
-- range of the next and the number of those behind it.
pub data Expects : Type 0 where
  start invalid : Expects
  continuation : ℕ → ℕ → ℕ → Expects

abbrev pub within : ℕ → ℕ → ℕ → Bool
within lo hi b = leb lo b && leb b hi

unfoldable pub first_byte : ℕ → Expects
first_byte b =
    if ltb b 0x80
    then start
    else if within 0xc2 0xdf b
    then continuation 0x80 0xbf 0
    else if b == 0xe0
    then continuation 0xa0 0xbf 1
    else if b == 0xed
    then continuation 0x80 0x9f 1
    else if within 0xe1 0xef b
    then continuation 0x80 0xbf 1
    else if b == 0xf0
    then continuation 0x90 0xbf 2
    else if within 0xf1 0xf3 b
    then continuation 0x80 0xbf 2
    else if b == 0xf4
    then continuation 0x80 0x8f 2
    else invalid

abbrev pub behind : ℕ → Expects
behind zero = start
behind (suc more) = continuation 0x80 0xbf more

unfoldable pub next_byte : Expects → ℕ → Expects
next_byte start b = first_byte b
next_byte invalid b = invalid
next_byte (continuation lo hi more) b = if within lo hi b then behind more else invalid

unfoldable pub decoded : Expects → Bytes → Bool
decoded start [] = true
decoded (continuation lo hi more) [] = false
decoded invalid [] = false
decoded s (b ∷ bs) = decoded (next_byte s b) bs

unfoldable pub is_utf8 : Bytes → Bool
is_utf8 bytes = decoded start bytes
