-- ===== src/Base/Utf8.antt =====
-- UTF-8 as Rust's `std::str::from_utf8` accepts it (RFC 3629), and the first character of a text.
use Prim.Native.Nat.{ℕ, zero, suc, ◌+◌, ◌*◌, ◌-◌}
use mathlib.Core.Bool.{Bool, false, ◌&&◌, ◌||◌}
use mathlib.Core.Option.{Option, none, some}
use mathlib.Core.List.{[], ◌∷◌}
use cirque.Base.Tests.{ltb, leb, ◌==◌, if◌then◌else◌}
use cirque.Base.Lists.{drop, take}
use cirque.Base.Ascii.{Bytes, is_alphabetic, is_digit}

-- The continuation bytes that are due, and the range of the next one.
pub record Due : Type 0 where
  pub count : ℕ
  pub low : ℕ
  pub high : ℕ

abbrev due : ℕ → ℕ → ℕ → Option Due
due n low high = some (record { count = n; low = low; high = high })

-- After a byte that begins a character.
pub lead : ℕ → Option Due
lead b =
    if ltb b 0x80
    then due 0 0x80 0xbf
    else if ltb b 0xc2
    then none
    else if ltb b 0xe0
    then due 1 0x80 0xbf
    else if b == 0xe0
    then due 2 0xa0 0xbf
    else if b == 0xed
    then due 2 0x80 0x9f
    else if ltb b 0xf0
    then due 2 0x80 0xbf
    else if b == 0xf0
    then due 3 0x90 0xbf
    else if ltb b 0xf4
    then due 3 0x80 0xbf
    else if b == 0xf4
    then due 3 0x80 0x8f
    else none

pub advance : ℕ → ℕ → ℕ → ℕ → Option Due
unfolding lead
advance zero low high b = lead b
advance (suc n) low high b = if leb low b && leb b high then due n 0x80 0xbf else none

pub utf8_run : Due → Bytes → Bool
utf8_run d [] = d.count == 0
utf8_run d (b ∷ bs) = elim (advance d.count d.low d.high b) [
  | none ↦ false
  | some d' ↦ utf8_run d' bs
]

abbrev pub boundary : Due
boundary = record { count = 0; low = 0x80; high = 0xbf }

unfoldable pub is_utf8 : Bytes → Bool
unfolding utf8_run advance lead
is_utf8 s = utf8_run boundary s

unfoldable pub from_utf8 : Bytes → Option Bytes
unfolding is_utf8
from_utf8 s = if is_utf8 s then some s else none

-- `str::chars().nth(0)` of a valid text
unfoldable pub first_char : Bytes → Option ℕ
first_char [] = none
first_char (a ∷ []) = some a
first_char (a ∷ b ∷ []) = some (if ltb a 0x80 then a else (a - 0xc0) * 64 + (b - 0x80))
first_char (a ∷ b ∷ c ∷ []) = some (
    if ltb a 0x80
    then a
    else if ltb a 0xe0
    then (a - 0xc0) * 64 + (b - 0x80)
    else (a - 0xe0) * 4096 + (b - 0x80) * 64 + (c - 0x80))
first_char (a ∷ b ∷ c ∷ d ∷ s) = some (
    if ltb a 0x80
    then a
    else if ltb a 0xe0
    then (a - 0xc0) * 64 + (b - 0x80)
    else if ltb a 0xf0
    then (a - 0xe0) * 4096 + (b - 0x80) * 64 + (c - 0x80)
    else (a - 0xf0) * 262144 + (b - 0x80) * 4096 + (c - 0x80) * 64 + (d - 0x80))

-- The continuation bytes behind the first byte of a character.
abbrev continuation : ℕ → ℕ
continuation a = if ltb a 0x80 then 0 else if ltb a 0xe0 then 1 else if ltb a 0xf0 then 2 else 3

-- `str::chars().skip(1)` of a valid text
unfoldable pub skip_first_char : Bytes → Bytes
skip_first_char [] = []
skip_first_char (a ∷ s) = drop (continuation a) s

-- The bytes of `str::chars().nth(0)` of a valid text
unfoldable pub first_char_bytes : Bytes → Bytes
first_char_bytes [] = []
first_char_bytes (a ∷ s) = a ∷ take (continuation a) s

-- `char::is_alphanumeric`, over the Unicode table for the characters beyond ASCII
unfoldable pub is_alphanumeric : (ℕ → Bool) → ℕ → Bool
is_alphanumeric unicode_alphanumeric c =
    if ltb c 128 then is_alphabetic c || is_digit c else unicode_alphanumeric c
