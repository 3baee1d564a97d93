-- ===== src/Prelude/Utf8.antt =====
-- `std::str::from_utf8`: strict decoding, without overlong forms, surrogates or values past U+10FFFF.
use Prim.Native.Nat.{ℕ, ◌+◌, ◌-◌, ◌*◌}
use mathlib.Core.Bool.{◌&&◌}
use mathlib.Core.List.{List, [], ◌∷◌}
use mathlib.Core.Option.{Option, none, some}
use mcps.Prelude.Tests.{ltb, leb, ◌==◌, if◌then◌else◌}
use mcps.Prelude.Text.{Str}

-- What the bytes read so far ask for: `left` continuation bytes, the next one within its bounds.
pub record Pending : Type 0 where
  pub left : ℕ
  pub bits : ℕ
  pub low : ℕ
  pub high : ℕ

abbrev pending : ℕ → ℕ → ℕ → ℕ → Option Pending
pending left bits low high = some (record { left = left; bits = bits; low = low; high = high })

-- The first byte of a sequence of two bytes or more.
unfoldable pub lead : ℕ → Option Pending
lead b =
    if ltb b 0xc2
    then none
    else if ltb b 0xe0
    then pending 1 (b - 0xc0) 0x80 0xbf
    else if ltb b 0xf0
    then pending 2 (b - 0xe0) (if b == 0xe0 then 0xa0 else 0x80) (if b == 0xed then 0x9f else 0xbf)
    else if ltb b 0xf5
    then pending 3 (b - 0xf0) (if b == 0xf0 then 0x90 else 0x80) (if b == 0xf4 then 0x8f else 0xbf)
    else none

abbrev cons_char : ℕ → Option Str → Option Str
cons_char c none = none
cons_char c (some s) = some (c ∷ s)

unfoldable pub decode_from : Option Pending → List ℕ → Option Str
unfolding lead
decode_from none [] = some []
decode_from (some p) [] = none
decode_from none (b ∷ bs) =
    let ascii = cons_char b (decode_from none bs) in
    let longer = decode_from (lead b) bs in
    if ltb b 0x80 then ascii else elim (lead b) [ none ↦ none | some p ↦ longer ]
decode_from (some p) (b ∷ bs) =
    let bits = p.bits * 64 + (b - 0x80) in
    let last = cons_char bits (decode_from none bs) in
    let longer = decode_from (pending (p.left - 1) bits 0x80 0xbf) bs in
    if leb p.low b && leb b p.high then (if leb p.left 1 then last else longer) else none

unfoldable pub from_utf8 : List ℕ → Option Str
unfolding decode_from
from_utf8 bytes = decode_from none bytes
