-- ===== src/Bytes.antt =====
-- Rust's `str` as its UTF-8 bytes: what the generation crate uses of it. Lengths and positions are
-- byte counts, and `none` is the panic of a slice that starts or ends inside a character.
pub mod Search
pub mod Text
use mini_cpm5_5080fast.Base.{
  ℕ, zero, suc, ◌+◌, ◌-◌, ◌≤◌, ◌≡◌, Bool, true, false, not, ◌&&◌, ◌||◌, Option, none, some, List,
  [], ◌∷◌, ltb, leb, ◌==◌, if◌then◌else◌, length, get_elem?, take, drop, arith,
}
use mathlib.Core.Option

abbrev pub Bytes : Type 0
Bytes = List ℕ

-- A byte 0b10xxxxxx stands inside a character.
abbrev pub is_continuation : ℕ → Bool
is_continuation b = leb 0x80 b && ltb b 0xC0

-- `str::is_char_boundary`
unfoldable pub is_char_boundary : Bytes → ℕ → Bool
is_char_boundary s zero = true
is_char_boundary [] (suc i) = false
is_char_boundary (b ∷ []) (suc zero) = true
is_char_boundary (b ∷ c ∷ s) (suc zero) = not (is_continuation c)
is_char_boundary (b ∷ s) (suc (suc i)) = is_char_boundary s (suc i)

-- `&s[from..]`
unfoldable pub slice_from : Bytes → ℕ → Option Bytes
slice_from s from = if is_char_boundary s from then some (drop from s) else none

-- `&s[from..to]`
unfoldable pub slice : Bytes → ℕ → ℕ → Option Bytes
slice s from to =
    if leb from to && is_char_boundary s from && is_char_boundary s to
    then some (drop from (take to s))
    else none

-- `str::starts_with`
unfoldable pub starts_with : Bytes → Bytes → Bool
starts_with s [] = true
starts_with [] (p ∷ ps) = false
starts_with (c ∷ s) (p ∷ ps) = c == p && starts_with s ps

-- `str::find` of a pattern: the first position at which it stands.
unfoldable pub find : Bytes → Bytes → Option ℕ
find [] p = if starts_with [] p then some 0 else none
find (c ∷ s) p = if starts_with (c ∷ s) p then some 0 else Option.map suc (find s p)

-- `while !s.is_char_boundary(i) { i -= 1 }`
unfoldable pub floor_char_boundary : Bytes → ℕ → ℕ
floor_char_boundary s zero = 0
floor_char_boundary s (suc i) =
    let lower = floor_char_boundary s i in if is_char_boundary s (suc i) then suc i else lower
