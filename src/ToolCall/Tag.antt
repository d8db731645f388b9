-- ===== src/ToolCall/Tag.antt =====
-- The free functions of tool_call.rs on tags, and what they use of `str`.
use mini_cpm5_5080fast.Base.{
  ℕ, zero, suc, ◌+◌, ◌-◌, Bool, ◌&&◌, ◌||◌, Option, none, some, List, [], ◌∷◌, ◌++◌, ltb, leb, ◌==◌,
  if◌then◌else◌, length, take, drop, is_some,
}
use mini_cpm5_5080fast.Bytes.{Bytes, starts_with, find}
use mini_cpm5_5080fast.Bytes.Text.{codes}
use mathlib.Core.Option

abbrev pub lt : Bytes
lt = codes "<"

abbrev pub gt : Bytes
gt = codes ">"

-- `buf.find('>').is_some()`
unfoldable pub has_gt : Bytes → Bool
has_gt buf = is_some (find buf gt)

unfoldable pub viable_prefix : Bytes → Bytes → Bool
viable_prefix buf lit = ltb (length buf) (length lit) && starts_with lit buf

unfoldable pub end_of : Bytes → Option ℕ → ℕ
end_of buf (some i) = i + 1
end_of buf none = length buf

unfoldable pub tag_len : Bytes → ℕ
unfolding end_of
tag_len buf = end_of buf (find buf gt)

-- The length of the white space character, by Unicode, at the start of a text, or 0.
unfoldable pub white_len : Bytes → ℕ
white_len [] = 0
white_len (a ∷ []) = if a == 32 || leb 9 a && leb a 13 then 1 else 0
white_len (a ∷ b ∷ []) =
    if a == 32 || leb 9 a && leb a 13
    then 1
    else if a == 0xC2 && (b == 0x85 || b == 0xA0)
    then 2
    else 0
white_len (a ∷ b ∷ c ∷ s) =
    if a == 32 || leb 9 a && leb a 13
    then 1
    else if a == 0xC2 && (b == 0x85 || b == 0xA0)
    then 2
    else if a == 0xE1 && b == 0x9A && c == 0x80
        || a == 0xE2
          && b == 0x80
          && (leb 0x80 c && leb c 0x8A || c == 0xA8 || c == 0xA9 || c == 0xAF)
        || a == 0xE2 && b == 0x81 && c == 0x9F
        || a == 0xE3 && b == 0x80 && c == 0x80
    then 3
    else 0

abbrev pub word_if : Bytes → List Bytes → List Bytes
word_if [] ws = ws
word_if (b ∷ bs) ws = (b ∷ bs) ∷ ws

-- `skip` bytes of a white space character are still to be passed over; `word` is what came since it.
unfoldable pub words : ℕ → Bytes → Bytes → List Bytes
words skip word [] = word_if word []
words (suc skip) word (c ∷ s) = words skip word s
words zero word (c ∷ s) =
    let k = white_len (c ∷ s) in
    let rest = words (k - 1) (if ltb 0 k then [] else word ++ (c ∷ [])) s in
    if ltb 0 k then word_if word rest else rest

-- `str::split_whitespace`
abbrev pub split_whitespace : Bytes → List Bytes
split_whitespace s = words 0 [] s

unfoldable pub replace_from : ℕ → Bytes → Bytes → Bytes → Bytes
replace_from skip [] old new = []
replace_from (suc skip) (c ∷ s) old new = replace_from skip s old new
replace_from zero (c ∷ s) old new =
    let hit = starts_with (c ∷ s) old in
    let rest = replace_from (if hit then length old - 1 else 0) s old new in
    if hit then new ++ rest else c ∷ rest

-- `str::replace` of a pattern that is not empty
abbrev pub replace : Bytes → Bytes → Bytes → Bytes
replace s old new = replace_from 0 s old new

unfoldable pub decode_attr : Bytes → Bytes
decode_attr v =
    replace
      (replace (replace (replace v (codes "&lt;") (codes "<")) (codes "&gt;") (codes ">"))
        (codes "&quot;") (codes "\""))
      (codes "&amp;") (codes "&")

unfoldable pub strip_prefix : Bytes → Bytes → Option Bytes
strip_prefix s p = if starts_with s p then some (drop (length p) s) else none

-- `strip_suffix` of one ASCII character
unfoldable pub strip_suffix : Bytes → ℕ → Option Bytes
strip_suffix [] q = none
strip_suffix (c ∷ []) q = if c == q then some [] else none
strip_suffix (c ∷ d ∷ s) q = Option.map (λ r. c ∷ r) (strip_suffix (d ∷ s) q)

unfoldable pub single_quoted : Option Bytes → Option Bytes
single_quoted none = none
single_quoted (some v) = Option.map decode_attr (strip_suffix v 39)

unfoldable pub double_quoted : Bytes → Bytes → Option Bytes → Option Bytes
unfolding single_quoted
double_quoted part attr (some v) = Option.map decode_attr (strip_suffix v 34)
double_quoted part attr none = single_quoted (strip_prefix part (attr ++ codes "='"))

unfoldable pub attr_of : Bytes → Bytes → Option Bytes
unfolding double_quoted
attr_of part attr = double_quoted part attr (strip_prefix part (attr ++ codes "=\""))

abbrev pub or_else : Option Bytes → Option Bytes → Option Bytes
or_else (some v) o = some v
or_else none o = o

-- the loop over the parts
unfoldable pub first_attr : List Bytes → Bytes → Option Bytes
unfolding attr_of
first_attr [] attr = none
first_attr (part ∷ parts) attr = or_else (attr_of part attr) (first_attr parts attr)

unfoldable pub tag_body : Bytes → Bytes → Bytes → Option ℕ → Option Bytes
unfolding first_attr
tag_body buf tag attr none = none
tag_body buf tag attr (some close) =
    first_attr (split_whitespace (drop (length tag) (take close buf))) attr

unfoldable pub parse_tag : Bytes → Bytes → Bytes → Option Bytes
unfolding tag_body
parse_tag buf tag attr = if starts_with buf tag then tag_body buf tag attr (find buf gt) else none
