-- ===== src/StreamDecode.antt =====
-- rust/minicpm-generation/src/stream_decode.rs: the incremental detokenizer. The decode callback is a
-- parameter: the tokenizer library behind it is not part of the repository. Text is UTF-8 bytes.
pub mod Exact
pub mod Book
pub mod Tests
use mini_cpm5_5080fast.Base.{
  ℕ, zero, suc, ◌-◌, Bool, true, false, not, ◌&&◌, Option, none, some, List, [], ◌∷◌, ◌++◌, ltb,
  leb, if◌then◌else◌, length, drop, Outcome, ok, failed, panicked,
}
use mini_cpm5_5080fast.Bytes.{Bytes, is_char_boundary, slice, starts_with}

pub record StreamDecoder : Type 0 where
  pub ids : List ℕ
  pub emitted : ℕ
  pub tail_withheld : Bool

-- `&mut dyn FnMut(&[u32]) -> Result<String, StreamDecodeError>`, deterministic by its contract
abbrev pub DecodeFn : Type 0
DecodeFn = List ℕ → Outcome Bytes

unfoldable pub new : StreamDecoder
new = record { ids = []; emitted = 0; tail_withheld = false }

-- U+FFFD
abbrev pub replacement : Bytes
replacement = 0xEF ∷ 0xBF ∷ 0xBD ∷ []

unfoldable pub ends_with : Bytes → Bytes → Bool
ends_with s p = starts_with (drop (length s - length p) s) p

unfoldable pub sync_emission : StreamDecoder → Bytes → StreamDecoder
sync_emission d text = record d { tail_withheld = ends_with text replacement }

-- `while end > self.emitted && !text.is_char_boundary(end) { end -= 1 }`
unfoldable pub retreat : Bytes → ℕ → ℕ → ℕ
retreat text emitted zero = zero
retreat text emitted (suc end) =
    let rest = retreat text emitted end in
    if ltb emitted (suc end) && not (is_char_boundary text (suc end)) then rest else suc end

-- `let delta = text[self.emitted..end].to_string(); self.emitted = end`
unfoldable pub emit : StreamDecoder → ℕ → Option Bytes → StreamDecoder × Outcome (Option Bytes)
emit d end none = (d, panicked)
emit d end (some delta) = (record d { emitted = end }, ok (some delta))

unfoldable pub take_delta : StreamDecoder → Bytes → StreamDecoder × Outcome (Option Bytes)
unfolding emit
take_delta d text =
    let limit = if d.tail_withheld then length text - length replacement else length text in
    let end = retreat text d.emitted limit in
    if leb end d.emitted then (d, ok none) else emit d end (slice text d.emitted end)

unfoldable pub push : DecodeFn → StreamDecoder → ℕ → StreamDecoder × Outcome (Option Bytes)
unfolding sync_emission
push decode d id =
    let grown = record d { ids = d.ids ++ id ∷ [] } in
    elim (decode grown.ids) [
      | ok text ↦ take_delta (sync_emission grown text) text
      | failed e ↦ (grown, failed e)
      | panicked ↦ (grown, panicked)
    ]

unfoldable pub finish : DecodeFn → StreamDecoder → StreamDecoder × Outcome (Option Bytes)
finish decode d = elim (decode d.ids) [
  | ok text ↦ take_delta (record d { tail_withheld = false }) text
  | failed e ↦ (d, failed e)
  | panicked ↦ (d, panicked)
]

unfoldable pub token_count : StreamDecoder → ℕ
token_count d = length d.ids
