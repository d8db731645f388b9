-- ===== src/Stop.antt =====
-- rust/minicpm-generation/src/stop.rs: the stop conditions of one generation. Text is its UTF-8
-- bytes, and a token id, an i32 in the source, is its 32-bit pattern. `none` as the result of an
-- operation that slices the text is the panic of a slice inside a character.
pub mod Window
pub mod Stream
pub mod Texts
mod Tests
use mini_cpm5_5080fast.Base.{
  ℕ, ◌+◌, ◌-◌, ◌≡◌, Bool, true, false, ◌||◌, Option, none, some, List, [], ◌∷◌, ◌++◌, max, ltb,
  ◌==◌, if◌then◌else◌, length, ◌>>=◌,
}
use mini_cpm5_5080fast.Bytes.{Bytes, slice_from, slice, find, floor_char_boundary}
use mathlib.Core.Option

pub data StopHit : Type 0 where
  token : ℕ → StopHit
  string : ℕ → StopHit

pub record StopState : Type 0 where
  pub stop_token_ids : List ℕ
  pub stop_strings : List Bytes
  pub max_pattern_len : ℕ
  pub text : Bytes
  pub matched : Option ℕ
  pub stopped : Bool

-- `stop_strings.iter().map(|s| s.len()).max().unwrap_or(0)`
unfoldable pub longest : List Bytes → ℕ
longest [] = 0
longest (p ∷ ps) = max (length p) (longest ps)

unfoldable pub new : List ℕ → List Bytes → StopState
new ids strings = record {
  stop_token_ids = ids;
  stop_strings = strings;
  max_pattern_len = longest strings;
  text = [];
  matched = none;
  stopped = false;
}

unfoldable pub contains : List ℕ → ℕ → Bool
contains [] id = false
contains (x ∷ xs) id = x == id || contains xs id

unfoldable pub check_token : StopState → ℕ → StopState × Option StopHit
unfolding contains
check_token s id =
    if s.stopped
    then (s, some (token id))
    else if contains s.stop_token_ids id
    then (record s { stopped = true }, some (token id))
    else (s, none)

-- `if best.is_none_or(|b| abs < b) { best = Some(abs) }`, at `abs = from + rel`
unfoldable pub improve : ℕ → Option ℕ → Option ℕ → Option ℕ
improve from best none = best
improve from none (some rel) = some (from + rel)
improve from (some b) (some rel) = if ltb (from + rel) b then some (from + rel) else some b

-- the loop of `find_match` over the patterns
unfoldable pub best_match : List Bytes → Bytes → ℕ → Option ℕ → Option ℕ
unfolding improve
best_match [] hay from best = best
best_match (p ∷ ps) hay from best = best_match ps hay from (improve from best (find hay p))

unfoldable pub find_match : StopState → ℕ → Option (Option ℕ)
unfolding best_match
find_match s from = do hay ← slice_from s.text from; some (best_match s.stop_strings hay from none)

is_empty : Bytes → Bool
is_empty [] = true
is_empty (b ∷ bs) = false

-- what `push_text` does with the outcome of its search
unfoldable pub record_match : StopState → Option ℕ → StopState × Option StopHit
record_match s none = (s, none)
record_match s (some start) =
    (record s { matched = some start; stopped = true }, some (string start))

unfoldable pub push_text : StopState → Bytes → Option (StopState × Option StopHit)
unfolding record_match is_empty
push_text s fragment =
    if s.stopped || is_empty fragment
    then some (s, Option.map string s.matched)
    else (let search_from = length s.text - s.max_pattern_len in
        let grown = record s { text = s.text ++ fragment } in
        do found ← find_match grown search_from; some (record_match grown found))

unfoldable pub safe_len : StopState → ℕ
safe_len s = elim s.matched [
  | some start ↦ start
  | none ↦ floor_char_boundary s.text (length s.text - (s.max_pattern_len - 1))
]

-- `finish`, after its own search
unfoldable pub close : StopState → Option ℕ → StopState × ℕ
close s (some start) = (record s { matched = some start; stopped = true }, start)
close s none = (s, length s.text)

unfoldable pub finish : StopState → Option (StopState × ℕ)
unfolding close
finish s = elim s.matched [
  | some start ↦ some (s, start)
  | none ↦ find_match s 0 >>= λ found. some (close s found)
]

-- `&self.text[..len]`
unfoldable pub visible_text : StopState → ℕ → Option Bytes
visible_text s len = slice s.text 0 len
