-- ===== src/Stop/Window.antt =====
-- `push_text` searches only the end of the text. These are the laws of that search: it finds what a
-- search of the whole text finds, and when its slice panics.
use mini_cpm5_5080fast.Base.{
  ℕ, ◌≤◌, ◌≡◌, refl, sym, ap, ◌∙◌, ◌≢◌, true, false, Option, none, some, List, [], ◌∷◌, drop, arith,
  length, ◌++◌, ◌↔◌, ◌>>=◌, ◌-◌, is_some, Bool-cases, inl, inr,
}
use mini_cpm5_5080fast.Bytes.{Bytes, is_char_boundary, slice_from, find, starts_with}
use mini_cpm5_5080fast.Bytes.Search.{
  any_starts, first_hit, first_hit-cons, earlier, AllShort, shift, shift_zero, first_hit-skip,
}
use mini_cpm5_5080fast.Stop.{
  StopState, longest, new, improve, best_match, find_match, push_text, record_match, string,
}
use mathlib.Core.Option

first_hit-nil : (s : Bytes) → first_hit [] s ≡ none
unfolding first_hit any_starts
first_hit-nil [] = refl
first_hit-nil (c ∷ s) = rw (first_hit-nil s)

improve-earlier :
    (from : ℕ) (best here rest : Option ℕ)
    → earlier (improve from best here) (shift from rest)
      ≡ earlier best (shift from (earlier here rest))
unfolding improve shift
improve-earlier from best here rest = ground arith

earlier-none : (o : Option ℕ) → earlier o none ≡ o
earlier-none none = refl
earlier-none (some a) = refl

-- The loop over the patterns keeps the earliest position at which any of them stands.
best_match-first_hit :
    (ps : List Bytes) (hay : Bytes) (from : ℕ) (best : Option ℕ)
    → best_match ps hay from best ≡ earlier best (shift from (first_hit ps hay))
unfolding best_match
best_match-first_hit [] hay from best = rw first_hit-nil (unfold shift in sym (earlier-none best))
best_match-first_hit (p ∷ ps) hay from best =
    best_match-first_hit ps hay from (improve from best (find hay p))
    ∙ improve-earlier from best (find hay p) (first_hit ps hay)
    ∙ ap (λ o. earlier best (shift from o)) (sym (first_hit-cons p ps hay))

-- What every state that the operations reach satisfies: `matched` is the first occurrence of any
-- stop string in the whole text.
pub record Inv (s : StopState) : Type 0 where
  pub short : AllShort s.max_pattern_len s.stop_strings
  pub found : s.matched ≡ first_hit s.stop_strings s.text
  pub halted : s.stopped ≡ false → s.matched ≡ none

abbrev pub AllFilled : List Bytes → Type 0
AllFilled [] = Unit {0}
AllFilled (p ∷ ps) = (p ≢ []) × AllFilled ps

AllShort-mono : (m n : ℕ) (ps : List Bytes) → m ≤ n → AllShort m ps → AllShort n ps
AllShort-mono m n [] h a = tt
AllShort-mono m n (p ∷ ps) h a = (omega arith, AllShort-mono m n ps h a.1)

longest-AllShort : (ps : List Bytes) → AllShort (longest ps) ps
unfolding longest
longest-AllShort [] = tt
longest-AllShort (p ∷ ps) =
    (omega arith, AllShort-mono (longest ps) _ ps (omega arith) (longest-AllShort ps))

any_starts-AllFilled : (ps : List Bytes) → AllFilled ps → any_starts ps [] ≡ false
unfolding any_starts starts_with
any_starts-AllFilled [] a = refl
any_starts-AllFilled ([] ∷ ps) a = absurd (a.0 refl)
any_starts-AllFilled ((c ∷ p) ∷ ps) a = any_starts-AllFilled ps a.1

pub new-Inv : (ids : List ℕ) (strings : List Bytes) → AllFilled strings → Inv (new ids strings)
unfolding new first_hit
new-Inv ids strings a = record {
  short = longest-AllShort strings;
  found = rw (any_starts-AllFilled strings a);
  halted = λ _. refl;
}

find_match-boundary :
    (s : StopState) (from : ℕ)
    → is_char_boundary s.text from ≡ true
    → find_match s from ≡ some (shift from (first_hit s.stop_strings (drop from s.text)))
unfolding find_match slice_from
find_match-boundary s from b = rw (b, best_match-first_hit)

pub find_match-zero : (s : StopState) → find_match s 0 ≡ some (first_hit s.stop_strings s.text)
unfolding is_char_boundary
find_match-zero s = rw (find_match-boundary s 0 refl, shift_zero (first_hit s.stop_strings s.text))

find_match-panic :
    (s : StopState) (from : ℕ) → is_char_boundary s.text from ≡ false → find_match s from ≡ none
unfolding find_match slice_from
find_match-panic s from b = rw b

-- the place at which `push_text` slices the grown text
abbrev pub search_from : StopState → ℕ
search_from s = length s.text - s.max_pattern_len

abbrev pub grow : StopState → Bytes → StopState
grow s fragment = record s { text = s.text ++ fragment }

grown-first_hit :
    (s : StopState) (f : Bytes)
    → Inv s
    → s.stopped ≡ false
    → is_char_boundary (s.text ++ f) (search_from s) ≡ true
    → find_match (grow s f) (search_from s) ≡ some (first_hit s.stop_strings (s.text ++ f))
grown-first_hit s f v go b =
    find_match-boundary (grow s f) (search_from s) b
    ∙ ap some (
        sym (
          first_hit-skip s.stop_strings s.max_pattern_len (search_from s) s.text f v.short
            (sym v.found ∙ v.halted go) (omega arith)))

push_text-live :
    (s : StopState) (f : Bytes)
    → s.stopped ≡ false
    → f ≢ []
    → push_text s f
      ≡ (find_match (grow s f) (search_from s) >>= λ o. some (record_match (grow s f) o))
unfolding push_text
push_text-live s [] go ne = absurd (ne refl)
push_text-live s (c ∷ f) go ne = rw go

record_match-eq :
    (s : StopState) (o : Option ℕ)
    → s.matched ≡ none
    → s.stopped ≡ false
    → record_match s o ≡ (record s { matched = o; stopped = is_some o }, Option.map string o)
unfolding record_match is_some
record_match-eq s none m go = ground arith
record_match-eq s (some i) m go = refl

-- A fragment that is not empty, pushed while generation runs in a state that keeps the invariant: if the slice falls on a character boundary, the search of
-- the end of the text gives the first occurrence of any stop string in all of the text, the state
-- records it, and generation is stopped exactly when there is one.
pub push_text-first_hit :
    (s : StopState) (f : Bytes)
    → Inv s
    → s.stopped ≡ false
    → f ≢ []
    → is_char_boundary (s.text ++ f) (search_from s) ≡ true
    → let whole = first_hit s.stop_strings (s.text ++ f) in
      push_text s f
      ≡ some (
        record s { text = s.text ++ f; matched = whole; stopped = is_some whole },
        Option.map string whole,
      )
push_text-first_hit s f v go ne b =
    rw (push_text-live s f go ne, grown-first_hit s f v go b)
      (ap some
        (record_match-eq (grow s f) (first_hit s.stop_strings (s.text ++ f)) (v.halted go) go))

push_text-panics :
    (s : StopState) (f : Bytes)
    → push_text s f ≡ none
    → (s.stopped ≡ false) × (f ≢ []) × (is_char_boundary (s.text ++ f) (search_from s) ≡ false)
unfolding push_text
push_text-panics s [] e = ground arith
push_text-panics s (c ∷ f) e =
    elim (Bool-cases (is_char_boundary (s.text ++ c ∷ f) (search_from s))) [
      | inl b ↦ ground (arith, find_match-boundary (grow s (c ∷ f)) (search_from s) b)
      | inr b ↦ ground arith
    ]

-- `push_text` panics exactly when generation runs, the fragment is not empty, and the byte that is
-- `max_pattern_len` bytes before the end of the old text does not start a character.
pub push_text-panics_iff :
    (s : StopState) (f : Bytes)
    → (push_text s f ≡ none)
      ↔ ((s.stopped ≡ false) × (f ≢ []) × (is_char_boundary (s.text ++ f) (search_from s) ≡ false))
push_text-panics_iff s f = (
  push_text-panics s f,
  λ (go, ne, b). rw (push_text-live s f go ne, find_match-panic (grow s f) (search_from s) b),
)
