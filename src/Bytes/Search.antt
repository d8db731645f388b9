-- ===== src/Bytes/Search.antt =====
-- Searching for the first of several patterns: a position-by-position reference, and the laws of
-- a search that starts late in the text.
use mini_cpm5_5080fast.Base.{
  ℕ, zero, suc, ◌+◌, ◌-◌, ◌≤◌, ◌≡◌, refl, sym, Bool, false, ◌||◌, Option, none, some, List, [], ◌∷◌,
  ◌++◌, ltb, if◌then◌else◌, length, drop, arith,
}
use mini_cpm5_5080fast.Bytes.{Bytes, starts_with, find}
use mathlib.Core.Option
use native.Mathlib.Decide.{dec_le}

-- Some pattern stands at the head of the text.
unfoldable pub any_starts : List Bytes → Bytes → Bool
any_starts [] s = false
any_starts (p ∷ ps) s = starts_with s p || any_starts ps s

-- The first position at which some pattern stands.
unfoldable pub first_hit : List Bytes → Bytes → Option ℕ
first_hit ps [] = if any_starts ps [] then some 0 else none
first_hit ps (c ∷ s) = if any_starts ps (c ∷ s) then some 0 else Option.map suc (first_hit ps s)

-- The smaller of two positions, where there is one.
abbrev pub earlier : Option ℕ → Option ℕ → Option ℕ
earlier none b = b
earlier (some a) none = some a
earlier (some a) (some b) = if ltb b a then some b else some a

abbrev pub AllShort : ℕ → List Bytes → Type 0
AllShort m [] = Unit {0}
AllShort m (p ∷ ps) = (length p ≤ m) × AllShort m ps

pub first_hit-cons :
    (p : Bytes) (ps : List Bytes) (s : Bytes)
    → first_hit (p ∷ ps) s ≡ earlier (find s p) (first_hit ps s)
unfolding first_hit find any_starts
first_hit-cons p ps [] = ground arith
first_hit-cons p ps (c ∷ s) = ground (arith, first_hit-cons p ps s)

starts_with-append :
    (s rest p : Bytes) → length p ≤ length s → starts_with (s ++ rest) p ≡ starts_with s p
unfolding starts_with
starts_with-append s rest [] h = refl
starts_with-append [] rest (p ∷ ps) h = absurd (omega arith)
starts_with-append (c ∷ s) rest (p ∷ ps) h = rw (starts_with-append s rest ps (omega arith))

any_starts-append :
    (ps : List Bytes) (s rest : Bytes) (m : ℕ)
    → AllShort m ps
    → m ≤ length s
    → any_starts ps (s ++ rest) ≡ any_starts ps s
unfolding any_starts
any_starts-append [] s rest m a h = refl
any_starts-append (p ∷ ps) s rest m a h =
    rw (starts_with-append s rest p (omega arith), any_starts-append ps s rest m a.1 h)

-- `from + rel`
unfoldable pub shift : ℕ → Option ℕ → Option ℕ
shift k none = none
shift k (some i) = some (k + i)

pub shift_zero : (o : Option ℕ) → shift 0 o ≡ o
unfolding shift
shift_zero none = refl
shift_zero (some i) = ground arith

shift-suc : (k : ℕ) (o : Option ℕ) → Option.map suc (shift k o) ≡ shift (suc k) o
unfolding shift
shift-suc k none = refl
shift-suc k (some i) = ground arith

-- Where `s` has no hit, a search of a longer text may start at most `m` bytes before the end of `s`.
pub first_hit-skip :
    (ps : List Bytes) (m k : ℕ) (s rest : Bytes)
    → AllShort m ps
    → first_hit ps s ≡ none
    → k ≤ length s - m
    → first_hit ps (s ++ rest) ≡ shift k (first_hit ps (drop k (s ++ rest)))
unfolding first_hit
first_hit-skip ps m zero s rest a e h = sym (shift_zero (first_hit ps (s ++ rest)))
first_hit-skip ps m (suc k) [] rest a e h = absurd (omega arith)
first_hit-skip ps m (suc k) (c ∷ s) rest a e h =
    rw (← shift-suc k (first_hit ps (drop k (s ++ rest)))) (
      ground (
        arith,
        any_starts-append ps (c ∷ s) rest m a (omega arith),
        first_hit-skip ps m k s rest a,
      ))

-- A hit that completes only in the longer text starts fewer than `m` bytes before the end of `s`.
pub first_hit-late :
    (ps : List Bytes) (m : ℕ) (s rest : Bytes) (i : ℕ)
    → AllShort m ps
    → first_hit ps s ≡ none
    → first_hit ps (s ++ rest) ≡ some i
    → length s ≤ i + (m - 1)
unfolding first_hit
first_hit-late ps m [] rest i a e h = omega arith
first_hit-late ps m (c ∷ s) rest i a e h = elim (dec_le m (suc (length s))) [
  | no short ↦ omega arith
  | yes long ↦
      ground
        (arith, any_starts-append ps (c ∷ s) rest m a long, first_hit-late ps m s rest (i - 1) a)
]

pub first_hit-le : (ps : List Bytes) (s : Bytes) (i : ℕ) → first_hit ps s ≡ some i → i ≤ length s
unfolding first_hit
first_hit-le ps [] i e = ground arith
first_hit-le ps (c ∷ s) i e = ground (arith, first_hit-le ps s (i - 1))
