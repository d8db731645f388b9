-- ===== src/StreamDecode/Tests.antt =====
-- The crate's tests of the detokenizer, and its laws at concrete vocabularies.
use mini_cpm5_5080fast.Base.{
  ℕ, zero, suc, ◌%◌, ◌≤◌, ◌≡◌, refl, ap, true, false, none, some, List, [], ◌∷◌, ◌++◌, map, length,
  drop, ok, failed, arith, take-append,
}
use mini_cpm5_5080fast.Bytes.{Bytes, is_char_boundary, slice, starts_with}
use mini_cpm5_5080fast.Bytes.Text.{codes}
use mini_cpm5_5080fast.StreamDecode.{
  StreamDecoder, DecodeFn, new, replacement, ends_with, retreat, take_delta, push, finish,
  token_count,
}
use mini_cpm5_5080fast.StreamDecode.Exact.{settled, Stable, decode_as, stream, stream-exact}
use mini_cpm5_5080fast.StreamDecode.Book.{push-keeps}
use mathlib.Core.List.{map-append}

-- Each id stands for one ASCII character.
abbrev pub ascii : List ℕ → Bytes
ascii = map (λ i. i % 128)

no_replacement : (ids : List ℕ) (k : ℕ) → starts_with (drop k (ascii ids)) replacement ≡ false
unfolding starts_with
no_replacement [] zero = refl
no_replacement [] (suc k) = refl
no_replacement (i ∷ ids) zero = ground arith
no_replacement (i ∷ ids) (suc k) = no_replacement ids k

settled-ascii : (ids : List ℕ) → settled (ascii ids) ≡ length (ascii ids)
unfolding ends_with
settled-ascii ids = rw no_replacement

boundary-ascii :
    (ids : List ℕ) (k : ℕ) → k ≤ length (ascii ids) → is_char_boundary (ascii ids) k ≡ true
unfolding is_char_boundary
boundary-ascii ids zero h = refl
boundary-ascii [] (suc k) h = absurd (omega arith)
boundary-ascii (i ∷ []) (suc zero) h = refl
boundary-ascii (i ∷ j ∷ ids) (suc zero) h = ground arith
boundary-ascii (i ∷ []) (suc (suc k)) h = absurd (omega arith)
boundary-ascii (i ∷ j ∷ ids) (suc (suc k)) h = boundary-ascii (j ∷ ids) (suc k) (omega arith)

length-ascii : (ids : List ℕ) → length (ascii ids) ≡ length ids
length-ascii [] = refl
length-ascii (i ∷ ids) = ap suc (length-ascii ids)

length-ascii-le : (ids : List ℕ) (id : ℕ) → length (ascii ids) ≤ length (ascii (ids ++ id ∷ []))
length-ascii-le [] id = omega arith
length-ascii-le (i ∷ ids) id = omega (arith, length-ascii-le ids id)

pub ascii-Stable : Stable ascii
ascii-Stable = record {
  empty = refl;
  grows = λ ids id. rw (settled-ascii ids, settled-ascii (ids ++ id ∷ [])) (length-ascii-le ids id);
  keeps = λ ids id.
      rw (settled-ascii ids, map-append (λ (i : ℕ). i % 128) ids (id ∷ []))
        (take-append (length (ascii ids)) (ascii ids) (ascii (id ∷ [])) (omega arith));
  aligned =
      λ ids id. rw (settled-ascii ids) (boundary-ascii (ids ++ id ∷ []) _ (length-ascii-le ids id));
}

stream-exact_example :
    stream (decode_as ascii) (104 ∷ 105 ∷ 33 ∷ [])
    ≡ some (record { ids = 104 ∷ 105 ∷ 33 ∷ []; emitted = 3; tail_withheld = false }, codes "hi!")
stream-exact_example = stream-exact ascii ascii-Stable (104 ∷ 105 ∷ 33 ∷ [])

-- The first two bytes of a Chinese character, which the lossy conversion turns into U+FFFD, and then
-- its last byte.
abbrev split_decode : DecodeFn
split_decode [] = ok []
split_decode (a ∷ []) = ok replacement
split_decode (a ∷ b ∷ []) = ok (0xE4 ∷ 0xB8 ∷ 0x96 ∷ [])
split_decode (a ∷ b ∷ c ∷ ids) = failed (codes "boom")

abbrev after_first : StreamDecoder
after_first = record { ids = 0 ∷ []; emitted = 0; tail_withheld = true }

push-withholds : push split_decode new 0 ≡ (after_first, ok none)
unfolding push new take_delta ends_with retreat starts_with is_char_boundary
push-withholds = refl

push-completes : push split_decode after_first 1 ≡ (
  record { ids = 0 ∷ 1 ∷ []; emitted = 3; tail_withheld = false },
  ok (some (0xE4 ∷ 0xB8 ∷ 0x96 ∷ [])),
)
unfolding push take_delta ends_with retreat starts_with is_char_boundary slice
push-completes = refl

push-keeps_example :
    (token_count (push split_decode after_first 1).0 ≡ 2)
    × (0 ≤ (push split_decode after_first 1).0.emitted)
unfolding token_count
push-keeps_example = push-keeps split_decode after_first 1

finish-flushes :
    finish split_decode after_first
    ≡ (record { ids = 0 ∷ []; emitted = 3; tail_withheld = false }, ok (some replacement))
unfolding finish take_delta retreat is_char_boundary slice
finish-flushes = refl
