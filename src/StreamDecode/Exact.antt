-- ===== src/StreamDecode/Exact.antt =====
-- Streaming gives the text of one decode of all the ids, under what the source says it relies on.
use mini_cpm5_5080fast.Base.{
  ℕ, zero, suc, ◌-◌, ◌≤◌, ◌≡◌, refl, sym, ap, ◌∙◌, inl, inr, true, false, Option, none, some, List,
  [], ◌∷◌, ◌++◌, leb, if◌then◌else◌, length, take, drop, Outcome, ok, failed, panicked, arith,
  Bool-cases, take-append-drop, take-take, take-length, ◌>>=◌, append-nil, append_assoc,
}
use mini_cpm5_5080fast.Bytes.{Bytes, is_char_boundary, slice, starts_with}
use mini_cpm5_5080fast.StreamDecode.{
  StreamDecoder, DecodeFn, new, replacement, ends_with, sync_emission, retreat, emit, take_delta,
  push, finish,
}

-- The length of text that is not withheld.
abbrev pub settled : Bytes → ℕ
settled t = if ends_with t replacement then length t - length replacement else length t

boundary_end : (t : Bytes) → is_char_boundary t (length t) ≡ true
unfolding is_char_boundary
boundary_end [] = refl
boundary_end (b ∷ []) = refl
boundary_end (b ∷ c ∷ t) = boundary_end (c ∷ t)

-- A place where a replacement character starts is a boundary.
boundary_replacement :
    (t : Bytes) (k : ℕ) → starts_with (drop k t) replacement ≡ true → is_char_boundary t k ≡ true
unfolding is_char_boundary starts_with
boundary_replacement t zero h = refl
boundary_replacement [] (suc k) h = cc
boundary_replacement (b ∷ []) (suc zero) h = refl
boundary_replacement (b ∷ c ∷ t) (suc zero) h = ground arith
boundary_replacement (b ∷ []) (suc (suc k)) h = cc
boundary_replacement (b ∷ c ∷ t) (suc (suc k)) h = boundary_replacement (c ∷ t) (suc k) h

settled-boundary : (t : Bytes) → is_char_boundary t (settled t) ≡ true
unfolding ends_with
settled-boundary t = elim (Bool-cases (ends_with t replacement)) [
  | inl h ↦ rw h (boundary_replacement t _ h)
  | inr h ↦ rw h (boundary_end t)
]

retreat-boundary : (t : Bytes) (e n : ℕ) → is_char_boundary t n ≡ true → retreat t e n ≡ n
unfolding retreat
retreat-boundary t e zero h = refl
retreat-boundary t e (suc n) h = ground arith

-- One emission, at an end that is a boundary: the bytes between what was emitted and the end.
pub emission : StreamDecoder → Bytes → ℕ → StreamDecoder × Outcome (Option Bytes)
emission d t end =
    if leb end d.emitted
    then (d, ok none)
    else (record d { emitted = end }, ok (some (drop d.emitted (take end t))))

take_delta-emission :
    (d : StreamDecoder) (t : Bytes) (end : ℕ)
    → (if d.tail_withheld then length t - length replacement else length t) ≡ end
    → is_char_boundary t end ≡ true
    → is_char_boundary t d.emitted ≡ true
    → take_delta d t ≡ emission d t end
unfolding take_delta slice emit emission
take_delta-emission d t end e b c = rw (e, retreat-boundary t d.emitted end b) (ground arith)

-- What the caller has received after one more result; `none` once a call has failed.
unfoldable pub absorb :
    Bytes → StreamDecoder × Outcome (Option Bytes) → Option (StreamDecoder × Bytes)
absorb out (d, ok none) = some (d, out)
absorb out (d, ok (some delta)) = some (d, out ++ delta)
absorb out (d, failed e) = none
absorb out (d, panicked) = none

-- `push` for each id in turn, with the text that came out.
unfoldable pub push_all : DecodeFn → StreamDecoder → Bytes → List ℕ → Option (StreamDecoder × Bytes)
unfolding absorb
push_all decode d out [] = some (d, out)
push_all decode d out (id ∷ ids) = do
  (d', out') ← absorb out (push decode d id)
  push_all decode d' out' ids

-- All ids of one generation, and the flush at its end.
unfoldable pub stream : DecodeFn → List ℕ → Option (StreamDecoder × Bytes)
unfolding push_all absorb
stream decode ids = do (d, out) ← push_all decode new [] ids; absorb out (finish decode d)

-- What the detokenizer relies on of the decode callback: one more id does not change the text that
-- was settled, and that text ends between two characters of the longer one.
pub record Stable (text : List ℕ → Bytes) : Type 0 where
  pub empty : text [] ≡ []
  pub grows : (ids : List ℕ) (id : ℕ) → settled (text ids) ≤ settled (text (ids ++ id ∷ []))
  pub keeps :
      (ids : List ℕ) (id : ℕ)
      → take (settled (text ids)) (text (ids ++ id ∷ [])) ≡ take (settled (text ids)) (text ids)
  pub aligned :
      (ids : List ℕ) (id : ℕ) → is_char_boundary (text (ids ++ id ∷ [])) (settled (text ids)) ≡ true

take-join : (m n : ℕ) (xs : Bytes) → m ≤ n → take m xs ++ drop m (take n xs) ≡ take n xs
take-join m n xs h =
    ap (λ u. u ++ drop m (take n xs)) (sym (take-take m n xs h)) ∙ take-append-drop m (take n xs)

emission-absorb :
    (d : StreamDecoder) (t : Bytes) (end : ℕ)
    → d.emitted ≤ end
    → absorb (take d.emitted t) (emission d t end) ≡ some (record d { emitted = end }, take end t)
unfolding absorb emission
emission-absorb d t end h = elim (Bool-cases (leb end d.emitted)) [
  | inl stay ↦ let e : end ≡ d.emitted = ground arith in rw (stay, e)
  | inr more ↦ rw (more, take-join d.emitted end t h)
]

-- A callback that never fails.
abbrev pub decode_as : (List ℕ → Bytes) → DecodeFn
decode_as text ids = ok (text ids)

settled-le : (t : Bytes) → settled t ≤ length t
settled-le t = ground arith

module _ (text : List ℕ → Bytes) (stable : Stable text) where
  abbrev pub synced : List ℕ → StreamDecoder
  synced ids = record {
    ids = ids;
    emitted = settled (text ids);
    tail_withheld = ends_with (text ids) replacement;
  }

  grown : List ℕ → ℕ → StreamDecoder
  grown ids id = record {
    ids = ids ++ id ∷ [];
    emitted = settled (text ids);
    tail_withheld = ends_with (text (ids ++ id ∷ [])) replacement;
  }

  pub push-synced :
      (ids : List ℕ) (id : ℕ)
      → absorb (take (settled (text ids)) (text ids)) (push (decode_as text) (synced ids) id)
        ≡ some (
          synced (ids ++ id ∷ []),
          take (settled (text (ids ++ id ∷ []))) (text (ids ++ id ∷ [])),
        )
  unfolding push sync_emission grown
  push-synced ids id =
      let t = text (ids ++ id ∷ []) in
      let s = settled (text ids) in
      ap (absorb (take s (text ids))) (
        take_delta-emission (grown ids id) t (settled t) refl (settled-boundary t)
          (stable.aligned ids id))
      ∙ ap (λ u. absorb u (emission (grown ids id) t (settled t))) (sym (stable.keeps ids id))
      ∙ emission-absorb (grown ids id) t (settled t) (stable.grows ids id)

  push_all-synced :
      (more ids : List ℕ)
      → push_all (decode_as text) (synced ids) (take (settled (text ids)) (text ids)) more
        ≡ some (synced (ids ++ more), take (settled (text (ids ++ more))) (text (ids ++ more)))
  unfolding push_all
  push_all-synced [] ids = rw append-nil
  push_all-synced (id ∷ more) ids =
      rw (push-synced ids id) (push_all-synced more (ids ++ id ∷ []) ∙ rw append_assoc)

  pub finish-synced :
      (ids : List ℕ)
      → absorb (take (settled (text ids)) (text ids)) (finish (decode_as text) (synced ids))
        ≡ some
            (record (synced ids) { emitted = length (text ids); tail_withheld = false }, text ids)
  unfolding finish
  finish-synced ids =
      ap (absorb (take (settled (text ids)) (text ids))) (
        take_delta-emission _ (text ids) (length (text ids)) refl (boundary_end (text ids))
          (settled-boundary (text ids)))
      ∙ emission-absorb _ (text ids) (length (text ids)) (settled-le (text ids))
      ∙ rw take-length

  pub synced-new : (new ≡ synced []) × (take (settled (text [])) (text []) ≡ [])
  unfolding new ends_with starts_with
  synced-new = (rw stable.empty, rw stable.empty)

  push_all-new :
      (ids : List ℕ)
      → push_all (decode_as text) new [] ids
        ≡ some (synced ids, take (settled (text ids)) (text ids))
  push_all-new ids =
      (λ i. push_all (decode_as text) (synced-new.0 i) (sym synced-new.1 i) ids)
      ∙ push_all-synced ids []

  -- The deltas that `push` and the final `finish` hand out, in order, make up exactly the text that one
  -- decode of all the ids gives; no call fails or panics, and every byte is handed out once.
  pub stream-exact :
      (ids : List ℕ)
      → stream (decode_as text) ids
        ≡ some (record { ids = ids; emitted = length (text ids); tail_withheld = false }, text ids)
  unfolding stream
  stream-exact ids = rw (push_all-new ids) (finish-synced ids)
