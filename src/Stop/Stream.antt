-- ===== src/Stop/Stream.antt =====
-- A whole generation seen by `StopState`: the invariant holds after every operation, and what
-- `safe_len` has released is never taken back.
use mini_cpm5_5080fast.Base.{
  ℕ, ◌-◌, ◌≤◌, ◌≡◌, refl, sym, ◌⊎◌, inl, inr, true, false, Option, none, some, List, [], ◌∷◌, ◌++◌,
  length, take, ◌>>=◌, arith, Bool-cases, is_some, >>=-eq-some, suc, ◌∙◌, append-nil, subst, ap,
  append_assoc, Option-cases, zero, length-append, take-take, take-append,
}
use mini_cpm5_5080fast.Bytes.{Bytes, is_char_boundary, floor_char_boundary}
use mini_cpm5_5080fast.Bytes.Search.{first_hit, first_hit-late, first_hit-le}
use mini_cpm5_5080fast.Stop.{StopState, StopHit, check_token, push_text, safe_len, finish, close}
use mini_cpm5_5080fast.Stop.Window.{
  Inv, push_text-first_hit, push_text-panics_iff, search_from, find_match-zero,
}

-- `push_text` for each fragment of a stream, up to the first panic.
unfoldable pub feed : StopState → List Bytes → Option StopState
feed s [] = some s
feed s (f ∷ fs) = do (t, hit) ← push_text s f; feed t fs

abbrev pub pushed : StopState → Bytes → StopState
pushed s f = record s {
  text = s.text ++ f;
  matched = first_hit s.stop_strings (s.text ++ f);
  stopped = is_some (first_hit s.stop_strings (s.text ++ f));
}

push_text-cases :
    (s t : StopState) (f : Bytes) (hit : Option StopHit)
    → Inv s
    → push_text s f ≡ some (t, hit)
    → (s ≡ t) ⊎ ((s.stopped ≡ false) × (pushed s f ≡ t))
push_text-cases s t [] hit v e = inl (unfold push_text in ground arith)
push_text-cases s t (c ∷ f) hit v e = elim (Bool-cases s.stopped) [
  | inl done ↦ inl (unfold push_text in ground arith)
  | inr go ↦ elim (Bool-cases (is_char_boundary (s.text ++ c ∷ f) (search_from s))) [
    | inl b ↦ inr (go, ground (arith, push_text-first_hit s (c ∷ f) v go (λ x. cc) b))
    | inr b ↦ absurd (ground (arith, (push_text-panics_iff s (c ∷ f)).1 (go, (λ x. cc), b)))
  ]
]

pushed-Inv : (s : StopState) (f : Bytes) → Inv s → Inv (pushed s f)
unfolding is_some
pushed-Inv s f v = record { short = v.short; found = refl; halted = λ h. ground arith }

-- `push_text` keeps the invariant, if it returns: the longest stop string is known, a match that is
-- recorded is the first one of the text so far, and none is missed.
pub push_text-Inv :
    (s t : StopState) (f : Bytes) (hit : Option StopHit)
    → Inv s
    → push_text s f ≡ some (t, hit)
    → Inv t
push_text-Inv s t f hit v e = elim (push_text-cases s t f hit v e) [
  | inl same ↦ subst Inv same v
  | inr (_, grown) ↦ subst Inv grown (pushed-Inv s f v)
]

pub check_token-Inv : (s : StopState) (id : ℕ) → Inv s → Inv (check_token s id).0
unfolding check_token
check_token-Inv s id v = record {
  short = ground (arith, v.short);
  found = ground (arith, v.found);
  halted = ground (arith, v.halted);
}

pub feed-Inv : (s t : StopState) (fs : List Bytes) → Inv s → feed s fs ≡ some t → Inv t
unfolding feed
feed-Inv s t [] v e = subst Inv (ground arith) v
feed-Inv s t (f ∷ fs) v e =
    let ((u, hit), step, later) = >>=-eq-some (push_text s f) _ e in
    feed-Inv u t fs (push_text-Inv s u f hit v step) later

-- The length of text that a client has seen when the generation is over.
unfoldable pub visible_end : List Bytes → Bytes → ℕ
visible_end ps text = elim (first_hit ps text) [ some start ↦ start | none ↦ length text ]

-- In a state that keeps the invariant `finish` never panics; it gives the place of the first stop string, or the whole length when none
-- occurs, and its second search never finds what the pushes missed, so the state is as it was.
pub finish-visible_end :
    (s : StopState) → Inv s → finish s ≡ some (s, visible_end s.stop_strings s.text)
unfolding finish visible_end close
finish-visible_end s v = ground (arith, find_match-zero s, v.found)

floor_char_boundary-le : (text : Bytes) (i : ℕ) → floor_char_boundary text i ≤ i
unfolding floor_char_boundary
floor_char_boundary-le text zero = omega arith
floor_char_boundary-le text (suc i) = ground (arith, floor_char_boundary-le text i)

-- `t` is `s` with more text.
pub record Extends (s t : StopState) : Type 0 where
  pub rest : Bytes
  pub text_is : t.text ≡ s.text ++ rest
  pub same_strings : t.stop_strings ≡ s.stop_strings
  pub same_len : t.max_pattern_len ≡ s.max_pattern_len
  pub frozen : s.stopped ≡ true → s ≡ t

pub Extends-refl : (s : StopState) → Extends s s
Extends-refl s = record {
  rest = [];
  text_is = sym (append-nil s.text);
  same_strings = refl;
  same_len = refl;
  frozen = λ _. refl;
}

pub Extends-trans : {s t u : StopState} → Extends s t → Extends t u → Extends s u
Extends-trans {s} {t} {u} a b = record {
  rest = a.rest ++ b.rest;
  text_is = b.text_is ∙ ap (λ x. x ++ b.rest) a.text_is ∙ append_assoc s.text a.rest b.rest;
  same_strings = b.same_strings ∙ a.same_strings;
  same_len = b.same_len ∙ a.same_len;
  frozen = λ h. a.frozen h ∙ b.frozen (subst (λ x. x.stopped ≡ true) (a.frozen h) h);
}

pub push_text-Extends :
    (s t : StopState) (f : Bytes) (hit : Option StopHit)
    → Inv s
    → push_text s f ≡ some (t, hit)
    → Extends s t
push_text-Extends s t f hit v e = elim (push_text-cases s t f hit v e) [
  | inl same ↦ subst (Extends s) same (Extends-refl s)
  | inr (go, grown) ↦
      subst (Extends s) grown (record {
        rest = f;
        text_is = refl;
        same_strings = refl;
        same_len = refl;
        frozen = λ h. cc;
      })
]

feed-Extends : (s t : StopState) (fs : List Bytes) → Inv s → feed s fs ≡ some t → Extends s t
unfolding feed
feed-Extends s t [] v e = subst (Extends s) (ground arith) (Extends-refl s)
feed-Extends s t (f ∷ fs) v e =
    let ((u, hit), step, later) = >>=-eq-some (push_text s f) _ e in
    Extends-trans (push_text-Extends s u f hit v step)
      (feed-Extends u t fs (push_text-Inv s u f hit v step) later)

safe_len-le :
    (s : StopState) → s.matched ≡ none → safe_len s ≤ length s.text - (s.max_pattern_len - 1)
unfolding safe_len
safe_len-le s m = rw (m, safe_len) (floor_char_boundary-le s.text _)

safe_len-live :
    (s t : StopState)
    → Inv s
    → Extends s t
    → s.matched ≡ none
    → safe_len s ≤ visible_end t.stop_strings t.text
unfolding visible_end
safe_len-live s t v x m =
    rw (x.same_strings, x.text_is)
      (elim (Option-cases (first_hit s.stop_strings (s.text ++ x.rest))) [
        | inl nothing ↦ ground (arith, safe_len-le s m, length-append s.text x.rest)
        | inr (i, hit) ↦ ground (
          arith,
          safe_len-le s m,
          first_hit-late s.stop_strings s.max_pattern_len s.text x.rest i v.short (sym v.found ∙ m)
              hit,
        )
      ])

safe_len-matched :
    (s : StopState) (i : ℕ)
    → Inv s
    → s.matched ≡ some i
    → safe_len s ≤ visible_end s.stop_strings s.text
unfolding safe_len visible_end
safe_len-matched s i v m = ground (arith, v.found)

stopped_of_matched : (s : StopState) (i : ℕ) → Inv s → s.matched ≡ some i → s.stopped ≡ true
stopped_of_matched s i v m = elim (Bool-cases s.stopped) [
  | inl h ↦ h
  | inr h ↦ absurd (ground (arith, v.halted h))
]

pub check_token-Extends : (s : StopState) (id : ℕ) → Extends s (check_token s id).0
unfolding check_token
check_token-Extends s id = record {
  rest = [];
  text_is = ground (arith, append-nil s.text);
  same_strings = ground arith;
  same_len = ground arith;
  frozen = λ h. ground (arith, h);
}

pub visible_end-le : (ps : List Bytes) (text : Bytes) → visible_end ps text ≤ length text
unfolding visible_end
visible_end-le ps text = elim (Option-cases (first_hit ps text)) [
  | inl nothing ↦ rw (nothing, visible_end) (omega arith)
  | inr (i, hit) ↦ rw (hit, visible_end) (first_hit-le ps text i hit)
]

pub safe_len-visible_end :
    (s t : StopState) → Inv s → Extends s t → safe_len s ≤ visible_end t.stop_strings t.text
safe_len-visible_end s t v x = elim (Option-cases s.matched) [
  | inl m ↦ safe_len-live s t v x m
  | inr (i, m) ↦
      subst (λ u. safe_len s ≤ visible_end u.stop_strings u.text)
        (x.frozen (stopped_of_matched s i v m)) (safe_len-matched s i v m)
]

safe_len-le-length : (s : StopState) → Inv s → safe_len s ≤ length s.text
unfolding safe_len
safe_len-le-length s v = ground (
  arith,
  v.found,
  floor_char_boundary-le s.text (length s.text - (s.max_pattern_len - 1)),
  first_hit-le s.stop_strings s.text (safe_len s),
)

pub finish-parts :
    (t u : StopState) (n : ℕ)
    → Inv t
    → finish t ≡ some (u, n)
    → (t ≡ u) × (visible_end t.stop_strings t.text ≡ n)
finish-parts t u n v d =
    (ground (arith, finish-visible_end t v), ground (arith, finish-visible_end t v))

-- Nothing that streaming has released is taken back: at the end of the generation, whatever fragments
-- came in between, the visible text is at least as long as `safe_len` was, and it begins with the
-- same bytes. The state keeps the invariant at first, and no fragment panics.
pub safe_len-released :
    (s t u : StopState) (fs : List Bytes) (n : ℕ)
    → Inv s
    → feed s fs ≡ some t
    → finish t ≡ some (u, n)
    → (safe_len s ≤ n) × (take (safe_len s) (take n u.text) ≡ take (safe_len s) s.text)
safe_len-released s t u fs n v e d =
    let x = feed-Extends s t fs v e in
    let (same, end) = finish-parts t u n (feed-Inv s t fs v e) d in
    let bound : safe_len s ≤ n = subst (λ k. safe_len s ≤ k) end (safe_len-visible_end s t v x) in
    (
      bound,
      take-take (safe_len s) n u.text bound
          ∙ ap (λ w. take (safe_len s) w.text) (sym same)
          ∙ ap (take (safe_len s)) x.text_is
          ∙ take-append (safe_len s) s.text x.rest (safe_len-le-length s v),
    )
