-- ===== src/Stop/Texts.antt =====
-- What the stop detector does with its text, in any state.
use mini_cpm5_5080fast.Base.{
  ℕ, ◌≡◌, refl, sym, ap, ◌∙◌, true, false, Option, none, some, [], ◌∷◌, ◌++◌, >>=-eq-some,
  Bool-cases, Option-cases, inl, inr, ◌⊎◌, append-nil, length, ◌-◌, subst,
}
use mathlib.Core.Option.{some-injective}
use mini_cpm5_5080fast.Bytes.{Bytes}
use mini_cpm5_5080fast.Stop.Window.{Inv}
use mini_cpm5_5080fast.Stop.{
  StopState, StopHit, push_text, record_match, is_empty, find_match, close, finish, check_token,
  contains,
}

record_match-text : (s : StopState) (found : Option ℕ) → (record_match s found).0.text ≡ s.text
unfolding record_match
record_match-text s none = refl
record_match-text s (some start) = refl

close-text :
    (s : StopState) (found : Option ℕ)
    → ((close s found).0.text ≡ s.text) × (s.stopped ≡ true → (close s found).0.stopped ≡ true)
unfolding close
close-text s none = (refl, λ h. h)
close-text s (some start) = (refl, λ h. refl)

-- Once stopped, a text is ignored; until then it is appended.
pub push_text-text :
    (s t : StopState) (f : Bytes) (hit : Option StopHit)
    → push_text s f ≡ some (t, hit)
    → ((s.stopped ≡ true) × (t.stopped ≡ true) × (t.text ≡ s.text))
      ⊎ ((s.stopped ≡ false) × (t.text ≡ s.text ++ f))
unfolding push_text is_empty
push_text-text s t [] hit e = elim (Bool-cases s.stopped) [
  | inl h ↦
      let same = sym (ap (λ x. x.0) (some-injective _ _ (rw h at e))) in
      inl (h, ap (λ x. x.stopped) same, ap (λ x. x.text) same)
  | inr h ↦
      inr (h, sym (ap (λ x. x.0.text) (some-injective _ _ (rw h at e))) ∙ sym (append-nil s.text))
]
push_text-text s t (b ∷ bs) hit e = elim (Bool-cases s.stopped) [
  | inl h ↦
      let same = sym (ap (λ x. x.0) (some-injective _ _ (rw h at e))) in
      inl (h, ap (λ x. x.stopped) same, ap (λ x. x.text) same)
  | inr h ↦
      let grown = record s { text = s.text ++ b ∷ bs; stopped = false } in
      let (found, e₁, done) =
        >>=-eq-some (find_match grown (length s.text - s.max_pattern_len)) _ (rw h at e) in
      inr (h, sym (ap (λ x. x.0.text) (some-injective _ _ done)) ∙ record_match-text grown found)
]

pub finish-text :
    (s t : StopState) (end : ℕ)
    → finish s ≡ some (t, end)
    → (t.text ≡ s.text) × (s.stopped ≡ true → t.stopped ≡ true)
unfolding finish
finish-text s t end e = elim (Option-cases s.matched) [
  | inr (start, m) ↦
      let same = ap (λ x. x.0) (some-injective _ _ (rw m at e)) in
      (ap (λ x. x.text) (sym same), λ h. ap (λ x. x.stopped) (sym same) ∙ h)
  | inl m ↦
      let (found, e₁, done) =
        >>=-eq-some (find_match (record s { matched = none }) 0) _ (rw m at e) in
      let same = ap (λ x. x.0) (some-injective _ _ done) in
      let (k, l) = close-text (record s { matched = none }) found in
      (ap (λ x. x.text) (sym same) ∙ k, λ h. ap (λ x. x.stopped) (sym same) ∙ l h)
]

-- A token either passes, or it ends the generation; a state that was not stopped ends at a stop token only.
pub check_token-text :
    (s : StopState) (id : ℕ)
    → let o = check_token s id in
      (o.0.text ≡ s.text)
      × (o.0.stop_token_ids ≡ s.stop_token_ids)
      × (((o.1 ≡ none) × (o.0.stopped ≡ false))
          ⊎ ((h : StopHit) × (o.1 ≡ some h)
              × (o.0.stopped ≡ true)
              × (s.stopped ≡ false → contains s.stop_token_ids id ≡ true)))
unfolding check_token
check_token-text s id = elim (Bool-cases s.stopped) [
  | inl h ↦ rw h (refl, refl, inr (StopHit.token id, refl, refl, λ n. absurd cc))
  | inr h ↦ elim (Bool-cases (contains s.stop_token_ids id)) [
    | inl c ↦ rw (h, c) (refl, refl, inr (StopHit.token id, refl, refl, λ n. refl))
    | inr c ↦ rw (h, c) (refl, refl, inl (refl, refl))
  ]
]

-- what a push onto a state that is not stopped finds
abbrev pub Found : StopState → Option StopHit → Type 0
Found t none = t.stopped ≡ false
Found t (some h) = (t.stopped ≡ true) × ((i : ℕ) × (t.matched ≡ some i))

record_match-Found :
    (s : StopState) (found : Option ℕ)
    → s.stopped ≡ false
    → Found (record_match s found).0 (record_match s found).1
unfolding record_match
record_match-Found s none n = n
record_match-Found s (some start) n = (refl, (start, refl))

record_match-ids :
    (s : StopState) (found : Option ℕ) → (record_match s found).0.stop_token_ids ≡ s.stop_token_ids
unfolding record_match
record_match-ids s none = refl
record_match-ids s (some start) = refl

unstopped-Found :
    (s t : StopState) (f : Bytes) (hit : Option StopHit)
    → s.stopped ≡ false
    → s.matched ≡ none
    → push_text s f ≡ some (t, hit)
    → Found t hit × (t.stop_token_ids ≡ s.stop_token_ids)
unfolding push_text is_empty
unstopped-Found s t [] hit n m e =
    subst (λ x. Found x.0 x.1 × (x.0.stop_token_ids ≡ s.stop_token_ids))
      (some-injective _ _ (rw (n, m) at e)) (refl, refl)
unstopped-Found s t (b ∷ bs) hit n m e =
    let grown = record s { text = s.text ++ b ∷ bs; stopped = false } in
    let (found, e₁, done) =
      >>=-eq-some (find_match grown (length s.text - s.max_pattern_len)) _ (rw n at e) in
    subst (λ x. Found x.0 x.1 × (x.0.stop_token_ids ≡ s.stop_token_ids)) (some-injective _ _ done)
      (record_match-Found grown found refl, record_match-ids grown found)

-- What a push finds, in a state that keeps the invariant and is not stopped: without a hit it goes on, and a
-- hit is a match that stops it.
pub push_text-Found :
    (s t : StopState) (f : Bytes) (hit : Option StopHit)
    → Inv s
    → s.stopped ≡ false
    → push_text s f ≡ some (t, hit)
    → Found t hit × (t.stop_token_ids ≡ s.stop_token_ids)
push_text-Found s t f hit v n e = unstopped-Found s t f hit n (v.halted n) e
