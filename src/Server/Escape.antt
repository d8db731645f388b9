-- ===== src/Server/Escape.antt =====
-- What `escape_json_fragment` gives when JSON text is escaped byte by byte between two quotes.
use mini_cpm5_5080fast.Base.{
  ℕ, ◌≡◌, ◌≢◌, refl, sym, ap, ◌∙◌, true, [], ◌∷◌, ◌++◌, Option, some, Bool-cases, inl, inr, ◌==◌,
  ==_iff, arith, append_assoc, append-nil, if◌then◌else◌,
}
use mini_cpm5_5080fast.Bytes.{Bytes}
use mini_cpm5_5080fast.ToolCall.{nonempty}
use mini_cpm5_5080fast.Server.ArgStream.{
  quote, trim_start, trim_end, json_text, escape_json_fragment,
}

-- every byte, escaped
unfoldable pub escaped : (ℕ → Bytes) → Bytes → Bytes
escaped esc [] = []
escaped esc (b ∷ s) = esc b ++ escaped esc s

-- no quote in a text
unfoldable pub Unquoted : Bytes → Type 0
Unquoted [] = Unit
Unquoted (b ∷ s) = (b ≢ 34) × Unquoted s

-- What JSON says of the text of a string: its bytes, each escaped, between quotes; the escape of a
-- quote is `\"`, and no other has a quote in it.
pub record JsonText (to_json : Bytes → Option Bytes) (esc : ℕ → Bytes) : Type 0 where
  pub quoted : (s : Bytes) → to_json s ≡ some (34 ∷ escaped esc s ++ quote)
  pub quote_is : esc 34 ≡ 92 ∷ 34 ∷ []
  pub some_text : (b : ℕ) → b ≢ 34 → nonempty (esc b) ≡ true
  pub no_quote : (b : ℕ) → b ≢ 34 → Unquoted (esc b)

-- the quote that stands at the end of a text
unfoldable pub last_quote : Bytes → Bytes
last_quote [] = []
last_quote (b ∷ []) = if b == 34 then quote else []
last_quote (b ∷ c ∷ s) = last_quote (c ∷ s)

trim_end-keep :
    (s t : Bytes)
    → nonempty (trim_end t) ≡ true
    → trim_end (s ++ t) ≡ s ++ trim_end t × nonempty (trim_end (s ++ t)) ≡ true
unfolding trim_end
trim_end-keep [] t h = (refl, h)
trim_end-keep (b ∷ s) t h = let k = trim_end-keep s t h in rw k.1 (ap (◌∷◌ b) k.0, refl)

trim_end-Unquoted : (s : Bytes) → Unquoted s → trim_end (s ++ quote) ≡ s
unfolding trim_end Unquoted
trim_end-Unquoted [] u = refl
trim_end-Unquoted (b ∷ s) u = grind (arith, trim_end-Unquoted s u.1)

module _ {to_json : Bytes → Option Bytes} {esc : ℕ → Bytes} (j : JsonText to_json esc) where
  trim_end-one :
      (b : ℕ)
      → trim_end (esc b ++ quote) ++ last_quote (b ∷ []) ≡ esc b
        × nonempty (trim_end (esc b ++ quote)) ≡ true
  unfolding last_quote
  trim_end-one b = elim (Bool-cases (b == 34)) [
    | inl e ↦ let is = (==_iff b 34).0 e in rw (is, j.quote_is) (unfold trim_end in (refl, refl))
    | inr e ↦
        let is_not : b ≢ 34 = λ z. ground (arith, e, z) in
        let k = trim_end-Unquoted (esc b) (j.no_quote b is_not) in
        rw (e, k) (append-nil (esc b), j.some_text b is_not)
  ]

  trim_end-escaped :
      (b : ℕ) (s : Bytes)
      → trim_end (escaped esc (b ∷ s) ++ quote) ++ last_quote (b ∷ s) ≡ escaped esc (b ∷ s)
        × nonempty (trim_end (escaped esc (b ∷ s) ++ quote)) ≡ true
  unfolding escaped last_quote
  trim_end-escaped b [] = rw append-nil (trim_end-one b)
  trim_end-escaped b (c ∷ s) =
      let k = trim_end-escaped c s in
      let l = trim_end-keep (esc b) (escaped esc (c ∷ s) ++ quote) k.1 in
      rw append_assoc (
        ap (λ x. x ++ last_quote (c ∷ s)) l.0
            ∙ append_assoc (esc b) (trim_end (escaped esc (c ∷ s) ++ quote)) (last_quote (c ∷ s))
            ∙ ap (λ x. esc b ++ x) k.0,
        l.1,
      )

  trim_end-all : (s : Bytes) → trim_end (escaped esc s ++ quote) ++ last_quote s ≡ escaped esc s
  trim_end-all [] = unfold trim_end last_quote escaped in refl
  trim_end-all (b ∷ s) = (trim_end-escaped b s).0

  trim_start-Unquoted :
      (s t : Bytes) → nonempty s ≡ true → Unquoted s → trim_start (s ++ t) ≡ s ++ t
  unfolding trim_start Unquoted
  trim_start-Unquoted [] t n u = cc
  trim_start-Unquoted (b ∷ s) t n u = ground (arith, u.0)

  trim_start-one : (b : ℕ) (t : Bytes) → trim_start (esc b ++ t) ≡ esc b ++ t
  trim_start-one b t = elim (Bool-cases (b == 34)) [
    | inl e ↦ rw ((==_iff b 34).0 e, j.quote_is) (unfold trim_start in refl)
    | inr e ↦
        let is_not : b ≢ 34 = λ z. ground (arith, e, z) in
        trim_start-Unquoted (esc b) t (j.some_text b is_not) (j.no_quote b is_not)
  ]

  pub json_text-quoted : (s : Bytes) → json_text to_json s ≡ 34 ∷ escaped esc s ++ quote
  unfolding json_text
  json_text-quoted s = ground (arith, j.quoted s)

  trim_start-escaped :
      (s : Bytes)
      → trim_end (trim_start (34 ∷ escaped esc s ++ quote)) ≡ trim_end (escaped esc s ++ quote)
  unfolding trim_start escaped
  trim_start-escaped [] = unfold trim_end in refl
  trim_start-escaped (b ∷ s) =
      ap trim_end (rw append_assoc (trim_start-one b (escaped esc s ++ quote)))

  -- JSON text being escaped byte by byte, a fragment is escaped exactly, except that of a fragment that
  -- ends in a quote the escaped quote loses its `"` and leaves its backslash at the end.
  pub escape_json_fragment-last_quote :
      (s : Bytes) → escape_json_fragment to_json s ++ last_quote s ≡ escaped esc s
  unfolding escape_json_fragment
  escape_json_fragment-last_quote s =
      ap (λ x. trim_end (trim_start x) ++ last_quote s) (json_text-quoted s)
      ∙ ap (λ x. x ++ last_quote s) (trim_start-escaped s)
      ∙ trim_end-all s

  -- A fragment that does not end in a quote.
  pub escape_json_fragment-exact :
      (s : Bytes) → last_quote s ≡ [] → escape_json_fragment to_json s ≡ escaped esc s
  escape_json_fragment-exact s e =
      sym (append-nil (escape_json_fragment to_json s))
      ∙ ap (λ x. escape_json_fragment to_json s ++ x) (sym e)
      ∙ escape_json_fragment-last_quote s

  pub escaped-append : (s t : Bytes) → escaped esc (s ++ t) ≡ escaped esc s ++ escaped esc t
  unfolding escaped
  escaped-append [] t = refl
  escaped-append (b ∷ s) t = rw (append_assoc, escaped-append s t) refl
