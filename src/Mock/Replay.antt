-- ===== src/Mock/Replay.antt =====
-- A session of the mock replays its script, also after a reset, and the generator stays in its range.
use mini_cpm5_5080fast.Base.{
  ℕ, zero, suc, ◌+◌, ◌≡◌, refl, ap, ◌∙◌, none, some, List, [], ◌∷◌, get_elem?, drop, arith,
  Option-cases, inl, inr,
}
use mini_cpm5_5080fast.Mock.{
  mock_eos, MockStats, MockSession, prefill, from_script, next_token, decode_one, reset,
}

-- The tokens of `n` calls of `decode_one`.
unfoldable pub decode_all : ℕ → MockStats → MockSession → List ℕ
decode_all zero st s = []
decode_all (suc n) st s = let (token, st', s') = decode_one st s in token ∷ decode_all n st' s'

-- The first `n` tokens of a text that is followed by eos ids without end.
unfoldable pub padded : ℕ → List ℕ → List ℕ
padded zero ts = []
padded (suc n) [] = mock_eos ∷ padded n []
padded (suc n) (t ∷ ts) = t ∷ padded n ts

drop-get_elem? :
    (i : ℕ) (ts : List ℕ) (t : ℕ) → get_elem? ts i ≡ some t → drop i ts ≡ t ∷ drop (suc i) ts
drop-get_elem? i [] t e = cc
drop-get_elem? zero (x ∷ ts) t e = ground (arith, e)
drop-get_elem? (suc i) (x ∷ ts) t e = drop-get_elem? i ts t e

drop-past : (i : ℕ) (ts : List ℕ) → get_elem? ts i ≡ none → drop i ts ≡ []
drop-past zero [] e = refl
drop-past (suc i) [] e = refl
drop-past zero (x ∷ ts) e = cc
drop-past (suc i) (x ∷ ts) e = drop-past i ts e

pos_suc : (i : ℕ) → suc i ≡ i + 1
pos_suc i = omega arith

decode_all-padded :
    (n : ℕ) (st : MockStats) (s : MockSession) (ts : List ℕ)
    → s.script ≡ some ts
    → decode_all n st s ≡ padded n (drop s.pos ts)
unfolding decode_all decode_one next_token from_script padded
decode_all-padded zero st s ts e = refl
decode_all-padded (suc n) st s ts e =
    let st' = record st { decode_calls = st.decode_calls + 1 } in
    elim (Option-cases (get_elem? ts s.pos)) [
      | inl q ↦
          let s' = record s { script = some ts; generated = s.generated + 1 } in
          let past = drop-past s.pos ts q in
          rw (e, q, past)
            (ap (◌∷◌ mock_eos) (decode_all-padded n st' s' ts refl ∙ ap (padded n) past))
      | inr (t, q) ↦
          let s' = record s { script = some ts; generated = s.generated + 1; pos = s.pos + 1 } in
          rw (e, q, drop-get_elem? s.pos ts t q, pos_suc s.pos)
            (ap (◌∷◌ t) (decode_all-padded n st' s' ts refl))
    ]

-- A session that is reset and given a prompt, whatever was done with it before, replays its whole script
-- from the start and then gives the eos id for ever: after each reset the same tokens.
pub reset-replays :
    (n : ℕ) (st : MockStats) (s : MockSession) (ids ts : List ℕ)
    → s.script ≡ some ts
    → let o = reset st s in let p = prefill o.0 o.1 ids in decode_all n p.0 p.1 ≡ padded n ts
unfolding reset prefill
reset-replays n st s ids ts e =
    let o = reset st s in let p = prefill o.0 o.1 ids in decode_all-padded n p.0 p.1 ts e
