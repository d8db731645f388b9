-- ===== src/Mock/Tests.antt =====
-- The mock at a small script.
use mini_cpm5_5080fast.Base.{[], ◌∷◌, ◌≡◌, refl, some}
use mini_cpm5_5080fast.Mock.{MockSession, prefill, reset, no_calls, mock_eos}
use mini_cpm5_5080fast.Mock.Replay.{decode_all, padded, reset-replays}

-- In the middle of its script.
abbrev halfway : MockSession
halfway = record { script = some (7 ∷ 8 ∷ []); pos = 1; lcg = 5; prompt_len = 2; generated = 1 }

reset-replays_example :
    let o = reset no_calls halfway in
    let p = prefill o.0 o.1 (3 ∷ []) in decode_all 3 p.0 p.1 ≡ 7 ∷ 8 ∷ mock_eos ∷ []
unfolding padded
reset-replays_example = reset-replays 3 no_calls halfway (3 ∷ []) (7 ∷ 8 ∷ []) refl
