-- ===== src/Stop/Tests.antt =====
-- Runs of the stop conditions on the inputs of the crate's own tests, and the laws at concrete states.
use mini_cpm5_5080fast.Base.{◌≤◌, ◌≡◌, refl, true, false, none, some, [], ◌∷◌, take, is_some}
use mini_cpm5_5080fast.Bytes.{is_char_boundary, slice_from, starts_with, find, floor_char_boundary}
use mini_cpm5_5080fast.Bytes.Text.{codes}
use mini_cpm5_5080fast.Bytes.Search.{first_hit, any_starts}
use mini_cpm5_5080fast.Stop.{
  StopState, string, token, new, longest, check_token, find_match, push_text, safe_len, finish,
}
use mini_cpm5_5080fast.Stop.Window.{Inv, new-Inv, push_text-first_hit, push_text-panics_iff}
use mini_cpm5_5080fast.Stop.Stream.{
  feed, push_text-Inv, feed-Inv, finish-visible_end, visible_end, safe_len-released,
}

abbrev answer : StopState
answer = record {
  stop_token_ids = 1 ∷ 130073 ∷ [];
  stop_strings = codes "</answer>" ∷ codes "STOP" ∷ [];
  max_pattern_len = 9;
  text = codes "the answer is </ans";
  matched = none;
  stopped = false;
}

answer-feed :
    feed
      (new (1 ∷ 130073 ∷ []) (codes "</answer>" ∷ codes "STOP" ∷ []))
      (codes "the answer" ∷ codes " is </ans" ∷ [])
    ≡ some answer
unfolding feed push_text new longest find_match slice_from is_char_boundary find starts_with
answer-feed = refl

answer-Inv : Inv answer
answer-Inv =
    feed-Inv (new (1 ∷ 130073 ∷ []) (codes "</answer>" ∷ codes "STOP" ∷ [])) answer
      (codes "the answer" ∷ codes " is </ans" ∷ []) (new-Inv _ _ ((λ e. cc), ((λ e. cc), tt)))
      answer-feed

-- 8 of 19 bytes are withheld
answer-safe_len : safe_len answer ≡ 11
unfolding safe_len floor_char_boundary is_char_boundary
answer-safe_len = refl

abbrev answered : StopState
answered = record answer {
  text = codes "the answer is </answer> done";
  matched = some 14;
  stopped = true;
}

answered-feed : feed answer (codes "wer> done" ∷ []) ≡ some answered
unfolding feed push_text find_match slice_from is_char_boundary find starts_with
answered-feed = refl

answered-finish : finish answered ≡ some (answered, 14)
unfolding finish
answered-finish = refl

push_text-first_hit_example :
    push_text answer (codes "wer> done") ≡ some (answered, some (string 14))
unfolding is_char_boundary first_hit any_starts starts_with is_some
push_text-first_hit_example =
    push_text-first_hit answer (codes "wer> done") answer-Inv refl (λ e. cc) refl

push_text-Inv_example : Inv answered
unfolding push_text find_match slice_from is_char_boundary find starts_with
push_text-Inv_example =
    push_text-Inv answer answered (codes "wer> done") (some (string 14)) answer-Inv refl

finish-visible_end_example :
    finish answer ≡ some (answer, visible_end answer.stop_strings answer.text)
finish-visible_end_example = finish-visible_end answer answer-Inv

safe_len-released_example :
    (safe_len answer ≤ 14)
    × (take (safe_len answer) (take 14 answered.text) ≡ take (safe_len answer) answer.text)
safe_len-released_example =
    safe_len-released answer answered answered (codes "wer> done" ∷ []) 14 answer-Inv answered-feed
      answered-finish

-- The stop string "ab" and one Chinese character (three bytes): the next fragment panics.
abbrev chinese : StopState
chinese = record {
  stop_token_ids = [];
  stop_strings = codes "ab" ∷ [];
  max_pattern_len = 2;
  text = 0xE4 ∷ 0xBD ∷ 0xA0 ∷ [];
  matched = none;
  stopped = false;
}

chinese-feed : feed (new [] (codes "ab" ∷ [])) ((0xE4 ∷ 0xBD ∷ 0xA0 ∷ []) ∷ []) ≡ some chinese
unfolding feed push_text new longest find_match slice_from is_char_boundary find starts_with
chinese-feed = refl

push_text-panics_iff_example : push_text chinese (codes "x") ≡ none
unfolding is_char_boundary
push_text-panics_iff_example = (push_text-panics_iff chinese (codes "x")).1 (refl, (λ e. cc), refl)

check_token-stops :
    check_token answer 130073 ≡ (record answer { stopped = true }, some (token 130073))
unfolding check_token
check_token-stops = refl
