-- ===== src/StreamDecode/Book.antt =====
-- What every call of the detokenizer keeps, whatever the decode callback answers.
use mini_cpm5_5080fast.Base.{ℕ, ◌+◌, ◌≤◌, ◌≡◌, refl, Option, none, some, arith, length-snoc}
use mini_cpm5_5080fast.Bytes.{Bytes}
use mini_cpm5_5080fast.StreamDecode.{
  StreamDecoder, DecodeFn, take_delta, sync_emission, emit, push, token_count,
}

emit-keeps :
    (d : StreamDecoder) (end : ℕ) (o : Option Bytes)
    → d.emitted ≤ end
    → ((emit d end o).0.ids ≡ d.ids) × (d.emitted ≤ (emit d end o).0.emitted)
unfolding emit
emit-keeps d end none h = (refl, omega arith)
emit-keeps d end (some delta) h = (refl, h)

take_delta-keeps :
    (d : StreamDecoder) (t : Bytes)
    → ((take_delta d t).0.ids ≡ d.ids) × (d.emitted ≤ (take_delta d t).0.emitted)
unfolding take_delta
take_delta-keeps d t = grind (arith, emit-keeps)

-- Every `push` counts its token, also when the callback fails or a slice panics, and never takes back
-- bytes that were handed out.
pub push-keeps :
    (decode : DecodeFn) (d : StreamDecoder) (id : ℕ)
    → (token_count (push decode d id).0 ≡ token_count d + 1)
      × (d.emitted ≤ (push decode d id).0.emitted)
unfolding push token_count sync_emission
push-keeps decode d id = grind (arith, take_delta-keeps, length-snoc {0})
