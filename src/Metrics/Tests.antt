-- ===== src/Metrics/Tests.antt =====
-- The crate's tests of the registry, and its laws at concrete samples.
use Prim.Native.Nat.{ℕ}
use mini_cpm5_5080fast.Base.{◌∷◌, [], ◌≡◌, length, arith}
use mini_cpm5_5080fast.Bytes.Text.{codes}
use mini_cpm5_5080fast.Metrics.{no_samples, fresh, RecentReq, snapshot}
use mini_cpm5_5080fast.Metrics.Laws.{push_all, push_all-newest, newest, observe_all, snapshot-exact}

abbrev request : ℕ → RecentReq
request i = record {
  ttft_us = i;
  tpot_us = 0;
  prompt_tokens = 1;
  completion_tokens = 1;
  finish_reason = codes "stop";
  ts_ms = i;
}

push_all-newest_example :
    let ring = (push_all fresh (request 0 ∷ request 1 ∷ [])).recent_requests in
    (ring ≡ newest (request 0 ∷ request 1 ∷ [])) × (length ring ≡ 2)
push_all-newest_example = push_all-newest fresh (request 0) (request 1 ∷ [])

snapshot-exact_example :
    snapshot (observe_all no_samples (100_000 ∷ 300_000 ∷ []))
    ≡ record { count = 2; sum = 400; max = 300; mean = 200 }
snapshot-exact_example = snapshot-exact (100_000 ∷ 300_000 ∷ []) (omega arith) (omega arith)
