-- ===== src/Metrics/Laws.antt =====
-- The ring of recent requests keeps the newest entries; the running timings describe the samples.
use mini_cpm5_5080fast.Base.{
  ℕ, zero, suc, ◌+◌, ◌-◌, ◌/◌, ◌<◌, ◌≡◌, refl, ap, ◌∙◌, List, [], ◌∷◌, ◌++◌, max, min, length, drop,
  arith, length-append, length-drop, drop-append-drop, append_assoc,
}
use mini_cpm5_5080fast.Words.{u64_mod}
use mini_cpm5_5080fast.Metrics.{
  MetricsRegistry, RecentReq, TimingStats, recent_requests_cap, trim, push_recent, observe,
  snapshot, as_micros,
}

-- The newest entries of a history, as many as the ring holds.
abbrev pub newest : List RecentReq → List RecentReq
newest q = drop (length q - recent_requests_cap) q

drop-suc : (n : ℕ) (r : RecentReq) (q : List RecentReq) → 0 < n → drop n (r ∷ q) ≡ drop (n - 1) q
drop-suc zero r q h = absurd (omega arith)
drop-suc (suc n) r q h = ap (λ k. drop k q) (omega arith)

trim-newest : (q : List RecentReq) → trim q ≡ newest q
unfolding trim
trim-newest [] = refl
trim-newest (r ∷ q) = ground (
  arith,
  trim-newest q,
  drop-suc (suc (length q) - recent_requests_cap) r q,
  ap (λ k. drop k q) {x = suc (length q) - 64 - 1} {y = length q - 64} (omega arith),
  ap (λ k. drop k (r ∷ q)) {x = suc (length q) - 64} {y = 0},
)

-- `push_recent` for each finished request in turn.
unfoldable pub push_all : MetricsRegistry → List RecentReq → MetricsRegistry
push_all m [] = m
push_all m (r ∷ rs) = push_all (push_recent m r) rs

newest-step :
    (q : List RecentReq) (r : RecentReq) (rs : List RecentReq)
    → newest (newest (q ++ r ∷ []) ++ rs) ≡ newest (q ++ r ∷ rs)
newest-step q r rs =
    let all = q ++ r ∷ [] in
    let k = length all - recent_requests_cap in
    drop-append-drop k (length (newest all ++ rs) - recent_requests_cap)
      (length (q ++ r ∷ rs) - recent_requests_cap) all rs (omega arith)
      (omega (
        arith,
        length-append (newest all) rs,
        length-drop k all,
        length-append q (r ∷ []),
        length-append q (r ∷ rs),
      ))
    ∙ ap (drop (length (q ++ r ∷ rs) - recent_requests_cap)) (append_assoc q (r ∷ []) rs)

push_all-newest_of :
    (m : MetricsRegistry) (r : RecentReq) (rs : List RecentReq)
    → (push_all m (r ∷ rs)).recent_requests ≡ newest (m.recent_requests ++ r ∷ rs)
unfolding push_all push_recent
push_all-newest_of m r [] = trim-newest (m.recent_requests ++ r ∷ [])
push_all-newest_of m r (s ∷ rs) =
    push_all-newest_of (push_recent m r) s rs
    ∙ ap (λ q. newest (q ++ s ∷ rs)) (trim-newest (m.recent_requests ++ r ∷ []))
    ∙ newest-step m.recent_requests r (s ∷ rs)

-- After any number of finished requests the ring holds the newest 64 of the whole history, oldest
-- first, and never more.
pub push_all-newest :
    (m : MetricsRegistry) (r : RecentReq) (rs : List RecentReq)
    → let ring = (push_all m (r ∷ rs)).recent_requests in
      (ring ≡ newest (m.recent_requests ++ r ∷ rs))
      × (length ring ≡ min recent_requests_cap (length (m.recent_requests ++ r ∷ rs)))
push_all-newest m r rs =
    let q = m.recent_requests ++ r ∷ rs in
    let e = push_all-newest_of m r rs in
    (e, omega (arith, ap length e, length-drop (length q - recent_requests_cap) q))

-- all samples of one run, in order
unfoldable pub observe_all : TimingStats → List ℕ → TimingStats
observe_all t [] = t
observe_all t (d ∷ ds) = observe_all (observe t d) ds

abbrev pub total_us : List ℕ → ℕ
total_us [] = 0
total_us (d ∷ ds) = as_micros d + total_us ds

abbrev pub longest_us : List ℕ → ℕ
longest_us [] = 0
longest_us (d ∷ ds) = max (as_micros d) (longest_us ds)

observe_all-exact :
    (t : TimingStats) (ds : List ℕ)
    → t.count + length ds < u64_mod
    → t.sum_us + total_us ds < u64_mod
    → observe_all t ds ≡ record {
      count = t.count + length ds;
      sum_us = t.sum_us + total_us ds;
      max_us = max t.max_us (longest_us ds);
    }
unfolding observe_all observe
observe_all-exact t [] h k = ground arith
observe_all-exact t (d ∷ ds) h k =
    ground (arith, observe_all-exact (observe t d) ds (omega arith) (omega arith))

-- The snapshot of a run of samples, from a fresh registry and as long as neither the count nor the
-- sum reaches 2^64, has their number, their sum, their maximum, and the sum divided by the number,
-- which is 0 for no samples.
pub snapshot-exact :
    (ds : List ℕ)
    → length ds < u64_mod
    → total_us ds < u64_mod
    → snapshot (observe_all (record { count = 0; sum_us = 0; max_us = 0 }) ds) ≡ record {
      count = length ds;
      sum = total_us ds;
      max = longest_us ds;
      mean = total_us ds / length ds;
    }
unfolding snapshot
snapshot-exact ds h k =
    ground (arith, observe_all-exact (record { count = 0; sum_us = 0; max_us = 0 }) ds)
