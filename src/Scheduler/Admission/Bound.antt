-- ===== src/Scheduler/Admission/Bound.antt =====
-- The queue never holds more than its limit.
use mini_cpm5_5080fast.Base.{
  ℕ, ◌+◌, ◌^◌, ◌≤◌, ◌<◌, ◌≡◌, false, List, [], ◌∷◌, arith, Bool-cases, inl, inr, ==_iff, ◌==◌,
}
use mini_cpm5_5080fast.Scheduler.Admission.{
  Phase, outside, loaded, admitted, rejected, Gate, Action, act_load, act_exchange, act_unchecked,
  act_take, set_phase, is_full, load, exchange, take_job, act, run, opening,
}

-- A value that a thread has loaded and not yet exchanged passed the guard.
abbrev pub Passed : ℕ → Phase → Type 0
Passed limit outside = Unit {0}
Passed limit (loaded cur) = cur < limit
Passed limit admitted = Unit {0}
Passed limit rejected = Unit {0}

pub record Bounded (limit : ℕ) (g : Gate) : Type 0 where
  pub at_most : g.waiting ≤ limit
  pub balance : g.waiting + g.taken ≡ g.accepted
  pub passed : (i : ℕ) → Passed limit (g.phase i)

-- a run in which every submission is guarded
abbrev pub AllGuarded : List Action → Type 0
AllGuarded [] = Unit {0}
AllGuarded (act_load i ∷ rest) = AllGuarded rest
AllGuarded (act_exchange i ∷ rest) = AllGuarded rest
AllGuarded (act_unchecked ∷ rest) = ⊥
AllGuarded (act_take ∷ rest) = AllGuarded rest

set_phase-Passed :
    (limit : ℕ) (g : Gate) (i : ℕ) (p : Phase)
    → ((j : ℕ) → Passed limit (g.phase j))
    → Passed limit p
    → (j : ℕ) → Passed limit ((set_phase g i p).phase j)
set_phase-Passed limit g i p k q j = elim (Bool-cases (j == i)) [
  | inl e ↦ rw e q
  | inr e ↦ rw e (k j)
]

not_full : (limit cur : ℕ) → limit < 2 ^ 63 → cur ≤ limit → is_full limit cur ≡ false → cur < limit
unfolding is_full
not_full limit cur b c e = ground arith

load-Bounded :
    (limit : ℕ) (g : Gate) (i : ℕ)
    → limit < 2 ^ 63
    → Bounded limit g
    → Bounded limit (load limit g i)
unfolding load
load-Bounded limit g i b v = elim (Bool-cases (is_full limit g.waiting)) [
  | inl e ↦ rw e (record {
    at_most = v.at_most;
    balance = v.balance;
    passed = set_phase-Passed limit g i rejected v.passed tt;
  })
  | inr e ↦ rw e (record {
    at_most = v.at_most;
    balance = v.balance;
    passed =
        set_phase-Passed limit g i (loaded g.waiting) v.passed
          (not_full limit g.waiting b v.at_most e);
  })
]

exchange-Bounded :
    (limit : ℕ) (g : Gate) (i : ℕ) (p : Phase)
    → limit < 2 ^ 63
    → Bounded limit g
    → Passed limit p
    → Bounded limit (exchange g i p)
unfolding exchange
exchange-Bounded limit g i outside b v q = v
exchange-Bounded limit g i admitted b v q = v
exchange-Bounded limit g i rejected b v q = v
exchange-Bounded limit g i (loaded cur) b v q = elim (Bool-cases (g.waiting == cur)) [
  | inl e ↦
      let same = (==_iff g.waiting cur).0 e in
      rw e (record {
        at_most = omega arith;
        balance = omega (arith, same, v.balance);
        passed = set_phase-Passed limit g i admitted v.passed tt;
      })
  | inr e ↦ rw e (record {
    at_most = v.at_most;
    balance = v.balance;
    passed = set_phase-Passed limit g i outside v.passed tt;
  })
]

take_job-Bounded :
    (limit : ℕ) (g : Gate) → limit < 2 ^ 63 → Bounded limit g → Bounded limit (take_job g)
unfolding take_job
take_job-Bounded limit g b v = ground (arith, v.at_most, v.balance, v.passed)

act-Bounded :
    (limit : ℕ) (g : Gate) (a : Action) (rest : List Action)
    → limit < 2 ^ 63
    → AllGuarded (a ∷ rest)
    → Bounded limit g
    → Bounded limit (act limit g a)
unfolding act
act-Bounded limit g (act_load i) rest b k v = load-Bounded limit g i b v
act-Bounded limit g (act_exchange i) rest b k v =
    exchange-Bounded limit g i (g.phase i) b v (v.passed i)
act-Bounded limit g act_unchecked rest b k v = absurd k
act-Bounded limit g act_take rest b k v = take_job-Bounded limit g b v

AllGuarded-rest : (a : Action) (rest : List Action) → AllGuarded (a ∷ rest) → AllGuarded rest
AllGuarded-rest (act_load i) rest k = k
AllGuarded-rest (act_exchange i) rest k = k
AllGuarded-rest act_unchecked rest k = absurd k
AllGuarded-rest act_take rest k = k

run-Bounded_from :
    (limit : ℕ) (g : Gate) (rest : List Action)
    → limit < 2 ^ 63
    → AllGuarded rest
    → Bounded limit g
    → Bounded limit (run limit g rest)
unfolding run
run-Bounded_from limit g [] b k v = v
run-Bounded_from limit g (a ∷ rest) b k v =
    run-Bounded_from limit (act limit g a) rest b (AllGuarded-rest a rest k)
      (act-Bounded limit g a rest b k v)

-- However the atomic operations of any number of threads and of the worker interleave, if every
-- submission is guarded and the limit is below 2^63, the waiting count is at most the limit, and it is
-- the number of jobs that were accepted and that the worker has not yet taken.
pub run-Bounded :
    (limit : ℕ) (actions : List Action)
    → limit < 2 ^ 63
    → AllGuarded actions
    → Bounded limit (run limit opening actions)
run-Bounded limit actions b k =
    run-Bounded_from limit opening actions b k
      (record { at_most = omega arith; balance = omega arith; passed = λ i. tt })
