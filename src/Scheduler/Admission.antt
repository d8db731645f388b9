-- ===== src/Scheduler/Admission.antt =====
-- `SchedulerHandle`: the admission of jobs by any number of threads at once, and the worker that takes
-- them. An action is one atomic operation of one thread; a run is a sequence of actions.
pub mod Bound
use mini_cpm5_5080fast.Base.{
  ℕ, ◌+◌, Bool, true, false, ◌||◌, List, [], ◌∷◌, ltb, ◌==◌, if◌then◌else◌,
}
use mini_cpm5_5080fast.Words.{wrapping_add, wrapping_sub, ge_i64}

-- Where a thread stands in the loop of `admit`; `loaded` holds `cur`, which passed the guard.
pub data Phase : Type 0 where
  outside : Phase
  loaded : ℕ → Phase
  admitted rejected : Phase

-- `waiting` is the shared counter; `accepted` and `taken` count the jobs that were sent to the worker
-- and that it received.
pub record Gate : Type 0 where
  pub waiting : ℕ
  pub accepted : ℕ
  pub taken : ℕ
  pub phase : ℕ → Phase

-- `limit == 0 || cur >= limit as i64`
unfoldable pub is_full : ℕ → ℕ → Bool
is_full limit cur = limit == 0 || ge_i64 cur limit

abbrev pub set_phase : Gate → ℕ → Phase → Gate
set_phase g i p = record g { phase = λ j. if j == i then p else g.phase j }

-- the load, and the guard on its value
unfoldable pub load : ℕ → Gate → ℕ → Gate
unfolding is_full
load limit g i = set_phase g i (if is_full limit g.waiting then rejected else loaded g.waiting)

-- `compare_exchange`: the thread is admitted, or goes round the loop.
unfoldable pub exchange : Gate → ℕ → Phase → Gate
exchange g i outside = g
exchange g i admitted = g
exchange g i rejected = g
exchange g i (loaded cur) =
    if g.waiting == cur
    then record (set_phase g i admitted) { waiting = wrapping_add cur 1; accepted = g.accepted + 1 }
    else set_phase g i outside

-- `waiting_add_unchecked`, of the submission without a guard
unfoldable pub add_unchecked : Gate → Gate
add_unchecked g = record g { waiting = wrapping_add g.waiting 1; accepted = g.accepted + 1 }

-- the worker's `fetch_sub` for a job that it received
unfoldable pub take_job : Gate → Gate
take_job g =
    if ltb g.taken g.accepted
    then record g { waiting = wrapping_sub g.waiting 1; taken = g.taken + 1 }
    else g

pub data Action : Type 0 where
  act_load act_exchange : ℕ → Action
  act_unchecked act_take : Action

unfoldable pub act : ℕ → Gate → Action → Gate
unfolding load exchange add_unchecked take_job
act limit g (act_load i) = load limit g i
act limit g (act_exchange i) = exchange g i (g.phase i)
act limit g act_unchecked = add_unchecked g
act limit g act_take = take_job g

unfoldable pub run : ℕ → Gate → List Action → Gate
unfolding act
run limit g [] = g
run limit g (a ∷ rest) = run limit (act limit g a) rest

-- Nobody has submitted yet.
abbrev pub opening : Gate
opening = record { waiting = 0; accepted = 0; taken = 0; phase = λ i. outside }
