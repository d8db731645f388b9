-- ===== src/Scheduler/Pool/Loop.antt =====
-- The capacity of the pool through the whole of `worker_loop`, and what is left when it stops.
use mini_cpm5_5080fast.Base.{
  ℕ, zero, suc, ◌+◌, ◌<◌, ◌≡◌, refl, ap, ◌∙◌, inl, inr, Bool, true, false, Option, none, some, List,
  [], ◌∷◌, ◌++◌, arith, Bool-cases, length, length-append, ltb,
}
use mini_cpm5_5080fast.Base.Perms.{perm-length}
use mini_cpm5_5080fast.Bytes.Text.{codes}
use mini_cpm5_5080fast.Scheduler.Types.{ActiveGen, Job, Worker, Limits, Finish, shutdown}
use mini_cpm5_5080fast.Scheduler.Host.{Host, Received, job, empty, disconnected}
use mini_cpm5_5080fast.Scheduler.Retire.{retire}
use mini_cpm5_5080fast.Scheduler.Quantum.{sessions_of}
use mini_cpm5_5080fast.Scheduler.Worker.{
  Admitted, running, stopped, quantum, shutdown_active, after_recv, after_try_recv, after_closing,
  is_idle, admit_job, tear_down, drop_sessions, drop_last_group, worker_loop,
}
use mini_cpm5_5080fast.Scheduler.Pool.Retire.{retire-Returned}
use mini_cpm5_5080fast.Scheduler.Pool.Intake.{Fits, intake-Taken}
use mini_cpm5_5080fast.Scheduler.Pool.Batch.{quantum-perm}

-- After the admission: the sessions fit the capacity, or no stream is left.
abbrev pub Admits : {W : Type 0} → Limits → Admitted W → Type 0
Admits lim (running s) = Fits lim s
Admits lim (stopped s) = s.active ≡ []

-- After the loop: the sessions fit the capacity, or no stream and no session is left.
abbrev pub Ended : {W : Type 0} → Limits → Admitted W → Type 0
Ended lim (running s) = Fits lim s
Ended lim (stopped s) = (s.active ≡ []) × (s.idle ≡ [])

length-sessions_of : (gens : List ActiveGen) → length (sessions_of gens) ≡ length gens
length-sessions_of [] = refl
length-sessions_of (gen ∷ gens) = ap suc (length-sessions_of gens)

module _ (h : Host) (lim : Limits) where
  open h use {World}

  pooled-length :
      (s : Worker World) → length (s.idle ++ sessions_of s.active) ≡ length s.idle + length s.active
  pooled-length s =
      omega (arith, length-append s.idle (sessions_of s.active), length-sessions_of s.active)

  quantum-Fits : (s : Worker World) → Fits lim s → Fits lim (quantum h lim s)
  quantum-Fits s room =
      let p = quantum-perm h lim s (omega (arith, pooled-length s)) in
      omega (arith, perm-length p, pooled-length s, pooled-length (quantum h lim s))

  shutdown_active-empty :
      (gens : List ActiveGen) (s : Worker World)
      → s.active ≡ gens
      → Fits lim s
      → (shutdown_active h lim s gens).active ≡ []
  unfolding shutdown_active
  shutdown_active-empty [] s e room = e
  shutdown_active-empty (gen ∷ gens) s e room =
      let f = Finish.failed (codes "scheduler shutting down") in
      let s' = record s { active = gens } in
      let r = retire-Returned h lim shutdown s' gen f (omega (arith, ap length e)) in
      shutdown_active-empty gens (retire h lim shutdown s' gen f) r.same_active
        (rw (r.idle_is, r.same_active) (omega (arith, ap length e)))

  after_recv-Admits :
      (s : Worker World) (o : Option Job) (w : World)
      → s.active ≡ []
      → 0 < lim.max_sessions
      → Fits lim s
      → Admits lim (after_recv h lim s (o, w))
  unfolding after_recv
  after_recv-Admits s none w e b room = e
  after_recv-Admits s (some j) w e b room =
      (intake-Taken h lim (record s { world = w }) j (omega (arith, ap length e)) room).fits

  after_try_recv-Admits :
      (s : Worker World) (r : Received) (w : World)
      → length s.active < lim.max_sessions
      → Fits lim s
      → Admits lim (after_try_recv h lim s (r, w))
  unfolding after_try_recv
  after_try_recv-Admits s (job j) w a room =
      (intake-Taken h lim (record s { world = w }) j a room).fits
  after_try_recv-Admits s empty w a room = room
  after_try_recv-Admits s disconnected w a room =
      shutdown_active-empty s.active (record s { world = w }) refl room

  after_closing-Admits :
      (s : Worker World) (b : Bool) (w : World)
      → Fits lim s
      → Admits lim (after_closing h lim s (b, w))
  unfolding after_closing
  after_closing-Admits s true w room =
      shutdown_active-empty s.active (record s { world = w }) refl room
  after_closing-Admits s false w room = room

  is_idle-empty : (gens : List ActiveGen) → is_idle h lim gens ≡ true → gens ≡ []
  unfolding is_idle
  is_idle-empty [] e = refl
  is_idle-empty (gen ∷ gens) e = cc

  admit_job-Admits :
      (s : Worker World) → 0 < lim.max_sessions → Fits lim s → Admits lim (admit_job h lim s)
  unfolding admit_job
  admit_job-Admits s b room = elim (Bool-cases (is_idle h lim s.active)) [
    | inl e ↦
        let o = h.recv s.world in
        rw e (after_recv-Admits s o.0 o.1 (is_idle-empty s.active e) b room)
    | inr e ↦ elim (Bool-cases (ltb (length s.active) lim.max_sessions)) [
      | inl t ↦
          let o = h.try_recv s.world in
          rw (e, t) (after_try_recv-Admits s o.0 o.1 (ground arith) room)
      | inr t ↦ let o = h.is_closing s.world in rw (e, t) (after_closing-Admits s o.0 o.1 room)
    ]
  ]

  drop_sessions-active :
      (s : Worker World) (sids : List ℕ) → (drop_sessions h lim s sids).active ≡ s.active
  unfolding drop_sessions
  drop_sessions-active s [] = refl
  drop_sessions-active s (sid ∷ sids) = drop_sessions-active s sids

  drop_last_group-active :
      (s : Worker World) (g : Option ℕ) → (drop_last_group h lim s g).active ≡ s.active
  unfolding drop_last_group
  drop_last_group-active s none = refl
  drop_last_group-active s (some g) = refl

  tear_down-Ended : (s : Worker World) → s.active ≡ [] → Ended lim (stopped (tear_down h lim s))
  unfolding tear_down
  tear_down-Ended s e =
      let t = drop_last_group h lim s s.group in
      (drop_sessions-active t t.idle ∙ drop_last_group-active s s.group ∙ e, refl)

  after-Ended :
      (n : ℕ)
      → ((s : Worker World) → Fits lim s → Ended lim (worker_loop h lim n s))
      → (o : Admitted World) → Admits lim o
      → Ended lim (elim o [
        | running s' ↦ worker_loop h lim n (quantum h lim s')
        | stopped s' ↦ stopped (tear_down h lim s')
      ])
  after-Ended n k (running s) a = k (quantum h lim s) (quantum-Fits s a)
  after-Ended n k (stopped s) a = tear_down-Ended s a

  -- `worker_loop` with a capacity of at least one, from sessions that fit it: after any number of turns,
  -- whatever the engine, the clients and the queue do, the sessions still fit the capacity, or the loop
  -- has stopped and no active stream and no pooled session is left.
  pub worker_loop-Ended :
      (n : ℕ) (s : Worker World)
      → 0 < lim.max_sessions
      → Fits lim s
      → Ended lim (worker_loop h lim n s)
  unfolding worker_loop
  worker_loop-Ended zero s b room = room
  worker_loop-Ended (suc n) s b room =
      after-Ended n (λ t. worker_loop-Ended n t b) (admit_job h lim s) (admit_job-Admits s b room)
