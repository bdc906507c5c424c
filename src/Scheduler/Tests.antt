-- ===== src/Scheduler/Tests.antt =====
-- A scheduler with a running thread, one that waits and one that is blocked, and the theorems at it.
use z_os.Base.{◌≡◌, refl, Bool, true, false, some, ok, [], ◌∷◌, ◌==◌, if◌then◌else◌, arith}
use z_os.Scheduler.{
  ThreadState, ready, running, blocked, user, Thread, ExceptionFrame, Scheduler, scheduler_init,
  scheduler_add_thread, scheduler_run, scheduler_yield,
}
use z_os.Scheduler.Order.{IsQueue, IsScheduled, Ran}
use z_os.Scheduler.Turns.{Saved, scheduler_yield-Ran}
use z_os.Scheduler.Fair.{
  yields, History, stays, turns, length, Runs, IsLive, History-IsLive, History-Runs,
}
use z_os.Scheduler.Start.{Prepared, scheduler_init-IsLive}

abbrev thread : ThreadState → Bool → Thread
thread state queued = record {
  process = 0;
  kernel_stack_top = 0x8000;
  stack_top = 0x2000;
  state = state;
  type = user;
  ctx = record { entry_point = 0; sp = 0; registers = λ i. 0; spsr = 0; elr = 0 };
  queued = queued;
}

-- Thread 1 runs, thread 2 waits, thread 3 is blocked, and the others are ready but not started.
abbrev scheduler : Scheduler
scheduler = record {
  current_thread = 1;
  run_queue = 2 ∷ [];
  idle_thread = 0x100;
  threads = λ t.
      if t == 1
      then thread running false
      else if t == 2
      then thread ready true
      else if t == 3
      then thread blocked false
      else thread ready false;
}

abbrev frame : ExceptionFrame
frame = record { registers = λ i. i; sp = 0x1f00; spsr = 0; elr = 0x40 }

scheduler-IsQueue : IsQueue scheduler.run_queue scheduler.threads
scheduler-IsQueue = record {
  once = ((λ i. i), tt);
  startable = λ t i. ground arith;
  marked = λ t i. ground arith;
  listed = λ t m. ground arith;
}

scheduler-IsScheduled : IsScheduled scheduler
scheduler-IsScheduled = record { queue = scheduler-IsQueue; runs = λ _. refl }

scheduler-IsLive : IsLive scheduler
scheduler-IsLive = record {
  scheduled = scheduler-IsScheduled;
  current = omega arith;
  idle = omega arith;
  waiting = λ t i. ground arith;
}

scheduler_yield-Ran_example :
    (s' : Scheduler) × (scheduler_yield true frame scheduler ≡ some s')
    × Ran (2 ∷ 1 ∷ []) 0x100 s'
    × Saved frame (s'.threads 1).ctx
scheduler_yield-Ran_example =
    scheduler_yield-Ran true frame scheduler scheduler-IsScheduled (omega arith)

-- Two turns: thread 1 yields to thread 2, which yields to thread 1.
second_turn :
    (s₁ s₂ : Scheduler) × (scheduler_yield true frame scheduler ≡ some s₁)
    × (scheduler_yield true frame s₁ ≡ some s₂)
second_turn =
    let (s₁, e, r, _) =
      scheduler_yield-Ran true frame scheduler scheduler-IsScheduled (omega arith) in
    let (s₂, f, _, _) = scheduler_yield-Ran true frame s₁ r.scheduled (omega (arith, r.current)) in
    (s₁, s₂, e, f)

abbrev history : History scheduler second_turn.1
history =
    turns (yields true frame second_turn.2)
      (turns (yields true frame second_turn.3) (stays second_turn.1))

History-IsLive_example : IsLive second_turn.1
History-IsLive_example = History-IsLive scheduler-IsLive history

History-Runs_example : Runs 2 history
unfolding length
History-Runs_example = History-Runs 2 0 history scheduler-IsLive refl (omega arith)

scheduler_init-IsLive_example :
    (s₁ s₂ s₃ : Scheduler) × (scheduler_init 0x40 0x1000 0x9000
        (record scheduler { threads = λ t. thread ready false })
      ≡ (ok, s₁))
    × (scheduler_add_thread true 5 s₁ ≡ some (ok, s₂))
    × (scheduler_run s₂ ≡ some s₃)
    × (s₃.current_thread ≡ 5)
    × IsLive s₃
    × Prepared 0x40 0x2000 (s₃.threads 0x100)
scheduler_init-IsLive_example =
    scheduler_init-IsLive 0x40 0x1000 0x9000 5
      (record scheduler { threads = λ t. thread ready false }) (λ u. refl) (omega arith)
      (omega arith) (omega arith) (omega arith) (omega arith) refl
