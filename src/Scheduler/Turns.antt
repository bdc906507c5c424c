-- ===== src/Scheduler/Turns.antt =====
-- Each call of the scheduler, on a queue in order.
use z_os.Base.{
  sym, ◌<◌, In, List, [], ◌∷◌, inl, ℕ, ◌≡◌, ◌≢◌, refl, ap, ◌∙◌, subst, Bool, true, false, some,
  Status, arith, ==-false,
}
use z_os.Scheduler.{
  ThreadState, suspended, blocked, terminated, Thread, ThreadContext, ExceptionFrame, Scheduler,
  with_thread, with_state, is_startable, scheduler_add_thread, scheduler_run, save_frame,
  scheduler_yield, scheduler_wait_for_event, scheduler_wake_up, scheduler_terminate,
}
use z_os.Scheduler.Order.{
  IsQueue, IsScheduled, change-IsQueue, not_queued, running_off, behind, add-IsQueue, Ran,
  scheduler_run-state, scheduler_run-ctx, scheduler_add_thread-ctx, first_of, scheduler_run-Ran,
}

-- The state that scheduler_yield adds to the queue.
abbrev yielded : ExceptionFrame → Scheduler → Scheduler
yielded frame s = with_state s.current_thread suspended (record s {
  threads = with_thread s.current_thread (save_frame frame (s.threads s.current_thread)) s.threads;
})

saved_here :
    (t : ℕ) (thread : Thread) (s : Scheduler)
    → ((with_state t suspended (record s { threads = with_thread t thread s.threads })).threads
        t).ctx
      ≡ thread.ctx
saved_here t thread s = ground arith

yield_call :
    (node_found : Bool) (frame : ExceptionFrame) (s s₃ s₄ : Scheduler) (status : Status)
    → s.current_thread ≢ 0
    → scheduler_add_thread node_found s.current_thread (yielded frame s) ≡ some (status, s₃)
    → scheduler_run s₃ ≡ some s₄
    → scheduler_yield node_found frame s ≡ some s₄
unfolding scheduler_yield
yield_call node_found frame s s₃ s₄ status c added ran =
    rw (==-false s.current_thread 0 c, added, scheduler_yield) ran

-- The context holds what the exception frame does.
pub record Saved (frame : ExceptionFrame) (ctx : ThreadContext) : Type 0 where
  pub registers : (i : ℕ) → i < 32 → ctx.registers i ≡ frame.registers i
  pub sp : ctx.sp ≡ frame.sp
  pub spsr : ctx.spsr ≡ frame.spsr
  pub elr : ctx.elr ≡ frame.elr

save_frame-Saved :
    (frame : ExceptionFrame) (thread : Thread) → Saved frame (save_frame frame thread).ctx
unfolding save_frame
save_frame-Saved frame thread = record {
  registers = λ i h. ground arith;
  sp = refl;
  spsr = refl;
  elr = refl;
}

-- In a scheduled state with a current thread, no assertion of scheduler_yield on the queue or a
-- thread fails (those on the switch of page tables are taken to hold), the current thread's
-- context is that of the exception's frame, and it puts the current thread at the end of the
-- queue, if there is memory for its node, then gives the turn to the first of the queue, or to the
-- idle thread when it is empty; the state after it is scheduled.
pub scheduler_yield-Ran :
    (node_found : Bool) (frame : ExceptionFrame) (s : Scheduler)
    → IsScheduled s
    → s.current_thread ≢ 0
    → (s' : Scheduler) × (scheduler_yield node_found frame s ≡ some s')
      × Ran (behind node_found s.current_thread s.run_queue) s.idle_thread s'
      × Saved frame (s'.threads s.current_thread).ctx
unfolding scheduler_yield save_frame
scheduler_yield-Ran node_found frame s v c =
    let off : (s.threads s.current_thread).queued ≡ false = running_off s v c in
    let saved : Thread = save_frame frame (s.threads s.current_thread) in
    let s₁ : Scheduler = record s { threads = with_thread s.current_thread saved s.threads } in
    let q₁ : IsQueue s.run_queue s₁.threads =
      change-IsQueue s.run_queue s.threads s.current_thread saved v.queue off off in
    let s₂ : Scheduler = with_state s.current_thread suspended s₁ in
    let q₂ : IsQueue s.run_queue s₂.threads =
      change-IsQueue s.run_queue s₁.threads s.current_thread
        (record (s₁.threads s.current_thread) { state = suspended }) q₁ (ground arith)
        (ground arith) in
    let (status, s₃, added, q₃, queue, _, idle, _) =
      add-IsQueue node_found s.current_thread s₂ q₂ (ground arith) (ground arith) in
    let (s₄, ran, r) = scheduler_run-Ran s₃ q₃ in
    (
      s₄,
      yield_call node_found frame s s₃ s₄ status c added ran,
      subst (λ x. Ran x s.idle_thread s₄) queue (subst (λ x. Ran s₃.run_queue x s₄) idle r),
      subst (Saved frame)
          (sym (
            scheduler_run-ctx s₃ s₄ s.current_thread q₃ ran
            ∙ scheduler_add_thread-ctx node_found s.current_thread s.current_thread s₂ s₃ status
                added
            ∙ saved_here s.current_thread saved s))
          (save_frame-Saved frame (s.threads s.current_thread)),
    )

-- The running thread, in another state and off the queue, makes room for the first.
leave-Ran :
    (s : Scheduler) (thread : Thread) (state : ThreadState)
    → IsScheduled s
    → s.current_thread ≢ 0
    → thread.queued ≡ false
    → (s' : Scheduler) × (scheduler_run (
          with_state s.current_thread state
            (record s { threads = with_thread s.current_thread thread s.threads }))
        ≡ some s')
      × Ran s.run_queue s.idle_thread s'
leave-Ran s thread state v c off =
    let threads : ℕ → Thread = with_thread s.current_thread thread s.threads in
    scheduler_run-Ran (with_state s.current_thread state (record s { threads = threads })) (
      change-IsQueue s.run_queue threads s.current_thread
        (record (threads s.current_thread) { state = state })
        (change-IsQueue s.run_queue s.threads s.current_thread thread v.queue (running_off s v c)
          off)
        (ground arith) (ground arith))

-- A thread that waits leaves the queue as it is, and gives the turn to the first.
pub scheduler_wait_for_event-Ran :
    (registers : ℕ → ℕ) (sp lr : ℕ) (s : Scheduler)
    → IsScheduled s
    → s.current_thread ≢ 0
    → (s' : Scheduler) × (scheduler_wait_for_event registers sp lr s ≡ some s')
      × Ran s.run_queue s.idle_thread s'
unfolding scheduler_wait_for_event
scheduler_wait_for_event-Ran registers sp lr s v c = leave-Ran s _ blocked v c (running_off s v c)

pub scheduler_terminate-Ran :
    (s : Scheduler)
    → IsScheduled s
    → s.current_thread ≢ 0
    → (s' : Scheduler) × (scheduler_terminate s ≡ some s') × Ran s.run_queue s.idle_thread s'
unfolding scheduler_terminate
scheduler_terminate-Ran s v c = scheduler_run-Ran (with_state s.current_thread terminated s) (
    change-IsQueue s.run_queue s.threads s.current_thread
      (record (s.threads s.current_thread) { state = terminated }) v.queue (running_off s v c)
      (running_off s v c))

-- A thread that is added waits behind the others, and the current one still runs.
pub record Added (node_found : Bool) (t : ℕ) (s s' : Scheduler) : Type 0 where
  pub scheduled : IsScheduled s'
  pub waiting : s'.run_queue ≡ behind node_found t s.run_queue
  pub current : s'.current_thread ≡ s.current_thread
  pub same_idle : s'.idle_thread ≡ s.idle_thread

pub scheduler_add_thread-Added :
    (node_found : Bool) (t : ℕ) (s : Scheduler)
    → IsScheduled s
    → (s.threads t).queued ≡ false
    → is_startable (s.threads t).state ≡ true
    → (status : Status) × (s' : Scheduler) × (scheduler_add_thread node_found t s
        ≡ some (status, s'))
      × Added node_found t s s'
scheduler_add_thread-Added node_found t s v off may =
    let (status, s', added, q, queue, current, idle, states) =
      add-IsQueue node_found t s v.queue off may in
    (
      status,
      s',
      added,
      record {
        scheduled = record {
          queue = q;
          runs = λ c.
              ap (λ u. (s'.threads u).state) current
              ∙ states s.current_thread
              ∙ v.runs (λ z. c (current ∙ z));
        };
        waiting = queue;
        current = current;
        same_idle = idle;
      },
    )

-- In a scheduled state, no assertion of scheduler_wake_up of a blocked thread fails, and it puts
-- the thread at the end of the queue, if there is memory for its node, and leaves the current
-- thread and the idle thread; the state after it is scheduled.
pub scheduler_wake_up-Added :
    (node_found : Bool) (t : ℕ) (s : Scheduler)
    → IsScheduled s
    → (s.threads t).state ≡ blocked
    → (s' : Scheduler) × (scheduler_wake_up node_found t s ≡ some s') × Added node_found t s s'
unfolding scheduler_wake_up
scheduler_wake_up-Added node_found t s v b =
    let off : (s.threads t).queued ≡ false =
      not_queued s.run_queue s.threads t v.queue (λ i. ground (arith, v.queue.startable t i)) in
    let s₁ : Scheduler = with_state t suspended s in
    let v₁ : IsScheduled s₁ = record {
      queue =
          change-IsQueue s.run_queue s.threads t (record (s.threads t) { state = suspended })
            v.queue off off;
      runs = λ c. ground (arith, v.runs c);
    } in
    let (status, s', added, a) =
      scheduler_add_thread-Added node_found t s₁ v₁ (ground arith) (ground arith) in
    (
      s',
      rw (b, added, scheduler_wake_up) refl,
      record {
        scheduled = a.scheduled;
        waiting = a.waiting;
        current = a.current;
        same_idle = a.same_idle;
      },
    )

not-first : (t idle : ℕ) (queue : List ℕ) → t ≢ idle → (¬ In t queue) → t ≢ first_of idle queue
not-first t idle [] n m = n
not-first t idle (u ∷ queue) n m = λ e. m (inl e)

-- A thread that waits, other than the idle thread, is blocked.
pub scheduler_wait_for_event-blocked :
    (registers : ℕ → ℕ) (sp lr : ℕ) (s s' : Scheduler)
    → IsScheduled s
    → s.current_thread ≢ 0
    → s.current_thread ≢ s.idle_thread
    → scheduler_wait_for_event registers sp lr s ≡ some s'
    → (s'.threads s.current_thread).state ≡ blocked
unfolding scheduler_wait_for_event
scheduler_wait_for_event-blocked registers sp lr s s' v c i e =
    let off : ¬ In s.current_thread s.run_queue =
      λ j. ground (arith, running_off s v c, v.queue.marked s.current_thread j) in
    scheduler_run-state _ s' s.current_thread
      (change-IsQueue s.run_queue _ s.current_thread _
        (change-IsQueue s.run_queue s.threads s.current_thread _ v.queue (running_off s v c)
          (running_off s v c))
        (ground (arith, running_off s v c)) (ground (arith, running_off s v c)))
      e (not-first s.current_thread s.idle_thread s.run_queue i off)
    ∙ ground arith
