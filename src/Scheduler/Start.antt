-- ===== src/Scheduler/Start.antt =====
-- The start of the scheduler: its first run makes a live state.
use z_os.Base.{
  In, ℕ, ◌≡◌, ◌≢◌, refl, sym, ap, ◌∙◌, subst, true, false, some, ok, [], ◌∷◌, add64, ==-false,
  arith,
}
use z_os.Scheduler.{
  Thread, ready, kernel, Scheduler, with_thread, is_startable, thread_init, scheduler_init,
  scheduler_add_thread, scheduler_run,
}
use z_os.Scheduler.Order.{
  IsQueue, enqueue-IsQueue, first_of, rest_of, scheduler_run-Ran, scheduler_run-ctx,
  scheduler_run-state,
}
use z_os.Scheduler.Fair.{IsLive}

start_with :
    (s : Scheduler) (t : ℕ)
    → s.idle_thread ≢ 0
    → t ≢ 0
    → s.run_queue ≡ t ∷ []
    → IsQueue s.run_queue s.threads
    → (s' : Scheduler) × (scheduler_run s ≡ some s')
      × (s'.current_thread ≡ t)
      × IsLive s'
      × ((u : ℕ)
          → u ≢ t
          → ((s'.threads u).ctx ≡ (s.threads u).ctx) × ((s'.threads u).state ≡ (s.threads u).state))
start_with s t i p e q =
    let (s', ran, r) = scheduler_run-Ran s q in
    let now : s'.current_thread ≡ t = r.current ∙ ap (first_of s.idle_thread) e in
    (
      s',
      ran,
      now,
      record {
        scheduled = r.scheduled;
        current = λ z. p (sym now ∙ z);
        idle = λ z. i (sym r.same_idle ∙ z);
        waiting = λ u j. elim (subst (In u) (r.waiting ∙ ap rest_of e) j) [ ];
      },
      λ u n. (
        scheduler_run-ctx s s' u q ran,
        scheduler_run-state s s' u q ran (λ z. n (z ∙ ap (first_of s.idle_thread) e)),
      ),
    )

idle-queued :
    (entry_point stack_top kernel_stack : ℕ)
    → (thread_init entry_point stack_top kernel kernel_stack).1.queued ≡ false
unfolding thread_init
idle-queued entry_point stack_top kernel_stack = ground arith

empty-IsQueue : (threads : ℕ → Thread) → ((u : ℕ) → (threads u).queued ≡ false) → IsQueue [] threads
empty-IsQueue threads off = record {
  once = tt;
  startable = λ u i. elim i [ ];
  marked = λ u i. elim i [ ];
  listed = λ u m. absurd (ground (arith, off u, m));
}

-- A thread that has been prepared to start at an address, with a stack.
pub record Prepared (entry_point stack_top : ℕ) (thread : Thread) : Type 0 where
  pub ready_to_run : thread.state ≡ ready
  pub entry : thread.ctx.entry_point ≡ entry_point
  pub elr : thread.ctx.elr ≡ entry_point
  pub sp : thread.ctx.sp ≡ stack_top
  pub spsr : thread.ctx.spsr ≡ 5

thread_init-Prepared :
    (entry_point stack_top kernel_stack : ℕ)
    → kernel_stack ≢ 0
    → Prepared entry_point stack_top (thread_init entry_point stack_top kernel kernel_stack).1
unfolding thread_init
thread_init-Prepared entry_point stack_top kernel_stack n = record {
  ready_to_run = rw (==-false kernel_stack 0 n) refl;
  entry = rw (==-false kernel_stack 0 n) refl;
  elr = rw (==-false kernel_stack 0 n) refl;
  sp = rw (==-false kernel_stack 0 n) refl;
  spsr = rw (==-false kernel_stack 0 n) refl;
}

Prepared-same :
    (entry_point stack_top : ℕ) (x y : Thread)
    → (y.ctx ≡ x.ctx) × (y.state ≡ x.state)
    → Prepared entry_point stack_top x
    → Prepared entry_point stack_top y
Prepared-same entry_point stack_top x y (c, e) p = record {
  ready_to_run = e ∙ p.ready_to_run;
  entry = ap (λ w. w.entry_point) c ∙ p.entry;
  elr = ap (λ w. w.elr) c ∙ p.elr;
  sp = ap (λ w. w.sp) c ∙ p.sp;
  spsr = ap (λ w. w.spsr) c ∙ p.spsr;
}

-- When no thread is queued, the idle thread is not NULL, and kmalloc has memory for the idle
-- thread's stack, its kernel stack and a node of the queue, the scheduler starts, prepares the
-- idle thread at its entry point with the end of its stack, takes a thread that is not NULL or the
-- idle thread and may start, and runs it: the state is then live.
pub scheduler_init-IsLive :
    (idle_entry idle_stack kernel_stack t : ℕ) (s : Scheduler)
    → ((u : ℕ) → (s.threads u).queued ≡ false)
    → idle_stack ≢ 0
    → kernel_stack ≢ 0
    → s.idle_thread ≢ 0
    → t ≢ 0
    → t ≢ s.idle_thread
    → is_startable (s.threads t).state ≡ true
    → (s₁ s₂ s₃ : Scheduler) × (scheduler_init idle_entry idle_stack kernel_stack s ≡ (ok, s₁))
      × (scheduler_add_thread true t s₁ ≡ some (ok, s₂))
      × (scheduler_run s₂ ≡ some s₃)
      × (s₃.current_thread ≡ t)
      × IsLive s₃
      × Prepared idle_entry (add64 idle_stack 4096) (s₃.threads s.idle_thread)
unfolding scheduler_init scheduler_add_thread
scheduler_init-IsLive idle_entry idle_stack kernel_stack t s off k b i p d may =
    let idle : Thread = (thread_init idle_entry (add64 idle_stack 4096) kernel kernel_stack).1 in
    let threads : ℕ → Thread = with_thread s.idle_thread idle s.threads in
    let s₁ : Scheduler = record s { current_thread = 0; run_queue = []; threads = threads } in
    let unqueued : (u : ℕ) → (threads u).queued ≡ false =
      λ u. ground (arith, off u, idle-queued idle_entry (add64 idle_stack 4096) kernel_stack) in
    let may₁ : is_startable (threads t).state ≡ true = ground arith in
    let s₂ : Scheduler = record s₁ {
      run_queue = t ∷ [];
      threads = with_thread t (record (threads t) { queued = true }) threads;
    } in
    let at_idle : s₂.threads s.idle_thread ≡ idle = ground arith in
    let (s₃, ran, now, live, same) =
      start_with s₂ t i p refl
        (enqueue-IsQueue [] threads t (empty-IsQueue threads unqueued) (unqueued t) may₁) in
    (
      s₁,
      s₂,
      s₃,
      rw (==-false idle_stack 0 k) refl,
      rw (unqueued t, may₁) refl,
      ran,
      now,
      live,
      Prepared-same idle_entry (add64 idle_stack 4096) (s₂.threads s.idle_thread)
          (s₃.threads s.idle_thread) (same s.idle_thread (λ z. d (sym z)))
          (subst (Prepared idle_entry (add64 idle_stack 4096)) (sym at_idle)
            (thread_init-Prepared idle_entry (add64 idle_stack 4096) kernel_stack b)),
    )
