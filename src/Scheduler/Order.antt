-- ===== src/Scheduler/Order.antt =====
-- The run queue holds exactly the threads that may run, once each, and no assertion fails.
use native.Mathlib.Decide.{ℕ_discrete}
use z_os.Base.{
  In-append, In-left, In-last, Once-append, In, Once, Bool-cases, ℕ, ◌≡◌, ◌≢◌, inl, inr, refl, sym,
  subst, Bool, true, false, some, Status, ok, fail, List, [], ◌∷◌, ◌++◌, arith, if◌then◌else◌,
}
use z_os.Scheduler.{
  ThreadState, ready, running, suspended, blocked, terminated, Thread, Scheduler, with_thread,
  with_state, is_terminated, is_startable, scheduler_add_thread, dequeue_head, skip_terminated,
  choose, scheduler_run,
}

-- A queue of the threads that are marked, all of which may start.
pub record IsQueue (queue : List ℕ) (threads : ℕ → Thread) : Type 0 where
  pub once : Once queue
  pub startable : (t : ℕ) → In t queue → is_startable (threads t).state ≡ true
  pub marked : (t : ℕ) → In t queue → (threads t).queued ≡ true
  pub listed : (t : ℕ) → (threads t).queued ≡ true → In t queue

pub record IsScheduled (s : Scheduler) : Type 0 where
  pub queue : IsQueue s.run_queue s.threads
  pub runs : s.current_thread ≢ 0 → (s.threads s.current_thread).state ≡ running

-- A thread that is not queued changes, and is still not queued.
pub change-IsQueue :
    (queue : List ℕ) (threads : ℕ → Thread) (t : ℕ) (thread : Thread)
    → IsQueue queue threads
    → (threads t).queued ≡ false
    → thread.queued ≡ false
    → IsQueue queue (with_thread t thread threads)
change-IsQueue queue threads t thread q off off' = record {
  once = q.once;
  startable = λ u i. ground (arith, off, q.startable u i, q.marked u i);
  marked = λ u i. ground (arith, off, q.marked u i);
  listed = λ u m. elim (ℕ_discrete u t) [
    | yes e ↦ absurd (ground arith)
    | no ne ↦ q.listed u (ground arith)
  ];
}

-- A thread that may start and is not queued goes to the end.
pub enqueue-IsQueue :
    (queue : List ℕ) (threads : ℕ → Thread) (t : ℕ)
    → IsQueue queue threads
    → (threads t).queued ≡ false
    → is_startable (threads t).state ≡ true
    → IsQueue (queue ++ (t ∷ [])) (with_thread t (record (threads t) { queued = true }) threads)
enqueue-IsQueue queue threads t q off may = record {
  once = Once-append t queue q.once (λ i. ground (arith, q.marked t i));
  startable = λ u i. elim (In-append u t queue i) [
    | inl j ↦ ground (arith, q.startable u j)
    | inr e ↦ ground arith
  ];
  marked = λ u i. elim (In-append u t queue i) [
    | inl j ↦ ground (arith, q.marked u j)
    | inr e ↦ ground arith
  ];
  listed = λ u m. elim (ℕ_discrete u t) [
    | yes e ↦ subst (λ x. In x (queue ++ (t ∷ []))) (sym e) (In-last t queue)
    | no ne ↦ In-left u t queue (q.listed u (ground arith))
  ];
}

-- The head leaves.
dequeue-IsQueue :
    (t : ℕ) (queue : List ℕ) (threads : ℕ → Thread)
    → IsQueue (t ∷ queue) threads
    → IsQueue queue (with_thread t (record (threads t) { queued = false }) threads)
dequeue-IsQueue t queue threads q = record {
  once = q.once.1;
  startable = λ u i. ground (arith, q.startable u (inr i));
  marked = λ u i. elim (ℕ_discrete u t) [
    | yes e ↦ absurd (q.once.0 (subst (λ x. In x queue) e i))
    | no ne ↦ ground (arith, q.marked u (inr i))
  ];
  listed = λ u m. elim (ℕ_discrete u t) [
    | yes e ↦ absurd (ground arith)
    | no ne ↦ elim (q.listed u (ground arith)) [ inl e ↦ absurd (ne e) | inr i ↦ i ]
  ];
}

dequeue_head_lem :
    (t : ℕ) (queue : List ℕ) (threads : ℕ → Thread)
    → IsQueue (t ∷ queue) threads
    → dequeue_head t threads ≡ some (with_thread t (record (threads t) { queued = false }) threads)
unfolding dequeue_head
dequeue_head_lem t queue threads q = rw (q.marked t (inl refl)) refl

-- What may start is not terminated, so nothing is skipped.
not_terminated : (state : ThreadState) → is_startable state ≡ true → is_terminated state ≡ false
not_terminated ready h = refl
not_terminated suspended h = refl
not_terminated running h = refl
not_terminated blocked h = refl
not_terminated terminated h = absurd (cc)

skip_lem :
    (queue : List ℕ) (next : ℕ) (threads : ℕ → Thread)
    → is_terminated (threads next).state ≡ false
    → skip_terminated queue next threads ≡ some (next, queue, threads)
unfolding skip_terminated
skip_lem [] next threads h = refl
skip_lem (t ∷ queue) next threads h = rw (h, skip_terminated) refl

-- Who runs next, and who waits behind.
abbrev pub first_of : ℕ → List ℕ → ℕ
first_of idle [] = idle
first_of idle (t ∷ queue) = t

abbrev pub rest_of : List ℕ → List ℕ
rest_of [] = []
rest_of (t ∷ queue) = queue

-- After a choice: the first thread of the queue runs, or the idle thread.
pub record Ran (queue : List ℕ) (idle : ℕ) (s' : Scheduler) : Type 0 where
  pub scheduled : IsScheduled s'
  pub current : s'.current_thread ≡ first_of idle queue
  pub waiting : s'.run_queue ≡ rest_of queue
  pub same_idle : s'.idle_thread ≡ idle

start-Ran :
    (next : ℕ) (queue queue₀ : List ℕ) (threads : ℕ → Thread) (s : Scheduler)
    → IsQueue queue threads
    → (threads next).queued ≡ false
    → next ≡ first_of s.idle_thread queue₀
    → queue ≡ rest_of queue₀
    → Ran queue₀ s.idle_thread (
        with_state next running
          (record s { current_thread = next; run_queue = queue; threads = threads }))
start-Ran next queue queue₀ threads s q off e f = record {
  scheduled = record {
    queue = change-IsQueue queue threads next (record (threads next) { state = running }) q off off;
    runs = λ _. ground arith;
  };
  current = e;
  waiting = f;
  same_idle = refl;
}

pub not_queued :
    (queue : List ℕ) (threads : ℕ → Thread) (t : ℕ)
    → IsQueue queue threads
    → (¬ In t queue)
    → (threads t).queued ≡ false
not_queued queue threads t q n = elim (Bool-cases (threads t).queued) [
  | inl e ↦ absurd (n (q.listed t e))
  | inr e ↦ e
]

choose_lem :
    (s : Scheduler) (queue : List ℕ)
    → IsQueue queue s.threads
    → (threads : ℕ → Thread) × (choose s queue
        ≡ some (first_of s.idle_thread queue, rest_of queue, threads))
      × IsQueue (rest_of queue) threads
      × ((threads (first_of s.idle_thread queue)).queued ≡ false)
      × ((u : ℕ) → (threads u).state ≡ (s.threads u).state)
unfolding choose
choose_lem s [] q =
    (s.threads, refl, q, not_queued [] s.threads s.idle_thread q (λ i. i), λ u. refl)
choose_lem s (t ∷ queue) q = (
  with_thread t (record (s.threads t) { queued = false }) s.threads,
  rw (dequeue_head_lem t queue s.threads q, choose)
      (skip_lem queue t (with_thread t (record (s.threads t) { queued = false }) s.threads)
        (ground (arith, not_terminated (s.threads t).state (q.startable t (inl refl))))),
  dequeue-IsQueue t queue s.threads q,
  ground arith,
  λ u. ground arith,
)

-- scheduler_run on a queue in order.
pub scheduler_run-Ran :
    (s : Scheduler)
    → IsQueue s.run_queue s.threads
    → (s' : Scheduler) × (scheduler_run s ≡ some s') × Ran s.run_queue s.idle_thread s'
unfolding scheduler_run
scheduler_run-Ran s q =
    let (threads, chosen, q', off, _) = choose_lem s s.run_queue q in
    (
      with_state (first_of s.idle_thread s.run_queue) running (record s {
        current_thread = first_of s.idle_thread s.run_queue;
        run_queue = rest_of s.run_queue;
        threads = threads;
      }),
      rw (chosen, scheduler_run) refl,
      start-Ran (first_of s.idle_thread s.run_queue) (rest_of s.run_queue) s.run_queue threads s q'
          off refl refl,
    )

-- No thread but the next one changes its state.
pub scheduler_run-state :
    (s s' : Scheduler) (u : ℕ)
    → IsQueue s.run_queue s.threads
    → scheduler_run s ≡ some s'
    → u ≢ first_of s.idle_thread s.run_queue
    → (s'.threads u).state ≡ (s.threads u).state
unfolding scheduler_run
scheduler_run-state s s' u q e n =
    let (threads, chosen, _, _, states) = choose_lem s s.run_queue q in
    ground (arith, e, chosen, states u)

choose-ctx :
    (s : Scheduler) (queue : List ℕ)
    → IsQueue queue s.threads
    → (threads : ℕ → Thread) × (choose s queue
        ≡ some (first_of s.idle_thread queue, rest_of queue, threads))
      × ((u : ℕ) → (threads u).ctx ≡ (s.threads u).ctx)
unfolding choose
choose-ctx s [] q = (s.threads, refl, λ u. refl)
choose-ctx s (t ∷ queue) q = (
  with_thread t (record (s.threads t) { queued = false }) s.threads,
  rw (dequeue_head_lem t queue s.threads q, choose)
      (skip_lem queue t (with_thread t (record (s.threads t) { queued = false }) s.threads)
        (ground (arith, not_terminated (s.threads t).state (q.startable t (inl refl))))),
  λ u. ground arith,
)

-- No thread's saved context changes.
pub scheduler_run-ctx :
    (s s' : Scheduler) (u : ℕ)
    → IsQueue s.run_queue s.threads
    → scheduler_run s ≡ some s'
    → (s'.threads u).ctx ≡ (s.threads u).ctx
unfolding scheduler_run
scheduler_run-ctx s s' u q e =
    let (threads, chosen, contexts) = choose-ctx s s.run_queue q in
    ground (arith, e, chosen, contexts u)

pub scheduler_add_thread-ctx :
    (node_found : Bool) (t u : ℕ) (s s' : Scheduler) (status : Status)
    → scheduler_add_thread node_found t s ≡ some (status, s')
    → (s'.threads u).ctx ≡ (s.threads u).ctx
unfolding scheduler_add_thread
scheduler_add_thread-ctx node_found t u s s' status e = ground (arith, e)

-- The running thread is not in the queue.
pub running_off :
    (s : Scheduler)
    → IsScheduled s
    → s.current_thread ≢ 0
    → (s.threads s.current_thread).queued ≡ false
running_off s v c =
    not_queued s.run_queue s.threads s.current_thread v.queue
      λ i. ground (arith, v.queue.startable s.current_thread i, v.runs c)

-- The queue after a thread was added, if there was memory for its node.
abbrev pub behind : Bool → ℕ → List ℕ → List ℕ
behind node_found t queue = if node_found then queue ++ (t ∷ []) else queue

pub add-IsQueue :
    (node_found : Bool) (t : ℕ) (s : Scheduler)
    → IsQueue s.run_queue s.threads
    → (s.threads t).queued ≡ false
    → is_startable (s.threads t).state ≡ true
    → (status : Status) × (s' : Scheduler) × (scheduler_add_thread node_found t s
        ≡ some (status, s'))
      × IsQueue s'.run_queue s'.threads
      × (s'.run_queue ≡ behind node_found t s.run_queue)
      × (s'.current_thread ≡ s.current_thread)
      × (s'.idle_thread ≡ s.idle_thread)
      × ((u : ℕ) → (s'.threads u).state ≡ (s.threads u).state)
unfolding scheduler_add_thread
add-IsQueue true t s q off may = (
  ok,
  record s {
    run_queue = s.run_queue ++ (t ∷ []);
    threads = with_thread t (record (s.threads t) { queued = true }) s.threads;
  },
  rw (off, may) refl,
  enqueue-IsQueue s.run_queue s.threads t q off may,
  refl,
  refl,
  refl,
  λ u. ground arith,
)
add-IsQueue false t s q off may = (fail, s, rw (off, may) refl, q, refl, refl, refl, λ u. refl)
