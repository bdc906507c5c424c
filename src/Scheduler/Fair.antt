-- ===== src/Scheduler/Fair.antt =====
-- Whatever the threads and the interrupts do: the run queue stays in order, and who waits gets a turn.
use z_os.Base.{
  In-append, In, ℕ, ◌<◌, zero, suc, ◌≡◌, ◌≢◌, ◌⊎◌, inl, inr, refl, sym, ◌∙◌, subst, Bool, true,
  false, Option, some, Status, List, [], ◌∷◌, ◌++◌, get_elem?, arith,
}
use z_os.Scheduler.{
  ThreadState, blocked, ExceptionFrame, Scheduler, is_blocked, is_startable, scheduler_add_thread,
  scheduler_yield, scheduler_wait_for_event, scheduler_wake_up, scheduler_terminate,
}
use z_os.Scheduler.Order.{IsScheduled, Ran, behind, first_of, rest_of}
use z_os.Scheduler.Turns.{
  Added, scheduler_yield-Ran, scheduler_wait_for_event-Ran, scheduler_terminate-Ran,
  scheduler_add_thread-Added, scheduler_wake_up-Added,
}

-- The running thread gives its turn away.
pub data Turn (s s' : Scheduler) : Type 0 where
  yields :
      (node_found : Bool) (frame : ExceptionFrame)
      → scheduler_yield node_found frame s ≡ some s'
      → Turn s s'
  waits :
      (registers : ℕ → ℕ) (sp lr : ℕ)
      → scheduler_wait_for_event registers sp lr s ≡ some s'
      → Turn s s'
  ends : scheduler_terminate s ≡ some s' → Turn s s'

-- Another thread comes into the queue.
pub data Arrival (s s' : Scheduler) : Type 0 where
  adds :
      (node_found : Bool) (t : ℕ) (status : Status)
      → t ≢ 0
      → scheduler_add_thread node_found t s ≡ some (status, s')
      → Arrival s s'
  wakes :
      (node_found : Bool) (t : ℕ)
      → t ≢ 0
      → scheduler_wake_up node_found t s ≡ some s'
      → Arrival s s'

-- A history, from its first state.
pub data History : Scheduler → Scheduler → Type 0 where
  stays : (s : Scheduler) → History s s
  turns : {s t u : Scheduler} → Turn s t → History t u → History s u
  arrives : {s t u : Scheduler} → Arrival s t → History t u → History s u

-- How many turns it has.
unfoldable pub length : {s u : Scheduler} → History s u → ℕ
length (stays s) = 0
length (turns _ h) = suc (length h)
length (arrives _ h) = length h

-- A thread runs in one of its states.
unfoldable pub Runs : (t : ℕ) {s u : Scheduler} → History s u → Type 0
Runs t (stays s) = s.current_thread ≡ t
Runs t (turns {s} _ h) = (s.current_thread ≡ t) ⊎ Runs t h
Runs t (arrives {s} _ h) = (s.current_thread ≡ t) ⊎ Runs t h

-- A thread is running, and neither it nor the idle thread nor one that waits is NULL.
pub record IsLive (s : Scheduler) : Type 0 where
  pub scheduled : IsScheduled s
  pub current : s.current_thread ≢ 0
  pub idle : s.idle_thread ≢ 0
  pub waiting : (t : ℕ) → In t s.run_queue → t ≢ 0

same_result : {o : Option Scheduler} {s s' : Scheduler} → o ≡ some s → o ≡ some s' → s ≡ s'
same_result e e' = cc

-- The queue that a turn chooses from: perhaps the thread that had the turn was added.
record IsNext (queue : List ℕ) (s : Scheduler) : Type 0 where
  keeps : (t k : ℕ) → get_elem? s.run_queue k ≡ some t → get_elem? queue k ≡ some t
  members : (t : ℕ) → In t queue → In t s.run_queue ⊎ (t ≡ s.current_thread)

keep_before :
    (queue : List ℕ) (t u k : ℕ)
    → get_elem? queue k ≡ some t
    → get_elem? (queue ++ (u ∷ [])) k ≡ some t
keep_before [] t u k h = absurd (cc)
keep_before (v ∷ queue) t u zero h = h
keep_before (v ∷ queue) t u (suc k) h = keep_before queue t u k h

same-IsNext : (s : Scheduler) → IsNext s.run_queue s
same-IsNext s = record { keeps = λ t k h. h; members = λ t i. inl i }

behind-IsNext :
    (node_found : Bool) (s : Scheduler) → IsNext (behind node_found s.current_thread s.run_queue) s
behind-IsNext true s = record {
  keeps = λ t k h. keep_before s.run_queue t s.current_thread k h;
  members = λ t i. In-append t s.current_thread s.run_queue i;
}
behind-IsNext false s = same-IsNext s

Turn-Ran :
    {s s' : Scheduler}
    → IsLive s
    → Turn s s'
    → (queue : List ℕ) × IsNext queue s × Ran queue s.idle_thread s'
Turn-Ran {s} {s'} v (yields node_found frame e) =
    let (s₁, e₁, r, _) = scheduler_yield-Ran node_found frame s v.scheduled v.current in
    (
      behind node_found s.current_thread s.run_queue,
      behind-IsNext node_found s,
      subst (Ran _ s.idle_thread) (same_result e₁ e) r,
    )
Turn-Ran {s} {s'} v (waits registers sp lr e) =
    let (s₁, e₁, r) = scheduler_wait_for_event-Ran registers sp lr s v.scheduled v.current in
    (s.run_queue, same-IsNext s, subst (Ran _ s.idle_thread) (same_result e₁ e) r)
Turn-Ran {s} {s'} v (ends e) =
    let (s₁, e₁, r) = scheduler_terminate-Ran s v.scheduled v.current in
    (s.run_queue, same-IsNext s, subst (Ran _ s.idle_thread) (same_result e₁ e) r)

first_present :
    (idle : ℕ) (queue : List ℕ)
    → idle ≢ 0
    → ((t : ℕ) → In t queue → t ≢ 0)
    → first_of idle queue ≢ 0
first_present idle [] i w = i
first_present idle (t ∷ queue) i w = w t (inl refl)

rest_present :
    (queue : List ℕ) → ((t : ℕ) → In t queue → t ≢ 0) → (t : ℕ) → In t (rest_of queue) → t ≢ 0
rest_present [] w t i = elim i [ ]
rest_present (u ∷ queue) w t i = w t (inr i)

Turn-IsLive : {s s' : Scheduler} → IsLive s → Turn s s' → IsLive s'
Turn-IsLive {s} {s'} v turn =
    let (queue, n, r) = Turn-Ran v turn in
    let present : (t : ℕ) → In t queue → t ≢ 0 =
      λ t i. elim (n.members t i) [ inl j ↦ v.waiting t j | inr e ↦ λ z. v.current (sym e ∙ z) ] in
    record {
      scheduled = r.scheduled;
      current = λ z. first_present s.idle_thread queue v.idle present (sym r.current ∙ z);
      idle = λ z. v.idle (sym r.same_idle ∙ z);
      waiting = λ t i. rest_present queue present t (subst (In t) r.waiting i);
    }

may_add :
    (node_found : Bool) (t : ℕ) (status : Status) (s s' : Scheduler)
    → scheduler_add_thread node_found t s ≡ some (status, s')
    → ((s.threads t).queued ≡ false) × (is_startable (s.threads t).state ≡ true)
unfolding scheduler_add_thread
may_add node_found t status s s' e = ground (arith, e)

may_wake : (state : ThreadState) → is_blocked state ≡ true → state ≡ blocked
may_wake state h = ground (arith, h)

may_wake_up :
    (node_found : Bool) (t : ℕ) (s s' : Scheduler)
    → scheduler_wake_up node_found t s ≡ some s'
    → (s.threads t).state ≡ blocked
unfolding scheduler_wake_up
may_wake_up node_found t s s' e = ground (arith, e)

Arrival-Added :
    {s s' : Scheduler}
    → IsLive s
    → Arrival s s'
    → (node_found : Bool) × (t : ℕ) × (t ≢ 0) × Added node_found t s s'
Arrival-Added {s} {s'} v (adds node_found t status p e) =
    let (off, may) = may_add node_found t status s s' e in
    let (_, s₁, e₁, a) = scheduler_add_thread-Added node_found t s v.scheduled off may in
    (node_found, t, p, subst (Added node_found t s) (cc) a)
Arrival-Added {s} {s'} v (wakes node_found t p e) =
    let (s₁, e₁, a) =
      scheduler_wake_up-Added node_found t s v.scheduled (may_wake_up node_found t s s' e) in
    (node_found, t, p, subst (Added node_found t s) (same_result e₁ e) a)

-- Whoever waits still waits at the same place, and only the new thread came.
Added-IsNext :
    {s s' : Scheduler} (node_found : Bool) (t : ℕ)
    → Added node_found t s s'
    → ((u k : ℕ) → get_elem? s.run_queue k ≡ some u → get_elem? s'.run_queue k ≡ some u)
      × ((u : ℕ) → In u s'.run_queue → In u s.run_queue ⊎ (u ≡ t))
Added-IsNext {s} true t a = (
  (λ u k h. subst (λ q. get_elem? q k ≡ some u) (sym a.waiting) (keep_before s.run_queue u t k h)),
  λ u i. In-append u t s.run_queue (subst (In u) a.waiting i),
)
Added-IsNext false t a = (
  (λ u k h. subst (λ q. get_elem? q k ≡ some u) (sym a.waiting) h),
  λ u i. inl (subst (In u) a.waiting i),
)

Arrival-IsLive : {s s' : Scheduler} → IsLive s → Arrival s s' → IsLive s'
Arrival-IsLive {s} {s'} v arrival =
    let (node_found, t, p, a) = Arrival-Added v arrival in
    record {
      scheduled = a.scheduled;
      current = λ z. v.current (sym a.current ∙ z);
      idle = λ z. v.idle (sym a.same_idle ∙ z);
      waiting = λ u i. elim ((Added-IsNext node_found t a).1 u i) [
        | inl j ↦ v.waiting u j
        | inr e ↦ λ z. p (sym e ∙ z)
      ];
    }

-- On every history from a live state: the run queue holds, once each, exactly the threads that are
-- marked as queued, which may all start; a thread is running, and it is not NULL.
pub History-IsLive : {s u : Scheduler} → IsLive s → History s u → IsLive u
History-IsLive v (stays s) = v
History-IsLive v (turns t h) = History-IsLive (Turn-IsLive v t) h
History-IsLive v (arrives a h) = History-IsLive (Arrival-IsLive v a) h

started : {s u : Scheduler} (t : ℕ) (h : History s u) → s.current_thread ≡ t → Runs t h
unfolding Runs
started t (stays s) e = e
started t (turns _ h) e = inl e
started t (arrives _ h) e = inl e

first_of-get : (idle t : ℕ) (queue : List ℕ) → get_elem? queue 0 ≡ some t → first_of idle queue ≡ t
first_of-get idle t [] h = absurd (cc)
first_of-get idle t (u ∷ queue) h = cc

rest_of-get :
    (t k : ℕ) (queue : List ℕ)
    → get_elem? queue (suc k) ≡ some t
    → get_elem? (rest_of queue) k ≡ some t
rest_of-get t k [] h = absurd (cc)
rest_of-get t k (u ∷ queue) h = h

-- From a live state, a thread with k others before it in the run queue has run by the end of every
-- history of more than k turns.
pub History-Runs :
    {s u : Scheduler} (t k : ℕ) (h : History s u)
    → IsLive s
    → get_elem? s.run_queue k ≡ some t
    → k < length h
    → Runs t h
unfolding length Runs
History-Runs t k (stays s) v e l = absurd (omega arith)
History-Runs t zero (turns {s} turn h) v e l =
    let (queue, n, r) = Turn-Ran v turn in
    inr (started t h (r.current ∙ first_of-get s.idle_thread t queue (n.keeps t zero e)))
History-Runs t (suc k) (turns {s} turn h) v e l =
    let (queue, n, r) = Turn-Ran v turn in
    inr (
      History-Runs t k h (Turn-IsLive v turn)
        (subst (λ q. get_elem? q k ≡ some t) (sym r.waiting)
          (rest_of-get t k queue (n.keeps t (suc k) e)))
        (omega arith))
History-Runs t k (arrives arrival h) v e l =
    let (node_found, u, p, a) = Arrival-Added v arrival in
    inr (History-Runs t k h (Arrival-IsLive v arrival) ((Added-IsNext node_found u a).0 t k e) l)
