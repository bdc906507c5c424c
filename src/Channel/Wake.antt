-- ===== src/Channel/Wake.antt =====
-- The loop that wakes up the threads that wait for a message.
use z_os.Base.{
  In, Once, ℕ, ◌≡◌, ◌≢◌, inl, inr, refl, sym, ap, ◌∙◌, subst, Bool, Bool-cases, some, List, [], ◌∷◌,
  ◌++◌, append_assoc, append-nil, Option-cases, arith, if◌then◌else◌,
}
use z_os.Scheduler.{blocked, Scheduler, scheduler_add_thread, scheduler_wake_up}
use z_os.Scheduler.Order.{IsScheduled, behind}
use z_os.Scheduler.Turns.{scheduler_wake_up-Added}
use z_os.Channel.{◌>>=◌, wake_all}

-- The threads for which there is a node in the run queue.
abbrev pub woken : (ℕ → Bool) → List ℕ → List ℕ
woken turn_node [] = []
woken turn_node (t ∷ waiters) =
    let rest = woken turn_node waiters in if turn_node t then t ∷ rest else rest

abbrev pub AllBlocked : List ℕ → Scheduler → Type 0
AllBlocked waiters s = (t : ℕ) → In t waiters → (s.threads t).state ≡ blocked

-- All of them wait in the run queue, in their order, behind those that did before.
pub record Woken (turn_node : ℕ → Bool) (waiters : List ℕ) (s s' : Scheduler) : Type 0 where
  pub scheduled : IsScheduled s'
  pub waiting : s'.run_queue ≡ s.run_queue ++ woken turn_node waiters
  pub current : s'.current_thread ≡ s.current_thread
  pub same_idle : s'.idle_thread ≡ s.idle_thread
  pub others : (u : ℕ) → (¬ In u waiters) → s'.threads u ≡ s.threads u

wake_up-others :
    (turn_node : Bool) (t u : ℕ) (s s' : Scheduler)
    → scheduler_wake_up turn_node t s ≡ some s'
    → u ≢ t
    → s'.threads u ≡ s.threads u
unfolding scheduler_wake_up scheduler_add_thread
wake_up-others turn_node t u s s' e n = ground (arith, e)

woken_step :
    (turn_node : ℕ → Bool) (t : ℕ) (waiters queue : List ℕ)
    → behind (turn_node t) t queue ++ woken turn_node waiters
      ≡ queue ++ woken turn_node (t ∷ waiters)
woken_step turn_node t waiters queue = elim (Bool-cases (turn_node t)) [
  | inl e ↦ rw e (append_assoc queue (t ∷ []) (woken turn_node waiters))
  | inr e ↦ rw e refl
]

-- In a scheduled state, when the threads are blocked and none is listed twice, no assertion fails.
pub wake_all-Woken :
    (turn_node : ℕ → Bool) (waiters : List ℕ) (s : Scheduler)
    → IsScheduled s
    → Once waiters
    → AllBlocked waiters s
    → (s' : Scheduler) × (wake_all turn_node waiters s ≡ some s') × Woken turn_node waiters s s'
unfolding wake_all
wake_all-Woken turn_node [] s v o b = (
  s,
  refl,
  record {
    scheduled = v;
    waiting = sym (append-nil s.run_queue);
    current = refl;
    same_idle = refl;
    others = λ u n. refl;
  },
)
wake_all-Woken turn_node (t ∷ waiters) s v o b =
    let (s₁, e₁, a) = scheduler_wake_up-Added (turn_node t) t s v (b t (inl refl)) in
    let same : (u : ℕ) → u ≢ t → s₁.threads u ≡ s.threads u =
      λ u. wake_up-others (turn_node t) t u s s₁ e₁ in
    let (s₂, e₂, w) = wake_all-Woken turn_node waiters s₁ a.scheduled o.1 (λ u i.
      ap (λ x. x.state) (same u (λ z. o.0 (subst (λ x. In x waiters) z i))) ∙ b u (inr i)) in
    (
      s₂,
      rw (e₁, wake_all) e₂,
      record {
        scheduled = w.scheduled;
        waiting =
            w.waiting
            ∙ ap (λ q. q ++ woken turn_node waiters) a.waiting
            ∙ woken_step turn_node t waiters s.run_queue;
        current = w.current ∙ a.current;
        same_idle = w.same_idle ∙ a.same_idle;
        others = λ u n. w.others u (λ i. n (inr i)) ∙ same u (λ z. n (inl z));
      },
    )

-- Waking two lists up is waking up one after the other.
pub wake_all-append :
    (turn_node : ℕ → Bool) (xs ys : List ℕ) (s : Scheduler)
    → wake_all turn_node (xs ++ ys) s ≡ (wake_all turn_node xs s >>= wake_all turn_node ys)
unfolding wake_all
wake_all-append turn_node [] ys s = refl
wake_all-append turn_node (t ∷ xs) ys s =
    elim (Option-cases (scheduler_wake_up (turn_node t) t s)) [
      | inl e ↦ rw e refl
      | inr (s₁, e) ↦ rw e (wake_all-append turn_node xs ys s₁)
    ]
