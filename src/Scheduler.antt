-- ===== src/Scheduler.antt =====
-- kernel/scheduler/scheduler.c, scheduler.S and thread.c: the run queue and the state of each thread.
-- A thread is its address, 0 for NULL; the run queue is the list of the threads of its nodes, from
-- the head. `none` is a failed assertion on the queue or a thread. `node_found` says that kmalloc has
-- memory for a node of the run queue. The switch of page tables and stack pointers of the processor
-- is not modelled, and the two assertions that it succeeds, on mmap_apply_mappings and
-- vmap_apply_table, are taken to hold.
pub mod Order
pub mod Turns
pub mod Fair
pub mod Start
mod Tests
use z_os.Base.{
  ℕ, ◌+◌, ◌^◌, Bool, true, false, not, ◌&&◌, ◌||◌, Option, none, some, Status, ok, fail, null, List,
  [], ◌∷◌, ◌++◌, add64, ltb, leb, ◌==◌, if◌then◌else◌,
}

pub data ThreadState : Type 0 where
  ready running suspended blocked terminated : ThreadState

pub data ThreadType : Type 0 where
  kernel user : ThreadType

pub record ThreadContext : Type 0 where
  pub entry_point : ℕ
  pub sp : ℕ
  pub registers : ℕ → ℕ
  pub spsr : ℕ
  pub elr : ℕ

-- `queued` says that run_queue_node is not NULL.
pub record Thread : Type 0 where
  pub process : ℕ
  pub kernel_stack_top : ℕ
  pub stack_top : ℕ
  pub state : ThreadState
  pub type : ThreadType
  pub ctx : ThreadContext
  pub queued : Bool

pub record ExceptionFrame : Type 0 where
  pub registers : ℕ → ℕ
  pub sp : ℕ
  pub spsr : ℕ
  pub elr : ℕ

-- The scheduler_t and the threads at their addresses; `idle_thread` is the address of its field.
pub record Scheduler : Type 0 where
  pub current_thread : ℕ
  pub run_queue : List ℕ
  pub idle_thread : ℕ
  pub threads : ℕ → Thread

-- KERNEL_STACK_SIZE, and the SPSR modes of the two types.
abbrev pub kernel_stack_size : ℕ
kernel_stack_size = 32768

abbrev pub spsr_mode : ThreadType → ℕ
spsr_mode kernel = 0x5
spsr_mode user = 0x0

-- What memory_set leaves of a thread.
abbrev pub zeroed_thread : Thread
zeroed_thread = record {
  process = 0;
  kernel_stack_top = 0;
  stack_top = 0;
  state = ready;
  type = kernel;
  ctx = record { entry_point = 0; sp = 0; registers = λ i. 0; spsr = 0; elr = 0 };
  queued = false;
}

-- The thread, and whether there was memory for its stack; `kernel_stack` is what kmalloc gives.
unfoldable pub thread_init : ℕ → ℕ → ThreadType → ℕ → Status × Thread
thread_init entry_point stack_top type kernel_stack =
    let thread = record zeroed_thread { stack_top = stack_top; type = type } in
    if kernel_stack == null then (fail, thread) else (
      ok,
      record thread {
        kernel_stack_top = add64 kernel_stack kernel_stack_size;
        ctx = record thread.ctx {
          entry_point = entry_point;
          elr = entry_point;
          sp = stack_top;
          spsr = spsr_mode type;
        };
      },
    )

abbrev pub with_thread : ℕ → Thread → (ℕ → Thread) → ℕ → Thread
with_thread t thread threads u = if u == t then thread else threads u

abbrev pub with_state : ℕ → ThreadState → Scheduler → Scheduler
with_state t state s = record s {
  threads = with_thread t (record (s.threads t) { state = state }) s.threads;
}

-- `idle_entry`, then what kmalloc gives for the two stacks.
unfoldable pub scheduler_init : ℕ → ℕ → ℕ → Scheduler → Status × Scheduler
scheduler_init idle_entry idle_stack kernel_stack s =
    let empty : Scheduler = record s {
      current_thread = null;
      run_queue = [];
      threads = with_thread s.idle_thread zeroed_thread s.threads;
    } in
    if idle_stack == null then (fail, empty) else (
      ok,
      record empty {
        threads =
            with_thread s.idle_thread
              (thread_init idle_entry (add64 idle_stack 4096) kernel kernel_stack).1 s.threads;
      },
    )

abbrev pub is_terminated : ThreadState → Bool
is_terminated terminated = true
is_terminated ready = false
is_terminated running = false
is_terminated suspended = false
is_terminated blocked = false

abbrev pub is_blocked : ThreadState → Bool
is_blocked blocked = true
is_blocked ready = false
is_blocked running = false
is_blocked suspended = false
is_blocked terminated = false

-- `state == THREAD_STATE_READY || state == THREAD_STATE_SUSPENDED`
abbrev pub is_startable : ThreadState → Bool
is_startable ready = true
is_startable suspended = true
is_startable running = false
is_startable blocked = false
is_startable terminated = false

unfoldable pub scheduler_add_thread : Bool → ℕ → Scheduler → Option (Status × Scheduler)
scheduler_add_thread node_found t s =
    if (s.threads t).queued || not (is_startable (s.threads t).state)
    then none
    else if not node_found
    then some (fail, s)
    else some (
      ok,
      record s {
        run_queue = s.run_queue ++ (t ∷ []);
        threads = with_thread t (record (s.threads t) { queued = true }) s.threads;
      },
    )

abbrev pub thread_start : Bool → ℕ → Scheduler → Option (Status × Scheduler)
thread_start = scheduler_add_thread

-- scheduler_remove_thread of the thread at the head of the queue, whose node the head is.
unfoldable pub dequeue_head : ℕ → (ℕ → Thread) → Option (ℕ → Thread)
dequeue_head t threads =
    if not (threads t).queued
    then none
    else some (with_thread t (record (threads t) { queued = false }) threads)

-- `while (run_queue.head != NULL && next_thread->state == TERMINATED)`, with the queue behind
-- `next_thread`.
unfoldable pub skip_terminated : List ℕ → ℕ → (ℕ → Thread) → Option (ℕ × List ℕ × (ℕ → Thread))
skip_terminated [] next threads = some (next, [], threads)
skip_terminated (t ∷ queue) next threads = elim (is_terminated (threads next).state) [
  | false ↦ some (next, t ∷ queue, threads)
  | true ↦ elim (dequeue_head t threads) [
    | none ↦ none
    | some threads' ↦ skip_terminated queue t threads'
  ]
]

-- The thread that runs next, the queue behind it, and the threads.
unfoldable pub choose : Scheduler → List ℕ → Option (ℕ × List ℕ × (ℕ → Thread))
choose s [] = some (s.idle_thread, [], s.threads)
choose s (t ∷ queue) = elim (dequeue_head t s.threads) [
  | none ↦ none
  | some threads ↦ skip_terminated queue t threads
]

unfoldable pub scheduler_run : Scheduler → Option Scheduler
scheduler_run s = elim (choose s s.run_queue) [
  | none ↦ none
  | some (next, queue, threads) ↦ some (
      with_state next running
        (record s { current_thread = next; run_queue = queue; threads = threads }))
]

-- The context of the current thread at an exception: 32 registers, the stack pointer and two more.
unfoldable pub save_frame : ExceptionFrame → Thread → Thread
save_frame frame thread = record thread {
  ctx = record thread.ctx {
    registers = λ i. if ltb i 32 then frame.registers i else thread.ctx.registers i;
    sp = frame.sp;
    spsr = frame.spsr;
    elr = frame.elr;
  };
}

unfoldable pub scheduler_yield : Bool → ExceptionFrame → Scheduler → Option Scheduler
scheduler_yield node_found frame s =
    if s.current_thread == null
    then none
    else let saved = record s {
      threads =
          with_thread s.current_thread (save_frame frame (s.threads s.current_thread)) s.threads;
    } in
      elim (scheduler_add_thread node_found s.current_thread
        (with_state s.current_thread suspended saved)) [
          | none ↦ none
          | some (_, s') ↦ scheduler_run s'
        ]

-- scheduler_save_and_block: `sp`, `lr` and the registers 19 to 30 are the processor's.
unfoldable pub scheduler_wait_for_event :
    (registers : ℕ → ℕ) (sp lr : ℕ) → Scheduler → Option Scheduler
scheduler_wait_for_event registers sp lr s =
    let thread = s.threads s.current_thread in
    let saved : Thread = record thread {
      ctx = record thread.ctx {
        registers = λ i. if leb 19 i && leb i 30 then registers i else thread.ctx.registers i;
        sp = sp;
        elr = lr;
        spsr = spsr_mode kernel;
      };
    } in
    scheduler_run (
      with_state s.current_thread blocked
        (record s { threads = with_thread s.current_thread saved s.threads }))

unfoldable pub scheduler_wake_up : Bool → ℕ → Scheduler → Option Scheduler
scheduler_wake_up node_found t s =
    if not (is_blocked (s.threads t).state)
    then none
    else elim (scheduler_add_thread node_found t (with_state t suspended s)) [
      | none ↦ none
      | some (_, s') ↦ some s'
    ]

unfoldable pub scheduler_terminate : Scheduler → Option Scheduler
scheduler_terminate s = scheduler_run (with_state s.current_thread terminated s)
