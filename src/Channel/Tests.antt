-- ===== src/Channel/Tests.antt =====
-- A channel with three endpoints, at one of which a thread waits, and the theorems at it.
use z_os.Base.{
  ℕ, ℤ, pos, ◌≡◌, ◌≢◌, ◌≤◌, ◌<◌, inl, inr, refl, true, false, none, some, ok, List, [], ◌∷◌, ◌==◌,
  if◌then◌else◌, arith,
}
use z_os.Scheduler.{ThreadState, ready, running, blocked, user, Thread, Scheduler}
use z_os.Scheduler.Order.{IsQueue, IsScheduled, Ran}
use z_os.Channel.{
  ChannelFile, State, Room, Cpu, received, failed, waits, find, channel_of, channel_file_write,
  channel_file_read,
}
use z_os.Channel.Descriptors.{channel_recv_fd}
use z_os.Channel.Fan.{IsSender, Sent, channel_file_write-Sent}
use z_os.Channel.Queue.{Holds, channel_file_write-Holds, channel_file_read-Holds}
use z_os.Channel.Peers.{IsReceiver, channel_file_read-freed}
use z_os.Channel.Wait.{IsCaller, channel_file_read-waits}
use z_os.Channel.Pass.{IsPassing, channel_recv_fd-passed}

abbrev thread : ThreadState → Thread
thread state = record {
  process = 0x40;
  kernel_stack_top = 0x8000;
  stack_top = 0x2000;
  state = state;
  type = user;
  ctx = record { entry_point = 0; sp = 0; registers = λ i. 0; spsr = 0; elr = 0 };
  queued = false;
}

-- Thread 1 runs, thread 3 is blocked, and none waits for its turn.
abbrev scheduler : Scheduler
scheduler = record {
  current_thread = 1;
  run_queue = [];
  idle_thread = 0x100;
  threads = λ t. if t == 1 then thread running else if t == 3 then thread blocked else thread ready;
}

abbrev endpoint : List ℕ → List ℕ → List ℕ → ChannelFile
endpoint messages waiters fd_messages = record {
  source_channel = 0x10;
  nonblock = false;
  messages = messages;
  recv_waiters = waiters;
  fd_messages = fd_messages;
  recv_fd_waiters = [];
}

-- Thread 3 waits at endpoint 2; endpoint 4 holds the message at 0x50, and 5 a descriptor.
abbrev state : State
state = record {
  endpoints = λ c. if c == 0x10 then 1 ∷ 2 ∷ 3 ∷ 4 ∷ 5 ∷ [] else [];
  channel_files = λ p.
      if p == 2
      then endpoint [] (3 ∷ []) []
      else if p == 4
      then endpoint (0x50 ∷ []) [] []
      else if p == 5
      then endpoint [] [] (0x60 ∷ [])
      else endpoint [] [] [];
  objects = λ o. if o == 0x50 then some (7 ∷ 8 ∷ []) else none;
  fd_objects = λ o.
      if o == 0x60
      then some (record { data_bytes = 9 ∷ []; process_fd = pos 1; fd = pos 0 })
      else none;
  files = λ f.
      if f == 0x70
      then record { private_data = 5; is_channel = true }
      else record { private_data = 0x41; is_channel = false };
  file_table = 0x70 ∷ 0x71 ∷ [];
  processes = λ p.
      if p == 0x40
      then record { handle = pos 0; fd_table = 0x70 ∷ [] }
      else record { handle = pos 1; fd_table = 0x72 ∷ [] };
  scheduler = scheduler;
}

abbrev room : Room
room = record { message_node = λ p. true; turn_node = λ t. true }

abbrev cpu : Cpu
cpu = record { registers = λ i. i; sp = 0x1f00; lr = 0x44 }

scheduler-IsQueue : IsQueue scheduler.run_queue scheduler.threads
scheduler-IsQueue = record {
  once = tt;
  startable = λ t i. elim i [ ];
  marked = λ t i. elim i [ ];
  listed = λ t m. ground arith;
}

scheduler-IsScheduled : IsScheduled scheduler
scheduler-IsScheduled = record { queue = scheduler-IsQueue; runs = λ _. refl }

scheduler-IsCaller : IsCaller scheduler
scheduler-IsCaller = record {
  scheduled = scheduler-IsScheduled;
  current = omega arith;
  busy = omega arith;
}

state-IsSender : IsSender 1 state
state-IsSender = record {
  file = omega arith;
  channel = omega arith;
  once = ground arith;
  present = λ p i. ground arith;
  scheduled = scheduler-IsScheduled;
  waiters = ((λ i. i), tt);
  blocked = λ t i. ground arith;
}

state-Holds : Holds 4 ((7 ∷ 8 ∷ []) ∷ []) state
state-Holds = record { live = refl; once = ((λ i. i), tt); present = λ o i. ground arith }

channel_file_write-Sent_example :
    (s' : State) × (channel_file_write room 0x80 1 (5 ∷ []) state ≡ some (ok, s'))
    × Sent room 1 0x80 (5 ∷ []) state s'
channel_file_write-Sent_example =
    channel_file_write-Sent room 0x80 1 (5 ∷ []) state state-IsSender (omega arith) (λ e. cc)

channel_file_write-Holds_example :
    (s' : State) × (channel_file_write room 0x80 1 (5 ∷ []) state ≡ some (ok, s'))
    × Holds 4 ((7 ∷ 8 ∷ []) ∷ (5 ∷ []) ∷ []) s'
channel_file_write-Holds_example =
    channel_file_write-Holds room 0x80 1 4 (5 ∷ []) ((7 ∷ 8 ∷ []) ∷ []) state state-IsSender
      (omega arith) refl (λ e. cc) (inr (inr (inr (inl refl)))) (omega arith) refl state-Holds

channel_file_read-Holds_example :
    (2 ≤ 16
      → (s' : State) × (channel_file_read cpu true 4 true 16 state
          ≡ some (received (7 ∷ 8 ∷ []), s'))
        × Holds 4 [] s')
    × (16 < 2 → channel_file_read cpu true 4 true 16 state ≡ some (failed, state))
channel_file_read-Holds_example =
    channel_file_read-Holds cpu true 4 16 (7 ∷ 8 ∷ []) [] state (omega arith) (omega arith)
      (omega arith) state-Holds

two-IsReceiver : IsReceiver room 1 state 2
two-IsReceiver = record {
  member = inr (inl refl);
  other = omega arith;
  node = refl;
  empty = refl;
  channel = omega arith;
}

three-IsReceiver : IsReceiver room 1 state 3
three-IsReceiver = record {
  member = inr (inr (inl refl));
  other = omega arith;
  node = refl;
  empty = refl;
  channel = omega arith;
}

channel_file_read-freed_example :
    (s' s'' : State) × (channel_file_write room 0x80 1 (5 ∷ []) state ≡ some (ok, s'))
    × (channel_file_read cpu true 2 true 16 s' ≡ some (received (5 ∷ []), s''))
    × (channel_file_read cpu true 3 true 16 s'' ≡ none)
channel_file_read-freed_example =
    channel_file_read-freed room 0x80 1 2 3 (5 ∷ []) state state-IsSender (omega arith) (λ e. cc)
      two-IsReceiver three-IsReceiver (omega arith) cpu true 16 16 (omega arith) (omega arith)
      (omega arith)

channel_file_read-waits_example :
    (s' : State) × (channel_file_read cpu true 3 true 16 state ≡ some (waits, s'))
    × Ran [] 0x100 s'.scheduler
    × ((s'.channel_files 3).recv_waiters ≡ 1 ∷ [])
    × ((s'.scheduler.threads 1).state ≡ blocked)
channel_file_read-waits_example =
    channel_file_read-waits cpu 3 16 state scheduler-IsCaller (omega arith) (omega arith)
      (omega arith) refl refl

state-IsPassing : IsPassing (pos 0) 0x40 5 0x60 0x72 state
unfolding channel_of
state-IsPassing = record {
  valid = refl;
  caller = refl;
  present = omega arith;
  channel = omega arith;
  rest = [];
  first = refl;
  allocated = omega arith;
  message = record { data_bytes = 9 ∷ []; process_fd = pos 1; fd = pos 0 };
  live = refl;
  process_file = 0x71;
  found = refl;
  exists = omega arith;
  private = omega arith;
  descriptor = refl;
  opened = omega arith;
}

channel_recv_fd-passed_example :
    (fd : ℤ) × (s' : State) × (channel_recv_fd cpu true true (pos 0) true state
      ≡ some (received (fd, state-IsPassing.message.data_bytes), s'))
    × (find (s'.processes 0x40).fd_table fd ≡ some 0x72)
    × ((h : ℤ) (g : ℕ)
        → find (state.processes 0x40).fd_table h ≡ some g
        → find (s'.processes 0x40).fd_table h ≡ some g)
    × ((q : ℕ) → q ≢ 0x40 → s'.processes q ≡ state.processes q)
    × ((s'.channel_files 5).fd_messages ≡ state-IsPassing.rest)
channel_recv_fd-passed_example =
    channel_recv_fd-passed cpu true (pos 0) 0x40 5 0x60 0x72 state state-IsPassing
