-- ===== src/Channel/Wait.antt =====
-- A read with nothing to read: the thread waits at the channel file, and another has the turn.
use z_os.Base.{update_self, ℕ, ◌≡◌, ◌≢◌, ap, true, false, some, [], ◌∷◌, ◌++◌, ==-false}
use z_os.Scheduler.{blocked, Scheduler, scheduler_wait_for_event}
use z_os.Scheduler.Order.{IsScheduled, Ran}
use z_os.Scheduler.Turns.{scheduler_wait_for_event-Ran, scheduler_wait_for_event-blocked}
use z_os.Channel.{State, Cpu, waits, with_file, wait_for, channel_file_read}

-- A running thread, other than the idle thread, in a scheduled state.
pub record IsCaller (s : Scheduler) : Type 0 where
  pub scheduled : IsScheduled s
  pub current : s.current_thread ≢ 0
  pub busy : s.current_thread ≢ s.idle_thread

wait_call :
    (cpu : Cpu) (file size : ℕ) (s : State) (scheduler : Scheduler)
    → IsCaller s.scheduler
    → size ≢ 0
    → file ≢ 0
    → (s.channel_files file).source_channel ≢ 0
    → (s.channel_files file).messages ≡ []
    → (s.channel_files file).nonblock ≡ false
    → scheduler_wait_for_event cpu.registers cpu.sp cpu.lr s.scheduler ≡ some scheduler
    → channel_file_read cpu true file true size s
      ≡ some (
        waits,
        record (with_file file
            (record (s.channel_files file) {
              recv_waiters =
                  (s.channel_files file).recv_waiters ++ (s.scheduler.current_thread ∷ []);
            })
            s) { scheduler = scheduler },
      )
unfolding channel_file_read wait_for
wait_call cpu file size s scheduler v z f c e block w =
    rw
      (
        ==-false size 0 z,
        ==-false file 0 f,
        ==-false (s.channel_files file).source_channel 0 c,
        e,
        block,
        ==-false s.scheduler.current_thread 0 v.current,
        v.scheduled.runs v.current,
        w,
      )
      cc

-- A read by a running thread other than the idle thread, in a scheduled state, with a buffer that
-- is not empty, on a channel file that has a channel, no O_NONBLOCK and no messages, when there is
-- a node for the thread: the thread becomes the last that waits there, it is blocked, and the
-- first of the run queue, or the idle thread, has its turn.
pub channel_file_read-waits :
    (cpu : Cpu) (file size : ℕ) (s : State)
    → IsCaller s.scheduler
    → size ≢ 0
    → file ≢ 0
    → (s.channel_files file).source_channel ≢ 0
    → (s.channel_files file).messages ≡ []
    → (s.channel_files file).nonblock ≡ false
    → (s' : State) × (channel_file_read cpu true file true size s ≡ some (waits, s'))
      × Ran s.scheduler.run_queue s.scheduler.idle_thread s'.scheduler
      × ((s'.channel_files file).recv_waiters
          ≡ (s.channel_files file).recv_waiters ++ (s.scheduler.current_thread ∷ []))
      × ((s'.scheduler.threads s.scheduler.current_thread).state ≡ blocked)
channel_file_read-waits cpu file size s v z f c e block =
    let (scheduler, w, r) =
      scheduler_wait_for_event-Ran cpu.registers cpu.sp cpu.lr s.scheduler v.scheduled v.current in
    (
      _,
      wait_call cpu file size s scheduler v z f c e block w,
      r,
      ap (λ x. x.recv_waiters) (update_self s.channel_files file _),
      scheduler_wait_for_event-blocked cpu.registers cpu.sp cpu.lr s.scheduler scheduler v.scheduled
          v.current v.busy w,
    )
