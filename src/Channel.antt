-- ===== src/Channel.antt =====
-- kernel/process/channel.c: the endpoints of a channel, their queues of messages, and the threads
-- that wait for one. Objects are addresses, 0 for NULL, in stores; a linked list is the list of what
-- its nodes point to. A message object and the copy of the data it points to are one object, which
-- kmalloc makes and kfree takes away. `none` is a failed assertion, or the use of a message that was
-- freed. What the memory still has room for is an argument: `object`, the address of the message
-- object, and `Room`, which says for which lists a node is found. The scheduler's state is part of
-- the state: a call that blocks gives its turn away, and its loop goes on as the same call anew. The
-- size that a read returns is read from the message object after its kfree: it is taken to be what it
-- was before.
pub mod Fan
pub mod Wake
pub mod Queue
pub mod Peers
pub mod Wait
pub mod Descriptors
pub mod Pass
mod Tests
use z_os.Base.{
  update, ℕ, ℤ, pos, negsuc, is_negative, Bool, true, false, not, ◌&&◌, ◌||◌, Option, none, some,
  Status, ok, fail, null, List, [], ◌∷◌, ◌++◌, ltb, ◌==◌, get_elem?, length, if◌then◌else◌,
}
use z_os.Scheduler.{
  ThreadState, ready, running, suspended, blocked, terminated, Thread, Scheduler,
  scheduler_wait_for_event, scheduler_wake_up,
}

infixl 5 ◌>>=◌ ◌>>◌
abbrev pub ◌>>=◌ {ℓ κ} : {A : Type ℓ} {B : Type κ} → Option A → (A → Option B) → Option B
none >>= f = none
some a >>= f = f a

abbrev pub ◌>>◌ {ℓ} : {B : Type ℓ} → Option (Unit {0}) → Option B → Option B
m >> k = m >>= λ _. k

abbrev pub assert : Bool → Option (Unit {0})
assert true = some tt
assert false = none

-- The data of a channel_message_t, whose `size` is their number.
abbrev pub Message : Type 0
Message = List ℕ

pub record FdMessage : Type 0 where
  pub data_bytes : List ℕ
  pub process_fd : ℤ
  pub fd : ℤ

-- The channel is the one that source_channel's private_data points to.
pub record ChannelFile : Type 0 where
  pub source_channel : ℕ
  pub nonblock : Bool
  pub messages : List ℕ
  pub recv_waiters : List ℕ
  pub fd_messages : List ℕ
  pub recv_fd_waiters : List ℕ

-- A file_t: `is_channel` says that its operations are those of a channel.
pub record File : Type 0 where
  pub private_data : ℕ
  pub is_channel : Bool

-- A process: the files of its fd_table, by the descriptor.
pub record Process : Type 0 where
  pub handle : ℤ
  pub fd_table : List ℕ

-- `endpoints` lists the channel files of a channel. `file_table` is the system's.
pub record State : Type 0 where
  pub endpoints : ℕ → List ℕ
  pub channel_files : ℕ → ChannelFile
  pub objects : ℕ → Option Message
  pub fd_objects : ℕ → Option FdMessage
  pub files : ℕ → File
  pub file_table : List ℕ
  pub processes : ℕ → Process
  pub scheduler : Scheduler

-- Where a node is found: for the messages of a channel file, and for a thread in the run queue.
pub record Room : Type 0 where
  pub message_node : ℕ → Bool
  pub turn_node : ℕ → Bool

abbrev pub with_file : ℕ → ChannelFile → State → State
with_file p file s = record s { channel_files = update s.channel_files p file }

-- The loop that wakes every thread up that waits.
unfoldable pub wake_all : (ℕ → Bool) → List ℕ → Scheduler → Option Scheduler
wake_all turn_node [] scheduler = some scheduler
wake_all turn_node (t ∷ waiters) scheduler =
    scheduler_wake_up (turn_node t) t scheduler >>= wake_all turn_node waiters

-- One endpoint gets the message, and its threads are woken up.
unfoldable pub deliver : Room → ℕ → ℕ → State → Option State
deliver room object p s = do
  assert (not (p == null))
  let file = s.channel_files p
  scheduler ← wake_all room.turn_node file.recv_waiters s.scheduler
  some
      (record (with_file p
        (record file {
          messages = if room.message_node p then file.messages ++ (object ∷ []) else file.messages;
          recv_waiters = [];
        })
        s) { scheduler = scheduler })

-- The loop over the endpoints, which skips `self`.
unfoldable pub fan_out : Room → (self object : ℕ) → List ℕ → State → Option State
fan_out room self object [] s = some s
fan_out room self object (p ∷ endpoints) s =
    if p == self
    then fan_out room self object endpoints s
    else (deliver room object p s >>= fan_out room self object endpoints)

-- The data are the `size` bytes at `data`, of which there are none for NULL.
abbrev pub is_empty : List ℕ → Bool
is_empty [] = true
is_empty (_ ∷ _) = false

-- `file` is the channel file that the file's private_data points to.
unfoldable pub channel_file_write :
    Room → (object file : ℕ) → (bytes : List ℕ) → State → Option (Status × State)
channel_file_write room object file bytes s = if is_empty bytes then some (fail, s) else (do
  assert (not (file == null))
  let channel = (s.channel_files file).source_channel
  assert (not (channel == null))
  assert (not (object == null))
  s' ←
      fan_out room file object (s.endpoints channel)
        (record s { objects = update s.objects object (some bytes) })
  some (ok, s'))

-- What a call to receive comes to: -1, the bytes it wrote to the caller, or a wait, after which the
-- loop looks again.
pub data Outcome (A : Type 0) : Type 0 where
  failed : Outcome A
  received : A → Outcome A
  waits : Outcome A

-- The processor's registers at a wait.
pub record Cpu : Type 0 where
  pub registers : ℕ → ℕ
  pub sp : ℕ
  pub lr : ℕ

abbrev pub is_running : ThreadState → Bool
is_running running = true
is_running ready = false
is_running suspended = false
is_running blocked = false
is_running terminated = false

-- The body of the loop that waits: the current thread goes to the waiters, which makes `waiting` of
-- the state `s`, and blocks.
unfoldable pub wait_for :
    {A : Type 0} → Cpu → (node_found : Bool) → (s waiting : State) → Option (Outcome A × State)
wait_for cpu node_found s waiting = do
  assert (not (s.scheduler.current_thread == null))
  assert (is_running (s.scheduler.threads s.scheduler.current_thread).state)
  if not node_found then some (failed, s) else (do
    scheduler ← scheduler_wait_for_event cpu.registers cpu.sp cpu.lr s.scheduler
    some (waits, record waiting { scheduler = scheduler }))

-- A message at the head of the queue: it is copied, freed and popped, if it fits.
unfoldable pub take :
    (file object : ℕ) → List ℕ → (size : ℕ) → State → Option (Outcome Message × State)
take file object rest size s = do
  assert (not (object == null))
  message ← s.objects object
  if ltb size (length message)
      then some (failed, s)
      else some (
        received message,
        record (with_file file (record (s.channel_files file) { messages = rest }) s) {
          objects = update s.objects object none;
        },
      )

-- `present` says that `data` is not NULL.
unfoldable pub channel_file_read :
    Cpu
    → (node_found : Bool) → (file : ℕ) (present : Bool) (size : ℕ) → State
    → Option (Outcome Message × State)
channel_file_read cpu node_found file present size s =
    if not present || size == 0 then some (failed, s) else (do
      assert (not (file == null))
      let channel_file = s.channel_files file
      assert (not (channel_file.source_channel == null))
      elim channel_file.messages [
        | [] ↦
            if channel_file.nonblock
            then some (failed, s)
            else wait_for cpu node_found s (
                with_file file
                  (record channel_file {
                    recv_waiters = channel_file.recv_waiters ++ (s.scheduler.current_thread ∷ []);
                  })
                  s)
        | object ∷ rest ↦ take file object rest size s
      ])

-- The file of a handle, 0 for one that was removed; `none` for a handle that was not given.
abbrev pub find : List ℕ → ℤ → Option ℕ
find table (pos n) = get_elem? table n
find table (negsuc n) = none

abbrev pub is_minus_one : ℤ → Bool
is_minus_one (pos n) = false
is_minus_one (negsuc n) = n == 0

-- The process of the current thread, and the channel file of one of its descriptors.
unfoldable pub channel_of : ℤ → State → Option (ℕ × ℕ)
channel_of fd s = do
  assert (not (s.scheduler.current_thread == null))
  let process = (s.scheduler.threads s.scheduler.current_thread).process
  assert (not (process == null))
  file_object ← find (s.processes process).fd_table fd
  assert (not (file_object == null))
  assert (s.files file_object).is_channel
  some (process, (s.files file_object).private_data)

unfoldable pub channel_send :
    Room → (object : ℕ) → (fd : ℤ) → (bytes : List ℕ) → State → Option (Status × State)
channel_send room object fd bytes s =
    if is_minus_one fd || is_empty bytes then some (fail, s) else (do
      (process, file) ← channel_of fd s
      assert (is_running (s.scheduler.threads s.scheduler.current_thread).state)
      channel_file_write room object file bytes s)

unfoldable pub channel_recv :
    Cpu
    → (node_found : Bool) → (fd : ℤ) (present : Bool) (size : ℕ) → State
    → Option (Outcome Message × State)
channel_recv cpu node_found fd present size s =
    if is_minus_one fd || not present || size == 0 then some (failed, s) else (do
      (process, file) ← channel_of fd s
      assert (is_running (s.scheduler.threads s.scheduler.current_thread).state)
      channel_file_read cpu node_found file present size s)
