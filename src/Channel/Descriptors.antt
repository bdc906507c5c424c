-- ===== src/Channel/Descriptors.antt =====
-- kernel/process/channel.c, the passing of descriptors: channel_send_fd and channel_recv_fd, which
-- follow the sending and receiving of messages with queues and waiters of their own.
use z_os.Base.{
  update, ℕ, ℤ, pos, Bool, not, ◌||◌, Option, none, some, Status, ok, fail, null, List, [], ◌∷◌,
  ◌++◌, ◌==◌, length, if◌then◌else◌,
}
use z_os.Channel.{
  ◌>>=◌, ◌>>◌, assert, FdMessage, State, Room, Cpu, Outcome, failed, received, with_file, wake_all,
  wait_for, find, is_minus_one, channel_of,
}

unfoldable pub deliver_fd : Room → ℕ → ℕ → State → Option State
deliver_fd room object p s = do
  assert (not (p == null))
  let file = s.channel_files p
  scheduler ← wake_all room.turn_node file.recv_fd_waiters s.scheduler
  some
      (record (with_file p
        (record file {
          fd_messages =
              if room.message_node p then file.fd_messages ++ (object ∷ []) else file.fd_messages;
          recv_fd_waiters = [];
        })
        s) { scheduler = scheduler })

unfoldable pub fan_out_fd : Room → (self object : ℕ) → List ℕ → State → Option State
fan_out_fd room self object [] s = some s
fan_out_fd room self object (p ∷ endpoints) s =
    if p == self
    then fan_out_fd room self object endpoints s
    else (deliver_fd room object p s >>= fan_out_fd room self object endpoints)

unfoldable pub channel_send_fd :
    Room → (object : ℕ) → (channel_fd fd : ℤ) → (bytes : List ℕ) → State → Option (Status × State)
channel_send_fd room object channel_fd fd bytes s =
    if is_minus_one channel_fd || is_minus_one fd then some (fail, s) else (do
      (process, file) ← channel_of channel_fd s
      assert (not (file == null))
      let channel = (s.channel_files file).source_channel
      assert (not (channel == null))
      assert (not (object == null))
      let message : FdMessage = record {
        data_bytes = bytes;
        process_fd = (s.processes process).handle;
        fd = fd;
      }
      s' ←
          fan_out_fd room file object (s.endpoints channel)
            (record s { fd_objects = update s.fd_objects object (some message) })
      some (ok, s'))

-- The file that a message of another process passes on, and its data; `slot_found` says that the
-- descriptor table of the process has room.
unfoldable pub take_fd :
    (slot_found : Bool)
    → (process file object : ℕ) → List ℕ
    → State
    → Option (Outcome (ℤ × List ℕ) × State)
take_fd slot_found process file object rest s = do
  assert (not (object == null))
  message ← s.fd_objects object
  source_process_file ← find s.file_table message.process_fd
  assert (not (source_process_file == null))
  let source_process = (s.files source_process_file).private_data
  assert (not (source_process == null))
  source_fd_file ← find (s.processes source_process).fd_table message.fd
  assert (not (source_fd_file == null))
  assert slot_found
  let target = s.processes process
  some (
    received (pos (length target.fd_table), message.data_bytes),
    record (with_file file (record (s.channel_files file) { fd_messages = rest }) s) {
      fd_objects = update s.fd_objects object none;
      processes =
          update s.processes process
            (record target { fd_table = target.fd_table ++ (source_fd_file ∷ []) });
    },
  )

-- `present` says that `fd` is not NULL. The code does not compare the size of the caller's buffer
-- with that of the message.
unfoldable pub channel_recv_fd :
    Cpu
    → (node_found slot_found : Bool) → (channel_fd : ℤ) (present : Bool) → State
    → Option (Outcome (ℤ × List ℕ) × State)
channel_recv_fd cpu node_found slot_found channel_fd present s =
    if is_minus_one channel_fd || not present then some (failed, s) else (do
      (process, file) ← channel_of channel_fd s
      assert (not (file == null))
      let channel_file = s.channel_files file
      assert (not (channel_file.source_channel == null))
      elim channel_file.fd_messages [
        | [] ↦
            if channel_file.nonblock
            then some (failed, s)
            else wait_for cpu node_found s (
                with_file file
                  (record channel_file {
                    recv_fd_waiters =
                        channel_file.recv_fd_waiters ++ (s.scheduler.current_thread ∷ []);
                  })
                  s)
        | object ∷ rest ↦ take_fd slot_found process file object rest s
      ])
