-- ===== src/Channel/Pass.antt =====
-- A descriptor that one process passes to another.
use z_os.Base.{
  update, update_other, update_self, ℕ, ℤ, pos, negsuc, ◌≡◌, ◌≢◌, zero, suc, refl, ap, ◌∙◌, Bool,
  true, false, some, none, List, [], ◌∷◌, ◌++◌, get_elem?, length, ==-false,
}
use z_os.Channel.{FdMessage, State, Cpu, received, find, is_minus_one, channel_of, with_file}
use z_os.Channel.Descriptors.{take_fd, channel_recv_fd}

get_elem?-last : (table : List ℕ) (f : ℕ) → get_elem? (table ++ (f ∷ [])) (length table) ≡ some f
get_elem?-last [] f = refl
get_elem?-last (g ∷ table) f = get_elem?-last table f

get_elem?-before :
    (table : List ℕ) (f i g : ℕ)
    → get_elem? table i ≡ some g
    → get_elem? (table ++ (f ∷ [])) i ≡ some g
get_elem?-before [] f i g e = absurd (cc)
get_elem?-before (h ∷ table) f zero g e = e
get_elem?-before (h ∷ table) f (suc i) g e = get_elem?-before table f i g e

find-before :
    (table : List ℕ) (f : ℕ) (h : ℤ) (g : ℕ)
    → find table h ≡ some g
    → find (table ++ (f ∷ [])) h ≡ some g
find-before table f (pos n) g e = get_elem?-before table f n g e
find-before table f (negsuc n) g e = absurd (cc)

-- A call for a message that passes the open file `passed`: the descriptor is that of a channel file,
-- `object` is the first of its messages, and the process and the descriptor that it names exist.
pub record IsPassing (channel_fd : ℤ) (process file object passed : ℕ) (s : State) : Type 0 where
  pub valid : is_minus_one channel_fd ≡ false
  pub caller : channel_of channel_fd s ≡ some (process, file)
  pub present : file ≢ 0
  pub channel : (s.channel_files file).source_channel ≢ 0
  pub rest : List ℕ
  pub first : (s.channel_files file).fd_messages ≡ object ∷ rest
  pub allocated : object ≢ 0
  pub message : FdMessage
  pub live : s.fd_objects object ≡ some message
  pub process_file : ℕ
  pub found : find s.file_table message.process_fd ≡ some process_file
  pub exists : process_file ≢ 0
  pub private : (s.files process_file).private_data ≢ 0
  pub descriptor :
      find (s.processes (s.files process_file).private_data).fd_table message.fd ≡ some passed
  pub opened : passed ≢ 0

take-passed :
    (channel_fd : ℤ) (process file object passed : ℕ) (s : State)
    (p : IsPassing channel_fd process file object passed s)
    → take_fd true process file object p.rest s
      ≡ some (
        received (pos (length (s.processes process).fd_table), p.message.data_bytes),
        record (with_file file (record (s.channel_files file) { fd_messages = p.rest }) s) {
          fd_objects = update s.fd_objects object none;
          processes = update s.processes process (record (s.processes process) {
            fd_table = (s.processes process).fd_table ++ (passed ∷ []);
          });
        },
      )
unfolding take_fd
take-passed channel_fd process file object passed s p =
    rw
      (
        ==-false object 0 p.allocated,
        p.live,
        p.found,
        ==-false p.process_file 0 p.exists,
        ==-false (s.files p.process_file).private_data 0 p.private,
        p.descriptor,
        ==-false passed 0 p.opened,
      )
      refl

recv_call :
    (cpu : Cpu) (node_found : Bool) (channel_fd : ℤ) (process file object passed : ℕ) (s : State)
    (p : IsPassing channel_fd process file object passed s)
    → channel_recv_fd cpu node_found true channel_fd true s
      ≡ take_fd true process file object p.rest s
unfolding channel_recv_fd
recv_call cpu node_found channel_fd process file object passed s p =
    rw
      (
        p.valid,
        p.caller,
        ==-false file 0 p.present,
        ==-false (s.channel_files file).source_channel 0 p.channel,
        p.first,
      )
      refl

-- When a descriptor is that of a channel file, the process and the descriptor that its first
-- message names exist, and there is room in the descriptor table of the caller's process,
-- channel_recv_fd gives the process the data and a new descriptor, under which it finds the same
-- open file; what it found before it still finds, no other process changes, and the message leaves
-- the queue.
pub channel_recv_fd-passed :
    (cpu : Cpu) (node_found : Bool) (channel_fd : ℤ) (process file object passed : ℕ) (s : State)
    (p : IsPassing channel_fd process file object passed s)
    → (fd : ℤ) × (s' : State) × (channel_recv_fd cpu node_found true channel_fd true s
        ≡ some (received (fd, p.message.data_bytes), s'))
      × (find (s'.processes process).fd_table fd ≡ some passed)
      × ((h : ℤ) (g : ℕ)
          → find (s.processes process).fd_table h ≡ some g
          → find (s'.processes process).fd_table h ≡ some g)
      × ((q : ℕ) → q ≢ process → s'.processes q ≡ s.processes q)
      × ((s'.channel_files file).fd_messages ≡ p.rest)
channel_recv_fd-passed cpu node_found channel_fd process file object passed s p =
    let table : List ℕ = (s.processes process).fd_table in
    let new : update s.processes process
          (record (s.processes process) { fd_table = table ++ (passed ∷ []) }) process
        ≡ record (s.processes process) { fd_table = table ++ (passed ∷ []) } =
      update_self s.processes process _ in
    (
      pos (length table),
      _,
      recv_call cpu node_found channel_fd process file object passed s p
          ∙ take-passed channel_fd process file object passed s p,
      ap (λ x. get_elem? x.fd_table (length table)) new ∙ get_elem?-last table passed,
      (λ h g e. ap (λ x. find x.fd_table h) new ∙ find-before table passed h g e),
      (λ q n. update_other s.processes process q _ n),
      ap (λ x. x.fd_messages) (update_self s.channel_files file _),
    )
