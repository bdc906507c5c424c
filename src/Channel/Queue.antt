-- ===== src/Channel/Queue.antt =====
-- Each channel file as a queue of messages: a write puts at the end, a read takes from the front.
use mathlib.Core.List.{map-append}
use z_os.Base.{
  update, update_self, In-append, Once-append, In, Once, ℕ, ◌≤◌, ◌<◌, ◌≡◌, ◌≢◌, inl, inr, refl, sym,
  ap, ap₂, ◌∙◌, subst, Bool, true, false, Option, some, none, ok, List, [], ◌∷◌, ◌++◌, map, length,
  arith, ltb, ==-false,
}
use z_os.Channel.{
  Message, ChannelFile, State, Room, Cpu, received, failed, with_file, take, channel_file_read,
  channel_file_write,
}
use z_os.Channel.Fan.{IsSender, Present, grown, channel_file_write-Sent}

-- The messages that wait at a channel file: their objects are there, and none is listed twice.
pub record Holds (file : ℕ) (contents : List Message) (s : State) : Type 0 where
  pub live : map s.objects (s.channel_files file).messages ≡ map some contents
  pub once : Once (s.channel_files file).messages
  pub present : Present (s.channel_files file).messages

live-some :
    (objects : ℕ → Option Message) (queue : List ℕ) (contents : List Message) (o : ℕ)
    → map objects queue ≡ map some contents
    → In o queue
    → objects o ≢ none
live-some objects [] contents o e i = elim i [ ]
live-some objects (p ∷ queue) [] o e i = absurd (cc)
live-some objects (p ∷ queue) (m ∷ contents) o e (inl z) = λ n. absurd (cc)
live-some objects (p ∷ queue) (m ∷ contents) o e (inr i) = live-some objects queue contents o (cc) i

map-update :
    (objects : ℕ → Option Message) (queue : List ℕ) (o : ℕ) (v : Option Message)
    → (¬ In o queue)
    → map (update objects o v) queue ≡ map objects queue
map-update objects [] o v n = refl
map-update objects (p ∷ queue) o v n =
    rw (==-false p o (λ e. n (inl (sym e))), map-update objects queue o v (λ i. n (inr i))) refl

-- The endpoint's queue after the message was sent.
pub sent-messages :
    (room : Room) (object p : ℕ) (file : ChannelFile)
    → room.message_node p ≡ true
    → (grown room object p file).messages ≡ file.messages ++ (object ∷ [])
sent-messages room object p file e = rw e refl

-- For a channel file that can send (its endpoints are not NULL and are listed once, the run queue
-- is in order, the threads that wait at the others are blocked and wait once), with the address of
-- an object that is not in use: if the objects queued at another endpoint are still allocated,
-- listed once and not NULL, and there is a node for it, a write of a message that is not empty
-- puts the message at the end of what that endpoint's queue holds, whose objects are again
-- allocated, listed once and not NULL.
pub channel_file_write-Holds :
    (room : Room) (object self p : ℕ) (bytes : Message) (contents : List Message) (s : State)
    → IsSender self s
    → object ≢ 0
    → s.objects object ≡ none
    → bytes ≢ []
    → In p (s.endpoints (s.channel_files self).source_channel)
    → p ≢ self
    → room.message_node p ≡ true
    → Holds p contents s
    → (s' : State) × (channel_file_write room object self bytes s ≡ some (ok, s'))
      × Holds p (contents ++ (bytes ∷ [])) s'
channel_file_write-Holds room object self p bytes contents s v a fresh b i n node h =
    let (s', e, sent) = channel_file_write-Sent room object self bytes s v a b in
    let queue : List ℕ = (s.channel_files p).messages in
    let objects : ℕ → Option Message = update s.objects object (some bytes) in
    let messages : (s'.channel_files p).messages ≡ queue ++ (object ∷ []) =
      ap (λ f. f.messages) (sent.others p i n)
      ∙ sent-messages room object p (s.channel_files p) node in
    let new : ¬ In object queue = λ j. live-some s.objects queue contents object h.live j fresh in
    (
      s',
      e,
      record {
        live =
            ap₂ map (ap (λ x. x.objects) sent.rest) messages
            ∙ map-append objects queue (object ∷ [])
            ∙ ap₂ (λ x y. x ++ y) (map-update s.objects queue object (some bytes) new ∙ h.live)
                (ap (λ x. x ∷ []) (update_self s.objects object (some bytes)))
            ∙ sym (map-append some contents (bytes ∷ []));
        once = subst Once (sym messages) (Once-append object queue h.once new);
        present = λ o j. elim (In-append o object queue (subst (In o) messages j)) [
          | inl k ↦ h.present o k
          | inr z ↦ λ e. a (sym z ∙ e)
        ];
      },
    )

pub read_call :
    (cpu : Cpu) (node_found : Bool) (file object size : ℕ) (rest : List ℕ) (s : State)
    → size ≢ 0
    → file ≢ 0
    → (s.channel_files file).source_channel ≢ 0
    → (s.channel_files file).messages ≡ object ∷ rest
    → channel_file_read cpu node_found file true size s ≡ take file object rest size s
unfolding channel_file_read
read_call cpu node_found file object size rest s z f c e =
    rw (==-false size 0 z, ==-false file 0 f, ==-false (s.channel_files file).source_channel 0 c, e)
      refl

-- What a read of a message that fits leaves.
abbrev pub taken : (file object : ℕ) → List ℕ → State → State
taken file object rest s =
    record (with_file file (record (s.channel_files file) { messages = rest }) s) {
      objects = update s.objects object none;
    }

pub take-fits :
    (file object size : ℕ) (rest : List ℕ) (message : Message) (s : State)
    → object ≢ 0
    → s.objects object ≡ some message
    → length message ≤ size
    → take file object rest size s ≡ some (received message, taken file object rest s)
unfolding take
take-fits file object size rest message s a e l = rw (==-false object 0 a, e, fits) refl
  where
    fits : ltb size (length message) ≡ false
    fits = ground arith

take-large :
    (file object size : ℕ) (rest : List ℕ) (message : Message) (s : State)
    → object ≢ 0
    → s.objects object ≡ some message
    → size < length message
    → take file object rest size s ≡ some (failed, s)
unfolding take
take-large file object size rest message s a e l = rw (==-false object 0 a, e, large) refl
  where
    large : ltb size (length message) ≡ true
    large = ground arith

taken-Holds :
    (file object : ℕ) (rest : List ℕ) (message : Message) (contents : List Message) (s : State)
    → (s.channel_files file).messages ≡ object ∷ rest
    → Holds file (message ∷ contents) s
    → Holds file contents (taken file object rest s)
taken-Holds file object rest message contents s e h =
    let messages : ((taken file object rest s).channel_files file).messages ≡ rest =
      ap (λ f. f.messages)
        (update_self s.channel_files file (record (s.channel_files file) { messages = rest })) in
    let once : Once (object ∷ rest) = subst Once e h.once in
    let live : map s.objects (object ∷ rest) ≡ map some (message ∷ contents) =
      ap (map s.objects) (sym e) ∙ h.live in
    record {
      live =
          ap (map (update s.objects object none)) messages
          ∙ map-update s.objects rest object none once.0
          ∙ cc;
      once = subst Once (sym messages) once.1;
      present = λ o i. h.present o (subst (In o) (sym e) (inr (subst (In o) messages i)));
    }

-- The first object of a queue that is not empty.
first_object :
    (file : ℕ) (message : Message) (contents : List Message) (s : State)
    → Holds file (message ∷ contents) s
    → (object : ℕ) × (rest : List ℕ) × ((s.channel_files file).messages ≡ object ∷ rest)
      × (object ≢ 0)
      × (s.objects object ≡ some message)
first_object file message contents s h = by_queue (s.channel_files file).messages refl
  where
    by_queue :
        (queue : List ℕ)
        → (s.channel_files file).messages ≡ queue
        → (object : ℕ) × (rest : List ℕ) × ((s.channel_files file).messages ≡ object ∷ rest)
          × (object ≢ 0)
          × (s.objects object ≡ some message)
    by_queue [] e = absurd (cc)
    by_queue (object ∷ rest) e =
        (object, rest, e, h.present object (subst (In object) (sym e) (inl refl)), cc)

-- A read with a buffer that is not empty, on a channel file that has a channel and whose messages
-- are there, takes the first message, if the message fits, and otherwise reports -1 and changes
-- nothing.
pub channel_file_read-Holds :
    (cpu : Cpu) (node_found : Bool) (file size : ℕ) (message : Message) (contents : List Message)
    (s : State)
    → size ≢ 0
    → file ≢ 0
    → (s.channel_files file).source_channel ≢ 0
    → Holds file (message ∷ contents) s
    → (length message ≤ size
        → (s' : State) × (channel_file_read cpu node_found file true size s
            ≡ some (received message, s'))
          × Holds file contents s')
      × (size < length message
          → channel_file_read cpu node_found file true size s ≡ some (failed, s))
channel_file_read-Holds cpu node_found file size message contents s z f c h =
    let (object, rest, e, a, there) = first_object file message contents s h in
    let call = read_call cpu node_found file object size rest s z f c e in
    (
      (λ l. (
        taken file object rest s,
        call ∙ take-fits file object size rest message s a there l,
        taken-Holds file object rest message contents s e h,
      )),
      λ l. call ∙ take-large file object size rest message s a there l,
    )
