-- ===== src/Channel/Fan.antt =====
-- The loop over the endpoints of a channel, and what a write does.
use native.Mathlib.Decide.{ℕ_discrete}
use z_os.Base.{
  update, In, Once, ℕ, ◌≡◌, ◌≢◌, ◌⊎◌, inl, inr, refl, sym, ap, ap₂, ◌∙◌, subst, fun_ext, false,
  Option, some, Option-cases, ok, List, [], ◌∷◌, ◌++◌, arith, ◌==◌, ==-false, ==-true,
  if◌then◌else◌,
}
use z_os.Scheduler.Order.{IsScheduled}
use z_os.Channel.{
  ◌>>=◌, Message, ChannelFile, State, Room, with_file, wake_all, deliver, fan_out, is_empty,
  channel_file_write,
}
use z_os.Channel.Wake.{AllBlocked, Woken, wake_all-Woken, wake_all-append}

-- The threads that wait at the endpoints other than `self`.
abbrev pub waiting : ℕ → List ℕ → (ℕ → ChannelFile) → List ℕ
waiting self [] files = []
waiting self (p ∷ endpoints) files =
    let rest = waiting self endpoints files in
    if p == self then rest else (files p).recv_waiters ++ rest

-- An endpoint that got a message.
abbrev pub grown : Room → (object p : ℕ) → ChannelFile → ChannelFile
grown room object p file = record file {
  messages = if room.message_node p then file.messages ++ (object ∷ []) else file.messages;
  recv_waiters = [];
}

abbrev grow : Room → (self object p : ℕ) → (ℕ → ChannelFile) → ℕ → ChannelFile
grow room self object p files q =
    if p == self then files q else update files p (grown room object p (files p)) q

abbrev spread : Room → (self object : ℕ) → List ℕ → (ℕ → ChannelFile) → ℕ → ChannelFile
spread room self object [] files = files
spread room self object (p ∷ endpoints) files =
    spread room self object endpoints (grow room self object p files)

grow-kept :
    (room : Room) (self object p q : ℕ) (files : ℕ → ChannelFile)
    → ((q ≢ p) ⊎ (q ≡ self))
    → grow room self object p files q ≡ files q
grow-kept room self object p q files (inl n) = ground arith
grow-kept room self object p q files (inr e) = ground arith

grow-grown :
    (room : Room) (self object p : ℕ) (files : ℕ → ChannelFile)
    → p ≢ self
    → grow room self object p files p ≡ grown room object p (files p)
grow-grown room self object p files n = ground arith

abbrev pub Present : List ℕ → Type 0
Present endpoints = (p : ℕ) → In p endpoints → p ≢ 0

-- What is not an endpoint stays as it is, and so does `self`.
spread-kept :
    (room : Room) (self object q : ℕ) (endpoints : List ℕ) (files : ℕ → ChannelFile)
    → ((¬ In q endpoints) ⊎ (q ≡ self))
    → spread room self object endpoints files q ≡ files q
spread-kept room self object q [] files n = refl
spread-kept room self object q (p ∷ endpoints) files (inl m) =
    spread-kept room self object q endpoints (grow room self object p files) (inl (λ i. m (inr i)))
    ∙ grow-kept room self object p q files (inl (λ e. m (inl e)))
spread-kept room self object q (p ∷ endpoints) files (inr e) =
    spread-kept room self object q endpoints (grow room self object p files) (inr e)
    ∙ grow-kept room self object p q files (inr e)

spread-grown :
    (room : Room) (self object q : ℕ) (endpoints : List ℕ) (files : ℕ → ChannelFile)
    → Once endpoints
    → In q endpoints
    → q ≢ self
    → spread room self object endpoints files q ≡ grown room object q (files q)
spread-grown room self object q [] files o i n = elim i [ ]
spread-grown room self object q (p ∷ endpoints) files o (inl e) n =
    spread-kept room self object q endpoints (grow room self object p files)
      (inl (λ i. o.0 (subst (λ x. In x endpoints) e i)))
    ∙ subst (λ x. grow room self object x files q ≡ grown room object q (files q)) e
        (grow-grown room self object q files n)
spread-grown room self object q (p ∷ endpoints) files o (inr i) n =
    spread-grown room self object q endpoints (grow room self object p files) o.1 i n
    ∙ ap (grown room object q)
        (grow-kept room self object p q files (inl (λ e. o.0 (subst (λ x. In x endpoints) e i))))

waiting-kept :
    (self p : ℕ) (endpoints : List ℕ) (files : ℕ → ChannelFile) (file : ChannelFile)
    → (¬ In p endpoints)
    → waiting self endpoints (update files p file) ≡ waiting self endpoints files
waiting-kept self p [] files file n = refl
waiting-kept self p (q ∷ endpoints) files file n =
    let same = waiting-kept self p endpoints files file (λ i. n (inr i)) in
    rw (same, ==-false q p (λ z. n (inl (sym z)))) refl

grow_self :
    (room : Room) (self object p : ℕ) (files : ℕ → ChannelFile)
    → p ≡ self
    → grow room self object p files ≡ files
grow_self room self object p files e = fun_ext (λ q. rw (==-true p self e) refl)

grow_other :
    (room : Room) (self object p : ℕ) (files : ℕ → ChannelFile)
    → p ≢ self
    → grow room self object p files ≡ update files p (grown room object p (files p))
grow_other room self object p files n = fun_ext (λ q. rw (==-false p self n) refl)

-- All the threads are woken up, and the channel files are then these.
abbrev settled : Room → List ℕ → (ℕ → ChannelFile) → State → Option State
settled room waiters files s = wake_all room.turn_node waiters s.scheduler >>= λ scheduler.
    some (record s { channel_files = files; scheduler = scheduler })

-- The loop over the endpoints is the loop over all the threads that wait there, and a new queue for
-- each endpoint but `self`.
fan_out_lem :
    (room : Room) (self object : ℕ) (endpoints : List ℕ) (s : State)
    → Once endpoints
    → Present endpoints
    → fan_out room self object endpoints s
      ≡ settled room
          (waiting self endpoints s.channel_files)
          (spread room self object endpoints s.channel_files)
          s
unfolding fan_out deliver wake_all
fan_out_lem room self object [] s o n = refl
fan_out_lem room self object (p ∷ endpoints) s o n = elim (ℕ_discrete p self) [
  | yes e ↦
      rw (==-true p self e, fan_out)
        (fan_out_lem room self object endpoints s o.1 (λ q i. n q (inr i))
          ∙ ap
              (λ files.
                settled room (waiting self endpoints s.channel_files)
                  (spread room self object endpoints files) s)
              (sym (grow_self room self object p s.channel_files e)))
  | no ne ↦
      let waiters : List ℕ = (s.channel_files p).recv_waiters in
      let file : ChannelFile = grown room object p (s.channel_files p) in
      let split =
        wake_all-append room.turn_node waiters (waiting self endpoints s.channel_files)
          s.scheduler in
      elim (Option-cases (wake_all room.turn_node waiters s.scheduler)) [
        | inl e ↦ rw (==-false p self ne, ==-false p 0 (n p (inl refl)), e, split, e) refl
        | inr (scheduler, e) ↦
            rw (==-false p self ne, ==-false p 0 (n p (inl refl)), e, split, e)
              (fan_out_lem room self object endpoints
                  (record (with_file p file s) { scheduler = scheduler }) o.1 (λ q i. n q (inr i))
                ∙ ap₂
                    (λ waiters files.
                      settled room waiters (spread room self object endpoints files)
                        (record s { scheduler = scheduler }))
                    (waiting-kept self p endpoints s.channel_files file o.0)
                    (sym (grow_other room self object p s.channel_files ne)))
      ]
]

-- A channel file `self` that can send: no endpoint of its channel is NULL or listed twice, the run
-- queue is in order, and the threads that wait at the other endpoints are blocked, each of them
-- waiting once.
pub record IsSender (self : ℕ) (s : State) : Type 0 where
  pub file : self ≢ 0
  pub channel : (s.channel_files self).source_channel ≢ 0
  pub once : Once (s.endpoints (s.channel_files self).source_channel)
  pub present : Present (s.endpoints (s.channel_files self).source_channel)
  pub scheduled : IsScheduled s.scheduler
  pub waiters :
      Once (waiting self (s.endpoints (s.channel_files self).source_channel) s.channel_files)
  pub blocked :
      AllBlocked
        (waiting self (s.endpoints (s.channel_files self).source_channel) s.channel_files)
        s.scheduler

-- A message that was sent: every other endpoint has it at the end of its queue, if there was a node
-- for it, and has no waiters left; these wait in the run queue.
pub record Sent (room : Room) (self object : ℕ) (bytes : Message) (s s' : State) : Type 0 where
  pub rest : s' ≡ record s {
    objects = update s.objects object (some bytes);
    channel_files = s'.channel_files;
    scheduler = s'.scheduler;
  }
  pub others :
      (p : ℕ)
      → In p (s.endpoints (s.channel_files self).source_channel)
      → p ≢ self
      → s'.channel_files p ≡ grown room object p (s.channel_files p)
  pub kept :
      (p : ℕ)
      → ((¬ In p (s.endpoints (s.channel_files self).source_channel)) ⊎ (p ≡ self))
      → s'.channel_files p ≡ s.channel_files p
  pub threads :
      Woken room.turn_node
        (waiting self (s.endpoints (s.channel_files self).source_channel) s.channel_files)
        s.scheduler
        s'.scheduler

not-empty : (bytes : List ℕ) → bytes ≢ [] → is_empty bytes ≡ false
not-empty [] n = absurd (n refl)
not-empty (b ∷ bytes) n = refl

-- For a channel file that can send (its endpoints are not NULL and are listed once, the run queue
-- is in order, the threads that wait at the others are blocked and wait once), with the address of
-- an object that is not NULL, no assertion of a write of a message that is not empty fails, and it
-- returns 0: every other endpoint of the channel has the message at the end of its queue, if there
-- was a node for it, and has no waiters; all the threads that waited at them wait in the run
-- queue, in their order, as far as there are nodes for them; every other channel file, and the
-- rest of the state, is as it was.
pub channel_file_write-Sent :
    (room : Room) (object self : ℕ) (bytes : Message) (s : State)
    → IsSender self s
    → object ≢ 0
    → bytes ≢ []
    → (s' : State) × (channel_file_write room object self bytes s ≡ some (ok, s'))
      × Sent room self object bytes s s'
unfolding channel_file_write
channel_file_write-Sent room object self bytes s v a b =
    let channel : ℕ = (s.channel_files self).source_channel in
    let (scheduler, e, w) =
      wake_all-Woken room.turn_node (waiting self (s.endpoints channel) s.channel_files) s.scheduler
        v.scheduled v.waiters v.blocked in
    (
      record s {
        objects = update s.objects object (some bytes);
        channel_files = spread room self object (s.endpoints channel) s.channel_files;
        scheduler = scheduler;
      },
      rw
          (
            not-empty bytes b,
            ==-false self 0 v.file,
            ==-false channel 0 v.channel,
            ==-false object 0 a,
            fan_out_lem room self object (s.endpoints channel)
                (record s { objects = update s.objects object (some bytes) }) v.once v.present,
            e,
          )
          refl,
      record {
        rest = refl;
        others = λ p i n.
            spread-grown room self object p (s.endpoints channel) s.channel_files v.once i n;
        kept = λ p n. spread-kept room self object p (s.endpoints channel) s.channel_files n;
        threads = w;
      },
    )
