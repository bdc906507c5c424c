-- ===== src/Channel/Peers.antt =====
-- Several channel files of one channel: who gets a message that two share.
use z_os.Base.{
  update_other, update_self, In, ℕ, ◌≤◌, ◌≡◌, ◌≢◌, inl, inr, refl, sym, ap, ◌∙◌, Bool, true, some,
  none, ok, List, [], ◌∷◌, ◌++◌, length, ◌==◌, Bool-cases,
}
use z_os.Channel.{Message, State, Room, Cpu, received, take, channel_file_read, channel_file_write}
use z_os.Channel.Fan.{IsSender, Sent, channel_file_write-Sent}
use z_os.Channel.Queue.{sent-messages, read_call, taken, take-fits}

-- Another endpoint, with nothing in its queue and a node for a message.
pub record IsReceiver (room : Room) (self : ℕ) (s : State) (p : ℕ) : Type 0 where
  pub member : In p (s.endpoints (s.channel_files self).source_channel)
  pub other : p ≢ self
  pub node : room.message_node p ≡ true
  pub empty : (s.channel_files p).messages ≡ []
  pub channel : (s.channel_files p).source_channel ≢ 0

received-messages :
    (room : Room) (object self : ℕ) (bytes : Message) (s s' : State) (p : ℕ)
    → Sent room self object bytes s s'
    → IsReceiver room self s p
    → ((s'.channel_files p).messages ≡ object ∷ []) × ((s'.channel_files p).source_channel ≢ 0)
received-messages room object self bytes s s' p sent r =
    let same = sent.others p r.member r.other in
    (
      ap (λ f. f.messages) same
          ∙ sent-messages room object p (s.channel_files p) r.node
          ∙ ap (λ q. q ++ (object ∷ [])) r.empty,
      λ z. r.channel (sym (ap (λ f. f.source_channel) same) ∙ z),
    )

take-freed :
    (file object size : ℕ) (rest : List ℕ) (s : State)
    → s.objects object ≡ none
    → take file object rest size s ≡ none
unfolding take
take-freed file object size rest s e = elim (Bool-cases (object == 0)) [
  | inl z ↦ rw z refl
  | inr z ↦ rw (z, e) refl
]

-- When a channel file that can send (as for a write) writes a message that is not empty, with the
-- address of an object that is not NULL, and two other endpoints of a channel had nothing in their
-- queues and got it, then the first of them that reads, with room for it, gets it and frees it,
-- and the read of the other, whatever its buffer that is not empty, uses the freed object.
pub channel_file_read-freed :
    (room : Room) (object self p q : ℕ) (bytes : Message) (s : State)
    → IsSender self s
    → object ≢ 0
    → bytes ≢ []
    → IsReceiver room self s p
    → IsReceiver room self s q
    → p ≢ q
    → (cpu : Cpu) (node_found : Bool) (size size' : ℕ) → length bytes ≤ size
    → size ≢ 0
    → size' ≢ 0
    → (s' s'' : State) × (channel_file_write room object self bytes s ≡ some (ok, s'))
      × (channel_file_read cpu node_found p true size s' ≡ some (received bytes, s''))
      × (channel_file_read cpu node_found q true size' s'' ≡ none)
channel_file_read-freed room object self p q bytes s v a b rp rq n cpu node_found size size' l z
      z' =
    let (s', e, sent) = channel_file_write-Sent room object self bytes s v a b in
    let (mp, cp) = received-messages room object self bytes s s' p sent rp in
    let (mq, cq) = received-messages room object self bytes s s' q sent rq in
    let there : s'.objects object ≡ some bytes =
      ap (λ x. x.objects object) sent.rest ∙ update_self s.objects object (some bytes) in
    let same : (taken p object [] s').channel_files q ≡ s'.channel_files q =
      update_other s'.channel_files p q _ (λ y. n (sym y)) in
    (
      s',
      taken p object [] s',
      e,
      read_call cpu node_found p object size [] s' z (v.present p rp.member) cp mp
          ∙ take-fits p object size [] bytes s' a there l,
      read_call cpu node_found q object size' [] (taken p object [] s') z' (v.present q rq.member)
            (λ y. cq (sym (ap (λ f. f.source_channel) same) ∙ y)) (ap (λ f. f.messages) same ∙ mq)
          ∙ take-freed q object size' [] (taken p object [] s')
              (update_self s'.objects object none),
    )
