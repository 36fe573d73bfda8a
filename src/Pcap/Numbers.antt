-- ===== src/Pcap/Numbers.antt =====
-- The sequence numbers of a captured conversation.
use woeful.Base.{ℕ, ◌+◌, ◌%◌, ◌^◌, ◌≡◌, refl, List, [], ◌∷◌, Bytes, true, length, IsU32, arith}
use woeful.Pcap.{
  TcpLayer, Pcpp, Frame, PcapInterface, user_port, ack_layer, open_pcap, write_tcp,
  write_dummy_user, write_dummy_target,
}

pub data Side : Type 0 where
  user target : Side

-- What the two sides send, in order.
abbrev pub Conversation : Type 0
Conversation = List (Side × Bytes)

pub write_all : Pcpp → Conversation → PcapInterface → PcapInterface
unfolding write_dummy_user write_dummy_target
write_all pcpp [] p = p
write_all pcpp ((user, bytes) ∷ rest) p = write_all pcpp rest (write_dummy_user pcpp bytes p)
write_all pcpp ((target, bytes) ∷ rest) p = write_all pcpp rest (write_dummy_target pcpp bytes p)

-- How many bytes a side sent.
pub sent_user : Conversation → ℕ
sent_user [] = 0
sent_user ((user, bytes) ∷ rest) = length bytes + sent_user rest
sent_user ((target, bytes) ∷ rest) = sent_user rest

pub sent_target : Conversation → ℕ
sent_target [] = 0
sent_target ((user, bytes) ∷ rest) = sent_target rest
sent_target ((target, bytes) ∷ rest) = length bytes + sent_target rest

-- The numbers count the bytes, modulo 2 ^ 32, and every write gives one frame.
write_all-numbers :
    (pcpp : Pcpp) (conversation : Conversation) (p : PcapInterface)
    → IsU32 p.user_sequence_number
    → IsU32 p.target_sequence_number
    → ((write_all pcpp conversation p).user_sequence_number
        ≡ (p.user_sequence_number + sent_user conversation) % 2 ^ 32)
      × ((write_all pcpp conversation p).target_sequence_number
          ≡ (p.target_sequence_number + sent_target conversation) % 2 ^ 32)
      × ((write_all pcpp conversation p).target_port ≡ p.target_port)
      × (length (write_all pcpp conversation p).out ≡ length p.out + length conversation)
unfolding write_all sent_user sent_target write_dummy_user write_dummy_target write_tcp
write_all-numbers pcpp [] p u t = ground arith
write_all-numbers pcpp ((user, bytes) ∷ rest) p u t =
    ground (arith, write_all-numbers pcpp rest (write_dummy_user pcpp bytes p) (omega arith) t)
write_all-numbers pcpp ((target, bytes) ∷ rest) p u t =
    ground (arith, write_all-numbers pcpp rest (write_dummy_target pcpp bytes p) u (omega arith))

-- The capture after a conversation from its start.
abbrev pub captured : Pcpp → Bytes → ℕ → Conversation → PcapInterface
captured pcpp target_ip target_port conversation =
    write_all pcpp conversation (open_pcap pcpp target_ip target_port)

-- The frame that a write adds in front of `out`.
abbrev pub Adds : PcapInterface → PcapInterface → TcpLayer → Bytes → Type 0
Adds before after layer bytes =
    (frame : Frame) × (after.out ≡ frame ∷ before.out)
    × (frame.tcp ≡ layer)
    × (frame.payload ≡ bytes)

-- Whatever the two sides sent before, the next frame of either side carries its data, with the
-- count of the bytes that this side sent as its sequence number and the count of those that the
-- other side sent as its acknowledgement, both from 3 on and modulo 2 ^ 32.
pub captured-frame :
    (pcpp : Pcpp) (target_ip : Bytes) (target_port : ℕ) (conversation : Conversation)
    (bytes : Bytes)
    → Adds
        (captured pcpp target_ip target_port conversation)
        (write_dummy_user pcpp bytes (captured pcpp target_ip target_port conversation))
        (record (pcpp.tcp_layer user_port target_port) {
          ack_flag = true;
          sequence_number = pcpp.host_to_net32 ((3 + sent_user conversation) % 2 ^ 32);
          ack_number = pcpp.host_to_net32 ((3 + sent_target conversation) % 2 ^ 32);
          window_size = 65535;
        })
        bytes
      × Adds
          (captured pcpp target_ip target_port conversation)
          (write_dummy_target pcpp bytes (captured pcpp target_ip target_port conversation))
          (record (pcpp.tcp_layer target_port user_port) {
            ack_flag = true;
            sequence_number = pcpp.host_to_net32 ((3 + sent_target conversation) % 2 ^ 32);
            ack_number = pcpp.host_to_net32 ((3 + sent_user conversation) % 2 ^ 32);
            window_size = 65535;
          })
          bytes
unfolding write_dummy_user write_dummy_target write_tcp open_pcap ack_layer
captured-frame pcpp target_ip target_port conversation bytes =
    let start = open_pcap pcpp target_ip target_port in
    let (u, t, port, _) = write_all-numbers pcpp conversation start (omega arith) (omega arith) in
    ((_, refl, rw (u, t, port) refl, refl), (_, refl, rw (u, t, port) refl, refl))
