-- ===== src/Pcap.antt =====
-- src/pcap.h: `PcapInterface`, which writes a stream as a TCP conversation that was made up. The
-- types of PcapPlusPlus are the interface `Pcpp`. The file is the list of the frames, the latest
-- first; its lock is not modelled.
pub mod Numbers
pub mod Capture
use woeful.Base.{ℕ, ◌+◌, ◌%◌, ◌^◌, Bool, true, List, [], ◌∷◌, ◌++◌, Bytes, codes, length}
use woeful.System.{decimal}

-- The fields of the TCP header that the code sets.
pub record TcpLayer : Type 0 where
  pub src_port : ℕ
  pub dest_port : ℕ
  pub syn_flag : Bool
  pub ack_flag : Bool
  pub ack_number : ℕ
  pub sequence_number : ℕ
  pub window_size : ℕ

-- `hostToNet32` and `hostToNet16`, and the constructor of a TCP layer from its two ports.
pub record Pcpp : Type 0 where
  pub host_to_net32 : ℕ → ℕ
  pub host_to_net16 : ℕ → ℕ
  pub tcp_layer : ℕ → ℕ → TcpLayer

-- The layers of a frame, with the two fields of the IP header that are set.
pub record Frame : Type 0 where
  pub src_mac : Bytes
  pub dest_mac : Bytes
  pub src : Bytes
  pub dest : Bytes
  pub ip_id : ℕ
  pub time_to_live : ℕ
  pub tcp : TcpLayer
  pub payload : Bytes

pub record PcapInterface : Type 0 where
  pub out : List Frame
  pub target_ip : Bytes
  pub target_port : ℕ
  pub user_sequence_number : ℕ  -- uint32_t
  pub target_sequence_number : ℕ  -- uint32_t

-- The constants among the members.
abbrev pub user_ip : Bytes
user_ip = codes "192.168.0.1"

abbrev pub user_mac : Bytes
user_mac = codes "4A:7D:3D:39:61:79"

abbrev pub target_mac : Bytes
target_mac = codes "16:F7:AD:6C:C1:57"

abbrev pub user_port : ℕ
user_port = 1000

-- `std::numeric_limits<uint16_t>::max()`
abbrev pub max_window : ℕ
max_window = 65535

-- The name that `SocketStreamData::open_pcap` gives the file: the time is an `unsigned`, with at
-- most 10 digits, and `pcap_iter` a `size_t`, with at most 20.
unfoldable pub pcap_file : ℕ → ℕ → Bytes
unfolding decimal
pcap_file time pcap_iter =
    decimal 10 time [] ++ codes "." ++ decimal 20 pcap_iter [] ++ codes ".woeful.pcap"

module _ (pcpp : Pcpp) where
  unfoldable pub write_tcp :
      Bytes → Bytes → Bytes → Bytes → TcpLayer → Bytes → PcapInterface → PcapInterface
  write_tcp src_mac dest_mac src dest tcp_layer bytes p =
      let frame : Frame = record {
        src_mac = src_mac;
        dest_mac = dest_mac;
        src = src;
        dest = dest;
        ip_id = pcpp.host_to_net16 2000;
        time_to_live = 64;
        tcp = tcp_layer;
        payload = bytes;
      } in
      record p { out = frame ∷ p.out }

  -- The three layers of the handshake.
  unfoldable pub syn : ℕ → TcpLayer
  syn target_port = record (pcpp.tcp_layer user_port target_port) {
    syn_flag = true;
    sequence_number = pcpp.host_to_net32 2;
  }

  unfoldable pub syn_ack : ℕ → TcpLayer
  syn_ack target_port = record (pcpp.tcp_layer target_port user_port) {
    syn_flag = true;
    ack_flag = true;
    ack_number = pcpp.host_to_net32 3;
    sequence_number = pcpp.host_to_net32 2;
  }

  -- A layer of a side that sends, and of the last step of the handshake.
  unfoldable pub ack_layer : ℕ → ℕ → ℕ → ℕ → TcpLayer
  ack_layer src_port dest_port ack_number sequence_number =
      record (pcpp.tcp_layer src_port dest_port) {
        ack_flag = true;
        ack_number = pcpp.host_to_net32 ack_number;
        sequence_number = pcpp.host_to_net32 sequence_number;
        window_size = max_window;
      }

  -- The constructor.
  unfoldable pub open_pcap : Bytes → ℕ → PcapInterface
  unfolding write_tcp syn syn_ack ack_layer
  open_pcap target_ip target_port =
      let p : PcapInterface = record {
        out = [];
        target_ip = target_ip;
        target_port = target_port;
        user_sequence_number = 3;
        target_sequence_number = 3;
      } in
      let p1 = write_tcp user_mac target_mac user_ip target_ip (syn target_port) [] p in
      let p2 = write_tcp target_mac user_mac target_ip user_ip (syn_ack target_port) [] p1 in
      write_tcp user_mac target_mac user_ip target_ip (ack_layer user_port target_port 3 3) [] p2

  unfoldable pub write_dummy_user : Bytes → PcapInterface → PcapInterface
  unfolding write_tcp ack_layer
  write_dummy_user bytes p =
      let layer =
        ack_layer user_port p.target_port p.target_sequence_number p.user_sequence_number in
      let written = write_tcp user_mac target_mac user_ip p.target_ip layer bytes p in
      record written { user_sequence_number = (p.user_sequence_number + length bytes) % 2 ^ 32 }

  unfoldable pub write_dummy_target : Bytes → PcapInterface → PcapInterface
  unfolding write_tcp ack_layer
  write_dummy_target bytes p =
      let layer =
        ack_layer p.target_port user_port p.user_sequence_number p.target_sequence_number in
      let written = write_tcp target_mac user_mac p.target_ip user_ip layer bytes p in
      record written { target_sequence_number = (p.target_sequence_number + length bytes) % 2 ^ 32 }

  -- `SocketStreamData::open_pcap`, with the time and `pcap_iter`: the name of the file, the next
  -- `pcap_iter` and the capture.
  unfoldable pub open_stream_pcap : ℕ → ℕ → Bytes → ℕ → Bytes × ℕ × PcapInterface
  unfolding open_pcap
  open_stream_pcap time pcap_iter ip port =
      (pcap_file time pcap_iter, (pcap_iter + 1) % 2 ^ 64, open_pcap ip port)

-- The destructor: the file that is closed holds the frames.
unfoldable pub close_pcap : PcapInterface → List Frame
close_pcap p = p.out
