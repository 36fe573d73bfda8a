-- ===== src/Packets.antt =====
-- src/packets.h: the limits, the packet types and the six packets. A pointer with its length is the
-- list of its bytes; the constructors read unaligned little-endian words out of it.
pub mod Wire
pub mod Hostname
use woeful.Base.{
  ℕ, ◌+◌, ◌-◌, ◌*◌, ◌≡◌, Bool, not, List, [], ◌∷◌, ◌++◌, length, replicate, get_elem?, ◌==◌,
  if◌then◌else◌, Result, ok, ◌>>=◌, Bytes, sub_size, read_u8, read_u16, read_u32, copy_from,
  write_at, u16_bytes, u32_bytes,
}

abbrev pub buffer_count : ℕ
buffer_count = 127

-- The macro has no parentheses; it stands only where that makes no difference.
abbrev pub segment_size : ℕ
segment_size = 1024 * 20

abbrev pub max_ws_frame : ℕ
max_ws_frame = 63 * 1000000

abbrev pub max_possible_ws_frame : ℕ
max_possible_ws_frame = 64 * 1000000

abbrev pub max_queue : ℕ
max_queue = 1000

-- `enum PacketType`
abbrev pub packet_connect : ℕ
packet_connect = 0x01

abbrev pub packet_data : ℕ
packet_data = 0x02

abbrev pub packet_continue : ℕ
packet_continue = 0x03

abbrev pub packet_close : ℕ
packet_close = 0x04

abbrev pub packet_info : ℕ
packet_info = 0x05

-- `bytes` is `data` with `data_len`.
pub record WispPacket : Type 0 where
  pub packet_type : ℕ
  pub stream_id : ℕ
  pub bytes : Bytes

pub record InfoPacket : Type 0 where
  pub major_wisp_version : ℕ
  pub minor_wisp_version : ℕ
  pub extension_data : Bytes

-- The buffer of the host name need not end in 0.
pub record ConnectPacket : Type 0 where
  pub stream_type : ℕ
  pub destination_port : ℕ
  pub destination_hostname : Bytes

pub record DataPacket : Type 0 where
  pub stream_payload : Bytes

pub record ContinuePacket : Type 0 where
  pub buffer_remaining : ℕ

pub record ClosePacket : Type 0 where
  pub close_reason : ℕ

-- `WispPacket(src, src_length)`
unfoldable pub parse_wisp : Bytes → Result WispPacket
unfolding read_u8 read_u32
parse_wisp src = do
  packet_type ← read_u8 src 0
  stream_id ← read_u32 src 1
  let data_len = sub_size (length src) 5
  data_bytes ← copy_from src 5 data_len
  ok (record { packet_type = packet_type; stream_id = stream_id; bytes = data_bytes })

-- `WispPacket::serialize` with the memory that `new` returned, whatever is in it.
pub fill_wisp : Bytes → WispPacket → Bytes
fill_wisp build p =
    let build_size = length build in
    let build = write_at build 0 (p.packet_type ∷ []) in
    let build = write_at build 1 (u32_bytes p.stream_id) in
    write_at build (build_size - length p.bytes) p.bytes

unfoldable pub serialize_wisp : WispPacket → Bytes
unfolding fill_wisp
serialize_wisp p = fill_wisp (replicate (1 + 4 + length p.bytes) 0) p

-- `InfoPacket(src, src_length)`
unfoldable pub parse_info : Bytes → Result InfoPacket
unfolding read_u8
parse_info src = do
  major ← read_u8 src 0
  minor ← read_u8 src 1
  let extension_data_len = sub_size (length src) 2
  extension ← copy_from src 2 extension_data_len
  ok (record { major_wisp_version = major; minor_wisp_version = minor; extension_data = extension })

pub fill_info : Bytes → InfoPacket → Bytes
fill_info build p =
    let build_size = length build in
    let build = write_at build 0 (p.major_wisp_version ∷ []) in
    let build = write_at build 1 (p.minor_wisp_version ∷ []) in
    write_at build (build_size - length p.extension_data) p.extension_data

unfoldable pub serialize_info : InfoPacket → Bytes
unfolding fill_info
serialize_info p = fill_info (replicate (1 + 1 + length p.extension_data) 0) p

-- `ConnectPacket(src, src_length)`: if the last byte is not 0, the buffer is one byte longer, and
-- that byte is 0.
unfoldable pub parse_connect : Bytes → Result ConnectPacket
unfolding read_u8 read_u16
parse_connect src = do
  stream_type ← read_u8 src 0
  destination_port ← read_u16 src 1
  let hostname_len = sub_size (length src) 3
  last ← read_u8 src (sub_size (length src) 1)
  hostname ← copy_from src 3 hostname_len
  ok (record {
    stream_type = stream_type;
    destination_port = destination_port;
    destination_hostname = hostname ++ (if not (last == 0) then 0 ∷ [] else []);
  })

-- `DataPacket(src, src_length)`
unfoldable pub parse_data : Bytes → Result DataPacket
parse_data src = do payload ← copy_from src 0 (length src); ok (record { stream_payload = payload })

-- `ContinuePacket(src, size_t)`: the length is not looked at.
unfoldable pub parse_continue : Bytes → Result ContinuePacket
unfolding read_u32
parse_continue src = do
  buffer_remaining ← read_u32 src 0
  ok (record { buffer_remaining = buffer_remaining })

unfoldable pub serialize_continue : ContinuePacket → Bytes
serialize_continue p = write_at (replicate 4 0) 0 (u32_bytes p.buffer_remaining)

-- `ClosePacket(src, size_t)`
unfoldable pub parse_close : Bytes → Result ClosePacket
unfolding read_u8
parse_close src = do close_reason ← read_u8 src 0; ok (record { close_reason = close_reason })

unfoldable pub serialize_close : ClosePacket → Bytes
serialize_close p = write_at (replicate 1 0) 0 (p.close_reason ∷ [])
