-- ===== src/Packets/Wire.antt =====
-- The packets of src/packets.h as bytes on the wire: serialising and parsing.
use woeful.Base.{
  ℕ, ◌+◌, ◌-◌, ◌*◌, ◌/◌, ◌%◌, ◌^◌, ◌<◌, ◌≡◌, refl, ◌∙◌, [], ◌∷◌, ◌++◌, length, length-replicate,
  take-length, drop, All, ok, fault, out_of_bounds, Bytes, IsByte, IsU32, IsSize, sub_size,
  copy_from, write, write_at, write_full, write_at_zero, u32_bytes, arith, ◌↔◌,
}
use woeful.Packets.{
  WispPacket, InfoPacket, ContinuePacket, ClosePacket, parse_wisp, fill_wisp, serialize_wisp,
  parse_info, fill_info, serialize_info, parse_continue, serialize_continue, parse_close,
  serialize_close,
}

-- `src_length - header_size` and the copy behind a header that is there.
pub copy_after :
    (src rest : Bytes) (n : ℕ)
    → IsSize (length src)
    → drop n src ≡ rest
    → length src ≡ n + length rest
    → copy_from src n (sub_size (length src) n) ≡ ok rest
unfolding copy_from sub_size
copy_after src rest n s d l =
    let e : (length src + 2 ^ 64 - n) % 2 ^ 64 ≡ length rest = omega arith in
    rw (e, d, take-length rest) (ground arith)

-- The first five bytes of a buffer, and the first two.
abbrev header_five : ℕ → ℕ → ℕ → ℕ → ℕ → Bytes → Bytes
header_five a b c d e rest = a ∷ b ∷ c ∷ d ∷ e ∷ rest

write_after_five :
    (a b c d e : ℕ) (mem bs : Bytes) (n : ℕ)
    → n ≡ 5
    → length mem ≡ length bs
    → write_at (header_five a b c d e mem) n bs ≡ header_five a b c d e bs
unfolding write_at
write_after_five a b c d e mem bs n hn h = rw (hn, write_at_zero mem bs, write_full bs mem h)

write_after_two :
    (a b : ℕ) (mem bs : Bytes) (n : ℕ)
    → n ≡ 2
    → length mem ≡ length bs
    → write_at (a ∷ b ∷ mem) n bs ≡ a ∷ b ∷ bs
unfolding write_at
write_after_two a b mem bs n hn h = rw (hn, write_at_zero mem bs, write_full bs mem h)

-- Whatever the memory of the frame held before, `serialize` writes over all of it: the type, the
-- stream id with its lowest byte first, and the data. The condition is that the memory has 5
-- bytes more than the data.
pub fill_wisp_bytes :
    (build : Bytes) (p : WispPacket)
    → length build ≡ 5 + length p.bytes
    → fill_wisp build p ≡ p.packet_type ∷ u32_bytes p.stream_id ++ p.bytes
unfolding fill_wisp write_at write
fill_wisp_bytes [] p h = absurd (omega arith)
fill_wisp_bytes (a ∷ []) p h = absurd (omega arith)
fill_wisp_bytes (a ∷ b ∷ []) p h = absurd (omega arith)
fill_wisp_bytes (a ∷ b ∷ c ∷ []) p h = absurd (omega arith)
fill_wisp_bytes (a ∷ b ∷ c ∷ d ∷ []) p h = absurd (omega arith)
fill_wisp_bytes (a ∷ b ∷ c ∷ d ∷ e ∷ mem) p h =
    write_after_five _ _ _ _ _ mem p.bytes _ (omega arith) (omega arith)

pub fill_info_bytes :
    (build : Bytes) (p : InfoPacket)
    → length build ≡ 2 + length p.extension_data
    → fill_info build p ≡ p.major_wisp_version ∷ p.minor_wisp_version ∷ p.extension_data
unfolding fill_info write_at write
fill_info_bytes [] p h = absurd (omega arith)
fill_info_bytes (a ∷ []) p h = absurd (omega arith)
fill_info_bytes (a ∷ b ∷ mem) p h =
    write_after_two _ _ mem p.extension_data _ (omega arith) (omega arith)

pub serialize_wisp_bytes :
    (p : WispPacket) → serialize_wisp p ≡ p.packet_type ∷ u32_bytes p.stream_id ++ p.bytes
unfolding serialize_wisp
serialize_wisp_bytes p =
    fill_wisp_bytes _ p (omega (arith, length-replicate {A = ℕ} (1 + 4 + length p.bytes) 0))

pub serialize_info_bytes :
    (p : InfoPacket)
    → serialize_info p ≡ p.major_wisp_version ∷ p.minor_wisp_version ∷ p.extension_data
unfolding serialize_info
serialize_info_bytes p =
    fill_info_bytes _ p
      (omega (arith, length-replicate {A = ℕ} (1 + 1 + length p.extension_data) 0))

pub serialize_close_bytes : (p : ClosePacket) → serialize_close p ≡ p.close_reason ∷ []
unfolding serialize_close write_at write
serialize_close_bytes p = refl

pub serialize_continue_bytes :
    (p : ContinuePacket) → serialize_continue p ≡ u32_bytes p.buffer_remaining
unfolding serialize_continue write_at write
serialize_continue_bytes p = refl

u32_value :
    (n : ℕ)
    → IsU32 n
    → n % 256 + n / 256 % 256 * 256 + (n / 65536 % 256 + n / 16777216 % 256 * 256) * 65536 ≡ n
u32_value n h = omega arith

-- What `parse_wisp` makes of a frame that has a header.
pub parse_wisp_frame :
    (a b c d e : ℕ) (rest : Bytes)
    → IsSize (length (header_five a b c d e rest))
    → parse_wisp (header_five a b c d e rest)
      ≡ ok (record {
        packet_type = a;
        stream_id = b + c * 256 + (d + e * 256) * 65536;
        bytes = rest;
      })
unfolding parse_wisp
parse_wisp_frame a b c d e rest s =
    rw (copy_after (header_five a b c d e rest) rest 5 s refl (omega arith))

-- A packet whose stream id fits a `uint32_t` and whose frame fits a `size_t` is read back from
-- its bytes.
pub parse-serialize_wisp :
    (p : WispPacket)
    → IsU32 p.stream_id
    → IsSize (5 + length p.bytes)
    → parse_wisp (serialize_wisp p) ≡ ok p
parse-serialize_wisp p u s =
    rw (serialize_wisp_bytes p)
      (parse_wisp_frame _ _ _ _ _ p.bytes (omega arith) ∙ ground (arith, u32_value p.stream_id u))

-- An INFO packet whose frame fits a `size_t` is read back from its bytes.
pub parse-serialize_info :
    (p : InfoPacket) → IsSize (2 + length p.extension_data) → parse_info (serialize_info p) ≡ ok p
unfolding parse_info
parse-serialize_info p s =
    let wire = p.major_wisp_version ∷ p.minor_wisp_version ∷ p.extension_data in
    rw (serialize_info_bytes p, copy_after wire p.extension_data 2 (omega arith) refl (omega arith))

-- A CONTINUE packet whose count fits a `uint32_t` is read back from its bytes.
pub parse-serialize_continue :
    (p : ContinuePacket) → IsU32 p.buffer_remaining → parse_continue (serialize_continue p) ≡ ok p
unfolding parse_continue
parse-serialize_continue p u =
    rw (serialize_continue_bytes p) (ground (arith, u32_value p.buffer_remaining u))

pub parse-serialize_close : (p : ClosePacket) → parse_close (serialize_close p) ≡ ok p
unfolding parse_close
parse-serialize_close p = rw (serialize_close_bytes p)

-- A frame that fits a `size_t` is read outside its bytes exactly if it is shorter than the
-- header, 5 bytes.
pub parse_wisp_fault :
    (src : Bytes) → IsSize (length src) → (parse_wisp src ≡ fault out_of_bounds) ↔ (length src < 5)
unfolding parse_wisp
parse_wisp_fault [] s = (λ _. omega arith, λ _. refl)
parse_wisp_fault (a ∷ []) s = (λ _. omega arith, λ _. refl)
parse_wisp_fault (a ∷ b ∷ []) s = (λ _. omega arith, λ _. refl)
parse_wisp_fault (a ∷ b ∷ c ∷ []) s = (λ _. omega arith, λ _. refl)
parse_wisp_fault (a ∷ b ∷ c ∷ d ∷ []) s = (λ _. omega arith, λ _. refl)
parse_wisp_fault (a ∷ b ∷ c ∷ d ∷ e ∷ rest) s =
    (λ h. cc (h, parse_wisp_frame a b c d e rest s), λ h. absurd (omega arith))

-- A packet that was read from a frame of bytes serialises to that frame.
pub serialize-parse_wisp :
    (src : Bytes) (p : WispPacket)
    → IsSize (length src)
    → All IsByte src
    → parse_wisp src ≡ ok p
    → serialize_wisp p ≡ src
unfolding parse_wisp
serialize-parse_wisp [] p s bs h = cc
serialize-parse_wisp (a ∷ []) p s bs h = cc
serialize-parse_wisp (a ∷ b ∷ []) p s bs h = cc
serialize-parse_wisp (a ∷ b ∷ c ∷ []) p s bs h = cc
serialize-parse_wisp (a ∷ b ∷ c ∷ d ∷ []) p s bs h = cc
serialize-parse_wisp (a ∷ b ∷ c ∷ d ∷ e ∷ rest) p s bs h =
    ground (arith, parse_wisp_frame a b c d e rest s, serialize_wisp_bytes p)
