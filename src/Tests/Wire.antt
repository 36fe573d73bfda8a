-- ===== src/Tests/Wire.antt =====
-- The formats of src/packets.h, and a port as text, on concrete values.
use woeful.Base.{
  ℕ, ◌≡◌, ◌<◌, refl, [], ◌∷◌, ◌++◌, ◌↔◌, Bytes, arith, length, ok, ◌>>=◌, fault, out_of_bounds,
  c_string, codes, u32_bytes, copy_from, sub_size,
}
use woeful.Packets.{
  WispPacket, InfoPacket, ConnectPacket, ContinuePacket, parse_wisp, serialize_wisp, parse_info,
  serialize_info, parse_connect, parse_continue, serialize_continue, fill_wisp,
}
use woeful.Packets.Wire.{
  fill_wisp_bytes, parse-serialize_wisp, parse-serialize_info, parse-serialize_continue,
  parse_wisp_fault, serialize-parse_wisp,
}
use woeful.Packets.Hostname.{
  connect_frame, parse_connect_terminated, parse_connect_hostname, parse_connect_empty,
}
use woeful.System.{to_string}
use woeful.System.Port.{read_decimal, read_decimal-to_string}

abbrev hello : WispPacket
hello = record { packet_type = 2; stream_id = 513; bytes = codes "hi" }

abbrev hello_frame : Bytes
hello_frame = 2 ∷ 1 ∷ 2 ∷ 0 ∷ 0 ∷ codes "hi"

fill_over_nines : fill_wisp (9 ∷ 9 ∷ 9 ∷ 9 ∷ 9 ∷ 9 ∷ 9 ∷ []) hello ≡ 2 ∷ u32_bytes 513 ++ codes "hi"
fill_over_nines = fill_wisp_bytes (9 ∷ 9 ∷ 9 ∷ 9 ∷ 9 ∷ 9 ∷ 9 ∷ []) hello refl

parse-serialize_wisp_example : parse_wisp (serialize_wisp hello) ≡ ok hello
parse-serialize_wisp_example = parse-serialize_wisp hello (omega arith) (omega arith)

abbrev hello_info : InfoPacket
hello_info = record { major_wisp_version = 2; minor_wisp_version = 0; extension_data = 7 ∷ [] }

info_read_back : parse_info (serialize_info hello_info) ≡ ok hello_info
info_read_back = parse-serialize_info hello_info (omega arith)

abbrev full_credit : ContinuePacket
full_credit = record { buffer_remaining = 127 }

continue_read_back : parse_continue (serialize_continue full_credit) ≡ ok full_credit
continue_read_back = parse-serialize_continue full_credit (omega arith)

parse_wisp_fault_example :
    (parse_wisp (2 ∷ 1 ∷ []) ≡ fault out_of_bounds) ↔ (length {A = ℕ} (2 ∷ 1 ∷ []) < 5)
parse_wisp_fault_example = parse_wisp_fault (2 ∷ 1 ∷ []) (omega arith)

hello_frame-parse : parse_wisp hello_frame ≡ ok hello
unfolding parse_wisp copy_from sub_size
hello_frame-parse = refl

serialize-parse_wisp_example : serialize_wisp hello ≡ hello_frame
serialize-parse_wisp_example =
    serialize-parse_wisp hello_frame hello (omega arith)
      (
        omega arith,
        (
          omega arith,
          (omega arith, (omega arith, (omega arith, (omega arith, (omega arith, tt))))),
        ),
      )
      hello_frame-parse

parse_connect_hostname_example :
    ((parse_connect (connect_frame 1 80 0 (codes "ab")) >>= λ p. c_string p.destination_hostname)
      ≡ ok (codes "ab"))
    × ((parse_connect (connect_frame 1 80 0 (97 ∷ 98 ∷ 0 ∷ [])) >>= λ p.
          c_string p.destination_hostname)
        ≡ ok (codes "ab"))
parse_connect_hostname_example =
    parse_connect_hostname 1 80 0 97 (98 ∷ []) (omega arith, (omega arith, tt)) (omega arith)

parse_connect_terminated_example :
    (p : ConnectPacket) × (text : Bytes) × (parse_connect (connect_frame 1 80 0 (97 ∷ 0 ∷ 98 ∷ []))
      ≡ ok p)
    × (c_string p.destination_hostname ≡ ok text)
parse_connect_terminated_example = parse_connect_terminated 1 80 0 97 (0 ∷ 98 ∷ []) (omega arith)

parse_connect_empty_example :
    (p : ConnectPacket) × (parse_connect (connect_frame 1 80 0 []) ≡ ok p)
    × (p.destination_port ≡ 80)
    × (c_string p.destination_hostname ≡ fault out_of_bounds)
parse_connect_empty_example = parse_connect_empty 1 80

test_port-text : read_decimal 0 (to_string 9001) ≡ 9001
test_port-text = read_decimal-to_string 9001 (omega arith)
