-- ===== src/Tests/Files.antt =====
-- A configuration file and a capture, on concrete values.
use woeful.Base.{
  ℕ, ◌+◌, ◌%◌, ◌^◌, ◌≡◌, refl, true, false, none, some, [], ◌∷◌, arith, codes, if◌then◌else◌, ◌==◌,
  bytes_eq,
}
use woeful.Config.{
  BlockType, member_port, WoefulConfig, value, default_config, Tinyxml, ◌>>=◌, read_block_type,
  read_config, read_child, read_list_port, read_port, read_root, read_children,
}
use woeful.Config.Elements.{
  Siblings, last, more, read_list, ConfigOf, read_config_lem, read_config-ConfigOf,
}
use woeful.Server.Main.{main, listening, failed_to_bind, port_config}
use woeful.Pcap.{Pcpp, write_dummy_user, write_dummy_target, user_port}
use woeful.Pcap.Numbers.{
  user, target, Conversation, captured, Adds, sent_user, sent_target, captured-frame,
}

-- `<config block_type="black"><port port_number="9001"/><list_port port="9002"/></config>`: the root
-- is 0, and its children are 1 and 2.
abbrev test_xml : Tinyxml
test_xml = record {
  Document = ℕ;
  Element = ℕ;
  Attribute = ℕ;
  load_file = λ filename. some 0;
  first_child_element = λ doc name. some 0;
  first_child = λ e. if e == 0 then some 1 else none;
  next_sibling_element = λ e. if e == 1 then some 2 else none;
  name = λ e. if e == 1 then codes "port" else codes "list_port";
  find_attribute = λ e name. some e;
  attribute_value = λ a. [];
  attribute = λ e name. some (codes "black");
  query_unsigned_value = λ a. some (9000 + a);
  query_bool_value = λ a. none;
}

two_children-Siblings : Siblings test_xml (some 1) (1 ∷ 2 ∷ [])
two_children-Siblings = more refl (more refl last)

abbrev test_config : WoefulConfig
test_config = record {
  pcap_capture = false;
  port_number = some 9001;
  block_type = BlockType.block_black;
  block_members = member_port 9002 ∷ [];
}

read_config_lem_example :
    read_config test_xml 3 (codes "f")
    ≡ some
        (read_block_type (some (codes "black")) default_config >>= read_list test_xml (1 ∷ 2 ∷ []))
read_config_lem_example =
    read_config_lem test_xml {fuel = 3} {filename = codes "f"} {doc = 0} {root = 0} refl refl
      two_children-Siblings (omega arith)

test_config-read : read_config test_xml 3 (codes "f") ≡ some (value test_config)
unfolding read_config read_root read_block_type bytes_eq read_children read_child read_port
    read_list_port
test_config-read = refl

read_config-ConfigOf_example : ConfigOf test_xml 0 (1 ∷ 2 ∷ []) test_config
read_config-ConfigOf_example =
    read_config-ConfigOf test_xml {fuel = 3} {filename = codes "f"} {doc = 0} {root = 0} test_config
      refl refl two_children-Siblings (omega arith) test_config-read

abbrev pub test_pcpp : Pcpp
test_pcpp = record {
  host_to_net32 = λ n. n;
  host_to_net16 = λ n. n;
  tcp_layer = λ src_port dest_port. record {
    src_port = src_port;
    dest_port = dest_port;
    syn_flag = false;
    ack_flag = false;
    ack_number = 0;
    sequence_number = 0;
    window_size = 0;
  };
}

abbrev talk : Conversation
talk = (user, codes "hello") ∷ (target, codes "ok") ∷ []

captured-frame_example :
    Adds
      (captured test_pcpp [] 443 talk)
      (write_dummy_user test_pcpp (codes "x") (captured test_pcpp [] 443 talk))
      (record (test_pcpp.tcp_layer user_port 443) {
        ack_flag = true;
        sequence_number = test_pcpp.host_to_net32 ((3 + sent_user talk) % 2 ^ 32);
        ack_number = test_pcpp.host_to_net32 ((3 + sent_target talk) % 2 ^ 32);
        window_size = 65535;
      })
      (codes "x")
    × Adds
        (captured test_pcpp [] 443 talk)
        (write_dummy_target test_pcpp (codes "x") (captured test_pcpp [] 443 talk))
        (record (test_pcpp.tcp_layer 443 user_port) {
          ack_flag = true;
          sequence_number = test_pcpp.host_to_net32 ((3 + sent_target talk) % 2 ^ 32);
          ack_number = test_pcpp.host_to_net32 ((3 + sent_user talk) % 2 ^ 32);
          window_size = 65535;
        })
        (codes "x")
captured-frame_example = captured-frame test_pcpp [] 443 talk (codes "x")

test_config-starts :
    main test_xml (λ port. true) 3 4 443 (codes "f") ≡ some (test_config, listening 9001)
unfolding main bytes_eq read_config read_root read_block_type read_children read_child read_port
    read_list_port
test_config-starts = refl

test_port-not_bound :
    main test_xml (λ port. false) 3 4 443 [] ≡ some (port_config 443, failed_to_bind 443)
unfolding main bytes_eq
test_port-not_bound = refl
