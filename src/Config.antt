-- ===== src/Config.antt =====
-- src/server.h and src/config.cpp: the configuration and how it is read from an XML file.
-- TinyXML-2 is the interface `Tinyxml`: what its calls answer is a parameter.
pub mod Elements
use woeful.Base.{
  ℕ, zero, suc, Bool, true, false, Option, none, some, List, [], ◌∷◌, ◌++◌, ◌≡◌, if◌then◌else◌,
  Bytes, bytes_eq, codes,
}

-- `WoefulConfig::BlockType`
pub data BlockType : Type 0 where
  block_none block_white block_black : BlockType

-- `WoefulConfig::Member`: the tag and the union together. A copy is the value itself.
pub data Member : Type 0 where
  member_hostname : Bytes → Member
  member_port : ℕ → Member

pub record WoefulConfig : Type 0 where
  pub pcap_capture : Bool
  pub port_number : Option ℕ
  pub block_type : BlockType
  pub block_members : List Member

-- The member initialisers.
abbrev pub default_config : WoefulConfig
default_config = record {
  pcap_capture = false;
  port_number = none;
  block_type = BlockType.block_none;
  block_members = [];
}

-- `tl::expected<A, std::string>`
pub data Expected {ℓ} (A : Type ℓ) : Type ℓ where
  value : A → Expected A
  unexpected : Bytes → Expected A

infixl 5 ◌>>=◌
abbrev pub ◌>>=◌ {ℓ κ} : {A : Type ℓ} {B : Type κ} → Expected A → (A → Expected B) → Expected B
value a >>= f = f a
unexpected e >>= f = unexpected e

abbrev pub or_error {ℓ} : {A : Type ℓ} → Option A → Bytes → Expected A
or_error none e = unexpected e
or_error (some a) e = value a

-- The calls of TinyXML-2. `none` is a null pointer, or an error code.
pub record Tinyxml : Type 1 where
  pub Document : Type 0
  pub Element : Type 0
  pub Attribute : Type 0
  -- `LoadFile`
  pub load_file : Bytes → Option Document
  -- `FirstChildElement(name)` of the document, and `FirstChildElement()` of an element
  pub first_child_element : Document → Bytes → Option Element
  pub first_child : Element → Option Element
  pub next_sibling_element : Element → Option Element
  pub name : Element → Bytes
  pub find_attribute : Element → Bytes → Option Attribute
  -- `Attribute::Value`; `Element::Attribute(name)` is the value of the attribute
  pub attribute_value : Attribute → Bytes
  pub attribute : Element → Bytes → Option Bytes
  pub query_unsigned_value : Attribute → Option ℕ
  pub query_bool_value : Attribute → Option Bool

-- The three words that `block_type` may be.
unfoldable pub read_block_type : Option Bytes → WoefulConfig → Expected WoefulConfig
read_block_type none ret = value ret
read_block_type (some word) ret =
    if bytes_eq word (codes "black")
    then value (record ret { block_type = BlockType.block_black })
    else if bytes_eq word (codes "white")
    then value (record ret { block_type = BlockType.block_white })
    else if bytes_eq word (codes "none")
    then value (record ret { block_type = BlockType.block_none })
    else unexpected (codes "Attribute block_type has invalid value")

module _ (xml : Tinyxml) where
  open xml use {
    Document, Element, Attribute, load_file, first_child_element, first_child, next_sibling_element,
    name, find_attribute, attribute_value, attribute, query_unsigned_value, query_bool_value,
  }

  -- The bodies of the four tests on the name of a child.
  unfoldable pub read_port : Element → WoefulConfig → Expected WoefulConfig
  read_port child ret = do
    attribute ←
        or_error (find_attribute child (codes "port_number")) (codes "Failed to find port_number.")
    port_number ← or_error (query_unsigned_value attribute) (codes "Failed to parse port_number.")
    value (record ret { port_number = some port_number })

  unfoldable pub read_pcap : Element → WoefulConfig → Expected WoefulConfig
  read_pcap child ret = do
    attribute ←
        or_error (find_attribute child (codes "pcap_capture"))
          (codes "Failed to find pcap_capture.")
    pcap_capture ← or_error (query_bool_value attribute) (codes "Failed to parse pcap_capture.")
    value (record ret { pcap_capture = pcap_capture })

  unfoldable pub read_list_port : Element → WoefulConfig → Expected WoefulConfig
  read_list_port child ret = do
    attribute ← or_error (find_attribute child (codes "port")) (codes "Failed to find port.")
    port_number ← or_error (query_unsigned_value attribute) (codes "Failed to parse port_number.")
    value (record ret { block_members = ret.block_members ++ member_port port_number ∷ [] })

  unfoldable pub read_list_hostname : Element → WoefulConfig → Expected WoefulConfig
  read_list_hostname child ret = do
    attribute ←
        or_error (find_attribute child (codes "hostname")) (codes "Failed to find hostname.")
    value (record ret {
      block_members = ret.block_members ++ member_hostname (attribute_value attribute) ∷ [];
    })

  -- One round of the loop over the children.
  unfoldable pub read_child : Element → WoefulConfig → Expected WoefulConfig
  read_child child ret =
      if bytes_eq (name child) (codes "port")
      then read_port child ret
      else if bytes_eq (name child) (codes "pcap")
      then read_pcap child ret
      else if bytes_eq (name child) (codes "list_port")
      then read_list_port child ret
      else if bytes_eq (name child) (codes "list_hostname")
      then read_list_hostname child ret
      else unexpected (codes "Unknown element.")

  -- `while (child != NULL)` on fuel; `none` means that the fuel ran out.
  unfoldable pub read_children : ℕ → Option Element → WoefulConfig → Option (Expected WoefulConfig)
  read_children zero child ret = none
  read_children (suc fuel) none ret = some (value ret)
  read_children (suc fuel) (some child) ret = elim (read_child child ret) [
    | value ret ↦ read_children fuel (next_sibling_element child) ret
    | unexpected e ↦ some (unexpected e)
  ]

  unfoldable pub read_root : ℕ → Element → Option (Expected WoefulConfig)
  read_root fuel root =
      elim (read_block_type (attribute root (codes "block_type")) default_config) [
        | value ret ↦ read_children fuel (first_child root) ret
        | unexpected e ↦ some (unexpected e)
      ]

  unfoldable pub read_config : ℕ → Bytes → Option (Expected WoefulConfig)
  read_config fuel filename = elim (load_file filename) [
    | none ↦ some (unexpected (codes "Failed to get file."))
    | some doc ↦ elim (first_child_element doc (codes "config")) [
      | none ↦ some (unexpected (codes "Failed to find root."))
      | some root ↦ read_root fuel root
    ]
  ]

-- `get_conf` and `set_conf`: the global configuration is a field of the program's state.
abbrev pub get_conf : WoefulConfig → WoefulConfig
get_conf global_conf = global_conf

abbrev pub set_conf : WoefulConfig → WoefulConfig → WoefulConfig
set_conf conf global_conf = conf
