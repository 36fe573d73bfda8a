-- ===== src/Config/Elements.antt =====
-- What `read_config` makes of the children of the root element.
use woeful.Base.{
  ℕ, zero, suc, ◌<◌, ◌≡◌, refl, Bool, true, false, Option, none, some, List, [], ◌∷◌, ◌++◌, Bytes,
  bytes_eq, bytes_eq→eq, ap, ◌∙◌, codes, length, arith, append-nil, append_assoc, if◌then◌else◌,
  All, ◌||◌,
}
use woeful.Config.{
  BlockType, Member, member_hostname, member_port, WoefulConfig, Expected, value, unexpected,
  default_config, ◌>>=◌, Tinyxml, read_block_type, read_port, read_pcap, read_list_port,
  read_list_hostname, read_child, read_children, read_root, read_config,
}

-- A name that is one word is not another.
apart : (n a b : Bytes) → bytes_eq a b ≡ false → bytes_eq n a ≡ true → bytes_eq n b ≡ false
apart n a b h e = rw (bytes_eq→eq n a e) h

abbrev pub word_of : BlockType → Bytes
word_of BlockType.block_none = codes "none"
word_of BlockType.block_white = codes "white"
word_of BlockType.block_black = codes "black"

>>=-eq-value {ℓ κ} :
    {A : Type ℓ} {B : Type κ} (m : Expected A) (f : A → Expected B) {b : B}
    → (m >>= f) ≡ value b
    → (a : A) × (m ≡ value a) × (f a ≡ value b)
>>=-eq-value (value a) f h = (a, refl, h)
>>=-eq-value (unexpected e) f h = cc

module _ (xml : Tinyxml) where
  open xml use {
    Document, Element, Attribute, load_file, first_child_element, first_child, attribute,
    next_sibling_element, name, find_attribute, attribute_value, query_unsigned_value,
  }

  -- `Siblings e es`: from the element `e` on, `NextSiblingElement` runs through `es` and ends.
  pub data Siblings : Option Element → List Element → Type 0 where
    last : Siblings none []
    more :
        {e : Element} {o : Option Element} {es : List Element}
        → next_sibling_element e ≡ o
        → Siblings o es
        → Siblings (some e) (e ∷ es)

  -- One child after the other, up to the first error.
  pub read_list : List Element → WoefulConfig → Expected WoefulConfig
  read_list [] ret = value ret
  read_list (e ∷ es) ret = read_child xml e ret >>= read_list es

  -- With fuel for every child and one more round the loop ends, and has read each child in turn.
  pub read_children_lem :
      (fuel : ℕ) (ret : WoefulConfig) {o : Option Element} {es : List Element}
      → Siblings o es
      → length es < fuel
      → read_children xml fuel o ret ≡ some (read_list es ret)
  unfolding read_children read_list
  read_children_lem zero ret s h = absurd (omega arith)
  read_children_lem (suc fuel) ret last h = refl
  read_children_lem (suc fuel) ret (more {e} {o} {es} n s) h =
      elim (read_child xml e ret)
        as (λ r.
          elim r [
            | value c ↦ read_children xml fuel (next_sibling_element e) c
            | unexpected x ↦ some (unexpected x)
          ]
          ≡ some (r >>= read_list es)) [
            | value c ↦ rw n (read_children_lem fuel c s (omega arith))
            | unexpected x ↦ refl
          ]

  -- What one child adds to the block list, told from its name and its attributes alone.
  pub member_of : Element → List Member
  member_of e =
      if bytes_eq (name e) (codes "list_port")
      then port_member (find_attribute e (codes "port"))
      else if bytes_eq (name e) (codes "list_hostname")
      then hostname_member (find_attribute e (codes "hostname"))
      else []
    where
      number : Option ℕ → List Member
      number none = []
      number (some n) = member_port n ∷ []

      port_member : Option Attribute → List Member
      port_member none = []
      port_member (some a) = number (query_unsigned_value a)

      hostname_member : Option Attribute → List Member
      hostname_member none = []
      hostname_member (some a) = member_hostname (attribute_value a) ∷ []

  pub members_of : List Element → List Member
  members_of [] = []
  members_of (e ∷ es) = member_of e ++ members_of es

  -- The four names that a child may have.
  pub is_known : Element → Bool
  is_known e =
      bytes_eq (name e) (codes "port")
      || bytes_eq (name e) (codes "pcap")
      || bytes_eq (name e) (codes "list_port")
      || bytes_eq (name e) (codes "list_hostname")

  -- The port that a `port` element names replaces the one before.
  pub port_of : Element → Option ℕ → Option ℕ
  port_of e old =
      if bytes_eq (name e) (codes "port")
      then port_value (find_attribute e (codes "port_number"))
      else old
    where
      port_value : Option Attribute → Option ℕ
      port_value none = none
      port_value (some a) = query_unsigned_value a

  pub ports_of : List Element → Option ℕ → Option ℕ
  ports_of [] old = old
  ports_of (e ∷ es) old = ports_of es (port_of e old)

  -- A child that is read without an error has one of the four names and adds what it says.
  pub record Reads (e : Element) (ret c : WoefulConfig) : Type 0 where
    pub known : is_known e ≡ true
    pub members : c.block_members ≡ ret.block_members ++ member_of e
    pub port : c.port_number ≡ port_of e ret.port_number
    pub mode : c.block_type ≡ ret.block_type

  read_child-Reads :
      (e : Element) (ret c : WoefulConfig) → read_child xml e ret ≡ value c → Reads e ret c
  unfolding bytes_eq read_child read_port read_pcap read_list_port read_list_hostname member_of
      is_known port_of
  read_child-Reads e ret c h = ground (
    arith,
    apart (name e) (codes "port") (codes "list_port") refl,
    apart (name e) (codes "port") (codes "list_hostname") refl,
    apart (name e) (codes "pcap") (codes "port") refl,
    apart (name e) (codes "pcap") (codes "list_port") refl,
    apart (name e) (codes "pcap") (codes "list_hostname") refl,
    append-nil ret.block_members,
  )

  read_list-Reads :
      (es : List Element) (ret c : WoefulConfig)
      → read_list es ret ≡ value c
      → All (λ e. is_known e ≡ true) es
        × (c.block_members ≡ ret.block_members ++ members_of es)
        × (c.port_number ≡ ports_of es ret.port_number)
        × (c.block_type ≡ ret.block_type)
  unfolding read_list members_of ports_of
  read_list-Reads [] ret c h = ground (arith, append-nil ret.block_members)
  read_list-Reads (e ∷ es) ret c h =
      let (d, first, rest) = >>=-eq-value (read_child xml e ret) (read_list es) h in
      let r = read_child-Reads e ret d first in
      let (known, members, port, mode) = read_list-Reads es d c rest in
      (
        (r.known, known),
        members ∙ (rw r.members (append_assoc ret.block_members (member_of e) (members_of es))),
        port ∙ ap (ports_of es) r.port,
        mode ∙ r.mode,
      )

  -- The block type is the one that the attribute names, and `none` where it is missing.
  abbrev pub IsNamed : Option Bytes → BlockType → Type 0
  IsNamed none t = t ≡ BlockType.block_none
  IsNamed (some word) t = word ≡ word_of t

  pub record ConfigOf (root : Element) (es : List Element) (c : WoefulConfig) : Type 0 where
    pub named : IsNamed (attribute root (codes "block_type")) c.block_type
    pub known : All (λ e. is_known e ≡ true) es
    pub members : c.block_members ≡ members_of es
    pub port : c.port_number ≡ ports_of es none

  read_block_type-IsNamed :
      (w : Option Bytes) (c : WoefulConfig)
      → read_block_type w default_config ≡ value c
      → IsNamed w c.block_type × (c.block_members ≡ []) × (c.port_number ≡ none)
  unfolding read_block_type
  read_block_type-IsNamed none c h = ground arith
  read_block_type-IsNamed (some w) c h = ground (
    arith,
    bytes_eq→eq w (codes "black"),
    bytes_eq→eq w (codes "white"),
    bytes_eq→eq w (codes "none"),
  )

  read_root_lem :
      {es : List Element} (fuel : ℕ) (root : Element)
      → Siblings (first_child root) es
      → length es < fuel
      → read_root xml fuel root
        ≡ some
            (read_block_type (attribute root (codes "block_type")) default_config >>= read_list es)
  unfolding read_root
  read_root_lem {es} fuel root s h =
      elim (read_block_type (attribute root (codes "block_type")) default_config)
        as (λ r.
          elim r [
            | value c ↦ read_children xml fuel (first_child root) c
            | unexpected x ↦ some (unexpected x)
          ]
          ≡ some (r >>= read_list es)) [
            | value c ↦ read_children_lem fuel c s h
            | unexpected x ↦ refl
          ]

  -- With more fuel than the `config` element has children, `read_config` ends: it reads the
  -- block type and then each child in turn, up to the first error. The conditions are that the
  -- file loads and has a `config` element.
  pub read_config_lem :
      {fuel : ℕ} {filename : Bytes} {doc : Document} {root : Element} {es : List Element}
      → load_file filename ≡ some doc
      → first_child_element doc (codes "config") ≡ some root
      → Siblings (first_child root) es
      → length es < fuel
      → read_config xml fuel filename
        ≡ some
            (read_block_type (attribute root (codes "block_type")) default_config >>= read_list es)
  unfolding read_config
  read_config_lem {fuel} {root = root} loaded rooted children enough =
      rw (loaded, read_config, rooted, read_config) (read_root_lem fuel root children enough)

  -- A configuration that was read has the block type that the attribute names (none if it is
  -- missing), the block list that the children list, in order, and the port of the last `port`
  -- child, and every child has one of the four known names. The conditions are that the file
  -- loads, has a `config` element with finitely many children, and that the fuel is above
  -- their number.
  pub read_config-ConfigOf :
      {fuel : ℕ} {filename : Bytes} {doc : Document} {root : Element} {es : List Element}
      (c : WoefulConfig)
      → load_file filename ≡ some doc
      → first_child_element doc (codes "config") ≡ some root
      → Siblings (first_child root) es
      → length es < fuel
      → read_config xml fuel filename ≡ some (value c)
      → ConfigOf root es c
  read_config-ConfigOf {root = root} {es = es} c loaded rooted children enough h =
      let read = read_config_lem loaded rooted children enough in
      let word = attribute root (codes "block_type") in
      let (d, first, rest) =
        >>=-eq-value (read_block_type word default_config) (read_list es) (cc (read, h)) in
      let (named, no_members, no_port) = read_block_type-IsNamed word d first in
      let (known, members, port, mode) = read_list-Reads es d c rest in
      record {
        named = rw mode named;
        known = known;
        members = members ∙ rw no_members;
        port = port ∙ rw no_port;
      }
