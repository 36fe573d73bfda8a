-- ===== src/Packets/Hostname.antt =====
-- The host name of a connect packet: where its C string ends, and where it does not.
use woeful.Base.{
  ℕ, zero, suc, ◌+◌, ◌*◌, ◌≡◌, refl, [], ◌∷◌, ◌++◌, length, get_elem?, ok, fault, out_of_bounds,
  ◌>>=◌, Bytes, IsSize, IsText, sub_size, c_string, arith, ◌==◌, if◌then◌else◌, false, not,
  length-append, inl, inr, Bool-cases, some, append-nil, get_elem?-append_length,
}
use woeful.Packets.{ConnectPacket, parse_connect}
use woeful.Packets.Wire.{copy_after}

-- The bytes of a connect packet whose host field is `host`.
abbrev pub connect_frame : ℕ → ℕ → ℕ → Bytes → Bytes
connect_frame stream_type lo hi host = stream_type ∷ lo ∷ hi ∷ host

abbrev pub terminator : ℕ → Bytes
terminator last = if not (last == 0) then 0 ∷ [] else []

-- `parse_connect` reads the last byte of the frame, and copies the host field.
pub parse_connect_frame :
    (t lo hi : ℕ) (host : Bytes) (last : ℕ)
    → IsSize (length (connect_frame t lo hi host))
    → get_elem? (connect_frame t lo hi host) (suc (suc (length host))) ≡ some last
    → parse_connect (connect_frame t lo hi host)
      ≡ ok (record {
        stream_type = t;
        destination_port = lo + hi * 256;
        destination_hostname = host ++ terminator last;
      })
unfolding parse_connect
parse_connect_frame t lo hi host last s h =
    let frame = connect_frame t lo hi host in
    let e : sub_size (length frame) 1 ≡ suc (suc (length host)) = unfold sub_size in omega arith in
    rw (copy_after frame host 3 s refl (omega arith), e, h)

pub c_string-append : (text rest : Bytes) → IsText text → c_string (text ++ 0 ∷ rest) ≡ ok text
unfolding c_string
c_string-append [] rest h = refl
c_string-append (b ∷ bs) rest h = ground (arith, c_string-append bs rest h.1)

-- A text that ends in 0 is a C string, and so is any text behind which a 0 is put.
c_string_last :
    (b : ℕ) (bs : Bytes)
    → get_elem? (b ∷ bs) (length bs) ≡ some 0
    → (s : Bytes) × (c_string (b ∷ bs) ≡ ok s)
unfolding c_string
c_string_last b [] h = ([], ground arith)
c_string_last b (c ∷ bs) h = elim (Bool-cases (b == 0)) [
  | inl e ↦ ([], ground arith)
  | inr e ↦ let (s, p) = c_string_last c bs h in (b ∷ s, ground (arith, p))
]

c_string_closed : (bs : Bytes) → (s : Bytes) × (c_string (bs ++ 0 ∷ []) ≡ ok s)
unfolding c_string
c_string_closed [] = ([], refl)
c_string_closed (b ∷ bs) = elim (Bool-cases (b == 0)) [
  | inl e ↦ ([], ground arith)
  | inr e ↦ let (s, p) = c_string_closed bs in (b ∷ s, ground (arith, p))
]

get_elem?_last : (b : ℕ) (bs : Bytes) → (x : ℕ) × (get_elem? (b ∷ bs) (length bs) ≡ some x)
get_elem?_last b [] = (b, refl)
get_elem?_last b (c ∷ bs) = get_elem?_last c bs

not_zero : (n : ℕ) → (suc n == 0) ≡ false
not_zero n = ground arith

c_string-terminator :
    (b : ℕ) (bs : Bytes) (last : ℕ)
    → get_elem? (b ∷ bs) (length bs) ≡ some last
    → (s : Bytes) × (c_string ((b ∷ bs) ++ terminator last) ≡ ok s)
c_string-terminator b bs zero h = rw (append-nil (b ∷ bs)) (c_string_last b bs h)
c_string-terminator b bs (suc last) h = rw (not_zero last) (c_string_closed (b ∷ bs))

-- A CONNECT frame that fits a `size_t` and whose host field is not empty is parsed, and the host
-- name of the packet can be read as a C string inside its buffer.
pub parse_connect_terminated :
    (t lo hi b : ℕ) (host : Bytes)
    → IsSize (length (connect_frame t lo hi (b ∷ host)))
    → (p : ConnectPacket) × (text : Bytes) × (parse_connect (connect_frame t lo hi (b ∷ host))
        ≡ ok p)
      × (c_string p.destination_hostname ≡ ok text)
parse_connect_terminated t lo hi b host s =
    let (last, h) = get_elem?_last b host in
    let (text, e) = c_string-terminator b host last h in
    (_, text, parse_connect_frame t lo hi (b ∷ host) last s h, e)

last_of_text :
    (b : ℕ) (text : Bytes)
    → IsText (b ∷ text)
    → (x : ℕ) × (get_elem? (b ∷ text) (length text) ≡ some (suc x))
last_of_text zero [] h = absurd (omega arith)
last_of_text (suc b) [] h = (b, refl)
last_of_text b (c ∷ text) h = last_of_text c text h.1

last_of_closed : (text : Bytes) → get_elem? (text ++ 0 ∷ []) (length text) ≡ some 0
last_of_closed text = get_elem?-append_length text 0 []

length_closed : (text : Bytes) → length (text ++ 0 ∷ []) ≡ suc (length text)
length_closed text = omega (arith, length-append text (0 ∷ []))

-- The host name that a client sends in a CONNECT frame, a text of one byte or more without 0 in
-- a frame that fits a `size_t`, is what a C string read of the packet gives, whether the client
-- put a 0 behind it or not.
pub parse_connect_hostname :
    (t lo hi b : ℕ) (text : Bytes)
    → IsText (b ∷ text)
    → IsSize (length (connect_frame t lo hi (b ∷ text)) + 1)
    → ((parse_connect (connect_frame t lo hi (b ∷ text)) >>= λ p. c_string p.destination_hostname)
        ≡ ok (b ∷ text))
      × ((parse_connect (connect_frame t lo hi (b ∷ text ++ 0 ∷ [])) >>= λ p.
            c_string p.destination_hostname)
          ≡ ok (b ∷ text))
parse_connect_hostname t lo hi b text h s =
    let (x, last) = last_of_text b text h in
    let host : Bytes = (b ∷ text) ++ 0 ∷ [] in
    let long : IsSize (length (connect_frame t lo hi host)) = omega (arith, length_closed text) in
    let zero_last : get_elem? (connect_frame t lo hi host) (suc (suc (length host))) ≡ some 0 =
      rw (length_closed text) (last_of_closed text) in
    (
      rw (parse_connect_frame t lo hi (b ∷ text) (suc x) (omega arith) last, not_zero x)
          (c_string-append (b ∷ text) [] h),
      rw (parse_connect_frame t lo hi host 0 long zero_last, append-nil)
          (c_string-append (b ∷ text) [] h),
    )

-- A CONNECT frame with no host field and a port below 256 is parsed, and reading its host name
-- as a C string runs out of the buffer.
pub parse_connect_empty :
    (t lo : ℕ)
    → (p : ConnectPacket) × (parse_connect (connect_frame t lo 0 []) ≡ ok p)
      × (p.destination_port ≡ lo + 0 * 256)
      × (c_string p.destination_hostname ≡ fault out_of_bounds)
unfolding c_string
parse_connect_empty t lo = (_, parse_connect_frame t lo 0 [] 0 (omega arith) refl, refl, refl)
