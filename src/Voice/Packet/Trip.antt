-- ===== src/Voice/Packet/Trip.antt =====
-- A header comes back from its bytes.

use gd_server.Base.{List, arith, false, get_or, ltb, refl, true, ℕ, ◌++◌, ◌<◌, ◌==◌, ◌^◌, ◌≡◌, ◌≤◌}
use gd_server.Voice.Packet.{
  PacketHeader, be_to_host16, be_to_host32, be_to_host64, host_to_be16, host_to_be32, host_to_be64,
  k_header_size, k_magic, k_max_payload, load, load_at, read_header, store, write_header,
}

swap16_twice : (v : ℕ) → v < 2 ^ 16 → host_to_be16 (host_to_be16 v) ≡ v
unfolding host_to_be16
swap16_twice v h = omega arith

swap32_twice : (v : ℕ) → v < 2 ^ 32 → host_to_be32 (host_to_be32 v) ≡ v
unfolding host_to_be32
swap32_twice v h = omega arith

swap64_twice : (v : ℕ) → v < 2 ^ 64 → host_to_be64 (host_to_be64 v) ≡ v
unfolding host_to_be64
swap64_twice v h = omega arith

swap_bounds :
    (v : ℕ) → (host_to_be16 v < 2 ^ 16) × (host_to_be32 v < 2 ^ 32) × (host_to_be64 v < 2 ^ 64)
unfolding host_to_be16 host_to_be32 host_to_be64
swap_bounds v = (omega arith, omega arith, omega arith)

load-store2 : (v : ℕ) → v < 2 ^ 16 → load (store 2 v) ≡ v
unfolding load store
load-store2 v h = omega arith

load-store4 : (v : ℕ) → v < 2 ^ 32 → load (store 4 v) ≡ v
unfolding load store
load-store4 v h = omega arith

load-store8 : (v : ℕ) → v < 2 ^ 64 → load (store 8 v) ≡ v
unfolding load store
load-store8 v h = omega arith

-- A header whose fields fit, as the server sends it.
pub record IsHeader (h : PacketHeader) : Type 0 where
  pub marked : h.magic ≡ k_magic
  pub user : h.user_id < 2 ^ 32
  pub number : h.sequence < 2 ^ 32
  pub time : h.timestamp < 2 ^ 64
  pub payload : h.payload_len ≤ k_max_payload

word_back : (v : ℕ) → v < 2 ^ 32 → be_to_host32 (load (store 4 (host_to_be32 v))) ≡ v
unfolding be_to_host32
word_back v h = rw (load-store4 (host_to_be32 v) (swap_bounds v).1) (swap32_twice v h)

stamp_back : (v : ℕ) → v < 2 ^ 64 → be_to_host64 (load (store 8 (host_to_be64 v))) ≡ v
unfolding be_to_host64
stamp_back v h = rw (load-store8 (host_to_be64 v) (swap_bounds v).2) (swap64_twice v h)

length_back : (v : ℕ) → v < 2 ^ 16 → be_to_host16 (load (store 2 (host_to_be16 v))) ≡ v
unfolding be_to_host16
length_back v h = rw (load-store2 (host_to_be16 v) (swap_bounds v).0) (swap16_twice v h)

-- The fields of a header at their places in the bytes.
fields_back :
    (h : PacketHeader) (rest : List ℕ)
    → IsHeader h
    → (be_to_host32 (load_at (write_header h ++ rest) 0 4) ≡ h.magic)
      × (get_or (write_header h ++ rest) 4 0 ≡ h.type)
      × (be_to_host32 (load_at (write_header h ++ rest) 8 4) ≡ h.user_id)
      × (be_to_host32 (load_at (write_header h ++ rest) 12 4) ≡ h.sequence)
      × (be_to_host64 (load_at (write_header h ++ rest) 16 8) ≡ h.timestamp)
      × (be_to_host16 (load_at (write_header h ++ rest) 24 2) ≡ h.payload_len)
unfolding write_header load_at store
fields_back h rest v = (
  word_back h.magic (omega (arith, v.marked)),
  refl,
  word_back h.user_id v.user,
  word_back h.sequence v.number,
  stamp_back h.timestamp v.time,
  length_back h.payload_len (omega (arith, v.payload)),
)

-- A header with the mark, fields that fit and a payload of at most 1024 bytes is read back from the
-- bytes that it is written as, whatever follows them in a packet of at least 28 bytes and whatever
-- header it is read into.
pub read_header-write_header :
    (h into : PacketHeader) (rest : List ℕ) (len : ℕ)
    → IsHeader h
    → k_header_size ≤ len
    → read_header (write_header h ++ rest) len into ≡ (h, true)
unfolding read_header
read_header-write_header h into rest len v long =
    let (magic, type, user, number, time, payload) = fields_back h rest v in
    let enough : ltb len k_header_size ≡ false = ground arith in
    let marked : (h.magic == k_magic) ≡ true = ground (arith, v.marked) in
    let small : ltb k_max_payload h.payload_len ≡ false = ground (arith, v.payload) in
    rw (magic, type, user, number, time, payload, enough, marked, small) refl
