-- ===== src/Voice/Packet.antt =====
-- server/include/voice/voice_packet.h: the header of a packet, in network order. A `uint32_t` that
-- is stored through a pointer has its low byte first, as on the little-endian hosts of the server;
-- the parts of a swapped number share no bits, so `|` adds them.
pub mod Trip
use gd_server.Base.{
  Bool, List, [], drop, false, get_or, if◌then◌else◌, ltb, not, suc, take, true, zero, ℕ, ◌%◌, ◌*◌,
  ◌++◌, ◌+◌, ◌/◌, ◌==◌, ◌^◌, ◌∷◌,
}

abbrev pub k_magic : ℕ
k_magic = 0x4744564f

abbrev pub k_header_size : ℕ
k_header_size = 28

abbrev pub k_max_payload : ℕ
k_max_payload = 1024

-- The two reserved fields are written as 0 and not read.
pub record PacketHeader : Type 0 where
  pub magic : ℕ
  pub type : ℕ
  pub user_id : ℕ
  pub sequence : ℕ
  pub timestamp : ℕ
  pub payload_len : ℕ

unfoldable pub host_to_be16 : ℕ → ℕ
host_to_be16 v = v / 2 ^ 8 % 2 ^ 8 + v % 2 ^ 8 * 2 ^ 8

-- Byte `i` of a number.
abbrev byte : ℕ → ℕ → ℕ
byte v i = v / 2 ^ (8 * i) % 2 ^ 8

unfoldable pub host_to_be32 : ℕ → ℕ
host_to_be32 v = byte v 0 * 2 ^ 24 + byte v 1 * 2 ^ 16 + byte v 2 * 2 ^ 8 + byte v 3

unfoldable pub host_to_be64 : ℕ → ℕ
host_to_be64 v =
    byte v 0 * 2 ^ 56
    + byte v 1 * 2 ^ 48
    + byte v 2 * 2 ^ 40
    + byte v 3 * 2 ^ 32
    + byte v 4 * 2 ^ 24
    + byte v 5 * 2 ^ 16
    + byte v 6 * 2 ^ 8
    + byte v 7

unfoldable pub be_to_host16 : ℕ → ℕ
be_to_host16 v = host_to_be16 v

unfoldable pub be_to_host32 : ℕ → ℕ
be_to_host32 v = host_to_be32 v

unfoldable pub be_to_host64 : ℕ → ℕ
be_to_host64 v = host_to_be64 v

-- The bytes of a number in memory, and back.
store : ℕ → ℕ → List ℕ
store zero v = []
store (suc n) v = v % 2 ^ 8 ∷ store n (v / 2 ^ 8)

load : List ℕ → ℕ
load [] = 0
load (b ∷ bs) = b + 2 ^ 8 * load bs

unfoldable pub write_header : PacketHeader → List ℕ
unfolding store
write_header h =
    store 4 (host_to_be32 h.magic)
    ++ (h.type ∷ 0 ∷ 0 ∷ 0 ∷ [])
    ++ store 4 (host_to_be32 h.user_id)
    ++ store 4 (host_to_be32 h.sequence)
    ++ store 8 (host_to_be64 h.timestamp)
    ++ store 2 (host_to_be16 h.payload_len)
    ++ (0 ∷ 0 ∷ [])

-- The number of `n` bytes at an offset.
load_at : List ℕ → ℕ → ℕ → ℕ
unfolding load
load_at bytes offset n = load (take n (drop offset bytes))

-- The header that the fields are read into, and the result.
unfoldable pub read_header : List ℕ → ℕ → PacketHeader → PacketHeader × Bool
unfolding load_at
read_header bytes len h =
    let h1 = record h { magic = be_to_host32 (load_at bytes 0 4) } in
    let h2 = record h1 {
      type = get_or bytes 4 0;
      user_id = be_to_host32 (load_at bytes 8 4);
      sequence = be_to_host32 (load_at bytes 12 4);
      timestamp = be_to_host64 (load_at bytes 16 8);
      payload_len = be_to_host16 (load_at bytes 24 2);
    } in
    if ltb len k_header_size
    then (h, false)
    else if not (h1.magic == k_magic)
    then (h1, false)
    else if ltb k_max_payload h2.payload_len
    then (h2, false)
    else (h2, true)
