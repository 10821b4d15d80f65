-- ===== src/Serial/RoundTrip.antt =====
-- serialize_pkt and deserialize_pkt of src/lib/middfs-serial.c against each other.
use middfs.Common.{ℕ, ◌*◌, ◌^◌, ◌≤◌, ◌<◌, ◌≡◌, arith, List, ◌++◌, true}
use middfs.Common.{some, length, drop, length-append, size_mod}
use middfs.Pkt.{Packet}
use middfs.Pkt.Kinds.{mpkt_request_type, mpkt_response_type, req_has_data}
use middfs.Serial.Format.{packet_bytes}
use middfs.Serial.Valid.{IsPacket}
use middfs.Serial.Writer.{Writes, Short}
use middfs.Serial.Encode.{serialize_pkt}
use middfs.Serial.Encode.Packets.{serialize_pkt-Writes}
use middfs.Serial.Reader.{DState, IsOk, Asks, Gives, Reads}
use middfs.Serial.Decode.{deserialize_pkt}
use middfs.Serial.Decode.Received.{received_packet}
use middfs.Serial.Decode.Basic.{IsShort}
use middfs.Serial.Decode.Packets.{TakesDir, pkt-Reads}

-- A valid packet, less than half of the address space long and with less than 2 ^ 31 bytes of data
-- to write, is serialized into any block with room enough. From that block and the size returned,
-- if no allocation fails and the target can hold a directory of that size, the packet is read back
-- into any target: without an error and with all of the bytes used. The fields that travel are those
-- of the packet, but for a request's size and offset, which arrive as the sign extension of their
-- low 32 bits, and so are changed from 2 ^ 31 on; the other fields are the target's.
pub deserialize_pkt-serialize_pkt :
    (p s : Packet) (buf : List ℕ) (n : ℕ) (st : DState)
    → IsPacket p
    → (p.mpkt_type ≡ mpkt_response_type → TakesDir s.mpkt_response p.mpkt_response)
    → (p.mpkt_type ≡ mpkt_request_type
        → req_has_data p.mpkt_request.mreq_type ≡ true
        → p.mpkt_request.mreq_size < 2 ^ 31)
    → IsShort (packet_bytes p)
    → length (packet_bytes p) ≤ n
    → n ≤ length buf
    → IsOk st
    → (written : List ℕ) × (used : ℕ) × (after : DState) × (serialize_pkt p buf n
        ≡ some (written, used))
      × (deserialize_pkt s written used st ≡ some (used, received_packet s p, after))
      × IsOk after
deserialize_pkt-serialize_pkt p s buf n st v takes small fits room inside ok =
    let out = packet_bytes p in
    let w : Writes (serialize_pkt p) out = serialize_pkt-Writes p v (omega arith) in
    let r : Reads deserialize_pkt s out (received_packet s p) = pkt-Reads s p v takes small fits in
    let y : Gives (length out) (received_packet s p) _ =
      r.whole (drop (length out) buf) (length out) st ok (omega arith)
        (omega (arith, length-append out (drop (length out) buf))) in
    (out ++ drop (length out) buf, length out, y.state, w.whole buf n inside room, y.returns, y.ok)

-- On a proper front part of such a packet's bytes, whatever lies behind them in memory,
-- `deserialize_pkt` does not stop the process, sets no error, and returns more than the number of
-- bytes that it was given and at most twice the length of the whole.
pub deserialize_pkt-part :
    (p s : Packet) (front back rest : List ℕ) (st : DState)
    → IsPacket p
    → (p.mpkt_type ≡ mpkt_response_type → TakesDir s.mpkt_response p.mpkt_response)
    → (p.mpkt_type ≡ mpkt_request_type
        → req_has_data p.mpkt_request.mreq_type ≡ true
        → p.mpkt_request.mreq_size < 2 ^ 31)
    → IsShort (packet_bytes p)
    → packet_bytes p ≡ front ++ back
    → 0 < length back
    → IsOk st
    → (used : ℕ) × (partial : Packet) × (after : DState) × (deserialize_pkt s
          (front ++ rest)
          (length front)
          st
        ≡ some (used, partial, after))
      × IsOk after
      × (length front < used)
      × (used ≤ 2 * length (packet_bytes p))
deserialize_pkt-part p s front back rest st v takes small fits e missing ok =
    let r : Reads deserialize_pkt s (packet_bytes p) (received_packet s p) =
      pkt-Reads s p v takes small fits in
    let y : Asks (2 * length (packet_bytes p)) (length front) _ =
      r.part front back rest st ok e missing in
    (y.used, y.value, y.state, y.returns, y.ok, y.asks_more, y.asks_bound)

-- In a block with too little room, `serialize_pkt` does not stop the process. It keeps the size of
-- the block and every byte behind the room, and returns more than the room and at most the length
-- of the packet's wire form.
pub serialize_pkt-short :
    (p : Packet) (buf : List ℕ) (n : ℕ)
    → IsPacket p
    → length (packet_bytes p) < size_mod
    → n ≤ length buf
    → n < length (packet_bytes p)
    → (after : List ℕ) × (used : ℕ) × (serialize_pkt p buf n ≡ some (after, used))
      × (length after ≡ length buf)
      × (drop n after ≡ drop n buf)
      × (n < used)
      × (used ≤ length (packet_bytes p))
serialize_pkt-short p buf n v fits inside room =
    let w : Writes (serialize_pkt p) (packet_bytes p) = serialize_pkt-Writes p v fits in
    let y : Short (packet_bytes p) buf n _ = w.short buf n inside room in
    (y.after, y.used, y.returns, y.same_size, y.in_room, y.asks_more, y.asks_bound)
