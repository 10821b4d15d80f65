-- ===== src/Tests/Serial.antt =====
-- The theorems on packets at a concrete write request.
use middfs.Common.{ℕ, ◌*◌, ◌≤◌, ◌<◌, ◌≡◌, sym, arith, List, [], ◌∷◌, ◌++◌, some, length, take, drop}
use middfs.Common.{replicate, length-replicate, length-drop, take-append-drop}
use middfs.Pkt.{Packet, zero_packet}
use middfs.Serial.Format.{packet_bytes}
use middfs.Serial.Encode.{serialize_pkt}
use middfs.Serial.Reader.{DState, IsOk}
use middfs.Serial.Decode.{deserialize_pkt}
use middfs.Serial.Decode.Received.{received_packet}
use middfs.Serial.RoundTrip.{
  deserialize_pkt-serialize_pkt, deserialize_pkt-part, serialize_pkt-short,
}
use middfs.Tests.Data.{write_pkt, write_pkt-IsPacket, write_pkt-length, ok_state, ok_state-IsOk}

abbrev block : List ℕ
block = replicate 40 0

deserialize_pkt-serialize_pkt_example :
    (written : List ℕ) × (used : ℕ) × (after : DState) × (serialize_pkt write_pkt block 40
      ≡ some (written, used))
    × (deserialize_pkt zero_packet written used ok_state
        ≡ some (used, received_packet zero_packet write_pkt, after))
    × IsOk after
deserialize_pkt-serialize_pkt_example =
    deserialize_pkt-serialize_pkt write_pkt zero_packet block 40 ok_state write_pkt-IsPacket
      (λ e. absurd (omega arith)) (λ e d. omega arith) (omega (arith, write_pkt-length))
      (omega (arith, write_pkt-length)) (omega (arith, length-replicate {A = ℕ} 40 0)) ok_state-IsOk

abbrev front : List ℕ
front = take 20 (packet_bytes write_pkt)

abbrev back : List ℕ
back = drop 20 (packet_bytes write_pkt)

deserialize_pkt-part_example :
    (used : ℕ) × (partial : Packet) × (after : DState) × (deserialize_pkt zero_packet
        (front ++ (1 ∷ []))
        (length front)
        ok_state
      ≡ some (used, partial, after))
    × IsOk after
    × (length front < used)
    × (used ≤ 2 * length (packet_bytes write_pkt))
deserialize_pkt-part_example =
    deserialize_pkt-part write_pkt zero_packet front back (1 ∷ []) ok_state write_pkt-IsPacket
      (λ e. absurd (omega arith)) (λ e d. omega arith) (omega (arith, write_pkt-length))
      (sym (take-append-drop 20 (packet_bytes write_pkt)))
      (omega (arith, length-drop 20 (packet_bytes write_pkt), write_pkt-length)) ok_state-IsOk

serialize_pkt-short_example :
    (after : List ℕ) × (used : ℕ) × (serialize_pkt write_pkt block 30 ≡ some (after, used))
    × (length after ≡ length block)
    × (drop 30 after ≡ drop 30 block)
    × (30 < used)
    × (used ≤ length (packet_bytes write_pkt))
serialize_pkt-short_example =
    serialize_pkt-short write_pkt block 30 write_pkt-IsPacket (omega (arith, write_pkt-length))
      (omega (arith, length-replicate {A = ℕ} 40 0)) (omega (arith, write_pkt-length))
