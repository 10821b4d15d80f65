-- ===== src/Client/Exchange/Arrival.antt =====
-- packet_recv of src/client/middfs-client-pkt.c puts a packet together from the pieces that arrive,
-- and packet_xchg uses it.
use middfs.Common.{
  none, ℕ, zero, suc, ◌+◌, ◌*◌, ◌≤◌, ◌<◌, ◌≡◌, refl, sym, ap, ◌∙◌, arith, List, [], ◌∷◌, ◌++◌,
}
use middfs.Common.{append_assoc, append-nil, Option, some, ◌⊎◌, inl, inr, length, length-append}
use middfs.Common.{false, ℤ, pos, size_mod, ◌==◌}
use mathlib.Core.Path.{subst}
use mathlib.Core.Option.{some-injective}
use middfs.Pkt.{Packet}
use middfs.Pkt.Kinds.{mpkt_response_type, mrsp_dir_type}
use middfs.Serial.Format.{packet_bytes}
use middfs.Serial.Valid.{IsPacket}
use middfs.Serial.Reader.{Reads}
use middfs.Serial.Decode.{deserialize_pkt}
use middfs.Serial.Decode.Received.{received_packet}
use middfs.Serial.Decode.Packets.{pkt-Reads}
use middfs.Buf.{Buffer, Realloc, IsRealloc, buffer_init}
use middfs.Buf.Contents.{NoMemory, Holds, Holds-front, buffer_init-Holds}
use middfs.Buf.Transfer.{IsRead, buffer_read-Holds}
use middfs.Buf.Growth.{buffer_read_size}
use middfs.Buf.Stream.{Grants, buffer_deserialize-whole, buffer_deserialize-part}
use middfs.Errno.{minus, enomem}
use middfs.Conf.{Memory, Environ, conf_get, conf_get_uint32}
use middfs.Client.Os.{done}
use middfs.Client.Exchange.Sending.{Flows, packet_send-all}
use middfs.Client.Exchange.Receiving.{
  Source, recv_loop, packet_recv, Peer, send_and_recv, packet_xchg, conf_serverip, conf_serverport,
}

-- The other end sends the bytes `out`: a call of `read` never fails, and what it stores comes next
-- in `out`; it stores at least one byte while there is room and some are left.
abbrev pub Feeds : List ℕ → Source → Type 0
Feeds out source =
    (got rest : List ℕ) (room : ℕ)
    → got ++ rest ≡ out
    → (bytes : List ℕ) × (later : List ℕ) × (source.read got room ≡ some bytes)
      × (length bytes ≤ room)
      × (rest ≡ bytes ++ later)
      × (0 < length rest → 0 < room → 0 < length bytes)

empty_size : length buffer_init.mem ≡ 0
unfolding buffer_init
empty_size = refl

module _ (realloc : Realloc) (law : IsRealloc realloc) (source : Source) {out : List ℕ}
    (v : Packet → Packet) (reads : (s : Packet) → Reads deserialize_pkt s out (v s))
    (granted : (i : ℕ) → Grants (source.states i)) (feeds : Feeds out source)
    (small : 4 * length out < size_mod) where
  -- The whole packet in some target, or the value 1 because memory ran out.
  abbrev Received : Option (ℤ × Packet) → Type 0
  Received r = (s : Packet) × ((r ≡ some (pos 0, v s)) ⊎ ((r ≡ some (pos 1, s)) × NoMemory realloc))

  source-IsRead : (got rest : List ℕ) → got ++ rest ≡ out → IsRead (source.read got)
  source-IsRead got rest e room bytes h =
      let (bytes1, later, k, fits, next, more) = feeds got rest room e in
      subst (λ b. length b ≤ room) (some-injective _ _ (sym k ∙ h)) fits

  recv_loop-Received :
      (fuel i : ℕ) (s : Packet) (buf : Buffer) (c rest : List ℕ)
      → Holds buf c
      → c ++ rest ≡ out
      → length buf.mem ≤ 2 * length out
      → length rest < fuel
      → Received (recv_loop fuel realloc source i s buf)
  unfolding recv_loop
  recv_loop-Received zero i s buf c rest h e fits enough = absurd (omega arith)
  recv_loop-Received (suc fuel) i s buf c [] h e fits enough =
      let all : c ≡ out ++ [] = sym (append-nil c) ∙ e ∙ sym (append-nil out) in
      let (after, returns, holds) =
        buffer_deserialize-whole (reads s) (source.states i) buf [] (granted i)
          (subst (Holds buf) all h) in
      (s, inl (rw returns refl))
  recv_loop-Received (suc fuel) i s buf c (b ∷ bs) h e fits enough =
      let (partial, returns) =
        buffer_deserialize-part (reads s) (source.states i) buf c (b ∷ bs) (granted i) h (sym e)
          (omega arith) in
      let l = length-append c (b ∷ bs) in
      let n = ap length e in
      let (after, cases) =
        buffer_read-Holds realloc law (source.read c) (source-IsRead c (b ∷ bs) e) buf c h
          (omega (arith, l, n)) in
      elim cases [
        | inl (failed, kept, inl full) ↦
            (partial, inr (rw (returns, Holds-front h, failed) refl, full))
        | inl (failed, kept, inr (room, some_room, k)) ↦
            let (bytes, later, found, in_room, next, more) = feeds c (b ∷ bs) room e in
            absurd (no_bytes (sym k ∙ found))
        | inr (room, stored, some_room, k, read, holds) ↦
            let (bytes, later, found, in_room, next, more) = feeds c (b ∷ bs) room e in
            let same : stored ≡ bytes = some-injective _ _ (sym k ∙ found) in
            let left : b ∷ bs ≡ stored ++ later = next ∙ ap (λ x. x ++ later) (sym same) in
            let got : 0 < length stored =
              subst (λ x. 0 < length x) (sym same) (more (omega arith) some_room) in
            let step : recv_loop (suc fuel) realloc source i s buf
                ≡ recv_loop fuel realloc source (i + 1) partial after =
              rw (returns, Holds-front h, read) (ground arith) in
            subst Received (sym step) (
              recv_loop-Received fuel (i + 1) partial after (c ++ stored) later holds
                (append_assoc c stored later ∙ ap (λ x. c ++ x) (sym left) ∙ e)
                (buffer_read_size realloc law (source.read c) (source-IsRead c (b ∷ bs) e) buf c
                  (length out) (pos (length stored)) after h (omega (arith, l, n)) fits small read)
                (omega (arith, ap length left, length-append stored later)))
      ]
    where
      no_bytes : {bytes : List ℕ} → none ≡ some bytes → ⊥
      no_bytes h = cc

-- When the other end sends the wire form of a valid response that is no directory listing, in any
-- pieces, no allocation of the deserializer fails, and the form is shorter than a quarter of the
-- address space, `packet_recv` ends with fuel above its length. It returns 0, and every field that
-- travels is the response's; or memory ran out for the buffer, and it returns 1.
pub packet_recv-Received :
    (realloc : Realloc) (source : Source) (fuel : ℕ) (p s : Packet)
    → IsRealloc realloc
    → IsPacket p
    → p.mpkt_type ≡ mpkt_response_type
    → (p.mpkt_response.mrsp_type == mrsp_dir_type) ≡ false
    → ((i : ℕ) → Grants (source.states i))
    → Feeds (packet_bytes p) source
    → 4 * length (packet_bytes p) < size_mod
    → length (packet_bytes p) < fuel
    → (t : Packet) × ((packet_recv fuel realloc source s ≡ some (pos 0, received_packet t p))
        ⊎ ((packet_recv fuel realloc source s ≡ some (pos 1, t)) × NoMemory realloc))
unfolding packet_recv
packet_recv-Received realloc source fuel p s law valid typed no_dir granted feeds small enough =
    recv_loop-Received realloc law source (λ t. received_packet t p)
      (λ t.
        pkt-Reads t p valid (λ e k. absurd (ground arith)) (λ e. absurd (ground arith))
          (omega arith))
      granted feeds small fuel 0 s buffer_init [] (packet_bytes p) buffer_init-Holds refl
      (omega (arith, empty_size)) enough

-- When the client is configured and the connection is made, `packet_xchg` sends a valid packet over a
-- link that takes at least one byte in each call, and receives the valid response, no directory listing, that the other
-- end sends in any pieces, under the bounds of both directions. It returns 0 with every field of the
-- response that travels; or memory ran out: it returns -ENOMEM with the target as it was, or 0 with
-- a response that is not complete.
pub packet_xchg-Received :
    (strtoull : List ℕ → ℕ × List ℕ) (memory : Memory) (environ : Environ) (peer : Peer)
    (out_pkt p s : Packet) (ip : List ℕ) (port fd : ℕ)
    → conf_get memory conf_serverip environ ≡ some ip
    → conf_get_uint32 strtoull memory conf_serverport environ false ≡ (port, false)
    → peer.inet_connect ip port ≡ done fd
    → IsRealloc peer.realloc
    → Flows peer.link
    → IsPacket out_pkt
    → length (packet_bytes out_pkt) < peer.fuel
    → length (packet_bytes out_pkt) < size_mod
    → IsPacket p
    → p.mpkt_type ≡ mpkt_response_type
    → (p.mpkt_response.mrsp_type == mrsp_dir_type) ≡ false
    → ((i : ℕ) → Grants (peer.source.states i))
    → Feeds (packet_bytes p) peer.source
    → 4 * length (packet_bytes p) < size_mod
    → length (packet_bytes p) < peer.fuel
    → (t : Packet) × ((packet_xchg strtoull memory environ peer out_pkt s
          ≡ some (pos 0, received_packet t p))
        ⊎ (NoMemory peer.realloc
            × ((packet_xchg strtoull memory environ peer out_pkt s ≡ some (minus enomem, s))
                ⊎ (packet_xchg strtoull memory environ peer out_pkt s ≡ some (pos 0, t)))))
unfolding packet_xchg send_and_recv
packet_xchg-Received strtoull memory environ peer out_pkt p s ip port fd has_ip has_port linked law
      flows valid_out enough_out fits_out valid typed no_dir granted feeds small enough =
    let (t, cases) =
      packet_recv-Received peer.realloc peer.source peer.fuel p s law valid typed no_dir granted
        feeds small enough in
    elim (packet_send-all peer.realloc peer.fuel peer.link out_pkt law flows valid_out enough_out
      fits_out) [
        | inl (failed, full) ↦ (t, inr (full, inl (rw (has_ip, has_port, linked, failed) refl)))
        | inr sent ↦ elim cases [
          | inl got ↦ (t, inl (rw (has_ip, has_port, linked, sent, got) refl))
          | inr (got, full) ↦ (t, inr (full, inr (rw (has_ip, has_port, linked, sent, got) refl)))
        ]
      ]
