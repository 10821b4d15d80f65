-- ===== src/Client/Remote/Network.antt =====
-- When packet_xchg of src/client/middfs-client-pkt.c brings the owner's answer to the requester.
use middfs.Common.{ℕ, ◌*◌, ◌<◌, ◌≡◌, refl, List, false, Option, some, length, ◌==◌, ◌>>=◌}
use middfs.Common.{inl, inr, ℤ, size_mod}
use middfs.Pkt.{Packet, zero_packet}
use middfs.Pkt.Kinds.{mpkt_response_type, mrsp_dir_type}
use middfs.Conf.{Memory, Environ, conf_get, conf_get_uint32}
use middfs.Serial.Format.{packet_bytes}
use middfs.Serial.Valid.{IsPacket}
use middfs.Buf.{IsRealloc}
use middfs.Buf.Contents.{NoMemory}
use middfs.Buf.Stream.{Grants}
use middfs.Conn.{hs_suc}
use middfs.Conn.Reading.{arrives}
use middfs.Client.Os.{done, ClientEnv}
use middfs.Client.Handler.{handle_request}
use middfs.Client.Exchange.Sending.{Flows}
use middfs.Client.Exchange.Receiving.{Peer, conf_serverip, conf_serverport, packet_xchg}
use middfs.Client.Exchange.Arrival.{Feeds, packet_xchg-Received}
use middfs.Client.Remote.{Linked}

module _ {G M : Type 0} (owner : ClientEnv G M) (strtoull : List ℕ → ℕ × List ℕ) (memory : Memory)
    (environ : Environ) (peer : Packet → Peer) where
  -- The exchange of the program with a peer that depends on the owner's answer.
  unfoldable pub over_wire : Packet → Packet → G → Option (ℤ × Packet × G)
  over_wire out_pkt in_pkt files = do
    (status, answer, files1) ← handle_request owner (arrives out_pkt) zero_packet files
    (retv, in_pkt1) ← packet_xchg strtoull memory environ (peer answer) out_pkt in_pkt
    some (retv, in_pkt1, files1)

  -- What the exchange needs of an answer: it is a valid response and no directory listing, and the
  -- peer sends its wire form.
  pub record Carries (ip : List ℕ) (port : ℕ) (out_pkt answer : Packet) : Type 0 where
    pub connects : (fd : ℕ) × ((peer answer).inet_connect ip port ≡ done fd)
    pub memory_law : IsRealloc (peer answer).realloc
    pub has_memory : NoMemory (peer answer).realloc → ⊥
    pub flows : Flows (peer answer).link
    pub out_fuel : length (packet_bytes out_pkt) < (peer answer).fuel
    pub valid : IsPacket answer
    pub typed : answer.mpkt_type ≡ mpkt_response_type
    pub no_dir : (answer.mpkt_response.mrsp_type == mrsp_dir_type) ≡ false
    pub granted : (i : ℕ) → Grants ((peer answer).source.states i)
    pub feeds : Feeds (packet_bytes answer) (peer answer).source
    pub small : 4 * length (packet_bytes answer) < size_mod
    pub in_fuel : length (packet_bytes answer) < (peer answer).fuel

  -- A configured requester that exchanges a valid packet by `packet_xchg` gets the owner's answer as it
  -- arrives, when the peer sends the wire form of a valid answer and no memory runs out.
  pub packet_xchg-Linked :
      {F : Type 0} (client : ClientEnv F G) (ip : List ℕ) (port : ℕ) (out_pkt in_pkt : Packet)
      (files : G)
      → ((o i : Packet) (g : G) → client.xchg o i g ≡ over_wire o i g)
      → conf_get memory conf_serverip environ ≡ some ip
      → conf_get_uint32 strtoull memory conf_serverport environ false ≡ (port, false)
      → IsPacket out_pkt
      → length (packet_bytes out_pkt) < size_mod
      → ((answer : Packet) (files1 : G)
          → handle_request owner (arrives out_pkt) zero_packet files ≡ some (hs_suc, answer, files1)
          → Carries ip port out_pkt answer)
      → Linked client owner out_pkt in_pkt files
  unfolding over_wire
  packet_xchg-Linked client ip port out_pkt in_pkt files is_wire has_ip has_port v fits carries
        answer files1 e =
      let c = carries answer files1 e in
      let (t, cases) =
        packet_xchg-Received strtoull memory environ (peer answer) out_pkt answer in_pkt ip port
          c.connects.0 has_ip has_port c.connects.1 c.memory_law c.flows v c.out_fuel fits c.valid
          c.typed c.no_dir c.granted c.feeds c.small c.in_fuel in
      elim cases [
        | inl got ↦ (t, rw (is_wire out_pkt in_pkt files, e, got) refl)
        | inr (full, failed) ↦ absurd (c.has_memory full)
      ]
