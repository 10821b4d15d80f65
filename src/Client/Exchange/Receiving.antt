-- ===== src/Client/Exchange/Receiving.antt =====
-- packet_recv and packet_xchg of src/client/middfs-client-pkt.c.
use middfs.Common.{ℕ, zero, suc, ◌+◌, List, [], ◌∷◌, false, Option, none, some, take}
use middfs.Common.{if◌then◌else◌, ◌>>=◌, ◌||◌, ℤ, pos, is_neg, is_zero}
use middfs.Errno.{minus}
use middfs.Pkt.{Packet}
use middfs.Conf.{Memory, Environ, conf_get, conf_get_uint32}
use middfs.Serial.Reader.{DState}
use middfs.Serial.Decode.{deserialize_pkt}
use middfs.Buf.{Buffer, Realloc, buffer_init, buffer_read, buffer_deserialize}
use middfs.Client.Os.{Sys, fails, done}
use middfs.Client.Exchange.{Link, packet_send}

-- What the calls of `packet_recv` do: read(2), given the bytes received so far and the room, where
-- none is a return of -1; the allocations of call `i` of `deserialize_pkt`; and `errno` when that
-- call fails.
pub record Source : Type 0 where
  pub read : List ℕ → ℕ → Option (List ℕ)
  pub states : ℕ → DState
  pub errno : ℕ → ℕ

-- The loop of `packet_recv` at its call `i`. While the packet is not complete the buffer holds all
-- that has been received. When nothing more can be read, the loop ends with the value 1.
unfoldable pub recv_loop : ℕ → Realloc → Source → ℕ → Packet → Buffer → Option (ℤ × Packet)
recv_loop zero realloc source i pkt buf = none
recv_loop (suc fuel) realloc source i pkt buf = do
  (retv, pkt1, buf1) ← buffer_deserialize deserialize_pkt pkt (source.states i) buf
  let more = (do
    (read_retv, buf2) ← buffer_read realloc (source.read (take buf1.ptr buf1.mem)) buf1
    let rest = recv_loop fuel realloc source (i + 1) pkt1 buf2
    if is_neg read_retv || is_zero read_retv then some (retv, pkt1) else rest)
  if is_neg retv
      then some (minus (source.errno i), pkt1)
      else if is_zero retv
      then some (pos 0, pkt1)
      else more

unfoldable pub packet_recv : ℕ → Realloc → Source → Packet → Option (ℤ × Packet)
packet_recv fuel realloc source pkt = recv_loop fuel realloc source 0 pkt buffer_init

-- "serverip"
abbrev pub conf_serverip : List ℕ
conf_serverip = 115 ∷ 101 ∷ 114 ∷ 118 ∷ 101 ∷ 114 ∷ 105 ∷ 112 ∷ []

-- "serverport"
abbrev pub conf_serverport : List ℕ
conf_serverport = 115 ∷ 101 ∷ 114 ∷ 118 ∷ 101 ∷ 114 ∷ 112 ∷ 111 ∷ 114 ∷ 116 ∷ []

-- The server, and what the exchange needs of the system.
pub record Peer : Type 0 where
  pub inet_connect : List ℕ → ℕ → Sys ℕ
  pub link : Link
  pub source : Source
  pub realloc : Realloc
  pub fuel : ℕ

-- What follows the connection: the response is awaited only when the packet has been sent.
unfoldable pub send_and_recv : Peer → Packet → Packet → Sys ℕ → Option (ℤ × Packet)
send_and_recv peer out_pkt in_pkt (fails e) = some (minus e, in_pkt)
send_and_recv peer out_pkt in_pkt (done fd) = do
  (send_retv, sent) ← packet_send peer.realloc peer.fuel peer.fuel peer.link out_pkt
  let received = (do
    (recv_retv, in_pkt1) ← packet_recv peer.fuel peer.realloc peer.source in_pkt
    some (if is_neg recv_retv then recv_retv else pos 0, in_pkt1))
  if is_neg send_retv then some (send_retv, in_pkt) else received

-- The assertions on the configuration stop the process.
unfoldable pub packet_xchg :
    (List ℕ → ℕ × List ℕ) → Memory → Environ → Peer → Packet → Packet → Option (ℤ × Packet)
packet_xchg strtoull memory environ peer out_pkt in_pkt = do
  serverip ← conf_get memory conf_serverip environ
  let (serverport, err) = conf_get_uint32 strtoull memory conf_serverport environ false
  let exchanged = send_and_recv peer out_pkt in_pkt (peer.inet_connect serverip serverport)
  if err then none else exchanged
