-- ===== src/Client/Exchange.antt =====
-- src/client/middfs-client-pkt.c: sending a packet and validating the response.
pub mod Sending
pub mod Receiving
pub mod Arrival
use middfs.Common.{
  ℕ, zero, suc, ◌+◌, ◌-◌, ◌^◌, ltb, List, [], ◌∷◌, ◌++◌, Bool, true, false, Option, none, some,
}
use middfs.Common.{if◌then◌else◌, length, take, ◌==◌, ◌&&◌, not, ◌>>=◌, ℤ, pos, negsuc, is_neg}
use middfs.Errno.{eio, eintr, minus}
use middfs.Pkt.{Packet}
use middfs.Pkt.Kinds.{mpkt_magic_value, mpkt_response_type, mrsp_error_type}
use middfs.Serial.Encode.{serialize_pkt}
use middfs.Buf.{Buffer, Realloc, buffer_init, buffer_isempty, buffer_write, buffer_serialize}

-- The calls of write(2) in turn: none is a return of -1, and then `errno`, where 4 is EINTR.
pub record Link : Type 0 where
  pub write : ℕ → List ℕ → Option ℕ
  pub errno : ℕ → ℕ

-- What a call of `write` takes from the bytes that it is given.
abbrev pub taken : Option ℕ → List ℕ → List ℕ
taken none out = []
taken (some k) out = take k out

-- The loop of `packet_send`, at call `i`, with the bytes sent so far.
unfoldable pub send_loop : ℕ → Link → ℕ → Buffer → List ℕ → Option (ℤ × List ℕ)
send_loop zero link i buf sent = none
send_loop (suc fuel) link i buf sent =
    let out = take buf.ptr buf.mem in
    let sent1 = sent ++ taken (link.write i out) out in
    let step = (do
      (write_retv, buf1) ← buffer_write (link.write i) buf
      let rest = send_loop fuel link (i + 1) buf1 sent1
      if is_neg write_retv && not (link.errno i == eintr)
          then some (minus (link.errno i), sent)
          else rest) in
    if buffer_isempty buf then some (pos 0, sent) else step

-- What follows the call of `buffer_serialize`; a failed one leaves ENOMEM in `errno`.
unfoldable pub send_serialized : ℕ → Link → ℤ × Buffer → Option (ℤ × List ℕ)
send_serialized fuel link (negsuc n, buf) = some (minus 12, [])
send_serialized fuel link (pos n, buf) = send_loop fuel link 0 buf []

-- The result, and the bytes that have been sent.
unfoldable pub packet_send : Realloc → ℕ → ℕ → Link → Packet → Option (ℤ × List ℕ)
packet_send realloc rounds fuel link pkt = do
  r ← buffer_serialize realloc rounds (serialize_pkt pkt) buffer_init
  send_serialized fuel link r

-- The negation of a signed 32-bit word.
unfoldable pub negated32 : ℕ → ℤ
negated32 x =
    if x == 0
    then pos 0
    else if x == 2 ^ 31
    then negsuc (2 ^ 31 - 1)
    else if ltb x (2 ^ 31)
    then negsuc (x - 1)
    else pos (2 ^ 32 - x)

unfoldable pub response_validate : Packet → ℕ → ℤ
response_validate pkt type =
    let rsp = pkt.mpkt_response in
    if not (pkt.mpkt_magic == mpkt_magic_value)
    then minus eio
    else if not (pkt.mpkt_type == mpkt_response_type)
    then minus eio
    else if rsp.mrsp_type == type
    then pos 0
    else if rsp.mrsp_type == mrsp_error_type
    then negated32 rsp.mrsp_error
    else minus eio
