-- ===== src/Tests/Client.antt =====
-- The theorems on the client's exchange of packets at concrete inputs.
use middfs.Common.{ℕ, List, ◌∷◌, ◌++◌, ◌∙◌, sym, ap, take, drop, length, drop-append, length-take}
use middfs.Common.{take-append-drop}
use middfs.Text.{strcmp}
use middfs.Errno.{enomem}
use middfs.Pkt.{packet_init}
use middfs.Conf.{
  Environ, envvar_prefix, conf_get, conf_get_uint32, conf_get_ull, parsed_value, full_value,
  conf_envvar, getenv,
}
use middfs.Serial.Decode.Received.{received_packet}
use middfs.Client.Os.{done}
use middfs.Client.Exchange.Receiving.{
  Source, packet_recv, Peer, packet_xchg, conf_serverip, conf_serverport,
}
use middfs.Client.Exchange.Arrival.{Feeds, packet_recv-Received, packet_xchg-Received}
use middfs.Tests.Data.{ok_state}
use middfs.Tests.System.{ample}
use middfs.Tests.Requests.{ok_pkt, ok_pkt-IsPacket, ok_pkt-length}
use middfs.Common.{◌≡◌, refl, arith, [], some, ◌⊎◌, pos}
use middfs.Errno.{minus}
use middfs.Pkt.{Packet, zero_packet}
use middfs.Pkt.Kinds.{mpkt_magic_value, mpkt_response_type, mrsp_ok_type, mrsp_error_type}
use middfs.Serial.Format.{packet_bytes}
use middfs.Buf.Contents.{NoMemory}
use middfs.Client.Exchange.{Link, packet_send, response_validate}
use middfs.Client.Exchange.Sending.{packet_send-all, response_validate_lem}
use middfs.Tests.Library.{always, always-IsRealloc}
use middfs.Tests.Data.{write_pkt, write_pkt-IsPacket, write_pkt-length}

-- A link that takes one byte in each call.
abbrev pub slow_link : Link
slow_link = record { write = λ i out. some 1; errno = λ i. 0 }

packet_send-all_example :
    ((packet_send always 40 40 slow_link write_pkt ≡ some (minus 12, [])) × NoMemory always)
    ⊎ (packet_send always 40 40 slow_link write_pkt ≡ some (pos 0, packet_bytes write_pkt))
packet_send-all_example =
    packet_send-all always 40 slow_link write_pkt always-IsRealloc
      (λ i out h. (1, refl, omega arith)) write_pkt-IsPacket (omega (arith, write_pkt-length))
      (omega (arith, write_pkt-length))

abbrev ok_response : Packet
ok_response = record zero_packet { mpkt_magic = 1800; mpkt_type = 4 }

response_validate_example :
    (ok_response.mpkt_magic ≡ mpkt_magic_value)
    × (ok_response.mpkt_type ≡ mpkt_response_type)
    × ((ok_response.mpkt_response.mrsp_type ≡ mrsp_ok_type)
        ⊎ ((ok_response.mpkt_response.mrsp_type ≡ mrsp_error_type)
            × (ok_response.mpkt_response.mrsp_error ≡ 0)))
unfolding response_validate
response_validate_example = response_validate_lem ok_response mrsp_ok_type (omega arith) refl

-- The bytes that come next in `out`, as many as there is room for.
abbrev pub feeding : List ℕ → Source
feeding out = record {
  read = λ got room. some (take room (drop (length got) out));
  states = λ i. ok_state;
  errno = λ i. 0;
}

pub feeding-Feeds : (out : List ℕ) → Feeds out (feeding out)
feeding-Feeds out got rest room e =
    let left : drop (length got) out ≡ rest =
      ap (λ x. drop (length got) x) (sym e) ∙ drop-append (length got) got rest refl in
    let size = length-take room (drop (length got) out) in
    (
      take room (drop (length got) out),
      drop room (drop (length got) out),
      refl,
      omega (arith, size),
      sym left ∙ sym (take-append-drop room (drop (length got) out)),
      λ some_left some_room. omega (arith, size, ap length left),
    )

packet_recv-Received_example :
    (t : Packet) × ((packet_recv 40 always (feeding (packet_bytes ok_pkt)) zero_packet
        ≡ some (pos 0, received_packet t ok_pkt))
      ⊎ ((packet_recv 40 always (feeding (packet_bytes ok_pkt)) zero_packet ≡ some (pos 1, t))
          × NoMemory always))
unfolding packet_init
packet_recv-Received_example =
    packet_recv-Received always (feeding (packet_bytes ok_pkt)) 40 ok_pkt zero_packet
      always-IsRealloc ok_pkt-IsPacket refl refl (λ i k. refl) (feeding-Feeds (packet_bytes ok_pkt))
      (omega (arith, ok_pkt-length)) (omega (arith, ok_pkt-length))

-- A server at "9", port 9.
abbrev pub server_environ : Environ
server_environ =
    (envvar_prefix ++ conf_serverip, 57 ∷ []) ∷ (envvar_prefix ++ conf_serverport, 57 ∷ []) ∷ []

abbrev pub nine : List ℕ → ℕ × List ℕ
nine s = (9, [])

abbrev pub server_peer : Peer
server_peer = record {
  inet_connect = λ ip port. done 3;
  link = slow_link;
  source = feeding (packet_bytes ok_pkt);
  realloc = always;
  fuel = 40;
}

packet_xchg-Received_example :
    (t : Packet) × ((packet_xchg nine ample server_environ server_peer write_pkt zero_packet
        ≡ some (pos 0, received_packet t ok_pkt))
      ⊎ (NoMemory always
          × ((packet_xchg nine ample server_environ server_peer write_pkt zero_packet
                ≡ some (minus enomem, zero_packet))
              ⊎ (packet_xchg nine ample server_environ server_peer write_pkt zero_packet
                  ≡ some (pos 0, t)))))
unfolding packet_init conf_get conf_get_uint32 conf_get_ull parsed_value full_value conf_envvar
    getenv strcmp
packet_xchg-Received_example =
    packet_xchg-Received nine ample server_environ server_peer write_pkt ok_pkt zero_packet
      (57 ∷ []) 9 3 refl refl refl always-IsRealloc (λ i out h. (1, refl, omega arith))
      write_pkt-IsPacket (omega (arith, write_pkt-length)) (omega (arith, write_pkt-length))
      ok_pkt-IsPacket refl refl (λ i k. refl) (feeding-Feeds (packet_bytes ok_pkt))
      (omega (arith, ok_pkt-length)) (omega (arith, ok_pkt-length))
