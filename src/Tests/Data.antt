-- ===== src/Tests/Data.antt =====
-- Concrete packets, buffers, connections and clients.
use middfs.Common.{◌≡◌, refl, arith, [], ◌∷◌, true, some, length}
use middfs.Pkt.{Packet, Request, zero_packet, zero_request}
use middfs.Pkt.Kinds.{req_has_data, req_has_mode, req_has_size, req_has_to, req_has_off}
use middfs.Serial.Format.{
  be32, be64, sign_extend, optional, rsrc_bytes, request_bytes, packet_body, packet_bytes,
}
use middfs.Serial.Valid.{IsPacket, IsRequest}
use middfs.Serial.Reader.{DState, IsOk}
use middfs.Buf.{Buffer}
use middfs.Buf.Contents.{Holds}
use middfs.Server.Clients.{Client, Clients}

-- A request to write two bytes at offset 5 of "/" of the owner "b".
abbrev pub write_request : Request
write_request = record zero_request {
  mreq_type = 14;
  mreq_requester = some (97 ∷ []);
  mreq_rsrc = record { mr_owner = some (98 ∷ []); mr_path = some (47 ∷ []) };
  mreq_size = 2;
  mreq_off = 5;
  mreq_data = some (1 ∷ 2 ∷ []);
}

abbrev pub write_pkt : Packet
write_pkt = record zero_packet { mpkt_magic = 1800; mpkt_type = 3; mpkt_request = write_request }

pub write_request-IsRequest : IsRequest write_request
unfolding req_has_to req_has_data
write_request-IsRequest = record {
  type_in = omega arith;
  requester_in = ((omega arith, omega arith), tt);
  rsrc_in = (((omega arith, omega arith), tt), ((omega arith, omega arith), tt));
  mode_in = omega arith;
  size_in = omega arith;
  off_in = omega arith;
  to_in = λ e. cc;
  data_in = λ e. omega arith;
}

pub write_pkt-IsPacket : IsPacket write_pkt
write_pkt-IsPacket = record {
  magic_in = omega arith;
  type_in = omega arith;
  request_in = λ e. write_request-IsRequest;
  response_in = λ e. absurd (omega arith);
  connect_in = λ e. absurd (omega arith);
}

pub write_pkt-length : length (packet_bytes write_pkt) ≡ 36
unfolding packet_bytes packet_body request_bytes rsrc_bytes optional be64 be32 sign_extend
    req_has_mode req_has_size req_has_to req_has_off req_has_data
write_pkt-length = refl

abbrev pub ok_state : DState
ok_state = record { err = 0; grants = λ k. true; junk = (7, 7) }

pub ok_state-IsOk : IsOk ok_state
ok_state-IsOk = record { no_err = refl; granted = λ k. refl }

-- Two bytes held, and room for one more.
abbrev pub small_buffer : Buffer
small_buffer = record { mem = 8 ∷ 9 ∷ 0 ∷ []; ptr = 2 }

pub small_buffer-Holds : Holds small_buffer (8 ∷ 9 ∷ [])
small_buffer-Holds = record { free = 0 ∷ []; mem_is = refl; ptr_is = refl }

abbrev pub ann : Client
ann = record { username = 97 ∷ 110 ∷ []; ip = 49 ∷ []; port = 4321 }

abbrev pub bob : Client
bob = record { username = 98 ∷ []; ip = 50 ∷ []; port = 4322 }

abbrev pub two_clients : Clients
two_clients = record { vec = ann ∷ bob ∷ []; len = 2 }
