-- ===== src/Tests/Wire.antt =====
-- Ann's client asks bob's through the program's packet_xchg: an access from the network by its wire
-- forms.
use middfs.Common.{ℕ, ◌≡◌, refl, sym, ap, ◌∙◌, arith, List, [], ◌∷◌, some, length, pos}
use mathlib.Core.Path.{subst}
use mathlib.Core.Option.{some-injective}
use middfs.Text.{strcmp}
use middfs.Conf.{
  conf_get, conf_get_uint32, conf_get_ull, parsed_value, full_value, conf_envvar, getenv,
}
use middfs.Pkt.{Packet, zero_packet, packet_init, response_init}
use middfs.Pkt.Init.{request_init}
use middfs.Pkt.Kinds.{req_has_data, req_has_mode, req_has_size, req_has_to, req_has_off}
use middfs.Serial.Format.{
  be32, be64, sign_extend, optional, rsrc_bytes, request_bytes, packet_body, packet_bytes,
}
use middfs.Serial.Decode.Received.{received_packet, received_request, received_fields}
use middfs.Serial.Valid.{IsPacket}
use middfs.Buf.Contents.{NoMemory}
use middfs.Conn.{HandlerE, hs_suc}
use middfs.Conn.Reading.{arrives}
use middfs.Client.Os.{ClientEnv, World}
use middfs.Client.Rsrc.{request_for, middfs_localpath_tmp}
use middfs.Client.Rsrc.Access.{client_rsrc_access}
use middfs.Client.Handler.{
  handler_of, handle_request_access, dispatch, run_request, with_status, answered, handle_request,
}
use middfs.Client.Exchange.Receiving.{Peer}
use middfs.Client.Remote.{Linked, network_rsrc, local_rsrc}
use middfs.Client.Remote.Status.{access_pkt, Agree, client_rsrc_access-remote}
use middfs.Client.Remote.Network.{over_wire, Carries, packet_xchg-Linked}
use middfs.Tests.Library.{always, always-IsRealloc}
use middfs.Tests.System.{ample, one_file-IsOs, bob_env, bob_env-Configured, ann_env}
use middfs.Tests.Requests.{ok_pkt, ok_pkt-IsPacket, ok_pkt-length}
use middfs.Tests.Client.{feeding, feeding-Feeds, server_environ, nine, server_peer}

-- The server sends the answer of bob's client.
abbrev sends : Packet → Peer
sends answer = record server_peer { source = feeding (packet_bytes answer); fuel = 100 }

abbrev wire_env : ClientEnv (List ℕ) (List ℕ)
wire_env = record ann_env { xchg = over_wire bob_env nine ample server_environ sends }

-- "bob" and "/x"
abbrev bob_text : List ℕ
bob_text = 98 ∷ 111 ∷ 98 ∷ []

abbrev x_text : List ℕ
x_text = 47 ∷ 120 ∷ []

abbrev asks : Packet
asks = access_pkt wire_env bob_env bob_env-Configured bob_text x_text (pos 3) 4

asks-IsPacket : IsPacket asks
unfolding request_for request_init packet_init conf_get conf_envvar getenv strcmp req_has_to
    req_has_data
asks-IsPacket = record {
  magic_in = omega arith;
  type_in = omega arith;
  request_in = λ e. record {
    type_in = omega arith;
    requester_in = (
      (omega arith, omega arith),
      ((omega arith, omega arith), ((omega arith, omega arith), tt)),
    );
    rsrc_in = (
      ((omega arith, omega arith), ((omega arith, omega arith), ((omega arith, omega arith), tt))),
      ((omega arith, omega arith), ((omega arith, omega arith), tt)),
    );
    mode_in = omega arith;
    size_in = omega arith;
    off_in = omega arith;
    to_in = λ e1. cc;
    data_in = λ e1. cc;
  };
  response_in = λ e. absurd (omega arith);
  connect_in = λ e. absurd (omega arith);
}

asks-length : length (packet_bytes asks) ≡ 27
unfolding request_for request_init packet_init conf_get conf_envvar getenv strcmp packet_bytes
    packet_body request_bytes rsrc_bytes optional be64 be32 sign_extend req_has_mode req_has_size
    req_has_to req_has_off req_has_data
asks-length = refl

bob_answers :
    handle_request bob_env (arrives asks) zero_packet (5 ∷ []) ≡ some (hs_suc, ok_pkt, 5 ∷ [])
unfolding request_for request_init packet_init received_packet received_request received_fields
    req_has_mode req_has_size req_has_to req_has_off req_has_data run_request dispatch handler_of
    handle_request_access handle_request answered with_status response_init middfs_localpath_tmp
    conf_get conf_envvar getenv strcmp sign_extend
bob_answers = refl

no_shortage : NoMemory always → ⊥
unfolding always
no_shortage (mem, n, e) = cc

ok_pkt-Carries : Carries bob_env nine ample server_environ sends (57 ∷ []) 9 asks ok_pkt
unfolding packet_init
ok_pkt-Carries = record {
  connects = (3, refl);
  memory_law = always-IsRealloc;
  has_memory = no_shortage;
  flows = λ i out h. (1, refl, omega arith);
  out_fuel = omega (arith, asks-length);
  valid = ok_pkt-IsPacket;
  typed = refl;
  no_dir = refl;
  granted = λ i k. refl;
  feeds = feeding-Feeds (packet_bytes ok_pkt);
  small = omega (arith, ok_pkt-length);
  in_fuel = omega (arith, ok_pkt-length);
}

abbrev answer_of : HandlerE × Packet × List ℕ → Packet
answer_of r = r.1

wire_env-Linked : Linked wire_env bob_env asks zero_packet (5 ∷ [])
unfolding conf_get conf_get_uint32 conf_get_ull parsed_value full_value conf_envvar getenv strcmp
wire_env-Linked =
    packet_xchg-Linked bob_env nine ample server_environ sends wire_env (57 ∷ []) 9 asks zero_packet
      (5 ∷ []) (λ o i g. refl) refl refl asks-IsPacket (omega (arith, asks-length))
      (λ answer files1 e.
        subst (Carries bob_env nine ample server_environ sends (57 ∷ []) 9 asks)
          (ap answer_of (some-injective _ _ (sym bob_answers ∙ e))) ok_pkt-Carries)

abbrev both_worlds : World (List ℕ) (List ℕ)
both_worlds = record { files = 9 ∷ []; net = 5 ∷ [] }

client_rsrc_access-remote_example :
    Agree wire_env bob_env bob_env-Configured
      (client_rsrc_access wire_env (network_rsrc bob_text x_text (pos 3)) 4)
      (client_rsrc_access bob_env (local_rsrc bob_text x_text) 4)
      both_worlds
      0
client_rsrc_access-remote_example =
    client_rsrc_access-remote wire_env bob_env bob_env-Configured one_file-IsOs bob_text x_text
      (pos 3) 4 both_worlds 0 wire_env-Linked
