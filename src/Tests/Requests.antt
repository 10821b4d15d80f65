-- ===== src/Tests/Requests.antt =====
-- The theorems on the client's request handler, and on the server's choice of who answers, at
-- concrete inputs.
use middfs.Common.{ℕ, ◌≡◌, refl, arith, List, [], ◌∷◌, ◌++◌, none, some, length, ◌⊎◌}
use middfs.Common.{minus_one, true}
use middfs.Text.{strcmp}
use middfs.Conf.{conf_get, conf_envvar, getenv}
use middfs.Pkt.{Packet, Response, zero_packet, zero_response, packet_init, response_init}
use middfs.Serial.Format.{packet_bytes, packet_body, response_bytes, response_body, be32}
use middfs.Serial.Valid.{IsPacket}
use middfs.Buf.Contents.{NoMemory, Holds}
use middfs.Sock.{Sockinfo, middfs_sockend_init}
use middfs.Conn.{HandlerE, hs_suc, hs_del}
use middfs.Server.Handler.States.{Step, IsConn}
use middfs.Client.Rsrc.{middfs_localpath_tmp}
use middfs.Client.Handler.{
  response_pkt, handler_of, path_handlers, fd_handlers, handle_request, handle_request_write,
  request_block, on_opened, dispatch, run_request, with_status, answered, handle_pkt_rd_fin,
}
use middfs.Client.Handler.Responds.{DirChanged, handle_request-Answers, handle_pkt_rd_fin-Appends}
use middfs.Tests.Library.{always, always-IsRealloc}
use middfs.Tests.Data.{write_request-IsRequest, write_pkt, small_buffer, small_buffer-Holds}
use middfs.Tests.Server.{reading}
use middfs.Tests.System.{one_file-IsOs, bob_env, bob_env-Configured}
use middfs.Util.{peek}

handle_request-Answers_example :
    (((rsp : Response) × (files1 : List ℕ) × (handle_request bob_env write_pkt zero_packet (5 ∷ [])
          ≡ some (hs_suc, response_pkt rsp, files1))
        × IsPacket (response_pkt rsp))
      ⊎ ((out_pkt : Packet) × (handle_request bob_env write_pkt zero_packet (5 ∷ [])
            ≡ some (hs_del, out_pkt, 5 ∷ []))
          × (handler_of write_pkt.mpkt_request.mreq_type (path_handlers bob_env) ≡ none)
          × (handler_of write_pkt.mpkt_request.mreq_type (fd_handlers bob_env) ≡ none)))
    ⊎ DirChanged bob_env one_file-IsOs bob_env-Configured write_pkt.mpkt_request (5 ∷ [])
handle_request-Answers_example =
    handle_request-Answers bob_env one_file-IsOs bob_env-Configured write_pkt (5 ∷ [])
      write_request-IsRequest

-- The answer to a write: a response without an error.
abbrev pub ok_pkt : Packet
ok_pkt = response_pkt zero_response

bob_writes :
    handle_request bob_env write_pkt zero_packet (5 ∷ []) ≡ some (hs_suc, ok_pkt, 5 ∷ 1 ∷ 2 ∷ [])
unfolding handle_request answered with_status run_request dispatch handler_of on_opened
    handle_request_write request_block peek response_init packet_init middfs_localpath_tmp conf_get
    conf_envvar getenv strcmp
bob_writes = refl

pub ok_pkt-IsPacket : IsPacket ok_pkt
unfolding packet_init
ok_pkt-IsPacket = record {
  magic_in = omega arith;
  type_in = omega arith;
  request_in = λ e. absurd (omega arith);
  response_in = λ e. record {
    type_in = omega arith;
    data_in = λ k. absurd (omega arith);
    stat_in = λ k. absurd (omega arith);
    dir_in = λ k. absurd (omega arith);
    error_in = omega arith;
  };
  connect_in = λ e. absurd (omega arith);
}

pub ok_pkt-length : length (packet_bytes ok_pkt) ≡ 12
unfolding packet_bytes packet_body response_bytes response_body be32 packet_init
ok_pkt-length = refl

-- A connection with two bytes in the buffer of its out end.
abbrev answering : Sockinfo
answering = record reading { out_end = record { fd = minus_one; buf = small_buffer; live = true } }

handle_pkt_rd_fin-Appends_example :
    (status : HandlerE) × (after : Sockinfo) × (handle_pkt_rd_fin bob_env
        (5 ∷ [])
        answering
        write_pkt
      ≡ some (status, after, 5 ∷ 1 ∷ 2 ∷ []))
    × (((status ≡ hs_del) × Holds after.out_end.buf (8 ∷ 9 ∷ []) × NoMemory always)
        ⊎ ((status ≡ hs_suc)
            × Step answering.state after.state
            × IsConn after
            × (after.out_end.fd ≡ answering.in_end.fd)
            × (after.in_end.fd ≡ minus_one)
            × Holds after.out_end.buf ((8 ∷ 9 ∷ []) ++ packet_bytes ok_pkt)))
unfolding middfs_sockend_init
handle_pkt_rd_fin-Appends_example =
    handle_pkt_rd_fin-Appends bob_env (5 ∷ []) (5 ∷ 1 ∷ 2 ∷ []) answering write_pkt ok_pkt
      (8 ∷ 9 ∷ []) refl refl refl bob_writes ok_pkt-IsPacket always-IsRealloc
      (omega (arith, ok_pkt-length)) (omega (arith, ok_pkt-length)) small_buffer-Holds
