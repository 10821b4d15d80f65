-- ===== src/Client/Remote/Status.antt =====
-- The operations that return a status have the same result and the same effect on the owner's files
-- from the network as at the owner itself.
use middfs.Common.{ℕ, zero, suc, ◌^◌, ◌<◌, ◌≡◌, refl, arith, List, Option, some}
use middfs.Common.{ℤ, pos}
use middfs.Pkt.{Packet, Response, zero_packet, zero_response, packet_init, response_init}
use middfs.Pkt.Init.{request_init}
use middfs.Pkt.Kinds.{
  mrsp_ok_type, mreq_access_type, mreq_truncate_type, mreq_rename_type, req_has_mode, req_has_size,
  req_has_to, req_has_off, req_has_data,
}
use middfs.Serial.Decode.Received.{
  received_packet, received_request, received_fields, received_response,
}
use middfs.Client.Exchange.{response_validate}
use middfs.Client.Exchange.Sending.{negated32-minus}
use middfs.Client.Os.{Sys, fails, done, status, ClientEnv, World}
use middfs.Client.Os.Laws.{Errs, IsOs}
use middfs.Client.Rsrc.{ask, request_for, on_localpath}
use middfs.Client.Rsrc.Paths.{Configured, home_path, localpath-home}
use middfs.Serial.Format.{sign_extend}
use middfs.Conn.Reading.{arrives}
use middfs.Client.Rsrc.Access.{
  client_rsrc_access, client_rsrc_truncate, client_rsrc_rename, on_local, same_type, with_request,
}
use middfs.Client.Handler.{
  response_pkt, with_status, answer_ok, answered, handle_request, run_request, dispatch, handler_of,
  handle_request_access, handle_request_truncate, handle_request_rename,
}
use middfs.Client.Remote.{Linked, network_rsrc, local_rsrc}

-- The packet that answers with the outcome of a call.
abbrev outcome_pkt : Sys Unit → Packet
outcome_pkt r =
    response_pkt (with_status (answer_ok zero_response r tt).0 (answer_ok zero_response r tt).1)

outcome_pkt-status :
    (t : Packet) (r : Sys Unit)
    → Errs r
    → response_validate (received_packet t (outcome_pkt r)) mrsp_ok_type ≡ status r
unfolding response_validate received_packet received_response packet_init with_status response_init
outcome_pkt-status t (fails zero) h = absurd (omega arith)
outcome_pkt-status t (fails (suc n)) h = negated32-minus n h.1
outcome_pkt-status t (done u) h = refl

pub sign_extend_small : (x : ℕ) → x < 2 ^ 31 → sign_extend x ≡ x
unfolding sign_extend
sign_extend_small x h = ground arith

module _ {F G M : Type 0} (client : ClientEnv F G) (owner : ClientEnv G M)
    (conf : Configured owner) where
  -- Asking is as good as making the call, when the owner answers with its outcome.
  ask-outcome :
      (out t : Packet) (r : Sys Unit) (files : G) (w : World F G)
      → Errs r
      → client.xchg out zero_packet w.net ≡ some (pos 0, received_packet t (outcome_pkt r), files)
      → ask client out mrsp_ok_type w ≡ some (status r, record w { net = files })
  unfolding ask
  ask-outcome out t (fails zero) files w h e = absurd (omega arith)
  ask-outcome out t (fails (suc n)) files w h e =
      rw (e, outcome_pkt-status t (fails (suc n)) h) refl
  ask-outcome out t (done u) files w h e = rw (e, outcome_pkt-status t (done u) h) refl

  -- The exchange, for a request whose handler leaves a status and a response.
  pub xchg-response :
      (out in_pkt : Packet) (path : List ℕ) (status : ℤ) (rsp : Response) (files g : G)
      → Linked client owner out in_pkt g
      → (arrives out).mpkt_request.mreq_rsrc.mr_path ≡ some path
      → run_request owner (home_path owner conf path) (arrives out).mpkt_request zero_response g
        ≡ some (some (status, rsp, files))
      → (t : Packet) × (client.xchg out in_pkt g
          ≡ some (pos 0, received_packet t (response_pkt (with_status status rsp)), files))
  unfolding handle_request answered packet_init
  xchg-response out in_pkt path status rsp files g linked at_path run =
      linked (response_pkt (with_status status rsp)) files
        (rw (at_path, localpath-home owner conf path, run) refl)

  asked_outcome :
      (out : Packet) (path : List ℕ) (r : Sys Unit) (files : G) (w : World F G)
      → Errs r
      → Linked client owner out zero_packet w.net
      → (arrives out).mpkt_request.mreq_rsrc.mr_path ≡ some path
      → run_request owner (home_path owner conf path) (arrives out).mpkt_request zero_response w.net
        ≡ some (some (answer_ok zero_response r files))
      → ask client out mrsp_ok_type w ≡ some (status r, record w { net = files })
  asked_outcome out path (fails e) files w h linked at_path run =
      let (t, got) = xchg-response out zero_packet path _ _ files w.net linked at_path run in
      ask-outcome out t (fails e) files w h got
  asked_outcome out path (done u) files w h linked at_path run =
      let (t, got) = xchg-response out zero_packet path _ _ files w.net linked at_path run in
      ask-outcome out t (done u) files w h got

  -- The same status and the same files of the owner, from afar and at home.
  abbrev pub Agree :
      (World F G → Option (ℤ × World F G))
      → (World G M → Option (ℤ × World G M))
      → World F G
      → M
      → Type 0
  Agree remote local w m =
      (retv : ℤ) × (files : G) × (remote w ≡ some (retv, record w { net = files }))
      × (local (record { files = w.net; net = m }) ≡ some (retv, record { files = files; net = m }))

  on_localpath-home :
      (user path : List ℕ) (call : List ℕ → G → Sys Unit × G) (v : World G M)
      → on_localpath owner (local_rsrc user path) call v
        ≡ some (
          status (call (home_path owner conf path) v.files).0,
          record v { files = (call (home_path owner conf path) v.files).1 },
        )
  unfolding on_localpath
  on_localpath-home user path call v = rw (localpath-home owner conf path) refl

  -- The requests.
  abbrev pub access_pkt : List ℕ → List ℕ → ℤ → ℕ → Packet
  access_pkt user path fd mode =
      with_request (request_for client mreq_access_type (network_rsrc user path fd))
        (λ req. record req { mreq_mode = mode })

  abbrev pub truncate_pkt : List ℕ → List ℕ → ℤ → ℕ → Packet
  truncate_pkt user path fd size =
      with_request (request_for client mreq_truncate_type (network_rsrc user path fd))
        (λ req. record req { mreq_size = size })

  abbrev pub rename_pkt : List ℕ → List ℕ → ℤ → List ℕ → ℤ → Packet
  rename_pkt user path fd to_path to_fd =
      with_request (request_for client mreq_rename_type (network_rsrc user path fd))
        (λ req. record req { mreq_to = (network_rsrc user to_path to_fd).mr_rsrc })

  module _ (law : IsOs owner.os) where
    -- In an exchange in which the answer of a configured owner comes through, testing the
    -- access to a file from the network has the same result as at its owner, whose files
    -- are left in the same state by both, and the requester's own files are untouched.
    pub client_rsrc_access-remote :
        (user path : List ℕ) (fd : ℤ) (mode : ℕ) (w : World F G) (m : M)
        → Linked client owner (access_pkt user path fd mode) zero_packet w.net
        → Agree
            (client_rsrc_access client (network_rsrc user path fd) mode)
            (client_rsrc_access owner (local_rsrc user path) mode)
            w
            m
    unfolding client_rsrc_access request_for request_init packet_init received_packet
        received_request received_fields req_has_mode req_has_size req_has_to req_has_off
        req_has_data run_request dispatch handler_of handle_request_access
    client_rsrc_access-remote user path fd mode w m linked =
        let call = owner.os.access (home_path owner conf path) mode w.net in
        (
          status call.0,
          call.1,
          asked_outcome _ path call.0 call.1 w
              (law.access_in (home_path owner conf path) mode w.net) linked refl refl,
          on_localpath-home user path (λ localpath. owner.os.access localpath mode) _,
        )

    -- In an exchange in which the answer of a configured owner comes through, truncating a file from the network to a size below 2 ^ 31 has the same result and the same effect
    -- on the owner's files as at its owner, and the requester's own files are untouched.
    pub client_rsrc_truncate-remote :
        (user path : List ℕ) (fd : ℤ) (size : ℕ) (w : World F G) (m : M)
        → size < 2 ^ 31
        → Linked client owner (truncate_pkt user path fd size) zero_packet w.net
        → Agree
            (client_rsrc_truncate client (network_rsrc user path fd) size)
            (client_rsrc_truncate owner (local_rsrc user path) size)
            w
            m
    unfolding client_rsrc_truncate on_local request_for request_init packet_init received_packet
        received_request received_fields req_has_mode req_has_size req_has_to req_has_off
        req_has_data run_request dispatch handler_of handle_request_truncate
    client_rsrc_truncate-remote user path fd size w m small linked =
        let call = owner.os.truncate (home_path owner conf path) size w.net in
        (
          status call.0,
          call.1,
          asked_outcome _ path call.0 call.1 w
              (law.truncate_in (home_path owner conf path) size w.net) linked refl
              (rw (sign_extend_small size small) refl),
          on_localpath-home user path (λ localpath. owner.os.truncate localpath size) _,
        )

    -- In an exchange in which the answer of a configured owner comes through, renaming a file from the
    -- network to another path of the same owner has the same result and the same effect on the
    -- owner's files as between the two paths at the owner, and the requester's own files are untouched.
    pub client_rsrc_rename-remote :
        (user path to_path : List ℕ) (fd to_fd : ℤ) (w : World F G) (m : M)
        → Linked client owner (rename_pkt user path fd to_path to_fd) zero_packet w.net
        → Agree
            (client_rsrc_rename client
              (network_rsrc user path fd)
              (network_rsrc user to_path to_fd))
            (client_rsrc_rename owner (local_rsrc user path) (local_rsrc user to_path))
            w
            m
    unfolding client_rsrc_rename same_type request_for request_init packet_init received_packet
        received_request received_fields req_has_mode req_has_size req_has_to req_has_off
        req_has_data run_request dispatch handler_of handle_request_rename
    client_rsrc_rename-remote user path to_path fd to_fd w m linked =
        let from = home_path owner conf path in
        let to = home_path owner conf to_path in
        let call = owner.os.rename from to w.net in
        (
          status call.0,
          call.1,
          asked_outcome _ path call.0 call.1 w (law.rename_in from to w.net) linked refl
              (rw (localpath-home owner conf to_path) refl),
          rw (localpath-home owner conf to_path)
              (on_localpath-home user path (λ local_from. owner.os.rename local_from to) _),
        )
