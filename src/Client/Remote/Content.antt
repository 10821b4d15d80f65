-- ===== src/Client/Remote/Content.antt =====
-- Reading a file and its attributes from the network gives what the owner's system gives.
use middfs.Common.{
  ℕ, zero, suc, ◌^◌, ◌≤◌, ◌<◌, ◌≡◌, refl, sym, ap, ◌∙◌, arith, List, [], ◌∷◌, Option,
}
use middfs.Common.{some, true, false, length, take, take-all, ◌==◌, if◌then◌else◌}
use middfs.Common.{◌>>=◌, ℤ, pos}
use middfs.Util.{smin, poke, memcpy, peek_fits, poke_fits}
use middfs.Pkt.{Packet, Request, Response, zero_packet, zero_request, zero_response, packet_init}
use middfs.Conf.{conf_get}
use middfs.Pkt.Init.{request_init, conf_username}
use middfs.Pkt.Kinds.{
  mreq_read_type, req_has_mode, req_has_size, req_has_to, req_has_off, req_has_data,
}
use middfs.Serial.Format.{block_bytes}
use middfs.Serial.Decode.Received.{
  received_packet, received_request, received_fields, received_response, received_data,
}
use middfs.Conn.Reading.{arrives}
use middfs.Client.Exchange.Sending.{negated32-minus}
use middfs.Client.Os.{Sys, fails, done, Os, ClientEnv, World}
use middfs.Client.Os.Laws.{IsOs, Gives}
use middfs.Client.Rsrc.{request_for}
use middfs.Client.Rsrc.Paths.{Configured, home_path}
use middfs.Client.Rsrc.Access.{with_request}
use middfs.Client.Rsrc.Content.{client_rsrc_read, read_response, read_result}
use middfs.Client.Handler.{
  response_pkt, with_status, read_answer, run_request, dispatch, handler_of, on_opened,
  handle_request_read,
}
use middfs.Client.Remote.{Linked, network_rsrc}
use middfs.Client.Remote.Status.{sign_extend_small, xchg-response}

-- Opening for reading and writing, reading at an offset, and closing.
abbrev pub opened_read : {G : Type 0} → Os G → ℕ → ℕ → Sys ℕ × G → Sys (List ℕ) × G
opened_read os size offset (fails e, files) = (fails e, files)
opened_read os size offset (done fd, files) =
    let (result, files1) = os.pread (pos fd) size offset files in
    (result, (os.close (pos fd) files1).1)

-- The response that stands for the result of a call of `pread`.
abbrev data_response : Sys (List ℕ) → Response
data_response r = with_status (read_answer zero_response r tt).0 (read_answer zero_response r tt).1

-- The bytes of a block that has arrived are copied as if they had been stored; of an empty one the
-- old pointer is left.
memcpy-arrived :
    (old : Option (List ℕ)) (bytes buf : List ℕ)
    → length bytes ≤ length buf
    → memcpy buf
        (if length bytes == 0 then old else some (block_bytes (some bytes) (length bytes)))
        (length bytes)
      ≡ poke bytes buf
unfolding memcpy
memcpy-arrived old [] buf room = sym (poke_fits [] buf (omega arith))
memcpy-arrived old (b ∷ bytes) buf room =
    let block = take (length (b ∷ bytes)) (b ∷ bytes) in
    let same : block ≡ b ∷ bytes = take-all (length (b ∷ bytes)) (b ∷ bytes) (omega arith) in
    let more : (length (b ∷ bytes) == 0) ≡ false = ground arith in
    rw (more, same, peek_fits (b ∷ bytes) (length (b ∷ bytes)) (omega arith), same) refl

smin_right : (s1 s2 : ℕ) → s2 ≤ s1 → smin s1 s2 ≡ s2
smin_right s1 s2 h = ground arith

-- The response is turned into the same result and buffer as the call.
data_response-result :
    (t : Packet) (r : Sys (List ℕ)) (buf : List ℕ) (size : ℕ)
    → Gives (λ bytes. length bytes ≤ size) r
    → size ≤ length buf
    → read_response (received_packet t (response_pkt (data_response r))) buf size
      ≡ read_result r buf
unfolding read_response received_packet received_response received_data packet_init with_status
    read_answer read_result memcpy
data_response-result t (fails zero) buf size h room = absurd (omega arith)
data_response-result t (fails (suc n)) buf size h room =
    ap (λ e. some (e, buf)) (negated32-minus n h.1)
data_response-result t (done bytes) buf size h room =
    let old = t.mpkt_response.mrsp_data.mdata_buf in
    rw (smin_right size (length bytes) h, memcpy-arrived old bytes buf (omega arith)) refl

module _ {F G M : Type 0} (client : ClientEnv F G) (owner : ClientEnv G M)
    (conf : Configured owner) where
  -- The handler of a read leaves what stands for the result of the three calls.
  abbrev Leaves : Sys (List ℕ) × G → Option (ℤ × Response × G) → Type 0
  Leaves r outcome =
      (status : ℤ) × (rsp : Response) × (outcome ≡ some (status, rsp, r.1))
      × (with_status status rsp ≡ data_response r.0)

  read_answer-Leaves :
      (r : Sys (List ℕ)) (f : G) → Leaves (r, f) (some (read_answer zero_response r f))
  unfolding read_answer
  read_answer-Leaves (fails e) f = (_, _, refl, refl)
  read_answer-Leaves (done bytes) f = (_, _, refl, refl)

  handle_request_read-Leaves :
      (req : Request) (fd : ℤ) (f : G)
      → owner.grants req.mreq_size ≡ true
      → Leaves
          (owner.os.pread fd req.mreq_size req.mreq_off f)
          (handle_request_read owner fd req zero_response f)
  unfolding handle_request_read
  handle_request_read-Leaves req fd f room =
      let r = owner.os.pread fd req.mreq_size req.mreq_off f in rw room (read_answer-Leaves r.0 r.1)

  on_opened-Leaves :
      (req : Request) (r : Sys ℕ × G)
      → owner.grants req.mreq_size ≡ true
      → Gives (λ fd. Unit) r.0
      → Leaves
          (opened_read owner.os req.mreq_size req.mreq_off r)
          (on_opened owner (handle_request_read owner) req zero_response r)
  unfolding on_opened read_answer with_status
  on_opened-Leaves req (fails zero, files) room h = absurd (omega arith)
  on_opened-Leaves req (fails (suc n), files) room h = (_, _, refl, refl)
  on_opened-Leaves req (done fd, files) room h =
      let (status, rsp, returns, same) = handle_request_read-Leaves req (pos fd) files room in
      (status, rsp, rw returns refl, same)

  Leaves-Gives :
      (os_law : IsOs owner.os) (size offset : ℕ) (r : Sys ℕ × G)
      → Gives (λ fd. Unit) r.0
      → Gives (λ bytes. length bytes ≤ size) (opened_read owner.os size offset r).0
  Leaves-Gives os_law size offset (fails e, files) h = h
  Leaves-Gives os_law size offset (done fd, files) h = os_law.pread_in (pos fd) size offset files

  -- The request for a read, and what arrives of it.
  abbrev pub read_pkt : List ℕ → List ℕ → ℤ → ℕ → ℕ → Packet
  read_pkt user path fd size offset =
      with_request (request_for client mreq_read_type (network_rsrc user path fd))
        (λ req. record req { mreq_size = size; mreq_off = offset })

  abbrev read_request : List ℕ → List ℕ → ℕ → ℕ → Request
  read_request user path size offset = record zero_request {
    mreq_type = mreq_read_type;
    mreq_requester = conf_get client.memory conf_username client.environ;
    mreq_rsrc = record { mr_owner = some user; mr_path = some path };
    mreq_size = size;
    mreq_off = offset;
  }

  arrives-read :
      (user path : List ℕ) (fd : ℤ) (size offset : ℕ)
      → size < 2 ^ 31
      → offset < 2 ^ 31
      → (arrives (read_pkt user path fd size offset)).mpkt_request
        ≡ read_request user path size offset
  unfolding request_for request_init packet_init received_packet received_request received_fields
      req_has_mode req_has_size req_has_to req_has_off req_has_data
  arrives-read user path fd size offset small near =
      rw (sign_extend_small size small, sign_extend_small offset near) refl

  xchg-read :
      (law : IsOs owner.os) (user path : List ℕ) (fd : ℤ) (size offset : ℕ) (g : G)
      → size < 2 ^ 31
      → offset < 2 ^ 31
      → owner.grants size ≡ true
      → Linked client owner (read_pkt user path fd size offset) zero_packet g
      → (let r =
            opened_read owner.os size offset
              (owner.os.open_file (home_path owner conf path) 2 0 g) in
          (t : Packet) × (client.xchg (read_pkt user path fd size offset) zero_packet g
            ≡ some (pos 0, received_packet t (response_pkt (data_response r.0)), r.1)))
  unfolding run_request dispatch handler_of
  xchg-read law user path fd size offset g small near memory linked =
      let file = owner.os.open_file (home_path owner conf path) 2 0 g in
      let r = opened_read owner.os size offset file in
      let req = read_request user path size offset in
      let arrived = arrives-read user path fd size offset small near in
      let (status, rsp, returns, same) =
        on_opened-Leaves req file memory (law.open_in (home_path owner conf path) 2 0 g) in
      let run : run_request owner (home_path owner conf path) req zero_response g
          ≡ some (some (status, rsp, r.1)) =
        rw returns refl in
      let (t, got) =
        xchg-response client owner conf (read_pkt user path fd size offset) zero_packet path status
          rsp r.1 g linked (ap (λ q. q.mreq_rsrc.mr_path) arrived)
          (ap (λ q. run_request owner (home_path owner conf path) q zero_response g) arrived
            ∙ run) in
      (t, got ∙ ap (λ x. some (pos 0, received_packet t (response_pkt x), r.1)) same)

  -- In an exchange in which the answer of a configured owner comes through, a read from the network, with a size and an offset below 2 ^ 31, a buffer of that size at least
  -- and memory for it at the owner, has the result that the owner's system gives for opening the
  -- file, reading at the offset and closing it: the same error, or the same number of bytes, which
  -- are stored in the front of the buffer. The owner's files are as those calls leave them, and the
  -- requester's own files are untouched.
  pub client_rsrc_read-remote :
      (law : IsOs owner.os) (client_conf : Configured client) (user path : List ℕ) (fd : ℤ)
      (buf : List ℕ) (size offset : ℕ) (w : World F G)
      → size < 2 ^ 31
      → offset < 2 ^ 31
      → size ≤ length buf
      → owner.grants size ≡ true
      → Linked client owner (read_pkt user path fd size offset) zero_packet w.net
      → client_rsrc_read client (network_rsrc user path fd) buf size offset w ≡ (do
        let r =
            opened_read owner.os size offset
              (owner.os.open_file (home_path owner conf path) 2 0 w.net)
        (retv, buf1) ← read_result r.0 buf
        some (retv, buf1, record w { net = r.1 }))
  unfolding client_rsrc_read
  client_rsrc_read-remote law client_conf user path fd buf size offset w small near room memory
        linked =
      let file = owner.os.open_file (home_path owner conf path) 2 0 w.net in
      let r = opened_read owner.os size offset file in
      let known = law.open_in (home_path owner conf path) 2 0 w.net in
      let given = Leaves-Gives law size offset file known in
      let (t, got) = xchg-read law user path fd size offset w.net small near memory linked in
      rw (client_conf.user_is, got, data_response-result t r.0 buf size given room) refl
