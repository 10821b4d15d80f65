-- ===== src/Client/Remote/Attributes.antt =====
-- The attributes of a file on the network: client_rsrc_lstat of src/client/middfs-client-rsrc.c
-- against handle_request_getattr of src/client/middfs-client-handler.c.
use middfs.Common.{ℕ, zero, suc, ◌≡◌, refl, ap, ◌∙◌, arith, List, some, ℤ, pos}
use middfs.Errno.{minus}
use middfs.Pkt.{Packet, Response, zero_response, packet_init}
use middfs.Pkt.Init.{request_init}
use middfs.Pkt.Kinds.{
  mreq_getattr_type, req_has_mode, req_has_size, req_has_to, req_has_off, req_has_data,
}
use middfs.Serial.Decode.Received.{
  received_packet, received_request, received_fields, received_response,
}
use middfs.Client.Exchange.{response_validate}
use middfs.Client.Exchange.Sending.{negated32-minus}
use middfs.Client.Os.{Sys, fails, done, StatBuf, zero_stat_buf, ClientEnv, World}
use middfs.Client.Os.Laws.{IsOs, IsStatBuf, Gives}
use middfs.Client.Rsrc.{request_for}
use middfs.Client.Rsrc.Paths.{Configured, home_path}
use middfs.Client.Rsrc.Access.{client_rsrc_lstat}
use middfs.Client.Handler.{
  response_pkt, with_status, stat_answer, run_request, dispatch, handler_of, handle_request_getattr,
}
use middfs.Client.Remote.{Linked, network_rsrc}
use middfs.Client.Remote.Status.{xchg-response}

abbrev stat_response : Sys StatBuf → Response
stat_response r = with_status (stat_answer zero_response r tt).0 (stat_answer zero_response r tt).1

module _ {F G M : Type 0} (client : ClientEnv F G) (owner : ClientEnv G M)
    (conf : Configured owner) where
  -- What the requester makes of the attributes at the owner: four of them are the file's, its owner
  -- is the user of the requester's process, it has one link, and there is no inode number.
  abbrev pub remote_stat : Sys StatBuf → ℤ × StatBuf
  remote_stat (fails e) = (minus e, zero_stat_buf)
  remote_stat (done st) = (
    pos 0,
    record {
      st_mode = st.st_mode;
      st_size = st.st_size;
      st_blocks = st.st_blocks;
      st_blksize = st.st_blksize;
      st_uid = client.uid;
      st_gid = client.gid;
      st_nlink = 1;
      st_ino = 0;
    },
  )

  lstat-from :
      (user path : List ℕ) (fd : ℤ) (t : Packet) (r : Sys StatBuf) (files : G) (w : World F G)
      → Gives IsStatBuf r
      → client.xchg
          (request_for client mreq_getattr_type (network_rsrc user path fd))
          client.old_pkt
          w.net
        ≡ some (pos 0, received_packet t (response_pkt (stat_response r)), files)
      → client_rsrc_lstat client (network_rsrc user path fd) w
        ≡ some ((remote_stat r).0, (remote_stat r).1, record w { net = files })
  unfolding client_rsrc_lstat response_validate received_packet received_response packet_init
      with_status stat_answer
  lstat-from user path fd t (fails zero) files w h e = absurd (omega arith)
  lstat-from user path fd t (fails (suc n)) files w h e = rw (e, negated32-minus n h.1) refl
  lstat-from user path fd t (done st) files w h e = rw e refl

  stat_status :
      (r : Sys StatBuf) (files : G)
      → with_status (stat_answer zero_response r files).0 (stat_answer zero_response r files).1
        ≡ stat_response r
  unfolding stat_answer
  stat_status (fails e) files = refl
  stat_status (done st) files = refl

  stat_files : (r : Sys StatBuf) (files : G) → (stat_answer zero_response r files).2 ≡ files
  unfolding stat_answer
  stat_files (fails e) files = refl
  stat_files (done st) files = refl

  -- In an exchange in which the answer of a configured owner comes through, the attributes of a file
  -- on the network are those that `stat` finds at the owner, as far as they travel: its mode, size,
  -- blocks and block size. An error is returned as it is, with attributes of
  -- zeros. The files of both are as they were but for what `stat` does at the owner.
  pub client_rsrc_lstat-remote :
      (law : IsOs owner.os) (user path : List ℕ) (fd : ℤ) (w : World F G)
      → Linked client owner
          (request_for client mreq_getattr_type (network_rsrc user path fd))
          client.old_pkt
          w.net
      → (let r = owner.os.stat (home_path owner conf path) w.net in
          client_rsrc_lstat client (network_rsrc user path fd) w
          ≡ some ((remote_stat r.0).0, (remote_stat r.0).1, record w { net = r.1 }))
  unfolding request_for request_init packet_init received_packet received_request received_fields
      req_has_mode req_has_size req_has_to req_has_off req_has_data run_request dispatch handler_of
      handle_request_getattr
  client_rsrc_lstat-remote law user path fd w linked =
      let r = owner.os.stat (home_path owner conf path) w.net in
      let answer = stat_answer zero_response r.0 r.1 in
      let (t, got) =
        xchg-response client owner conf
          (request_for client mreq_getattr_type (network_rsrc user path fd)) client.old_pkt path
          answer.0 answer.1 r.1 w.net linked refl
          (ap (λ f. some (some (answer.0, answer.1, f))) (stat_files r.0 r.1)) in
      lstat-from user path fd t r.0 r.1 w (law.stat_in (home_path owner conf path) w.net) (
        got ∙ ap (λ x. some (pos 0, received_packet t (response_pkt x), r.1)) (stat_status r.0 r.1))
