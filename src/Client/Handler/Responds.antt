-- ===== src/Client/Handler/Responds.antt =====
-- The dispatch of src/client/middfs-client-handler.c, and what becomes of the connection.
use middfs.Common.{◌∙◌, ◌+◌, ◌<◌, ◌≡◌, refl, sym, ap, arith, ◌++◌, true, false}
use middfs.Common.{List, [], ◌∷◌, All, ℕ, Option, none, some, ◌⊎◌, inl, inr, length, ◌==◌}
use middfs.Common.{Bool-cases, ℤ, pos, is_neg, minus_one, size_mod}
use mathlib.Core.Path.{subst}
use middfs.Pkt.{Request, Response, Packet, zero_response, zero_packet, packet_init}
use middfs.Pkt.Kinds.{
  mpkt_request_type, mpkt_response_type, req_has_to, req_has_data, mreq_rename_type,
  mreq_readdir_type,
}
use middfs.Serial.Format.{packet_bytes}
use middfs.Serial.Valid.{IsPacket, IsRequest, IsResponse}
use middfs.Serial.Encode.Packets.{serialize_pkt-Writes}
use middfs.Buf.{IsRealloc}
use middfs.Buf.Contents.{NoMemory, Holds}
use middfs.Buf.Serialize.{buffer_serialize-Appends}
use middfs.Sock.{Sockinfo, mss_reqrd, mss_rspwr}
use middfs.Server.Handler.States.{Step, reply, Ends, IsConn}
use middfs.Conn.{HandlerE, hs_suc, hs_del, with_out_buf}
use middfs.Client.Os.{Sys, fails, done, ClientEnv}
use middfs.Client.Os.Laws.{Errs, IsOs, Steady, Changed}
use middfs.Client.Rsrc.{middfs_localpath_tmp}
use middfs.Client.Rsrc.Paths.{Configured, localpath-text}
use middfs.Client.Handler.{
  response_pkt, Handled, handle_request_rename, handler_of, path_handlers, fd_handlers, on_opened,
  dispatch, run_request, with_status, answered, handle_request, handle_request_getattr,
  handle_request_readdir, handle_request_access, handle_request_truncate, serialize_response,
  send_response, handle_pkt_rd_fin, is_reqrd,
}
use middfs.Client.Handler.Answers.{
  Answers, answer_ok-Answers, failed-IsResponse, stat_answer-Answers, dir_opened-Answers,
  handle_request_read-Answers, handle_request_write-Answers, handle_request_open-Answers,
}

module _ {F N : Type 0} (env : ClientEnv F N) (law : IsOs env.os) (conf : Configured env) where
  handle_request_rename-Answers :
      (path : List ℕ) (req : Request) (files : F)
      → IsRequest req
      → (req.mreq_type == mreq_rename_type) ≡ true
      → Answers env (handle_request_rename env path req zero_response files)
  unfolding handle_request_rename req_has_to
  handle_request_rename-Answers path req files v e =
      let named = v.to_in (ground arith) in
      let (to, found) = localpath-text env conf req.mreq_to.mr_path named.1 in
      let answer = env.os.rename path to files in
      rw found (answer_ok-Answers env answer.0 answer.1 (law.rename_in path to files))

  on_opened-Answers :
      (handler : ℤ → Request → Response → F → Handled F) (req : Request) (r : Sys ℕ × F)
      → Errs r.0
      → ((fd : ℤ) (files : F) → Answers env (handler fd req zero_response files))
      → Answers env (on_opened env handler req zero_response r)
  unfolding on_opened
  on_opened-Answers handler req (fails e, files) h given =
      (_, _, _, refl, failed-IsResponse env e _ h)
  on_opened-Answers handler req (done fd, files) h given =
      let (status, rsp, files1, returns, valid) = given (pos fd) files in
      (status, rsp, (env.os.close (pos fd) files1).1, rw returns refl, valid)

  -- Every handler in a table answers.
  abbrev Covers : {A : Type 0} → (A → Handled F) → Option A → Type 0
  Covers run none = Unit
  Covers run (some handler) = Answers env (run handler)

  handler_of-Covers :
      {A : Type 0} (run : A → Handled F) (type : ℕ) (table : List (ℕ × A))
      → All (λ entry. (type == entry.0) ≡ true → Answers env (run entry.1)) table
      → Covers run (handler_of type table)
  unfolding handler_of
  handler_of-Covers run type [] h = tt
  handler_of-Covers run type ((t, handler) ∷ table) (given, h) = elim (Bool-cases (type == t)) [
    | inl e ↦ rw e (given e)
    | inr e ↦ rw e (handler_of-Covers run type table h)
  ]

  path_handlers-Covers :
      (path : List ℕ) (req : Request) (files : F)
      → IsRequest req
      → ((req.mreq_type == mreq_readdir_type) ≡ true → Steady env.os (env.os.opendir path files))
      → Covers
          (λ handler. handler path req zero_response files)
          (handler_of req.mreq_type (path_handlers env))
  unfolding handle_request_getattr handle_request_readdir handle_request_access
      handle_request_truncate
  path_handlers-Covers path req files v steady =
      let sized = env.os.truncate path req.mreq_size files in
      let tested = env.os.access path req.mreq_mode files in
      let found = env.os.stat path files in
      let stream = env.os.opendir path files in
      handler_of-Covers (λ handler. handler path req zero_response files) req.mreq_type
        (path_handlers env)
        (
          (λ e. stat_answer-Answers env found.0 found.1 (law.stat_in path files)),
          (
            (λ e.
                dir_opened-Answers env law stream.0 stream.1 (law.opendir_in path files)
                  (steady e)),
            (
              (λ e.
                  answer_ok-Answers env tested.0 tested.1 (law.access_in path req.mreq_mode files)),
              (
                (λ e. handle_request_open-Answers env law path req files),
                (
                  (λ e.
                      answer_ok-Answers env sized.0 sized.1
                        (law.truncate_in path req.mreq_size files)),
                  ((λ e. handle_request_rename-Answers path req files v e), tt),
                ),
              ),
            ),
          ),
        )

  fd_handlers-Covers :
      (path : List ℕ) (req : Request) (files : F)
      → IsRequest req
      → Covers
          (λ handler. on_opened env handler req zero_response (env.os.open_file path 2 0 files))
          (handler_of req.mreq_type (fd_handlers env))
  unfolding req_has_data
  fd_handlers-Covers path req files v =
      let known = law.open_in path 2 0 files in
      handler_of-Covers
        (λ handler. on_opened env handler req zero_response (env.os.open_file path 2 0 files))
        req.mreq_type (fd_handlers env)
        (
          (λ e.
              on_opened-Answers _ req _ known
                (λ fd files1. handle_request_read-Answers env law fd req files1 v)),
          (
            (λ e. on_opened-Answers _ req _ known (λ fd files1.
                handle_request_write-Answers env law fd req files1 (v.data_in (ground arith)))),
            tt,
          ),
        )

  -- A request is answered by a valid response, or there is no handler for its type.
  abbrev pub Outcome :
      Option (List ℕ → Request → Response → F → Handled F)
      → Option (ℤ → Request → Response → F → Handled F)
      → Option (Option (ℤ × Response × F))
      → Type 0
  Outcome path_f fd_f r =
      ((status : ℤ) × (rsp : Response) × (files : F) × (r ≡ some (some (status, rsp, files)))
        × IsResponse (with_status status rsp))
      ⊎ ((r ≡ some none) × (path_f ≡ none) × (fd_f ≡ none))

  dispatch-Outcome :
      (path : List ℕ) (req : Request) (files : F)
      (path_f : Option (List ℕ → Request → Response → F → Handled F))
      (fd_f : Option (ℤ → Request → Response → F → Handled F))
      → Covers (λ handler. handler path req zero_response files) path_f
      → Covers
          (λ handler. on_opened env handler req zero_response (env.os.open_file path 2 0 files))
          fd_f
      → Outcome path_f fd_f (dispatch env path req zero_response files path_f fd_f)
  unfolding dispatch
  dispatch-Outcome path req files (some path_f) fd_f (status, rsp, files1, returns, valid) h =
      inl (status, rsp, files1, rw returns refl, valid)
  dispatch-Outcome path req files none (some fd_f) t (status, rsp, files1, returns, valid) =
      inl (status, rsp, files1, rw returns refl, valid)
  dispatch-Outcome path req files none none t u = inr (refl, refl, refl)

  pub run_request-Outcome :
      (path : List ℕ) (req : Request) (files : F)
      → IsRequest req
      → ((req.mreq_type == mreq_readdir_type) ≡ true → Steady env.os (env.os.opendir path files))
      → Outcome
          (handler_of req.mreq_type (path_handlers env))
          (handler_of req.mreq_type (fd_handlers env))
          (run_request env path req zero_response files)
  unfolding run_request
  run_request-Outcome path req files v steady =
      dispatch-Outcome path req files _ _ (path_handlers-Covers path req files v steady)
        (fd_handlers-Covers path req files v)

  response_pkt-IsPacket : (rsp : Response) → IsResponse rsp → IsPacket (response_pkt rsp)
  unfolding packet_init
  response_pkt-IsPacket rsp v = record {
    magic_in = omega arith;
    type_in = omega arith;
    request_in = λ e. absurd (omega arith);
    response_in = λ e. v;
    connect_in = λ e. absurd (omega arith);
  }

  Steady-cases : (r : Sys ℕ × F) → Steady env.os r ⊎ Changed env.os r
  Steady-cases (fails e, files) = inl tt
  Steady-cases (done dir, files) =
      let again = env.os.rewinddir dir (env.os.read_entries dir files).1 in
      let first = length (env.os.read_entries dir files).0 in
      elim (Bool-cases (length (env.os.read_entries dir again).0 == first)) [
        | inl e ↦ inl (ground arith)
        | inr e ↦ inr (λ same. ground arith)
      ]

  -- The request is for a listing of a directory that had another number of entries when it was read
  -- the second time.
  abbrev pub DirChanged : Request → F → Type 0
  DirChanged req files =
      ((req.mreq_type == mreq_readdir_type) ≡ true)
      × ((path : List ℕ) × (middfs_localpath_tmp env req.mreq_rsrc.mr_path ≡ some path)
          × Changed env.os (env.os.opendir path files))

  Steady-or_changed :
      (path : List ℕ) (req : Request) (files : F)
      → middfs_localpath_tmp env req.mreq_rsrc.mr_path ≡ some path
      → ((req.mreq_type == mreq_readdir_type) ≡ true → Steady env.os (env.os.opendir path files))
        ⊎ DirChanged req files
  Steady-or_changed path req files found = elim (Bool-cases (req.mreq_type == mreq_readdir_type)) [
    | inr other ↦ inl (λ e. absurd (both (sym e ∙ other)))
    | inl e ↦ elim (Steady-cases (env.os.opendir path files)) [
      | inl steady ↦ inl (λ e1. steady)
      | inr changed ↦ inr (e, (path, found, changed))
    ]
  ]
    where
      both : true ≡ false → ⊥
      both h = cc

  -- In a configured client whose system keeps to its documentation, one of three things holds of a
  -- valid request. It is answered by a packet that is valid for sending, with the magic number and the
  -- type of a response, whatever the call on the file system returned. Or its type has neither
  -- kind of handler, the result is HS_DEL, and the files are untouched. Or it asks for the listing
  -- of a directory whose number of entries changed between the two passes of the handler; of that
  -- nothing is said. So no other request stops the handler.
  pub handle_request-Answers :
      (in_pkt : Packet) (files : F)
      → IsRequest in_pkt.mpkt_request
      → (((rsp : Response) × (files1 : F) × (handle_request env in_pkt zero_packet files
              ≡ some (hs_suc, response_pkt rsp, files1))
            × IsPacket (response_pkt rsp))
          ⊎ ((out_pkt : Packet) × (handle_request env in_pkt zero_packet files
                ≡ some (hs_del, out_pkt, files))
              × (handler_of in_pkt.mpkt_request.mreq_type (path_handlers env) ≡ none)
              × (handler_of in_pkt.mpkt_request.mreq_type (fd_handlers env) ≡ none)))
        ⊎ DirChanged in_pkt.mpkt_request files
  unfolding handle_request answered packet_init
  handle_request-Answers in_pkt files v =
      let req = in_pkt.mpkt_request in
      let (path, found) = localpath-text env conf req.mreq_rsrc.mr_path v.rsrc_in.1 in
      elim (Steady-or_changed path req files found) [
        | inr changed ↦ inr changed
        | inl steady ↦ elim (run_request-Outcome path req files v steady) [
          | inl (status, rsp, files1, returns, valid) ↦ inl (
              inl (
                with_status status rsp,
                files1,
                rw (found, returns) refl,
                response_pkt-IsPacket (with_status status rsp) valid,
              ))
          | inr (returns, no_path, no_fd) ↦ inl (
              inr (
                packet_init mpkt_response_type zero_packet,
                rw (found, returns) refl,
                no_path,
                no_fd,
              ))
        ]
      ]

-- When a request that arrives on a connection in the state MSS_REQRD is answered by a valid packet,
-- and the fuel exceeds the length of the packet's wire form, the handler does not stop. If memory
-- ran out it deletes the connection, with the bytes to be sent unchanged; otherwise the connection
-- moves by the step of the protocol that replies, the socket that the request came from is the open one of the out end, the in end has
-- none any more, and exactly the wire form of the answer is appended to what it is to send.
pub handle_pkt_rd_fin-Appends :
    {F N : Type 0} (env : ClientEnv F N) (files files1 : F) (info : Sockinfo)
    (in_pkt out_pkt : Packet) (c : List ℕ)
    → info.state ≡ mss_reqrd
    → IsConn info
    → in_pkt.mpkt_type ≡ mpkt_request_type
    → handle_request env in_pkt zero_packet files ≡ some (hs_suc, out_pkt, files1)
    → IsPacket out_pkt
    → IsRealloc env.realloc
    → length (packet_bytes out_pkt) < env.fuel
    → length c + length (packet_bytes out_pkt) < size_mod
    → Holds info.out_end.buf c
    → (status : HandlerE) × (after : Sockinfo) × (handle_pkt_rd_fin env files info in_pkt
        ≡ some (status, after, files1))
      × (((status ≡ hs_del) × Holds after.out_end.buf c × NoMemory env.realloc)
          ⊎ ((status ≡ hs_suc)
              × Step info.state after.state
              × IsConn after
              × (after.out_end.fd ≡ info.in_end.fd)
              × (after.in_end.fd ≡ minus_one)
              × Holds after.out_end.buf (c ++ packet_bytes out_pkt)))
unfolding handle_pkt_rd_fin send_response serialize_response
handle_pkt_rd_fin-Appends env files files1 info in_pkt out_pkt c e h typed answer v law fuel fits
      holds =
    let waits : is_reqrd info.state ≡ true = ap (is_reqrd) e in
    let a_request : (in_pkt.mpkt_type == mpkt_request_type) ≡ true = ground arith in
    let step : Step info.state mss_rspwr = subst (λ s. Step s mss_rspwr) (sym e) reply in
    let is_open : is_neg info.in_end.fd ≡ false =
      subst (λ s. Ends s info.in_end.fd info.out_end.fd) e h in
    let (buf, cases) =
      buffer_serialize-Appends env.realloc law (serialize_pkt-Writes out_pkt v (omega arith))
        env.fuel info.out_end.buf c holds fuel fits in
    let failed = with_out_buf info buf in
    let turned = record failed {
      state = mss_rspwr;
      out_end = record (failed.out_end) { fd = info.in_end.fd };
      in_end = record (info.in_end) { fd = minus_one };
    } in
    elim cases [
      | inl (returns, kept, full) ↦
          (hs_del, failed, rw (waits, a_request, answer, returns) refl, inl (refl, kept, full))
      | inr (returns, kept) ↦ (
        hs_suc,
        turned,
        rw (waits, a_request, answer, returns) refl,
        inr (refl, step, is_open, refl, refl, kept),
      )
    ]
