-- ===== src/Client/Handler/Descriptors.antt =====
-- The descriptors that src/client/middfs-client-handler.c leaves open.
use middfs.Common.{ℕ, ◌≡◌, refl, sym, ◌∙◌, List, [], ◌∷◌, All, true, false, Option}
use middfs.Common.{none, some, ◌==◌, ◌>>=◌, >>=-eq-some, Bool-cases, inl, inr, ℤ, pos}
use mathlib.Core.Path.{subst}
use middfs.Pkt.{Request, Response, Packet, packet_init}
use middfs.Pkt.Kinds.{mreq_readdir_type, mpkt_response_type}
use middfs.Errno.{minus}
use middfs.Pkt.{response_init}
use middfs.Pkt.Kinds.{mrsp_ok_type}
use middfs.Conn.{HandlerE}
use middfs.Client.Os.{Sys, fails, done, StatBuf, Os, ClientEnv}
use middfs.Client.Rsrc.{middfs_localpath_tmp}
use middfs.Client.Handler.{
  Handled, answer_ok, read_answer, stat_answer, request_block, handler_of, path_handlers,
  fd_handlers, handle_request_read, handle_request_write, handle_request_getattr,
  handle_request_access, handle_request_open, handle_request_truncate, handle_request_rename,
  on_opened, dispatch, run_request, answered, handle_request,
}

-- How a call of `open` leaves the open descriptors, which were `fds`: if it succeeds, the one that it
-- returns is open, too.
abbrev pub Opens : {F : Type 0} → (F → List ℕ) → List ℕ → Sys ℕ × F → Type 0
Opens open_fds fds (fails e, f) = open_fds f ≡ fds
Opens open_fds fds (done fd, f) = open_fds f ≡ fd ∷ fds

-- The descriptors that are open in a state of the files, the newest first, and what the calls do to
-- them. Of `close` only its effect on the newest is used: that one is no longer open. No other call
-- opens or closes any.
pub record Tracks {F : Type 0} (os : Os F) : Type 0 where
  pub open_fds : F → List ℕ
  pub open_adds :
      (path : List ℕ) (flags mode : ℕ) (f : F)
      → Opens open_fds (open_fds f) (os.open_file path flags mode f)
  pub close_removes :
      (fd : ℕ) (fds : List ℕ) (f : F)
      → open_fds f ≡ fd ∷ fds
      → open_fds (os.close (pos fd) f).1 ≡ fds
  pub stat_same : (path : List ℕ) (f : F) → open_fds (os.stat path f).1 ≡ open_fds f
  pub access_same :
      (path : List ℕ) (mode : ℕ) (f : F) → open_fds (os.access path mode f).1 ≡ open_fds f
  pub truncate_same :
      (path : List ℕ) (size : ℕ) (f : F) → open_fds (os.truncate path size f).1 ≡ open_fds f
  pub rename_same : (from to : List ℕ) (f : F) → open_fds (os.rename from to f).1 ≡ open_fds f
  pub pread_same :
      (fd : ℤ) (size off : ℕ) (f : F) → open_fds (os.pread fd size off f).1 ≡ open_fds f
  pub pwrite_same :
      (fd : ℤ) (bytes : List ℕ) (off : ℕ) (f : F)
      → open_fds (os.pwrite fd bytes off f).1 ≡ open_fds f

module _ {F N : Type 0} (env : ClientEnv F N) (law : Tracks env.os) where
  -- Whatever a handler returns, the descriptors `n` are open then.
  abbrev Leaves : List ℕ → Handled F → Type 0
  Leaves n none = Unit
  Leaves n (some (status, rsp, f)) = law.open_fds f ≡ n

  answer_ok-Leaves :
      {A : Type 0} (n : List ℕ) (rsp : Response) (r : Sys A) (f : F)
      → law.open_fds f ≡ n
      → Leaves n (some (answer_ok rsp r f))
  answer_ok-Leaves n rsp (fails e) f h = h
  answer_ok-Leaves n rsp (done a) f h = h

  read_answer-Leaves :
      (n : List ℕ) (rsp : Response) (r : Sys (List ℕ)) (f : F)
      → law.open_fds f ≡ n
      → Leaves n (some (read_answer rsp r f))
  unfolding read_answer
  read_answer-Leaves n rsp (fails e) f h = h
  read_answer-Leaves n rsp (done bytes) f h = h

  stat_answer-Leaves :
      (n : List ℕ) (rsp : Response) (r : Sys StatBuf) (f : F)
      → law.open_fds f ≡ n
      → Leaves n (some (stat_answer rsp r f))
  unfolding stat_answer
  stat_answer-Leaves n rsp (fails e) f h = h
  stat_answer-Leaves n rsp (done st) f h = h

  handle_request_read-Leaves :
      (fd : ℤ) (req : Request) (rsp : Response) (f : F)
      → Leaves (law.open_fds f) (handle_request_read env fd req rsp f)
  unfolding handle_request_read
  handle_request_read-Leaves fd req rsp f =
      let r = env.os.pread fd req.mreq_size req.mreq_off f in
      elim (Bool-cases (env.grants req.mreq_size)) [
        | inl e ↦ rw e (
            read_answer-Leaves (law.open_fds f) rsp r.0 r.1
              (law.pread_same fd req.mreq_size req.mreq_off f))
        | inr e ↦ rw e refl
      ]

  handle_request_write-Leaves :
      (fd : ℤ) (req : Request) (rsp : Response) (f : F)
      → Leaves (law.open_fds f) (handle_request_write env fd req rsp f)
  unfolding handle_request_write
  handle_request_write-Leaves fd req rsp f = from (request_block req)
    where
      from :
          (o : Option (List ℕ))
          → Leaves (law.open_fds f) (
              o >>= (λ block. some (
                answer_ok rsp
                  (env.os.pwrite fd block req.mreq_off f).0
                  (env.os.pwrite fd block req.mreq_off f).1)))
      from none = tt
      from (some block) =
          answer_ok-Leaves (law.open_fds f) rsp (env.os.pwrite fd block req.mreq_off f).0 _
            (law.pwrite_same fd block req.mreq_off f)

  handle_request_rename-Leaves :
      (path : List ℕ) (req : Request) (rsp : Response) (f : F)
      → Leaves (law.open_fds f) (handle_request_rename env path req rsp f)
  unfolding handle_request_rename
  handle_request_rename-Leaves path req rsp f = from (middfs_localpath_tmp env req.mreq_to.mr_path)
    where
      from :
          (o : Option (List ℕ))
          → Leaves (law.open_fds f) (
              o >>= (λ to.
                some (answer_ok rsp (env.os.rename path to f).0 (env.os.rename path to f).1)))
      from none = tt
      from (some to) =
          answer_ok-Leaves (law.open_fds f) rsp (env.os.rename path to f).0 _
            (law.rename_same path to f)

  -- One that was opened is closed.
  closed_again :
      (n : List ℕ) (fd : ℕ) (f : F)
      → law.open_fds f ≡ fd ∷ n
      → law.open_fds (env.os.close (pos fd) f).1 ≡ n
  closed_again n fd f h = law.close_removes fd n f h

  handle_request_open-Leaves :
      (path : List ℕ) (req : Request) (rsp : Response) (f : F)
      → Leaves (law.open_fds f) (handle_request_open env path req rsp f)
  unfolding handle_request_open
  handle_request_open-Leaves path req rsp f =
      from (env.os.open_file path req.mreq_mode 438 f) (law.open_adds path req.mreq_mode 438 f)
    where
      from :
          (r : Sys ℕ × F)
          → Opens law.open_fds (law.open_fds f) r
          → Leaves (law.open_fds f) (elim r.0 [
            | fails e ↦ some (minus e, rsp, r.1)
            | done fd ↦ some (pos 0, response_init mrsp_ok_type rsp, (env.os.close (pos fd) r.1).1)
          ])
      from (fails e, f1) h = h
      from (done fd, f1) h = closed_again (law.open_fds f) fd f1 h

  on_opened-Leaves :
      (handler : ℤ → Request → Response → F → Handled F) (req : Request) (rsp : Response)
      (n : List ℕ) (r : Sys ℕ × F)
      → Opens law.open_fds n r
      → ((fd : ℤ) (f : F) → Leaves (law.open_fds f) (handler fd req rsp f))
      → Leaves n (on_opened env handler req rsp r)
  unfolding on_opened
  on_opened-Leaves handler req rsp n (fails e, f) h given = h
  on_opened-Leaves handler req rsp n (done fd, f) h given =
      from (handler (pos fd) req rsp f) (given (pos fd) f)
    where
      from :
          (o : Handled F)
          → Leaves (law.open_fds f) o
          → Leaves n (o >>= (λ x. some (x.0, x.1, (env.os.close (pos fd) x.2).1)))
      from none k = tt
      from (some (status, rsp1, f1)) k = closed_again n fd f1 (k ∙ h)

  -- Every handler in a table leaves them, if its type is not the one that is left out.
  abbrev Covers : {A : Type 0} → List ℕ → (A → Handled F) → Option A → Type 0
  Covers n run none = Unit
  Covers n run (some handler) = Leaves n (run handler)

  handler_of-Covers :
      {A : Type 0} (n : List ℕ) (run : A → Handled F) (type : ℕ) (table : List (ℕ × A))
      → All (λ entry. (type == entry.0) ≡ true → Leaves n (run entry.1)) table
      → Covers n run (handler_of type table)
  unfolding handler_of
  handler_of-Covers n run type [] h = tt
  handler_of-Covers n run type ((t, handler) ∷ table) (given, h) = elim (Bool-cases (type == t)) [
    | inl e ↦ rw e (given e)
    | inr e ↦ rw e (handler_of-Covers n run type table h)
  ]

  path_handlers-Covers :
      (path : List ℕ) (req : Request) (rsp : Response) (f : F)
      → (req.mreq_type == mreq_readdir_type) ≡ false
      → Covers
          (law.open_fds f)
          (λ handler. handler path req rsp f)
          (handler_of req.mreq_type (path_handlers env))
  unfolding handle_request_getattr handle_request_access handle_request_truncate
  path_handlers-Covers path req rsp f other =
      let sized = env.os.truncate path req.mreq_size f in
      let tested = env.os.access path req.mreq_mode f in
      let found = env.os.stat path f in
      let n = law.open_fds f in
      handler_of-Covers n (λ handler. handler path req rsp f) req.mreq_type (path_handlers env)
        (
          (λ e. stat_answer-Leaves n rsp found.0 found.1 (law.stat_same path f)),
          (
            (λ e. absurd (both (sym e ∙ other))),
            (
              (λ e. answer_ok-Leaves n rsp tested.0 _ (law.access_same path req.mreq_mode f)),
              (
                (λ e. handle_request_open-Leaves path req rsp f),
                (
                  (λ e. answer_ok-Leaves n rsp sized.0 _ (law.truncate_same path req.mreq_size f)),
                  ((λ e. handle_request_rename-Leaves path req rsp f), tt),
                ),
              ),
            ),
          ),
        )
    where
      both : true ≡ false → ⊥
      both h = cc

  fd_handlers-Covers :
      (path : List ℕ) (req : Request) (rsp : Response) (f : F)
      → Covers
          (law.open_fds f)
          (λ handler. on_opened env handler req rsp (env.os.open_file path 2 0 f))
          (handler_of req.mreq_type (fd_handlers env))
  fd_handlers-Covers path req rsp f =
      let known = law.open_adds path 2 0 f in
      let n = law.open_fds f in
      let file = env.os.open_file path 2 0 f in
      handler_of-Covers n (λ handler. on_opened env handler req rsp file) req.mreq_type
        (fd_handlers env)
        (
          (λ e.
              on_opened-Leaves (handle_request_read env) req rsp n file known
                (λ fd f1. handle_request_read-Leaves fd req rsp f1)),
          (
            (λ e.
                on_opened-Leaves (handle_request_write env) req rsp n file known
                  (λ fd f1. handle_request_write-Leaves fd req rsp f1)),
            tt,
          ),
        )

  -- The files after a request: those of the handler, or those before it.
  abbrev Ends : List ℕ → Option (HandlerE × Packet × F) → Type 0
  Ends n none = Unit
  Ends n (some (h, pkt, f)) = law.open_fds f ≡ n

  answered-Ends :
      (n : List ℕ) (out_pkt : Packet) (f : F) (o : Handled F)
      → Leaves n o
      → Ends n (o >>= (λ r. some (some r)) >>= (λ r. some (answered env out_pkt f r)))
  unfolding answered
  answered-Ends n out_pkt f none h = tt
  answered-Ends n out_pkt f (some (status, rsp, f1)) h = h

  dispatch-Ends :
      (path : List ℕ) (req : Request) (rsp : Response) (out_pkt : Packet) (f : F)
      (path_f : Option (List ℕ → Request → Response → F → Handled F))
      (fd_f : Option (ℤ → Request → Response → F → Handled F))
      → Covers (law.open_fds f) (λ handler. handler path req rsp f) path_f
      → Covers
          (law.open_fds f)
          (λ handler. on_opened env handler req rsp (env.os.open_file path 2 0 f))
          fd_f
      → Ends
          (law.open_fds f)
          (dispatch env path req rsp f path_f fd_f >>= (λ r. some (answered env out_pkt f r)))
  unfolding dispatch answered
  dispatch-Ends path req rsp out_pkt f (some path_f) fd_f h k =
      answered-Ends (law.open_fds f) out_pkt f (path_f path req rsp f) h
  dispatch-Ends path req rsp out_pkt f none (some fd_f) h k =
      answered-Ends (law.open_fds f) out_pkt f
        (on_opened env fd_f req rsp (env.os.open_file path 2 0 f)) k
  dispatch-Ends path req rsp out_pkt f none none h k = refl

  -- Whenever the handling of a request returns, with whatever status and for whatever reason, the very
  -- descriptors are open that were before, unless the request is to read a directory. Of the
  -- system it is used that `open` adds the descriptor that it returns, that `close` removes the
  -- newest one when it is given that one, and that the other calls leave them alone.
  pub handle_request-Ends :
      (in_pkt out_pkt pkt : Packet) (f f1 : F) (h : HandlerE)
      → (in_pkt.mpkt_request.mreq_type == mreq_readdir_type) ≡ false
      → handle_request env in_pkt out_pkt f ≡ some (h, pkt, f1)
      → law.open_fds f1 ≡ law.open_fds f
  unfolding handle_request run_request
  handle_request-Ends in_pkt out_pkt pkt f f1 h other e =
      let req = in_pkt.mpkt_request in
      let fresh = packet_init mpkt_response_type out_pkt in
      let (path, found, go) = >>=-eq-some (middfs_localpath_tmp env req.mreq_rsrc.mr_path) _ e in
      subst (Ends (law.open_fds f)) go (
        dispatch-Ends path req fresh.mpkt_response fresh f _ _
          (path_handlers-Covers path req fresh.mpkt_response f other)
          (fd_handlers-Covers path req fresh.mpkt_response f))
