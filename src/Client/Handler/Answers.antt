-- ===== src/Client/Handler/Answers.antt =====
-- The responses of src/client/middfs-client-handler.c: every request that is answered gets a valid
-- response packet.
use middfs.Common.{ℕ, zero, suc, ◌+◌, ◌*◌, ◌&&◌, ◌≤◌, ◌≡◌, refl, sym, ap, arith, List, []}
use middfs.Common.{◌∷◌, Bool, true, false, Option, none, some, inl, inr, length, take, All, ◌==◌}
use middfs.Common.{Bool-cases, Option-cases, ℤ, pos, IsU64}
use mathlib.Core.Path.{subst}
use middfs.Errno.{minus, enomem}
use middfs.Util.{peek_fits}
use middfs.Pkt.{Dirent, Request, Response, zero_response, response_init}
use middfs.Pkt.Kinds.{mrsp_dir_type, mrsp_ok_type}
use middfs.Serial.Valid.{IsDirent, IsRequest, IsResponse, HasBytes}
use middfs.Client.Os.{Sys, fails, done, OsDirent, StatBuf, ClientEnv}
use middfs.Client.Os.Laws.{IsErrno, Gives, Errs, IsStatBuf, IsOsDirent, IsOs, Steady}
use middfs.Client.Rsrc.Content.{dirent_mode}
use middfs.Client.Handler.{
  Handled, answer_ok, read_answer, stat_answer, with_status, request_block, copy_entries, read_dir,
  dir_opened, handle_request_read, handle_request_write, handle_request_open,
}

module _ {F N : Type 0} (env : ClientEnv F N) where
  -- The handler does not stop, and what it leaves becomes a valid response.
  abbrev pub Answers : Handled F → Type 0
  Answers r =
      (status : ℤ) × (rsp : Response) × (files : F) × (r ≡ some (status, rsp, files))
      × IsResponse (with_status status rsp)

  pub failed-IsResponse :
      (e : ℕ) (rsp : Response) → IsErrno e → IsResponse (with_status (minus e) rsp)
  unfolding with_status
  failed-IsResponse zero rsp h = absurd (omega arith)
  failed-IsResponse (suc n) rsp h = record {
    type_in = omega arith;
    data_in = λ e. absurd (omega arith);
    stat_in = λ e. absurd (omega arith);
    dir_in = λ e. absurd (omega arith);
    error_in = omega arith;
  }

  pub no_memory-Answers : (rsp : Response) (files : F) → Answers (some (minus enomem, rsp, files))
  no_memory-Answers rsp files =
      (_, _, _, refl, failed-IsResponse enomem rsp (omega arith, omega arith))

  pub answer_ok-Answers :
      {A : Type 0} (r : Sys A) (files : F)
      → Errs r
      → Answers (some (answer_ok zero_response r files))
  unfolding with_status response_init
  answer_ok-Answers (fails e) files h = (_, _, _, refl, failed-IsResponse e _ h)
  answer_ok-Answers (done a) files h = (
    _,
    _,
    _,
    refl,
    record {
      type_in = omega arith;
      data_in = λ e. absurd (omega arith);
      stat_in = λ e. absurd (omega arith);
      dir_in = λ e. absurd (omega arith);
      error_in = omega arith;
    },
  )

  read_answer-Answers :
      (r : Sys (List ℕ)) (files : F) (size : ℕ)
      → IsU64 size
      → Gives (λ bytes. length bytes ≤ size) r
      → Answers (some (read_answer zero_response r files))
  unfolding read_answer with_status
  read_answer-Answers (fails e) files size small h = (_, _, _, refl, failed-IsResponse e _ h)
  read_answer-Answers (done bytes) files size small h = (
    _,
    _,
    _,
    refl,
    record {
      type_in = omega arith;
      data_in = λ e. record { nbytes_in = omega arith; buf_in = omega arith };
      stat_in = λ e. absurd (omega arith);
      dir_in = λ e. absurd (omega arith);
      error_in = omega arith;
    },
  )

  pub stat_answer-Answers :
      (r : Sys StatBuf) (files : F)
      → Gives IsStatBuf r
      → Answers (some (stat_answer zero_response r files))
  unfolding stat_answer with_status
  stat_answer-Answers (fails e) files h = (_, _, _, refl, failed-IsResponse e _ h)
  stat_answer-Answers (done st) files h = (
    _,
    _,
    _,
    refl,
    record {
      type_in = omega arith;
      data_in = λ e. absurd (omega arith);
      stat_in = λ e. record {
        mode_in = h.mode_in;
        size_in = h.size_in;
        blocks_in = h.blocks_in;
        blksize_in = h.blksize_in;
      };
      dir_in = λ e. absurd (omega arith);
      error_in = omega arith;
    },
  )

  -- As many entries as there is room for fill the array.
  copy_entries-full :
      (room : ℕ) (ents : List OsDirent)
      → room ≡ length ents
      → All IsOsDirent ents
      → (ok : Bool) × (array : List Dirent) × (copy_entries env room ents ≡ some (ok, array))
        × (room ≡ length array)
        × All IsDirent array
  unfolding copy_entries
  copy_entries-full zero [] e h = (true, [], refl, refl, tt)
  copy_entries-full zero (ent ∷ ents) e h = absurd (omega arith)
  copy_entries-full (suc room) [] e h = absurd (omega arith)
  copy_entries-full (suc room) (ent ∷ ents) e h =
      let (ok, array, returns, count, valid) = copy_entries-full room ents (omega arith) h.1 in
      (
        env.grants (length ent.d_name + 1) && ok,
        record { mde_name = some ent.d_name; mde_mode = dirent_mode ent.d_type } ∷ array,
        rw returns refl,
        ap suc count,
        ((h.0, omega arith), valid),
      )

  listing :
      (count : ℕ) (array : List Dirent)
      → IsU64 count
      → count ≡ length array
      → All IsDirent array
      → IsResponse (
          with_status (pos 0) (record zero_response {
            mrsp_type = mrsp_dir_type;
            mrsp_dir = record { mdir_count = count; mdir_ents = some array };
          }))
  unfolding with_status
  listing count array small counted valid = record {
    type_in = omega arith;
    data_in = λ e. absurd (omega arith);
    stat_in = λ e. absurd (omega arith);
    dir_in = λ e. (small, (counted, valid));
    error_in = omega arith;
  }

  read_dir-Answers :
      (law : IsOs env.os) (dir : ℕ) (files : F)
      → Steady env.os (done dir, files)
      → Answers (read_dir env dir (record zero_response { mrsp_type = mrsp_dir_type }) files)
  unfolding read_dir
  read_dir-Answers law dir files steady =
      let files1 = env.os.rewinddir dir (env.os.read_entries dir files).1 in
      let count = length (env.os.read_entries dir files).0 in
      let (ok, array, returns, counted, valid) =
        copy_entries-full count (env.os.read_entries dir files1).0 (sym steady)
          (law.entries_in dir files1) in
      let listed : Option (List Dirent) → Response = λ ents. record zero_response {
        mrsp_type = mrsp_dir_type;
        mrsp_dir = record { mdir_count = count; mdir_ents = ents };
      } in
      let files2 = (env.os.read_entries dir files1).1 in
      elim (Bool-cases (env.grants (count * 16))) [
        | inr e ↦ (
          minus enomem,
          listed none,
          (env.os.read_entries dir files).1,
          rw e refl,
          failed-IsResponse enomem _ (omega arith, omega arith),
        )
        | inl e ↦ elim (Bool-cases ok) [
          | inr k ↦ (
            minus enomem,
            listed (some array),
            files2,
            rw (e, returns, k) refl,
            failed-IsResponse enomem _ (omega arith, omega arith),
          )
          | inl k ↦ (
            pos 0,
            listed (some array),
            files2,
            rw (e, returns, k) refl,
            listing count array (law.count_in dir files) counted valid,
          )
        ]
      ]

  pub dir_opened-Answers :
      (law : IsOs env.os) (r : Sys ℕ) (files : F)
      → Errs r
      → Steady env.os (r, files)
      → Answers (dir_opened env (record zero_response { mrsp_type = mrsp_dir_type }) (r, files))
  unfolding dir_opened
  dir_opened-Answers law (fails e) files h steady = (_, _, _, refl, failed-IsResponse e _ h)
  dir_opened-Answers law (done dir) files h steady = read_dir-Answers law dir files steady

  request_block-fits :
      (req : Request)
      → HasBytes req.mreq_data req.mreq_size
      → (block : List ℕ) × (request_block req ≡ some block)
  unfolding request_block
  request_block-fits req h = elim (Bool-cases (req.mreq_size == 0)) [
    | inl e ↦ ([], rw e refl)
    | inr e ↦ elim (Option-cases req.mreq_data) [
      | inl none_there ↦ absurd (empty none_there e)
      | inr (block, there) ↦ (
        take req.mreq_size block,
        rw (e, there)
            (peek_fits block req.mreq_size (subst (λ d. HasBytes d req.mreq_size) there h)),
      )
    ]
  ]
    where
      empty : req.mreq_data ≡ none → (req.mreq_size == 0) ≡ false → ⊥
      empty none_there e =
          let zero_size : req.mreq_size ≡ 0 = subst (λ d. HasBytes d req.mreq_size) none_there h in
          ground arith

  pub handle_request_read-Answers :
      (law : IsOs env.os) (fd : ℤ) (req : Request) (files : F)
      → IsRequest req
      → Answers (handle_request_read env fd req zero_response files)
  unfolding handle_request_read
  handle_request_read-Answers law fd req files v =
      let answer = env.os.pread fd req.mreq_size req.mreq_off files in
      let given =
        read_answer-Answers answer.0 answer.1 req.mreq_size v.size_in
          (law.pread_in fd req.mreq_size req.mreq_off files) in
      elim (Bool-cases (env.grants req.mreq_size)) [
        | inl e ↦ rw e given
        | inr e ↦ rw e (no_memory-Answers zero_response files)
      ]

  pub handle_request_write-Answers :
      (law : IsOs env.os) (fd : ℤ) (req : Request) (files : F)
      → HasBytes req.mreq_data req.mreq_size
      → Answers (handle_request_write env fd req zero_response files)
  unfolding handle_request_write
  handle_request_write-Answers law fd req files h =
      let (block, e) = request_block-fits req h in
      let answer = env.os.pwrite fd block req.mreq_off files in
      rw e (answer_ok-Answers answer.0 answer.1 (law.pwrite_in fd block req.mreq_off files))

  -- The result of opening, behind which the descriptor is closed again.
  pub handle_request_open-Answers :
      (law : IsOs env.os) (path : List ℕ) (req : Request) (files : F)
      → Answers (handle_request_open env path req zero_response files)
  unfolding handle_request_open
  handle_request_open-Answers law path req files =
      by_result (env.os.open_file path req.mreq_mode 438 files)
        (law.open_in path req.mreq_mode 438 files)
    where
      by_result :
          (r : Sys ℕ × F)
          → Errs r.0
          → Answers (elim r.0 [
            | fails e ↦ some (minus e, zero_response, r.1)
            | done fd ↦
                some
                  (pos 0, response_init mrsp_ok_type zero_response, (env.os.close (pos fd) r.1).1)
          ])
      by_result (fails e, files1) h = (_, _, _, refl, failed-IsResponse e _ h)
      by_result (done fd, files1) h =
          answer_ok-Answers (done fd) (env.os.close (pos fd) files1).1 tt
