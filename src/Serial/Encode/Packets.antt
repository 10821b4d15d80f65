-- ===== src/Serial/Encode/Packets.antt =====
-- serialize_pkt and the functions below it write the wire format, under the contract of `Writes`.
use middfs.Common.{ℕ, zero, suc, ◌<◌, ◌≡◌, arith, List, [], ◌∷◌, ◌++◌}
use middfs.Common.{none, some, Bool, true, false, ◌==◌, length, All, size_mod}
use middfs.Common.{◌≤◌, length-append}
use middfs.Pkt.{CString, Rsrc, Request, Stat, Data, Dirent, Dir, Response, Connect, Packet}
use middfs.Serial.Writer.{Serializer, ◌>+◌, Writes, then-Writes, when-Writes, skip-Writes}
use middfs.Pkt.Kinds.{mpkt_request_type, mpkt_response_type, mpkt_connect_type}
use middfs.Pkt.Kinds.{mrsp_ok_type, mrsp_data_type, mrsp_stat_type, mrsp_dir_type, mrsp_error_type}
use middfs.Serial.Encode.{serialize_rsp_body, serialize_pkt_body}
use middfs.Serial.Writer.{if-Writes, fits_left, fits_right}
use middfs.Pkt.{entries}
use middfs.Serial.Encode.{serialize_uint64}
use middfs.Serial.Valid.{
  HasEntries-entries, IsText, IsRsrc, IsRequest, IsData, IsDirent, IsDir, IsResponse,
}
use middfs.Serial.Valid.{IsConnect, IsPacket}
use middfs.Serial.Format.{optional}
use middfs.Serial.Format.{be32, be64, text_bytes, rsrc_bytes, request_bytes}
use middfs.Serial.Format.{stat_bytes, data_bytes, dirent_bytes, dirents_bytes, dir_bytes}
use middfs.Serial.Format.{response_body, response_bytes, connect_bytes, packet_body, packet_bytes}
use middfs.Serial.Encode.{serialize_str, serialize_strp, serialize_struct, serialize_rsrc}
use middfs.Serial.Encode.{serialize_request, serialize_stat, serialize_data, serialize_dirent}
use middfs.Serial.Encode.{serialize_dirents, serialize_dir, serialize_rsp, serialize_connect}
use middfs.Serial.Encode.{serialize_pkt}
use middfs.Serial.Encode.Basic.{serialize_uint32-Writes, serialize_int32-Writes}
use middfs.Serial.Encode.Basic.{serialize_uint64-Writes, serialize_str-Writes}
use middfs.Serial.Encode.Basic.{serialize_block-Writes, serialize_data_block-Writes}

text-Writes :
    (t : CString)
    → IsText t
    → length (text_bytes t) < size_mod
    → Writes (serialize_str t) (text_bytes t)
text-Writes none h fits = absurd h
text-Writes (some s) h fits = serialize_str-Writes s (omega (arith, length-append s (0 ∷ [])))

serialize_rsrc-Writes :
    (r : Rsrc)
    → IsRsrc r
    → length (rsrc_bytes r) < size_mod
    → Writes (serialize_rsrc r) (rsrc_bytes r)
unfolding serialize_rsrc serialize_struct serialize_strp rsrc_bytes
serialize_rsrc-Writes r (ho, hp) fits =
    let left = fits_left (text_bytes r.mr_owner) (text_bytes r.mr_path) fits in
    let right = fits_right (text_bytes r.mr_owner) (text_bytes r.mr_path) fits in
    then-Writes (then-Writes skip-Writes (text-Writes r.mr_owner ho left) left)
      (text-Writes r.mr_path hp right) fits

optional_fits :
    (b : Bool) (out : List ℕ)
    → b ≡ true
    → length (optional b out) < size_mod
    → length out < size_mod
unfolding optional
optional_fits true out e h = h
optional_fits false out e h = cc

-- The eight parts of a request, each with the room that the whole leaves it.
serialize_request-Writes :
    (r : Request)
    → IsRequest r
    → length (request_bytes r) < size_mod
    → Writes (serialize_request r) (request_bytes r)
unfolding serialize_request request_bytes
serialize_request-Writes r v f8 =
    let f7 = fits_left _ _ f8 in
    let f6 = fits_left _ _ f7 in
    let f5 = fits_left _ _ f6 in
    let f4 = fits_left _ _ f5 in
    let f3 = fits_left _ _ f4 in
    let f2 = fits_left _ _ f3 in
    then-Writes
      (then-Writes
        (then-Writes
          (then-Writes
            (then-Writes
              (then-Writes
                (then-Writes (serialize_uint32-Writes r.mreq_type)
                  (text-Writes r.mreq_requester v.requester_in (fits_right _ _ f2)) f2)
                (serialize_rsrc-Writes r.mreq_rsrc v.rsrc_in (fits_right _ _ f3)) f3)
              (when-Writes _ (λ e. serialize_int32-Writes r.mreq_mode)) f4)
            (when-Writes _ (λ e. serialize_uint64-Writes _)) f5)
          (when-Writes _ (λ e.
            serialize_rsrc-Writes r.mreq_to (v.to_in e) (optional_fits _ _ e (fits_right _ _ f6))))
          f6)
        (when-Writes _ (λ e. serialize_uint64-Writes _)) f7)
      (when-Writes _ (λ e. serialize_block-Writes r.mreq_data r.mreq_size (v.data_in e))) f8

serialize_stat-Writes : (s : Stat) → Writes (serialize_stat s) (stat_bytes s)
unfolding serialize_stat stat_bytes
serialize_stat-Writes s =
    let w1 : Writes _ _ =
      then-Writes (serialize_uint32-Writes s.mstat_mode) (serialize_uint64-Writes s.mstat_size)
        (unfold be32 be64 in omega arith) in
    let w2 : Writes _ _ =
      then-Writes w1 (serialize_uint64-Writes s.mstat_blocks) (unfold be32 be64 in omega arith) in
    then-Writes w2 (serialize_uint64-Writes s.mstat_blksize) (unfold be32 be64 in omega arith)

serialize_data-Writes :
    (d : Data)
    → IsData d
    → length (data_bytes d) < size_mod
    → Writes (serialize_data d) (data_bytes d)
unfolding serialize_data data_bytes
serialize_data-Writes d v fits =
    then-Writes (serialize_uint64-Writes _) (serialize_data_block-Writes d v.buf_in) fits

serialize_connect-Writes :
    (c : Connect)
    → IsConnect c
    → length (connect_bytes c) < size_mod
    → Writes (serialize_connect c) (connect_bytes c)
unfolding serialize_connect connect_bytes
serialize_connect-Writes c (hn, hp) fits =
    then-Writes (serialize_uint32-Writes _)
      (text-Writes c.name hn (fits_right (be32 c.port) (text_bytes c.name) fits)) fits

serialize_dirent-Writes :
    (e : Dirent)
    → IsDirent e
    → length (dirent_bytes e) < size_mod
    → Writes (serialize_dirent e) (dirent_bytes e)
unfolding serialize_dirent dirent_bytes
serialize_dirent-Writes e (hn, hm) fits =
    then-Writes
      (text-Writes e.mde_name hn (fits_left (text_bytes e.mde_name) (be32 e.mde_mode) fits))
      (serialize_int32-Writes _) fits

pub dirents_bytes-ge :
    (before : List ℕ) (es : List Dirent) → length before ≤ length (dirents_bytes before es)
unfolding dirents_bytes
dirents_bytes-ge before [] = omega arith
dirents_bytes-ge before (e ∷ es) =
    omega
      (arith, dirents_bytes-ge (before ++ dirent_bytes e) es, length-append before (dirent_bytes e))

-- The loop over the entries, behind what is written already.
serialize_dirents-Writes :
    (done : Serializer) (before : List ℕ) (count : ℕ) (es : List Dirent)
    → Writes done before
    → count ≡ length es
    → All IsDirent es
    → length (dirents_bytes before es) < size_mod
    → Writes (serialize_dirents done count es) (dirents_bytes before es)
unfolding serialize_dirents dirents_bytes
serialize_dirents-Writes done before zero [] w h v fits = w
serialize_dirents-Writes done before (suc count) [] w h v fits = absurd (omega arith)
serialize_dirents-Writes done before zero (e ∷ es) w h v fits = absurd (omega arith)
serialize_dirents-Writes done before (suc count) (e ∷ es) w h v fits =
    let room : length (before ++ dirent_bytes e) < size_mod =
      omega (arith, dirents_bytes-ge (before ++ dirent_bytes e) es) in
    serialize_dirents-Writes (done >+ serialize_dirent e) (before ++ dirent_bytes e) count es
      (then-Writes w (serialize_dirent-Writes e v.0 (fits_right before (dirent_bytes e) room)) room)
      (omega arith) v.1 fits

serialize_dir-Writes :
    (d : Dir) → IsDir d → length (dir_bytes d) < size_mod → Writes (serialize_dir d) (dir_bytes d)
unfolding serialize_dir dir_bytes
serialize_dir-Writes d (hc, he) fits =
    let (count, each) = HasEntries-entries d.mdir_ents he in
    serialize_dirents-Writes (serialize_uint64 d.mdir_count) (be64 d.mdir_count) d.mdir_count
      (entries d.mdir_ents) (serialize_uint64-Writes _) count each fits

response_body-Writes :
    (r : Response)
    → IsResponse r
    → length (response_body r) < size_mod
    → Writes (serialize_rsp_body r) (response_body r)
unfolding serialize_rsp_body response_body
response_body-Writes r v fits =
    if-Writes _ fits (λ e k. skip-Writes)
      λ e0 fits.
        if-Writes _ fits (λ e. serialize_data-Writes r.mrsp_data (v.data_in (ground arith)))
          λ e1 fits.
            if-Writes _ fits (λ e k. serialize_stat-Writes r.mrsp_stat)
              λ e2 fits.
                if-Writes _ fits (λ e. serialize_dir-Writes r.mrsp_dir (v.dir_in (ground arith)))
                  λ e3 fits.
                    if-Writes _ fits (λ e k. serialize_int32-Writes r.mrsp_error)
                      λ e4 fits. absurd (type_known r.mrsp_type v.type_in e0 e1 e2 e3 e4)
  where
    type_known :
        (t : ℕ)
        → t < 5
        → (t == mrsp_ok_type) ≡ false
        → (t == mrsp_data_type) ≡ false
        → (t == mrsp_stat_type) ≡ false
        → (t == mrsp_dir_type) ≡ false
        → (t == mrsp_error_type) ≡ false
        → ⊥
    type_known t h e0 e1 e2 e3 e4 = ground arith

serialize_rsp-Writes :
    (r : Response)
    → IsResponse r
    → length (response_bytes r) < size_mod
    → Writes (serialize_rsp r) (response_bytes r)
unfolding serialize_rsp response_bytes
serialize_rsp-Writes r v fits =
    then-Writes (serialize_int32-Writes r.mrsp_type)
      (response_body-Writes r v (fits_right (be32 r.mrsp_type) (response_body r) fits)) fits

packet_body-Writes :
    (p : Packet)
    → IsPacket p
    → length (packet_body p) < size_mod
    → Writes (serialize_pkt_body p) (packet_body p)
unfolding serialize_pkt_body packet_body
packet_body-Writes p v fits =
    if-Writes (p.mpkt_type == mpkt_request_type) fits
      (λ e. serialize_request-Writes p.mpkt_request (v.request_in (ground arith)))
      λ _ fits.
        if-Writes (p.mpkt_type == mpkt_response_type) fits
          (λ e. serialize_rsp-Writes p.mpkt_response (v.response_in (ground arith)))
          λ _ fits.
            if-Writes (p.mpkt_type == mpkt_connect_type) fits
              (λ e. serialize_connect-Writes p.mpkt_connect (v.connect_in (ground arith)))
              λ _ _. skip-Writes

-- For a valid packet whose wire form is shorter than 2 ^ 64 bytes, `serialize_pkt` writes exactly
-- that form when the room suffices. When it does not, it writes nothing outside of the room, keeps
-- the size of the block, and returns a size that is more than the room and at most the length of
-- the form.
pub serialize_pkt-Writes :
    (p : Packet)
    → IsPacket p
    → length (packet_bytes p) < size_mod
    → Writes (serialize_pkt p) (packet_bytes p)
unfolding serialize_pkt packet_bytes
serialize_pkt-Writes p v fits =
    then-Writes
      (then-Writes (serialize_uint32-Writes p.mpkt_magic) (serialize_uint32-Writes p.mpkt_type)
        (fits_left _ _ fits))
      (packet_body-Writes p v (fits_right (be32 p.mpkt_magic ++ be32 p.mpkt_type) _ fits)) fits
