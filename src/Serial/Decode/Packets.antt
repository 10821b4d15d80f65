-- ===== src/Serial/Decode/Packets.antt =====
-- deserialize_pkt and what it calls read what the wire form says: the parts of a packet other than
-- requests and directories, and the whole packet.
use middfs.Common.{ℕ, zero, suc, ◌+◌, ◌^◌, ◌≤◌, ◌<◌, ◌≡◌, refl, sym, ap, ◌∙◌, arith}
use middfs.Common.{List, [], ◌++◌, append_assoc, Bool, true, false, Option, some}
use middfs.Common.{if◌then◌else◌, length, length-append, size_mod, add_size, ltb, leb, ◌==◌, ◌&&◌}
use middfs.Common.{drop, take-append, drop-append}
use middfs.Util.{peek, peek_fits, sizerem}
use middfs.Pkt.{Data, Stat, Connect, Response, Packet}
use middfs.Pkt.Kinds.{req_has_data, mpkt_request_type, mpkt_response_type, mpkt_connect_type}
use middfs.Pkt.Kinds.{mrsp_ok_type, mrsp_data_type, mrsp_stat_type, mrsp_dir_type, mrsp_error_type}
use middfs.Serial.Format.{be32, be64, text_bytes, block_bytes, stat_bytes, data_bytes}
use middfs.Serial.Format.{connect_bytes, response_body, response_bytes, packet_body, packet_bytes}
use middfs.Serial.Valid.{IsStat, IsData, IsConnect, IsResponse, IsPacket}
use middfs.Serial.Encode.Basic.{length-block_bytes}
use middfs.Serial.Reader.{DState, IsOk, allocate, Deserializer, Gives, Reads}
use middfs.Serial.Reader.Then.{then-Reads, resumed-Reads}
use middfs.Serial.Reader.Forms.{bail-Reads, finish-Reads, member-Reads, resume-Reads}
use middfs.Serial.Reader.Forms.{switch-Reads, checked_to-Reads, checked_err_to-Reads}
use middfs.Serial.Decode.{
  deserialize_connect, deserialize_stat, data_block, deserialize_data, rsp_body,
}
use middfs.Serial.Decode.{deserialize_rsp, pkt_body, pkt_head, deserialize_pkt}
use middfs.Serial.Decode.Received.{received_data, received_response, received_packet}
use middfs.Serial.Decode.Basic.{IsShort, IsShort-left, IsShort-right, uint32-Reads, int32-Reads}
use middfs.Serial.Decode.Basic.{uint64-Reads, str-Reads, allocate_ok}
use middfs.Serial.Decode.Requests.{request-Reads}
use middfs.Serial.Decode.Dirs.{Accepts, dir-Reads}

connect-Reads :
    (c s : Connect)
    → IsConnect c
    → IsShort (connect_bytes c)
    → Reads deserialize_connect s (connect_bytes c) c
unfolding deserialize_connect connect_bytes
connect-Reads c s (hn, hp) fits =
    then-Reads (λ t. record t { name = c.name })
      (then-Reads (λ t. record t { port = c.port }) (resume-Reads s [])
        (λ t. member-Reads _ _ (uint32-Reads c.port t.port hp))
        (IsShort-left (be32 c.port) (text_bytes c.name) fits))
      (λ t.
        member-Reads _ _
          (str-Reads c.name t.name hn (IsShort-right (be32 c.port) (text_bytes c.name) fits)))
      fits

stat-Reads : (x s : Stat) → IsStat x → Reads deserialize_stat s (stat_bytes x) x
unfolding deserialize_stat stat_bytes
stat-Reads x s v =
    then-Reads (λ t. record t { mstat_blksize = x.mstat_blksize })
      (then-Reads (λ t. record t { mstat_blocks = x.mstat_blocks })
        (then-Reads (λ t. record t { mstat_size = x.mstat_size })
          (then-Reads (λ t. record t { mstat_mode = x.mstat_mode }) (resume-Reads s [])
            (λ t. member-Reads _ _ (uint32-Reads x.mstat_mode t.mstat_mode v.mode_in))
            (unfold be32 in omega arith))
          (λ t. member-Reads _ _ (uint64-Reads x.mstat_size t.mstat_size v.size_in))
          (unfold be64 in unfold be32 in omega arith))
        (λ t. member-Reads _ _ (uint64-Reads x.mstat_blocks t.mstat_blocks v.blocks_in))
        (unfold be64 in unfold be32 in omega arith))
      (λ t. member-Reads _ _ (uint64-Reads x.mstat_blksize t.mstat_blksize v.blksize_in))
      (unfold be64 in unfold be32 in omega arith)

-- What the target becomes when the block `out` is read.
abbrev with_block : Data → List ℕ → Data
with_block s out = record s { mdata_buf = if s.mdata_nbytes == 0 then s.mdata_buf else some out }

block_fits : (u k n : ℕ) → 0 < k → u + k ≤ n → (leb k (sizerem n u) && ltb 0 k) ≡ true
unfolding sizerem
block_fits u k n h i = ground arith

block_misses : (u k n : ℕ) → n < u + k → (leb k (sizerem n u) && ltb 0 k) ≡ false
unfolding sizerem
block_misses u k n h = ground arith

block_empty : (u n : ℕ) → (leb 0 (sizerem n u) && ltb 0 0) ≡ false
unfolding sizerem
block_empty u n = ground arith

data_block_copies :
    (u n : ℕ) (s : Data) (buf out : List ℕ) (st : DState)
    → (leb s.mdata_nbytes (sizerem n u) && ltb 0 s.mdata_nbytes) ≡ true
    → st.grants 0 ≡ true
    → peek (drop u buf) s.mdata_nbytes ≡ some out
    → data_block u s buf n st
      ≡ some (add_size u s.mdata_nbytes, record s { mdata_buf = some out }, (allocate st).1)
unfolding data_block allocate
data_block_copies u n s buf out st e g h = rw (e, g, h)

data_block_skips :
    (u n : ℕ) (s : Data) (buf : List ℕ) (st : DState)
    → (leb s.mdata_nbytes (sizerem n u) && ltb 0 s.mdata_nbytes) ≡ false
    → data_block u s buf n st ≡ some (add_size u s.mdata_nbytes, s, st)
unfolding data_block allocate
data_block_skips u n s buf st e = rw e

some_block :
    (k : ℕ) (old : Option (List ℕ)) (out : List ℕ)
    → some out ≡ (if suc k == 0 then old else some out)
some_block k old out = ground arith

data_block-whole :
    (k : ℕ) (a out rest : List ℕ) (old : Option (List ℕ)) (n : ℕ) (st : DState)
    → length out ≡ k
    → length a + length out < size_mod
    → IsOk st
    → length a + length out ≤ n
    → Gives
        (length a + length out)
        (with_block (record { mdata_nbytes = k; mdata_buf = old }) out)
        (data_block
          (length a)
          (record { mdata_nbytes = k; mdata_buf = old })
          (a ++ (out ++ rest))
          n
          st)
data_block-whole zero a out rest old n st e fits ok h = record {
  state = st;
  returns =
      data_block_skips (length a) n (record { mdata_nbytes = 0; mdata_buf = old }) _ st
        (block_empty (length a) n)
      ∙ ap (λ u. some (u, record { mdata_nbytes = 0; mdata_buf = old }, st)) (omega arith);
  ok = ok;
}
data_block-whole (suc k) a out rest old n st e fits ok h = record {
  state = (allocate st).1;
  returns =
      data_block_copies (length a) n (record { mdata_nbytes = suc k; mdata_buf = old })
        (a ++ (out ++ rest)) out st (block_fits (length a) (suc k) n (omega arith) (omega arith))
        (ok.granted 0)
        (rw (drop-append (length a) a (out ++ rest) refl) (
          peek_fits (out ++ rest) (suc k) (omega (arith, length-append out rest))
          ∙ ap some (take-append (suc k) out rest (sym e))))
      ∙ ap (λ u. some (u, record { mdata_nbytes = suc k; mdata_buf = some out }, (allocate st).1))
          (omega arith)
      ∙ ap
          (λ b. some (
            length a + length out,
            record { mdata_nbytes = suc k; mdata_buf = b },
            (allocate st).1,
          ))
          (some_block k old out);
  ok = (allocate_ok ok).1;
}

block-Reads :
    (a out : List ℕ) (s : Data)
    → length out ≡ s.mdata_nbytes
    → IsShort (a ++ out)
    → Reads (data_block (length a)) s (a ++ out) (with_block s out)
block-Reads a out s e fits =
    let l = length-append a out in
    record {
      whole = λ rest n st ok h j.
          rw (append_assoc, l)
            (data_block-whole s.mdata_nbytes a out rest s.mdata_buf n st e (omega arith) ok
              (omega arith));
      part = λ front back rest st ok h j.
          let l1 = ap length h in
          let l2 = length-append front back in
          record {
            used = length a + length out;
            value = s;
            state = st;
            returns =
                data_block_skips (length a) (length front) s _ st
                  (block_misses (length a) s.mdata_nbytes (length front) (omega arith))
                ∙ ap (λ u. some (u, s, st)) (omega arith);
            ok = ok;
            asks_more = omega arith;
            asks_bound = omega arith;
          };
    }

data-Reads :
    (d s : Data)
    → IsData d
    → IsShort (data_bytes d)
    → Reads deserialize_data s (data_bytes d) (received_data s d)
unfolding deserialize_data data_bytes received_data
data-Reads d s v fits =
    checked_err_to-Reads data_block (block_bytes d.mdata_buf d.mdata_nbytes, refl)
      (then-Reads (λ t. record t { mdata_nbytes = d.mdata_nbytes }) (resume-Reads s [])
        (λ t. member-Reads _ _ (uint64-Reads d.mdata_nbytes t.mdata_nbytes v.nbytes_in))
        (unfold be64 in unfold be32 in omega arith))
      (block-Reads (be64 d.mdata_nbytes) (block_bytes d.mdata_buf d.mdata_nbytes)
        (record s { mdata_nbytes = d.mdata_nbytes })
        (length-block_bytes d.mdata_buf d.mdata_nbytes v.buf_in) fits)

-- A target that can hold the directory of a response.
abbrev pub TakesDir : Response → Response → Type 0
TakesDir s r = r.mrsp_type ≡ mrsp_dir_type → Accepts r.mrsp_dir.mdir_count s.mrsp_dir.mdir_ents

branch-Reads :
    {S : Type 0} (b : Bool) {f g : Deserializer S} {s t t' : S} {out out' : List ℕ}
    → IsShort (if b then out else out')
    → (b ≡ true → IsShort out → Reads f s out t)
    → (b ≡ false → IsShort out' → Reads g s out' t')
    → Reads (if b then f else g) s (if b then out else out') (if b then t else t')
branch-Reads true fits w w' = w refl fits
branch-Reads false fits w w' = w' refl fits

type_known :
    (t : ℕ)
    → t < 5
    → (t == mrsp_ok_type) ≡ false
    → (t == mrsp_data_type) ≡ false
    → (t == mrsp_stat_type) ≡ false
    → (t == mrsp_dir_type) ≡ false
    → (t == mrsp_error_type) ≡ false
    → ⊥
type_known t h e0 e1 e2 e3 e4 = ground arith

rsp_body-Reads :
    (s r : Response)
    → IsResponse r
    → TakesDir s r
    → IsShort (response_body r)
    → Reads
        (rsp_body r.mrsp_type)
        (record s { mrsp_type = r.mrsp_type })
        (response_body r)
        (received_response s r)
unfolding rsp_body response_body received_response
rsp_body-Reads s r v takes fits =
    branch-Reads (r.mrsp_type == mrsp_ok_type) fits (λ _ _. resume-Reads _ [])
      λ e0 fits.
        branch-Reads (r.mrsp_type == mrsp_data_type) fits
          (λ e k.
            member-Reads _ _ (data-Reads r.mrsp_data s.mrsp_data (v.data_in (ground arith)) k))
          λ e1 fits.
            branch-Reads (r.mrsp_type == mrsp_stat_type) fits
              (λ e k.
                member-Reads _ _ (stat-Reads r.mrsp_stat s.mrsp_stat (v.stat_in (ground arith))))
              λ e2 fits.
                branch-Reads (r.mrsp_type == mrsp_dir_type) fits
                  (λ e k. member-Reads _ _ (
                    dir-Reads r.mrsp_dir s.mrsp_dir (v.dir_in (ground arith)) (takes (ground arith))
                      k))
                  λ e3 fits.
                    branch-Reads (r.mrsp_type == mrsp_error_type) fits
                      (λ e k. member-Reads _ _ (int32-Reads r.mrsp_error s.mrsp_error v.error_in))
                      λ e4 fits. absurd (type_known r.mrsp_type v.type_in e0 e1 e2 e3 e4)

rsp-Reads :
    (s r : Response)
    → IsResponse r
    → TakesDir s r
    → IsShort (response_bytes r)
    → Reads deserialize_rsp s (response_bytes r) (received_response s r)
unfolding deserialize_rsp response_bytes
rsp-Reads s r v takes fits =
    checked_to-Reads _ (response_body r, refl)
      (then-Reads (λ t. record t { mrsp_type = r.mrsp_type }) (resume-Reads s [])
        (λ t. member-Reads _ _ (int32-Reads r.mrsp_type t.mrsp_type (omega (arith, v.type_in))))
        (unfold be32 in omega arith))
      (resumed-Reads (be32 r.mrsp_type)
        (switch-Reads _ (rsp_body-Reads s r v takes (IsShort-right (be32 r.mrsp_type) _ fits)))
        fits)

pkt_body-Reads :
    (s p : Packet)
    → IsPacket p
    → (p.mpkt_type ≡ mpkt_response_type → TakesDir s.mpkt_response p.mpkt_response)
    → (p.mpkt_type ≡ mpkt_request_type
        → req_has_data p.mpkt_request.mreq_type ≡ true
        → p.mpkt_request.mreq_size < 2 ^ 31)
    → IsShort (packet_body p)
    → Reads
        (pkt_body p.mpkt_type)
        (record s { mpkt_magic = p.mpkt_magic; mpkt_type = p.mpkt_type })
        (packet_body p)
        (received_packet s p)
unfolding pkt_body packet_body received_packet
pkt_body-Reads s p v takes small fits =
    branch-Reads (p.mpkt_type == mpkt_request_type) fits
      (λ e k. member-Reads _ _ (
        request-Reads p.mpkt_request (v.request_in (ground arith)) s.mpkt_request
          (small (ground arith)) k))
      λ _ fits.
        branch-Reads (p.mpkt_type == mpkt_response_type) fits
          (λ e k. member-Reads _ _ (
            rsp-Reads s.mpkt_response p.mpkt_response (v.response_in (ground arith))
              (takes (ground arith)) k))
          λ _ fits.
            branch-Reads (p.mpkt_type == mpkt_connect_type) fits
              (λ e k.
                member-Reads _ _
                  (connect-Reads p.mpkt_connect s.mpkt_connect (v.connect_in (ground arith)) k))
              λ _ _. resume-Reads _ []

-- `deserialize_pkt` reads the wire form of a valid packet, whatever the target value held, if it
-- can hold the directory and the data of a write request are below 2 ^ 31 bytes.
pub pkt-Reads :
    (s p : Packet)
    → IsPacket p
    → (p.mpkt_type ≡ mpkt_response_type → TakesDir s.mpkt_response p.mpkt_response)
    → (p.mpkt_type ≡ mpkt_request_type
        → req_has_data p.mpkt_request.mreq_type ≡ true
        → p.mpkt_request.mreq_size < 2 ^ 31)
    → IsShort (packet_bytes p)
    → Reads deserialize_pkt s (packet_bytes p) (received_packet s p)
unfolding deserialize_pkt packet_bytes pkt_head
pkt-Reads s p v takes small fits = bail-Reads (
    checked_err_to-Reads _ (packet_body p, refl)
      (then-Reads (λ t. record t { mpkt_type = p.mpkt_type })
        (then-Reads (λ t. record t { mpkt_magic = p.mpkt_magic }) (resume-Reads s [])
          (λ t. member-Reads _ _ (uint32-Reads p.mpkt_magic t.mpkt_magic v.magic_in))
          (unfold be32 in omega arith))
        (λ t. member-Reads _ _ (uint32-Reads p.mpkt_type t.mpkt_type v.type_in))
        (unfold be32 in omega arith))
      (finish-Reads (
        resumed-Reads (be32 p.mpkt_magic ++ be32 p.mpkt_type)
          (switch-Reads _ (
            pkt_body-Reads s p v takes small
              (IsShort-right (be32 p.mpkt_magic ++ be32 p.mpkt_type) _ fits)))
          fits)))
