-- ===== src/Conn/Reading.antt =====
-- handle_pkt_rd of src/lib/middfs-conn.c puts a packet together from the pieces that arrive.
use middfs.Common.{none, ℕ, ◌*◌, ◌^◌, ◌≤◌, ◌<◌, ◌≡◌, refl, sym, ◌∙◌, arith, List, [], ◌∷◌, ◌++◌}
use middfs.Common.{true, Option, some, length}
use middfs.Common.{lt→ltb, le→ltb_false, length-append, drop-append, size_mod}
use middfs.Common.{◌⊎◌, inl, inr, append_split, append-nil}
use mathlib.Core.Path.{subst}
use middfs.Pkt.{Packet, zero_packet}
use middfs.Pkt.Kinds.{mpkt_request_type, req_has_data}
use middfs.Serial.Format.{packet_bytes}
use middfs.Serial.Valid.{IsPacket}
use middfs.Serial.Decode.Received.{received_packet}
use middfs.Serial.Decode.Basic.{IsShort}
use middfs.Serial.Decode.Packets.{pkt-Reads}
use middfs.Serial.Reader.{DState, Asks, Reads}
use middfs.Serial.Decode.{deserialize_pkt}
use middfs.Buf.{Buffer, IsRealloc, buffer_used, buffer_shift}
use middfs.Buf.Contents.{NoMemory, Holds, buffer_shift-Holds}
use middfs.Buf.Transfer.{IsRead, buffer_read-Holds}
use middfs.Buf.Stream.{Grants, whole_call, part_call}
use middfs.Sock.{Sockinfo}
use middfs.Conn.{HandlerInfo, HandlerE, hs_suc, hs_del, Env, has_pollin, with_in_buf}
use middfs.Conn.{finish_pkt_rd, bytes_were_read, handle_pkt_rd}

abbrev pub start : Env → DState
start env = record { err = 0; grants = env.grants; junk = env.junk }

module _ {W : Type 0} (w : W) (info : Sockinfo) where
  -- The connection is to be deleted, its buffer holds `c`, and no byte could be read.
  abbrev pub Deleted : Env → List ℕ → Option (HandlerE × Sockinfo × W) → Type 0
  Deleted env c r =
      (after : Buffer) × (r ≡ some (hs_del, with_in_buf info after, w))
      × Holds after c
      × (NoMemory env.realloc
          ⊎ ((room : ℕ) × (0 < room)
              × ((env.read info.in_end.fd room ≡ none) ⊎ (env.read info.in_end.fd room ≡ some []))))

  -- Bytes have been appended, and a part of `out` is missing.
  abbrev pub Waits : List ℕ → List ℕ → Option (HandlerE × Sockinfo × W) → Type 0
  Waits out c r =
      (bytes : List ℕ) × (back : List ℕ) × (after : Buffer) × (0 < length bytes)
      × (out ≡ (c ++ bytes) ++ back)
      × (0 < length back)
      × Holds after (c ++ bytes)
      × (r ≡ some (hs_suc, with_in_buf info after, w))

  -- All of `out` has arrived, the handler gets `pkt`, and `more` is kept.
  abbrev pub Delivers :
      HandlerInfo W → List ℕ → Packet → List ℕ → Option (HandlerE × Sockinfo × W) → Type 0
  Delivers hi out pkt c r =
      (bytes : List ℕ) × (more : List ℕ) × (after : Buffer) × (c ++ bytes ≡ out ++ more)
      × Holds after more
      × (r ≡ hi.rd_fin w (with_in_buf info after) pkt)

module _ {W : Type 0} (env : Env) (hi : HandlerInfo W) (w : W) (info : Sockinfo) {out : List ℕ}
    {pkt : Packet} (reads : Reads deserialize_pkt zero_packet out pkt) where
  finish-whole :
      (buf : Buffer) (more : List ℕ)
      → Grants (start env)
      → Holds buf (out ++ more)
      → finish_pkt_rd env hi w info buf
        ≡ hi.rd_fin w (with_in_buf info (buffer_shift buf (length out))) pkt
  unfolding finish_pkt_rd buffer_used
  finish-whole buf more g h =
      let y = whole_call reads (start env) buf more g h in
      let l : length out ≤ buf.ptr = omega (arith, h.ptr_is, length-append out more) in
      rw (y.returns, y.ok.no_err, le→ltb_false buf.ptr (length out) l)

  finish-part :
      (buf : Buffer) (c back : List ℕ)
      → Grants (start env)
      → Holds buf c
      → out ≡ c ++ back
      → 0 < length back
      → finish_pkt_rd env hi w info buf ≡ some (hs_suc, with_in_buf info buf, w)
  unfolding finish_pkt_rd buffer_used
  finish-part buf c back g h e i =
      let y : Asks (2 * length out) buf.ptr _ = part_call reads (start env) buf c back g h e i in
      rw (y.returns, y.ok.no_err, lt→ltb buf.ptr y.used y.asks_more)

  -- What the code makes of bytes that have been appended.
  bytes_then :
      (buf : Buffer) (c bytes rest future : List ℕ)
      → Grants (start env)
      → Holds buf (c ++ bytes)
      → 0 < length bytes
      → (c ++ bytes) ++ rest ≡ out ++ future
      → Waits w info out c (finish_pkt_rd env hi w info buf)
        ⊎ Delivers w info hi out pkt c (finish_pkt_rd env hi w info buf)
  bytes_then buf c bytes rest future g h some_bytes e =
      elim (append_split (c ++ bytes) rest out future e) [
        | inl (more, e1, e2, l) ↦ inr (delivered more e1)
        | inr ([], e1, e2) ↦
            inr (delivered [] (sym (append-nil (c ++ bytes)) ∙ sym e1 ∙ sym (append-nil out)))
        | inr (b ∷ back, e1, e2) ↦ inl (
          bytes,
          b ∷ back,
          buf,
          some_bytes,
          e1,
          omega arith,
          h,
          finish-part buf (c ++ bytes) (b ∷ back) g h e1 (omega arith),
        )
      ]
    where
      delivered :
          (more : List ℕ)
          → c ++ bytes ≡ out ++ more
          → Delivers w info hi out pkt c (finish_pkt_rd env hi w info buf)
      delivered more e1 =
          let now : Holds buf (out ++ more) = subst (Holds buf) e1 h in
          (
            bytes,
            more,
            buffer_shift buf (length out),
            e1,
            subst (Holds (buffer_shift buf (length out))) (drop-append (length out) out more refl)
                (buffer_shift-Holds buf (out ++ more) (length out) now),
            finish-whole buf more g now,
          )

  -- The three outcomes of a call, for any byte string that the packet reader reads.
  handle_pkt_rd-Step :
      (c future : List ℕ)
      → Grants (start env)
      → IsRealloc env.realloc
      → IsRead (env.read info.in_end.fd)
      → has_pollin info.revents ≡ true
      → Holds info.in_end.buf c
      → length info.in_end.buf.mem * 2 < size_mod
      → ((room : ℕ) (bytes : List ℕ)
          → env.read info.in_end.fd room ≡ some bytes
          → (rest : List ℕ) × ((c ++ bytes) ++ rest ≡ out ++ future))
      → Deleted w info env c (handle_pkt_rd env hi w info)
        ⊎ (Waits w info out c (handle_pkt_rd env hi w info)
            ⊎ Delivers w info hi out pkt c (handle_pkt_rd env hi w info))
  unfolding handle_pkt_rd bytes_were_read
  handle_pkt_rd-Step c future g law kernel ready h small stream =
      let (after, cases) =
        buffer_read-Holds env.realloc law (env.read info.in_end.fd) kernel info.in_end.buf c h
          small in
      elim cases [
        | inl (returns, holds, inl full) ↦ inl (after, rw (ready, returns), holds, inl full)
        | inl (returns, holds, inr (room, pr, e)) ↦
            inl (after, rw (ready, returns), holds, inr (room, pr, inl e))
        | inr (room, [], pr, e, returns, holds) ↦ inl (
          after,
          rw (ready, returns),
          subst (Holds after) (append-nil c) holds,
          inr (room, pr, inr e),
        )
        | inr (room, b ∷ bytes, pr, e, returns, holds) ↦
            let (rest, s) = stream room (b ∷ bytes) e in
            let go : handle_pkt_rd env hi w info ≡ finish_pkt_rd env hi w info after =
              rw (ready, returns) (ground arith) in
            inr (
              subst (λ r. Waits w info out c r ⊎ Delivers w info hi out pkt c r) (sym go)
                (bytes_then after c (b ∷ bytes) rest future g holds (omega arith) s))
      ]

-- A packet that its sender can build, less than half of the address space long, with less than 2 ^ 31 bytes of
-- data to write.
abbrev pub Sendable : Packet → Type 0
Sendable p =
    IsPacket p
    × (p.mpkt_type ≡ mpkt_request_type
        → req_has_data p.mpkt_request.mreq_type ≡ true
        → p.mpkt_request.mreq_size < 2 ^ 31)
    × IsShort (packet_bytes p)

abbrev pub arrives : Packet → Packet
arrives p = received_packet zero_packet p

Sendable-Reads :
    (p : Packet) → Sendable p → Reads deserialize_pkt zero_packet (packet_bytes p) (arrives p)
Sendable-Reads p (v, small, fits) = pkt-Reads zero_packet p v (λ _ _. tt) small fits

-- A connection whose buffer holds `c` reads from a stream in which the wire form of the sendable
-- packet `p` comes next. When the socket is ready, no allocation fails and the kernel and `realloc`
-- keep to their documentation, `handle_pkt_rd` does one of three things. It asks for the connection
-- to be deleted, because memory ran out, or because `read` failed or gave no byte though it was
-- offered room for at least one, with the buffer still holding `c`; or it returns HS_SUC
-- with the bytes read kept behind `c`, and a part of the form is still missing; or the program's
-- handler gets `p` as it arrives (`arrives p`: a size or offset that travels comes as the sign
-- extension of its low 32 bits), and the buffer holds the bytes that follow the form.
pub handle_pkt_rd-Receives :
    {W : Type 0} (env : Env) (hi : HandlerInfo W) (w : W) (info : Sockinfo) (p : Packet)
    (c future : List ℕ)
    → Sendable p
    → Grants (start env)
    → IsRealloc env.realloc
    → IsRead (env.read info.in_end.fd)
    → has_pollin info.revents ≡ true
    → Holds info.in_end.buf c
    → length info.in_end.buf.mem * 2 < size_mod
    → ((room : ℕ) (bytes : List ℕ)
        → env.read info.in_end.fd room ≡ some bytes
        → (rest : List ℕ) × ((c ++ bytes) ++ rest ≡ packet_bytes p ++ future))
    → Deleted w info env c (handle_pkt_rd env hi w info)
      ⊎ (Waits w info (packet_bytes p) c (handle_pkt_rd env hi w info)
          ⊎ Delivers w info hi (packet_bytes p) (arrives p) c (handle_pkt_rd env hi w info))
handle_pkt_rd-Receives env hi w info p c future v =
    handle_pkt_rd-Step env hi w info (Sendable-Reads p v) c future
