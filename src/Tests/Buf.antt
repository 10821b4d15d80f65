-- ===== src/Tests/Buf.antt =====
-- The theorems on buffers and connections at concrete inputs.
use middfs.Common.{
  ℕ, ◌+◌, ◌≤◌, ◌<◌, ◌≡◌, refl, sym, ap, ◌∙◌, arith, List, [], ◌∷◌, ◌++◌, append_assoc, append-nil,
  true, false,
}
use middfs.Common.{
  Option, none, some, length, take, drop, ltb, if◌then◌else◌, ◌⊎◌, inl, inr, ℤ, pos, minus_one,
}
use middfs.Common.{Bool-cases, ltb→lt, length-take, length-drop, take-append-drop}
use mathlib.Core.Option.{some-injective}
use middfs.Pkt.{Packet, zero_packet}
use middfs.Serial.Format.{packet_bytes}
use middfs.Serial.Encode.{serialize_pkt}
use middfs.Serial.Encode.Packets.{serialize_pkt-Writes}
use middfs.Serial.Decode.{deserialize_pkt}
use middfs.Serial.Decode.Packets.{pkt-Reads}
use middfs.Buf.{
  Buffer, buffer_serialize, buffer_deserialize, buffer_read, buffer_write, buffer_copy,
  buffer_resize,
}
use middfs.Buf.Contents.{NoMemory, Holds, Resized, buffer_resize-Holds, buffer_write-Holds}
use middfs.Buf.Transfer.{IsRead, buffer_read-Holds, buffer_copy-Holds}
use middfs.Buf.Serialize.{Appends, buffer_serialize-Appends}
use middfs.Buf.Stream.{buffer_deserialize-whole, buffer_deserialize-part}
use middfs.Sock.{
  Sockinfo, Socks, pack_loop, move_to, first_open, closed_sockinfo, mfd_pkt_in, mfd_lstn, mss_lstn,
  mss_reqrd, middfs_sockend_init, middfs_socks_add, middfs_socks_pack,
}
use middfs.Sock.Poll.{Pollfd, middfs_socks_pollfds, middfs_socks_pollfds-agree}
use middfs.Sock.Array.{IsSocks, middfs_socks_add-IsSocks, leading, middfs_socks_pack-leading}
use middfs.Conn.{Env, HandlerInfo, hs_del, hs_suc, handle_pkt_rd}
use middfs.Conn.Reading.{Deleted, Waits, Delivers, arrives, handle_pkt_rd-Receives}
use middfs.Tests.Library.{always, always-IsRealloc}
use middfs.Tests.Data.{
  write_pkt, write_pkt-IsPacket, write_pkt-length, ok_state, small_buffer, small_buffer-Holds,
}

abbrev held : List ℕ
held = 8 ∷ 9 ∷ []

buffer_serialize-Appends_example :
    Appends always
      (buffer_serialize always 40 (serialize_pkt write_pkt) small_buffer)
      held
      (packet_bytes write_pkt)
buffer_serialize-Appends_example =
    buffer_serialize-Appends always always-IsRealloc
      (serialize_pkt-Writes write_pkt write_pkt-IsPacket (omega (arith, write_pkt-length))) 40
      small_buffer held small_buffer-Holds (omega (arith, write_pkt-length))
      (omega (arith, write_pkt-length))

buffer_resize-Holds_example :
    Resized always (buffer_resize always small_buffer 1) small_buffer (take 1 held) 1
buffer_resize-Holds_example =
    buffer_resize-Holds always always-IsRealloc small_buffer held 1 small_buffer-Holds

abbrev take_one : List ℕ → Option ℕ
take_one out = some 1

buffer_write-Holds_example :
    ((take_one held ≡ none) × (buffer_write take_one small_buffer ≡ some (minus_one, small_buffer)))
    ⊎ ((k : ℕ) × (after : Buffer) × (take_one held ≡ some k)
        × (buffer_write take_one small_buffer ≡ some (pos k, after))
        × Holds after (drop k held))
buffer_write-Holds_example = buffer_write-Holds take_one small_buffer held small_buffer-Holds

-- A source that always has a byte 5.
abbrev read_five : ℕ → Option (List ℕ)
read_five room = if ltb 0 room then some (5 ∷ []) else some []

read_five-IsRead : IsRead read_five
read_five-IsRead room bytes e = ground arith

buffer_read-Holds_example :
    (after : Buffer) × (((buffer_read always read_five small_buffer ≡ some (minus_one, after))
        × Holds after held
        × (NoMemory always ⊎ ((room : ℕ) × (0 < room) × (read_five room ≡ none))))
      ⊎ ((room : ℕ) × (bytes : List ℕ) × (0 < room)
          × (read_five room ≡ some bytes)
          × (buffer_read always read_five small_buffer ≡ some (pos (length bytes), after))
          × Holds after (held ++ bytes)))
buffer_read-Holds_example =
    buffer_read-Holds always always-IsRealloc read_five read_five-IsRead small_buffer held
      small_buffer-Holds (omega arith)

buffer_copy-Holds_example :
    ((buffer_copy always small_buffer (3 ∷ 4 ∷ []) ≡ some (minus_one, small_buffer))
      × NoMemory always)
    ⊎ ((after : Buffer) × (buffer_copy always small_buffer (3 ∷ 4 ∷ []) ≡ some (pos 0, after))
        × Holds after (held ++ (3 ∷ 4 ∷ [])))
buffer_copy-Holds_example =
    buffer_copy-Holds always always-IsRealloc small_buffer held (3 ∷ 4 ∷ []) small_buffer-Holds
      (omega arith)

-- The packet's bytes and one byte of the next packet.
abbrev full_buffer : Buffer
full_buffer = record {
  mem = packet_bytes write_pkt ++ (7 ∷ []);
  ptr = length (packet_bytes write_pkt ++ (7 ∷ []));
}

full_buffer-Holds : Holds full_buffer (packet_bytes write_pkt ++ (7 ∷ []))
full_buffer-Holds = record { free = []; mem_is = sym (append-nil _); ptr_is = refl }

buffer_deserialize-whole_example :
    (after : Buffer) × (buffer_deserialize deserialize_pkt zero_packet ok_state full_buffer
      ≡ some (pos 0, arrives write_pkt, after))
    × Holds after (7 ∷ [])
buffer_deserialize-whole_example =
    buffer_deserialize-whole
      (pkt-Reads zero_packet write_pkt write_pkt-IsPacket (λ _ _. tt) (λ e d. omega arith)
        (omega (arith, write_pkt-length)))
      ok_state full_buffer (7 ∷ []) (λ k. refl) full_buffer-Holds

abbrev front : List ℕ
front = take 20 (packet_bytes write_pkt)

abbrev back : List ℕ
back = drop 20 (packet_bytes write_pkt)

abbrev part_buffer : Buffer
part_buffer = record { mem = front; ptr = length front }

part_buffer-Holds : Holds part_buffer front
part_buffer-Holds = record { free = []; mem_is = sym (append-nil _); ptr_is = refl }

buffer_deserialize-part_example :
    (partial : Packet) × (buffer_deserialize deserialize_pkt zero_packet ok_state part_buffer
      ≡ some (pos 1, partial, part_buffer))
buffer_deserialize-part_example =
    buffer_deserialize-part
      (pkt-Reads zero_packet write_pkt write_pkt-IsPacket (λ _ _. tt) (λ e d. omega arith)
        (omega (arith, write_pkt-length)))
      ok_state part_buffer front (drop 20 (packet_bytes write_pkt)) (λ k. refl) part_buffer-Holds
      (sym (take-append-drop 20 (packet_bytes write_pkt)))
      (omega (arith, length-drop 20 (packet_bytes write_pkt), write_pkt-length))

abbrev listener : Sockinfo
listener = record {
  type = mfd_lstn;
  state = mss_lstn;
  in_end = middfs_sockend_init (pos 3);
  out_end = middfs_sockend_init minus_one;
  revents = 0;
}

abbrev one_sock : Socks
one_sock = record { sockinfos = listener ∷ []; len = 1 }

middfs_socks_pollfds-agree_example :
    (n : ℕ) × (none_yet : List Pollfd) × (pfds : List Pollfd) × (n ≤ length one_sock.sockinfos)
    × (middfs_socks_pollfds 0 one_sock ≡ some (n, none_yet))
    × (middfs_socks_pollfds n one_sock ≡ some (n, pfds))
    × (length pfds ≡ n)
unfolding middfs_sockend_init
middfs_socks_pollfds-agree_example =
    middfs_socks_pollfds-agree one_sock (((λ e i. refl), (λ e i. cc)), tt)

middfs_socks_add-IsSocks_example :
    ((middfs_socks_add true listener one_sock ≡ (minus_one, one_sock))
      × (true ≡ false)
      × (length one_sock.sockinfos ≡ one_sock.len))
    ⊎ ((after : Socks) × (middfs_socks_add true listener one_sock ≡ (pos 0, after))
        × (after.sockinfos ≡ one_sock.sockinfos ++ (listener ∷ []))
        × IsSocks after)
middfs_socks_add-IsSocks_example =
    middfs_socks_add-IsSocks true listener one_sock (omega arith) (omega arith)

-- An open entry, a closed one, and an open one, which is moved, but not counted.
abbrev closed_listener : Sockinfo
closed_listener = record listener { in_end = middfs_sockend_init minus_one }

abbrev three_socks : Socks
three_socks = record { sockinfos = listener ∷ closed_listener ∷ listener ∷ []; len = 16 }

middfs_socks_pack-leading_example : middfs_socks_pack three_socks ≡ (
  length (leading three_socks.sockinfos),
  record three_socks { sockinfos = leading three_socks.sockinfos },
)
middfs_socks_pack-leading_example = middfs_socks_pack-leading three_socks

socks_pack_forgets : (middfs_socks_pack three_socks).0 ≡ 1
unfolding middfs_socks_pack pack_loop move_to first_open middfs_sockend_init closed_sockinfo
socks_pack_forgets = refl

-- A connection that has read the first part of the packet, and whose source has the rest, a byte at
-- a time.
abbrev next_byte : ℤ → ℕ → Option (List ℕ)
next_byte fd room = if ltb 0 room then some (take 1 back) else some []

abbrev test_env : Env
test_env = record {
  realloc = always;
  read = next_byte;
  write = λ fd out. some (length out);
  accept = λ fd. minus_one;
  close = λ fd. true;
  grants = λ k. true;
  junk = (7, 7);
  old_revents = 0;
  can_grow = true;
}

abbrev test_info : Sockinfo
test_info = record {
  type = mfd_pkt_in;
  state = mss_reqrd;
  in_end = record { fd = pos 4; buf = part_buffer; live = true };
  out_end = middfs_sockend_init minus_one;
  revents = 1;
}

abbrev test_handlers : HandlerInfo ℕ
test_handlers = record {
  rd_fin = λ w info pkt. some (hs_suc, info, w + 1);
  wr_fin = λ w info. some (hs_del, info, w);
}

next_byte-IsRead : IsRead (next_byte (pos 4))
next_byte-IsRead room bytes e = elim (Bool-cases (ltb 0 room)) [
  | inl t ↦
      omega (arith, ap length (some-injective _ _ (rw t at e)), length-take 1 back, ltb→lt 0 room t)
  | inr t ↦ omega (arith, ap length (some-injective _ _ (rw t at e)))
]

next_byte-stream :
    (room : ℕ) (bytes : List ℕ)
    → next_byte (pos 4) room ≡ some bytes
    → (rest : List ℕ) × ((front ++ bytes) ++ rest ≡ packet_bytes write_pkt ++ [])
next_byte-stream room bytes e = elim (Bool-cases (ltb 0 room)) [
  | inl t ↦
      let same = some-injective _ _ (rw t at e) in
      (
        drop 1 back,
        ap (λ b. (front ++ b) ++ drop 1 back) (sym same)
            ∙ append_assoc front (take 1 back) (drop 1 back)
            ∙ ap (λ b. front ++ b) (take-append-drop 1 back)
            ∙ take-append-drop 20 (packet_bytes write_pkt)
            ∙ sym (append-nil (packet_bytes write_pkt)),
      )
  | inr t ↦
      let same = some-injective _ _ (rw t at e) in
      (
        back,
        ap (λ b. (front ++ b) ++ back) (sym same)
            ∙ ap (λ b. b ++ back) (append-nil front)
            ∙ take-append-drop 20 (packet_bytes write_pkt)
            ∙ sym (append-nil (packet_bytes write_pkt)),
      )
]

handle_pkt_rd-Receives_example :
    Deleted 0 test_info test_env front (handle_pkt_rd test_env test_handlers 0 test_info)
    ⊎ (Waits 0 test_info
          (packet_bytes write_pkt)
          front
          (handle_pkt_rd test_env test_handlers 0 test_info)
        ⊎ Delivers 0 test_info test_handlers
            (packet_bytes write_pkt)
            (arrives write_pkt)
            front
            (handle_pkt_rd test_env test_handlers 0 test_info))
handle_pkt_rd-Receives_example =
    handle_pkt_rd-Receives test_env test_handlers 0 test_info write_pkt front []
      (write_pkt-IsPacket, (λ e d. omega arith), omega (arith, write_pkt-length)) (λ k. refl)
      always-IsRealloc next_byte-IsRead refl part_buffer-Holds
      (omega (arith, length-take 20 (packet_bytes write_pkt), write_pkt-length)) next_byte-stream
