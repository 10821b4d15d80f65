-- ===== src/Client/Exchange/Sending.antt =====
-- packet_send of src/client/middfs-client-pkt.c sends the whole packet.
use middfs.Common.{
  ℕ, zero, suc, ◌+◌, ◌<◌, ◌≡◌, sym, ap, ◌∙◌, arith, List, [], ◌∷◌, ◌++◌, append_assoc, append-nil,
}
use middfs.Common.{true, false, none, some, length, take, drop, ◌==◌, ◌⊎◌, inl, inr}
use middfs.Common.{pos, negsuc, length-drop, take-append-drop, Bool-cases, size_mod}
use mathlib.Core.Option.{some-injective}
use middfs.Errno.{minus}
use middfs.Pkt.{Packet}
use middfs.Serial.Format.{packet_bytes}
use middfs.Serial.Valid.{IsPacket}
use middfs.Serial.Encode.Packets.{serialize_pkt-Writes}
use middfs.Buf.{Buffer, Realloc, IsRealloc, buffer_init, buffer_used, buffer_isempty}
use middfs.Buf.Contents.{NoMemory, Holds, Holds-front, buffer_init-Holds, buffer_write-Holds}
use middfs.Buf.Serialize.{buffer_serialize-Appends}
use middfs.Client.Exchange.{
  Link, send_loop, send_serialized, packet_send, response_validate, negated32,
}
use middfs.Pkt.Kinds.{mpkt_magic_value, mpkt_response_type, mrsp_error_type}
use middfs.Common.{◌^◌}

-- Every call of `write` with bytes to send takes at least one of them.
abbrev pub Flows : Link → Type 0
Flows link =
    (i : ℕ) (out : List ℕ) → 0 < length out → (k : ℕ) × (link.write i out ≡ some k) × (0 < k)

empty_test : (buf : Buffer) → Holds buf [] → buffer_isempty buf ≡ true
unfolding buffer_isempty buffer_used
empty_test buf h = ground (arith, h.ptr_is)

more_test : (buf : Buffer) (b : ℕ) (c : List ℕ) → Holds buf (b ∷ c) → buffer_isempty buf ≡ false
unfolding buffer_isempty buffer_used
more_test buf b c h = ground (arith, h.ptr_is)

-- The loop ends, and the bytes held are sent behind those sent before.
send_loop-all :
    (fuel : ℕ) (link : Link) (i : ℕ) (buf : Buffer) (c sent : List ℕ)
    → Flows link
    → Holds buf c
    → length c < fuel
    → send_loop fuel link i buf sent ≡ some (pos 0, sent ++ c)
unfolding send_loop
send_loop-all zero link i buf c sent flows h enough = absurd (omega arith)
send_loop-all (suc fuel) link i buf [] sent flows h enough =
    rw (empty_test buf h) (ap (λ l. some (pos 0, l)) (sym (append-nil sent)))
send_loop-all (suc fuel) link i buf (b ∷ c) sent flows h enough =
    let (k, e, some_bytes) = flows i (b ∷ c) (omega arith) in
    elim (buffer_write-Holds (link.write i) buf (b ∷ c) h) [
      | inl (e1, _) ↦ absurd (no_none (sym e1 ∙ e))
      | inr (k1, after, e1, returns, holds) ↦
          let same : k1 ≡ k = some-injective _ _ (sym e1 ∙ e) in
          let go : send_loop (suc fuel) link i buf sent
              ≡ send_loop fuel link (i + 1) after (sent ++ take k1 (b ∷ c)) =
            rw (more_test buf b c h, returns, Holds-front h, e1) in
          go
          ∙ send_loop-all fuel link (i + 1) after (drop k1 (b ∷ c)) (sent ++ take k1 (b ∷ c)) flows
              holds (omega (arith, length-drop k1 (b ∷ c)))
          ∙ ap (λ l. some (pos 0, l))
              (append_assoc sent (take k1 (b ∷ c)) (drop k1 (b ∷ c))
                ∙ ap (λ l. sent ++ l) (take-append-drop k1 (b ∷ c)))
    ]
  where
    no_none : {k : ℕ} → none ≡ some k → ⊥
    no_none h = cc

-- On a link that takes at least one byte in every call, `packet_send` ends for a valid packet that
-- is shorter than 2 ^ 64 bytes, with fuel above its length. It returns 0 and has sent exactly the
-- wire form of the packet, or memory ran out, the result is -ENOMEM, and nothing has been sent.
pub packet_send-all :
    (realloc : Realloc) (fuel : ℕ) (link : Link) (p : Packet)
    → IsRealloc realloc
    → Flows link
    → IsPacket p
    → length (packet_bytes p) < fuel
    → length (packet_bytes p) < size_mod
    → ((packet_send realloc fuel fuel link p ≡ some (minus 12, [])) × NoMemory realloc)
      ⊎ (packet_send realloc fuel fuel link p ≡ some (pos 0, packet_bytes p))
unfolding packet_send send_serialized
packet_send-all realloc fuel link p law flows v enough fits =
    let (buf, cases) =
      buffer_serialize-Appends realloc law (serialize_pkt-Writes p v fits) fuel buffer_init []
        buffer_init-Holds enough (omega arith) in
    elim cases [
      | inl (returns, kept, full) ↦ inl (rw returns, full)
      | inr (returns, holds) ↦
          inr (rw returns (send_loop-all fuel link 0 buf (packet_bytes p) [] flows holds enough))
    ]

-- Only 0 has the negation 0.
negated32_zero : (x : ℕ) → x < 2 ^ 32 → negated32 x ≡ pos 0 → x ≡ 0
unfolding negated32
negated32_zero x small h = ground arith

-- A positive number has its negation.
pub negated32-minus : (n : ℕ) → suc n < 2 ^ 31 → negated32 (suc n) ≡ negsuc n
unfolding negated32
negated32-minus n h = ground arith

-- When `response_validate` accepts a packet, the packet has the magic number and is a response of
-- the expected type, unless it is an error response with the error 0, which is accepted as any type.
pub response_validate_lem :
    (pkt : Packet) (type : ℕ)
    → pkt.mpkt_response.mrsp_error < 2 ^ 32
    → response_validate pkt type ≡ pos 0
    → (pkt.mpkt_magic ≡ mpkt_magic_value)
      × (pkt.mpkt_type ≡ mpkt_response_type)
      × ((pkt.mpkt_response.mrsp_type ≡ type)
          ⊎ ((pkt.mpkt_response.mrsp_type ≡ mrsp_error_type) × (pkt.mpkt_response.mrsp_error ≡ 0)))
unfolding response_validate
response_validate_lem pkt type small h = elim (Bool-cases (pkt.mpkt_magic == mpkt_magic_value)) [
  | inr m ↦ absurd (not_zero (rw m at h))
  | inl m ↦ elim (Bool-cases (pkt.mpkt_type == mpkt_response_type)) [
    | inr t ↦ absurd (not_zero (rw (m, t) at h))
    | inl t ↦ elim (Bool-cases (pkt.mpkt_response.mrsp_type == type)) [
      | inl r ↦ (ground arith, ground arith, inl (ground arith))
      | inr r ↦ elim (Bool-cases (pkt.mpkt_response.mrsp_type == mrsp_error_type)) [
        | inl e ↦ (
          ground arith,
          ground arith,
          inr (ground arith, negated32_zero _ small (rw (m, t, r, e) at h)),
        )
        | inr e ↦ absurd (not_zero (rw (m, t, r, e) at h))
      ]
    ]
  ]
]
  where
    not_zero : negsuc 4 ≡ pos 0 → ⊥
    not_zero e = cc
