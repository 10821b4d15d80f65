-- ===== src/Client/Rsrc/Bounds.antt =====
-- What client_rsrc_read of src/client/middfs-client-rsrc.c may do to the buffer.
use middfs.Common.{ℕ, zero, suc, ◌-◌, ◌^◌, ◌≤◌, ◌<◌, ◌≡◌, refl, sym, ap, ◌∙◌, arith, List, ◌++◌}
use middfs.Common.{none, some, length, take, drop, ◌==◌, ◌||◌, not}
use middfs.Common.{ℤ, pos, negsuc, as_int, Bool-cases, Option, inl, inr, length-append, length-drop}
use middfs.Common.{as_int_small, length-take, drop-append_ge, drop-drop}
use mathlib.Core.Path.{subst}
use middfs.Errno.{minus, eio}
use middfs.Util.{smin, memcpy, peek_fits, poke_fits}
use middfs.Pkt.{Packet}
use middfs.Pkt.Kinds.{mpkt_magic_value, mpkt_response_type, mrsp_data_type, mrsp_error_type}
use middfs.Serial.Valid.{HasBytes}
use middfs.Client.Exchange.{negated32}
use middfs.Client.Exchange.Sending.{negated32-minus}
use middfs.Client.Rsrc.Content.{read_response}

-- A number of bytes that is at most `size`, or a negative result.
abbrev pub AtMost : ℕ → ℤ → Type 0
AtMost size (pos n) = n ≤ size
AtMost size (negsuc n) = Unit

-- The bytes from `size` on are untouched, and there are as many as before.
abbrev pub Inside : ℕ → List ℕ → List ℕ → Type 0
Inside size before after = (length after ≡ length before) × (drop size after ≡ drop size before)

negated32-AtMost : (size e : ℕ) → e < 2 ^ 31 → AtMost size (negated32 e)
unfolding negated32
negated32-AtMost size zero h = omega arith
negated32-AtMost size (suc n) h = subst (AtMost size) (sym (negated32-minus n h)) tt

as_int-AtMost : (size n : ℕ) → n ≤ size → size < 2 ^ 31 → AtMost size (as_int n)
as_int-AtMost size n h small = subst (AtMost size) (sym (as_int_small n (omega arith))) h

poke-Inside :
    (size : ℕ) (bytes buf : List ℕ)
    → length bytes ≤ size
    → size ≤ length buf
    → Inside size buf (bytes ++ drop (length bytes) buf)
poke-Inside size bytes buf fits room = (
  omega (arith, length-append bytes (drop (length bytes) buf), length-drop (length bytes) buf),
  drop-append_ge size bytes (drop (length bytes) buf) fits
      ∙ drop-drop (length bytes) (size - length bytes) buf
      ∙ ap (λ k. drop k buf) (omega arith),
)

smin_left : (s1 s2 : ℕ) → smin s1 s2 ≤ s1
smin_left s1 s2 = ground arith

smin_right : (s1 s2 : ℕ) → smin s1 s2 ≤ s2
smin_right s1 s2 = ground arith

HasBytes-front : (src : Option (List ℕ)) (n k : ℕ) → HasBytes src n → k ≤ n → HasBytes src k
HasBytes-front none n k h l = omega arith
HasBytes-front (some block) n k h l = omega arith

memcpy-Inside :
    (size k : ℕ) (buf : List ℕ) (src : Option (List ℕ))
    → HasBytes src k
    → k ≤ size
    → size ≤ length buf
    → (after : List ℕ) × (memcpy buf src k ≡ some after) × Inside size buf after
unfolding memcpy
memcpy-Inside size k buf none h fits room = (buf, rw h refl, (refl, refl))
memcpy-Inside size k buf (some block) h fits room = elim (Bool-cases (k == 0)) [
  | inl e ↦ (buf, rw e refl, (refl, refl))
  | inr e ↦
      let cut : length (take k block) ≡ k = omega (arith, length-take k block) in
      let inside = poke-Inside size (take k block) buf (omega (arith, cut)) room in
      (
        take k block ++ drop (length (take k block)) buf,
        rw (e, peek_fits block k h, poke_fits (take k block) buf (omega (arith, cut))) refl,
        inside,
      )
]

-- Whatever packet the network gives, if the bytes that it claims are there and its error number is
-- below 2 ^ 31, reading into a buffer of `size` bytes or more, below 2 ^ 31, does not stop. The
-- result is negative or a number of bytes up to `size`, and no byte is written from `size` on.
pub read_response-Inside :
    (in_pkt : Packet) (buf : List ℕ) (size : ℕ)
    → HasBytes in_pkt.mpkt_response.mrsp_data.mdata_buf in_pkt.mpkt_response.mrsp_data.mdata_nbytes
    → in_pkt.mpkt_response.mrsp_error < 2 ^ 31
    → size ≤ length buf
    → size < 2 ^ 31
    → (retv : ℤ) × (after : List ℕ) × (read_response in_pkt buf size ≡ some (retv, after))
      × AtMost size retv
      × Inside size buf after
unfolding read_response
read_response-Inside in_pkt buf size has low room small =
    let rsp = in_pkt.mpkt_response in
    let k = smin size rsp.mrsp_data.mdata_nbytes in
    let bad =
      not (in_pkt.mpkt_magic == mpkt_magic_value) || not (in_pkt.mpkt_type == mpkt_response_type) in
    let (after, e, inside) =
      memcpy-Inside size k buf rsp.mrsp_data.mdata_buf
        (HasBytes-front _ _ k has (smin_right size _)) (smin_left size rsp.mrsp_data.mdata_nbytes)
        room in
    elim (Bool-cases bad) [
      | inl b ↦ (minus eio, buf, rw b refl, tt, (refl, refl))
      | inr b ↦ elim (Bool-cases (rsp.mrsp_type == mrsp_data_type)) [
        | inl d ↦ (
          as_int k,
          after,
          rw (b, d, e) refl,
          as_int-AtMost size k (smin_left size _) small,
          inside,
        )
        | inr d ↦ elim (Bool-cases (rsp.mrsp_type == mrsp_error_type)) [
          | inl f ↦ (
            negated32 rsp.mrsp_error,
            buf,
            rw (b, d, f) refl,
            negated32-AtMost size rsp.mrsp_error low,
            (refl, refl),
          )
          | inr f ↦ (minus eio, buf, rw (b, d, f) refl, tt, (refl, refl))
        ]
      ]
    ]
