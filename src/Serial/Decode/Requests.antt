-- ===== src/Serial/Decode/Requests.antt =====
-- deserialize_request reads what a request's wire form says, and asks for more on each front part.
use middfs.Common.{ℕ, ◌^◌, ◌<◌, ◌≡◌, refl, sym, ap, ◌∙◌, arith}
use middfs.Common.{List, [], ◌++◌, append_assoc, append-nil, Bool, true, false, some}
use middfs.Common.{if◌then◌else◌, length, length-append, IsU64}
use middfs.Common.{le→leb, lt→leb_false, take-append}
use middfs.Util.{peek_fits}
use middfs.Pkt.{Request}
use middfs.Pkt.Kinds.{req_has_mode, req_has_size, req_has_to, req_has_off, req_has_data}
use middfs.Serial.Format.{be32, be64, sign_extend, optional, text_bytes, block_bytes, rsrc_bytes}
use middfs.Serial.Format.{request_bytes}
use middfs.Serial.Valid.{IsRequest}
use middfs.Serial.Encode.Basic.{length-block_bytes}
use middfs.Serial.Reader.{allocate, Reads, ◌<+◌, resume, finish, when}
use middfs.Serial.Reader.Then.{then-Reads, resumed-Reads}
use middfs.Serial.Reader.Forms.{bail-Reads, finish-Reads, member-Reads, resume-Reads, when-Reads}
use middfs.Serial.Reader.Forms.{switch-Reads, checked_to-Reads}
use middfs.Serial.Decode.{request_head, request_fields, request_block, deserialize_request}
use middfs.Serial.Decode.Received.{received_fields, received_request}
use middfs.Serial.Decode.Basic.{IsShort, IsShort-left, IsShort-right, uint32-Reads, int32-Reads}
use middfs.Serial.Decode.Basic.{uint64-Reads, str-Reads, rsrc-Reads, allocate_ok}

-- Cutting an integer to 32 bits and extending it again gives a uint64, and keeps what is below 2 ^ 31.
pub sign_extend-IsU64 : (x : ℕ) → IsU64 (sign_extend x)
unfolding sign_extend
sign_extend-IsU64 x = ground arith

pub sign_extend_small : (x : ℕ) → x < 2 ^ 31 → sign_extend x ≡ x
unfolding sign_extend
sign_extend_small x h = ground arith

optional-IsShort : (b : Bool) (out : List ℕ) → b ≡ true → IsShort (optional b out) → IsShort out
unfolding optional
optional-IsShort true out e h = h
optional-IsShort false out e h = cc

-- Bytes that are read behind a size are those of the block.
block-Reads :
    (s : Request) (out : List ℕ)
    → length out ≡ s.mreq_size
    → Reads request_block s out (record s { mreq_data = some out })
unfolding request_block allocate
block-Reads s out e = record {
  whole = λ rest n st ok i j. record {
    state = (allocate st).1;
    returns =
        rw
          (
            le→leb s.mreq_size n (omega arith),
            ok.granted 0,
            peek_fits (out ++ rest) s.mreq_size (omega (arith, length-append out rest)),
            take-append s.mreq_size out rest (sym e),
          )
          (ap (λ u. some (u, record s { mreq_data = some out }, (allocate st).1)) (sym e));
    ok = (allocate_ok ok).1;
  };
  part = λ front back rest st ok h i.
      let l1 = ap length h in
      let l2 = length-append front back in
      record {
        used = s.mreq_size;
        value = s;
        state = st;
        returns = rw (lt→leb_false s.mreq_size (length front) (omega arith));
        ok = ok;
        asks_more = omega arith;
        asks_bound = omega arith;
      };
}

prefix_more :
    (a : List ℕ) (out : List ℕ) (c : List ℕ)
    → (b : List ℕ) × (out ≡ a ++ b)
    → (b : List ℕ) × (out ++ c ≡ a ++ b)
prefix_more a out c (b, e) = (b ++ c, ap (λ t. t ++ c) e ∙ append_assoc a b c)

module _ (r : Request) where
  abbrev head_bytes : List ℕ
  head_bytes = (be32 r.mreq_type ++ text_bytes r.mreq_requester) ++ rsrc_bytes r.mreq_rsrc

  abbrev fields_bytes : List ℕ
  fields_bytes =
      (((head_bytes ++ optional (req_has_mode r.mreq_type) (be32 r.mreq_mode))
          ++ optional (req_has_size r.mreq_type) (be64 (sign_extend r.mreq_size)))
        ++ optional (req_has_to r.mreq_type) (rsrc_bytes r.mreq_to))
      ++ optional (req_has_off r.mreq_type) (be64 (sign_extend r.mreq_off))

  split_fields : (b : List ℕ) × (request_bytes r ≡ fields_bytes ++ b)
  unfolding request_bytes
  split_fields = (optional (req_has_data r.mreq_type) (block_bytes r.mreq_data r.mreq_size), refl)

  split_head : (b : List ℕ) × (request_bytes r ≡ head_bytes ++ b)
  unfolding request_bytes
  split_head = prefix_more _ _ _ (
      prefix_more _ _ _ (
        prefix_more _ _ _
          (prefix_more _ _ _ (prefix_more head_bytes _ _ ([], sym (append-nil head_bytes))))))

module _ (r : Request) (v : IsRequest r) where
  abbrev after_head : Request → Request
  after_head s = record s {
    mreq_type = r.mreq_type;
    mreq_requester = r.mreq_requester;
    mreq_rsrc = r.mreq_rsrc;
  }

  head-Reads :
      (s : Request) → IsShort (head_bytes r) → Reads request_head s (head_bytes r) (after_head s)
  unfolding request_head
  head-Reads s f3 =
      let f2 = IsShort-left _ _ f3 in
      then-Reads (λ t. record t { mreq_rsrc = r.mreq_rsrc })
        (then-Reads (λ t. record t { mreq_requester = r.mreq_requester })
          (then-Reads (λ t. record t { mreq_type = r.mreq_type }) (resume-Reads s [])
            (λ t. member-Reads _ _ (uint32-Reads r.mreq_type t.mreq_type v.type_in))
            (IsShort-left _ _ f2))
          (λ t. member-Reads _ _ (
            str-Reads r.mreq_requester t.mreq_requester v.requester_in
              (IsShort-right (be32 r.mreq_type) _ f2)))
          f2)
        (λ t. member-Reads _ _ (
          rsrc-Reads r.mreq_rsrc t.mreq_rsrc v.rsrc_in
            (IsShort-right (be32 r.mreq_type ++ text_bytes r.mreq_requester) _ f3)))
        f3

  fields-Reads :
      (s : Request)
      → IsShort (fields_bytes r)
      → Reads
          (request_fields (length (head_bytes r)) r.mreq_type)
          (after_head s)
          (fields_bytes r)
          (received_fields s r)
  unfolding request_fields received_fields
  fields-Reads s f7 =
      let f6 = IsShort-left _ _ f7 in
      let f5 = IsShort-left _ _ f6 in
      let f4 = IsShort-left _ _ f5 in
      let has_mode = req_has_mode r.mreq_type in
      let has_size = req_has_size r.mreq_type in
      let has_to = req_has_to r.mreq_type in
      let has_off = req_has_off r.mreq_type in
      then-Reads (λ t. if has_off then record t { mreq_off = sign_extend r.mreq_off } else t)
        (then-Reads (λ t. if has_to then record t { mreq_to = r.mreq_to } else t)
          (then-Reads
            (λ t. if has_size then record t { mreq_size = sign_extend r.mreq_size } else t)
            (then-Reads (λ t. if has_mode then record t { mreq_mode = r.mreq_mode } else t)
              (resume-Reads (after_head s) (head_bytes r))
              (λ t.
                when-Reads has_mode
                  (λ e. member-Reads _ _ (int32-Reads r.mreq_mode t.mreq_mode v.mode_in)))
              f4)
            (λ t.
              when-Reads has_size (λ e.
                member-Reads _ _ (uint64-Reads _ t.mreq_size (sign_extend-IsU64 r.mreq_size))))
            f5)
          (λ t. when-Reads has_to (λ e. member-Reads _ _ (
            rsrc-Reads r.mreq_to t.mreq_to (v.to_in e)
              (optional-IsShort has_to _ e (IsShort-right _ _ f6)))))
          f6)
        (λ t.
          when-Reads has_off
            (λ e. member-Reads _ _ (uint64-Reads _ t.mreq_off (sign_extend-IsU64 r.mreq_off))))
        f7

  block_size :
      (s : Request)
      → req_has_data r.mreq_type ≡ true
      → (received_fields s r).mreq_size ≡ sign_extend r.mreq_size
  unfolding received_fields req_has_data req_has_size req_has_mode req_has_to req_has_off
  block_size s e = ground arith

  tail-Reads :
      (s : Request)
      → (req_has_data r.mreq_type ≡ true → r.mreq_size < 2 ^ 31)
      → IsShort (request_bytes r)
      → Reads
          (finish
            (resume (length (fields_bytes r)) <+ when (req_has_data r.mreq_type) request_block))
          (received_fields s r)
          (request_bytes r)
          (received_request s r)
  unfolding received_request request_bytes
  tail-Reads s small f8 = finish-Reads (
      resumed-Reads (fields_bytes r)
        (when-Reads (req_has_data r.mreq_type) (λ e.
          block-Reads (received_fields s r) (block_bytes r.mreq_data r.mreq_size) (
            length-block_bytes r.mreq_data r.mreq_size (v.data_in e)
            ∙ sym (block_size s e ∙ sign_extend_small r.mreq_size (small e)))))
        f8)

  -- `deserialize_request` reads the wire form of a valid request; data must be below 2 ^ 31 bytes.
  pub request-Reads :
      (s : Request)
      → (req_has_data r.mreq_type ≡ true → r.mreq_size < 2 ^ 31)
      → IsShort (request_bytes r)
      → Reads deserialize_request s (request_bytes r) (received_request s r)
  unfolding deserialize_request
  request-Reads s small f8 =
      let f7 : IsShort (fields_bytes r) = unfold request_bytes in IsShort-left _ _ f8 in
      let f3 : IsShort (head_bytes r) =
        IsShort-left _ _ (IsShort-left _ _ (IsShort-left _ _ (IsShort-left _ _ f7))) in
      bail-Reads (
        checked_to-Reads _ (split_head r) (head-Reads s f3) (
          switch-Reads _
            (checked_to-Reads _ (split_fields r) (fields-Reads s f7) (tail-Reads s small f8))))
