-- ===== src/Buf/Stream.antt =====
-- buffer_deserialize of src/lib/middfs-buf.c: it takes one value from the front of the contents
-- when all of it has arrived, and leaves the buffer alone while some of it is missing.
use middfs.Common.{ℕ, ◌*◌, ◌≤◌, ◌<◌, ◌≡◌, refl, ap, ◌∙◌, arith, List, ◌++◌}
use middfs.Common.{true, some, length}
use middfs.Common.{le→leb, lt→leb_false, length-append, append_assoc, drop-append}
use middfs.Common.{pos}
use middfs.Serial.Reader.{DState, IsOk, Deserializer, Asks, Gives, Reads}
use middfs.Buf.{Buffer, buffer_used, buffer_shift, buffer_deserialize}
use middfs.Buf.Contents.{Holds, Holds-ptr_le, buffer_shift-Holds}

-- No allocation fails.
abbrev pub Grants : DState → Type 0
Grants st = (k : ℕ) → st.grants k ≡ true

abbrev pub no_error_yet : DState → DState
no_error_yet st = record st { err = 0 }

pub fresh_ok : (st : DState) → Grants st → IsOk (no_error_yet st)
fresh_ok st g = record { no_err = refl; granted = g }

module _ {S : Type 0} {f : Deserializer S} {s v : S} {out : List ℕ} (w : Reads f s out v) where
  pub whole_call :
      (st : DState) (buf : Buffer) (more : List ℕ)
      → Grants st
      → Holds buf (out ++ more)
      → Gives (length out) v (f s buf.mem buf.ptr (no_error_yet st))
  whole_call st buf more g h =
      let l = Holds-ptr_le h in
      let l1 = length-append out more in
      let e : buf.mem ≡ out ++ (more ++ h.free) = h.mem_is ∙ append_assoc out more h.free in
      rw e (
        w.whole (more ++ h.free) buf.ptr (no_error_yet st) (fresh_ok st g) (omega (arith, h.ptr_is))
          (omega (arith, ap length e)))

  pub part_call :
      (st : DState) (buf : Buffer) (c back : List ℕ)
      → Grants st
      → Holds buf c
      → out ≡ c ++ back
      → 0 < length back
      → Asks (2 * length out) buf.ptr (f s buf.mem buf.ptr (no_error_yet st))
  part_call st buf c back g h e i =
      rw (h.mem_is, h.ptr_is) (w.part c back h.free (no_error_yet st) (fresh_ok st g) e i)

  -- When the contents begin with the whole wire form, `buffer_deserialize` returns 0 with the value
  -- that the form stands for, and exactly the form's bytes are gone from the contents.
  pub buffer_deserialize-whole :
      (st : DState) (buf : Buffer) (more : List ℕ)
      → Grants st
      → Holds buf (out ++ more)
      → (after : Buffer) × (buffer_deserialize f s st buf ≡ some (pos 0, v, after))
        × Holds after more
  unfolding buffer_deserialize buffer_used
  buffer_deserialize-whole st buf more g h =
      let y = whole_call st buf more g h in
      let l : length out ≤ buf.ptr = omega (arith, h.ptr_is, length-append out more) in
      (
        buffer_shift buf (length out),
        rw (y.returns, y.ok.no_err, le→leb (length out) buf.ptr l),
        (rw (drop-append (length out) out more refl) at
            (buffer_shift-Holds buf (out ++ more) (length out) h)),
      )

  -- While a part of the form is missing, `buffer_deserialize` returns 1 and the buffer is the same.
  pub buffer_deserialize-part :
      (st : DState) (buf : Buffer) (c back : List ℕ)
      → Grants st
      → Holds buf c
      → out ≡ c ++ back
      → 0 < length back
      → (partial : S) × (buffer_deserialize f s st buf ≡ some (pos 1, partial, buf))
  unfolding buffer_deserialize buffer_used
  buffer_deserialize-part st buf c back g h e i =
      let y : Asks (2 * length out) buf.ptr (f s buf.mem buf.ptr (no_error_yet st)) =
        part_call st buf c back g h e i in
      (y.value, rw (y.returns, y.ok.no_err, lt→leb_false y.used buf.ptr y.asks_more))
