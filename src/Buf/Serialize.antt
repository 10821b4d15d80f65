-- ===== src/Buf/Serialize.antt =====
-- buffer_serialize of src/lib/middfs-buf.c: its loop ends, and it appends the serialized bytes.
use middfs.Common.{ℕ, zero, suc, ◌+◌, ◌≤◌, ◌<◌, ◌≡◌, refl, sym, arith, List, ◌++◌}
use middfs.Common.{Option, some, ◌⊎◌, inl, inr, length, drop}
use middfs.Common.{le→leb, lt→ltb, le→ltb_false, length-append, length-drop, append_assoc}
use middfs.Common.{ℤ, pos, minus_one, size_mod, add_size}
use mathlib.Core.Path.{subst}
use native.Mathlib.Decide.{dec_le}
use middfs.Serial.Writer.{Serializer, Writes, Short}
use middfs.Buf.{Buffer, Realloc, IsRealloc, buffer_used, buffer_rem}
use middfs.Buf.{buffer_advance, serialize_loop, buffer_serialize}
use middfs.Buf.Contents.{
  NoMemory, Holds, Holds-ptr_le, Holds-rem, Holds-front, Holds-behind, buffer_resize_fits,
}

-- `buffer_serialize` fails with the contents kept, or appends `out`.
abbrev pub Appends : Realloc → Option (ℤ × Buffer) → List ℕ → List ℕ → Type 0
Appends realloc r c out =
    (after : Buffer) × (((r ≡ some (minus_one, after)) × Holds after c × NoMemory realloc)
      ⊎ ((r ≡ some (pos (length out), after)) × Holds after (c ++ out)))

module _ (realloc : Realloc) (law : IsRealloc realloc) {serialf : Serializer} {out : List ℕ}
    (w : Writes serialf out) where
  -- With room enough the bytes are written and the loop ends.
  last_round :
      (fuel : ℕ) (buf : Buffer) (c : List ℕ)
      → Holds buf c
      → length out ≤ buffer_rem buf
      → Appends realloc (serialize_loop realloc serialf (suc fuel) (buffer_rem buf) buf) c out
  unfolding serialize_loop
  last_round fuel buf c h fits =
      let n = Holds-rem h in
      let l = Holds-ptr_le h in
      let new = c ++ (out ++ drop (length out) h.free) in
      let written : Buffer = record { mem = new; ptr = buf.ptr } in
      let room : length out ≤ buffer_rem written =
        unfold buffer_rem in
        omega (
          arith,
          h.ptr_is,
          length-append c (out ++ drop (length out) h.free),
          length-append out (drop (length out) h.free),
          length-drop (length out) h.free,
        ) in
      let e = w.whole h.free (buffer_rem buf) (omega arith) fits in
      (
        record { mem = new; ptr = buf.ptr + length out },
        inr (
          rw (Holds-behind h, e, Holds-front h, le→ltb_false (buffer_rem buf) (length out) fits)
              (unfold buffer_advance in rw (le→leb (length out) (buffer_rem written) room)),
          record {
            free = drop (length out) h.free;
            mem_is = sym (append_assoc c out _);
            ptr_is = omega (arith, h.ptr_is, length-append c out);
          },
        ),
      )

  -- Without room enough the serializer asks for more, and the next round has what it asked for.
  next_round :
      (fuel : ℕ) (buf : Buffer) (c : List ℕ)
      → Holds buf c
      → buffer_rem buf < length out
      → length c + length out < size_mod
      → ((roomy : Buffer)
          → Holds roomy c
          → buffer_rem buf < buffer_rem roomy
          → Appends realloc (serialize_loop realloc serialf fuel (buffer_rem roomy) roomy) c out)
      → Appends realloc (serialize_loop realloc serialf (suc fuel) (buffer_rem buf) buf) c out
  unfolding serialize_loop buffer_used
  next_round fuel buf c h small fits again =
      let n = Holds-rem h in
      let s : Short out h.free (buffer_rem buf) (serialf h.free (buffer_rem buf)) =
        w.short h.free (buffer_rem buf) (omega arith) small in
      let written : Buffer = record { mem = c ++ s.after; ptr = buf.ptr } in
      let kept : Holds written c = record { free = s.after; mem_is = refl; ptr_is = h.ptr_is } in
      let bound = s.asks_bound in
      let more = s.asks_more in
      elim (buffer_resize_fits realloc law written c (add_size buf.ptr s.used) kept
        (omega (arith, h.ptr_is))) [
          | inl (failed, full) ↦ (
            written,
            inl (
              rw (
                Holds-behind h,
                s.returns,
                Holds-front h,
                lt→ltb (buffer_rem buf) s.used more,
                failed,
              ),
              kept,
              (_, _, full),
            ),
          )
          | inr (roomy, returns, holds, size) ↦
              let room : buffer_rem roomy ≡ s.used =
                omega (arith, Holds-rem holds, Holds-ptr_le holds, holds.ptr_is, h.ptr_is) in
              let go : serialize_loop realloc serialf (suc fuel) (buffer_rem buf) buf
                  ≡ serialize_loop realloc serialf fuel (buffer_rem roomy) roomy =
                rw (
                  Holds-behind h,
                  s.returns,
                  Holds-front h,
                  lt→ltb (buffer_rem buf) s.used more,
                  returns,
                  room,
                ) in
              subst (λ r. Appends realloc r c out) (sym go) (again roomy holds (omega arith))
        ]

  -- Every round without room enough makes more room, so that the loop ends.
  loop-Appends :
      (fuel : ℕ) (buf : Buffer) (c : List ℕ)
      → Holds buf c
      → 0 < fuel
      → length out < buffer_rem buf + fuel
      → length c + length out < size_mod
      → Appends realloc (serialize_loop realloc serialf fuel (buffer_rem buf) buf) c out
  loop-Appends zero buf c h some_fuel enough fits = absurd (omega arith)
  loop-Appends (suc fuel) buf c h some_fuel enough fits =
      elim (dec_le (length out) (buffer_rem buf)) [
        | yes room ↦ last_round fuel buf c h room
        | no short ↦
            next_round fuel buf c h (omega arith) fits
              (λ roomy holds more. loop-Appends fuel roomy c holds (omega arith) (omega arith) fits)
      ]

  -- The loop of `buffer_serialize` ends within `length out + 1` rounds, whatever the room was. The
  -- buffer then holds the bytes it held and those of `out` behind them, and the result is their
  -- number; or `realloc` failed, the result is -1, and the buffer holds what it held.
  pub buffer_serialize-Appends :
      (fuel : ℕ) (buf : Buffer) (c : List ℕ)
      → Holds buf c
      → length out < fuel
      → length c + length out < size_mod
      → Appends realloc (buffer_serialize realloc fuel serialf buf) c out
  unfolding buffer_serialize
  buffer_serialize-Appends fuel buf c h enough fits =
      loop-Appends fuel buf c h (omega arith) (omega arith) fits
