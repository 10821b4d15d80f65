-- ===== src/Buf/Growth.antt =====
-- How far buffer_read of src/lib/middfs-buf.c lets a buffer grow.
use middfs.Common.{ℕ, ◌*◌, ◌%◌, ◌≤◌, ◌<◌, ◌≡◌, ap, arith, List, ◌==◌}
use middfs.Common.{Option, some, inl, inr, length, ℤ, size_mod, Bool-cases, Option-cases}
use mathlib.Core.Path.{subst}
use mathlib.Core.Option.{some-injective}
use middfs.Util.{smax}
use middfs.Buf.{
  Buffer, Realloc, IsRealloc, buffer_size, buffer_rem, buffer_increase, take_bytes, buffer_read,
}
use middfs.Buf.Contents.{
  Holds, Holds-ptr_le, Holds-rem, append-Holds, buffer_increase-Holds, buffer_resize_fits,
}
use middfs.Buf.Transfer.{IsRead}

buffer_increase_size :
    (realloc : Realloc) (law : IsRealloc realloc) (buf : Buffer) (c : List ℕ) (n : ℕ)
    → Holds buf c
    → length c < n
    → length buf.mem ≤ 2 * n
    → 4 * n < size_mod
    → length ((buffer_increase realloc buf).1).mem ≤ 2 * n
unfolding buffer_increase buffer_size
buffer_increase_size realloc law buf c n h part small fits =
    elim (Bool-cases (buffer_rem buf == 0)) [
      | inr e ↦ rw e small
      | inl e ↦
          let newsize = smax 1 (length buf.mem * 2 % size_mod) in
          let l = Holds-ptr_le h in
          let full : length h.free ≡ 0 = ground (arith, Holds-rem h) in
          let at_most : newsize ≤ 2 * n = ground (arith, h.ptr_is) in
          let at_least : length c ≤ newsize = ground (arith, h.ptr_is) in
          elim (buffer_resize_fits realloc law buf c newsize h at_least) [
            | inl (failed, full) ↦ rw (e, failed) small
            | inr (after, returns, holds, size) ↦ rw (e, returns) (omega (arith, size, at_most))
          ]
    ]

abbrev result_buf : ℤ × Buffer → Buffer
result_buf r = r.1

same_buf :
    {r s : ℤ} {buf after : Buffer}
    → ◌≡◌ {A = Option (ℤ × Buffer)} (some (r, buf)) (some (s, after))
    → buf ≡ after
same_buf h = ap result_buf (some-injective _ _ h)

-- While fewer than `n` bytes are held, in a block of at most twice `n`, the block stays that small.
pub buffer_read_size :
    (realloc : Realloc) (law : IsRealloc realloc) (read : ℕ → Option (List ℕ)) (ok : IsRead read)
    (buf : Buffer) (c : List ℕ) (n : ℕ) (r : ℤ) (after : Buffer)
    → Holds buf c
    → length c < n
    → length buf.mem ≤ 2 * n
    → 4 * n < size_mod
    → buffer_read realloc read buf ≡ some (r, after)
    → length after.mem ≤ 2 * n
unfolding buffer_read take_bytes
buffer_read_size realloc law read ok buf c n r after h part small fits e =
    let grown = buffer_increase_size realloc law buf c n h part small fits in
    elim (buffer_increase-Holds realloc law buf c h (omega arith)) [
      | inl (failed, full) ↦ subst (λ b. length b.mem ≤ 2 * n) (same_buf (rw failed at e)) small
      | inr (roomy, returns, holds, room) ↦
          let size : length roomy.mem ≤ 2 * n = rw returns at grown in
          elim (Option-cases (read (buffer_rem roomy))) [
            | inl k ↦ subst (λ b. length b.mem ≤ 2 * n) (same_buf (rw (returns, k) at e)) size
            | inr (bytes, k) ↦
                let (written, last, e1, e2, holds1, same) =
                  append-Holds roomy c bytes holds (ok _ bytes k) in
                subst (λ b. length b.mem ≤ 2 * n) (same_buf (rw (returns, k, e1, e2) at e))
                  (omega (arith, same, size))
          ]
    ]
