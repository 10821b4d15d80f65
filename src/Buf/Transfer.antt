-- ===== src/Buf/Transfer.antt =====
-- buffer_read and buffer_copy of src/lib/middfs-buf.c append to the contents of the buffer.
use middfs.Common.{none, ℕ, ◌+◌, ◌*◌, ◌≤◌, ◌<◌, ◌≡◌, refl, arith, List, ◌++◌}
use middfs.Common.{Option, some, ◌⊎◌, inl, inr, length, ltb}
use middfs.Common.{pos, minus_one, size_mod, add_size, Bool-cases, Option-cases}
use middfs.Buf.{Buffer, Realloc, IsRealloc, buffer_size, buffer_rem}
use middfs.Buf.{take_bytes, buffer_read, copy_into, buffer_copy}
use middfs.Buf.Contents.{
  NoMemory, Holds, Holds-ptr_le, Holds-rem, append-Holds, buffer_increase-Holds, buffer_resize_fits,
}

-- `read` stores at most the bytes that there is room for.
abbrev pub IsRead : (ℕ → Option (List ℕ)) → Type 0
IsRead read = (room : ℕ) (bytes : List ℕ) → read room ≡ some bytes → length bytes ≤ room

take_bytes-Holds :
    (buf : Buffer) (c bytes : List ℕ)
    → Holds buf c
    → length bytes ≤ buffer_rem buf
    → (after : Buffer) × (take_bytes buf (some bytes) ≡ some (pos (length bytes), after))
      × Holds after (c ++ bytes)
unfolding take_bytes
take_bytes-Holds buf c bytes h fits =
    let (written, after, e1, e2, holds, size) = append-Holds buf c bytes h fits in
    (after, rw (e1, e2), holds)

-- `buffer_read` never stops the process. It returns -1 with the contents kept, because `realloc`
-- failed, or `read` did when it was offered room for at least one byte, or it appends the bytes
-- that `read` stored when it was offered room for at least one byte.
pub buffer_read-Holds :
    (realloc : Realloc) (law : IsRealloc realloc) (read : ℕ → Option (List ℕ)) (ok : IsRead read)
    (buf : Buffer) (c : List ℕ)
    → Holds buf c
    → length buf.mem * 2 < size_mod
    → (after : Buffer) × (((buffer_read realloc read buf ≡ some (minus_one, after))
          × Holds after c
          × (NoMemory realloc ⊎ ((room : ℕ) × (0 < room) × (read room ≡ none))))
        ⊎ ((room : ℕ) × (bytes : List ℕ) × (0 < room)
            × (read room ≡ some bytes)
            × (buffer_read realloc read buf ≡ some (pos (length bytes), after))
            × Holds after (c ++ bytes)))
unfolding buffer_read
buffer_read-Holds realloc law read ok buf c h small =
    elim (buffer_increase-Holds realloc law buf c h small) [
      | inl (failed, full) ↦ (buf, inl (rw failed, h, inl full))
      | inr (roomy, returns, holds, room) ↦ elim (Option-cases (read (buffer_rem roomy))) [
        | inl e ↦
            (roomy, inl ((rw (returns, e) (unfold take_bytes in refl)), holds, inr (_, room, e)))
        | inr (bytes, e) ↦
            let (after, r, g) = take_bytes-Holds roomy c bytes holds (ok _ bytes e) in
            (after, inr (buffer_rem roomy, bytes, room, e, rw (returns, e) r, g))
      ]
    ]

copy_into-Holds :
    (buf : Buffer) (c bytes : List ℕ)
    → Holds buf c
    → length bytes ≤ buffer_rem buf
    → (after : Buffer) × (copy_into bytes buf ≡ some (pos 0, after)) × Holds after (c ++ bytes)
unfolding copy_into
copy_into-Holds buf c bytes h fits =
    let (written, after, e1, e2, holds, size) = append-Holds buf c bytes h fits in
    (after, rw (e1, e2), holds)

-- `buffer_copy` never stops the process. It returns 0 and the bytes are appended, or
-- `realloc` failed, it returns -1, and the buffer is as it was.
pub buffer_copy-Holds :
    (realloc : Realloc) (law : IsRealloc realloc) (buf : Buffer) (c bytes : List ℕ)
    → Holds buf c
    → length buf.mem + length bytes < size_mod
    → ((buffer_copy realloc buf bytes ≡ some (minus_one, buf)) × NoMemory realloc)
      ⊎ ((after : Buffer) × (buffer_copy realloc buf bytes ≡ some (pos 0, after))
          × Holds after (c ++ bytes))
unfolding buffer_copy buffer_size
buffer_copy-Holds realloc law buf c bytes h small =
    let l = Holds-ptr_le h in
    let n = Holds-rem h in
    elim (Bool-cases (ltb (buffer_rem buf) (length bytes))) [
      | inr e ↦
          let (after, r, g) = copy_into-Holds buf c bytes h (ground arith) in inr (after, rw e r, g)
      | inl e ↦
          elim (buffer_resize_fits realloc law buf c (add_size (length buf.mem) (length bytes)) h
            (omega (arith, h.ptr_is))) [
              | inl (failed, full) ↦ inl (rw (e, failed), (_, _, full))
              | inr (roomy, returns, holds, size) ↦
                  let room : length bytes ≤ buffer_rem roomy =
                    omega (arith, Holds-rem holds, Holds-ptr_le holds, holds.ptr_is, h.ptr_is) in
                  let (after, r, g) = copy_into-Holds roomy c bytes holds room in
                  inr (after, rw (e, returns) r, g)
            ]
    ]
