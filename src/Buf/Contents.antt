-- ===== src/Buf/Contents.antt =====
-- The buffer of src/lib/middfs-buf.c as a queue of bytes: which bytes it holds, and what each
-- operation makes of them.
use middfs.Common.{ℕ, ◌+◌, ◌-◌, ◌*◌, ◌%◌, ◌≤◌, ◌<◌, ◌≡◌, refl, sym, ap, ◌∙◌, arith, List, [], ◌++◌}
use middfs.Common.{append_assoc, Option, none, some, ◌⊎◌, inl, inr}
use middfs.Common.{length, take, drop, ◌==◌, ℤ, pos, minus_one, size_mod}
use middfs.Common.{length-append, length-drop, take-append, drop-append, take-append-drop, drop-all}
use middfs.Common.{le→leb, lt→leb_false, drop-append_le, take-front, take-all, length-take}
use mathlib.Core.Path.{subst}
use middfs.Common.{Option-cases, Bool-cases}
use native.Mathlib.Decide.{dec_le}
use middfs.Util.{smin, smax, peek_fits, poke_fits}
use middfs.Buf.{Buffer, Realloc, IsRealloc, buffer_size, buffer_used, buffer_rem, buffer_resize}
use middfs.Buf.{
  minus_enomem, buffer_empty, buffer_shift, buffer_init, buffer_increase, buffer_advance,
}
use middfs.Buf.{take_block, drop_written, put_at_ptr, buffer_write}

-- The buffer holds the bytes `c`, and `free` is the memory behind them.
pub record Holds (buf : Buffer) (c : List ℕ) : Type 0 where
  pub free : List ℕ
  pub mem_is : buf.mem ≡ c ++ free
  pub ptr_is : buf.ptr ≡ length c

pub Holds-ptr_le :
    {buf : Buffer} {c : List ℕ} (h : Holds buf c) → length buf.mem ≡ buf.ptr + length h.free
Holds-ptr_le {c = c} h = omega (arith, ap length h.mem_is, length-append c h.free, h.ptr_is)

pub Holds-rem : {buf : Buffer} {c : List ℕ} (h : Holds buf c) → buffer_rem buf ≡ length h.free
unfolding buffer_rem
Holds-rem h = omega (arith, Holds-ptr_le h)

pub Holds-behind : {buf : Buffer} {c : List ℕ} (h : Holds buf c) → drop buf.ptr buf.mem ≡ h.free
Holds-behind {c = c} h = rw (h.mem_is) (drop-append _ c h.free (h.ptr_is))

pub Holds-front : {buf : Buffer} {c : List ℕ} (h : Holds buf c) → take buf.ptr buf.mem ≡ c
Holds-front {c = c} h = rw (h.mem_is) (take-append _ c h.free (h.ptr_is))

pub buffer_init-Holds : Holds buffer_init []
unfolding buffer_init
buffer_init-Holds = record { free = []; mem_is = refl; ptr_is = refl }

-- What `memmove` brings to the front.
moved_bytes :
    (buf : Buffer) (c : List ℕ) (k : ℕ)
    → Holds buf c
    → k ≤ length c
    → take (buf.ptr - k) (drop k buf.mem) ≡ drop k c
moved_bytes buf c k h i =
    let l = length-drop k c in
    rw (h.mem_is, drop-append_le k c h.free i)
      (take-append (buf.ptr - k) (drop k c) h.free (omega (arith, h.ptr_is)))

-- Shifting drops bytes from the front; more than there are drops them all.
pub buffer_shift-Holds :
    (buf : Buffer) (c : List ℕ) (shift : ℕ)
    → Holds buf c
    → Holds (buffer_shift buf shift) (drop shift c)
unfolding buffer_shift buffer_empty buffer_used
buffer_shift-Holds buf c shift h = elim (dec_le buf.ptr shift) [
  | yes i ↦
      rw (le→leb buf.ptr shift i, drop-all shift c (omega (arith, h.ptr_is)))
        (record { free = buf.mem; mem_is = refl; ptr_is = refl })
  | no i ↦
      let m = moved_bytes buf c shift h (omega (arith, h.ptr_is)) in
      rw (lt→leb_false buf.ptr shift (omega arith)) (record {
        free = drop (buf.ptr - shift) buf.mem;
        mem_is = rw m;
        ptr_is = omega (arith, h.ptr_is, length-drop shift c);
      })
]

pub buffer_shift_size :
    (buf : Buffer) (c : List ℕ) (shift : ℕ)
    → Holds buf c
    → length (buffer_shift buf shift).mem ≡ length buf.mem
unfolding buffer_shift buffer_empty buffer_used
buffer_shift_size buf c shift h = elim (dec_le buf.ptr shift) [
  | yes i ↦ rw (le→leb buf.ptr shift i)
  | no i ↦
      let m = moved_bytes buf c shift h (omega (arith, h.ptr_is)) in
      rw (lt→leb_false buf.ptr shift (omega arith), m)
        (omega (
          arith,
          length-append (drop shift c) (drop (buf.ptr - shift) buf.mem),
          h.ptr_is,
          length-drop shift c,
          length-drop (buf.ptr - shift) buf.mem,
          Holds-ptr_le h,
        ))
]

-- `realloc` has failed on some block.
abbrev pub NoMemory : Realloc → Type 0
NoMemory realloc = (mem : List ℕ) × (n : ℕ) × (realloc mem n ≡ none)

-- The result `r` is a failure that leaves the buffer, or it has the new size and holds `c`.
abbrev pub Resized : Realloc → ℤ × Buffer → Buffer → List ℕ → ℕ → Type 0
Resized realloc r buf c newsize =
    ((r ≡ (minus_enomem, buf)) × (realloc buf.mem newsize ≡ none))
    ⊎ ((after : Buffer) × (r ≡ (pos 0, after)) × Holds after c × (length after.mem ≡ newsize))

-- The front of the contents that a new block of the size keeps.
resized_front :
    (realloc : Realloc) (law : IsRealloc realloc) (buf : Buffer) (c : List ℕ) (newsize : ℕ)
    (block : List ℕ)
    → Holds buf c
    → realloc buf.mem newsize ≡ some block
    → take (smin buf.ptr newsize) block ≡ take newsize c
resized_front realloc law buf c newsize block h e =
    let k = smin buf.ptr newsize in
    let kept : take k block ≡ take k buf.mem =
      law.kept buf.mem block newsize k e (ground arith) (ground (arith, Holds-ptr_le h)) in
    let l = h.ptr_is in
    kept
    ∙ ap (take k) h.mem_is
    ∙ take-front k c h.free (ground arith)
    ∙ (elim (dec_le buf.ptr newsize) [
      | yes i ↦
          let same : k ≡ buf.ptr = ground arith in
          take-all k c (omega arith) ∙ sym (take-all newsize c (omega arith))
      | no i ↦ let same : k ≡ newsize = ground arith in ap (λ n. take n c) same
    ])

-- `buffer_resize` returns 0, the block has the new size, and the buffer holds the bytes that it held
-- before as far as they fit into that size; or `realloc` failed, -ENOMEM is returned, and the buffer
-- is as it was.
pub buffer_resize-Holds :
    (realloc : Realloc) (law : IsRealloc realloc) (buf : Buffer) (c : List ℕ) (newsize : ℕ)
    → Holds buf c
    → Resized realloc (buffer_resize realloc buf newsize) buf (take newsize c) newsize
unfolding buffer_resize take_block buffer_used
buffer_resize-Holds realloc law buf c newsize h = elim (Option-cases (realloc buf.mem newsize)) [
  | inl e ↦ inl (rw e, e)
  | inr (block, e) ↦
      let k = smin buf.ptr newsize in
      let front = resized_front realloc law buf c newsize block h e in
      inr (
        record { mem = block; ptr = k },
        rw e,
        record {
          free = drop k block;
          mem_is = sym (take-append-drop k block) ∙ ap (λ x. x ++ drop k block) front;
          ptr_is = ground (arith, h.ptr_is, length-take newsize c);
        },
        law.new_size buf.mem block newsize e,
      )
]

-- When the contents fit, all of them are kept.
pub buffer_resize_fits :
    (realloc : Realloc) (law : IsRealloc realloc) (buf : Buffer) (c : List ℕ) (newsize : ℕ)
    → Holds buf c
    → length c ≤ newsize
    → Resized realloc (buffer_resize realloc buf newsize) buf c newsize
buffer_resize_fits realloc law buf c newsize h fits =
    subst (λ x. Resized realloc (buffer_resize realloc buf newsize) buf x newsize)
      (take-all newsize c fits) (buffer_resize-Holds realloc law buf c newsize h)

-- `buffer_increase` fails, or makes room for at least one byte.
pub buffer_increase-Holds :
    (realloc : Realloc) (law : IsRealloc realloc) (buf : Buffer) (c : List ℕ)
    → Holds buf c
    → length buf.mem * 2 < size_mod
    → ((buffer_increase realloc buf ≡ (minus_enomem, buf)) × NoMemory realloc)
      ⊎ ((after : Buffer) × (buffer_increase realloc buf ≡ (pos 0, after))
          × Holds after c
          × (0 < buffer_rem after))
unfolding buffer_increase buffer_size
buffer_increase-Holds realloc law buf c h small = elim (Bool-cases (buffer_rem buf == 0)) [
  | inr e ↦ inr (buf, rw e, h, ground arith)
  | inl e ↦
      let newsize = smax 1 (length buf.mem * 2 % size_mod) in
      let l = Holds-ptr_le h in
      let full : length h.free ≡ 0 = ground (arith, Holds-rem h) in
      let more : length c < newsize = ground (arith, h.ptr_is) in
      elim (buffer_resize_fits realloc law buf c newsize h (omega arith)) [
        | inl (failed, full_memory) ↦ inl (rw e failed, (buf.mem, newsize, full_memory))
        | inr (after, returns, holds, size) ↦
            inr
              (after, rw e returns, holds, (unfold buffer_rem in omega (arith, size, holds.ptr_is)))
      ]
]

-- Bytes that fit are appended.
pub append-Holds :
    (buf : Buffer) (c bytes : List ℕ)
    → Holds buf c
    → length bytes ≤ buffer_rem buf
    → (written : Buffer) × (after : Buffer) × (put_at_ptr bytes buf ≡ some written)
      × (buffer_advance written (length bytes) ≡ some after)
      × Holds after (c ++ bytes)
      × (length after.mem ≡ length buf.mem)
unfolding put_at_ptr buffer_advance buffer_rem
append-Holds buf c bytes h fits =
    let l = Holds-ptr_le h in
    let n = Holds-rem h in
    let new = c ++ (bytes ++ drop (length bytes) h.free) in
    let size : length new ≡ length buf.mem = omega (
      arith,
      h.ptr_is,
      length-append c (bytes ++ drop (length bytes) h.free),
      length-append bytes (drop (length bytes) h.free),
      length-drop (length bytes) h.free,
    ) in
    (
      record { mem = new; ptr = buf.ptr },
      record { mem = new; ptr = buf.ptr + length bytes },
      rw (Holds-behind h, Holds-front h, poke_fits bytes h.free (omega arith)),
      rw (size, le→leb (length bytes) (length buf.mem - buf.ptr) fits),
      record {
        free = drop (length bytes) h.free;
        mem_is = sym (append_assoc c bytes _);
        ptr_is = omega (arith, h.ptr_is, length-append c bytes);
      },
      size,
    )

-- `buffer_write` hands the contents over and drops the bytes that were taken.
pub buffer_write-Holds :
    (write : List ℕ → Option ℕ) (buf : Buffer) (c : List ℕ)
    → Holds buf c
    → ((write c ≡ none) × (buffer_write write buf ≡ some (minus_one, buf)))
      ⊎ ((k : ℕ) × (after : Buffer) × (write c ≡ some k)
          × (buffer_write write buf ≡ some (pos k, after))
          × Holds after (drop k c))
unfolding buffer_write drop_written buffer_used
buffer_write-Holds write buf c h =
    let p = peek_fits buf.mem buf.ptr (omega (arith, Holds-ptr_le h)) ∙ ap some (Holds-front h) in
    elim (Option-cases (write c)) [
      | inl e ↦ inl (e, rw (p, e))
      | inr (k, e) ↦ inr (k, buffer_shift buf k, e, rw (p, e), buffer_shift-Holds buf c k h)
    ]
