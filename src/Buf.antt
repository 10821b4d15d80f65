-- ===== src/Buf.antt =====
-- src/lib/middfs-buf.c: the growing byte buffer that a connection reads into and writes from.
-- The three pointers of `struct buffer` are the block between `begin` and `end` and the number of
-- bytes before `ptr`.
pub mod Contents
pub mod Transfer
pub mod Growth
pub mod Serialize
pub mod Stream
use middfs.Common.{
  ℕ, zero, suc, ◌+◌, ◌-◌, ◌*◌, ◌%◌, ◌≤◌, ◌<◌, ◌≡◌, List, [], ◌∷◌, ◌++◌, Bool, true, false,
}
use middfs.Common.{Option, none, some, if◌then◌else◌, length, take, drop, ltb, leb, ◌==◌, ◌>>=◌}
use middfs.Common.{ℤ, pos, negsuc, is_neg, minus_one, size_mod, add_size, not}
use middfs.Util.{smin, smax, peek, poke}
use middfs.Serial.Writer.{Serializer}
use middfs.Serial.Reader.{DState, Deserializer}

pub record Buffer : Type 0 where
  pub mem : List ℕ
  pub ptr : ℕ

-- `realloc`: the block and the new size to the new block, or none for NULL.
abbrev pub Realloc : Type 0
Realloc = List ℕ → ℕ → Option (List ℕ)

-- What the C standard promises: the new block has the new size and keeps the bytes that both have.
pub record IsRealloc (realloc : Realloc) : Type 0 where
  pub new_size : (mem block : List ℕ) (n : ℕ) → realloc mem n ≡ some block → length block ≡ n
  pub kept :
      (mem block : List ℕ) (n k : ℕ)
      → realloc mem n ≡ some block
      → k ≤ n
      → k ≤ length mem
      → take k block ≡ take k mem

unfoldable pub buffer_size : Buffer → ℕ
buffer_size buf = length buf.mem

unfoldable pub buffer_used : Buffer → ℕ
buffer_used buf = buf.ptr

unfoldable pub buffer_rem : Buffer → ℕ
buffer_rem buf = length buf.mem - buf.ptr

-- `-errno` after a failed `realloc`, which sets ENOMEM.
abbrev pub minus_enomem : ℤ
minus_enomem = negsuc 11

-- What `buffer_resize` makes of the result of `realloc`.
unfoldable pub take_block : Buffer → ℕ → Option (List ℕ) → ℤ × Buffer
take_block buf newsize none = (minus_enomem, buf)
take_block buf newsize (some newptr) =
    (pos 0, record { mem = newptr; ptr = smin (buffer_used buf) newsize })

unfoldable pub buffer_resize : Realloc → Buffer → ℕ → ℤ × Buffer
buffer_resize realloc buf newsize = take_block buf newsize (realloc buf.mem newsize)

unfoldable pub buffer_empty : Buffer → Buffer
buffer_empty buf = record buf { ptr = 0 }

unfoldable pub buffer_shift : Buffer → ℕ → Buffer
buffer_shift buf shift =
    let used = buffer_used buf in
    let newused = used - shift in
    let moved = take newused (drop shift buf.mem) ++ drop newused buf.mem in
    if leb used shift then buffer_empty buf else record { mem = moved; ptr = newused }

unfoldable pub buffer_init : Buffer
buffer_init = record { mem = []; ptr = 0 }

unfoldable pub buffer_increase : Realloc → Buffer → ℤ × Buffer
buffer_increase realloc buf =
    let newsize = smax 1 (buffer_size buf * 2 % size_mod) in
    if buffer_rem buf == 0 then buffer_resize realloc buf newsize else (pos 0, buf)

unfoldable pub buffer_isempty : Buffer → Bool
buffer_isempty buf = buffer_used buf == 0

-- A failed `assert` stops the process.
unfoldable pub buffer_advance : Buffer → ℕ → Option Buffer
buffer_advance buf nbytes =
    if leb nbytes (buffer_rem buf) then some (record buf { ptr = buf.ptr + nbytes }) else none

-- Bytes written at `ptr`.
unfoldable pub put_at_ptr : List ℕ → Buffer → Option Buffer
put_at_ptr bytes buf = do
  after ← poke bytes (drop buf.ptr buf.mem)
  some (record buf { mem = take buf.ptr buf.mem ++ after })

-- What `buffer_read` makes of the result of `read`.
unfoldable pub take_bytes : Buffer → Option (List ℕ) → Option (ℤ × Buffer)
take_bytes buf none = some (minus_one, buf)
take_bytes buf (some bytes) = do
  buf1 ← put_at_ptr bytes buf
  buf2 ← buffer_advance buf1 (length bytes)
  some (pos (length bytes), buf2)

-- `read`, given the room: none is a return of -1, else the bytes that it stores.
unfoldable pub buffer_read : Realloc → (ℕ → Option (List ℕ)) → Buffer → Option (ℤ × Buffer)
buffer_read realloc read buf =
    let (err, buf1) = buffer_increase realloc buf in
    if is_neg err then some (minus_one, buf1) else take_bytes buf1 (read (buffer_rem buf1))

-- What `buffer_write` makes of the result of `write`.
unfoldable pub drop_written : Buffer → Option ℕ → ℤ × Buffer
drop_written buf none = (minus_one, buf)
drop_written buf (some bytes_written) = (pos bytes_written, buffer_shift buf bytes_written)

-- `write`, given the bytes: none is a return of -1, else the number of bytes taken.
unfoldable pub buffer_write : (List ℕ → Option ℕ) → Buffer → Option (ℤ × Buffer)
buffer_write write buf = do
  out ← peek buf.mem (buffer_used buf)
  some (drop_written buf (write out))

-- The copy behind the test for room, of the bytes at `in`.
unfoldable pub copy_into : List ℕ → Buffer → Option (ℤ × Buffer)
copy_into bytes buf = do
  buf1 ← put_at_ptr bytes buf
  buf2 ← buffer_advance buf1 (length bytes)
  some (pos 0, buf2)

unfoldable pub buffer_copy : Realloc → Buffer → List ℕ → Option (ℤ × Buffer)
buffer_copy realloc buf bytes =
    let nbytes = length bytes in
    let (err, buf1) = buffer_resize realloc buf (add_size (buffer_size buf) nbytes) in
    if ltb (buffer_rem buf) nbytes
    then if is_neg err then some (minus_one, buf1) else copy_into bytes buf1
    else copy_into bytes buf

-- The loop, with the fuel left; the serializer may write into the room in any case.
unfoldable pub serialize_loop : Realloc → Serializer → ℕ → ℕ → Buffer → Option (ℤ × Buffer)
serialize_loop realloc serialf zero rem buf = none
serialize_loop realloc serialf (suc fuel) rem buf = do
  (after, used) ← serialf (drop buf.ptr buf.mem) rem
  let buf1 = record buf { mem = take buf.ptr buf.mem ++ after }
  let (err, buf2) = buffer_resize realloc buf1 (add_size (buffer_used buf1) used)
  let again = serialize_loop realloc serialf fuel used buf2
  let last = (do buf3 ← buffer_advance buf1 used; some (pos used, buf3))
  if ltb rem used then if is_neg err then some (minus_one, buf2) else again else last

unfoldable pub buffer_serialize : Realloc → ℕ → Serializer → Buffer → Option (ℤ × Buffer)
buffer_serialize realloc fuel serialf buf = serialize_loop realloc serialf fuel (buffer_rem buf) buf

-- The value read and the buffer; `st` is what the deserializer starts from, `err` being 0.
unfoldable pub buffer_deserialize :
    {S : Type 0} → Deserializer S → S → DState → Buffer → Option (ℤ × S × Buffer)
buffer_deserialize deserialf out st buf = do
  (required, out', st') ← deserialf out buf.mem (buffer_used buf) (record st { err = 0 })
  let shifted = buffer_shift buf required
  some (
    if not (st'.err == 0)
        then minus_one
        else if leb required (buffer_used buf)
        then pos 0
        else pos 1,
    out',
    if not (st'.err == 0) then buf else if leb required (buffer_used buf) then shifted else buf,
  )
