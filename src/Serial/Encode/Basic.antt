-- ===== src/Serial/Encode/Basic.antt =====
-- The serializers of words, texts and blocks keep the contract of serialize_* functions.
use middfs.Common.{ℕ, zero, suc, ◌+◌, ◌≤◌, ◌<◌, ◌≡◌, refl, sym, arith, List, [], ◌∷◌, ◌++◌}
use middfs.Common.{Option, none, some, length, take, drop}
use middfs.Common.{length-append, length-take, size_mod}
use middfs.Common.{le→leb, lt→leb_false}
use middfs.Util.{poke_fits, peek_fits, memcpy}
use middfs.Pkt.{Data}
use middfs.Serial.Encode.{serialize_data_block}
use middfs.Serial.Valid.{HasBytes}
use middfs.Serial.Writer.{Writes, Short, then-Writes}
use middfs.Serial.Format.{be32, be64, text_bytes, block_bytes}
use middfs.Serial.Encode.{serialize_uint32, serialize_uint64, serialize_int32}
use middfs.Serial.Encode.{serialize_str, serialize_block}

-- A result that leaves the memory alone and asks for a size beyond the room.
pub untouched :
    {out buf : List ℕ} {n : ℕ} (u : ℕ) {result : Option (List ℕ × ℕ)}
    → result ≡ some (buf, u)
    → n < u
    → u ≤ length out
    → Short out buf n result
untouched {buf = buf} u e h k = record {
  after = buf;
  used = u;
  returns = e;
  same_size = refl;
  in_room = refl;
  asks_more = h;
  asks_bound = k;
}

pub serialize_uint32-Writes : (x : ℕ) → Writes (serialize_uint32 x) (be32 x)
unfolding serialize_uint32 be32
serialize_uint32-Writes x = record {
  whole = λ buf n h k. rw (le→leb 4 n k, poke_fits (be32 x) buf (omega arith));
  short = λ buf n h k. untouched 4 (rw (lt→leb_false 4 n k)) (omega arith) (omega arith);
}

pub serialize_int32-Writes : (x : ℕ) → Writes (serialize_int32 x) (be32 x)
unfolding serialize_int32
serialize_int32-Writes x = serialize_uint32-Writes x

pub serialize_uint64-Writes : (x : ℕ) → Writes (serialize_uint64 x) (be64 x)
unfolding serialize_uint64 be64
serialize_uint64-Writes x =
    then-Writes (serialize_uint32-Writes _) (serialize_uint32-Writes _) (unfold be32 in omega arith)

module _ (s : List ℕ) (fits : length s + 1 < size_mod) where
  str_whole :
      (buf : List ℕ) (n : ℕ)
      → n ≤ length buf
      → length s + 1 ≤ n
      → serialize_str (some s) buf n
        ≡ some ((s ++ (0 ∷ [])) ++ drop (length s + 1) buf, length s + 1)
  unfolding serialize_str
  str_whole buf n h k = ground (arith, poke_fits (s ++ (0 ∷ [])) buf, length-append s (0 ∷ []))

  str_short :
      (buf : List ℕ) (n : ℕ) → n < length s + 1 → serialize_str (some s) buf n ≡ some (buf, n + 1)
  unfolding serialize_str
  str_short buf n h = ground arith

  -- A text is written with its NUL.
  pub serialize_str-Writes : Writes (serialize_str (some s)) (text_bytes (some s))
  serialize_str-Writes =
      let l = length-append s (0 ∷ []) in
      record {
        whole = λ buf n h k. rw l (str_whole buf n h (omega arith));
        short = λ buf n h k.
            untouched (n + 1) (str_short buf n (omega arith)) (omega arith) (omega arith);
      }

pub length-block_bytes :
    (src : Option (List ℕ)) (k : ℕ) → HasBytes src k → length (block_bytes src k) ≡ k
length-block_bytes none k h = sym h
length-block_bytes (some block) k h = omega (arith, length-take k block)

pub memcpy_fits :
    (mem : List ℕ) (src : Option (List ℕ)) (k : ℕ)
    → HasBytes src k
    → k ≤ length mem
    → memcpy mem src k ≡ some (block_bytes src k ++ drop k mem)
unfolding memcpy
memcpy_fits mem none k h l = rw h
memcpy_fits mem (some block) zero h l = refl
memcpy_fits mem (some block) (suc k) h l =
    ground (
      arith,
      peek_fits block (suc k),
      poke_fits (take (suc k) block) mem,
      length-take (suc k) block,
    )

pub serialize_block-Writes :
    (src : Option (List ℕ)) (k : ℕ)
    → HasBytes src k
    → Writes (serialize_block src k) (block_bytes src k)
unfolding serialize_block
serialize_block-Writes src k h =
    let l = length-block_bytes src k h in
    record {
      whole = λ buf n i j. rw (le→leb k n (omega arith), memcpy_fits buf src k h (omega arith), l);
      short = λ buf n i j.
          untouched k (rw (lt→leb_false k n (omega arith))) (omega arith) (omega arith);
    }

-- A list of no length is empty.
none_of_none : (xs : List ℕ) → length xs ≡ 0 → xs ≡ []
none_of_none [] h = refl
none_of_none (x ∷ xs) h = absurd (omega arith)

pub serialize_data_block-Writes :
    (d : Data)
    → HasBytes d.mdata_buf d.mdata_nbytes
    → Writes (serialize_data_block d) (block_bytes d.mdata_buf d.mdata_nbytes)
unfolding serialize_data_block
serialize_data_block-Writes d h =
    let l = length-block_bytes d.mdata_buf d.mdata_nbytes h in
    record {
      whole = λ buf n i j. ground (
        arith,
        memcpy_fits buf d.mdata_buf d.mdata_nbytes h,
        none_of_none (block_bytes d.mdata_buf d.mdata_nbytes),
      );
      short = λ buf n i j. untouched d.mdata_nbytes (ground arith) (omega arith) (omega arith);
    }
