-- ===== src/Serial/Writer.antt =====
-- How src/lib/middfs-serial.c composes its serialize_* functions, and the contract that its header
-- states for them: `Writes f out` says that `f` is a serializer of the byte string `out`.
use middfs.Common.{ℕ, ◌+◌, ◌-◌, ◌≤◌, ◌<◌, ◌≡◌, refl, ap, ◌∙◌, arith, List, []}
use middfs.Common.{◌∷◌, ◌++◌, append_assoc, Option, none, some, Bool, true, false}
use middfs.Common.{if◌then◌else◌, length, take, drop, length-append, length-drop}
use middfs.Common.{take-append, drop-append, drop-drop, drop-append_ge, take-append-drop}
use middfs.Common.{◌>>=◌, size_mod, add_size, add_size_eq}
use middfs.Serial.Format.{optional}
use middfs.Util.{sizerem, sizerem_le, sizerem_lt}
use native.Mathlib.Decide.{dec_le}

-- The memory at `buf` and `nbytes`, to the memory after the call and the size returned.
abbrev pub Serializer : Type 0
Serializer = List ℕ → ℕ → Option (List ℕ × ℕ)

-- `used += g(…, buf_ + used, sizerem(nbytes, used));` behind a code `f` that has set `used`.
infixl 60 ◌>+◌
unfoldable pub ◌>+◌ : Serializer → Serializer → Serializer
◌>+◌ f g buf nbytes = do
  (buf', used) ← f buf nbytes
  (rest, used') ← g (drop used buf') (sizerem nbytes used)
  some (take used buf' ++ rest, add_size used used')

-- `used = 0;`
unfoldable pub skip : Serializer
skip buf nbytes = some (buf, 0)

-- `if (b) { used += f(…); }`
unfoldable pub when : Bool → Serializer → Serializer
when b f = if b then f else skip

-- `abort();`
unfoldable pub stop : Serializer
stop buf nbytes = none

-- What the call leaves when the room is too small: the block keeps its size, nothing is written
-- behind the first `nbytes` bytes, and the size returned is more than the room.
pub record Short (out buf : List ℕ) (n : ℕ) (result : Option (List ℕ × ℕ)) : Type 0 where
  pub after : List ℕ
  pub used : ℕ
  pub returns : result ≡ some (after, used)
  pub same_size : length after ≡ length buf
  pub in_room : drop n after ≡ drop n buf
  pub asks_more : n < used
  pub asks_bound : used ≤ length out

pub record Writes (f : Serializer) (out : List ℕ) : Type 0 where
  pub whole :
      (buf : List ℕ) (n : ℕ)
      → n ≤ length buf
      → length out ≤ n
      → f buf n ≡ some (out ++ drop (length out) buf, length out)
  pub short : (buf : List ℕ) (n : ℕ) → n ≤ length buf → n < length out → Short out buf n (f buf n)

pub skip-Writes : Writes skip []
unfolding skip
skip-Writes = record { whole = λ buf n h k. refl; short = λ buf n h k. absurd (omega arith) }

-- With no room at all a serializer leaves the memory as it is.
no_room :
    {f : Serializer} {out : List ℕ} (w : Writes f out) (buf : List ℕ)
    → (u : ℕ) × (f buf 0 ≡ some (buf, u)) × (u ≤ length out)
no_room {f} {out = []} w buf = (0, w.whole buf 0 (omega arith) (omega arith), omega arith)
no_room {f} {out = b ∷ out} w buf =
    let s : Short (b ∷ out) buf 0 (f buf 0) = w.short buf 0 (omega arith) (omega arith) in
    (s.used, s.returns ∙ ap (λ l. some (l, s.used)) s.in_room, s.asks_bound)

module _ {f g : Serializer} {a b : List ℕ} (wf : Writes f a) (wg : Writes g b) where
  whole_then :
      (buf : List ℕ) (n : ℕ)
      → n ≤ length buf
      → length a + length b ≤ n
      → length a + length b < size_mod
      → (f >+ g) buf n ≡ some ((a ++ b) ++ drop (length a + length b) buf, length a + length b)
  unfolding ◌>+◌
  whole_then buf n h k fits =
      rw
        (
          wf.whole buf n h (omega arith),
          drop-append (length a) a (drop (length a) buf) refl,
          take-append (length a) a (drop (length a) buf) refl,
          sizerem_le n (length a) (omega arith),
          wg.whole (drop (length a) buf) (n - length a) (omega (arith, length-drop (length a) buf))
              (omega arith),
          drop-drop (length a) (length b) buf,
          add_size_eq (length a) (length b) fits,
        )
        (rw append_assoc)

  -- The first part fits and the second does not.
  Short-second :
      (buf : List ℕ) (n : ℕ)
      → n ≤ length buf
      → length a ≤ n
      → n < length a + length b
      → length a + length b < size_mod
      → Short (a ++ b) buf n ((f >+ g) buf n)
  unfolding ◌>+◌
  Short-second buf n h k l fits =
      let la = length-append a b in
      let lr = length-drop (length a) buf in
      let s : Short b (drop (length a) buf) (n - length a)
          (g (drop (length a) buf) (n - length a)) =
        wg.short (drop (length a) buf) (n - length a) (omega arith) (omega arith) in
      record {
        after = a ++ s.after;
        used = length a + s.used;
        returns =
            rw
              (
                wf.whole buf n h k,
                drop-append (length a) a (drop (length a) buf) refl,
                take-append (length a) a (drop (length a) buf) refl,
                sizerem_le n (length a) k,
                s.returns,
              )
              (ap (λ u. some (a ++ s.after, u))
                (add_size_eq (length a) s.used (omega (arith, s.asks_bound))));
        same_size = omega (arith, length-append a s.after, s.same_size);
        in_room =
            drop-append_ge n a s.after k
            ∙ s.in_room
            ∙ drop-drop (length a) (n - length a) buf
            ∙ ap (λ i. drop i buf) (omega arith);
        asks_more = omega (arith, s.asks_more);
        asks_bound = omega (arith, s.asks_bound);
      }

  -- The first part does not fit: the second is called with no room.
  Short-first :
      (buf : List ℕ) (n : ℕ)
      → n ≤ length buf
      → n < length a
      → length a + length b < size_mod
      → Short (a ++ b) buf n ((f >+ g) buf n)
  unfolding ◌>+◌
  Short-first buf n h k fits =
      let la = length-append a b in
      let s : Short a buf n (f buf n) = wf.short buf n h k in
      let (u, e, ub) = no_room wg (drop s.used s.after) in
      record {
        after = s.after;
        used = s.used + u;
        returns =
            rw (s.returns, sizerem_lt n s.used s.asks_more, e, take-append-drop)
              (ap (λ u. some (s.after, u)) (add_size_eq s.used u (omega (arith, s.asks_bound))));
        same_size = s.same_size;
        in_room = s.in_room;
        asks_more = omega (arith, s.asks_more);
        asks_bound = omega (arith, s.asks_bound);
      }

  -- One serializer behind another writes the one byte string behind the other.
  pub then-Writes : length (a ++ b) < size_mod → Writes (f >+ g) (a ++ b)
  then-Writes fits =
      let l = length-append a b in
      record {
        whole = λ buf n h k. rw l (whole_then buf n h (omega arith) (omega arith));
        short = λ buf n h k. elim (dec_le (length a) n) [
          | yes p ↦ Short-second buf n h p (omega arith) (omega arith)
          | no p ↦ Short-first buf n h (omega arith) (omega arith)
        ];
      }

-- A part is no longer than the whole.
pub fits_left : (a b : List ℕ) → length (a ++ b) < size_mod → length a < size_mod
fits_left a b h = omega (arith, length-append a b)

pub fits_right : (a b : List ℕ) → length (a ++ b) < size_mod → length b < size_mod
fits_right a b h = omega (arith, length-append a b)

pub when-Writes :
    (b : Bool) {f : Serializer} {out : List ℕ}
    → (b ≡ true → Writes f out)
    → Writes (when b f) (optional b out)
unfolding when optional
when-Writes true w = w refl
when-Writes false w = skip-Writes

-- A branch of the code against the same branch of the format.
pub if-Writes :
    (b : Bool) {f g : Serializer} {out out' : List ℕ}
    → length (if b then out else out') < size_mod
    → (b ≡ true → length out < size_mod → Writes f out)
    → (b ≡ false → length out' < size_mod → Writes g out')
    → Writes (if b then f else g) (if b then out else out')
if-Writes true fits w w' = w refl fits
if-Writes false fits w w' = w' refl fits
