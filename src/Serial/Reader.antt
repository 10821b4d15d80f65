-- ===== src/Serial/Reader.antt =====
-- How src/lib/middfs-serial.c composes its deserialize_* functions, and the contract that its
-- header states for them: `Reads f s out s'` says that `f`, at the target value `s`, reads the byte
-- string `out` into `s'`.
pub mod Then
pub mod Forms
use middfs.Common.{ℕ, zero, suc, ◌+◌, ◌-◌, ◌*◌, ◌≤◌, ◌<◌, ◌≡◌, refl, sym, ap, ◌∙◌, arith, List, []}
use middfs.Common.{◌∷◌, ◌++◌, append_assoc, append-nil, Option, none, some, Bool, true, false, ◌||◌}
use middfs.Common.{if◌then◌else◌, length, take, drop, length-append, drop-append, ltb, not, ◌==◌}
use middfs.Common.{
  ◌>>=◌, size_mod, add_size, add_size_eq, inl, inr, append_split, le→ltb_false, lt→ltb,
}
use middfs.Serial.Format.{optional}
use middfs.Util.{sizerem, sizerem_le, sizerem_lt}

-- What a call works with beside its arguments: `*errp`; whether the allocations to come succeed, in
-- their order; and what two uninitialised local words happen to hold.
pub record DState : Type 0 where
  pub err : ℕ
  pub grants : ℕ → Bool
  pub junk : ℕ × ℕ

-- One call of malloc, calloc or strdup.
unfoldable pub allocate : DState → Bool × DState
allocate st = (st.grants 0, record st { grants = λ k. st.grants (suc k) })

-- No error so far, and no allocation that fails.
pub record IsOk (st : DState) : Type 0 where
  pub no_err : st.err ≡ 0
  pub granted : (k : ℕ) → st.grants k ≡ true

-- The value at the target pointer, the memory at `buf`, `nbytes` and the state; to the size
-- returned, the value after the call and the state.
abbrev pub Deserializer : Type 0 → Type 0
Deserializer S = S → List ℕ → ℕ → DState → Option (ℕ × S × DState)

-- `used += g(buf_ + used, sizerem(nbytes, used), …, errp);` behind a code `f` that has set `used`.
infixl 60 ◌<+◌
unfoldable pub ◌<+◌ : {S : Type 0} → Deserializer S → Deserializer S → Deserializer S
◌<+◌ f g s buf nbytes st = do
  (used, s', st') ← f s buf nbytes st
  (used', s'', st'') ← g s' (drop used buf) (sizerem nbytes used) st'
  some (add_size used used', s'', st'')

-- `used` as it was set before.
unfoldable pub resume : {S : Type 0} → ℕ → Deserializer S
resume used s buf nbytes st = some (used, s, st)

-- The target is a member of the structure.
unfoldable pub member : {S A : Type 0} → (S → A) → (A → S → S) → Deserializer A → Deserializer S
member get put f s buf nbytes st = do
  (used, a, st') ← f (get s) buf nbytes st
  some (used, put a s, st')

-- `if (b) { used += f(…); }`
unfoldable pub when : {S : Type 0} → Bool → Deserializer S → Deserializer S
when b f = if b then f else resume 0

-- Code that goes on according to what has been read.
unfoldable pub switch : {S : Type 0} → (S → Deserializer S) → Deserializer S
switch k s = k s s

-- `if (*errp) { return 0; }` in front.
unfoldable pub bail : {S : Type 0} → Deserializer S → Deserializer S
bail f s buf nbytes st = if st.err == 0 then f s buf nbytes st else some (0, s, st)

-- `return *errp ? 0 : used;` at the end.
unfoldable pub finish : {S : Type 0} → Deserializer S → Deserializer S
finish f s buf nbytes st = do
  (used, s', st') ← f s buf nbytes st
  some (if st'.err == 0 then used else 0, s', st')

-- `if (used > nbytes) { return used; }` between `f` and the rest, which is given `used`.
unfoldable pub checked : {S : Type 0} → Deserializer S → (ℕ → Deserializer S) → Deserializer S
checked f k s buf nbytes st = do
  (used, s', st') ← f s buf nbytes st
  if ltb nbytes used then some (used, s', st') else k used s' buf nbytes st'

-- `if (used > nbytes || *errp) { return used; }`
unfoldable pub checked_err : {S : Type 0} → Deserializer S → (ℕ → Deserializer S) → Deserializer S
checked_err f k s buf nbytes st = do
  (used, s', st') ← f s buf nbytes st
  if ltb nbytes used || not (st'.err == 0) then some (used, s', st') else k used s' buf nbytes st'

-- The result when some bytes of the form are still missing: no error, no stop, and a size beyond
-- the `n` bytes that are there.
pub record Asks {S : Type 0} (bound n : ℕ) (result : Option (ℕ × S × DState)) : Type 0 where
  pub used : ℕ
  pub value : S
  pub state : DState
  pub returns : result ≡ some (used, value, state)
  pub ok : IsOk state
  pub asks_more : n < used
  pub asks_bound : used ≤ bound

-- The result when the whole form is there.
pub record Gives {S : Type 0} (used : ℕ) (value : S) (r : Option (ℕ × S × DState)) : Type 0 where
  pub state : DState
  pub returns : r ≡ some (used, value, state)
  pub ok : IsOk state

pub record Reads {S : Type 0} (f : Deserializer S) (s : S) (out : List ℕ) (s' : S) : Type 0 where
  pub whole :
      (rest : List ℕ) (n : ℕ) (st : DState)
      → IsOk st
      → length out ≤ n
      → n ≤ length (out ++ rest)
      → Gives (length out) s' (f s (out ++ rest) n st)
  pub part :
      (front back rest : List ℕ) (st : DState)
      → IsOk st
      → out ≡ front ++ back
      → 0 < length back
      → Asks (2 * length out) (length front) (f s (front ++ rest) (length front) st)
