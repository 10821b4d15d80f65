-- ===== src/Serial/Decode/Basic.antt =====
-- The readers of words, texts and blocks keep the contract of deserialize_* functions.
use middfs.Common.{ℕ, suc, ◌+◌, ◌*◌, ◌/◌, ◌%◌, ◌^◌, ◌≤◌, ◌<◌, ◌≡◌, refl, sym, ap, ◌∙◌, arith}
use middfs.Common.{List, [], ◌∷◌, ◌++◌, append_assoc, none, some, true, length}
use middfs.Common.{length-append, take-append, size_mod, add_size_eq}
use middfs.Common.{le→leb, lt→ltb, lt→leb_false, le→ltb_false, All, IsU32, IsU64}
use middfs.Util.{strnlen-text, strnlen-front}
use middfs.Pkt.{CString, Rsrc}
use middfs.Serial.Format.{be32, be64, text_bytes, rsrc_bytes, length-be32}
use middfs.Common.{append_split, append-nil, inl, inr}
use middfs.Serial.Valid.{IsChar, IsText, IsRsrc}
use middfs.Serial.Reader.{DState, IsOk, allocate, Asks, Gives, Reads}
use middfs.Serial.Reader.Then.{then-Reads}
use middfs.Serial.Reader.Forms.{bail-Reads, member-Reads, resume-Reads}
use middfs.Serial.Decode.{load32, load_uint32, deserialize_uint32, deserialize_int32, words64}
use middfs.Serial.Decode.{deserialize_uint64, load_str, dup_str, deserialize_str, deserialize_rsrc}
use middfs.Serial.Decode.{deserialize_struct}

-- Less than half of the address space, so that no sum of sizes on the way wraps.
abbrev pub IsShort : List ℕ → Type 0
IsShort out = 2 * length out < size_mod

pub IsShort-left : (a b : List ℕ) → IsShort (a ++ b) → IsShort a
IsShort-left a b h = omega (arith, length-append a b)

pub IsShort-right : (a b : List ℕ) → IsShort (a ++ b) → IsShort b
IsShort-right a b h = omega (arith, length-append a b)

load32-be32 : (x : ℕ) (rest : List ℕ) → IsU32 x → load32 (be32 x ++ rest) ≡ some x
unfolding load32 be32
load32-be32 x rest h = ap some (omega arith)

load_uint32-Reads : (x s : ℕ) → IsU32 x → Reads load_uint32 s (be32 x) x
unfolding load_uint32
load_uint32-Reads x s h =
    let l = length-be32 x in
    record {
      whole = λ rest n st ok i j. record {
        state = st;
        returns = rw (le→leb 4 n (omega arith), load32-be32 x rest h, l);
        ok = ok;
      };
      part = λ front back rest st ok e i.
          let l1 = ap length e in
          let l2 = length-append front back in
          record {
            used = 4;
            value = s;
            state = st;
            returns = rw (lt→leb_false 4 (length front) (omega arith));
            ok = ok;
            asks_more = omega arith;
            asks_bound = omega arith;
          };
    }

pub uint32-Reads : (x s : ℕ) → IsU32 x → Reads deserialize_uint32 s (be32 x) x
unfolding deserialize_uint32
uint32-Reads x s h = bail-Reads (load_uint32-Reads x s h)

pub int32-Reads : (x s : ℕ) → IsU32 x → Reads deserialize_int32 s (be32 x) x
unfolding deserialize_int32
int32-Reads x s h = uint32-Reads x s h

words64-Reads : (x : ℕ) (s : ℕ × ℕ) → IsU64 x → Reads words64 s (be64 x) (x / 2 ^ 32, x % 2 ^ 32)
unfolding words64 be64
words64-Reads x s h =
    then-Reads (λ w. (w.0, x % 2 ^ 32))
      (then-Reads (λ w. (x / 2 ^ 32, w.1)) (resume-Reads s [])
        (λ t. member-Reads _ _ (uint32-Reads (x / 2 ^ 32) t.0 (omega arith)))
        (unfold be32 in omega arith))
      (λ t. member-Reads _ _ (uint32-Reads (x % 2 ^ 32) t.1 (omega arith)))
      (unfold be32 in omega arith)

pub uint64-Reads : (x s : ℕ) → IsU64 x → Reads deserialize_uint64 s (be64 x) x
unfolding deserialize_uint64
uint64-Reads x s h = record {
  whole = λ rest n st ok i j.
      let y : Gives _ _ _ = (words64-Reads x st.junk h).whole rest n st ok i j in
      record {
        state = y.state;
        returns =
            rw (y.returns, le→leb (length (be64 x)) n i)
              (ap (λ v. some (length (be64 x), v, y.state)) (omega arith));
        ok = y.ok;
      };
  part = λ front back rest st ok e i.
      let y : Asks _ _ _ = (words64-Reads x st.junk h).part front back rest st ok e i in
      record {
        used = y.used;
        value = s;
        state = y.state;
        returns = rw (y.returns, lt→leb_false y.used (length front) y.asks_more);
        ok = y.ok;
        asks_more = y.asks_more;
        asks_bound = y.asks_bound;
      };
}

pub allocate_ok : {st : DState} → IsOk st → (st.grants 0 ≡ true) × IsOk (allocate st).1
unfolding allocate
allocate_ok ok = (ok.granted 0, record { no_err = ok.no_err; granted = λ k. ok.granted (suc k) })

dup_str-Gives :
    (s : List ℕ) (t : CString) (rest : List ℕ) (n : ℕ) (st : DState)
    → IsOk st
    → length s + 1 < size_mod
    → Gives (length s + 1) (some s) (dup_str (length s) t (s ++ rest) n st)
unfolding dup_str allocate
dup_str-Gives s t rest n st ok fits = record {
  state = (allocate st).1;
  returns = rw (ok.granted 0, take-append (length s) s rest refl, add_size_eq (length s) 1 fits);
  ok = (allocate_ok ok).1;
}

-- A proper front part of a text with its NUL lies in the text.
front_of_text :
    (s front back : List ℕ)
    → s ++ (0 ∷ []) ≡ front ++ back
    → 0 < length back
    → (m : List ℕ) × (s ≡ front ++ m)
front_of_text s front back e h = elim (append_split s (0 ∷ []) front back e) [
  | inl (m, es, eb, l) ↦ (m, es)
  | inr ([], ef, eb) ↦ ([], sym (append-nil front ∙ ef ∙ append-nil s))
  | inr (c ∷ m, ef, eb) ↦ absurd (omega (arith, ap length eb, length-append m back))
]

load_str-whole :
    (s : List ℕ) (t : CString) (rest : List ℕ) (n : ℕ) (st : DState)
    → All IsChar s
    → length s + 1 < size_mod
    → IsOk st
    → length s + 1 ≤ n
    → Gives (length s + 1) (some s) (load_str t (s ++ (0 ∷ rest)) n st)
unfolding load_str
load_str-whole s t rest n st h fits ok i =
    let y : Gives _ _ _ = dup_str-Gives s t (0 ∷ rest) n st ok fits in
    record {
      state = y.state;
      returns =
          rw (strnlen-text s rest n h (omega arith), lt→ltb (length s) n (omega arith)) y.returns;
      ok = y.ok;
    }

load_str-part :
    (front m : List ℕ) (t : CString) (rest : List ℕ) (st : DState)
    → All IsChar (front ++ m)
    → length front + 2 < size_mod
    → load_str t (front ++ rest) (length front) st ≡ some (length front + 2, t, st)
unfolding load_str
load_str-part front m t rest st h fits =
    rw (strnlen-front front m rest h, le→ltb_false (length front) (length front) (omega arith))
      (ap (λ u. some (u, t, st)) (omega arith))

load_str-Reads :
    (s : List ℕ) (t : CString)
    → All IsChar s
    → IsShort (text_bytes (some s))
    → Reads load_str t (text_bytes (some s)) (some s)
load_str-Reads s t h fits =
    let l = length-append s (0 ∷ []) in
    record {
      whole = λ rest n st ok i j.
          rw (append_assoc, l) (load_str-whole s t rest n st h (omega arith) ok (omega arith));
      part = λ front back rest st ok e i.
          let l1 = ap length e in
          let l2 = length-append front back in
          let (m, es) = front_of_text s front back e i in
          record {
            used = length front + 2;
            value = t;
            state = st;
            returns = load_str-part front m t rest st (rw es at h) (omega arith);
            ok = ok;
            asks_more = omega arith;
            asks_bound = omega arith;
          };
    }

pub str-Reads :
    (s t : CString) → IsText s → IsShort (text_bytes s) → Reads deserialize_str t (text_bytes s) s
unfolding deserialize_str
str-Reads none t h fits = absurd h
str-Reads (some s) t h fits = bail-Reads (load_str-Reads s t h fits)

pub rsrc-Reads :
    (r t : Rsrc) → IsRsrc r → IsShort (rsrc_bytes r) → Reads deserialize_rsrc t (rsrc_bytes r) r
unfolding deserialize_rsrc deserialize_struct rsrc_bytes
rsrc-Reads r t (ho, hp) fits =
    let lo = IsShort-left (text_bytes r.mr_owner) (text_bytes r.mr_path) fits in
    let lp = IsShort-right (text_bytes r.mr_owner) (text_bytes r.mr_path) fits in
    bail-Reads (
      then-Reads (λ t. record t { mr_path = r.mr_path })
        (then-Reads (λ t. record t { mr_owner = r.mr_owner }) (resume-Reads t [])
          (λ t. member-Reads _ _ (str-Reads r.mr_owner t.mr_owner ho lo)) lo)
        (λ t. member-Reads _ _ (str-Reads r.mr_path t.mr_path hp lp)) fits)
