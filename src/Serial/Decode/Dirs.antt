-- ===== src/Serial/Decode/Dirs.antt =====
-- deserialize_dir and deserialize_dirent read the wire form of a directory, into a fresh array or
-- into one that an earlier attempt has allocated.
use middfs.Common.{ℕ, zero, suc, ◌+◌, ◌<◌, ◌≡◌, refl, sym, ap, ◌∙◌, arith}
use middfs.Common.{List, [], ◌∷◌, ◌++◌, append_assoc, append-nil, true, Option, none, some}
use middfs.Common.{length, length-append, length-set, set, get_elem?, replicate, All}
use middfs.Util.{sizerem}
use mathlib.Core.Path.{subst}
use middfs.Common.{drop, length-replicate, >>=-eq-some, get_elem?_lt, set-append}
use mathlib.Core.Option.{some-injective}
use middfs.Pkt.{Dirent, Dir, zero_dirent, entries}
use middfs.Serial.Format.{be32, be64, text_bytes, dirent_bytes, dirents_bytes, dir_bytes}
use middfs.Serial.Valid.{IsDirent, IsDir, HasEntries, HasEntries-entries}
use middfs.Serial.Encode.Packets.{dirents_bytes-ge}
use middfs.Serial.Reader.{
  DState, allocate, Deserializer, Asks, Gives, Reads, checked_err, member, ◌<+◌, resume,
}
use middfs.Serial.Reader.Then.{resume_keeps, then-Reads, kept-Reads}
use middfs.Serial.Reader.Forms.{member-Reads, resume-Reads, checked_err_to-Reads}
use middfs.Serial.Decode.{
  deserialize_uint64, dir_rest_with, deserialize_dirent, dirent_at, dir_entries, dir_rest,
  deserialize_dir,
}
use middfs.Serial.Decode.Basic.{
  IsShort, IsShort-left, IsShort-right, int32-Reads, uint64-Reads, str-Reads,
}
use middfs.Serial.Decode.Basic.{allocate_ok}

dirent-Reads :
    (e t : Dirent)
    → IsDirent e
    → IsShort (dirent_bytes e)
    → Reads deserialize_dirent t (dirent_bytes e) e
unfolding deserialize_dirent dirent_bytes
dirent-Reads e t (hn, hm) fits =
    let fn = IsShort-left (text_bytes e.mde_name) (be32 e.mde_mode) fits in
    then-Reads (λ t. record t { mde_mode = e.mde_mode })
      (then-Reads (λ t. record t { mde_name = e.mde_name }) (resume-Reads t [])
        (λ t. member-Reads _ _ (str-Reads e.mde_name t.mde_name hn fn)) fn)
      (λ t. member-Reads _ _ (int32-Reads e.mde_mode t.mde_mode hm)) fits

-- The array is there, with `count` entries.
abbrev HasRoom : ℕ → Dir → Type 0
HasRoom count dir = (ents : List Dirent) × (dir.mdir_ents ≡ some ents) × (length ents ≡ count)

-- Reading an entry keeps the number of entries, whatever the bytes are.
dirent_at_keeps :
    (i count : ℕ) (dir : Dir) (buf : List ℕ) (n : ℕ) (st : DState) (r : ℕ × Dir × DState)
    → HasRoom count dir
    → dirent_at i dir buf n st ≡ some r
    → HasRoom count r.1
unfolding dirent_at
dirent_at_keeps i count dir buf n st r (ents, e, l) h =
    let (ents1, e1, h1) = >>=-eq-some dir.mdir_ents _ h in
    let (old, e2, h2) = >>=-eq-some (get_elem? ents1 i) _ h1 in
    let (got, e3, h3) = >>=-eq-some (deserialize_dirent old buf n st) _ h2 in
    let same : ents1 ≡ ents = some-injective _ _ (sym e1 ∙ e) in
    (
      set ents1 i got.1,
      ap (λ t. t.1.mdir_ents) (sym (some-injective _ _ h3)),
      length-set ents1 i got.1 ∙ ap length same ∙ l,
    )

abbrev put_entry : ℕ → Dirent → Dir → Dir
put_entry i e dir = record dir { mdir_ents = some (set (entries dir.mdir_ents) i e) }

-- An entry in range is read into its place.
dirent_at-Reads :
    (i count : ℕ) (e : Dirent) (dir : Dir)
    → HasRoom count dir
    → i < count
    → IsDirent e
    → IsShort (dirent_bytes e)
    → Reads (dirent_at i) dir (dirent_bytes e) (put_entry i e dir)
unfolding dirent_at
dirent_at-Reads i count e dir (ents, he, hl) hi v fits =
    let (old, ho) = get_elem?_lt ents i (omega arith) in
    let w = dirent-Reads e old v fits in
    record {
      whole = λ rest n st ok h k.
          let y : Gives _ _ _ = w.whole rest n st ok h k in
          record { state = y.state; returns = rw (he, ho, y.returns); ok = y.ok };
      part = λ front back rest st ok h k.
          let y : Asks _ _ _ = w.part front back rest st ok h k in
          record {
            used = y.used;
            value = put_entry i y.value dir;
            state = y.state;
            returns = rw (he, ho, y.returns);
            ok = y.ok;
            asks_more = y.asks_more;
            asks_bound = y.asks_bound;
          };
    }

-- What a code leaves: the array stays, with as many entries.
abbrev KeepsRoom : ℕ → Dir → Deserializer Dir → Type 0
KeepsRoom count s f =
    (buf : List ℕ) (n : ℕ) (st : DState) (r : ℕ × Dir × DState)
    → f s buf n st ≡ some r
    → HasRoom count r.1

KeepsRoom-then :
    (count i : ℕ) (s : Dir) (done : Deserializer Dir)
    → KeepsRoom count s done
    → KeepsRoom count s (done <+ dirent_at i)
unfolding ◌<+◌
KeepsRoom-then count i s done keeps buf n st r h =
    let ((u, d, st1), e1, h1) = >>=-eq-some (done s buf n st) _ h in
    let (got, e2, h2) = >>=-eq-some (dirent_at i d (drop u buf) (sizerem n u) st1) _ h1 in
    let (ents, e, l) =
      dirent_at_keeps i count d (drop u buf) (sizerem n u) st1 got (keeps buf n st (u, d, st1) e1)
        e2 in
    (ents, ap (λ t. t.1.mdir_ents) (sym (some-injective _ _ h2)) ∙ e, l)

-- The entries from `i` on, behind a reader of what comes before them.
dir_entries-Reads :
    (done : Deserializer Dir) (before : List ℕ) (s dir : Dir) (i left count : ℕ)
    (pre post olds : List Dirent)
    → Reads done s before dir
    → KeepsRoom count s done
    → dir.mdir_ents ≡ some (pre ++ olds)
    → i ≡ length pre
    → left ≡ length post
    → left ≡ length olds
    → i + left ≡ count
    → All IsDirent post
    → IsShort (dirents_bytes before post)
    → Reads
        (dir_entries done i left)
        s
        (dirents_bytes before post)
        (record dir { mdir_ents = some (pre ++ post) })
unfolding dir_entries dirents_bytes
dir_entries-Reads done before s dir i zero count pre [] [] w keeps he hi h1 h2 hc v fits =
    subst (λ d. Reads done s before d) (λ j. record dir { mdir_ents = he j }) w
dir_entries-Reads done before s dir i zero count pre (e ∷ post) olds w keeps he hi h1 h2 hc v fits =
    absurd (omega arith)
dir_entries-Reads done before s dir i zero count pre [] (o ∷ olds) w keeps he hi h1 h2 hc v fits =
    absurd (omega arith)
dir_entries-Reads done before s dir i (suc left) count pre [] olds w keeps he hi h1 h2 hc v fits =
    absurd (omega arith)
dir_entries-Reads done before s dir i (suc left) count pre (e ∷ post) [] w keeps he hi h1 h2 hc v
      fits =
    absurd (omega arith)
dir_entries-Reads done before s dir i (suc left) count pre (e ∷ post) (old ∷ olds) w keeps he hi h1
      h2 hc v fits =
    let room : IsShort (before ++ dirent_bytes e) =
      omega (arith, dirents_bytes-ge (before ++ dirent_bytes e) post) in
    let now : some (set (entries dir.mdir_ents) i e) ≡ some ((pre ++ (e ∷ [])) ++ olds) =
      ap (λ o. some (set (entries o) i e)) he ∙ ap some (set-append pre i old e olds hi) in
    let step : Reads (done <+ dirent_at i) s (before ++ dirent_bytes e) (put_entry i e dir) =
      kept-Reads (HasRoom count) (put_entry i e) w (keeps)
        (λ t room_t.
          dirent_at-Reads i count e t room_t (omega arith) v.0
            (IsShort-right before (dirent_bytes e) room))
        room in
    let l = length-append pre (e ∷ []) in
    subst
      (λ ents.
        Reads (dir_entries (done <+ dirent_at i) (i + 1) left) s
          (dirents_bytes (before ++ dirent_bytes e) post) (record dir { mdir_ents = some ents }))
      (append_assoc pre (e ∷ []) post)
      (dir_entries-Reads (done <+ dirent_at i) (before ++ dirent_bytes e) s (put_entry i e dir)
        (i + 1) left count (pre ++ (e ∷ [])) post olds step (KeepsRoom-then count i s done keeps)
        now (omega arith) (omega arith) (omega arith) (omega arith) v.1 fits)

-- The entries of a directory whose array is there, read behind a size that has been set.
entries-Reads :
    (a : List ℕ) (s : Dir) (olds es : List Dirent)
    → s.mdir_ents ≡ some olds
    → s.mdir_count ≡ length es
    → length olds ≡ length es
    → All IsDirent es
    → IsShort (dirents_bytes a es)
    → Reads
        (dir_entries (resume (length a)) 0 s.mdir_count)
        s
        (dirents_bytes a es)
        (record s { mdir_ents = some es })
entries-Reads a s olds es e hc ho v fits =
    dir_entries-Reads (resume (length a)) a s s 0 s.mdir_count s.mdir_count [] es olds
      (resume-Reads s a)
      (λ buf n st r h.
        subst (HasRoom s.mdir_count) (resume_keeps (length a) s buf n st r h)
          (olds, e, ho ∙ sym hc))
      e refl hc (hc ∙ sym ho) (omega arith) v fits

abbrev fresh_array : Dir → Dir
fresh_array s = record s { mdir_ents = some (replicate s.mdir_count zero_dirent) }

dir_rest-none :
    (u : ℕ) (s : Dir) (buf : List ℕ) (n : ℕ) (st : DState)
    → s.mdir_ents ≡ none
    → st.grants 0 ≡ true
    → dir_rest u s buf n st
      ≡ dir_entries (resume u) 0 s.mdir_count (fresh_array s) buf n (allocate st).1
unfolding dir_rest dir_rest_with allocate
dir_rest-none u s buf n st e g = rw (e, g)

dir_rest-some :
    (u : ℕ) (s : Dir) (buf : List ℕ) (n : ℕ) (st : DState) (olds : List Dirent)
    → s.mdir_ents ≡ some olds
    → dir_rest u s buf n st ≡ dir_entries (resume u) 0 s.mdir_count s buf n st
unfolding dir_rest dir_rest_with
dir_rest-some u s buf n st olds e = ap (λ o. dir_rest_with o u s buf n st) e

-- A target for a directory of `count` entries: no array yet, or one of that many entries.
abbrev pub Accepts : ℕ → Option (List Dirent) → Type 0
Accepts count none = Unit
Accepts count (some olds) = length olds ≡ count

rest-Reads :
    (a : List ℕ) (s : Dir) (ents : Option (List Dirent)) (es : List Dirent)
    → s.mdir_ents ≡ ents
    → Accepts (length es) ents
    → s.mdir_count ≡ length es
    → All IsDirent es
    → IsShort (dirents_bytes a es)
    → Reads (dir_rest (length a)) s (dirents_bytes a es) (record s { mdir_ents = some es })
rest-Reads a s none es e acc hc v fits =
    let w =
      entries-Reads a (fresh_array s) (replicate s.mdir_count zero_dirent) es refl hc
        (length-replicate s.mdir_count zero_dirent ∙ hc) v fits in
    record {
      whole = λ rest n st ok h k.
          rw (dir_rest-none (length a) s _ n st e (ok.granted 0))
            (w.whole rest n (allocate st).1 (allocate_ok ok).1 h k);
      part = λ front back rest st ok h k.
          rw (dir_rest-none (length a) s _ (length front) st e (ok.granted 0))
            (w.part front back rest (allocate st).1 (allocate_ok ok).1 h k);
    }
rest-Reads a s (some olds) es e acc hc v fits =
    let w = entries-Reads a s olds es e hc acc v fits in
    record {
      whole = λ rest n st ok h k.
          rw (dir_rest-some (length a) s _ n st olds e) (w.whole rest n st ok h k);
      part = λ front back rest st ok h k.
          rw (dir_rest-some (length a) s _ (length front) st olds e)
            (w.part front back rest st ok h k);
    }

dirents_bytes_split :
    (before : List ℕ) (es : List Dirent) → (b : List ℕ) × (dirents_bytes before es ≡ before ++ b)
unfolding dirents_bytes
dirents_bytes_split before [] = ([], sym (append-nil before))
dirents_bytes_split before (e ∷ es) =
    let (b, h) = dirents_bytes_split (before ++ dirent_bytes e) es in
    (dirent_bytes e ++ b, h ∙ append_assoc before (dirent_bytes e) b)

some-entries :
    (count : ℕ) (ents : Option (List Dirent)) → HasEntries count ents → some (entries ents) ≡ ents
some-entries count none h = absurd h
some-entries count (some es) h = refl

Accepts-as :
    {count count' : ℕ}
    → count ≡ count'
    → (o : Option (List Dirent)) → Accepts count o
    → Accepts count' o
Accepts-as e none h = h
Accepts-as e (some olds) h = h ∙ e

abbrev dir_rest_all : Deserializer Dir
dir_rest_all =
    checked_err
      (resume 0
        <+ member (λ d. d.mdir_count) (λ v d. record d { mdir_count = v }) deserialize_uint64)
      dir_rest

-- `deserialize_dir` reads the wire form of a valid directory, if the target has no array yet or one
-- of the right size.
pub dir-Reads :
    (d s : Dir)
    → IsDir d
    → Accepts d.mdir_count s.mdir_ents
    → IsShort (dir_bytes d)
    → Reads deserialize_dir s (dir_bytes d) d
unfolding deserialize_dir dir_bytes
dir-Reads d s (hc, he) acc fits =
    let (count, each) = HasEntries-entries d.mdir_ents he in
    let a = be64 d.mdir_count in
    let t = record s { mdir_count = d.mdir_count } in
    let es = entries d.mdir_ents in
    let w : Reads dir_rest_all s (dirents_bytes a es) (record t { mdir_ents = some es }) =
      checked_err_to-Reads dir_rest (dirents_bytes_split a es)
        (then-Reads (λ t. record t { mdir_count = d.mdir_count }) (resume-Reads s [])
          (λ t. member-Reads _ _ (uint64-Reads d.mdir_count t.mdir_count hc))
          (unfold be64 in unfold be32 in omega arith))
        (rest-Reads a t s.mdir_ents es refl (Accepts-as count s.mdir_ents acc) count each fits) in
    subst (λ o. Reads dir_rest_all s (dirents_bytes a es) (record t { mdir_ents = o }))
      (some-entries d.mdir_count d.mdir_ents he) w
