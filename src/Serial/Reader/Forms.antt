-- ===== src/Serial/Reader/Forms.antt =====
-- The other forms of composition in the deserialize_* functions keep the contract `Reads`.
use middfs.Common.{
  ℕ, ◌+◌, ◌*◌, ◌≤◌, ◌<◌, ◌≡◌, refl, sym, ap, ◌∙◌, arith, List, [], ◌++◌, append_assoc,
}
use middfs.Common.{Option, some, Bool, true, false, if◌then◌else◌, length, length-append}
use middfs.Common.{append_split, inl, inr, le→ltb_false, lt→ltb, ◌==◌}
use middfs.Serial.Format.{optional}
use middfs.Serial.Reader.{DState, IsOk, Deserializer, resume, member, when, switch, bail, finish}
use middfs.Serial.Reader.{checked, checked_err, Asks, Gives, Reads}

no_err_test : {st : DState} → IsOk st → (st.err == 0) ≡ true
no_err_test ok = ground (arith, ok.no_err)

module _ {S : Type 0} where
  -- A size that has been set already counts as read.
  pub resume-Reads : (s : S) (a : List ℕ) → Reads (resume (length a)) s a s
  unfolding resume
  resume-Reads s a = record {
    whole = λ rest n st ok h k. record { state = st; returns = refl; ok = ok };
    part = λ front back rest st ok e h.
        let l = ap length e in
        let l2 = length-append front back in
        record {
          used = length a;
          value = s;
          state = st;
          returns = refl;
          ok = ok;
          asks_more = omega arith;
          asks_bound = omega arith;
        };
  }

  pub when-Reads :
      (b : Bool) {f : Deserializer S} {s s' : S} {out : List ℕ}
      → (b ≡ true → Reads f s out s')
      → Reads (when b f) s (optional b out) (if b then s' else s)
  unfolding when optional
  when-Reads true w = w refl
  when-Reads false {s = s} w = resume-Reads s []

  pub if-Reads :
      (b : Bool) {f g : Deserializer S} {s t t' : S} {out out' : List ℕ}
      → (b ≡ true → Reads f s out t)
      → (b ≡ false → Reads g s out' t')
      → Reads (if b then f else g) s (if b then out else out') (if b then t else t')
  if-Reads true w w' = w refl
  if-Reads false w w' = w' refl

  pub switch-Reads :
      (k : S → Deserializer S) {s s' : S} {out : List ℕ}
      → Reads (k s) s out s'
      → Reads (switch k) s out s'
  unfolding switch
  switch-Reads k w = record { whole = w.whole; part = w.part }

  -- A stronger form of a reader, which agrees with it when there is no error.
  same-Reads :
      {f g : Deserializer S} {s s' : S} {out : List ℕ}
      → ((buf : List ℕ) (n : ℕ) (st : DState) (r : ℕ × S × DState)
          → IsOk st
          → f s buf n st ≡ some r
          → IsOk r.2
          → g s buf n st ≡ some r)
      → Reads f s out s'
      → Reads g s out s'
  same-Reads agree w = record {
    whole = λ rest n st ok h k.
        let y : Gives _ _ _ = w.whole rest n st ok h k in
        record { state = y.state; returns = agree _ n st _ ok y.returns y.ok; ok = y.ok };
    part = λ front back rest st ok e h.
        let y : Asks _ _ _ = w.part front back rest st ok e h in
        record {
          used = y.used;
          value = y.value;
          state = y.state;
          returns = agree _ _ st _ ok y.returns y.ok;
          ok = y.ok;
          asks_more = y.asks_more;
          asks_bound = y.asks_bound;
        };
  }

  bail_agrees :
      (f : Deserializer S) (s : S) (buf : List ℕ) (n : ℕ) (st : DState) (r : ℕ × S × DState)
      → IsOk st
      → f s buf n st ≡ some r
      → IsOk r.2
      → bail f s buf n st ≡ some r
  unfolding bail
  bail_agrees f s buf n st r ok e k = rw (no_err_test ok) e

  finish_agrees :
      (f : Deserializer S) (s : S) (buf : List ℕ) (n : ℕ) (st : DState) (r : ℕ × S × DState)
      → IsOk st
      → f s buf n st ≡ some r
      → IsOk r.2
      → finish f s buf n st ≡ some r
  unfolding finish
  finish_agrees f s buf n st r ok e k = rw (e, no_err_test k)

  pub bail-Reads :
      {f : Deserializer S} {s s' : S} {out : List ℕ} → Reads f s out s' → Reads (bail f) s out s'
  bail-Reads {f} {s} w = same-Reads (bail_agrees f s) w

  pub finish-Reads :
      {f : Deserializer S} {s s' : S} {out : List ℕ} → Reads f s out s' → Reads (finish f) s out s'
  finish-Reads {f} {s} w = same-Reads (finish_agrees f s) w

  pub member-Reads :
      {A : Type 0} (get : S → A) (put : A → S → S) {f : Deserializer A} {s : S} {a : A}
      {out : List ℕ}
      → Reads f (get s) out a
      → Reads (member get put f) s out (put a s)
  unfolding member
  member-Reads get put {s = s} w = record {
    whole = λ rest n st ok h k.
        let y : Gives _ _ _ = w.whole rest n st ok h k in
        record { state = y.state; returns = rw (y.returns); ok = y.ok };
    part = λ front back rest st ok e h.
        let y : Asks _ _ _ = w.part front back rest st ok e h in
        record {
          used = y.used;
          value = put y.value s;
          state = y.state;
          returns = rw (y.returns);
          ok = y.ok;
          asks_more = y.asks_more;
          asks_bound = y.asks_bound;
        };
  }

  -- The test between the parts passes exactly when the first part is there.
  checked_stops :
      (f : Deserializer S) (k : ℕ → Deserializer S) {s s' : S} {st st' : DState} {u n : ℕ}
      {buf : List ℕ}
      → f s buf n st ≡ some (u, s', st')
      → n < u
      → (checked f k s buf n st ≡ some (u, s', st'))
        × (checked_err f k s buf n st ≡ some (u, s', st'))
  unfolding checked checked_err
  checked_stops f k {u = u} {n = n} e h = (rw (e, lt→ltb n u h), rw (e, lt→ltb n u h))

  checked_goes :
      (f : Deserializer S) (k : ℕ → Deserializer S) {s s' : S} {st st' : DState} {u n : ℕ}
      {buf : List ℕ} {r : Option (ℕ × S × DState)}
      → f s buf n st ≡ some (u, s', st')
      → u ≤ n
      → IsOk st'
      → k u s' buf n st' ≡ r
      → (checked f k s buf n st ≡ r) × (checked_err f k s buf n st ≡ r)
  unfolding checked checked_err
  checked_goes f k {u = u} {n = n} e h ok e2 =
      (rw (e, le→ltb_false n u h) e2, rw (e, le→ltb_false n u h, no_err_test ok) e2)

  module _ {f : Deserializer S} (k : ℕ → Deserializer S) {s s' s'' : S} {a : List ℕ} (b : List ℕ)
      (wf : Reads f s a s') (wk : Reads (k (length a)) s' (a ++ b) s'') where
    both_whole :
        (rest : List ℕ) (n : ℕ) (st : DState)
        → IsOk st
        → length (a ++ b) ≤ n
        → n ≤ length ((a ++ b) ++ rest)
        → Gives (length (a ++ b)) s'' (checked f k s ((a ++ b) ++ rest) n st)
          × Gives (length (a ++ b)) s'' (checked_err f k s ((a ++ b) ++ rest) n st)
    both_whole rest n st ok h j =
        let l = length-append a b in
        let y : Gives (length a) s' (f s ((a ++ b) ++ rest) n st) =
          rw append_assoc (wf.whole (b ++ rest) n st ok (omega arith) (rw append_assoc at j)) in
        let z : Gives (length (a ++ b)) s'' (k (length a) s' ((a ++ b) ++ rest) n y.state) =
          wk.whole rest n y.state y.ok h j in
        let (e, e') = checked_goes f k y.returns (omega arith) y.ok z.returns in
        (
          record { state = z.state; returns = e; ok = z.ok },
          record { state = z.state; returns = e'; ok = z.ok },
        )

    both_first :
        (front m rest : List ℕ) (st : DState)
        → IsOk st
        → a ≡ front ++ m
        → 0 < length m
        → Asks
            (2 * length (a ++ b))
            (length front)
            (checked f k s (front ++ rest) (length front) st)
          × Asks
              (2 * length (a ++ b))
              (length front)
              (checked_err f k s (front ++ rest) (length front) st)
    both_first front m rest st ok ea lm =
        let l = length-append a b in
        let y : Asks (2 * length a) (length front) (f s (front ++ rest) (length front) st) =
          wf.part front m rest st ok ea lm in
        let (e, e') = checked_stops f k y.returns y.asks_more in
        (again y e (omega (arith, y.asks_bound)), again y e' (omega (arith, y.asks_bound)))
      where
        again :
            {r r' : Option (ℕ × S × DState)} {bound bound' n : ℕ} (y : Asks bound n r)
            → r' ≡ some (y.used, y.value, y.state)
            → y.used ≤ bound'
            → Asks bound' n r'
        again y e h = record {
          used = y.used;
          value = y.value;
          state = y.state;
          returns = e;
          ok = y.ok;
          asks_more = y.asks_more;
          asks_bound = h;
        }

    both_second :
        (front m back rest : List ℕ) (st : DState)
        → IsOk st
        → front ≡ a ++ m
        → b ≡ m ++ back
        → 0 < length back
        → Asks
            (2 * length (a ++ b))
            (length front)
            (checked f k s (front ++ rest) (length front) st)
          × Asks
              (2 * length (a ++ b))
              (length front)
              (checked_err f k s (front ++ rest) (length front) st)
    both_second front m back rest st ok ef eb h =
        let l : length front ≡ length a + length m = ap length ef ∙ length-append a m in
        let l2 = length-append front rest in
        let cut : a ++ (m ++ rest) ≡ front ++ rest =
          sym (append_assoc a m rest) ∙ ap (λ t. t ++ rest) (sym ef) in
        let y : Gives (length a) s' (f s (front ++ rest) (length front) st) = rw cut at (
          wf.whole (m ++ rest) (length front) st ok (omega arith) (omega (arith, ap length cut))) in
        let z : Asks (2 * length (a ++ b)) (length front)
            (k (length a) s' (front ++ rest) (length front) y.state) =
          wk.part front back rest y.state y.ok
            (ap (λ t. a ++ t) eb ∙ sym (append_assoc a m back) ∙ ap (λ t. t ++ back) (sym ef)) h in
        let (e, e') = checked_goes f k y.returns (omega arith) y.ok z.returns in
        (
          record {
            used = z.used;
            value = z.value;
            state = z.state;
            returns = e;
            ok = z.ok;
            asks_more = z.asks_more;
            asks_bound = z.asks_bound;
          },
          record {
            used = z.used;
            value = z.value;
            state = z.state;
            returns = e';
            ok = z.ok;
            asks_more = z.asks_more;
            asks_bound = z.asks_bound;
          },
        )

    -- Both forms of the early return keep the contract.
    pub checked-Reads : Reads (checked f k) s (a ++ b) s'' × Reads (checked_err f k) s (a ++ b) s''
    checked-Reads = (
      record {
        whole = λ rest n st ok h j. (both_whole rest n st ok h j).0;
        part = λ front back rest st ok e h. elim (append_split a b front back e) [
          | inl (m, ea, eb, lm) ↦ (both_first front m rest st ok ea lm).0
          | inr (m, ea, eb) ↦ (both_second front m back rest st ok ea eb h).0
        ];
      },
      record {
        whole = λ rest n st ok h j. (both_whole rest n st ok h j).1;
        part = λ front back rest st ok e h. elim (append_split a b front back e) [
          | inl (m, ea, eb, lm) ↦ (both_first front m rest st ok ea lm).1
          | inr (m, ea, eb) ↦ (both_second front m back rest st ok ea eb h).1
        ];
      },
    )

  pub checked_to-Reads :
      {f : Deserializer S} (k : ℕ → Deserializer S) {s s' s'' : S} {a out : List ℕ}
      → (b : List ℕ) × (out ≡ a ++ b)
      → Reads f s a s'
      → Reads (k (length a)) s' out s''
      → Reads (checked f k) s out s''
  checked_to-Reads k (b, e) wf wk = rw e ((checked-Reads k b wf (rw e at wk)).0)

  pub checked_err_to-Reads :
      {f : Deserializer S} (k : ℕ → Deserializer S) {s s' s'' : S} {a out : List ℕ}
      → (b : List ℕ) × (out ≡ a ++ b)
      → Reads f s a s'
      → Reads (k (length a)) s' out s''
      → Reads (checked_err f k) s out s''
  checked_err_to-Reads k (b, e) wf wk = rw e ((checked-Reads k b wf (rw e at wk)).1)
