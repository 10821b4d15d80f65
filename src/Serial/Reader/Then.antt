-- ===== src/Serial/Reader/Then.antt =====
-- One deserialize_* call behind another keeps the contract `Reads`.
use middfs.Common.{ℕ, ◌+◌, ◌-◌, ◌*◌, ◌≤◌, ◌<◌, ◌≡◌, refl, sym, ap, ◌∙◌, arith, List, []}
use middfs.Common.{◌∷◌, ◌++◌, append_assoc, some}
use middfs.Common.{length, drop, length-append, drop-append}
use middfs.Common.{size_mod, add_size_eq, inl, inr, append_split}
use middfs.Util.{sizerem, sizerem_le, sizerem_lt}
use mathlib.Core.Option.{some-injective}
use mathlib.Core.Path.{subst}
use middfs.Serial.Reader.Forms.{resume-Reads}
use middfs.Serial.Reader.{resume, DState, IsOk, Deserializer, ◌<+◌, Asks, Gives, Reads}

module _ {S : Type 0} where
  -- With no byte at hand a reader neither stops nor fails.
  no_room :
      {g : Deserializer S} {s s' : S} {b : List ℕ} (w : Reads g s b s') (buf : List ℕ) (st : DState)
      → IsOk st
      → (r : ℕ × S × DState) × (g s buf 0 st ≡ some r) × IsOk r.2 × (r.0 ≤ 2 * length b)
  no_room {s' = s'} {b = []} w buf st ok =
      let y : Gives 0 s' _ = w.whole buf 0 st ok (omega arith) (omega arith) in
      ((0, s', y.state), y.returns, y.ok, omega arith)
  no_room {b = x ∷ b} w buf st ok =
      let y : Asks _ 0 _ = w.part [] (x ∷ b) buf st ok refl (omega arith) in
      ((y.used, y.value, y.state), y.returns, y.ok, y.asks_bound)

  -- Two calls in turn, from what each of them returns.
  step_then :
      (f g : Deserializer S) {s s' s'' : S} {st st' st'' : DState} {u u' n room total : ℕ}
      {buf remaining : List ℕ}
      → f s buf n st ≡ some (u, s', st')
      → drop u buf ≡ remaining
      → sizerem n u ≡ room
      → g s' remaining room st' ≡ some (u', s'', st'')
      → u + u' ≡ total
      → total < size_mod
      → (f <+ g) s buf n st ≡ some (total, s'', st'')
  unfolding ◌<+◌
  step_then f g {s'' = s''} {st'' = st''} {u = u} {u' = u'} e1 e2 e3 e4 e5 h =
      rw (e1, e2, e3, e4) (ap (λ t. some (t, s'', st'')) (add_size_eq u u' (omega arith) ∙ e5))

  -- `P` holds of every value that the first call leaves, and the second is right at such values.
  module _ {f g : Deserializer S} {s s' : S} {a b : List ℕ} (P : S → Type 0) (upd : S → S)
      (wf : Reads f s a s')
      (keeps : (buf : List ℕ) (n : ℕ) (st : DState) (r : ℕ × S × DState)
        → f s buf n st ≡ some r
        → P r.1)
      (wg : (t : S) → P t → Reads g t b (upd t)) (fits : 2 * length (a ++ b) < size_mod) where
    whole_then :
        (rest : List ℕ) (n : ℕ) (st : DState)
        → IsOk st
        → length (a ++ b) ≤ n
        → n ≤ length (a ++ (b ++ rest))
        → Gives (length (a ++ b)) (upd s') ((f <+ g) s (a ++ (b ++ rest)) n st)
    whole_then rest n st ok h k =
        let l = length-append a b in
        let l2 = length-append b rest in
        let l3 = length-append a (b ++ rest) in
        let y : Gives (length a) s' (f s (a ++ (b ++ rest)) n st) =
          wf.whole (b ++ rest) n st ok (omega arith) (omega arith) in
        let z : Gives (length b) (upd s') (g s' (b ++ rest) (n - length a) y.state) =
          (wg s' (keeps _ _ st _ y.returns)).whole rest (n - length a) y.state y.ok (omega arith)
            (omega arith) in
        record {
          state = z.state;
          returns =
              step_then f g y.returns (drop-append (length a) a (b ++ rest) refl)
                (sizerem_le n (length a) (omega arith)) z.returns (sym l) (omega arith);
          ok = z.ok;
        }

    -- The cut falls into the first part.
    part_first :
        (front m rest : List ℕ) (st : DState)
        → IsOk st
        → a ≡ front ++ m
        → 0 < length m
        → Asks (2 * length (a ++ b)) (length front) ((f <+ g) s (front ++ rest) (length front) st)
    part_first front m rest st ok ea lm =
        let y : Asks (2 * length a) (length front) (f s (front ++ rest) (length front) st) =
          wf.part front m rest st ok ea lm in
        let (r, er, ro, rb) =
          no_room (wg y.value (keeps _ _ st _ y.returns)) (drop y.used (front ++ rest)) y.state
            y.ok in
        let l = length-append a b in
        record {
          used = y.used + r.0;
          value = r.1;
          state = r.2;
          returns =
              step_then f g y.returns refl (sizerem_lt (length front) y.used y.asks_more) er refl
                (omega (arith, y.asks_bound));
          ok = ro;
          asks_more = omega (arith, y.asks_more);
          asks_bound = omega (arith, y.asks_bound);
        }

    -- The cut falls into the second part.
    part_second :
        (m back rest : List ℕ) (st : DState)
        → IsOk st
        → b ≡ m ++ back
        → 0 < length back
        → Asks
            (2 * length (a ++ b))
            (length (a ++ m))
            ((f <+ g) s (a ++ (m ++ rest)) (length (a ++ m)) st)
    part_second m back rest st ok eb h =
        let l = length-append a b in
        let lm = length-append a m in
        let l2 = length-append m rest in
        let l3 = length-append a (m ++ rest) in
        let y : Gives (length a) s' (f s (a ++ (m ++ rest)) (length (a ++ m)) st) =
          wf.whole (m ++ rest) (length (a ++ m)) st ok (omega arith) (omega arith) in
        let z : Asks (2 * length b) (length m) (g s' (m ++ rest) (length m) y.state) =
          (wg s' (keeps _ _ st _ y.returns)).part m back rest y.state y.ok eb h in
        record {
          used = length a + z.used;
          value = z.value;
          state = z.state;
          returns =
              step_then f g y.returns (drop-append (length a) a (m ++ rest) refl)
                (sizerem_le (length (a ++ m)) (length a) (omega arith)
                  ∙ (let d : length (a ++ m) - length a ≡ length m = omega arith in d))
                z.returns refl (omega (arith, z.asks_bound));
          ok = z.ok;
          asks_more = omega (arith, z.asks_more);
          asks_bound = omega (arith, z.asks_bound);
        }

    -- One reader behind another reads the one byte string behind the other.
    pub kept-Reads : Reads (f <+ g) s (a ++ b) (upd s')
    kept-Reads = record {
      whole =
          λ rest n st ok h k. rw append_assoc (whole_then rest n st ok h (rw append_assoc at k));
      part = λ front back rest st ok e h. elim (append_split a b front back e) [
        | inl (m, ea, eb, lm) ↦ part_first front m rest st ok ea lm
        | inr (m, ea, eb) ↦ rw (ea, append_assoc) (part_second m back rest st ok eb h)
      ];
    }

  pub then-Reads :
      {f g : Deserializer S} {s s' : S} {a b : List ℕ} (upd : S → S)
      → Reads f s a s'
      → ((t : S) → Reads g t b (upd t))
      → 2 * length (a ++ b) < size_mod
      → Reads (f <+ g) s (a ++ b) (upd s')
  then-Reads upd wf wg fits = kept-Reads (λ t. Unit) upd wf (λ _ _ _ _ _. tt) (λ t _. wg t) fits

  pub resume_keeps :
      (u : ℕ) (s : S) (buf : List ℕ) (n : ℕ) (st : DState) (r : ℕ × S × DState)
      → resume u s buf n st ≡ some r
      → s ≡ r.1
  unfolding resume
  resume_keeps u s buf n st r e = ap (λ t. t.1) (some-injective _ _ e)

  -- Behind a size that has been set, the next call only has to be right at the value at hand.
  pub resumed-Reads :
      {g : Deserializer S} {s s' : S} (a : List ℕ) {b : List ℕ}
      → Reads g s b s'
      → 2 * length (a ++ b) < size_mod
      → Reads (resume (length a) <+ g) s (a ++ b) s'
  resumed-Reads {g} {s} {s' = s'} a {b = b} wg fits =
      kept-Reads (λ t. s ≡ t) (λ _. s') (resume-Reads s a) (resume_keeps (length a) s)
        (λ t e. subst (λ t. Reads g t b s') e wg) fits
