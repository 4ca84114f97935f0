-- ===== src/Daemon/Ends.antt =====
-- How the main loop of the daemon ends.
use mathlib.Core.Path.{subst}
use fusg.Base.{
  ℕ, Bool, true, false, not, ◌&&◌, ◌||◌, List, [], ◌∷◌, Option, none, some, ℤ, success,
  is_minus_one, if◌then◌else◌, ◌≡◌, refl, sym, inl, inr, arith, All, Bool-cases,
}
use fusg.Db.Platform.{LockOp, Platform}
use fusg.Db.State.{Db}
use fusg.Db.Lock.{db_flush}
use fusg.Daemon.State.{
  Mode, op_parse_file, op_help, op_parse_stdin, Daemon, Callback, Wait, Round, on_db,
}
use fusg.Daemon.Work.{Progress, waiting, finished, handle_events, work_round, shut_down, work}
use fusg.Daemon.Control.{IsGone, work_round-IsGone}
use fusg.Daemon.Plan.{Waited, answer, waited}
use fusg.Daemon.Clean.{IsClean, CleanAfter, db_flush-CleanAfter}

-- `select` returns in the end: without an interruption, or with one of the two signals
abbrev pub has_answer : List Wait → Bool
has_answer [] = false
has_answer (w ∷ ws) =
    not (is_minus_one w.retval && w.interrupted)
    || (w.signals.hup || (w.signals.term || has_answer ws))

-- SIGTERM arrives while `select` waits: before the return that ends the wait
abbrev pub has_term : List Wait → Bool
has_term [] = false
has_term (w ∷ ws) =
    w.signals.term || (is_minus_one w.retval && w.interrupted && not w.signals.hup && has_term ws)

-- a daemon that reads a file does not wait
abbrev pub waits_term : Mode → List Wait → Bool
waits_term op_parse_file ws = false
waits_term _ ws = has_term ws

-- SIGTERM arrives in a round: before, during or after the wait
abbrev pub term_in : Mode → Round → Bool
term_in m r = r.before.term || (waits_term m r.waits || r.after.term)

-- the end of the stream, or a signal to stop
abbrev pub has_end : Mode → List Round → Bool
has_end m [] = false
has_end m (r ∷ rs) = r.eof || (term_in m r || has_end m rs)

-- The loop does not wait for more input; where it ends, the database is clean.
abbrev pub IsEnded : {F : Type 0} → Option (Progress F) → Type 0
IsEnded none = Unit
IsEnded (some (waiting s)) = ⊥
IsEnded (some (finished s)) = IsClean s.db

-- A wait that has an answer comes to one, and SIGTERM is not lost in it.
retry_goes_on :
    (m i h stop t a : Bool)
    → (m && i && not h && not (stop || t)) ≡ true
    → (not (m && i) || (h || (t || a))) ≡ true
    → a ≡ true
retry_goes_on m i h stop t a r e = ground arith

answer_of :
    (ws : List Wait) (stop : Bool) → has_answer ws ≡ true → (x : Waited) × (answer stop ws ≡ some x)
answer_of [] stop h = absurd (cc h)
answer_of (w ∷ ws) stop h =
    elim (Bool-cases (
      is_minus_one w.retval
      && w.interrupted
      && not w.signals.hup
      && not (stop || w.signals.term))) [
        | inr e ↦ rw e (_, refl)
        | inl e ↦ rw e (
            answer_of ws (stop || w.signals.term) (
              retry_goes_on (is_minus_one w.retval) w.interrupted w.signals.hup stop w.signals.term
                (has_answer ws) e h))
      ]

waited_of :
    (m : Mode) (ws : List Wait) (stop : Bool)
    → has_answer ws ≡ true
    → (x : Waited) × (waited m stop ws ≡ some x)
waited_of op_parse_file ws stop h = (_, refl)
waited_of op_help ws stop h = answer_of ws stop h
waited_of op_parse_stdin ws stop h = answer_of ws stop h

retry_term :
    (m i h stop t a : Bool)
    → (m && i && not h && not (stop || t)) ≡ true
    → (stop || (t || (m && i && not h && a))) ≡ true
    → ((stop || t) || a) ≡ true
retry_term m i h stop t a r e = ground arith

returned_term :
    (m i h stop t a : Bool)
    → (m && i && not h && not (stop || t)) ≡ false
    → (stop || (t || (m && i && not h && a))) ≡ true
    → (stop || t) ≡ true
returned_term m i h stop t a r e = ground arith

answer_term :
    (ws : List Wait) (stop : Bool) (x : Waited)
    → answer stop ws ≡ some x
    → (stop || has_term ws) ≡ true
    → x.stop ≡ true
answer_term [] stop x e t = absurd (cc e)
answer_term (w ∷ ws) stop x e t =
    elim (Bool-cases (
      is_minus_one w.retval
      && w.interrupted
      && not w.signals.hup
      && not (stop || w.signals.term))) [
        | inl c ↦ answer_term ws (stop || w.signals.term) x (rw c at e) (
            retry_term (is_minus_one w.retval) w.interrupted w.signals.hup stop w.signals.term
              (has_term ws) c t)
        | inr c ↦ returned (rw c at e) (
            returned_term (is_minus_one w.retval) w.interrupted w.signals.hup stop w.signals.term
              (has_term ws) c t)
      ]
  where
    returned :
        some (record { value = w.retval; hup = w.signals.hup; stop = stop || w.signals.term })
          ≡ some x
        → (stop || w.signals.term) ≡ true
        → x.stop ≡ true
    returned e t = ground (arith, e, t)

waited_term :
    (m : Mode) (ws : List Wait) (stop : Bool) (x : Waited)
    → waited m stop ws ≡ some x
    → (stop || waits_term m ws) ≡ true
    → x.stop ≡ true
waited_term op_parse_file ws stop x e t = ground (arith, e, t)
waited_term op_help ws stop x e t = answer_term ws stop x e t
waited_term op_parse_stdin ws stop x e t = answer_term ws stop x e t

or_more : (s b w : Bool) → (b || w) ≡ true → ((s || b) || w) ≡ true
or_more s b w h = ground arith

goes_on :
    (eof stop b w a st rest : Bool)
    → (not eof && not stop) ≡ true
    → (eof || ((b || (w || a)) || rest)) ≡ true
    → stop ≡ (st || a)
    → ((b || w) ≡ true → st ≡ true)
    → rest ≡ true
goes_on eof stop true w a true rest h e s k = ground arith
goes_on eof stop true w a false rest h e s k = absurd (cc (k refl))
goes_on eof stop false true a true rest h e s k = ground arith
goes_on eof stop false true a false rest h e s k = absurd (cc (k refl))
goes_on eof stop false false a st rest h e s k = ground arith

module _ {F : Type 0} (p : Platform F) (path_max : ℕ) where
  shut_down-IsEnded :
      (locks : (n : ℕ) (op : LockOp) → p.flock n op ≡ success) (last : List Callback) (s : Daemon F)
      → IsEnded (shut_down p path_max last s)
  shut_down-IsEnded locks last s = go (handle_events p path_max last s)
    where
      clean :
          (s1 : Daemon F) (x : Option (ℤ × Db F))
          → CleanAfter x
          → IsEnded
              (elim (elim x as (λ _. Option (ℤ × Daemon F)) [
                | none ↦ none
                | some (a, d) ↦ some (a, record s1 { db = d })
              ]) [ none ↦ none | some (rc, s2) ↦ some (finished s2) ])
      clean s1 none h = tt
      clean s1 (some (a, d)) h = h

      go :
          (y : Option (Daemon F))
          → IsEnded (elim y as (λ _. Option (Progress F)) [
            | none ↦ none
            | some s' ↦ (elim (on_db (db_flush p) s') [
              | none ↦ none
              | some (rc, s2) ↦ some (finished s2)
            ])
          ])
      go none = tt
      go (some s') = clean s' (db_flush p s'.db) (db_flush-CleanAfter p locks s'.db)

  -- Where `flock` succeeds, `select` returns in every round, if only after interruptions, and a round
  -- meets the end of the stream, or SIGTERM before, during or after its wait, the main loop does not wait
  -- for input for ever: it ends, unless an assertion aborts the process, and then no change is left
  -- to be synced, or the database is not open to write.
  pub work-IsEnded :
      (locks : (n : ℕ) (op : LockOp) → p.flock n op ≡ success) (rs : List Round)
      (last : List Callback) (s : Daemon F)
      → All (λ r. has_answer r.waits ≡ true) rs
      → has_end s.mode rs ≡ true
      → IsEnded (work p path_max rs last s)
  unfolding work
  work-IsEnded locks [] last s h e = absurd (cc e)
  work-IsEnded locks (r ∷ rs) last s h e =
      let (y, run) = waited_of s.mode r.waits (s.stop || r.before.term) h.0 in
      go y (waited_term s.mode r.waits (s.stop || r.before.term) y run) (work_round p path_max r s)
        (subst (λ w. IsGone p path_max s.mode r w (work_round p path_max r s)) run
          (work_round-IsGone p path_max r s))
        (work-IsEnded locks rs last)
    where
      go :
          (y : Waited)
          → (((s.stop || r.before.term) || waits_term s.mode r.waits) ≡ true → y.stop ≡ true)
          → (x : Option (Option (Daemon F))) → IsGone p path_max s.mode r (some y) x
          → ((s' : Daemon F)
              → All (λ r. has_answer r.waits ≡ true) rs
              → has_end s'.mode rs ≡ true
              → IsEnded (work p path_max rs last s'))
          → IsEnded (elim x [
            | none ↦ none
            | some none ↦ some (waiting s)
            | some (some s') ↦
                let rest = work p path_max rs last s' in
                if not r.eof && not s'.stop then rest else shut_down p path_max last s'
          ])
      go y t none g k = tt
      go y t (some none) g k = g
      go y t (some (some s')) g k = elim (Bool-cases (not r.eof && not s'.stop)) [
        | inl x ↦
            let more =
              goes_on r.eof s'.stop r.before.term (waits_term s.mode r.waits) r.after.term y.stop
                (has_end s.mode rs) x e g.1
                (λ b. t (or_more s.stop r.before.term (waits_term s.mode r.waits) b)) in
            rw x (k s' h.1 (subst (λ m. has_end m rs ≡ true) (sym g.0) more))
        | inr x ↦ rw x (shut_down-IsEnded locks last s')
      ]
