-- ===== src/Daemon/Same.antt =====
-- The parts of `work`, in sources/fusgd/src/work.c, that only look at signals.
use fusg.Base.{
  Bool, true, false, not, ◌&&◌, ◌||◌, List, [], ◌∷◌, Option, none, some, ℤ, is_minus_one, ◌≡◌, refl,
  sym, inl, inr, arith, Bool-cases,
}
use fusg.Daemon.State.{Mode, op_help, op_parse_stdin, op_parse_file, Daemon, Wait, deliver}
use fusg.Daemon.Work.{is_retry, reload_if, reload_config, select_input, wait_input}
use fusg.Daemon.Plan.{Waited, answer, waited}

no_hup : (a h b : Bool) → (a && not h && b) ≡ true → h ≡ false
no_hup a h b e = ground arith

module _ {F : Type 0} where
  -- the database and the count of stored events are kept
  abbrev pub SameStore : Daemon F → Daemon F → Type 0
  SameStore s s' = (s'.db ≡ s.db) × (s'.events_stored ≡ s.events_stored)

  select_input-SameStore : (ws : List Wait) (s : Daemon F) → SameStore s (select_input ws s).1
  unfolding select_input
  select_input-SameStore [] s = (refl, refl)
  select_input-SameStore (w ∷ ws) s =
      let k = select_input-SameStore ws (deliver w.signals s) in
      elim (Bool-cases (is_retry w (deliver w.signals s))) [
        | inl e ↦ rw e k
        | inr e ↦ rw e (refl, refl)
      ]

  pub wait_input-SameStore :
      (m : Mode) (ws : List Wait) (s : Daemon F) → SameStore s (wait_input m ws s).1
  wait_input-SameStore op_parse_file ws s = (refl, refl)
  wait_input-SameStore op_help ws s = select_input-SameStore ws s
  wait_input-SameStore op_parse_stdin ws s = select_input-SameStore ws s

  pub reload_if-SameStore : (b : Bool) (s : Daemon F) → SameStore s (reload_if b s)
  unfolding reload_config
  reload_if-SameStore true s = (refl, refl)
  reload_if-SameStore false s = (refl, refl)

  -- The wait of the loop and that of the plan: neither returns, or both return the same.
  abbrev pub IsWaited : Mode → Option ℤ × Daemon F → Option Waited → Type 0
  IsWaited m (none, s) none = Unit
  IsWaited m (none, s) (some x) = ⊥
  IsWaited m (some v, s) none = ⊥
  IsWaited m (some v, s) (some x) =
      (x ≡ record { value = v; hup = s.received_sighup; stop = s.stop }) × (s.mode ≡ m)

  select_input-IsWaited :
      (ws : List Wait) (s : Daemon F)
      → s.received_sighup ≡ false
      → IsWaited s.mode (select_input ws s) (answer s.stop ws)
  unfolding select_input
  select_input-IsWaited [] s h = tt
  select_input-IsWaited (w ∷ ws) s h =
      rw h
        (elim (Bool-cases (
          is_minus_one w.retval
          && w.interrupted
          && not w.signals.hup
          && not (s.stop || w.signals.term))) [
            | inl e ↦ rw e (
                select_input-IsWaited ws
                  (record s { stop = s.stop || w.signals.term; received_sighup = w.signals.hup })
                  (no_hup (is_minus_one w.retval && w.interrupted) w.signals.hup _ e))
            | inr e ↦ rw e (refl, refl)
          ])

  pub wait_input-IsWaited :
      (m : Mode) (ws : List Wait) (s : Daemon F)
      → s.received_sighup ≡ false
      → s.mode ≡ m
      → IsWaited m (wait_input m ws s) (waited m s.stop ws)
  wait_input-IsWaited op_parse_file ws s h e = rw h (refl, e)
  wait_input-IsWaited op_help ws s h e = rw (sym e) (select_input-IsWaited ws s h)
  wait_input-IsWaited op_parse_stdin ws s h e = rw (sym e) (select_input-IsWaited ws s h)

  -- A round begins without a SIGHUP to handle.
  pub reload_if-received : (s : Daemon F) → (reload_if s.received_sighup s).received_sighup ≡ false
  unfolding reload_config
  reload_if-received s = elim (Bool-cases s.received_sighup) [
    | inl e ↦ rw e refl
    | inr e ↦ rw e refl
  ]

  pub reload_if-control :
      (b : Bool) (s : Daemon F) → ((reload_if b s).stop ≡ s.stop) × ((reload_if b s).mode ≡ s.mode)
  unfolding reload_config
  reload_if-control true s = (refl, refl)
  reload_if-control false s = (refl, refl)
