-- ===== src/MacServing/Backend/Process.antt =====
-- What `start` and `stop` of mac-serving/src/mac_serving/backend.py leave behind.
use foundation_ai_platform.Prelude.{
  ℕ, zero, suc, ◌+◌, ◌*◌, ◌≤◌, ◌≡◌, ◌≢◌, refl, ◌∙◌, inl, inr, Bool, true, false, Option, none, some,
  List, ltb, nat_eq, ap, subst, Bool-cases, Option-cases, arith,
}
use foundation_ai_platform.Prelude.Int.{ℤ, pos, negsuc}
use foundation_ai_platform.Exec.{Error, Result, ok, err}
use foundation_ai_platform.Value.{Value, truth}
use foundation_ai_platform.MacServing.{Machine}
use foundation_ai_platform.MacServing.Config.{AppConfig, ServerConfig, amount}
use foundation_ai_platform.MacServing.Backend.{
  Os, Backend, HealthAnswer, status, http_error, raised, Poll, up, exited, late, failed,
  out_of_fuel, settled, running, poll, finish, end_running, end_process, close_handle, stop, settle,
  wait_with, wait_until_ready, launched, spawn_with, run_command, start, build_command, deadline_of,
  rounds_for,
}

settled-ends : (a : HealthAnswer) → settled a ≢ some out_of_fuel
settled-ends (status code) e = elim (Bool-cases (nat_eq code 200)) [
  | inl t ↦ absurd (different (rw t at e))
  | inr f ↦ absurd (missing none refl (rw f at e))
]
  where
    different : some up ≢ some out_of_fuel
    different x = cc

    missing : (o : Option Poll) → o ≡ none → o ≢ some out_of_fuel
    missing o n x = cc
settled-ends http_error e = cc
settled-ends (raised x) e = cc

module _ {World : Type 0} (os : Os World) where
  abbrev pub Ended : ℕ → World → Type 0
  Ended p w = (c : ℤ) × (os.returncode p w ≡ some c)

  -- What asyncio documents: a process that was waited for has a return code, which stays; a pause
  -- of a quarter of a second takes no less, and the clock does not go back.
  pub record IsOs : Type 0 where
    pub wait_for_ends :
        (p : ℕ) (w : World) → (os.wait_for p w).0 ≡ true → Ended p (os.wait_for p w).1
    pub wait_ends : (p : ℕ) (w : World) → Ended p (os.wait p w)
    pub close_keeps : (p h : ℕ) (w : World) → os.returncode p (os.close_log h w) ≡ os.returncode p w
    pub health_takes : (h p : Value) (w : World) → os.time w ≤ os.time (os.get_health h p w).1
    pub sleep_takes : (w : World) → os.time w + 250 ≤ os.time (os.sleep w)

module _ {World : Type 0} (os : Os World) (laws : IsOs os) where
  close_handle-Ended :
      (p : ℕ) (h : Option ℕ) (w : World) → Ended os p w → Ended os p (close_handle os h w)
  unfolding close_handle
  close_handle-Ended p none w e = e
  close_handle-Ended p (some h) w (c, e) = (c, laws.close_keeps p h w ∙ e)

  finish-Ended :
      (p : ℕ) (r : Bool × World) → (r.0 ≡ true → Ended os p r.1) → Ended os p (finish os p r.0 r.1)
  unfolding finish
  finish-Ended p (true, w) h = h refl
  finish-Ended p (false, w) h = laws.wait_ends p _

  end_running-Ended :
      (p : ℕ) (r : Option ℤ) (w : World) → os.returncode p w ≡ r → Ended os p (end_running os p r w)
  unfolding end_running
  end_running-Ended p none w e = finish-Ended p _ (laws.wait_for_ends p (os.terminate p w))
  end_running-Ended p (some c) w e = (c, e)

  end_process-Ended : (p : ℕ) (w : World) → Ended os p (end_process os (some p) w)
  unfolding end_process
  end_process-Ended p w = end_running-Ended p _ w refl

  -- `stop` ends the process, forgets it and its log file, and a second `stop` changes nothing.
  pub stop_ends :
      (b : Backend World)
      → ((p : ℕ) → b.process ≡ some p → Ended os p (stop os b).world)
        × (running os (stop os b) ≡ false)
        × ((stop os b).log_handle ≡ none)
        × (stop os (stop os b) ≡ stop os b)
  unfolding stop running
  stop_ends b = (
    λ p e. rw e (close_handle-Ended p b.log_handle _ (end_process-Ended p b.world)),
    refl,
    refl,
    refl,
  )

  -- The loop ends before its rounds do, if they cover the deadline.
  pub poll_ends :
      (server : ServerConfig) (p deadline rounds : ℕ) (w : World)
      → deadline ≤ os.time w + rounds
      → (poll os server p deadline (suc rounds) w).0 ≢ out_of_fuel
  unfolding poll
  poll_ends server p deadline zero w h = ground arith
  poll_ends server p deadline (suc rounds) w h =
      let answer = (os.get_health server.backend_host server.backend_port w).0 in
      let w' = (os.get_health server.backend_host server.backend_port w).1 in
      let rest = poll_ends server p deadline rounds (os.sleep w') (
        omega (
          arith,
          laws.health_takes server.backend_host server.backend_port w,
          laws.sleep_takes w',
        )) in
      elim (Bool-cases (ltb (os.time w) deadline)) [
        | inr f ↦ rw f (λ e. cc)
        | inl t ↦ rw t (elim (Option-cases (os.returncode p w)) [
          | inr (c, e) ↦ rw e (λ x. cc)
          | inl e ↦ rw e (elim (Option-cases (settled answer)) [
            | inl none_yet ↦ rw none_yet rest
            | inr (r, is) ↦ rw is (λ x. settled-ends answer (is ∙ ap some x))
          ])
        ])
      ]

  -- What a loop that is over has seen, if no answer raised.
  abbrev Seen : ℕ → Poll × World → Type 0
  Seen p (exited c, w) = Ended os p w
  Seen p (failed e, w) = ⊥
  Seen p (up, w) = Unit
  Seen p (late, w) = Unit
  Seen p (out_of_fuel, w) = Unit

  abbrev SeenIf : ℕ → World → Option Poll → Type 0
  SeenIf p w none = Unit
  SeenIf p w (some r) = Seen p (r, w)

  settled-SeenIf :
      (p : ℕ) (w : World) (a : HealthAnswer) → ((e : Error) → a ≢ raised e) → SeenIf p w (settled a)
  settled-SeenIf p w (status code) h = elim (Bool-cases (nat_eq code 200)) [
    | inl t ↦ rw t tt
    | inr f ↦ rw f tt
  ]
  settled-SeenIf p w http_error h = tt
  settled-SeenIf p w (raised e) h = h e refl

  module _ (server : ServerConfig)
      (answers : (w : World) (e : Error)
        → (os.get_health server.backend_host server.backend_port w).0 ≢ raised e) where
    poll-Seen : (p deadline rounds : ℕ) (w : World) → Seen p (poll os server p deadline rounds w)
    unfolding poll
    poll-Seen p deadline zero w = tt
    poll-Seen p deadline (suc rounds) w =
        let (answer, w') = os.get_health server.backend_host server.backend_port w in
        elim (Bool-cases (ltb (os.time w) deadline)) [
          | inr f ↦ rw f tt
          | inl t ↦ rw t (elim (Option-cases (os.returncode p w)) [
            | inr (c, e) ↦ rw e (c, e)
            | inl e ↦ rw e (elim (Option-cases (settled answer)) [
              | inl none_yet ↦ rw none_yet (poll-Seen p deadline rounds (os.sleep w'))
              | inr (r, is) ↦
                  rw is (subst (SeenIf p w') is (settled-SeenIf p w' answer (answers w)))
            ])
          ])
        ]

    -- A start that succeeds holds the process; one that fails has seen it end.
    abbrev pub Held : ℕ → Result (Unit {0}) × Backend World → Type 0
    Held p (ok u, b) = b.process ≡ some p
    Held p (err e, b) = Ended os p b.world

    settle-Held :
        (p : ℕ) (r : Poll × World) (b : Backend World)
        → b.process ≡ some p
        → r.0 ≢ out_of_fuel
        → Seen p r
        → Held p (settle os r b)
    unfolding settle
    settle-Held p (up, w) b e f s = e
    settle-Held p (exited c, w) b e f s = s
    settle-Held p (failed x, w) b e f s = absurd s
    settle-Held p (late, w) b e f s = (stop_ends (record b { world = w })).0 p e
    settle-Held p (out_of_fuel, w) b e f s = absurd (f refl)

    pub wait_until_ready-Held :
        (t : ℤ) (p : ℕ) (b : Backend World)
        → amount server.startup_timeout_seconds ≡ some t
        → b.process ≡ some p
        → Held p (wait_until_ready os server p b)
    unfolding wait_until_ready wait_with deadline_of rounds_for
    wait_until_ready-Held (pos n) p b numeric e = rw numeric (
        settle-Held p _ b e (poll_ends server p _ (n * 10) b.world (omega arith))
          (poll-Seen p _ (suc (n * 10)) b.world))
    wait_until_ready-Held (negsuc n) p b numeric e = rw numeric (
        settle-Held p _ b e (poll_ends server p 0 0 b.world (omega arith))
          (poll-Seen p 0 1 b.world))

  -- A managed backend that is not running and whose process is created by the start.
  pub start-Held :
      (machine : Machine) (config : AppConfig)
      (answers : (w : World) (e : Error)
        → (os.get_health config.server.backend_host config.server.backend_port w).0 ≢ raised e)
      (t : ℤ) (b : Backend World) (command : List Value) (h p : ℕ) (opened created : World)
      → amount config.server.startup_timeout_seconds ≡ some t
      → truth config.engine.manage_process ≡ true
      → running os b ≡ false
      → build_command machine config none ≡ ok command
      → os.open_log
          (machine.join (machine.parent (machine.parent config.source)) "run/llama-server.log")
          b.world
        ≡ (ok h, opened)
      → os.create_subprocess command h opened ≡ (ok p, created)
      → Held config.server answers p (start os machine config b)
  unfolding start run_command spawn_with launched
  start-Held machine config answers t b command h p opened created numeric managed idle built logs
        spawned =
      rw (managed, idle, built, logs, spawned)
        (wait_until_ready-Held config.server answers t p _ numeric refl)
