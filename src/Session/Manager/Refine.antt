-- ===== src/Session/Manager/Refine.antt =====
-- manager.rs: the life of a session as a client sees it, and that the commands implement it.
use moonshine.Common.{ℕ, ◌≡◌, refl, ap, Bool, true, false, Option, none, some, List, [], ◌∷◌, arith}
use moonshine.Common.Results.{Result, ok, err}
use moonshine.Audio.Config.{AudioStreamContext}
use moonshine.Video.Context.{VideoStreamContext}
use moonshine.Session.Manager.{
  SessionContext, keys, made, failed, SessionState, initialized, launched, active, KeysSender,
  Manager, new, the_session, drop_session, part_stops, watchdog_reset, reset_session,
  set_stream_context, initialize_session, launch_take, launch_finish, start_take, start_finish,
  stop_session, update_keys, spawn_session_watchdog,
}
use moonshine.Session.Manager.Commands.{
  Command, set_context, initialize, launch, start, stop, update, give_up, part_ends, watchdog,
  launch_session, launch_given_up, start_session, run,
}

-- The phases of a session. `ending` is that of a session that was dropped, and whose keys are held
-- until the watchdog has had its turn.
pub data Phase : Type 0 where
  idle ending : Phase
  prepared : SessionContext → Phase
  running : SessionContext → Option (VideoStreamContext × AudioStreamContext) → Phase
  streaming : SessionContext → Phase

-- The answer of a command, with the phase after it and whether the shutdown was triggered.
abbrev pub After : Type 0
After = Phase × (Bool × Result (Unit {0}))

-- What each command does in a phase, where the shutdown was triggered or not.
unfoldable pub next_phase : Command → Phase → Bool → After
next_phase (set_context video audio) (running c announced) t =
    (running c (some (video, audio)), (t, ok tt))
next_phase (set_context video audio) (streaming c) t = (streaming c, (t, ok tt))
next_phase (set_context video audio) p t = (p, (t, err))
next_phase (initialize c (keys k) made) idle t = (prepared c, (t, ok tt))
next_phase (initialize c (keys k) (failed true)) idle t = (idle, (true, err))
next_phase (initialize c k created) p t = (p, (t, err))
next_phase (launch true) (prepared c) t = (running c none, (t, ok tt))
next_phase (launch false) (prepared c) t = (idle, (false, err))
next_phase (launch success) p t = (p, (t, err))
next_phase give_up (prepared c) t = (ending, (true, err))
next_phase give_up p t = (p, (t, err))
next_phase (start true) (running c (some announced)) t = (streaming c, (t, ok tt))
next_phase (start false) (running c (some announced)) t = (idle, (false, err))
next_phase (start success) (running c none) t = (ending, (true, err))
next_phase (start success) (streaming c) t = (streaming c, (t, ok tt))
next_phase (start success) p t = (p, (t, err))
next_phase (stop completes) idle t = (idle, (t, ok tt))
next_phase (stop completes) ending t = (ending, (t, ok tt))
next_phase (stop true) p t = (idle, (false, ok tt))
next_phase (stop false) p t = (idle, (false, err))
next_phase (update k) (streaming c) false = (streaming c, (false, ok tt))
next_phase (update k) p t = (p, (t, err))
next_phase part_ends idle t = (idle, (t, ok tt))
next_phase part_ends ending t = (ending, (t, ok tt))
next_phase part_ends p t = (p, (true, ok tt))
next_phase watchdog idle t = (idle, (t, ok tt))
next_phase watchdog p true = (idle, (false, ok tt))
next_phase watchdog p false = (p, (false, ok tt))

abbrev pub both :
    Option VideoStreamContext
    → Option AudioStreamContext
    → Option (VideoStreamContext × AudioStreamContext)
both (some video) (some audio) = some (video, audio)
both (some video) none = none
both none audio = none

abbrev pub phase_of :
    Option SessionState
    → Option KeysSender
    → Option (VideoStreamContext × AudioStreamContext)
    → Phase
phase_of none none announced = idle
phase_of none (some tx) announced = ending
phase_of (some (initialized s)) tx announced = prepared s.context
phase_of (some (launched s)) tx announced = running s.context announced
phase_of (some (active s)) tx announced = streaming s.context

-- The phase that a state of the manager is in.
unfoldable pub phase : Manager → Phase
phase m = phase_of m.session m.keys_tx (both m.video_stream_context m.audio_stream_context)

abbrev pub Keyed : Option SessionState → Option KeysSender → Type 0
Keyed none tx = Unit {0}
Keyed (some s) none = ⊥
Keyed (some s) (some tx) = tx.channel ≡ (the_session s).keys_rx

abbrev pub Announced :
    Option SessionState → Option VideoStreamContext → Option AudioStreamContext → Type 0
Announced (some (launched s)) (some video) (some audio) = Unit {0}
Announced s none none = Unit {0}
Announced s video audio = ⊥

abbrev pub Owned : Option SessionState → ℕ → Type 0
Owned none number = Unit {0}
Owned (some s) number = (the_session s).stop ≡ number

abbrev pub Watched : Option KeysSender → Option ℕ → ℕ → Type 0
Watched none none number = Unit {0}
Watched (some tx) (some watched) number = watched ≡ number
Watched tx watcher number = ⊥

abbrev pub Ended : Option SessionState → Option KeysSender → Bool → Type 0
Ended none (some tx) triggered = triggered ≡ true
Ended s tx triggered = Unit {0}

-- A session has the sender of its keys and the manager's shutdown, the two contexts come and go
-- together and only with a launched session, a watchdog runs while there are keys, and keys without a
-- session are there only once the shutdown is triggered.
pub record IsSound (m : Manager) : Type 0 where
  pub keyed : Keyed m.session m.keys_tx
  pub announced : Announced m.session m.video_stream_context m.audio_stream_context
  pub owned : Owned m.session m.stop
  pub watched : Watched m.keys_tx m.stop_watcher m.stop
  pub ended : Ended m.session m.keys_tx m.stop_triggered

-- Every command keeps a sound manager sound, whatever the parts outside of it answer.
pub run-IsSound : (c : Command) (m : Manager) → IsSound m → IsSound (run c m).0
unfolding run set_stream_context initialize_session launch_session launch_take launch_finish
    launch_given_up drop_session part_stops watchdog_reset start_session start_take start_finish
    stop_session update_keys spawn_session_watchdog reset_session
run-IsSound c m h = ground arith

pub run_phase :
    (c : Command) (m : Manager)
    → IsSound m
    → ◌≡◌ {A = After}
        (phase (run c m).0, ((run c m).0.stop_triggered, (run c m).1.0))
        (next_phase c (phase m) m.stop_triggered)
unfolding run set_stream_context initialize_session launch_session launch_take launch_finish
    launch_given_up drop_session part_stops watchdog_reset start_session start_take start_finish
    stop_session update_keys spawn_session_watchdog reset_session next_phase phase
run_phase c m h = ground arith

-- A series of commands, with the answers.
unfoldable pub run_all : List Command → Manager → Manager × List (Result (Unit {0}))
run_all [] m = (m, [])
run_all (c ∷ cs) m =
    let (m', (answer, effects)) = run c m in
    let (m'', answers) = run_all cs m' in (m'', answer ∷ answers)

unfoldable pub phases : List Command → Phase → Bool → Phase × (Bool × List (Result (Unit {0})))
phases [] p t = (p, (t, []))
phases (c ∷ cs) p t =
    let (p', (t', answer)) = next_phase c p t in
    let (p'', (t'', answers)) = phases cs p' t' in (p'', (t'', answer ∷ answers))

abbrev pub AfterAll : Type 0
AfterAll = Phase × (Bool × List (Result (Unit {0})))

run_all-from :
    (cs : List Command) (m : Manager)
    → IsSound m
    → ◌≡◌ {A = AfterAll}
        (phase (run_all cs m).0, ((run_all cs m).0.stop_triggered, (run_all cs m).1))
        (phases cs (phase m) m.stop_triggered)
unfolding run_all phases
run_all-from [] m h = refl
run_all-from (c ∷ cs) m h =
    let rest = run_all-from cs (run c m).0 (run-IsSound c m h) in
    rw (← run_phase c m h) (ap (λ (r : AfterAll). (r.0, (r.1.0, (run c m).1.0 ∷ r.1.1))) rest)

-- From a new manager, any series of commands, each run to its end before the next, is answered as
-- the phases of a session prescribe, and leaves the manager in the prescribed phase, with the
-- shutdown triggered or not as prescribed. Among the commands are a launch that is given up, a part
-- of the session that stops by itself, and the watchdog's turn, which resets a session that was
-- dropped or that one of its parts brought down. (The drop of a session counts as triggering the
-- shutdown at once, though its input handler does it a little later.)
pub run_all-refines :
    (cs : List Command)
    → ◌≡◌ {A = AfterAll}
        (phase (run_all cs new).0, ((run_all cs new).0.stop_triggered, (run_all cs new).1))
        (phases cs idle false)
unfolding new phase
run_all-refines cs =
    run_all-from cs new
      (record { keyed = tt; announced = tt; owned = tt; watched = tt; ended = tt })
