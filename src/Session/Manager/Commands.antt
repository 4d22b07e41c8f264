-- ===== src/Session/Manager/Commands.antt =====
-- manager.rs: whole commands, run with no other command in between.
use moonshine.Common.{Bool, none, some, []}
use moonshine.Common.Results.{ok, err}
use moonshine.Video.Packetizer.State.{SessionKeyData}
use moonshine.Audio.Config.{AudioStreamContext}
use moonshine.Video.Context.{VideoStreamContext}
use moonshine.Session.Manager.{
  SessionContext, SessionKeys, Creation, Manager, Answer, set_stream_context, initialize_session,
  launch_take, launch_finish, drop_session, part_stops, watchdog_reset, start_take, start_finish,
  stop_session, update_keys,
}

-- A command, with what the parts outside of the manager answer.
pub data Command : Type 0 where
  set_context : VideoStreamContext → AudioStreamContext → Command
  initialize : SessionContext → SessionKeys → Creation → Command
  launch start stop : Bool → Command
  update : SessionKeyData → Command
  -- The future of a launch is dropped, a part of the session stops, the watchdog gets its turn.
  give_up part_ends watchdog : Command

-- `launch_session`
unfoldable pub launch_session : Bool → Manager → Answer
launch_session success m =
    let (m', taken) = launch_take m in
    elim taken [ none ↦ (m', (err, [])) | some s ↦ launch_finish s success m' ]

-- A launch that is dropped once it took the session out, which drops that session.
unfoldable pub launch_given_up : Manager → Manager
launch_given_up m =
    let (m', taken) = launch_take m in elim taken [ none ↦ m' | some s ↦ drop_session s m' ]

-- `start_session`
unfoldable pub start_session : Bool → Manager → Answer
start_session success m =
    let (m', (taken, answer)) = start_take m in
    elim taken [ none ↦ (m', answer) | some t ↦ start_finish t success m' ]

unfoldable pub run : Command → Manager → Answer
run (set_context video audio) m = set_stream_context video audio m
run (initialize context given created) m = initialize_session context given created m
run (launch success) m = launch_session success m
run (start success) m = start_session success m
run (stop completes) m = stop_session completes m
run (update new) m = update_keys new m
run give_up m = (launch_given_up m, (err, []))
run part_ends m = (part_stops m, (ok tt, []))
run watchdog m = (watchdog_reset m, (ok tt, []))
