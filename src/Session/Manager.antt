-- ===== src/Session/Manager.antt =====
-- moonshine-core/src/session/manager.rs: the session manager, a critical section of its lock at a time.
pub mod Commands
pub mod Refine
use moonshine.Common.{
  ℕ, ◌+◌, ◌==◌, Bool, true, false, ◌||◌, Option, none, some, List, [], ◌∷◌, if◌then◌else◌,
}
use moonshine.Common.Results.{Result, ok, err}
use moonshine.Common.Int.{ℤ}
use moonshine.Audio.Config.{AudioChannels, AudioStreamContext}
use moonshine.Video.Context.{VideoStreamContext}
use moonshine.Video.Packetizer.State.{SessionKeyData}

-- `SessionKeys`; a receiver is the number of its channel.
pub data SessionKeys : Type 0 where
  keys : SessionKeyData → SessionKeys
  rx : ℕ → SessionKeys

-- `ApplicationConfig`; texts and paths are their bytes.
pub record ApplicationConfig : Type 0 where
  pub title : List ℕ
  pub boxart : Option (List ℕ)
  pub command : List (List ℕ)
  pub pre_command : List (List (List ℕ))
  pub post_command : List (List (List ℕ))
  pub stdout : Option (List ℕ)
  pub stderr : Option (List ℕ)
  pub launch_timeout_secs : ℕ

-- `SessionContext`, without the keys
pub record SessionContext : Type 0 where
  pub application : ApplicationConfig
  pub application_id : ℤ
  pub resolution : ℕ × ℕ
  pub refresh_rate : ℕ
  pub audio_channels : AudioChannels
  pub audio_channel_mask : ℕ
  pub hdr : Bool

-- A session as the manager sees it: its context without the keys, the channel of its keys, and the
-- shutdown manager of its parts.
pub record Session : Type 0 where
  pub context : SessionContext
  pub keys_rx : ℕ
  pub stop : ℕ

-- What `InitializedSession::new` gives: a session, or an error, before or after the start of a part
-- that triggers the shutdown when it is dropped (`InputHandler`).
pub data Creation : Type 0 where
  made : Creation
  failed : Bool → Creation

-- `SessionState`
pub data SessionState : Type 0 where
  initialized launched active : Session → SessionState

-- A sender of keys, with the value that its receivers see.
pub record KeysSender : Type 0 where
  pub channel : ℕ
  pub value : SessionKeyData

-- `SessionManagerInner`, without its configuration. Shutdown managers and channels are numbered, and
-- `fresh` is the next number; a watchdog is the number of the shutdown manager that it watches.
pub record Manager : Type 0 where
  pub session : Option SessionState
  pub stop : ℕ
  pub stop_triggered : Bool
  pub keys_tx : Option KeysSender
  pub video_stream_context : Option VideoStreamContext
  pub audio_stream_context : Option AudioStreamContext
  pub stop_watcher : Option ℕ
  pub video_start_notify : Bool
  pub audio_start_notify : Bool
  pub fresh : ℕ

-- What `start_session` goes on with.
pub record Taken : Type 0 where
  pub session : Session
  pub video : Option VideoStreamContext
  pub audio : Option AudioStreamContext

-- What a command does outside of the manager.
pub data Effect : Type 0 where
  -- `reset_video_stream` of the session with these keys
  reset_video : ℕ → Effect
  notify_video notify_audio : Effect
  trigger_stop : ℕ → Effect
  shutdown_application : Effect

abbrev pub is_some {ℓ} : {A : Type ℓ} → Option A → Bool
is_some none = false
is_some (some a) = true

-- What a critical section leaves and answers, and what it does outside.
abbrev pub Answer : Type 0
Answer = Manager × (Result (Unit {0}) × List Effect)

abbrev accept : Manager → List Effect → Answer
accept m effects = (m, (ok tt, effects))

abbrev reject : Manager → Answer
reject m = (m, (err, []))

-- `reset_session`
unfoldable pub reset_session : Manager → Manager
reset_session m = record m {
  session = none;
  keys_tx = none;
  video_stream_context = none;
  audio_stream_context = none;
  video_start_notify = false;
  audio_start_notify = false;
  stop_watcher = none;
  stop = m.fresh;
  stop_triggered = false;
  fresh = m.fresh + 1;
}

-- `trigger_streams_start`
unfoldable pub trigger_streams_start : Manager → List Effect
trigger_streams_start m =
    let audio = if m.audio_start_notify then notify_audio ∷ notify_audio ∷ [] else [] in
    if m.video_start_notify then notify_video ∷ notify_video ∷ audio else audio

-- `set_stream_context`
unfoldable pub set_stream_context : VideoStreamContext → AudioStreamContext → Manager → Answer
set_stream_context video audio m = elim m.session [
  | some (launched s) ↦
      accept (record m { video_stream_context = some video; audio_stream_context = some audio }) []
  | some (initialized s) ↦ reject m
  | some (active s) ↦ accept m []
  | none ↦ reject m
]

abbrev pub the_session : SessionState → Session
the_session (initialized s) = s
the_session (launched s) = s
the_session (active s) = s

-- `get_session_context`
unfoldable pub get_session_context : Manager → Option SessionContext
get_session_context m = elim m.session [ none ↦ none | some s ↦ some ((the_session s).context) ]

-- `spawn_session_watchdog`
unfoldable pub spawn_session_watchdog : Manager → Manager
spawn_session_watchdog m = elim m.stop_watcher [
  | some _ ↦ m
  | none ↦ record m { stop_watcher = some m.stop }
]

-- A session that is dropped ends its input handler, which triggers the shutdown of its parts.
unfoldable pub drop_session : Session → Manager → Manager
drop_session s m = record m { stop_triggered = if s.stop == m.stop then true else m.stop_triggered }

-- A part of the session stops by itself, which triggers the shutdown.
unfoldable pub part_stops : Manager → Manager
part_stops m = elim m.session [ none ↦ m | some s ↦ drop_session (the_session s) m ]

-- `initialize_session`
unfoldable pub initialize_session : SessionContext → SessionKeys → Creation → Manager → Answer
initialize_session context (rx _) created m = reject m
initialize_session context (keys session_keys) created m =
    let m' = record m { fresh = m.fresh + 1 } in
    let session : Session = record { context = context; keys_rx = m.fresh; stop = m.stop } in
    if is_some m.session || is_some m.keys_tx then reject m else elim created [
      | made ↦
          accept
            (record (spawn_session_watchdog (record m' { session = some (initialized session) })) {
              keys_tx = some (record { channel = m.fresh; value = session_keys });
            })
            []
      | failed drops ↦
          reject (record m' { stop_triggered = if drops then true else m.stop_triggered })
    ]

-- The first critical section of `launch_session`: it takes the session out.
unfoldable pub launch_take : Manager → Manager × Option Session
launch_take m = elim m.session [
  | some (initialized s) ↦ (record m { session = none }, some s)
  | some (launched s) ↦ (m, none)
  | some (active s) ↦ (m, none)
  | none ↦ (m, none)
]

-- The last: the session was launched or failed to.
unfoldable pub launch_finish : Session → Bool → Manager → Answer
launch_finish s success m =
    if success
    then accept (record m { session = some (launched s) }) []
    else reject (reset_session m)

-- The first critical section of `start_session`, which takes the contexts in any case.
unfoldable pub start_take : Manager → Manager × (Option Taken × (Result (Unit {0}) × List Effect))
start_take m =
    let m' = record m { video_stream_context = none; audio_stream_context = none } in
    elim m.session [
      | some (launched s) ↦ (
        record m' { session = none },
        (
          some (record {
            session = s;
            video = m.video_stream_context;
            audio = m.audio_stream_context;
          }),
          (ok tt, []),
        ),
      )
      | some (initialized s) ↦ (m', (none, (err, [])))
      | some (active s) ↦ (m', (none, (ok tt, reset_video s.keys_rx ∷ [])))
      | none ↦ (m', (none, (err, [])))
    ]

-- The last: both contexts have to be there, or the session is dropped, and `success` tells whether the streams start.
unfoldable pub start_finish : Taken → Bool → Manager → Answer
start_finish t success m = elim t.video [
  | none ↦ (drop_session t.session m, (err, trigger_stop t.session.stop ∷ []))
  | some video ↦ elim t.audio [
    | none ↦ (drop_session t.session m, (err, trigger_stop t.session.stop ∷ []))
    | some audio ↦
        if success
        then accept
            (record m {
              session = some (active t.session);
              video_start_notify = true;
              audio_start_notify = true;
            })
            []
        else reject (reset_session m)
  ]
]

-- `stop_session`; `completes` tells whether the shutdown ends in time (`wait_for_session_shutdown`).
unfoldable pub stop_session : Bool → Manager → Answer
stop_session completes m = elim m.session [
  | none ↦ accept m []
  | some _ ↦
      if completes
      then accept (reset_session m) (trigger_stop m.stop ∷ [])
      else (reset_session m, (err, trigger_stop m.stop ∷ shutdown_application ∷ []))
]

-- `update_keys`
unfoldable pub update_keys : SessionKeyData → Manager → Answer
update_keys new m = if m.stop_triggered then reject m else elim m.session [
  | some (active s) ↦ elim m.keys_tx [
    | some tx ↦ accept (record m { keys_tx = some (record tx { value = new }) }) []
    | none ↦ reject m
  ]
  | some (initialized s) ↦ reject m
  | some (launched s) ↦ reject m
  | none ↦ reject m
]

-- The watchdog of `stop`, if there is one, resets the manager once that shutdown is triggered.
unfoldable pub watchdog_reset : Manager → Manager
watchdog_reset m = elim m.stop_watcher [
  | none ↦ m
  | some watched ↦
      if watched == m.stop then (if m.stop_triggered then reset_session m else m) else m
]

-- `SessionManager::new`
unfoldable pub new : Manager
new = record {
  session = none;
  stop = 0;
  stop_triggered = false;
  keys_tx = none;
  video_stream_context = none;
  audio_stream_context = none;
  stop_watcher = none;
  video_start_notify = false;
  audio_start_notify = false;
  fresh = 1;
}
