-- ===== src/Session/Handle.antt =====
-- The handle of a session of vc-core/src/lib.rs that its owner keeps: what it was configured with, its
-- running flag, and the state that it shares.
use voicechat.Base.{Bool, true, false}
use voicechat.Base.Floats.{Float32}
use voicechat.Session.Loop.Shared.{SessionConfig, SessionShared}
use voicechat.Session.Start.{new_shared}

module _ (fl32 : Float32) where
  pub record Session : Type 0 where
    pub config : SessionConfig fl32
    pub running : Bool
    pub shared : SessionShared

  unfoldable pub new : SessionConfig fl32 → Session
  unfolding new_shared
  new config = record { config = config; running = false; shared = new_shared fl32 config }

  -- The first step of `Session::run`.
  unfoldable pub begin_run : Session → Session
  begin_run s = record s { running = true }

  unfoldable pub stop : Session → Session
  stop s = record s { running = false }

  unfoldable pub is_running : Session → Bool
  is_running s = s.running
