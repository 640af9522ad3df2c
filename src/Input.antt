-- ===== src/Input.antt =====
-- vc-core/src/input.rs: the gate between the microphone and the network.
use voicechat.Base.{Bool, true, false}

pub data InputMode : Type 0 where
  always_on push_to_talk voice_activation : InputMode

-- `ptt_active` is the atomic flag that the user interface shares: its value at the time of the call.
pub record InputGate : Type 0 where
  pub mode : InputMode
  pub ptt_active : Bool
  pub vad_active : Bool
  pub is_transmitting : Bool

unfoldable pub new : InputMode → InputGate
new mode = record { mode = mode; ptt_active = false; vad_active = false; is_transmitting = false }

unfoldable pub set_mode : InputGate → InputMode → InputGate
set_mode g mode = record g { mode = mode }

unfoldable pub set_vad_active : InputGate → Bool → InputGate
set_vad_active g active = record g { vad_active = active }

unfoldable pub set_ptt : InputGate → Bool → InputGate
set_ptt g pressed = record g { ptt_active = pressed }

-- The `match self.mode`.
unfoldable pub decision : InputMode → InputGate → Bool
decision always_on g = true
decision push_to_talk g = g.ptt_active
decision voice_activation g = g.vad_active

unfoldable pub should_transmit : InputGate → Bool × InputGate
unfolding decision
should_transmit g =
    let transmitting = decision g.mode g in
    (transmitting, record g { is_transmitting = transmitting })
