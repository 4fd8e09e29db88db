-- ===== src/Cal/Runloop/Steps.antt =====
-- The tracking thread and the threads that send it requests, one step at a time. A request is written
-- (`ltr_int_change_state`) in one step and signalled in another, as `ltr_int_cal_suspend` and its
-- like do; a round of the loop, with its `ltr_int_get_state_request`, is one step.
use linux_track.Prelude.{ℕ, suc, ◌+◌, ◌≡◌, Bool, true, false, some, if◌then◌else◌}
use linux_track.Cal.{Request, Cal, cal_request}
use linux_track.Cal.Runloop.{Loop, Answer, round, signal_request, rl_start}

-- `signalling` counts the threads between writing a request and signalling it.
pub record System : Type 0 where
  pub loop : Loop
  pub signalling : ℕ

unfoldable pub send : Request → System → System
unfolding cal_request
send r s =
    let (loaded, c) = cal_request r s.loop.cal in
    record {
      loop = record (s.loop) { cal = c };
      signalling = if loaded then s.signalling + 1 else s.signalling;
    }

pub data Step : System → System → Type 0 where
  request : (r : Request) (s : System) → Step s (send r s)
  signal :
      (s : System) (n : ℕ)
      → s.signalling ≡ suc n
      → Step s (record { loop = signal_request s.loop; signalling = n })
  turn :
      (a : Answer) (s : System) (l : Loop)
      → s.loop.stop_flag ≡ false
      → round a s.loop ≡ some l
      → Step s (record s { loop = l })

-- The systems that come after a successful start of the loop.
pub data Reachable (c : Cal) (flag : Bool) : System → Type 0 where
  start : Reachable c flag (record { loop = (rl_start true c flag).1; signalling = 0 })
  next : {s s' : System} → Reachable c flag s → Step s s' → Reachable c flag s'
