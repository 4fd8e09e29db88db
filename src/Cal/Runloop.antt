-- ===== src/Cal/Runloop.antt =====
-- src/runloop.c: the loop of the tracking thread over the requests and the frames of the device.
pub mod Steps
pub mod Device
pub mod Wakeup
use linux_track.Prelude.{
  ℕ, zero, suc, ◌+◌, ◌^◌, Bool, true, false, not, Option, none, some, List, [], ◌∷◌, ◌++◌,
  if◌then◌else◌, ℤ, pos, negsuc, u32,
}
use linux_track.Cal.{
  Request, continue, run, pause, shutdown, State, initializing, running, paused, stopped,
  err_not_initialized, err_processing_frame, Cal, cal_set_state, get_state_request,
}

-- The calls into the device.
pub data Action : Type 0 where
  tracker_init tracker_pause tracker_get_frame tracker_resume tracker_close frame_free : Action
  -- The frame callback, with the frame's counter.
  callback : ℕ → Action

-- What the device and the callback answer when a frame is asked for: an error, no frame yet, or a
-- frame, with the outcome of the callback (`false` for a negative value).
pub data Answer : Type 0 where
  frame_error no_frame : Answer
  frame : Bool → Answer

-- The state of `ltr_int_rl_run` and the static variable `change_flag`.
pub record Loop : Type 0 where
  pub cal : Cal
  pub change_flag : Bool
  pub counter : ℕ
  pub stop_flag : Bool
  pub actions : List Action

abbrev pub act : Action → Loop → Loop
act a l = record l { actions = l.actions ++ (a ∷ []) }

abbrev pub enter : State → Loop → Loop
enter s l = record l { cal = cal_set_state s l.cal }

abbrev pub stop : Loop → Loop
stop l = record l { stop_flag = true }

-- The `default` of the switch over the request in RUNNING.
unfoldable pub take_frame : Answer → Loop → Loop
unfolding cal_set_state
take_frame frame_error l = stop (enter err_processing_frame (act tracker_get_frame l))
take_frame no_frame l = act tracker_get_frame l
take_frame (frame processed) l =
    let n = u32 (l.counter + 1) in
    let l' = act (callback n) (record (act tracker_get_frame l) { counter = n }) in
    if processed then l' else stop (enter err_processing_frame l')

unfoldable pub while_running : Request → Answer → Loop → Loop
unfolding take_frame
while_running pause a l = act tracker_pause (enter paused l)
while_running shutdown a l = stop l
while_running continue a l = take_frame a l
while_running run a l = take_frame a l

unfoldable pub while_paused : Request → Loop → Loop
unfolding cal_set_state
while_paused run l = enter running (act tracker_resume l)
while_paused shutdown l = stop (act tracker_resume l)
while_paused continue l = l
while_paused pause l = l

abbrev pub fetch : Loop → Request × Loop
fetch l = let (r, c) = get_state_request l.cal in (r, record l { cal = c })

-- One round of `while(1)`: `none` while the thread waits for `change_flag`, and at `assert(0)`.
unfoldable pub round_in : State → Answer → Loop → Option Loop
unfolding while_running while_paused get_state_request
round_in running a l = let (r, l') = fetch l in some (while_running r a l')
round_in paused a l =
    let (r, l') = fetch l in
    if l.change_flag then some (while_paused r (record l' { change_flag = false })) else none
round_in _ a l = none

unfoldable pub round : Answer → Loop → Option Loop
unfolding round_in
round a l = round_in l.cal.state a l

-- `signal_request`
unfoldable pub signal_request : Loop → Loop
signal_request l = record l { change_flag = true }

-- What precedes the loop, by the outcome of `ltr_int_tracker_init`; `none` for a return of -1.
unfoldable pub rl_start : Bool → Cal → Bool → Bool × Loop
unfolding cal_set_state
rl_start ready c flag =
    let l : Loop = record {
      cal = cal_set_state initializing c;
      change_flag = flag;
      counter = 0;
      stop_flag = false;
      actions = tracker_init ∷ [];
    } in
    if ready then (true, enter running l) else (false, enter err_not_initialized l)

-- What follows the loop.
unfoldable pub rl_end : Loop → Loop
unfolding cal_set_state
rl_end l = enter stopped (act frame_free (act tracker_close l))
