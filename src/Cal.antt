-- ===== src/Cal.antt =====
-- src/cal.c: the requests to the tracking thread and its state.
pub mod Runloop
use linux_track.Prelude.{
  ℕ, zero, suc, ◌+◌, Bool, true, false, not, List, [], ◌∷◌, ◌++◌, if◌then◌else◌, ℤ, pos, negsuc,
}

-- `enum ltr_request_t`
pub data Request : Type 0 where
  continue run pause shutdown : Request

-- `linuxtrack_state_type` of src/linuxtrack.h, as far as this code sets it.
pub data State : Type 0 where
  initializing running paused stopped err_not_initialized err_processing_frame : State

-- The static variables of cal.c. `loaded` says whether a driver's functions are in `iface`; `reported`
-- lists the states that the status callback was called in.
pub record Cal : Type 0 where
  pub request : Request
  pub new_request_received : Bool
  pub state : State
  pub loaded : Bool
  pub reported : List State

unfoldable pub cal_set_state : State → Cal → Cal
cal_set_state new_state c = record c {
  state = new_state;
  reported = c.reported ++ (new_state ∷ []);
}

unfoldable pub change_state : Request → Cal → Cal
change_state new_req c = record c { request = new_req; new_request_received = true }

unfoldable pub got_new_request : Cal → Bool
got_new_request c = c.new_request_received

unfoldable pub get_state_request : Cal → Request × Cal
get_state_request c = (c.request, record c { request = continue; new_request_received = false })

-- The answer of a call through `iface` (the run loop's `signal_request` returns 0), or -1 where no
-- driver is loaded.
abbrev pub answer : Bool → ℤ
answer true = pos 0
answer false = negsuc 0

-- The first part of `ltr_int_cal_shutdown`, `_suspend` and `_wakeup`: the request is set whether or
-- not a driver is loaded; the flag says whether its `signal_request` is called next.
unfoldable pub cal_request : Request → Cal → Bool × Cal
unfolding change_state
cal_request r c = let c' = change_state r c in (c'.loaded, c')

abbrev pub is_pause : Request → Bool
is_pause pause = true
is_pause _ = false

-- `ltr_int_cal_run` up to the call of the driver's run loop, with the outcome of loading the library;
-- on a failure it returns -1.
unfoldable pub cal_run_start : Bool → Cal → Bool × Cal
unfolding cal_set_state change_state
cal_run_start false c = (false, cal_set_state initializing c)
cal_run_start true c =
    let c' = record (cal_set_state initializing c) { loaded = true } in
    (true, if is_pause c'.request then c' else change_state run c')

-- What follows the driver's run loop.
unfoldable pub cal_run_end : Cal → Cal
cal_run_end c = record c { loaded = false }
