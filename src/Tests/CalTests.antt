-- ===== src/Tests/CalTests.antt =====
-- Tests and examples for src/cal.c and src/runloop.c.
use linux_track.Prelude.{◌<◌, ◌≡◌, refl, true, false, some, [], ◌∷◌, ◌⊎◌, arith}
use linux_track.Cal.{
  continue, run, pause, shutdown, running, paused, stopped, Cal, cal_set_state, cal_request,
  change_state, get_state_request, initializing,
}
use linux_track.Cal.Runloop.{
  Loop, Answer, round_in, while_running, tracker_init, tracker_pause, no_frame, round, rl_start,
  rl_end,
}
use linux_track.Cal.Runloop.Steps.{System, send, request, turn, Reachable, start, next}
use linux_track.Cal.Runloop.Wakeup.{paused-heard}
use linux_track.Cal.Runloop.Device.{Matches, device, closed, loop-follows_protocol}

abbrev fresh_cal : Cal
fresh_cal = record {
  request = pause;
  new_request_received = true;
  state = stopped;
  loaded = true;
  reported = [];
}

abbrev started : System
started = record { loop = (rl_start true fresh_cal false).1; signalling = 0 }

abbrev resting : System
resting = record {
  loop = record {
    cal = record {
      request = continue;
      new_request_received = false;
      state = paused;
      loaded = true;
      reported = initializing ∷ running ∷ paused ∷ [];
    };
    change_flag = false;
    counter = 0;
    stop_flag = false;
    actions = tracker_init ∷ tracker_pause ∷ [];
  };
  signalling = 0;
}

abbrev woken : System
woken = send run resting

-- The request that was there at the start pauses the thread, and a thread asks it to run again.
woken-Reachable : Reachable fresh_cal false woken
unfolding rl_start cal_set_state round round_in get_state_request while_running
woken-Reachable =
    next (next start (turn no_frame started resting.loop refl refl)) (request run resting)

paused-heard_example :
    ((woken.loop.change_flag ≡ true) ⊎ (0 < woken.signalling))
    × ((a : Answer)
        → woken.signalling ≡ 0
        → (l : Loop) × (round a woken.loop ≡ some l)
          × (woken.loop.cal.request ≡ run → l.cal.state ≡ running)
          × (woken.loop.cal.request ≡ shutdown → l.stop_flag ≡ true))
unfolding send cal_request change_state
paused-heard_example =
    paused-heard fresh_cal false woken refl woken-Reachable refl (λ e. absurd (grind arith))

loop-follows_protocol_example :
    Matches woken.loop
    × (woken.loop.stop_flag ≡ true
        → (device (rl_end woken.loop).actions ≡ closed) × ((rl_end woken.loop).cal.state ≡ stopped))
loop-follows_protocol_example = loop-follows_protocol fresh_cal false woken woken-Reachable
