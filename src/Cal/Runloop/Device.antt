-- ===== src/Cal/Runloop/Device.antt =====
-- The calls into the device follow its protocol.
use linux_track.Prelude.{
  ◌+◌, ◌≡◌, refl, subst, Bool, true, false, some, List, [], ◌∷◌, ◌++◌, arith, inl, inr, u32,
  Bool-cases,
}
use linux_track.Cal.{
  Request, continue, run, pause, shutdown, running, paused, stopped, Cal, cal_set_state,
  cal_request, change_state, get_state_request,
}
use linux_track.Cal.Runloop.{
  Action, tracker_init, tracker_pause, tracker_get_frame, tracker_resume, tracker_close, frame_free,
  callback, Loop, Answer, frame_error, no_frame, frame, round, round_in, while_running,
  while_paused, take_frame, signal_request, rl_start, rl_end,
}
use linux_track.Cal.Runloop.Steps.{
  System, send, Step, request, signal, turn, Reachable, start, next,
}

-- What the device may be asked: frames while it is on, to resume while it is off.
pub data Device : Type 0 where
  fresh on off closed misused : Device

abbrev pub after : Device → Action → Device
after fresh tracker_init = on
after on tracker_get_frame = on
after on (callback n) = on
after on tracker_pause = off
after off tracker_resume = on
after on tracker_close = closed
after closed frame_free = closed
after _ _ = misused

abbrev pub device_from : Device → List Action → Device
device_from d [] = d
device_from d (a ∷ xs) = device_from (after d a) xs

abbrev pub device : List Action → Device
device xs = device_from fresh xs

device_from-append :
    (d : Device) (xs ys : List Action)
    → device_from d (xs ++ ys) ≡ device_from (device_from d xs) ys
device_from-append d [] ys = refl
device_from-append d (a ∷ xs) ys = device_from-append (after d a) xs ys

device-act : (xs : List Action) (a : Action) → device (xs ++ (a ∷ [])) ≡ after (device xs) a
device-act xs a = device_from-append fresh xs (a ∷ [])

-- Where the loop goes on, the device is on in RUNNING and off in PAUSED; where it ends, the device
-- is on.
pub data Matches (l : Loop) : Type 0 where
  serving : l.stop_flag ≡ false → l.cal.state ≡ running → device l.actions ≡ on → Matches l
  resting : l.stop_flag ≡ false → l.cal.state ≡ paused → device l.actions ≡ off → Matches l
  leaving : l.stop_flag ≡ true → device l.actions ≡ on → Matches l

take_frame-Matches :
    (a : Answer) (l : Loop)
    → l.stop_flag ≡ false
    → l.cal.state ≡ running
    → device l.actions ≡ on
    → Matches (take_frame a l)
unfolding take_frame cal_set_state
take_frame-Matches frame_error l h p d =
    leaving refl (rw (device-act l.actions tracker_get_frame, d) refl)
take_frame-Matches no_frame l h p d =
    serving h p (rw (device-act l.actions tracker_get_frame, d) refl)
take_frame-Matches (frame true) l h p d = serving h p (
    rw
      (
        device-act (l.actions ++ (tracker_get_frame ∷ [])) (callback (u32 (l.counter + 1))),
        device-act l.actions tracker_get_frame,
        d,
      )
      refl)
take_frame-Matches (frame false) l h p d = leaving refl (
    rw
      (
        device-act (l.actions ++ (tracker_get_frame ∷ [])) (callback (u32 (l.counter + 1))),
        device-act l.actions tracker_get_frame,
        d,
      )
      refl)

running-Matches :
    (r : Request) (a : Answer) (l : Loop)
    → l.stop_flag ≡ false
    → l.cal.state ≡ running
    → device l.actions ≡ on
    → Matches (while_running r a l)
unfolding while_running cal_set_state
running-Matches pause a l h p d = resting h refl (rw (device-act l.actions tracker_pause, d) refl)
running-Matches shutdown a l h p d = leaving refl d
running-Matches continue a l h p d = take_frame-Matches a l h p d
running-Matches run a l h p d = take_frame-Matches a l h p d

paused-Matches :
    (r : Request) (l : Loop)
    → l.stop_flag ≡ false
    → l.cal.state ≡ paused
    → device l.actions ≡ off
    → Matches (while_paused r l)
unfolding while_paused cal_set_state
paused-Matches run l h p d = serving h refl (rw (device-act l.actions tracker_resume, d) refl)
paused-Matches shutdown l h p d = leaving refl (rw (device-act l.actions tracker_resume, d) refl)
paused-Matches continue l h p d = resting h p d
paused-Matches pause l h p d = resting h p d

round-Matches :
    (a : Answer) (l l' : Loop) → l.stop_flag ≡ false → round a l ≡ some l' → Matches l → Matches l'
unfolding round round_in get_state_request
round-Matches a l l' go h (leaving e d) = absurd (grind arith)
round-Matches a l l' go h (serving e p d) =
    let l1 : Loop = record l {
      cal = record (l.cal) { request = continue; new_request_received = false };
    } in
    let q : while_running l.cal.request a l1 ≡ l' = grind (arith, h, p) in
    subst Matches q (running-Matches l.cal.request a l1 e p d)
round-Matches a l l' go h (resting e p d) =
    let l1 : Loop = record l {
      cal = record (l.cal) { request = continue; new_request_received = false };
      change_flag = false;
    } in
    elim (Bool-cases l.change_flag) [
      | inl f ↦
          let q : while_paused l.cal.request l1 ≡ l' = grind (arith, h, p, f) in
          subst Matches q (paused-Matches l.cal.request l1 e p d)
      | inr f ↦ absurd (grind (arith, h, p, f))
    ]

Step-Matches : {s s' : System} → Step s s' → Matches s.loop → Matches s'.loop
unfolding send cal_request change_state signal_request
Step-Matches (request r s) (serving e p d) = serving e p d
Step-Matches (request r s) (resting e p d) = resting e p d
Step-Matches (request r s) (leaving e d) = leaving e d
Step-Matches (signal s n e) (serving e' p d) = serving e' p d
Step-Matches (signal s n e) (resting e' p d) = resting e' p d
Step-Matches (signal s n e) (leaving e' d) = leaving e' d
Step-Matches (turn a s l e h) m = round-Matches a s.loop l e h m

Reachable-Matches : {c : Cal} {flag : Bool} {s : System} → Reachable c flag s → Matches s.loop
unfolding rl_start cal_set_state
Reachable-Matches start = serving refl refl refl
Reachable-Matches (next h step) = Step-Matches step (Reachable-Matches h)

rl_end-closed : (l : Loop) → l.stop_flag ≡ true → Matches l → device (rl_end l).actions ≡ closed
unfolding rl_end cal_set_state
rl_end-closed l e (serving e' p d) = absurd (grind arith)
rl_end-closed l e (resting e' p d) = absurd (grind arith)
rl_end-closed l e (leaving e' d) =
    rw
      (
        device-act (l.actions ++ (tracker_close ∷ [])) frame_free,
        device-act l.actions tracker_close,
        d,
      )
      refl

-- After any requests, signals and rounds, the device was used by its protocol: it is on in RUNNING,
-- off in PAUSED, asked for frames only while it is on, resumed exactly where it was paused, also before a
-- shutdown, and closed once, after which the state is STOPPED.
pub loop-follows_protocol :
    (c : Cal) (flag : Bool) (s : System)
    → Reachable c flag s
    → Matches s.loop
      × (s.loop.stop_flag ≡ true
          → (device (rl_end s.loop).actions ≡ closed) × ((rl_end s.loop).cal.state ≡ stopped))
unfolding rl_end cal_set_state
loop-follows_protocol c flag s h =
    (Reachable-Matches h, λ e. (rl_end-closed s.loop e (Reachable-Matches h), refl))
