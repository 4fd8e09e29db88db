-- ===== src/Cal/Runloop/Wakeup.antt =====
-- No wake-up of a paused tracking thread is lost.
use linux_track.Prelude.{
  ◌<◌, ◌≡◌, ◌≢◌, refl, ◌∙◌, Bool, true, false, some, arith, inl, inr, Bool-cases, ◌⊎◌,
}
use linux_track.Cal.{
  Request, continue, run, pause, shutdown, State, initializing, running, paused, stopped,
  err_not_initialized, err_processing_frame, Cal, cal_set_state, change_state, cal_request,
  get_state_request,
}
use linux_track.Cal.Runloop.{
  Loop, Answer, frame_error, no_frame, frame, round, round_in, while_running, while_paused,
  take_frame, signal_request, rl_start,
}
use linux_track.Cal.Runloop.Steps.{
  System, send, Step, request, signal, turn, Reachable, start, next,
}

-- The driver is loaded, and a request that a paused thread has not seen is signalled already or will
-- be by a thread that is about to.
record Awake (s : System) : Type 0 where
  loaded : s.loop.cal.loaded ≡ true
  heard :
      s.loop.cal.state ≡ paused
      → s.loop.cal.request ≢ continue
      → (s.loop.change_flag ≡ true) ⊎ (0 < s.signalling)

-- What a round leaves of the requests.
record Fetched (l l' : Loop) : Type 0 where
  same : l'.cal.loaded ≡ l.cal.loaded
  taken : l'.cal.request ≡ continue

take_frame-Fetched :
    (a : Answer) (l : Loop)
    → ((take_frame a l).cal.loaded ≡ l.cal.loaded) × ((take_frame a l).cal.request ≡ l.cal.request)
unfolding take_frame cal_set_state
take_frame-Fetched frame_error l = (refl, refl)
take_frame-Fetched no_frame l = (refl, refl)
take_frame-Fetched (frame true) l = (refl, refl)
take_frame-Fetched (frame false) l = (refl, refl)

running-Fetched :
    (r : Request) (a : Answer) (l : Loop)
    → ((while_running r a l).cal.loaded ≡ l.cal.loaded)
      × ((while_running r a l).cal.request ≡ l.cal.request)
unfolding while_running cal_set_state
running-Fetched pause a l = (refl, refl)
running-Fetched shutdown a l = (refl, refl)
running-Fetched continue a l = take_frame-Fetched a l
running-Fetched run a l = take_frame-Fetched a l

paused-Fetched :
    (r : Request) (l : Loop)
    → ((while_paused r l).cal.loaded ≡ l.cal.loaded)
      × ((while_paused r l).cal.request ≡ l.cal.request)
unfolding while_paused cal_set_state
paused-Fetched pause l = (refl, refl)
paused-Fetched shutdown l = (refl, refl)
paused-Fetched continue l = (refl, refl)
paused-Fetched run l = (refl, refl)

round-Fetched : (s : State) (a : Answer) (l l' : Loop) → round_in s a l ≡ some l' → Fetched l l'
unfolding round_in get_state_request
round-Fetched running a l l' h =
    let l1 : Loop = record l {
      cal = record (l.cal) { request = continue; new_request_received = false };
    } in
    let (same, taken) = running-Fetched l.cal.request a l1 in
    record { same = grind (arith, h, same); taken = grind (arith, h, taken) }
round-Fetched paused a l l' h =
    let l1 : Loop = record l {
      cal = record (l.cal) { request = continue; new_request_received = false };
      change_flag = false;
    } in
    let (same, taken) = paused-Fetched l.cal.request l1 in
    elim (Bool-cases l.change_flag) [
      | inl e ↦ record { same = grind arith; taken = grind arith }
      | inr e ↦ absurd (grind arith)
    ]
round-Fetched initializing a l l' h = absurd (grind arith)
round-Fetched stopped a l l' h = absurd (grind arith)
round-Fetched err_not_initialized a l l' h = absurd (grind arith)
round-Fetched err_processing_frame a l l' h = absurd (grind arith)

send-Awake : (r : Request) (s : System) → Awake s → Awake (send r s)
unfolding send cal_request change_state
send-Awake r s w = record { loaded = w.loaded; heard = λ p q. inr (rw (w.loaded) (omega arith)) }

Step-Awake : {s s' : System} → Step s s' → Awake s → Awake s'
unfolding signal_request round
Step-Awake (request r s) w = send-Awake r s w
Step-Awake (signal s n e) w = record { loaded = w.loaded; heard = λ p q. inl refl }
Step-Awake (turn a s l e h) w =
    let f = round-Fetched s.loop.cal.state a s.loop l h in
    record { loaded = f.same ∙ w.loaded; heard = λ p q. absurd (q (f.taken)) }

Reachable-Awake :
    {c : Cal} {flag : Bool} {s : System} → c.loaded ≡ true → Reachable c flag s → Awake s
unfolding rl_start cal_set_state
Reachable-Awake e start = record { loaded = e; heard = λ p. absurd (grind arith) }
Reachable-Awake e (next h step) = Step-Awake step (Reachable-Awake e h)

paused-obeys :
    (r : Request) (l : Loop)
    → (r ≡ run → (while_paused r l).cal.state ≡ running)
      × (r ≡ shutdown → (while_paused r l).stop_flag ≡ true)
unfolding while_paused cal_set_state
paused-obeys run l = ((λ h. refl), (λ h. absurd (grind arith)))
paused-obeys shutdown l = ((λ h. absurd (grind arith)), (λ h. refl))
paused-obeys continue l = ((λ h. absurd (grind arith)), (λ h. absurd (grind arith)))
paused-obeys pause l = ((λ h. absurd (grind arith)), (λ h. absurd (grind arith)))

-- Once the threads that sent requests have signalled them, a paused thread that was sent `run` resumes
-- the device and runs in its next round, and one that was sent `shutdown` leaves the loop in it.
-- Before that, some thread is about to signal, or the flag is up.
pub paused-heard :
    (c : Cal) (flag : Bool) (s : System)
    → c.loaded ≡ true
    → Reachable c flag s
    → s.loop.cal.state ≡ paused
    → s.loop.cal.request ≢ continue
    → ((s.loop.change_flag ≡ true) ⊎ (0 < s.signalling))
      × ((a : Answer)
          → s.signalling ≡ 0
          → (l : Loop) × (round a s.loop ≡ some l)
            × (s.loop.cal.request ≡ run → l.cal.state ≡ running)
            × (s.loop.cal.request ≡ shutdown → l.stop_flag ≡ true))
unfolding round round_in get_state_request
paused-heard c flag s e h p q =
    let w = Reachable-Awake e h in
    let up = w.heard p q in
    (
      up,
      λ a z.
          let f : s.loop.change_flag ≡ true = ground (arith, up) in
          let l : Loop = record (s.loop) {
            cal = record (s.loop.cal) { request = continue; new_request_received = false };
            change_flag = false;
          } in
          (
            while_paused s.loop.cal.request l,
            rw (p, f) refl,
            (paused-obeys s.loop.cal.request l).0,
            (paused-obeys s.loop.cal.request l).1,
          ),
    )
