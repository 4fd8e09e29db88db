-- ===== src/Slave/Delivery.antt =====
-- The requests of a client reach the master process.
use linux_track.Prelude.{
  ◌≡◌, refl, Bool, true, false, not, ◌&&◌, ◌||◌, List, [], ◌∷◌, ◌++◌, arith, append-nil,
  append_assoc, ◌∙◌, ap, ap₂, sym, subst,
}
use linux_track.Prelude.Exec.{Exec, ok, ◌>>=◌, Returns, Returns-bind}
use linux_track.Ltlib.Comm.{
  LtrCmd, run_cmd, pause_cmd, stop_cmd, frames_cmd, nop_cmd, is_command, LtrComm,
}
use linux_track.Slave.Mailbox.{
  serve, MessageCmd, cmd_pause, cmd_wakeup, cmd_recenter, cmd_frames, Try, Round, Slave, is_stop,
  pick_up, send_retrying, send_command, send_recenter, After, round, main_loop,
}

-- The message for a command.
abbrev pub message_of : LtrCmd → List MessageCmd
message_of pause_cmd = cmd_pause ∷ []
message_of run_cmd = cmd_wakeup ∷ []
message_of frames_cmd = cmd_frames ∷ []
message_of stop_cmd = []
message_of nop_cmd = []

abbrev pub recenter_message : Bool → List MessageCmd
recenter_message true = cmd_recenter ∷ []
recenter_message false = []

-- An attempt succeeds before the parent dies.
unfoldable pub gets_through : List Try → Bool
gets_through [] = false
gets_through (t ∷ ts) = t.sent || (t.alive && gets_through ts)

send_retrying-once :
    (msg : MessageCmd) (ts : List Try)
    → gets_through ts ≡ true
    → send_retrying msg ts ≡ ok (msg ∷ [])
unfolding send_retrying gets_through
send_retrying-once msg [] h = cc
send_retrying-once msg (t ∷ ts) h = ground (arith, send_retrying-once msg ts)

pub send_command-once :
    (cmd : LtrCmd) (ts : List Try)
    → gets_through ts ≡ true
    → send_command cmd ts ≡ ok (message_of cmd)
unfolding send_command
send_command-once pause_cmd ts h = send_retrying-once cmd_pause ts h
send_command-once run_cmd ts h = send_retrying-once cmd_wakeup ts h
send_command-once frames_cmd ts h = send_retrying-once cmd_frames ts h
send_command-once stop_cmd ts h = refl
send_command-once nop_cmd ts h = refl

recentered :
    (sent : Bool) (s : Slave)
    → (send_recenter sent s).0 ++ recenter_message (send_recenter sent s).1.recenter
      ≡ recenter_message s.recenter
unfolding send_recenter
recentered sent s = ground arith

send_recenter-cmd : (sent : Bool) (s : Slave) → (send_recenter sent s).1.cmd ≡ s.cmd
unfolding send_recenter
send_recenter-cmd sent s = ground arith

-- A round in which the client asks for nothing and the parent lives.
pub record Smooth (r : Round) : Type 0 where
  pub quiet : r.calls ≡ []
  pub through : gets_through r.tries ≡ true
  pub alive : r.alive ≡ true

pub data AllSmooth : List Round → Type 0 where
  none_left : AllSmooth []
  and_then : {r : Round} {rs : List Round} → Smooth r → AllSmooth rs → AllSmooth (r ∷ rs)

module _ {F : Type 0} where
  -- What the master process has still to be told.
  unfoldable pub owed : Slave → LtrComm F → List MessageCmd
  owed s m = message_of m.cmd ++ recenter_message (m.recenter || s.recenter)

  -- No command stands where a request to recenter still waits to be sent.
  abbrev pub Undisturbed : Slave → LtrComm F → Type 0
  Undisturbed s m = (s.recenter && is_command m.cmd && not m.recenter) ≡ false

  pub record Conserved (s : Slave) (m : LtrComm F) (a : After F) : Type 0 where
    pub conserved : a.messages ++ owed a.slave a.memory ≡ owed s m
    pub idle : (a.slave.cmd ≡ nop_cmd) × (a.memory.cmd ≡ nop_cmd)

  pub record Picked (s : Slave) (m : LtrComm F) (p : Slave × LtrComm F) : Type 0 where
    pub owes : message_of p.0.cmd ++ recenter_message p.0.recenter ≡ owed s m
    pub empty : (p.1.cmd ≡ nop_cmd) × (p.1.recenter ≡ false)

  pick_up-at :
      (c : LtrCmd) (mine his : Bool) (s : Slave) (m : LtrComm F)
      → (mine && is_command c && not his) ≡ false
      → Picked
          (record s { cmd = nop_cmd; recenter = mine })
          (record m { cmd = c; recenter = his })
          (pick_up
            (record s { cmd = nop_cmd; recenter = mine })
            (record m { cmd = c; recenter = his }))
  unfolding pick_up owed
  pick_up-at nop_cmd true true s m h = record { owes = refl; empty = (refl, refl) }
  pick_up-at nop_cmd true false s m h = record { owes = refl; empty = (refl, refl) }
  pick_up-at nop_cmd false true s m h = record { owes = refl; empty = (refl, refl) }
  pick_up-at nop_cmd false false s m h = record { owes = refl; empty = (refl, refl) }
  pick_up-at _ true true s m h = record { owes = refl; empty = (refl, refl) }
  pick_up-at _ false true s m h = record { owes = refl; empty = (refl, refl) }
  pick_up-at _ false false s m h = record { owes = refl; empty = (refl, refl) }
  pick_up-at _ true false s m h = cc

  pub pick_up-Picked :
      (s : Slave) (m : LtrComm F) → s.cmd ≡ nop_cmd → Undisturbed s m → Picked s m (pick_up s m)
  pick_up-Picked s m idle calm =
      subst (λ (c : LtrCmd). Picked (record s { cmd = c }) m (pick_up (record s { cmd = c }) m))
        (sym idle) (pick_up-at m.cmd s.recenter m.recenter s m calm)

  serve-Conserved :
      (r : Round) (s : Slave) (m : LtrComm F)
      → s.cmd ≡ nop_cmd
      → gets_through r.tries ≡ true
      → Undisturbed s m
      → Returns (Conserved s m) (serve r s m)
  unfolding serve owed
  serve-Conserved r s m idle through calm =
      let p = pick_up-Picked s m idle calm in
      let picked = pick_up s m in
      let s₁ = record picked.0 {
        quit_flag = picked.0.quit_flag || is_stop picked.0.cmd;
        cmd = nop_cmd;
      } in
      let sent = send_recenter r.recenter_sent s₁ in
      rw (send_command-once picked.0.cmd r.tries through) (record {
        conserved =
            ap (λ t. (message_of picked.0.cmd ++ sent.0) ++ t)
              (ap₂ (λ c b. message_of c ++ recenter_message (b || sent.1.recenter)) p.empty.0
                p.empty.1)
            ∙ append_assoc (message_of picked.0.cmd) sent.0 (recenter_message sent.1.recenter)
            ∙ ap (λ t. message_of picked.0.cmd ++ t) (recentered r.recenter_sent s₁)
            ∙ p.owes;
        idle = (send_recenter-cmd r.recenter_sent s₁, p.empty.0);
      })

  pub calm_when_empty : (s : Slave) (m : LtrComm F) → m.cmd ≡ nop_cmd → Undisturbed s m
  calm_when_empty s m e = rw e (ground arith)

  -- What was sent and what is still owed, together.
  abbrev pub Accounts : Slave → LtrComm F → After F → Type 0
  Accounts s m a = a.messages ++ owed a.slave a.memory ≡ owed s m

  then_rest :
      (first : After F) (s : Slave) (m : LtrComm F) (rest : After F)
      → Accounts s m first
      → Accounts first.slave first.memory rest
      → Accounts s m (record rest { messages = first.messages ++ rest.messages })
  then_rest first s m rest a b =
      append_assoc first.messages rest.messages (owed rest.slave rest.memory)
      ∙ ap (λ t. first.messages ++ t) b
      ∙ a

  -- While the slave's loop runs for any number of rounds, in each of which the client asks for nothing new, the parent lives
  -- and the command, if there is one, can be sent at last: unless a command, and no request to
  -- recenter, stands in the shared memory where a request to recenter is still to be sent, what the
  -- rounds sent, followed by what they still owe to the master, is what was owed at first: the message
  -- for the command, once, and the request to recenter, once, sent or kept.
  pub main_loop-Accounts :
      (rs : List Round) (s : Slave) (m : LtrComm F)
      → AllSmooth rs
      → s.cmd ≡ nop_cmd
      → Undisturbed s m
      → Returns (Accounts s m) (main_loop rs s m)
  unfolding main_loop
  main_loop-Accounts [] s m all idle calm = refl
  main_loop-Accounts (r ∷ rs) s m (and_then smooth all) idle calm =
      elim s.quit_flag
        as (λ q.
          Returns (Accounts s m)
            (elim q [ true ↦ ok (record { messages = []; slave = s; memory = m }) | false ↦ on ])) [
              | true ↦ refl
              | false ↦
                  rw (smooth.quiet, smooth.alive)
                    (Returns-bind (Conserved s m) (Accounts s m)
                      (serve (record r { calls = []; alive = true }) s m) then_loop
                      (serve-Conserved (record r { calls = []; alive = true }) s m idle
                        smooth.through calm)
                      (λ first p.
                        Returns-bind (Accounts first.slave first.memory) (Accounts s m)
                          (main_loop rs first.slave first.memory)
                          (λ rest. ok (record rest { messages = first.messages ++ rest.messages }))
                          (main_loop-Accounts rs first.slave first.memory all p.idle.0
                            (calm_when_empty first.slave first.memory p.idle.1))
                          (λ rest q. then_rest first s m rest p.conserved q)))
            ]
    where
      then_loop : After F → Exec (After F)
      then_loop first =
          main_loop rs first.slave first.memory
          >>= (λ rest. ok (record rest { messages = first.messages ++ rest.messages }))

      on : Exec (After F)
      on = round r s m >>= (λ first.
          (elim r.alive [
            | true ↦ main_loop rs first.slave first.memory
            | false ↦ ok (record { messages = []; slave = first.slave; memory = first.memory })
          ])
          >>= (λ rest. ok (record rest { messages = first.messages ++ rest.messages })))

  -- Where a request to recenter could not be sent yet, and the client gives a command and does not ask
  -- again, the request is dropped: after the next round it is not owed, and all that round sent is the message for the command.
  pub serve-recenter_lost :
      (r : Round) (s : Slave) (m : LtrComm F)
      → s.recenter ≡ true
      → is_command m.cmd ≡ true
      → m.recenter ≡ false
      → gets_through r.tries ≡ true
      → Returns
          (λ (a : After F). (a.messages ≡ message_of m.cmd) × (owed a.slave a.memory ≡ []))
          (serve r s m)
  unfolding serve pick_up send_recenter owed
  serve-recenter_lost r s m waits command new through =
      rw (command, new, send_command-once m.cmd r.tries through)
        (append-nil (message_of m.cmd), refl)
