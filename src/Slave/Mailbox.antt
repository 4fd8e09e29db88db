-- ===== src/Slave/Mailbox.antt =====
-- `ltr_int_slave_main_loop` of src/ltr_srv_slave.c: it takes the client's requests out of the shared
-- memory and sends them to the master process.
use linux_track.Prelude.{Bool, true, false, ◌&&◌, ◌||◌, List, [], ◌∷◌, ◌++◌, if◌then◌else◌}
use linux_track.Prelude.Exec.{Exec, ok, out_of_fuel, ◌>>=◌}
use linux_track.Ltlib.Comm.{
  LtrCmd, run_cmd, pause_cmd, stop_cmd, frames_cmd, nop_cmd, is_command, LtrComm,
}
use linux_track.Ltlib.Calls.{Call, post}

-- `enum cmds` of src/ltr_srv_comm.h.
pub data MessageCmd : Type 0 where
  cmd_nop cmd_new_fifo cmd_pause cmd_wakeup cmd_recenter cmd_pose cmd_param cmd_frames : MessageCmd

-- One pass of the do-while loop: whether the message could be sent, and whether the parent was alive
-- then.
pub record Try : Type 0 where
  pub sent : Bool
  pub alive : Bool

-- What happens in a round of the main loop: the client's calls before it, the attempts to send the
-- command, whether a request to recenter can be sent, and whether the parent is alive at the end.
pub record Round : Type 0 where
  pub calls : List Call
  pub tries : List Try
  pub recenter_sent : Bool
  pub alive : Bool

-- The variables of the loop, and the static variable `notify`.
pub record Slave : Type 0 where
  pub cmd : LtrCmd
  pub recenter : Bool
  pub notify : Bool
  pub quit_flag : Bool

abbrev pub fresh_slave : Slave
fresh_slave = record { cmd = nop_cmd; recenter = false; notify = false; quit_flag = false }

abbrev pub is_stop : LtrCmd → Bool
is_stop stop_cmd = true
is_stop _ = false

module _ {F : Type 0} where
  abbrev pub post_all : List Call → LtrComm F → LtrComm F
  post_all [] m = m
  post_all (c ∷ cs) m = post_all cs (post c m)

  -- Taking the requests out of the shared memory where there are some.
  unfoldable pub pick_up : Slave → LtrComm F → Slave × LtrComm F
  pick_up s m =
      if is_command m.cmd || m.recenter
      then (
        record s { cmd = m.cmd; recenter = m.recenter; notify = m.notify },
        record m { cmd = nop_cmd; recenter = false },
      )
      else (s, m)

-- The do-while loop for a message: it ends when the message is sent or the parent is dead. The messages
-- that were sent.
unfoldable pub send_retrying : MessageCmd → List Try → Exec (List MessageCmd)
send_retrying msg [] = out_of_fuel
send_retrying msg (t ∷ ts) =
    let rest = send_retrying msg ts in
    if t.sent then ok (msg ∷ []) else if t.alive then rest else ok []

-- The do-while loop.
unfoldable pub send_command : LtrCmd → List Try → Exec (List MessageCmd)
send_command pause_cmd ts = send_retrying cmd_pause ts
send_command run_cmd ts = send_retrying cmd_wakeup ts
send_command frames_cmd ts = send_retrying cmd_frames ts
send_command stop_cmd ts = ok []
send_command nop_cmd ts = ok []

-- The request to recenter, which is kept where it cannot be sent.
unfoldable pub send_recenter : Bool → Slave → List MessageCmd × Slave
send_recenter sent s =
    if s.recenter && sent then (cmd_recenter ∷ [], record s { recenter = false }) else ([], s)

-- What a round sent, and what it left.
pub record After (F : Type 0) : Type 0 where
  pub messages : List MessageCmd
  pub slave : Slave
  pub memory : LtrComm F

module _ {F : Type 0} where
  -- The body of the loop, up to the last look at the parent.
  unfoldable pub serve : Round → Slave → LtrComm F → Exec (After F)
  serve r s m = do
    let picked = pick_up s m
    commands ← send_command picked.0.cmd r.tries
    let s₁ = record picked.0 {
      quit_flag = picked.0.quit_flag || is_stop picked.0.cmd;
      cmd = nop_cmd;
    }
    let recentered = send_recenter r.recenter_sent s₁
    ok (record { messages = commands ++ recentered.0; slave = recentered.1; memory = picked.1 })

  abbrev pub round : Round → Slave → LtrComm F → Exec (After F)
  round r s m = serve r s (post_all r.calls m)

  -- `ltr_int_slave_main_loop`, for as many rounds as are given.
  unfoldable pub main_loop : List Round → Slave → LtrComm F → Exec (After F)
  main_loop [] s m = ok (record { messages = []; slave = s; memory = m })
  main_loop (r ∷ rs) s m = elim s.quit_flag [
    | true ↦ ok (record { messages = []; slave = s; memory = m })
    | false ↦ do
      first ← round r s m
      rest ← elim r.alive [
        | true ↦ main_loop rs first.slave first.memory
        | false ↦ ok (record { messages = []; slave = first.slave; memory = first.memory })
      ]
      ok (record rest { messages = first.messages ++ rest.messages })
  ]
