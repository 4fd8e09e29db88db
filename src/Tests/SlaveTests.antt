-- ===== src/Tests/SlaveTests.antt =====
-- The mailbox and the start of a client at concrete requests.
use linux_track.Prelude.{ℕ, ◌≡◌, refl, true, false, List, [], ◌∷◌}
use linux_track.Prelude.Exec.{Returns}
use linux_track.Ltlib.Comm.{LtrComm, nop_cmd}
use linux_track.Ltlib.Calls.{Client, recenter, suspend, post}
use linux_track.Slave.Mailbox.{
  Try, Round, Slave, fresh_slave, post_all, cmd_pause, cmd_recenter, After, serve, main_loop,
  pick_up, send_command, send_retrying, send_recenter,
}
use linux_track.Slave.Delivery.{
  gets_through, Accounts, AllSmooth, none_left, and_then, owed, message_of, main_loop-Accounts,
  serve-recenter_lost,
}
use linux_track.Slave.Settled.{some_sent, Settled, main_loop-Settled}
use linux_track.Tests.FramesTests.{com_2_1}

abbrev paused_recentered : LtrComm ℕ
paused_recentered = post_all (suspend ∷ (recenter ∷ [])) com_2_1

abbrev second_try : List Try
second_try = record { sent = false; alive = true } ∷ (record { sent = true; alive = true } ∷ [])

abbrev unlucky : Round
unlucky = record { calls = []; tries = second_try; recenter_sent = false; alive = true }

abbrev lucky : Round
lucky = record { calls = []; tries = second_try; recenter_sent = true; alive = true }

abbrev two_rounds : List Round
two_rounds = unlucky ∷ (lucky ∷ [])

through : gets_through second_try ≡ true
unfolding gets_through
through = refl

some_luck : some_sent two_rounds ≡ true
unfolding some_sent
some_luck = refl

smooth_rounds : AllSmooth two_rounds
smooth_rounds =
    and_then (record { quiet = refl; through = through; alive = refl })
      (and_then (record { quiet = refl; through = through; alive = refl }) none_left)

main_loop-Accounts_example :
    Returns
      (Accounts fresh_slave paused_recentered)
      (main_loop two_rounds fresh_slave paused_recentered)
main_loop-Accounts_example =
    main_loop-Accounts two_rounds fresh_slave paused_recentered smooth_rounds refl refl

main_loop-Settled_example : Returns Settled (main_loop two_rounds fresh_slave paused_recentered)
unfolding post
main_loop-Settled_example =
    main_loop-Settled two_rounds fresh_slave paused_recentered smooth_rounds some_luck (refl, refl)
      refl refl

abbrev owing : Slave
owing = record { cmd = nop_cmd; recenter = true; notify = false; quit_flag = false }

abbrev paused : LtrComm ℕ
paused = post_all (suspend ∷ []) com_2_1

serve-recenter_lost_example :
    Returns
      (λ (a : After ℕ). (a.messages ≡ message_of paused.cmd) × (owed a.slave a.memory ≡ []))
      (serve lucky owing paused)
unfolding post
serve-recenter_lost_example = serve-recenter_lost lucky owing paused refl refl refl through

-- Two rounds send both messages, the second after a failure.
two_rounds_sent :
    Returns
      (λ (a : After ℕ). a.messages ≡ cmd_pause ∷ (cmd_recenter ∷ []))
      (main_loop two_rounds fresh_slave paused_recentered)
unfolding main_loop serve pick_up send_command send_retrying send_recenter post
two_rounds_sent = refl

abbrev not_started : Client ℕ
not_started = record { initialized = false; mapped = false; shared = com_2_1; slaves = 0 }
