-- ===== src/Slave/Settled.antt =====
-- The requests of a client are met in the end.
use linux_track.Prelude.{
  ◌≡◌, refl, Bool, true, false, not, ◌&&◌, ◌||◌, List, [], ◌∷◌, ◌++◌, arith, Bool-cases, inl, inr,
  ◌∙◌, ap₂,
}
use linux_track.Prelude.Exec.{Exec, ok, ◌>>=◌, Returns, Returns-bind, Returns-mono}
use linux_track.Ltlib.Comm.{LtrCmd, nop_cmd, is_command, LtrComm}
use linux_track.Slave.Mailbox.{
  MessageCmd, Round, Slave, is_stop, pick_up, send_recenter, After, serve, main_loop,
}
use linux_track.Slave.Delivery.{
  owed, gets_through, AllSmooth, and_then, send_command-once, Undisturbed, Accounts,
  main_loop-Accounts, pick_up-Picked, calm_when_empty,
}

-- A round has a chance to send a request to recenter.
unfoldable pub some_sent : List Round → Bool
some_sent [] = false
some_sent (r ∷ rs) = r.recenter_sent || some_sent rs

send_recenter-recenter :
    (sent : Bool) (s : Slave) → (send_recenter sent s).1.recenter ≡ (s.recenter && not sent)
unfolding send_recenter
send_recenter-recenter sent s = ground arith

send_recenter-others :
    (sent : Bool) (s : Slave)
    → ((send_recenter sent s).1.cmd ≡ s.cmd) × ((send_recenter sent s).1.quit_flag ≡ s.quit_flag)
unfolding send_recenter
send_recenter-others sent s = ground arith

and_not : (a b : Bool) → b ≡ true → (a && not b) ≡ false
and_not a b e = ground arith

no_stop : (c : LtrCmd) → c ≡ nop_cmd → is_stop c ≡ false
no_stop c e = rw e refl

module _ {F : Type 0} where
  pick_up-quit_flag : (s : Slave) (m : LtrComm F) → (pick_up s m).0.quit_flag ≡ s.quit_flag
  unfolding pick_up
  pick_up-quit_flag s m = ground arith

  pick_up-recenter :
      (s : Slave) (m : LtrComm F)
      → s.recenter ≡ false
      → m.recenter ≡ false
      → (pick_up s m).0.recenter ≡ false
  unfolding pick_up
  pick_up-recenter s m a b = ground arith

  pick_up-goes_on :
      (s : Slave) (m : LtrComm F)
      → s.cmd ≡ nop_cmd
      → is_stop m.cmd ≡ false
      → is_stop (pick_up s m).0.cmd ≡ false
  unfolding pick_up
  pick_up-goes_on s m a b = elim (Bool-cases (is_command m.cmd || m.recenter)) [
    | inl e ↦ rw e b
    | inr e ↦ rw (e, a) refl
  ]

  -- Nothing stands in the shared memory, and the loop goes on.
  record Waiting (r : Round) (s : Slave) (m : LtrComm F) (a : After F) : Type 0 where
    slave : (a.slave.cmd ≡ nop_cmd) × (a.slave.quit_flag ≡ false)
    memory : (a.memory.cmd ≡ nop_cmd) × (a.memory.recenter ≡ false)
    recenter : a.slave.recenter ≡ ((pick_up s m).0.recenter && not r.recenter_sent)

  serve-Waiting :
      (r : Round) (s : Slave) (m : LtrComm F)
      → s.cmd ≡ nop_cmd
      → s.quit_flag ≡ false
      → is_stop m.cmd ≡ false
      → Undisturbed s m
      → gets_through r.tries ≡ true
      → Returns (Waiting r s m) (serve r s m)
  unfolding serve
  serve-Waiting r s m idle go no_stop calm through =
      let picked = pick_up s m in
      let s₁ = record picked.0 {
        quit_flag = picked.0.quit_flag || is_stop picked.0.cmd;
        cmd = nop_cmd;
      } in
      let o = send_recenter-others r.recenter_sent s₁ in
      let p = pick_up-Picked s m idle calm in
      rw (send_command-once picked.0.cmd r.tries through) (record {
        slave = (
          o.0,
          o.1 ∙ ap₂ (λ a b. a || b) (pick_up-quit_flag s m ∙ go) (pick_up-goes_on s m idle no_stop),
        );
        memory = p.empty;
        recenter = send_recenter-recenter r.recenter_sent s₁;
      })

  -- Nothing is owed.
  abbrev pub Settled : After F → Type 0
  Settled a = owed a.slave a.memory ≡ []

  owed-nothing :
      (s : Slave) (m : LtrComm F)
      → (m.cmd ≡ nop_cmd) × (m.recenter ≡ false)
      → s.recenter ≡ false
      → owed s m ≡ []
  unfolding owed
  owed-nothing s m empty none' = rw (empty.0, empty.1, none') refl

  idle_rounds-Settled :
      (rs : List Round) (s : Slave) (m : LtrComm F)
      → AllSmooth rs
      → s.cmd ≡ nop_cmd
      → (m.cmd ≡ nop_cmd) × (m.recenter ≡ false)
      → s.recenter ≡ false
      → Returns Settled (main_loop rs s m)
  idle_rounds-Settled rs s m all idle empty none' =
      Returns-mono (Accounts s m) Settled (main_loop rs s m)
        (main_loop-Accounts rs s m all idle (calm_when_empty s m (empty.0)))
        (λ a e. nothing a.messages (owed a.slave a.memory) (e ∙ owed-nothing s m empty none'))
    where
      nothing : (xs ys : List MessageCmd) → xs ++ ys ≡ [] → ys ≡ []
      nothing [] ys e = e
      nothing (x ∷ xs) ys e = cc

  -- As long as the client does not stop the tracking, and the slave's loop runs for rounds in each of which the client asks for nothing new, the parent lives and the command can be sent at last, in one of which a request to recenter can be sent: nothing is owed in the end, the first command not being one that stands where a request to recenter is still to be sent.
  pub main_loop-Settled :
      (rs : List Round) (s : Slave) (m : LtrComm F)
      → AllSmooth rs
      → some_sent rs ≡ true
      → (s.cmd ≡ nop_cmd) × (s.quit_flag ≡ false)
      → is_stop m.cmd ≡ false
      → Undisturbed s m
      → Returns Settled (main_loop rs s m)
  unfolding main_loop some_sent
  main_loop-Settled [] s m all sent idle go calm = cc
  main_loop-Settled (r ∷ rs) s m (and_then smooth all) sent idle go calm =
      let r' = record r { calls = []; alive = true } in
      let s' = record s { quit_flag = false } in
      rw (idle.1, smooth.quiet, smooth.alive)
        (Returns-bind (Waiting r' s' m) Settled (serve r' s' m) then_loop
          (serve-Waiting r' s' m idle.0 refl go calm smooth.through)
          (λ first p.
            Returns-bind Settled Settled (main_loop rs first.slave first.memory)
              (λ rest. ok (record rest { messages = first.messages ++ rest.messages }))
              (elim (Bool-cases r.recenter_sent) [
                | inl e ↦
                    idle_rounds-Settled rs first.slave first.memory all p.slave.0 p.memory
                      (p.recenter ∙ and_not (pick_up s' m).0.recenter r.recenter_sent e)
                | inr e ↦
                    main_loop-Settled rs first.slave first.memory all (ground (arith, sent, e))
                      p.slave (no_stop first.memory.cmd p.memory.0)
                      (calm_when_empty first.slave first.memory p.memory.0)
              ])
              (λ rest q. q)))
    where
      then_loop : After F → Exec (After F)
      then_loop first =
          main_loop rs first.slave first.memory
          >>= (λ rest. ok (record rest { messages = first.messages ++ rest.messages }))
