-- ===== src/Ltlib/Calls.antt =====
-- src/ltlib.c: the calls by which a client starts, pauses, resumes and stops the tracking, and asks
-- for its state.
use linux_track.Prelude.{
  ℕ, ◌+◌, Bool, true, false, not, ◌&&◌, ◌||◌, Option, none, some, if◌then◌else◌,
}
use linux_track.Ltlib.Comm.{
  TrackingState, linuxtrack_ok, initializing, not_initialized, run_cmd, pause_cmd, stop_cmd,
  frames_cmd, LtrComm,
}

-- The static variables of src/ltlib.c, with the memory that `mmm.data` points to; `mapped` says that
-- `mmm.data` is not NULL. `slaves` counts the slave processes that were started.
pub record Client (F : Type 0) : Type 0 where
  pub initialized : Bool
  pub mapped : Bool
  pub shared : LtrComm F
  pub slaves : ℕ

-- What the calls of the client change in the shared memory.
pub data Call : Type 0 where
  suspend wakeup shutdown recenter notification_on request_frames : Call

module _ {F : Type 0} where
  -- `com->cmd = cmd` and the like, under the lock.
  unfoldable pub post : Call → LtrComm F → LtrComm F
  post suspend m = record m { cmd = pause_cmd }
  post wakeup m = record m { cmd = run_cmd }
  post shutdown m = record m { cmd = stop_cmd }
  post recenter m = record m { recenter = true }
  post notification_on m = record m { notify = true }
  post request_frames m = record m { cmd = frames_cmd }

  -- `(!initialized) || (com == NULL)`
  abbrev pub detached : Client F → Bool
  detached c = not c.initialized || not c.mapped

  -- `ltr_suspend`, `ltr_wakeup`, `ltr_recenter`, `ltr_notification_on` and `ltr_request_frames`.
  unfoldable pub request : Call → Client F → TrackingState × Client F
  request call c =
      if detached c
      then (not_initialized, c)
      else (linuxtrack_ok, record c { shared = post call c.shared })

  -- `ltr_shutdown`, which also lets go of the memory.
  unfoldable pub ltr_shutdown : Client F → TrackingState × Client F
  ltr_shutdown c = if detached c then (not_initialized, c) else (
    linuxtrack_ok,
    record c { shared = post shutdown c.shared; initialized = false; mapped = false },
  )

  unfoldable pub ltr_get_tracking_state : Client F → TrackingState
  ltr_get_tracking_state c =
      if detached c
      then not_initialized
      else if c.shared.preparing_start
      then initializing
      else c.shared.state

  -- `ltr_int_init_helper`, with the memory that `make_mmap` gives and whether the slave process can be
  -- started; false for NULL.
  unfoldable pub init_helper : Option (LtrComm F) → Bool → Bool → Client F → Bool × Client F
  init_helper memory forks standalone c = if c.initialized then (true, c) else map_memory memory
    where
      start : LtrComm F → Bool × Client F
      start fresh =
          let c₁ = record c {
            initialized = true;
            mapped = true;
            shared = record fresh { state = initializing; preparing_start = true };
          } in
          if standalone && not forks
          then (false, record c₁ { shared = record c₁.shared { state = not_initialized } })
          else (
            true,
            (request wakeup (if standalone then record c₁ { slaves = c₁.slaves + 1 } else c₁)).1,
          )

      map_memory : Option (LtrComm F) → Bool × Client F
      map_memory none = (false, c)
      map_memory (some fresh) = start fresh

  unfoldable pub ltr_init : Option (LtrComm F) → Bool → Client F → TrackingState × Client F
  ltr_init memory forks c =
      let r = init_helper memory forks true c in
      if r.0 then (ltr_get_tracking_state r.1, r.1) else (initializing, r.1)
