-- ===== src/Slave/Messages.antt =====
-- `ltr_int_process_message` of src/ltr_srv_slave.c, and the messages of src/ltr_srv_comm.c: what the
-- slave does with a message of the master.
use linux_track.Prelude.{
  ℕ, List, [], ◌∷◌, get_elem?, ◌+◌, Bool, true, false, ◌&&◌, Option, none, some, if◌then◌else◌,
}
use linux_track.Prelude.Exec.{Exec, ok, fault, ◌>>=◌}
use linux_track.MathUtils.{MathOps}
use linux_track.Axes.{
  AxisId, pitch, roll, yaw, tx, ty, tz, misc, AxisParam, axis_enabled, axis_deadzone, axis_lcurv,
  axis_rcurv, axis_mult, axis_llimit, axis_rlimit, axis_filter, axis_inverted, axis_full,
  axis_default, misc_alter, misc_align, misc_legr, misc_focal_length, Axes, set_axis_param,
  set_axis_bool_param,
}
use linux_track.Ltlib.Comm.{running, TrackingState, FullPose, LtrComm}
use linux_track.Tracking.Postprocess.{Filtered, postprocess_axes}
use linux_track.Slave.Mailbox.{MessageCmd}

-- `message_t`: a pose, a parameter with the numbers of the axis and of the parameter and its value, or
-- any other message.
pub data Message (F : Type 0) : Type 0 where
  pose_message : FullPose F → Message F
  param_message : ℕ → ℕ → F → Message F
  nop_message : Message F
  other_message : MessageCmd → Message F

-- The value of `enum axis_t` with this number, `none` for any other.
abbrev pub axis_of : ℕ → Option AxisId
axis_of id = get_elem? (pitch ∷ roll ∷ yaw ∷ tx ∷ ty ∷ tz ∷ misc ∷ []) id

abbrev numbered_params : List AxisParam
numbered_params =
    axis_enabled ∷ axis_deadzone ∷ axis_lcurv ∷ axis_rcurv ∷ axis_mult ∷ axis_llimit ∷ axis_rlimit
    ∷ axis_filter ∷ axis_inverted ∷ axis_full ∷ misc_legr ∷ misc_alter ∷ misc_align
    ∷ misc_focal_length ∷ []

-- The value of `enum axis_param_t` with this number. A number without one takes the default case of
-- every `switch`, as AXIS_DEFAULT does.
abbrev pub param_of : ℕ → AxisParam
param_of id = elim (get_elem? numbered_params id) [ none ↦ axis_default | some param ↦ param ]

-- What `ltr_int_fifo_receive` gives.
pub data Received (F : Type 0) : Type 0 where
  read_fails : Received F
  nothing_there : Received F
  received : Message F → Received F

-- The preferences that a message can change.
pub record MiscPrefs (F : Type 0) : Type 0 where
  pub use_alter : Bool
  pub tr_align : Bool
  pub use_oldrot : Bool
  pub focal_length : F

-- The axes, the filters, the preferences and the shared memory; whether the client has a pipe for
-- notifications and asked for them, and how many bytes were written to it.
pub record Reader (o : MathOps) : Type 0 where
  pub axes : Axes o.axis
  pub filtered : Filtered o.axis.F
  pub prefs : MiscPrefs o.axis.F
  pub memory : LtrComm o.axis.F
  pub notify : Bool
  pub notify_pipe : Bool
  pub notified : ℕ

abbrev pub is_running : TrackingState → Bool
is_running running = true
is_running _ = false

-- `ltr_int_send_data` and `ltr_int_send_param_update` of src/ltr_srv_comm.c: the message that is
-- written to the pipe.
abbrev pub send_data : {F : Type 0} → FullPose F → Message F
send_data p = pose_message p

abbrev pub send_param_update : {F : Type 0} → ℕ → ℕ → F → Message F
send_param_update axis param value = param_message axis param value

module _ (o : MathOps) where
  open o use {axis}
  open axis use {F, half, lt}

  -- The pose goes to the shared memory where the tracking runs, its state always.
  unfoldable pub show_pose : FullPose F → LtrComm F → LtrComm F
  show_pose p m =
      let m₁ = if is_running p.pose.status then record m { full_pose = p } else m in
      record m₁ { state = p.pose.status; preparing_start = false }

  unfoldable pub process_pose : FullPose F → Reader o → Exec (Reader o)
  process_pose p s = do
    done ← postprocess_axes o s.prefs.tr_align p.pose s.filtered s.axes
    let memory = show_pose (record p { pose = done.pose }) s.memory
    ok (record s {
      axes = done.axes;
      filtered = done.filtered;
      memory = memory;
      notified = if s.notify && s.notify_pipe then s.notified + 1 else s.notified;
    })

  -- The preferences for the parameters of `MISC`, `none` for a wrong one.
  abbrev pub set_misc : AxisParam → F → MiscPrefs F → Option (MiscPrefs F)
  set_misc misc_alter v p = some (record p { use_alter = lt half v })
  set_misc misc_align v p = some (record p { tr_align = lt half v })
  set_misc misc_legr v p = some (record p { use_oldrot = lt half v })
  set_misc misc_focal_length v p = some (record p { focal_length = v })
  set_misc _ v p = none

  abbrev pub misc_param : AxisParam → F → Reader o → Bool × Reader o
  misc_param param v s = changed (set_misc param v s.prefs)
    where
      changed : Option (MiscPrefs F) → Bool × Reader o
      changed none = (false, s)
      changed (some p) = (true, record s { prefs = p })

  -- The result of setting the parameter is not looked at.
  unfoldable pub axis_param : AxisId → AxisParam → F → Reader o → Exec (Bool × Reader o)
  axis_param id axis_enabled v s = do
    r ← set_axis_bool_param axis id axis_enabled (lt half v) s.axes
    ok (true, record s { axes = r.1 })
  axis_param id param v s = do
    r ← set_axis_param axis id param v s.axes
    ok (true, record s { axes = r.1 })

  unfoldable pub process_param : AxisId → AxisParam → F → Reader o → Exec (Bool × Reader o)
  process_param misc param v s = ok (misc_param param v s)
  process_param id param v s = axis_param id param v s

  -- For an axis that is none, `get_axis` of src/axis.c ends the process by `assert(0)`, a fault.
  unfoldable pub process_message : Received F → Reader o → Exec (Bool × Reader o)
  process_message read_fails s = ok (false, s)
  process_message nothing_there s = ok (true, s)
  process_message (received nop_message) s = ok (true, s)
  process_message (received (pose_message p)) s = do s₁ ← process_pose p s; ok (true, s₁)
  process_message (received (param_message id param v)) s = elim (axis_of id) [
    | none ↦ fault
    | some axis_id ↦ process_param axis_id (param_of param) v s
  ]
  process_message (received (other_message cmd)) s = ok (false, s)
