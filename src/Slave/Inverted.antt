-- ===== src/Slave/Inverted.antt =====
-- The parameters of the axes that a message can change.
use linux_track.Prelude.{ℕ, ◌≡◌, refl, ◌≢◌, true}
use linux_track.Prelude.Exec.{ok, Returns}
use linux_track.MathUtils.{MathOps}
use linux_track.Axes.{
  AxisId, misc, pitch, roll, yaw, tx, ty, tz, axis_enabled, axis_inverted, set_axis_param,
  set_axis_bool_param, get_axis_bool_param,
}
use linux_track.Slave.Messages.{
  Reader, axis_param, process_param, process_message, received, send_param_update,
}

-- The numbers of the axes, of AXIS_ENABLED and of AXIS_INVERTED.
abbrev pub axis_number : AxisId → ℕ
axis_number pitch = 0
axis_number roll = 1
axis_number yaw = 2
axis_number tx = 3
axis_number ty = 4
axis_number tz = 5
axis_number misc = 6

abbrev pub enabled_number : ℕ
enabled_number = 0

abbrev pub inverted_number : ℕ
inverted_number = 8

module _ (o : MathOps) where
  open o use {axis}
  open axis use {F, half, lt}

  -- For each axis, a message with the parameter AXIS_ENABLED enables it exactly where the value is
  -- above one half; a message with AXIS_INVERTED is accepted and
  -- leaves the direction of every axis as it was.
  pub process_message-bool_params :
      (id other : AxisId) (v : F) (s : Reader o)
      → id ≢ misc
      → Returns
          (λ r. (r.0 ≡ true) × (get_axis_bool_param axis id axis_enabled r.1.axes ≡ ok (lt half v)))
          (process_message o (received (send_param_update (axis_number id) enabled_number v)) s)
        × Returns
            (λ r.
              (r.0 ≡ true)
              × (get_axis_bool_param axis other axis_inverted r.1.axes
                  ≡ get_axis_bool_param axis other axis_inverted s.axes))
            (process_message o (received (send_param_update (axis_number id) inverted_number v)) s)
  unfolding process_message process_param axis_param set_axis_param set_axis_bool_param
      get_axis_bool_param
  process_message-bool_params misc other v s h = absurd (h refl)
  process_message-bool_params pitch pitch v s h = ((refl, refl), (refl, refl))
  process_message-bool_params roll pitch v s h = ((refl, refl), (refl, refl))
  process_message-bool_params yaw pitch v s h = ((refl, refl), (refl, refl))
  process_message-bool_params tx pitch v s h = ((refl, refl), (refl, refl))
  process_message-bool_params ty pitch v s h = ((refl, refl), (refl, refl))
  process_message-bool_params tz pitch v s h = ((refl, refl), (refl, refl))
  process_message-bool_params _ _ v s h = ((refl, refl), (refl, refl))
