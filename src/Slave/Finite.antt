-- ===== src/Slave/Finite.antt =====
-- The slave deals with every message, and its filters stay within the finite numbers.
use linux_track.Prelude.{
  ℕ, zero, suc, ◌≤◌, none, some, ◌≡◌, refl, ◌≢◌, Bool, true, false, if◌then◌else◌, arith,
}
use linux_track.Prelude.Exec.{ok, fault, Returns, Returns-bind}
use linux_track.MathUtils.{
  MathOps, Vec, vec, is_finite, is_vector_finite, nonlinfilt, nonlinfilt-finite,
}
use linux_track.Axes.{
  AxisId, misc, pitch, roll, yaw, tx, ty, tz, AxisParam, axis_enabled, Axes, set_axis_param,
  set_axis_bool_param,
}
use linux_track.Axes.Curve.{val_on_axis, filter_axis}
use linux_track.Ltlib.Comm.{Pose, FullPose}
use linux_track.Tracking.Postprocess.{
  Filtered, Processed, values_on_axes, filter_axes, filter_pose, settle, postprocess_axes,
}
use linux_track.Slave.Messages.{
  Received, read_fails, nothing_there, received, pose_message, param_message, nop_message,
  other_message, Reader, process_pose, axis_of, param_of, axis_param, process_param,
  process_message,
}

module _ (o : MathOps) where
  open o use {axis}
  open axis use {F}

  unfoldable pub FiniteVec : Vec F → Type 0
  FiniteVec v = is_vector_finite o v ≡ true

  pub record FiniteFilters (f : Filtered F) : Type 0 where
    pub angles : FiniteVec f.angles
    pub translations : FiniteVec f.translations

  -- An axis with a definition.
  abbrev Anything : {A : Type 0} → A → Type 0
  Anything _ = Unit {0}

  val_on_axis-total :
      (id : AxisId) (x : F) (a : Axes axis) → id ≢ misc → Returns Anything (val_on_axis axis id x a)
  unfolding val_on_axis
  val_on_axis-total misc x a h = absurd (h refl)
  val_on_axis-total pitch x a h = ground arith
  val_on_axis-total _ x a h = ground arith

  on_axis-finite :
      (on : Bool) (y x ff : F)
      → is_finite o y ≡ true
      → Returns {A = F × F}
          (λ r. is_finite o r.1 ≡ true)
          (if on then ok (nonlinfilt o x y ff, nonlinfilt o x y ff) else ok (axis.zero', y))
  on_axis-finite true y x ff e = nonlinfilt-finite o x y ff e
  on_axis-finite false y x ff e = e

  filter_axis-finite :
      (id : AxisId) (x y : F) (a : Axes axis)
      → id ≢ misc
      → is_finite o y ≡ true
      → Returns (λ r. is_finite o r.1 ≡ true) (filter_axis axis (nonlinfilt o) id x y a)
  unfolding filter_axis
  filter_axis-finite misc x y a h e = absurd (h refl)
  filter_axis-finite pitch x y a h e = on_axis-finite a.pitch_axis.enabled y x _ e
  filter_axis-finite roll x y a h e = on_axis-finite a.roll_axis.enabled y x _ e
  filter_axis-finite yaw x y a h e = on_axis-finite a.yaw_axis.enabled y x _ e
  filter_axis-finite tx x y a h e = on_axis-finite a.tx_axis.enabled y x _ e
  filter_axis-finite ty x y a h e = on_axis-finite a.ty_axis.enabled y x _ e
  filter_axis-finite tz x y a h e = on_axis-finite a.tz_axis.enabled y x _ e

  module _ (i j k : AxisId) (hi : i ≢ misc) (hj : j ≢ misc) (hk : k ≢ misc) where
    values_on_axes-total :
        (raw : Vec F) (a : Axes axis) → Returns Anything (values_on_axes o i j k raw a)
    values_on_axes-total raw a =
        Returns-bind {A = F × Axes axis} {B = Vec F × Axes axis} Anything Anything
          (val_on_axis axis i raw.v0 a) _ (val_on_axis-total i raw.v0 a hi)
          (λ p _.
            Returns-bind {A = F × Axes axis} {B = Vec F × Axes axis} Anything Anything
              (val_on_axis axis j raw.v1 p.1) _ (val_on_axis-total j raw.v1 p.1 hj)
              (λ q _.
                Returns-bind {A = F × Axes axis} {B = Vec F × Axes axis} Anything Anything
                  (val_on_axis axis k raw.v2 q.1) _ (val_on_axis-total k raw.v2 q.1 hk)
                  (λ r _. tt)))

    filter_axes-finite :
        (x old : Vec F) (a : Axes axis)
        → FiniteVec old
        → Returns (λ r. FiniteVec r.1) (filter_axes o i j k x old a)
    unfolding FiniteVec
    filter_axes-finite x old a e =
        let each : (is_finite o old.v0 ≡ true)
            × (is_finite o old.v1 ≡ true)
            × (is_finite o old.v2 ≡ true) =
          ground (arith, e) in
        Returns-bind {A = F × F} {B = Vec F × Vec F} (λ r. is_finite o r.1 ≡ true)
          (λ r. is_vector_finite o r.1 ≡ true) (filter_axis axis (nonlinfilt o) i x.v0 old.v0 a) _
          (filter_axis-finite i x.v0 old.v0 a hi each.0)
          (λ p e₀.
            Returns-bind {A = F × F} {B = Vec F × Vec F} (λ r. is_finite o r.1 ≡ true)
              (λ r. is_vector_finite o r.1 ≡ true) (filter_axis axis (nonlinfilt o) j x.v1 old.v1 a)
              _ (filter_axis-finite j x.v1 old.v1 a hj each.1)
              (λ q e₁.
                Returns-bind {A = F × F} {B = Vec F × Vec F} (λ r. is_finite o r.1 ≡ true)
                  (λ r. is_vector_finite o r.1 ≡ true)
                  (filter_axis axis (nonlinfilt o) k x.v2 old.v2 a) _
                  (filter_axis-finite k x.v2 old.v2 a hk each.2)
                  (λ r e₂. ground (arith, e₀, e₁, e₂))))

  -- The filters are finite, and the pose keeps its status and its counter.
  pub record StaysFinite (pose : Pose F) (done : Processed o) : Type 0 where
    pub filters : FiniteFilters done.filtered
    pub status : done.pose.status ≡ pose.status
    pub counter : done.pose.counter ≡ pose.counter

  settle-finite :
      (b : Bool) (turned pose : Pose F) (f : Filtered F) (translations : Vec F × Vec F)
      (a : Axes axis)
      → FiniteFilters f
      → FiniteVec translations.1
      → (turned.status ≡ pose.status) × (turned.counter ≡ pose.counter)
      → StaysFinite pose (settle o b turned f translations a)
  unfolding settle
  settle-finite true turned pose f translations a e e₂ same = record {
    filters = record { angles = e.angles; translations = e₂ };
    status = same.0;
    counter = same.1;
  }
  settle-finite false turned pose f translations a e e₂ same = record {
    filters = e;
    status = same.0;
    counter = same.1;
  }

  filter_pose-finite :
      (tr_align : Bool) (raw : Vec F) (pose : Pose F) (f : Filtered F) (a : Axes axis)
      → FiniteFilters f
      → Returns (StaysFinite pose) (filter_pose o tr_align raw pose f a)
  unfolding filter_pose
  filter_pose-finite tr_align raw pose f a e =
      Returns-bind {A = Vec F × Vec F} {B = Processed o} (λ r. FiniteVec r.1) (StaysFinite pose)
        (filter_axes o pitch yaw roll raw f.angles a) _
        (filter_axes-finite pitch yaw roll (λ x. cc) (λ x. cc) (λ x. cc) raw f.angles a e.angles)
        (λ angles e₁.
          Returns-bind {A = Vec F × Axes axis} {B = Processed o} Anything (StaysFinite pose)
            (values_on_axes o tx ty tz (vec pose.raw_tx pose.raw_ty pose.raw_tz) a) _
            (values_on_axes-total tx ty tz (λ x. cc) (λ x. cc) (λ x. cc)
              (vec pose.raw_tx pose.raw_ty pose.raw_tz) a)
            (λ moved _.
              Returns-bind {A = Vec F × Vec F} {B = Processed o} (λ r. FiniteVec r.1)
                (StaysFinite pose) (filter_axes o tx ty tz _ f.translations moved.1) _
                (filter_axes-finite tx ty tz (λ x. cc) (λ x. cc) (λ x. cc) _ f.translations moved.1
                  e.translations)
                (λ translations e₂.
                  settle-finite _ _ pose _ translations moved.1
                    (record { angles = e₁; translations = e.translations }) e₂ (refl, refl))))

  pub postprocess_axes-finite :
      (tr_align : Bool) (pose : Pose F) (f : Filtered F) (a : Axes axis)
      → FiniteFilters f
      → Returns (StaysFinite pose) (postprocess_axes o tr_align pose f a)
  unfolding postprocess_axes
  postprocess_axes-finite tr_align pose f a e =
      Returns-bind {A = Vec F × Axes axis} {B = Processed o} Anything (StaysFinite pose)
        (values_on_axes o pitch yaw roll (vec pose.raw_pitch pose.raw_yaw pose.raw_roll) a) _
        (values_on_axes-total pitch yaw roll (λ x. cc) (λ x. cc) (λ x. cc)
          (vec pose.raw_pitch pose.raw_yaw pose.raw_roll) a)
        (λ raw _. either (is_vector_finite o raw.0) raw.0 raw.1)
    where
      either :
          (b : Bool) (raw : Vec F) (a' : Axes axis)
          → Returns (StaysFinite pose) (
              if b
              then filter_pose o tr_align raw pose f a'
              else ok (record { result = false; pose = pose; filtered = f; axes = a' }))
      either true raw a' = filter_pose-finite tr_align raw pose f a' e
      either false raw a' = record { filters = e; status = refl; counter = refl }

  abbrev pub ReaderFinite : Bool × Reader o → Type 0
  ReaderFinite r = FiniteFilters r.1.filtered

  process_pose-finite :
      (p : FullPose F) (s : Reader o)
      → FiniteFilters s.filtered
      → Returns (λ r. FiniteFilters r.filtered) (process_pose o p s)
  unfolding process_pose
  process_pose-finite p s e =
      Returns-bind {A = Processed o} {B = Reader o} (StaysFinite p.pose)
        (λ r. FiniteFilters r.filtered)
        (postprocess_axes o s.prefs.tr_align p.pose s.filtered s.axes) _
        (postprocess_axes-finite s.prefs.tr_align p.pose s.filtered s.axes e) (λ done k. k.filters)

  axis_param-finite :
      (id : AxisId) (param : AxisParam) (v : F) (s : Reader o)
      → id ≢ misc
      → FiniteFilters s.filtered
      → Returns ReaderFinite (axis_param o id param v s)
  unfolding axis_param set_axis_param set_axis_bool_param
  axis_param-finite misc param v s h e = absurd (h refl)
  axis_param-finite pitch axis_enabled v s h e = e
  axis_param-finite roll axis_enabled v s h e = e
  axis_param-finite yaw axis_enabled v s h e = e
  axis_param-finite tx axis_enabled v s h e = e
  axis_param-finite ty axis_enabled v s h e = e
  axis_param-finite tz axis_enabled v s h e = e
  axis_param-finite _ _ v s h e = e

  process_param-finite :
      (id : AxisId) (param : AxisParam) (v : F) (s : Reader o)
      → FiniteFilters s.filtered
      → Returns ReaderFinite (process_param o id param v s)
  unfolding process_param
  process_param-finite misc axis_enabled v s e = e
  process_param-finite misc _ v s e = e
  process_param-finite pitch param v s e = axis_param-finite pitch param v s (λ x. cc) e
  process_param-finite roll param v s e = axis_param-finite roll param v s (λ x. cc) e
  process_param-finite yaw param v s e = axis_param-finite yaw param v s (λ x. cc) e
  process_param-finite tx param v s e = axis_param-finite tx param v s (λ x. cc) e
  process_param-finite ty param v s e = axis_param-finite ty param v s (λ x. cc) e
  process_param-finite tz param v s e = axis_param-finite tz param v s (λ x. cc) e

  -- A parameter is one of an axis that there is; anything else may be received.
  abbrev pub KnownAxis : Received F → Type 0
  KnownAxis (received (param_message id param v)) = id ≤ 6
  KnownAxis _ = Unit {0}

  axis_of-finite :
      (id : ℕ) (param : AxisParam) (v : F) (s : Reader o)
      → id ≤ 6
      → FiniteFilters s.filtered
      → Returns {A = Bool × Reader o} ReaderFinite
          (elim (axis_of id) [ none ↦ fault | some axis_id ↦ process_param o axis_id param v s ])
  axis_of-finite zero param v s h e = process_param-finite pitch param v s e
  axis_of-finite (suc zero) param v s h e = process_param-finite roll param v s e
  axis_of-finite (suc (suc zero)) param v s h e = process_param-finite yaw param v s e
  axis_of-finite (suc (suc (suc zero))) param v s h e = process_param-finite tx param v s e
  axis_of-finite (suc (suc (suc (suc zero)))) param v s h e = process_param-finite ty param v s e
  axis_of-finite (suc (suc (suc (suc (suc zero))))) param v s h e =
      process_param-finite tz param v s e
  axis_of-finite (suc (suc (suc (suc (suc (suc zero)))))) param v s h e =
      process_param-finite misc param v s e
  axis_of-finite (suc (suc (suc (suc (suc (suc (suc id))))))) param v s h e = absurd (omega arith)

  -- Whatever the master sends, a pose with numbers that are not finite included, and also where
  -- nothing can be read, the slave's treatment of it returns, and what the filters remember stays
  -- finite; but the number of the axis in a message with a parameter must be at most 6, that of
  -- MISC.
  pub process_message-finite :
      (m : Received F) (s : Reader o)
      → KnownAxis m
      → FiniteFilters s.filtered
      → Returns ReaderFinite (process_message o m s)
  unfolding process_message
  process_message-finite read_fails s h e = e
  process_message-finite nothing_there s h e = e
  process_message-finite (received nop_message) s h e = e
  process_message-finite (received (other_message cmd)) s h e = e
  process_message-finite (received (param_message id param v)) s h e =
      axis_of-finite id (param_of param) v s h e
  process_message-finite (received (pose_message p)) s h e =
      Returns-bind {A = Reader o} {B = Bool × Reader o} (λ r. FiniteFilters r.filtered) ReaderFinite
        (process_pose o p s) _ (process_pose-finite p s e) (λ r k. k)
