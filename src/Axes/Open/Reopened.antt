-- ===== src/Axes/Open/Reopened.antt =====
-- A parameter that was set is there after the axes were closed and opened.
use linux_track.Prelude.{ℕ, ◌≡◌, ◌≢◌, refl, ap, true, some, arith}
use linux_track.Prelude.Exec.{Exec, ok, fault, out_of_fuel, ◌>>=◌, Returns, Returns-mono}
use linux_track.Axes.{
  AxisId, pitch, roll, yaw, tx, ty, tz, misc, AxisParam, axis_mult, Field, field_key, AxisOps,
  Splines, Axes, flt_of, get_axis, param_field, set_axis_param, get_axis_param,
}
use linux_track.Axes.Open.{init_axes}
use linux_track.Axes.Settings.{set_axis_param-get_axis_param}
use linux_track.Axes.Open.Saved.{PrefLaws, as_read, plain, read_axis-Saved, read_axis-Last}

module _ (o : AxisOps) where
  open o use {F, zero', V, read, two, lt, P, get_key}

  -- The axis that `ltr_int_init_axes` reads for a key that is there.
  init_axes-Last :
      (laws : PrefLaws o) (section : ℕ) (id : AxisId) (f : Field) (v : V) (garbage : Splines F)
      (p : P)
      → id ≢ misc
      → plain f ≡ true
      → get_key p section (field_key id f) ≡ some v
      → Returns
          (λ axis. flt_of zero' (some f) axis ≡ as_read o f (read v))
          (get_axis (init_axes o garbage section p) id)
  unfolding init_axes
  init_axes-Last laws section misc f v garbage p ne e s = absurd (ne refl)
  init_axes-Last laws section pitch f v garbage p ne e s =
      read_axis-Last o laws section pitch f v garbage p e s
  init_axes-Last laws section yaw f v garbage p ne e s =
      read_axis-Last o laws section yaw f v garbage _ e
        (read_axis-Saved o laws section (field_key yaw f) v garbage pitch p s)
  init_axes-Last laws section roll f v garbage p ne e s =
      let next = read_axis-Saved o laws section (field_key roll f) v garbage in
      read_axis-Last o laws section roll f v garbage _ e (next yaw _ (next pitch p s))
  init_axes-Last laws section tx f v garbage p ne e s =
      let next = read_axis-Saved o laws section (field_key tx f) v garbage in
      read_axis-Last o laws section tx f v garbage _ e (next roll _ (next yaw _ (next pitch p s)))
  init_axes-Last laws section ty f v garbage p ne e s =
      let next = read_axis-Saved o laws section (field_key ty f) v garbage in
      read_axis-Last o laws section ty f v garbage _ e
        (next tx _ (next roll _ (next yaw _ (next pitch p s))))
  init_axes-Last laws section tz f v garbage p ne e s =
      let next = read_axis-Saved o laws section (field_key tz f) v garbage in
      read_axis-Last o laws section tz f v garbage _ e
        (next ty _ (next tx _ (next roll _ (next yaw _ (next pitch p s)))))

  plain-param_field :
      (param : AxisParam) (f : Field)
      → param_field param ≡ some f
      → param ≢ axis_mult
      → plain f ≡ true
  plain-param_field axis_mult f e ne = absurd (ne refl)
  plain-param_field _ f e ne = ground (arith, e)

  found_there :
      {A B : Type 0} {b : B} (Q : A → Type 0) (m : Exec A) (k : A → Exec B)
      → Returns Q m
      → ((a : A) → Q a → k a ≡ ok b)
      → (m >>= k) ≡ ok b
  found_there Q (ok a) k q next = next a q
  found_there Q fault k q next = absurd q
  found_there Q out_of_fuel k q next = absurd q

  -- Where the preferences keep what they are given: a parameter, other than the sensitivity, that was set by
  -- `ltr_int_set_axis_param` is the same after the axes are closed and initialised again from their section, as far as
  -- writing the number as text and reading it keeps it, and except that a filter factor above 2
  -- becomes 2.
  pub set_axis_param-init_axes :
      (laws : PrefLaws o) (id : AxisId) (param : AxisParam) (f : Field) (val : F) (a : Axes o)
      (garbage : Splines F)
      → id ≢ misc
      → param_field param ≡ some f
      → param ≢ axis_mult
      → Returns
          (λ (r, a').
            get_axis_param o id param (init_axes o garbage a'.section a'.prefs)
            ≡ ok (as_read o f (read (o.show val))))
          (set_axis_param o id param val a)
  unfolding get_axis_param
  set_axis_param-init_axes laws id param f val a garbage ne e other =
      Returns-mono _ _ (set_axis_param o id param val a)
        (set_axis_param-get_axis_param o id param f val a ne e)
        (λ (r, a') (_, set).
          let found : o.get_key a'.prefs a'.section (field_key id f) ≡ some (o.show val) =
            rw (set.prefs, set.section)
              (laws.changed a.prefs a.section (field_key id f) (o.show val)) in
          found_there (λ axis. flt_of zero' (some f) axis ≡ as_read o f (read (o.show val)))
            (get_axis (init_axes o garbage a'.section a'.prefs) id)
            (λ axis. ok (flt_of zero' (param_field param) axis))
            (init_axes-Last laws a'.section id f (o.show val) garbage a'.prefs ne
              (plain-param_field param f e other) found)
            (λ axis same. rw e (ap ok same)))
