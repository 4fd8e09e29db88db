-- ===== src/Axes/Curve/Current.antt =====
-- The curves of an axis are those of its settings.
use linux_track.Prelude.{
  ℕ, List, [], ◌∷◌, ◌≡◌, refl, sym, ap, subst, ◌∙◌, Bool, true, false, Option, none, some,
  if◌then◌else◌, arith,
}
use linux_track.Prelude.Exec.{Exec, ok, Returns, ◌>>=◌}
use linux_track.Axes.{
  AxisId, pitch, filter_factor_key, Splines, misc, Field, enabled, deadzone, put_axis, save,
  AxisParam, AxisOps, AxisDef, Axes, get_axis, param_field, bool_field, put_flt, put_bool,
  set_field, set_bool_field, set_axis_param, set_axis_bool_param, axes_changed,
}
use linux_track.Axes.Open.{
  again, axis_get_key, fresh_axis, first_filter, apply_text, read_fields, all_fields, read_axis,
  init_axes,
}
use linux_track.Axes.Curve.{curve2pts, with_curves, on_curve, val_on_axis}

module _ (o : AxisOps) where
  open o use {F, zero'}

  -- What a program does with axes: one call that returned.
  pub data Call (a : Axes o) : Axes o → Type 0 where
    sets :
        (id : AxisId) (param : AxisParam) (val : F) (r : Bool) (b : Axes o)
        → set_axis_param o id param val a ≡ ok (r, b)
        → Call a b
    sets_bool :
        (id : AxisId) (param : AxisParam) (val r : Bool) (b : Axes o)
        → set_axis_bool_param o id param val a ≡ ok (r, b)
        → Call a b
    asks : (id : AxisId) (x v : F) (b : Axes o) → val_on_axis o id x a ≡ ok (v, b) → Call a b
    polls : (reset : Bool) → Call a (axes_changed o reset a).1

  pub data Calls (a : Axes o) : Axes o → Type 0 where
    no_call : Calls a a
    one_more : (b c : Axes o) → Calls a b → Call b c → Calls a c

  -- No axis has curves that are marked as valid.
  abbrev pub Uncached : Axes o → Type 0
  Uncached a = (id : AxisId) (axis : AxisDef F) → get_axis a id ≡ ok axis → axis.valid ≡ false

  put_axis-Uncached :
      (id : AxisId) (d : AxisDef F) (a : Axes o)
      → d.valid ≡ false
      → Uncached a
      → Uncached (put_axis id d a)
  put_axis-Uncached pitch d a v u pitch axis e = ground (arith, v, e, u pitch axis)
  put_axis-Uncached _ d a v u other axis e = ground (arith, v, e, u other axis)

  save-Uncached :
      (id : AxisId) (f : Field) (v : o.V) (a : Axes o) → Uncached a → Uncached (save o id f v a)
  save-Uncached id f v a u pitch axis e = u pitch axis e
  save-Uncached id f v a u other axis e = u other axis e

  put_flt-valid : (f : Field) (v : F) (d : AxisDef F) → (put_flt f v d).valid ≡ d.valid
  put_flt-valid deadzone v d = refl
  put_flt-valid _ v d = refl

  put_bool-valid : (f : Field) (v : Bool) (d : AxisDef F) → (put_bool f v d).valid ≡ d.valid
  put_bool-valid enabled v d = refl
  put_bool-valid _ v d = refl

  set_field-Uncached :
      (id : AxisId) (f : Option Field) (val : F) (d : AxisDef F) (a : Axes o)
      → d.valid ≡ false
      → Uncached a
      → Uncached (set_field o id f val d a).1
  set_field-Uncached id none val d a v u = put_axis-Uncached id d a v u
  set_field-Uncached id (some f) val d a v u =
      save-Uncached id f (o.show val) (put_axis id (put_flt f val d) a)
        (put_axis-Uncached id (put_flt f val d) a (put_flt-valid f val d ∙ v) u)

  set_bool_field-Uncached :
      (id : AxisId) (f : Option Field) (val : Bool) (d : AxisDef F) (a : Axes o)
      → d.valid ≡ false
      → Uncached a
      → Uncached (set_bool_field o id f val d a).1
  set_bool_field-Uncached id none val d a v u = u
  set_bool_field-Uncached id (some f) val d a v u =
      save-Uncached id f (if val then o.yes else o.no) (put_axis id (put_bool f val d) a)
        (put_axis-Uncached id (put_bool f val d) a (put_bool-valid f val d ∙ v) u)

  -- A call on an axis looks it up first.
  looked_up :
      {B : Type 0} (P : B → Type 0) (id : AxisId) (a : Axes o) (k : AxisDef F → Exec B) (b : B)
      → ((axis : AxisDef F) → get_axis a id ≡ ok axis → (c : B) → k axis ≡ ok c → P c)
      → (get_axis a id >>= k) ≡ ok b
      → P b
  looked_up P misc a k b next e = absurd (ground arith)
  looked_up P pitch a k b next e = next a.pitch_axis refl b e
  looked_up P _ a k b next e = next _ refl b e

  ok-Uncached : {B : Type 0} (p c : B × Axes o) → ok p ≡ ok c → Uncached p.1 → Uncached c.1
  ok-Uncached p c e u = let same : p ≡ c = cc in subst (λ q. Uncached q.1) same u

  either_way :
      (test : Bool) (p q c : F × Axes o)
      → Uncached p.1
      → Uncached q.1
      → (if test then ok p else ok q) ≡ ok c
      → Uncached c.1
  either_way true p q c u w e = ok-Uncached p c e u
  either_way false p q c u w e = ok-Uncached q c e w

  with_curves-valid : (d : AxisDef F) → d.valid ≡ false → (with_curves o d).valid ≡ false
  with_curves-valid d v = rw v (ground arith)

  Call-Uncached : (a b : Axes o) → Call a b → Uncached a → Uncached b
  unfolding set_axis_param set_axis_bool_param val_on_axis axes_changed
  Call-Uncached a _ (sets id param val r b e) u =
      looked_up (λ (r, b). Uncached b) id a _ (r, b)
        (λ d found c e.
          ok-Uncached _ c e
            (set_field-Uncached id (param_field param) val (record d { valid = false }) a refl u))
        e
  Call-Uncached a _ (sets_bool id param val r b e) u =
      looked_up (λ (r, b). Uncached b) id a _ (r, b)
        (λ d found c e.
          ok-Uncached _ c e
            (set_bool_field-Uncached id (bool_field param) val d a (u id d found) u))
        e
  Call-Uncached a _ (asks id x v b e) u =
      looked_up (λ (v, b). Uncached b) id a _ (v, b)
        (λ d found c e.
          either_way d.enabled
            (
              on_curve o (with_curves o d).curves (with_curves o d) x,
              put_axis id (with_curves o d) a,
            )
            (zero', a) c
            (put_axis-Uncached id (with_curves o d) a (with_curves-valid d (u id d found)) u) u e)
        e
  Call-Uncached a _ (polls true) u = λ id axis e. polled id axis e
    where
      polled :
          (id : AxisId) (axis : AxisDef F)
          → get_axis (record a { axes_changed_flag = false }) id ≡ ok axis
          → axis.valid ≡ false
      polled pitch axis e = u pitch axis e
      polled other axis e = u other axis e
  Call-Uncached a _ (polls false) u = u

  Calls-Uncached : (a b : Axes o) → Calls a b → Uncached a → Uncached b
  Calls-Uncached a _ no_call u = u
  Calls-Uncached a _ (one_more b c before call) u =
      Call-Uncached b c call (Calls-Uncached a b before u)

  apply_text-valid :
      (f : Field) (id : AxisId) (t : Option o.V) (d : AxisDef F)
      → d.valid ≡ false
      → (apply_text o f id t d).valid ≡ false
  apply_text-valid f id none d v = v
  apply_text-valid enabled id (some w) d v = ground (arith, v)
  apply_text-valid _ id (some w) d v = ground (arith, v)

  read_fields-valid :
      (section : ℕ) (id : AxisId) (fs : List Field) (d : AxisDef F) (p : o.P)
      → d.valid ≡ false
      → (read_fields o section id fs (d, p)).0.valid ≡ false
  unfolding read_fields
  read_fields-valid section id [] d p v = v
  read_fields-valid section id (f ∷ fs) d p v =
      read_fields-valid section id fs _ _ (apply_text-valid f id _ d v)

  read_axis-valid :
      (garbage : Splines F) (section : ℕ) (id : AxisId) (p : o.P)
      → (read_axis o garbage section id p).0.valid ≡ false
  unfolding read_axis
  read_axis-valid garbage section id p =
      read_fields-valid section id all_fields _ _
        (first (axis_get_key o (again o) section filter_factor_key p).0)
    where
      first : (t : Option o.V) → (first_filter o t (fresh_axis o garbage)).valid ≡ false
      first none = refl
      first (some w) = refl

  ok-valid : (d axis : AxisDef F) → ok d ≡ ok axis → d.valid ≡ false → axis.valid ≡ false
  ok-valid d axis e v = let same : d ≡ axis = cc in ap (λ d. d.valid) (sym same) ∙ v

  init_axes-Uncached :
      (garbage : Splines F) (section : ℕ) (p : o.P) → Uncached (init_axes o garbage section p)
  unfolding init_axes
  init_axes-Uncached garbage section p misc axis e = absurd (ground arith)
  init_axes-Uncached garbage section p _ axis e =
      ok-valid _ axis e (read_axis-valid garbage section _ _)

  -- After `ltr_int_init_axes` and any calls that set parameters, ask for values or poll the change flag,
  -- `ltr_int_val_on_axis` computes the value with the curve that belongs to the axis's settings at that
  -- moment, whatever curve was kept from before; and 0 if the axis is not enabled.
  pub val_on_axis-Current :
      (garbage : Splines F) (section : ℕ) (p : o.P) (b : Axes o) (id : AxisId) (d : AxisDef F)
      (x : F)
      → Calls (init_axes o garbage section p) b
      → get_axis b id ≡ ok d
      → Returns
          (λ (v, c). (v ≡ (if d.enabled then on_curve o (curve2pts o d.curve_defs) d x else zero')))
          (val_on_axis o id x b)
  unfolding val_on_axis
  val_on_axis-Current garbage section p b id d x calls e =
      let w =
        Calls-Uncached (init_axes o garbage section p) b calls
          (init_axes-Uncached garbage section p) in
      rw e (by_test d.enabled d (w id d e))
    where
      by_test :
          (on : Bool) (d : AxisDef F)
          → d.valid ≡ false
          → Returns {A = F × Axes o}
              (λ (v, c). (v ≡ (if on then on_curve o (curve2pts o d.curve_defs) d x else zero')))
              (if on
                then ok (
                  on_curve o (with_curves o d).curves (with_curves o d) x,
                  put_axis id (with_curves o d) b,
                )
                else ok (zero', b))
      by_test true d v = rw v refl
      by_test false d v = refl
