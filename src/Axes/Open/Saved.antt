-- ===== src/Axes/Open/Saved.antt =====
-- A key that is in the preferences is what the axis is read from.
use linux_track.Prelude.{
  ℕ, ◌≡◌, ◌≢◌, refl, ◌∙◌, Bool, true, false, ◌&&◌, Option, none, some, List, [], ◌∷◌, inl, inr,
  Option-cases, if◌then◌else◌, arith,
}
use linux_track.Axes.{
  AxisId, Field, deadzone, lcurv, rcurv, mult, limits, llimit, rlimit, filter, enabled, Key,
  field_key, filter_factor_key, AxisOps, AxisDef, Splines, flt_of,
}
use linux_track.Axes.Open.{
  copied, again, axis_get_key, fresh_axis, first_filter, apply_text, copy_of, read_fields,
  all_fields, read_axis,
}

-- What the preferences promise: a key that was changed has the new text, and the other keys of its section
-- are as before.
pub record PrefLaws (o : AxisOps) : Type 0 where
  pub changed :
      (p : o.P) (s : ℕ) (k : Key) (v : o.V) → o.get_key (o.change_key p s k v) s k ≡ some v
  pub kept :
      (p : o.P) (s : ℕ) (k k' : Key) (v : o.V)
      → k ≢ k'
      → o.get_key (o.change_key p s k v) s k' ≡ o.get_key p s k'

-- Reading the second field leaves the first as it is.
abbrev apart : Field → Field → Bool
apart deadzone deadzone = false
apart lcurv lcurv = false
apart rcurv rcurv = false
apart llimit llimit = false
apart llimit limits = false
apart rlimit rlimit = false
apart rlimit limits = false
apart filter filter = false
apart mult _ = false
apart _ _ = true

abbrev all_apart : Field → List Field → Bool
all_apart f [] = true
all_apart f (g ∷ fs) = apart f g && all_apart f fs

-- The field is in the list, and nothing behind its last place touches it.
data Last (f : Field) : List Field → Type 0 where
  here : (fs : List Field) → all_apart f fs ≡ true → Last f (f ∷ fs)
  there : (g : Field) (fs : List Field) → Last f fs → Last f (g ∷ fs)

-- The fields of numbers but the sensitivity, which other fields add to.
abbrev pub plain : Field → Bool
plain deadzone = true
plain lcurv = true
plain rcurv = true
plain llimit = true
plain rlimit = true
plain filter = true
plain _ = false

module _ (o : AxisOps) where
  open o use {F, zero', V, read, two, lt, P, get_key}

  -- The filter is limited to 2.
  abbrev pub as_read : Field → F → F
  as_read filter val = if lt two val then two else val
  as_read _ val = val

  module _ (laws : PrefLaws o) (section : ℕ) (key : Key) (v : V) where
    abbrev pub Saved : P → Type 0
    Saved p = get_key p section key ≡ some v

    axis_get_key-Saved :
        (f : V → V) (k : Key) (p : P) → Saved p → Saved (axis_get_key o f section k p).1
    unfolding axis_get_key
    axis_get_key-Saved f k p s = elim (Option-cases (get_key p section k)) [
      | inr (w, e) ↦ rw e s
      | inl missing ↦ rw missing (default (get_key p 0 k) missing)
    ]
      where
        default : (d : Option V) → get_key p section k ≡ none → Saved (copied o f section k p d).1
        default none m = s
        default (some w) m = laws.kept p section k key (f w) (λ same. cc) ∙ s

    read_fields-Saved :
        (id : AxisId) (fs : List Field) (d : AxisDef F) (p : P)
        → Saved p
        → Saved (read_fields o section id fs (d, p)).1
    unfolding read_fields
    read_fields-Saved id [] d p s = s
    read_fields-Saved id (f ∷ fs) d p s =
        read_fields-Saved id fs _ _ (axis_get_key-Saved (copy_of o f) (field_key id f) p s)

    pub read_axis-Saved :
        (garbage : Splines F) (id : AxisId) (p : P)
        → Saved p
        → Saved (read_axis o garbage section id p).1
    unfolding read_axis
    read_axis-Saved garbage id p s =
        read_fields-Saved id all_fields
          (first_filter o (axis_get_key o (again o) section filter_factor_key p).0
            (fresh_axis o garbage))
          _ (axis_get_key-Saved (again o) filter_factor_key p s)

  apply_text-apart :
      (f g : Field) (id : AxisId) (t : Option V) (d : AxisDef F)
      → apart f g ≡ true
      → flt_of zero' (some f) (apply_text o g id t d) ≡ flt_of zero' (some f) d
  apply_text-apart f g id none d e = refl
  apply_text-apart f enabled id (some w) d e = ground (arith, e)
  apply_text-apart f _ id (some w) d e = ground (arith, e)

  read_fields-apart :
      (section : ℕ) (f : Field) (id : AxisId) (fs : List Field) (d : AxisDef F) (p : P)
      → all_apart f fs ≡ true
      → flt_of zero' (some f) (read_fields o section id fs (d, p)).0 ≡ flt_of zero' (some f) d
  unfolding read_fields
  read_fields-apart section f id [] d p e = refl
  read_fields-apart section f id (g ∷ fs) d p e =
      let text = (axis_get_key o (copy_of o g) section (field_key id g) p).0 in
      read_fields-apart section f id fs (apply_text o g id text d) _ (ground (arith, e))
      ∙ apply_text-apart f g id text d (ground (arith, e))

  apply_text-plain :
      (f : Field) (id : AxisId) (v : V) (d : AxisDef F)
      → plain f ≡ true
      → flt_of zero' (some f) (apply_text o f id (some v) d) ≡ as_read f (read v)
  apply_text-plain filter id v d e = refl
  apply_text-plain _ id v d e = ground (arith, e)

  Last-all_fields : (f : Field) → plain f ≡ true → Last f all_fields
  Last-all_fields deadzone e = here _ refl
  Last-all_fields lcurv e = there _ _ (there _ _ (here _ refl))
  Last-all_fields rcurv e = there _ _ (there _ _ (there _ _ (here _ refl)))
  Last-all_fields llimit e = there _ _ (
      there _ _
        (there _ _ (there _ _ (there _ _ (there _ _ (there _ _ (there _ _ (here _ refl))))))))
  Last-all_fields rlimit e = there _ _ (
      there _ _ (
        there _ _
          (there _ _ (there _ _ (there _ _ (there _ _ (there _ _ (there _ _ (here _ refl)))))))))
  Last-all_fields filter e = there _ _ (
      there _ _ (
        there _ _ (
          there _ _
            (there _ _ (there _ _ (there _ _ (there _ _ (there _ _ (there _ _ (here _ refl))))))))))
  Last-all_fields _ e = absurd (ground (arith, e))

  module _ (laws : PrefLaws o) (section : ℕ) (id : AxisId) (f : Field) (v : V) where
    axis_get_key-found :
        (g : V → V) (k : Key) (p : P)
        → get_key p section k ≡ some v
        → axis_get_key o g section k p ≡ (some v, p)
    unfolding axis_get_key
    axis_get_key-found g k p e = rw e refl

    read_fields-Last :
        (fs : List Field) (d : AxisDef F) (p : P)
        → Last f fs
        → plain f ≡ true
        → get_key p section (field_key id f) ≡ some v
        → flt_of zero' (some f) (read_fields o section id fs (d, p)).0 ≡ as_read f (read v)
    unfolding read_fields
    read_fields-Last [] d p l e s = elim l [ ]
    read_fields-Last (_ ∷ _) d p (here fs behind) e s =
        rw (read_fields, axis_get_key-found (copy_of o f) (field_key id f) p s)
          (read_fields-apart section f id fs (apply_text o f id (some v) d) p behind
            ∙ apply_text-plain f id v d e)
    read_fields-Last (_ ∷ _) d p (there g fs l) e s =
        read_fields-Last fs _ _ l e
          (axis_get_key-Saved laws section (field_key id f) v (copy_of o g) (field_key id g) p s)

    pub read_axis-Last :
        (garbage : Splines F) (p : P)
        → plain f ≡ true
        → get_key p section (field_key id f) ≡ some v
        → flt_of zero' (some f) (read_axis o garbage section id p).0 ≡ as_read f (read v)
    unfolding read_axis
    read_axis-Last garbage p e s =
        read_fields-Last all_fields _ _ (Last-all_fields f e) e
          (axis_get_key-Saved laws section (field_key id f) v (again o) filter_factor_key p s)
