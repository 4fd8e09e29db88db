-- ===== src/Image/Tracker.antt =====
-- src/image_process.c: stripes that touch on neighbouring lines are gathered into blobs.
pub mod Inv
pub mod Store
pub mod Line
pub mod Match
pub mod Gather
pub mod Place
use linux_track.Prelude.{
  ℕ, zero, suc, ◌+◌, ◌-◌, ◌^◌, Bool, true, false, not, ◌&&◌, Option, none, some, List, [], ◌∷◌,
  ◌++◌, map, ltb, leb, ◌==◌, if◌then◌else◌, length, u32, sub32, bias32, ◌/◌,
}
use linux_track.Prelude.Exec.{Exec, ok, fault, ◌>>=◌, read_at}
use linux_track.Prelude.Cells.{load, store, free, alloc}
use linux_track.Prelude.Float.{FloatOps}
use linux_track.Stripe.{Stripe}

-- `preblob_t` over the floating-point type; `sum` and `points` are `int` held as bit patterns.
pub record Preblob (F : Type 0) : Type 0 where
  pub sum_x : F
  pub sum_y : F
  pub sum : ℕ
  pub points : ℕ
  pub added : Bool
  pub matched : Bool

-- `range`; `pb` is the address of a preblob.
pub record Range : Type 0 where
  pub x1 : ℕ
  pub x2 : ℕ
  pub pb : ℕ

-- The static variables, with the preblobs on the heap. A list of ranges is a `stripe_array` up to
-- its `limit`; both arrays were allocated for `capacity` ranges. `preblobs` is `none` for NULL.
pub record Tracker (F : Type 0) : Type 0 where
  pub cells : List (Option (Preblob F))
  pub current : List Range
  pub next : List Range
  pub capacity : ℕ
  pub current_vline : ℕ
  pub preblobs : Option (List ℕ)

-- `-2` as `unsigned int`.
abbrev pub no_line : ℕ
no_line = 2 ^ 32 - 2

-- The state after `ltr_int_prepare_for_processing` on a width `w`.
abbrev pub prepared : {F : Type 0} → ℕ → Tracker F
prepared w = record {
  cells = [];
  current = [];
  next = [];
  capacity = w / 2 + 1;
  current_vline = no_line;
  preblobs = none;
}

-- The first test compares as `int`, the second as `unsigned int`.
unfoldable pub stripe_in_range : Stripe → Range → Bool
stripe_in_range s r = leb (bias32 (sub32 s.hstart 1)) (bias32 r.x2) && leb r.x1 (u32 (s.hstop + 1))

module _ (fl : FloatOps) where
  open fl use {F, of_uint, add, mul}

  unfoldable pub merge_preblobs : Preblob F → Preblob F → Preblob F
  merge_preblobs b1 b2 = record b1 {
    sum_x = add b1.sum_x b2.sum_x;
    sum_y = add b1.sum_y b2.sum_y;
    sum = u32 (b1.sum + b2.sum);
    points = u32 (b1.points + b2.points);
  }

  abbrev pub weighted_x : Stripe → F
  weighted_x s = add (mul (of_uint s.sum) (of_uint s.hstart)) (of_uint s.sum_x)

  abbrev pub weighted_y : Stripe → F
  weighted_y s = mul (of_uint s.sum) (of_uint s.vline)

  unfoldable pub add_stripe_to_preblob : Preblob F → Stripe → Preblob F
  add_stripe_to_preblob pb s = record pb {
    sum_x = add pb.sum_x (weighted_x s);
    sum_y = add pb.sum_y (weighted_y s);
    sum = u32 (pb.sum + s.sum);
    points = u32 (pb.points + s.points);
  }

  unfoldable pub preblob_from_stripe : Stripe → Preblob F
  preblob_from_stripe s = record {
    sum_x = weighted_x s;
    sum_y = weighted_y s;
    sum = s.sum;
    points = s.points;
    added = false;
    matched = true;
  }

-- The heap and the list of finished preblobs, which `store_preblobs` changes.
abbrev pub Stored : Type 0 → Type 0
Stored F = List (Option (Preblob F)) × List ℕ

-- `if(preblobs == NULL) preblobs = ltr_int_create_list();`
abbrev pub finished : Option (List ℕ) → List ℕ
finished none = []
finished (some done) = done

module _ {F : Type 0} where
  -- `if(!matched) if(!added){ added = true; ltr_int_add_element(preblobs, pb); }`
  abbrev pub finish_unmatched : ℕ → Preblob F → Stored F → Stored F
  finish_unmatched p b (c, done) =
      if not b.matched && not b.added
      then (store c p (record b { added = true }), done ++ (p ∷ []))
      else (c, done)

  unfoldable pub store_current : List Range → Stored F → Exec (Stored F)
  store_current [] s = ok s
  store_current (r ∷ rs) (c, done) = do
    b ← load c r.pb
    store_current rs (finish_unmatched r.pb b (c, done))

  -- The body of the second loop.
  abbrev pub reset_match : Bool → ℕ → Preblob F → Stored F → Stored F
  reset_match all p b (c, done) =
      if all && not b.added
      then (store c p (record b { matched = false; added = true }), done ++ (p ∷ []))
      else (store c p (record b { matched = false }), done)

  unfoldable pub store_next : Bool → List Range → Stored F → Exec (Stored F)
  store_next all [] s = ok s
  store_next all (r ∷ rs) (c, done) = do
    b ← load c r.pb
    store_next all rs (reset_match all r.pb b (c, done))

  unfoldable pub store_preblobs : Bool → Tracker F → Exec (Tracker F)
  unfolding store_current store_next
  store_preblobs all t = do
    s ← store_current t.current (t.cells, finished t.preblobs)
    (c, done) ← store_next all t.next s
    ok (record t { cells = c; preblobs = some done })

  -- What `ltr_int_add_stripe` does when the line changes.
  unfoldable pub change_line : ℕ → Tracker F → Exec (Tracker F)
  unfolding store_preblobs
  change_line vline t =
      if t.current_vline == vline
      then ok t
      else if u32 (t.current_vline + 1) == vline
      then (do
        t' ← store_preblobs false t
        ok (record t' { current = t'.next; next = []; current_vline = vline }))
      else (do
        t' ← store_preblobs true t
        ok (record t' { current = []; next = []; current_vline = vline }))

abbrev pub redirect : ℕ → ℕ → Range → Range
redirect merged pb r = if r.pb == merged then record r { pb = pb } else r

-- The loop over `current` in `ltr_int_add_stripe`. Of `rng`, which points to the first range that the
-- stripe touches, the code uses `rng->pb` only; the redirections leave that range as it is, since its
-- preblob is not the merged one. So `rng` is that preblob's address, `none` for NULL.
pub record Matching (F : Type 0) : Type 0 where
  pub tracker : Tracker F
  pub rng : Option ℕ

module _ (fl : FloatOps) where
  open fl use {F}

  abbrev pub absorb : ℕ → ℕ → Preblob F → Preblob F → Tracker F → Tracker F
  absorb q p bq bp t = record t {
    cells = free (store t.cells q (merge_preblobs fl bq bp)) p;
    current = map (redirect p q) t.current;
    next = map (redirect p q) t.next;
  }

  unfoldable pub join : ℕ → Option ℕ → Tracker F → Exec (Matching F)
  unfolding merge_preblobs
  join p none t = ok (record { tracker = t; rng = some p })
  join p (some q) t = if q == p then ok (record { tracker = t; rng = some q }) else (do
    bq ← load t.cells q
    bp ← load t.cells p
    ok (record { tracker = absorb q p bq bp t; rng = some q }))

  unfoldable pub touch : Matching F → ℕ → Exec (Matching F)
  unfolding join
  touch m p = do
    let t = m.tracker
    b ← load t.cells p
    join p m.rng (record t { cells = store t.cells p (record b { matched = true }) })

  unfoldable pub match_range : Stripe → ℕ → Matching F → Exec (Matching F)
  unfolding touch stripe_in_range
  match_range s i m = do
    r ← read_at m.tracker.current i
    if stripe_in_range s r then touch m r.pb else ok m

  -- `for(i = 0; i < current.limit; ++i)` with the rounds left.
  unfoldable pub match_ranges : Stripe → ℕ → ℕ → Matching F → Exec (Matching F)
  unfolding match_range
  match_ranges s zero i m = ok m
  match_ranges s (suc n) i m = match_range s i m >>= match_ranges s n (i + 1)

  -- `new_rng = &(next.ranges[next.limit++])`, a fault behind the end of the array.
  unfoldable pub add_range : Stripe → ℕ → Tracker F → Exec (Tracker F)
  add_range s pb t =
      if ltb (length t.next) t.capacity
      then ok (record t { next = t.next ++ (record { x1 = s.hstart; x2 = s.hstop; pb = pb } ∷ []) })
      else fault

  unfoldable pub place : Stripe → Option ℕ → Tracker F → Exec (Tracker F)
  unfolding add_range add_stripe_to_preblob preblob_from_stripe
  place s none t =
      add_range s (length t.cells) (record t { cells = alloc t.cells (preblob_from_stripe fl s) })
  place s (some p) t = do
    b ← load t.cells p
    add_range s p (record t { cells = store t.cells p (add_stripe_to_preblob fl b s) })

  -- `ltr_int_add_stripe` after the drawing, which does not read or write this state; Image/Add has both.
  unfoldable pub track_stripe : Stripe → Tracker F → Exec (Tracker F)
  unfolding change_line match_ranges place
  track_stripe s t = do
    t' ← change_line s.vline t
    m ← match_ranges s (length t'.current) 0 (record { tracker = t'; rng = none })
    place s m.rng m.tracker
