-- ===== src/Tracking/Given.antt =====
-- The blobs of the pose are copied to the master process, and from the shared memory to a client.
use linux_track.Prelude.{
  ℕ, zero, suc, ◌*◌, ◌≤◌, ◌≡◌, refl, Bool, true, false, List, [], ◌∷◌, ◌++◌, length, take, drop,
  ltb, if◌then◌else◌, arith, sym, ap, ap₂, subst, ◌∙◌, Option, some, min, append_assoc,
}
use linux_track.Prelude.Exec.{ok, Returns}
use linux_track.Comm.{Blob}
use linux_track.Ltlib.Comm.{Pose, FullPose, is_good}
use linux_track.Ltlib.Calls.{Client, detached}
use linux_track.Ltlib.Poses.{copy_first, get_pose_full, FullAnswer}
use linux_track.Tracking.State.{Orientation, Tracking, TrackOps, init_tracking}
use linux_track.Tracking.GetPose.{read_pose, tracking_get_pose}
use linux_track.Tracking.Blobs.{flat, length-flat, HasBlobs}

copy_first-append :
    {A : Type 0} (xs ys dst : List A)
    → length xs ≤ length dst
    → copy_first (length xs) (xs ++ ys) dst ≡ ok (xs ++ drop (length xs) dst)
unfolding copy_first
copy_first-append [] ys dst h = refl
copy_first-append (x ∷ xs) ys [] h = absurd (omega arith)
copy_first-append (x ∷ xs) ys (d ∷ dst) h = rw (copy_first-append xs ys dst (omega arith)) refl

module _ (o : TrackOps) where
  open o use {maths, of_uint}
  open maths use {axis}
  open axis use {F, zero'}

  -- Copying the first `n` of the blobs.
  flat-take-drop :
      (n : ℕ) (bs : List (Blob F)) → flat o (take n bs) ++ flat o (drop n bs) ≡ flat o bs
  unfolding flat
  flat-take-drop zero bs = refl
  flat-take-drop (suc n) [] = refl
  flat-take-drop (suc n) (b ∷ bs) = rw (flat-take-drop n bs) refl

  length-take_few : (n : ℕ) (bs : List (Blob F)) → n ≤ length bs → length (take n bs) ≡ n
  length-take_few zero bs h = refl
  length-take_few (suc n) [] h = absurd (omega arith)
  length-take_few (suc n) (b ∷ bs) h = ap suc (length-take_few n bs (omega arith))

  copied_first :
      (n : ℕ) (bs : List (Blob F)) (p : FullPose F) (dst : List F)
      → n ≤ length bs
      → HasBlobs o bs p
      → n * 3 ≤ length dst
      → copy_first (n * 3) p.blob_list dst ≡ ok (flat o (take n bs) ++ drop (n * 3) dst)
  copied_first n bs p dst few r room =
      let xs = flat o (take n bs) in
      let long : length xs ≡ n * 3 =
        omega (arith, length-flat o (take n bs), length-take_few n bs few) in
      let whole : p.blob_list ≡ xs ++ (flat o (drop n bs) ++ r.rest) =
        r.values
        ∙ ap (λ t. t ++ r.rest) (sym (flat-take-drop n bs))
        ∙ append_assoc xs (flat o (drop n bs)) r.rest in
      ap (λ t. copy_first (n * 3) t dst) whole
      ∙ subst (λ k. copy_first k (xs ++ (flat o (drop n bs) ++ r.rest)) dst ≡ ok (xs ++ drop k dst))
          long (copy_first-append xs (flat o (drop n bs) ++ r.rest) dst (omega (arith, long)))

  -- What the master process is given.
  pub record Passes (bs : List (Blob F)) (pose : FullPose F) (t : Tracking F)
      (r : FullPose F × Tracking F) : Type 0 where
    pub blobs : HasBlobs o bs r.0
    pub status : r.0.pose.status ≡ pose.pose.status
    pub counter : r.0.pose.counter ≡ t.counter_d

  read_pose-Passes :
      (bs : List (Blob F)) (pose : FullPose F) (t : Tracking F)
      → HasBlobs o bs t.current_pose
      → length bs * 3 ≤ length pose.blob_list
      → Returns (Passes bs pose t) (read_pose pose t)
  unfolding read_pose
  read_pose-Passes bs pose t r room =
      let long = length-flat o bs in
      let e : copy_first (t.current_pose.blobs * 3) t.current_pose.blob_list pose.blob_list
          ≡ ok (flat o bs ++ drop (length (flat o bs)) pose.blob_list) =
        ap₂ (λ n l. copy_first n l pose.blob_list) (ap (λ n. n * 3) r.number ∙ sym long) r.values
        ∙ copy_first-append (flat o bs) r.rest pose.blob_list (omega (arith, long)) in
      rw e (record {
        blobs = record {
          number = r.number;
          rest = drop (length (flat o bs)) pose.blob_list;
          values = refl;
        };
        status = refl;
        counter = refl;
      })

  -- Once the tracking is set up, the master process is given the blobs that the tracking holds, and the
  -- number of the frames that were counted; the status is the one that it passed.
  pub tracking_get_pose-Passes :
      (bs : List (Blob F)) (turned : Orientation) (checked : Bool) (pose : FullPose F)
      (t : Tracking F)
      → t.tracking_initialized ≡ true
      → HasBlobs o bs t.current_pose
      → length bs * 3 ≤ length pose.blob_list
      → Returns (Passes bs pose t) (tracking_get_pose turned checked pose t)
  unfolding tracking_get_pose
  tracking_get_pose-Passes bs turned checked pose t started r room =
      subst (λ u. Returns (Passes bs pose t) (read_pose pose u))
        (sym (ap (λ b. if b then t else (init_tracking turned checked t).1) started))
        (read_pose-Passes bs pose t r room)

  -- What a client is given of these blobs, with room for `num_blobs`.
  pub record GivenBlobs (bs : List (Blob F)) (num_blobs : ℕ) (before : List F)
      (a : Option (FullAnswer F)) : Type 0 where
    pub answer : FullAnswer F
    pub written : a ≡ some answer
    pub blobs_read : answer.blobs_read ≡ min num_blobs (length bs)
    pub blobs :
        answer.blobs
        ≡ flat o (take (min num_blobs (length bs)) bs)
          ++ drop (min num_blobs (length bs) * 3) before

  pub get_pose_full-GivenBlobs :
      (bs : List (Blob F)) (c : Client F) (pose : Pose F) (buf : List F) (num_blobs : ℕ)
      → detached c ≡ false
      → is_good c.shared.state ≡ true
      → HasBlobs o bs c.shared.full_pose
      → num_blobs * 3 ≤ length buf
      → Returns (GivenBlobs bs num_blobs buf) (get_pose_full zero' c pose buf num_blobs)
  unfolding get_pose_full
  get_pose_full-GivenBlobs bs c pose buf num_blobs e good r room =
      let n : (if ltb num_blobs c.shared.full_pose.blobs
            then num_blobs
            else c.shared.full_pose.blobs)
          ≡ min num_blobs (length bs) =
        ground (arith, r.number) in
      rw
        (
          e,
          good,
          n,
          copied_first (min num_blobs (length bs)) bs c.shared.full_pose buf (omega arith) r
              (omega arith),
        )
        (record { answer = _; written = refl; blobs_read = refl; blobs = refl })
