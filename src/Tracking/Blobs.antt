-- ===== src/Tracking/Blobs.antt =====
-- The blobs of a frame on their way to a client.
use linux_track.Prelude.{◌*◌, ◌≤◌, ◌≡◌, refl, List, [], ◌∷◌, ◌++◌, length, drop, arith, ◌∙◌}
use linux_track.Prelude.Exec.{ok}
use linux_track.Comm.{Blob}
use linux_track.Ltlib.Comm.{FullPose}
use linux_track.Tracking.State.{Tracking, TrackOps, Solver}
use linux_track.Tracking.Update.{TrackedFrame, write_blobs, remove_camera_rotation}

module _ (o : TrackOps) where
  open o use {maths, of_uint}
  open maths use {axis}
  open axis use {F, zero'}

  -- Three values for each blob.
  unfoldable pub flat : List (Blob F) → List F
  flat [] = []
  flat (b ∷ bs) = b.x ∷ (b.y ∷ (of_uint b.score ∷ flat bs))

  pub length-flat : (bs : List (Blob F)) → length (flat bs) ≡ length bs * 3
  unfolding flat
  length-flat [] = refl
  length-flat (b ∷ bs) = omega (arith, length-flat bs)

  pub write_blobs-flat :
      (bs : List (Blob F)) (l : List F)
      → length (flat bs) ≤ length l
      → write_blobs o bs l ≡ ok (flat bs ++ drop (length (flat bs)) l)
  unfolding flat write_blobs
  write_blobs-flat [] l h = refl
  write_blobs-flat (b ∷ bs) (x ∷ (y ∷ (z ∷ l))) h = rw (write_blobs-flat bs l (omega arith)) refl
  write_blobs-flat (b ∷ bs) [] h = absurd (omega arith)
  write_blobs-flat (b ∷ bs) (x ∷ []) h = absurd (omega arith)
  write_blobs-flat (b ∷ bs) (x ∷ (y ∷ [])) h = absurd (omega arith)

  -- The pose holds these blobs.
  pub record HasBlobs (bs : List (Blob F)) (p : FullPose F) : Type 0 where
    pub number : p.blobs ≡ length bs
    pub rest : List F
    pub values : p.blob_list ≡ flat bs ++ rest

  -- The blobs that the tracking passes on.
  unfoldable pub upright : Solver F → Tracking F → TrackedFrame F → List (Blob F)
  upright solver t frame = solver.sort_blobs (remove_camera_rotation o t.orientation frame.blobs)

  pub same_blobs :
      (bs : List (Blob F)) (p q : FullPose F)
      → q.blobs ≡ p.blobs
      → q.blob_list ≡ p.blob_list
      → HasBlobs bs p
      → HasBlobs bs q
  same_blobs bs p q a b r = record { number = a ∙ r.number; rest = r.rest; values = b ∙ r.values }
