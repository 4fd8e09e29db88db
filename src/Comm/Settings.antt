-- ===== src/Comm/Settings.antt =====
-- The settings are independent registers.
use linux_track.Prelude.{ℕ, ◌≡◌, refl, Bool, true, false, if◌then◌else◌}
use linux_track.Comm.{
  Mmap, get_threshold, set_threshold, get_min_blob, set_min_blob, get_max_blob, set_max_blob,
  get_wii_indication, set_wii_indication, get_opt_level, set_opt_level,
}

pub data Setting : Type 0 where
  threshold min_blob max_blob wii_indication opt_level : Setting

abbrev pub same : Setting → Setting → Bool
same threshold threshold = true
same min_blob min_blob = true
same max_blob max_blob = true
same wii_indication wii_indication = true
same opt_level opt_level = true
same _ _ = false

module _ {F : Type 0} where
  abbrev pub get : Setting → Mmap F → ℕ × Mmap F
  get threshold = get_threshold
  get min_blob = get_min_blob
  get max_blob = get_max_blob
  get wii_indication = get_wii_indication
  get opt_level = get_opt_level

  abbrev pub put : Setting → ℕ → Mmap F → Mmap F
  put threshold = set_threshold
  put min_blob = set_min_blob
  put max_blob = set_max_blob
  put wii_indication = set_wii_indication
  put opt_level = set_opt_level

  -- After a setter, the getter of the same setting returns the value set and every other getter what
  -- it returned before; neither leaves the lock held.
  get-put :
      (a b : Setting) (v : ℕ) (m : Mmap F)
      → ((get a (put b v m)).0 ≡ (if same a b then v else (get a m).0))
        × ((put b v m).held ≡ false)
        × ((get a m).1.held ≡ false)
  unfolding get_threshold set_threshold get_min_blob set_min_blob get_max_blob set_max_blob
      get_wii_indication set_wii_indication get_opt_level set_opt_level
  get-put threshold threshold v m = (refl, refl, refl)
  get-put threshold min_blob v m = (refl, refl, refl)
  get-put threshold max_blob v m = (refl, refl, refl)
  get-put threshold wii_indication v m = (refl, refl, refl)
  get-put threshold opt_level v m = (refl, refl, refl)
  get-put min_blob threshold v m = (refl, refl, refl)
  get-put min_blob min_blob v m = (refl, refl, refl)
  get-put min_blob max_blob v m = (refl, refl, refl)
  get-put min_blob wii_indication v m = (refl, refl, refl)
  get-put min_blob opt_level v m = (refl, refl, refl)
  get-put max_blob threshold v m = (refl, refl, refl)
  get-put max_blob min_blob v m = (refl, refl, refl)
  get-put max_blob max_blob v m = (refl, refl, refl)
  get-put max_blob wii_indication v m = (refl, refl, refl)
  get-put max_blob opt_level v m = (refl, refl, refl)
  get-put wii_indication threshold v m = (refl, refl, refl)
  get-put wii_indication min_blob v m = (refl, refl, refl)
  get-put wii_indication max_blob v m = (refl, refl, refl)
  get-put wii_indication wii_indication v m = (refl, refl, refl)
  get-put wii_indication opt_level v m = (refl, refl, refl)
  get-put opt_level threshold v m = (refl, refl, refl)
  get-put opt_level min_blob v m = (refl, refl, refl)
  get-put opt_level max_blob v m = (refl, refl, refl)
  get-put opt_level wii_indication v m = (refl, refl, refl)
  get-put opt_level opt_level v m = (refl, refl, refl)
