-- ===== src/Hw/Status/Reload.antt =====
-- What the code makes of the answers to a request for the status.
use linux_track.Prelude.{
  ℕ, zero, suc, ◌+◌, ◌<◌, ◌≡◌, ◌≢◌, refl, ◌∙◌, true, false, some, List, [], ◌∷◌, ◌++◌, ltb, ◌==◌,
  ◌<<<◌, length, drop, arith,
}
use linux_track.Prelude.Exec.{ok, out_of_fuel, Returns}
use linux_track.Hw.State.{Env, Hw}
use linux_track.Hw.Status.{TirStatus, await_status, read_status_tir, await_reload}

module _ (env : Env) (flag : ℕ) (c loaded high low : ℕ) (rest : List ℕ) where
  abbrev status_packet : List ℕ
  status_packet = 0x07 ∷ 0x20 ∷ c ∷ loaded ∷ high ∷ low ∷ flag ∷ rest

  abbrev pub Answers : Type 0
  Answers =
      ((k : ℕ) → env.sent_fine k ≡ true)
      × ((k : ℕ) → env.received k ≡ record { fine = true; bytes = status_packet })

  -- The state after one request was answered.
  abbrev pub answered : Hw → Hw
  answered h = record h {
    sends = h.sends + 1;
    receives = h.receives + 1;
    sent = record { endpoint = h.out_ep; payload = 0x1d ∷ [] } ∷ h.sent;
    packet = status_packet ++ drop (length status_packet) h.packet;
  }

  await_status-answered :
      (n : ℕ) (h : Hw) → Answers → await_status env (suc n) h ≡ ok (true, answered h)
  unfolding await_status
  await_status-answered n h (fine, replied) =
      let long : ltb 2 (length status_packet) ≡ true = ground arith in
      rw (fine h.sends, replied h.receives, long) refl

  abbrev status : TirStatus
  status = record { fw_loaded = loaded == 1; cfg_flag = flag; fw_cksum = (high <<< 8) + low }

  read_status_tir-answered :
      (h : Hw) → Answers → read_status_tir env h ≡ ok (some status, answered h)
  unfolding read_status_tir
  read_status_tir-answered h a = rw (await_status-answered 19 h a) refl

  await_reload-waits :
      (fuel before : ℕ) (h : Hw)
      → before ≢ 2
      → flag ≢ 2
      → Answers
      → await_reload env fuel before h ≡ out_of_fuel
  unfolding await_reload
  await_reload-waits zero before h ne other a = refl
  await_reload-waits (suc n) before h ne other a =
      let test : (before == 2) ≡ false = ground arith in
      rw (test, read_status_tir-answered h a) (await_reload-waits n flag (answered h) other other a)

  await_reload-ends :
      (fuel before : ℕ) (h : Hw)
      → before ≢ 2
      → flag ≡ 2
      → Answers
      → 1 < fuel
      → await_reload env fuel before h ≡ ok (true, answered h)
  unfolding await_reload
  await_reload-ends zero before h ne e a k = absurd (omega arith)
  await_reload-ends (suc zero) before h ne e a k = absurd (omega arith)
  await_reload-ends (suc (suc n)) before h ne e a k =
      let test : (before == 2) ≡ false = ground arith in
      let done : (flag == 2) ≡ true = ground arith in
      rw (test, read_status_tir-answered h a, done) refl

  -- Where the device takes each request and answers it with one status packet, the loop that
  -- waits for the configuration, entered with another flag than 2, ends after its first request
  -- if the packet's flag is 2; if not, it has not ended with any fuel.
  pub await_reload-answered :
      (before : ℕ) (h : Hw)
      → before ≢ 2
      → Answers
      → (flag ≡ 2 → (fuel : ℕ) → 1 < fuel → await_reload env fuel before h ≡ ok (true, answered h))
        × (flag ≢ 2 → (fuel : ℕ) → await_reload env fuel before h ≡ out_of_fuel)
  await_reload-answered before h ne a = (
    (λ e fuel k. await_reload-ends fuel before h ne e a k),
    λ other fuel. await_reload-waits fuel before h ne other a,
  )

-- A device that takes each request and answers none in time.
abbrev pub Silent : Env → Type 0
Silent env =
    ((k : ℕ) → env.sent_fine k ≡ true)
    × ((k : ℕ) → env.received k ≡ record { fine = true; bytes = [] })

await_status-Silent :
    (env : Env) (n : ℕ) (h : Hw) (a b : ℕ) (rest : List ℕ)
    → h.packet ≡ a ∷ b ∷ rest
    → Silent env
    → (h' : Hw) × (await_status env n h ≡ ok (true, h'))
      × (h'.packet ≡ h.packet)
      × (h'.sends ≡ h.sends + n)
unfolding await_status
await_status-Silent env zero h a b rest e s = (h, refl, refl, omega arith)
await_status-Silent env (suc n) h a b rest e (fine, replied) =
    let h1 : Hw = record h {
      sends = h.sends + 1;
      receives = h.receives + 1;
      sent = record { endpoint = h.out_ep; payload = 0x1d ∷ [] } ∷ h.sent;
    } in
    let (h', run, kept, count) = await_status-Silent env n h1 a b rest e (fine, replied) in
    (h', ground (arith, fine h.sends, replied h.receives, e, run), kept, omega arith)

-- Where the device takes each request and answers none in time, the code asks 20 times, and then
-- takes the bytes that an earlier packet left in the buffer, at least seven, for its status.
read_status_tir-Silent :
    (env : Env) (h : Hw) (a b c loaded high low flag : ℕ) (rest : List ℕ)
    → h.packet ≡ a ∷ b ∷ c ∷ loaded ∷ high ∷ low ∷ flag ∷ rest
    → Silent env
    → Returns
        (λ (status, h').
          (status
            ≡ some (record {
              fw_loaded = loaded == 1;
              cfg_flag = flag;
              fw_cksum = (high <<< 8) + low;
            }))
          × (h'.sends ≡ h.sends + 20))
        (read_status_tir env h)
unfolding read_status_tir
read_status_tir-Silent env h a b c loaded high low flag rest e s =
    let (h', run, kept, count) =
      await_status-Silent env 20 h a b (c ∷ loaded ∷ high ∷ low ∷ flag ∷ rest) e s in
    let held : h'.packet ≡ a ∷ b ∷ c ∷ loaded ∷ high ∷ low ∷ flag ∷ rest = kept ∙ e in
    rw run (ground (arith, held, count))
