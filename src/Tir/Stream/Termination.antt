-- ===== src/Tir/Stream/Termination.antt =====
-- When `process_packet` returns: every packet that it leaves without a frame takes it further.
use linux_track.Prelude.{
  ℕ, ◌+◌, ◌≤◌, ◌<◌, ◌≡◌, ◌≢◌, ◌⊎◌, Bool, true, false, Option, none, some, List, ◌==◌, ◌||◌,
  get_elem?,
}
use linux_track.Prelude.Exec.{Exec, ok}
use linux_track.Tir.Packet.{Parser}
use linux_track.Tir.Stream.{Header, go, give_up, Round, return, again, packet_round}

-- A buffer of bytes.
abbrev pub Bytes : List ℕ → Type 0
Bytes data' = (i n : ℕ) → get_elem? data' i ≡ some n → n < 256

-- The packet that starts at `ptr` is no status, device information or TrackIR 5 packet of length 0.
abbrev pub NotEmpty : List ℕ → ℕ → Type 0
NotEmpty data' ptr =
    (type : ℕ)
    → get_elem? data' ptr ≡ some 0
    → get_elem? data' (ptr + 1) ≡ some type
    → (type ≢ 0x20) × (type ≢ 0x40) × (type ≢ 0x10)

-- The rounds of the loop lead from the first state and position to the second.
pub data Reaches (data' : List ℕ) (size : ℕ) : Parser → ℕ → Parser → ℕ → Type 0 where
  no_rounds : {st : Parser} {ptr : ℕ} → Reaches data' size st ptr st ptr
  one_round :
      {st s st' : Parser} {ptr p ptr' : ℕ}
      → packet_round st data' ptr size ≡ ok (again p s)
      → Reaches data' size s p st' ptr'
      → Reaches data' size st ptr st' ptr'

-- No packet that the rounds start with is empty.
abbrev pub NoneEmpty : List ℕ → ℕ → Parser → ℕ → Type 0
NoneEmpty data' size st ptr =
    (s : Parser) (p : ℕ) → Reaches data' size st ptr s p → s.type ≡ none → NotEmpty data' p

-- The packets that `process_packet` knows.
abbrev pub known : Option ℕ → Bool
known none = false
known (some type) =
    type == 0x20 || type == 0x40 || type == 0x10 || type == 0x1c || type == 0x04 || type == 0x00

-- Between packets, or within a packet whose end is ahead.
abbrev pub IsReady : Parser → ℕ → Type 0
IsReady st ptr = (st.type ≡ none) ⊎ ((known st.type ≡ true) × (ptr < st.limit))

-- A round that is followed by another has moved on and is between packets.
abbrev Advances : ℕ → ℕ → Round → Type 0
Advances size ptr (return have_frame ptr' st) = Unit {0}
Advances size ptr (again ptr' st) = (st.type ≡ none) × (ptr < ptr') × (ptr < size)

-- A header leaves the position where it was or behind it, and names a packet that either ends
-- further on or is one of a TrackIR 4, whose loop moves on by itself.
abbrev Opens : ℕ → Header → Type 0
Opens ptr (give_up st) = Unit {0}
Opens ptr (go ptr' st) =
    (ptr ≤ ptr') × (known st.type ≡ true) × ((st.type ≡ some 0x1c) ⊎ (ptr < st.limit))

-- What `dispatch` leaves behind a packet without a frame.
abbrev Leaves : ℕ → Bool × ℕ × Parser → Type 0
Leaves ptr (have_frame, ptr', st) = have_frame ≡ false → (st.type ≡ none) × (ptr < ptr')
