-- ===== src/Hw/State.antt =====
-- What the code for the cameras keeps and what it is answered. Delays and the log are left out.
use linux_track.Prelude.{
  ℕ, zero, suc, ◌+◌, Bool, true, false, Option, List, ◌∷◌, ◌++◌, length, drop, ◌==◌,
}
use linux_track.Prelude.Exec
use linux_track.Prelude.Exec.{Exec, ok, fault, out_of_fuel, read_at}

-- `dev_found` of src/usb_ifc.h. `not_permitted` stands for each value with the flag `NOT_PERMITTED`.
pub data Found : Type 0 where
  not_tir tir2 tir3 tir4 tir5 tir5v2 smartnav3 smartnav4 not_permitted : Found

abbrev pub number : Found → ℕ
number not_tir = 0
number tir2 = 1
number tir3 = 2
number tir4 = 3
number tir5 = 4
number tir5v2 = 5
number smartnav3 = 6
number smartnav4 = 7
number not_permitted = 16384

-- The structures that `tir_iface` points to.
pub data Interface : Type 0 where
  tir2_iface tir3_iface tir4_iface tir5_iface smartnav3_iface smartnav4_iface : Interface

-- An answer of `ltr_int_receive_data`: its result and the bytes it transferred.
pub record Received : Type 0 where
  pub fine : Bool
  pub bytes : List ℕ

-- An answer of `gzread`.
pub data GzRead : Type 0 where
  chunk : List ℕ → GzRead
  gz_error : GzRead

-- What the code relies on: the answers of the USB library to each transfer in turn, the preferences,
-- the firmware file as its reads, `none` where it cannot be opened, and whether the pipe for the
-- SmartNav's buttons can be opened.
pub record Env : Type 0 where
  pub init_usb : Bool
  pub find_tir : Found
  pub prepare_device : Bool
  pub sent_fine : ℕ → Bool
  pub received : ℕ → Received
  pub status_indication : Bool
  pub status_brightness : ℕ
  pub ir_brightness : ℕ
  pub use_grayscale : Bool
  pub firmware_file : Option (List GzRead)
  pub pipe_opens : Bool

-- A packet and the endpoint it was sent to.
pub record Sent : Type 0 where
  pub endpoint : ℕ
  pub payload : List ℕ

-- The static variables, and the packets sent, the newest first.
pub record Hw : Type 0 where
  pub device : Found
  pub tir_iface : Option Interface
  pub ir_on : Bool
  pub cfg_in_ep : ℕ
  pub data_in_ep : ℕ
  pub out_ep : ℕ
  pub packet : List ℕ
  pub sn4_pipe : Bool
  pub usb_open : Bool
  pub sends : ℕ
  pub receives : ℕ
  pub sent : List Sent

abbrev pub M : Type 0 → Type 0
M A = Hw → Exec (A × Hw)

infixl 5 ◌>>=◌ ◌>>◌
abbrev pub ◌>>=◌ : {A B : Type 0} → M A → (A → M B) → M B
◌>>=◌ m k h = Exec.◌>>=◌ (m h) (λ (a, h'). k a h')

abbrev pub ◌>>◌ : {A B : Type 0} → M A → M B → M B
m >> k = m >>= λ _. k

abbrev pub pure : {A : Type 0} → A → M A
pure a h = ok (a, h)

abbrev pub get : M Hw
get h = ok (h, h)

abbrev pub modify : (Hw → Hw) → M (Unit {0})
modify f h = ok (tt, f h)

abbrev pub failed : {A : Type 0} → M A
failed h = fault

abbrev pub exhausted : {A : Type 0} → M A
exhausted h = out_of_fuel

-- `ltr_int_packet[i]`
abbrev pub packet_at : ℕ → M ℕ
packet_at i h = Exec.◌>>=◌ (read_at h.packet i) (λ b. ok (b, h))

module _ (env : Env) where
  -- `ltr_int_send_data(out_ep, …)`
  unfoldable pub send : List ℕ → M Bool
  send p h = ok (
    env.sent_fine h.sends,
    record h { sends = h.sends + 1; sent = record { endpoint = h.out_ep; payload = p } ∷ h.sent },
  )

  -- `ltr_int_receive_data(cfg_in_ep, ltr_int_packet, …)`: its result and the number of bytes, which
  -- overwrite the front of the packet.
  unfoldable pub receive : M (Bool × ℕ)
  receive h =
      let answer = env.received h.receives in
      ok (
        (answer.fine, length answer.bytes),
        record h {
          receives = h.receives + 1;
          packet = answer.bytes ++ drop (length answer.bytes) h.packet;
        },
      )

  -- `do{ receive }while(t > 0)`, on fuel.
  unfoldable pub flush_packets : ℕ → M (Unit {0})
  unfolding receive
  flush_packets zero = exhausted
  flush_packets (suc n) = do
    (_, t) ← receive
    elim (t == 0) [ true ↦ pure tt | false ↦ flush_packets n ]
