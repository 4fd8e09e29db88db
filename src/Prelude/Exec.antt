-- ===== src/Prelude/Exec.antt =====
-- Runs of C code that can fail: a read or write outside an object is a `fault`, and a loop that is
-- bounded by fuel in the model may run `out_of_fuel`.
use mathlib.Core.Path.{◌≡◌, refl}
use mathlib.Core.List.{List, [], ◌∷◌}
use mathlib.Core.Option.{Option, none, some}
use Prim.Native.Nat.{ℕ, zero, suc, ◌≤◌}
use native.Mathlib.Omega.{arith}
use linux_track.Prelude.Lists.{get_elem?, length}

pub data Exec {ℓ} (A : Type ℓ) : Type ℓ where
  ok : A → Exec A
  fault : Exec A
  out_of_fuel : Exec A

infixl 5 ◌>>=◌ ◌>>◌
abbrev pub ◌>>=◌ {ℓ κ} : {A : Type ℓ} {B : Type κ} → Exec A → (A → Exec B) → Exec B
ok a >>= k = k a
fault >>= k = fault
out_of_fuel >>= k = out_of_fuel

abbrev pub ◌>>◌ {ℓ} : {B : Type ℓ} → Exec (Unit {0}) → Exec B → Exec B
m >> k = m >>= λ _. k

abbrev pub to_exec {ℓ} : {A : Type ℓ} → Option A → Exec A
to_exec none = fault
to_exec (some a) = ok a

-- `data[i]`
abbrev pub read_at {ℓ} : {A : Type ℓ} → List A → ℕ → Exec A
read_at xs i = to_exec (get_elem? xs i)

-- A run that ends: by a fault, or with a result of which `P` holds. Running out of fuel is excluded.
pub data Ends {A : Type 0} (P : A → Type 0) : Exec A → Type 0 where
  returns : {a : A} → P a → Ends P (ok a)
  faults : Ends P fault

pub Ends-bind :
    {A B : Type 0} {P : A → Type 0} {Q : B → Type 0} {m : Exec A} {k : A → Exec B}
    → Ends P m
    → ((a : A) → P a → Ends Q (k a))
    → Ends Q (m >>= k)
Ends-bind (returns p) next = next _ p
Ends-bind faults next = faults

pub Ends-mono :
    {A : Type 0} {P Q : A → Type 0} {m : Exec A} → Ends P m → ((a : A) → P a → Q a) → Ends Q m
Ends-mono (returns p) weaken = returns (weaken _ p)
Ends-mono faults weaken = faults

pub Ends-not_out_of_fuel :
    {A : Type 0} {P : A → Type 0} {m : Exec A} → Ends P m → m ≡ out_of_fuel → ⊥
Ends-not_out_of_fuel (returns p) e = cc
Ends-not_out_of_fuel faults e = cc

-- No condition on the result.
abbrev pub Any {ℓ} : {A : Type ℓ} → A → Type 0
Any _ = Unit {0}

pub read_at-Ends : {A : Type 0} (xs : List A) (i : ℕ) → Ends Any (read_at xs i)
read_at-Ends {A} xs i = option (get_elem? xs i)
  where
    option : (o : Option A) → Ends Any (to_exec o)
    option none = faults
    option (some a) = returns tt

pub read_at_past {ℓ} : {A : Type ℓ} (xs : List A) (i : ℕ) → length xs ≤ i → read_at xs i ≡ fault
read_at_past [] i h = refl
read_at_past (x ∷ xs) zero h = absurd (omega arith)
read_at_past (x ∷ xs) (suc i) h = read_at_past xs i (omega arith)

-- A run that returns, with a result of which `P` holds.
abbrev pub Returns {ℓ} : {A : Type ℓ} → (A → Type 0) → Exec A → Type 0
Returns P (ok a) = P a
Returns P fault = ⊥
Returns P out_of_fuel = ⊥

pub Returns-bind {ℓ κ} :
    {A : Type ℓ} {B : Type κ} (P : A → Type 0) (Q : B → Type 0) (m : Exec A) (k : A → Exec B)
    → Returns P m
    → ((a : A) → P a → Returns Q (k a))
    → Returns Q (m >>= k)
Returns-bind P Q (ok a) k p next = next a p
Returns-bind P Q fault k p next = p
Returns-bind P Q out_of_fuel k p next = p

pub Returns-mono {ℓ} :
    {A : Type ℓ} (P Q : A → Type 0) (m : Exec A) → Returns P m → ((a : A) → P a → Q a) → Returns Q m
Returns-mono P Q (ok a) p weaken = weaken a p
Returns-mono P Q fault p weaken = p
Returns-mono P Q out_of_fuel p weaken = p

pub Returns-both {ℓ} :
    {A : Type ℓ} (P Q : A → Type 0) (m : Exec A)
    → Returns P m
    → Returns Q m
    → Returns (λ a. P a × Q a) m
Returns-both P Q (ok a) p q = (p, q)
Returns-both P Q fault p q = p
Returns-both P Q out_of_fuel p q = p

-- Of a run that returns, `P` holds.
abbrev pub WhenOk : {A : Type 0} → (A → Type 0) → Exec A → Type 0
WhenOk P (ok a) = P a
WhenOk P fault = Unit {0}
WhenOk P out_of_fuel = Unit {0}

pub WhenOk-bind :
    {A B : Type 0} (P : A → Type 0) (Q : B → Type 0) (m : Exec A) (k : A → Exec B)
    → WhenOk P m
    → ((a : A) → P a → WhenOk Q (k a))
    → WhenOk Q (m >>= k)
WhenOk-bind P Q (ok a) k p next = next a p
WhenOk-bind P Q fault k p next = tt
WhenOk-bind P Q out_of_fuel k p next = tt

pub bind-same :
    {A B : Type 0} (P : A → Type 0) (m : Exec A) (k k' : A → Exec B)
    → WhenOk P m
    → ((a : A) → P a → k a ≡ k' a)
    → (m >>= k) ≡ (m >>= k')
bind-same P (ok a) k k' p next = next a p
bind-same P fault k k' p next = refl
bind-same P out_of_fuel k k' p next = refl

pub WhenOk-mono :
    {A : Type 0} (P Q : A → Type 0) (m : Exec A) → WhenOk P m → ((a : A) → P a → Q a) → WhenOk Q m
WhenOk-mono P Q (ok a) p weaken = weaken a p
WhenOk-mono P Q fault p weaken = tt
WhenOk-mono P Q out_of_fuel p weaken = tt
