-- ===== src/Startup/CallLaws.antt =====
-- Routines on the kernel and on the bytes of the memory, called from ProcessFork and from os/traps.c.
use lab.Prelude.{◌≡◌, refl}
use lab.Run.{Run, Cmd, Returns, returns, and_then}
use lab.Text.Strings.{Bytes}
use lab.Kernel.{Kernel}
use lab.Machine.{Machine, with_kernel, with_bytes}

pub Returns-in_kernel :
    {A : Type 0} {P : A → Kernel → Type 0} (m : Machine) {r : Run Kernel A}
    → Returns P r
    → Returns (λ a t. P a t.kernel × (t ≡ record m { kernel = t.kernel })) (with_kernel m r)
Returns-in_kernel m (returns p) = returns (p, refl)

module _ {A B : Type 0} {Q : B → Machine → Type 0} (m : Machine) (f : A → Cmd Machine B) where
  pub Returns-kernel :
      {P : A → Kernel → Type 0} {r : Run Kernel A}
      → Returns P r
      → ((a : A) (k : Kernel) → P a k → Returns Q (f a (record m { kernel = k })))
      → Returns Q (and_then (with_kernel m r) f)
  Returns-kernel (returns p) next = next _ _ p

  pub Returns-bytes :
      {P : A → Bytes → Type 0} {r : Run Bytes A}
      → Returns P r
      → ((a : A) (b : Bytes) → P a b → Returns Q (f a (record m { bytes = b })))
      → Returns Q (and_then (with_bytes m r) f)
  Returns-bytes (returns p) next = next _ _ p
