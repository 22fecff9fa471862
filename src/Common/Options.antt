-- ===== src/Common/Options.antt =====
-- What a chain of optional results tells when it has a result.
use mathlib.Core.Bool.{Bool, true, false}
use mathlib.Core.Option.{Option, none, some}
use Prim.Native.Nat.{ℕ}
use mathlib.Core.Path.{◌≡◌, refl}
use mathlib.Core.Logic.{◌⊎◌, inl, inr}
use cpa_plugin_token_saver.Common.Int.{ℤ, pos, negsuc}
use cpa_plugin_token_saver.Common.Tests.{none≢some, if◌then◌else◌}

pub and_then-some {ℓ κ} :
    {A : Type ℓ} {B : Type κ} (o : Option A) (f : A → Option B) (y : B)
    → elim o [ none ↦ none | some x ↦ f x ] ≡ some y
    → (x : A) × (o ≡ some x) × (f x ≡ some y)
and_then-some none f y h = absurd (none≢some h)
and_then-some (some x) f y h = (x, refl, h)

pub when-some {ℓ} :
    {A : Type ℓ} (b : Bool) (o : Option A) (y : A)
    → (if b then none else o) ≡ some y
    → (b ≡ false) × (o ≡ some y)
when-some true o y h = absurd (none≢some h)
when-some false o y h = (refl, h)

pub if_else-cases {ℓ} :
    {A : Type ℓ} (b : Bool) (x y z : A)
    → (if b then x else y) ≡ z
    → ((b ≡ true) × (x ≡ z)) ⊎ ((b ≡ false) × (y ≡ z))
if_else-cases true x y z h = inl (refl, h)
if_else-cases false x y z h = inr (refl, h)

pub pos-some {ℓ} :
    {A : Type ℓ} (i : ℤ) (f : ℕ → Option A) (y : A)
    → elim i [ negsuc n ↦ none | pos n ↦ f n ] ≡ some y
    → (n : ℕ) × (i ≡ pos n) × (f n ≡ some y)
pos-some (negsuc n) f y h = absurd (none≢some h)
pos-some (pos n) f y h = (n, refl, h)
