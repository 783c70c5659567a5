-- ===== src/Errors/Bind.antt =====
-- Results in sequence, read backwards: what came before a value.
use hegel.Base.{Text, ◌≡◌, ◌⊎◌, inl, inr, refl, ap}
use hegel.Errors.{GoError, relabel, Result, ok, err, ◌>>=◌}

pub bind-ok {ℓ κ} :
    {A : Type ℓ} {B : Type κ} (r : Result A) (f : A → Result B) (b : B)
    → (r >>= f) ≡ ok b
    → (a : A) × (r ≡ ok a) × (f a ≡ ok b)
bind-ok (ok a) f b h = (a, refl, h)
bind-ok (err e) f b h = cc

pub ok_injective {ℓ} : {A : Type ℓ} (a b : A) → ok a ≡ ok b → a ≡ b
ok_injective a b h = cc

pub relabel-ok {ℓ} :
    {A : Type ℓ} (prefix : Text) (r : Result A) (a : A) → relabel prefix r ≡ ok a → r ≡ ok a
unfolding relabel
relabel-ok prefix (ok x) a h = h
relabel-ok prefix (err e) a h = cc

pub bind-err {ℓ κ} :
    {A : Type ℓ} {B : Type κ} (r : Result A) (f : A → Result B) (e : GoError)
    → (r >>= f) ≡ err e
    → (r ≡ err e) ⊎ ((a : A) × (r ≡ ok a) × (f a ≡ err e))
bind-err (ok a) f e h = inr (a, refl, h)
bind-err (err x) f e h = let same : x ≡ e = cc in inl (ap err same)

pub relabel-err {ℓ} :
    {A : Type ℓ} (prefix : Text) (r : Result A) (e : GoError)
    → relabel prefix r ≡ err e
    → (x : GoError) × (r ≡ err x)
unfolding relabel
relabel-err prefix (ok x) e h = cc
relabel-err prefix (err x) e h = (x, refl)

pub Result-cases {ℓ} :
    {A : Type ℓ} (r : Result A) → ((a : A) × (r ≡ ok a)) ⊎ ((e : GoError) × (r ≡ err e))
Result-cases (ok a) = inl (a, refl)
Result-cases (err e) = inr (e, refl)
