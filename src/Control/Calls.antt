-- ===== src/Control/Calls.antt =====
-- Calls that may fail and that touch the network, with `?` as their bind, for
-- moonlight-control/src/client.rs.
use moonlight_scarlet.Prelude.{◌≡◌, refl, ap, ◌∙◌, List, ◌∷◌, Result, ok, err, arith}
use moonlight_scarlet.Control.Defs.{ClientError, ConnectProgress}

-- The network and the source of random bytes, and what `progress` was given, newest first.
pub record World (N : Type 0) : Type 0 where
  pub network : N
  pub progress : List ConnectProgress

abbrev pub Call : Type 0 → Type 0 → Type 0
Call N A = World N → Result ClientError A × World N

module _ {N : Type 0} where
  abbrev pub carry_on :
      {A B : Type 0}
      → (A → Call N B)
      → Result ClientError A × World N
      → Result ClientError B × World N
  carry_on f (ok a, w) = f a w
  carry_on f (err e, w) = (err e, w)

  infixl 5 ◌>>=◌
  abbrev pub ◌>>=◌ : {A B : Type 0} → Call N A → (A → Call N B) → Call N B
  (m >>= f) w = carry_on f (m w)

  abbrev pub lift : {A : Type 0} → Result ClientError A → Call N A
  lift r w = (r, w)

  abbrev pub note_progress : ConnectProgress → Call N (Unit {0})
  note_progress p w = (ok tt, record w { progress = p ∷ w.progress })

  -- A bind that ends well ran both of its parts.
  pub call_ok :
      {A B : Type 0} (m : Call N A) (f : A → Call N B) (w w' : World N) (b : B)
      → (m >>= f) w ≡ (ok b, w')
      → (a : A) × (v : World N) × (m w ≡ (ok a, v)) × (f a v ≡ (ok b, w'))
  call_ok {A = A} {B = B} m f w w' b e = go (m w) e
    where
      go :
          (r : Result ClientError A × World N)
          → carry_on f r ≡ (ok b, w')
          → (a : A) × (v : World N) × (r ≡ (ok a, v)) × (f a v ≡ (ok b, w'))
      go (ok a, v) e = (a, v, refl, e)
      go (err x, v) e = absurd (ground (arith, ap (λ r. r.0) e))

  pub lifted_ok :
      {A : Type 0} (r : Result ClientError A) (a : A) (w w' : World N)
      → lift r w ≡ (ok a, w')
      → r ≡ ok a
  lifted_ok r a w w' e = ap (λ x. x.0) e

  -- The same of a bind that begins with a computed result.
  pub lift_ok :
      {A B : Type 0} (r : Result ClientError A) (f : A → Call N B) (w w' : World N) (b : B)
      → (lift r >>= f) w ≡ (ok b, w')
      → (a : A) × (r ≡ ok a) × (f a w ≡ (ok b, w'))
  lift_ok (ok a) f w w' b e = (a, refl, e)
  lift_ok (err x) f w w' b e = absurd (ground (arith, ap (λ r. r.0) e))

  -- A bind whose first part has ended well ends as its second part does.
  pub bind_ends :
      {A B : Type 0} (m : Call N A) (f : A → Call N B) (w v w' : World N) (a : A)
      (r : Result ClientError B)
      → m w ≡ (ok a, v)
      → f a v ≡ (r, w')
      → (m >>= f) w ≡ (r, w')
  bind_ends m f w v w' a r e h = ap (carry_on f) e ∙ h
