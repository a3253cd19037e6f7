-- ===== src/Session/Valid.antt =====
-- What moonlight-control/src/session.rs asks of a configuration and of an application.
use moonlight_scarlet.Prelude.{
  ℕ, ◌≡◌, ◌<◌, ◌^◌, inl, inr, true, List, [], ◌∷◌, ◌==◌, ok, Bool-cases, arith,
}
use moonlight_scarlet.Session.Defs.{LaunchConfig, validate, Application, ConnectedHost}
use moonlight_scarlet.Session.Request.{has_application, validate_application}

-- A mode, and a bitrate that a C integer holds.
pub record IsPlayable (c : LaunchConfig) : Type 0 where
  pub width : 0 < c.width
  pub height : 0 < c.height
  pub fps : 0 < c.fps
  pub bitrate : 0 < c.bitrate_kbps
  pub bitrate_bound : c.bitrate_kbps < 2 ^ 31

-- An application of the identifier is in the list.
pub data IsListed (id : ℕ) : List Application → Type 0 where
  listed_here : {a : Application} {rest : List Application} → a.id ≡ id → IsListed id (a ∷ rest)
  listed_later :
      {a : Application} {rest : List Application} → IsListed id rest → IsListed id (a ∷ rest)

pub record IsOffered (a : Application) (applications : List Application) : Type 0 where
  pub nonzero : 0 < a.id
  pub listed : IsListed a.id applications

has_application-IsListed :
    (id : ℕ) (apps : List Application) → has_application id apps ≡ true → IsListed id apps
has_application-IsListed id [] h = absurd (ground (arith, h))
has_application-IsListed id (a ∷ rest) h = elim (Bool-cases (a.id == id)) [
  | inl e ↦ listed_here (ground (arith, e))
  | inr n ↦ listed_later (has_application-IsListed id rest (ground (arith, n, h)))
]

pub validate-IsPlayable : (c : LaunchConfig) (u : Unit {0}) → validate c ≡ ok u → IsPlayable c
unfolding validate
validate-IsPlayable c u h = record {
  width = ground (arith, h);
  height = ground (arith, h);
  fps = ground (arith, h);
  bitrate = ground (arith, h);
  bitrate_bound = ground (arith, h);
}

module _ {E : Type 0} where
  pub validate_application-IsOffered :
      (host : ConnectedHost E) (a : Application) (u : Unit {0})
      → validate_application host a ≡ ok u
      → IsOffered a host.applications
  unfolding validate_application
  validate_application-IsOffered host a u h = record {
    nonzero = ground (arith, h);
    listed = has_application-IsListed a.id host.applications (ground (arith, h));
  }
