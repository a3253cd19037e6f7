-- ===== src/Config/History.antt =====
-- Theorems on the host history of moonlight-control/src/hosts.rs.
use moonlight_scarlet.Prelude.{
  ◌≡◌, refl, sym, ap, ◌∙◌, true, false, ◌||◌, Option, none, some, List, [], ◌∷◌, ◌++◌, Result, ok,
  err, arith, Bool-cases, Result-cases, inl, inr,
}
use moonlight_scarlet.Session.Defs.{Text}
use moonlight_scarlet.Config.Files.{ConfigFile, Json, Keeps, RoundTrips, load-save}
use moonlight_scarlet.Config.Hosts.{
  SavedHosts, no_hosts, SavedHostsDocument, HostsError, text_eq, trim, has_host, normalized_host,
  add_host, remember_without_selecting, remember, remember_each, select, load_hosts, save_hosts,
}

-- No address stands behind an equal one.
abbrev pub AreUnique : List Text → List Text → Type 0
AreUnique seen [] = Unit
AreUnique seen (h ∷ hs) = (has_host h seen ≡ false) × AreUnique (seen ++ (h ∷ [])) hs

text_eq_refl : (t : Text) → text_eq t t ≡ true
text_eq_refl [] = refl
text_eq_refl (c ∷ cs) = ground (arith, text_eq_refl cs)

has_host-append :
    (h t : Text) (hs : List Text) → has_host h (hs ++ (t ∷ [])) ≡ (has_host h hs || text_eq t h)
has_host-append h t [] = ground arith
has_host-append h t (x ∷ xs) = ground (arith, has_host-append h t xs)

append_nil : (hs : List Text) → hs ++ [] ≡ hs
append_nil [] = refl
append_nil (h ∷ hs) = ap (λ t. h ∷ t) (append_nil hs)

append_assoc : (xs ys zs : List Text) → (xs ++ ys) ++ zs ≡ xs ++ (ys ++ zs)
append_assoc [] ys zs = refl
append_assoc (x ∷ xs) ys zs = ap (λ t. x ∷ t) (append_assoc xs ys zs)

unique-snoc :
    (seen hs : List Text) (h : Text)
    → AreUnique seen hs
    → has_host h (seen ++ hs) ≡ false
    → AreUnique seen (hs ++ (h ∷ []))
unique-snoc seen [] h u n = (ap (has_host h) (sym (append_nil seen)) ∙ n, tt)
unique-snoc seen (x ∷ xs) h (f, u) n =
    (f, unique-snoc (seen ++ (x ∷ [])) xs h u (ap (has_host h) (append_assoc seen (x ∷ []) xs) ∙ n))

module _ (parse : Text → Result HostsError (Unit {0})) where
  add-AreUnique :
      (name : Text) (s : SavedHosts)
      → AreUnique [] s.hosts
      → AreUnique [] (add_host parse name s).hosts
  add-AreUnique name s u = elim (Bool-cases (has_host name s.hosts)) [
    | inl old ↦ rw old u
    | inr new ↦ rw new (unique-snoc [] s.hosts name u new)
  ]

  -- The history after a handler, which a failure leaves as it was.
  abbrev pub hosts_of : SavedHosts → Result HostsError SavedHosts → List Text
  hosts_of s (ok t) = t.hosts
  hosts_of s (err e) = s.hosts

  -- Remembering a host, whether it is accepted or not, leaves every address in the history once.
  pub remember-AreUnique :
      (host : Text) (s : SavedHosts)
      → AreUnique [] s.hosts
      → AreUnique [] (hosts_of s (remember parse host s))
  unfolding remember remember_without_selecting
  remember-AreUnique host s u = elim (Result-cases (normalized_host parse host)) [
    | inr (e, k) ↦ simp k u
    | inl (name, k) ↦ elim (Result-cases (normalized_host parse name)) [
      | inr (e, l) ↦ simp (k, l) u
      | inl (again, l) ↦ simp (k, l) (add-AreUnique again s u)
    ]
  ]

  -- An address as the history stores it.
  abbrev pub IsNormal : Text → Type 0
  IsNormal h = (trim h ≡ h) × (parse h ≡ ok tt)

  abbrev pub AreNormal : List Text → Type 0
  AreNormal [] = Unit
  AreNormal (h ∷ hs) = IsNormal h × AreNormal hs

  normal-normalized : (h : Text) → IsNormal h → normalized_host parse h ≡ ok h
  unfolding normalized_host
  normal-normalized h (t, p) = simp (t, p) refl

  each-AreUnique :
      (hs : List Text) (s : SavedHosts)
      → AreUnique s.hosts hs
      → AreNormal hs
      → remember_each parse hs s ≡ ok (record s { hosts = s.hosts ++ hs })
  unfolding remember_each remember_without_selecting
  each-AreUnique [] s u n = ap (λ hs. ok (record s { hosts = hs })) (sym (append_nil s.hosts))
  each-AreUnique (h ∷ hs) s (f, u) (n, ns) =
      simp (normal-normalized h n, f)
        (each-AreUnique hs (record s { hosts = s.hosts ++ (h ∷ []) }) u ns
          ∙ ap (λ hs. ok (record s { hosts = hs })) (append_assoc s.hosts (h ∷ []) hs))

  -- What a history promises that was built by `remember`.
  pub record IsHistory (s : SavedHosts) : Type 0 where
    pub unique : AreUnique [] s.hosts
    pub normal : AreNormal s.hosts
    pub selected : (h : Text) → s.last_connected ≡ some h → IsNormal h × (has_host h s.hosts ≡ true)

  module _ {W : Type 0} (file : ConfigFile HostsError W)
      (json : Json HostsError SavedHostsDocument) where
    -- A history that was saved is loaded again, in the same order and with the same host selected.
    pub load_hosts-save_hosts :
        Keeps file
        → RoundTrips json
        → (s : SavedHosts) (w : W) → IsHistory s
        → (save_hosts parse file json s w).0 ≡ ok tt
        → load_hosts parse file json (save_hosts parse file json s w).1 ≡ ok s
    unfolding load_hosts save_hosts select remember remember_without_selecting
    load_hosts-save_hosts keeps trips s w i h =
        simp
          (
            load-save file json keeps trips
                (record { version = 1; hosts = s.hosts; last_connected = s.last_connected }) w h,
            each-AreUnique s.hosts no_hosts i.unique i.normal,
          )
          (picked s.last_connected refl)
      where
        picked :
            (o : Option Text)
            → s.last_connected ≡ o
            → select parse o (record { hosts = s.hosts; last_connected = none }) ≡ ok s
        picked none e = ap (λ l. ok (record s { last_connected = l })) (sym e)
        picked (some host) e =
            simp (normal-normalized host (i.selected host e).0, (i.selected host e).1)
              (ap (λ l. ok (record s { last_connected = l })) (sym e))
