-- ===== src/Gateway/Login/Invariant.antt =====
-- crates/qw-gateway/src/auth.rs: what holds of the users and the challenges over a history of calls.
use quanta_watch.Prelude.{
  ◌≡◌, refl, sym, ap, ◌∙◌, inl, inr, Text, codes, text_eq, text_eq_iff, Bool, true, false, Option,
  none, some, List, Bool-cases, arith,
}
use quanta_watch.Store.{lookup, insert, erase, lookup-insert, lookup-erase}
use quanta_watch.Gateway.Login.{Desk, DbUser, MfaPending}

abbrev pub is_some {ℓ} : {A : Type ℓ} → Option A → Bool
is_some none = false
is_some (some a) = true

-- A user is stored under its name, and who has two factors has a secret. So has everyone who is asked
-- for a code, where no secret has been withdrawn.
pub record IsValid (withdrawn : Bool) (users : List (Text × DbUser))
    (pendings : List (Text × MfaPending)) : Type 0 where
  pub keyed :
      (name : Text) (u : DbUser) → lookup name users ≡ some u → text_eq u.username name ≡ true
  pub armed :
      (name : Text) (u : DbUser)
      → lookup name users ≡ some u
      → u.totp_enabled ≡ true
      → is_some u.totp_secret ≡ true
  pub asked :
      withdrawn ≡ false
      → (hash : Text) (p : MfaPending) → lookup hash pendings ≡ some p
      → text_eq p.kind (codes "verify") ≡ true
      → (u : DbUser) × (lookup p.username users ≡ some u) × (is_some u.totp_secret ≡ true)

pub erase-IsValid :
    {w : Bool}
    → (users : List (Text × DbUser)) (pendings : List (Text × MfaPending)) (hash : Text)
    → IsValid w users pendings
    → IsValid w users (erase hash pendings)
erase-IsValid users pendings hash v = record {
  keyed = v.keyed;
  armed = v.armed;
  asked = λ calm other p h k.
      v.asked calm other p (ground (arith, lookup-erase hash other pendings, h)) k;
}

pub pending-IsValid :
    {w : Bool}
    → (users : List (Text × DbUser)) (pendings : List (Text × MfaPending)) (hash : Text)
      (new : MfaPending)
    → IsValid w users pendings
    → (text_eq new.kind (codes "verify") ≡ true
        → (u : DbUser) × (lookup new.username users ≡ some u) × (is_some u.totp_secret ≡ true))
    → IsValid w users (insert hash new pendings)
pending-IsValid users pendings hash new v known = record {
  keyed = v.keyed;
  armed = v.armed;
  asked = λ calm other p h k. elim (Bool-cases (text_eq hash other)) [
    | inl e ↦
        let same : new ≡ p = ground (arith, lookup-insert hash other new pendings, h) in
        rw (sym same) (known (rw same k))
    | inr e ↦ v.asked calm other p (ground (arith, lookup-insert hash other new pendings, h)) k
  ];
}

pub user-IsValid :
    {w : Bool}
    → (users : List (Text × DbUser)) (pendings : List (Text × MfaPending)) (new : DbUser)
    → IsValid w users pendings
    → (new.totp_enabled ≡ true → is_some new.totp_secret ≡ true)
    → (w ≡ false
        → (old : DbUser) → lookup new.username users ≡ some old
        → is_some old.totp_secret ≡ true
        → is_some new.totp_secret ≡ true)
    → IsValid w (insert new.username new users) pendings
user-IsValid users pendings new v own kept = record {
  keyed = λ name u h. elim (Bool-cases (text_eq new.username name)) [
    | inl e ↦
        let same : new ≡ u = ground (arith, lookup-insert new.username name new users, h) in
        rw (sym same) e
    | inr e ↦ v.keyed name u (ground (arith, lookup-insert new.username name new users, h))
  ];
  armed = λ name u h. elim (Bool-cases (text_eq new.username name)) [
    | inl e ↦
        let same : new ≡ u = ground (arith, lookup-insert new.username name new users, h) in
        rw (sym same) own
    | inr e ↦ v.armed name u (ground (arith, lookup-insert new.username name new users, h))
  ];
  asked = λ calm hash p h k.
      let (u, found, has) = v.asked calm hash p h k in
      elim (Bool-cases (text_eq new.username p.username)) [
        | inl e ↦ (
          new,
          lookup-insert new.username p.username new users ∙ (rw e refl),
          kept calm u (rw ((text_eq_iff new.username p.username).0 e) found) has,
        )
        | inr e ↦ (u, lookup-insert new.username p.username new users ∙ (rw e found), has)
      ];
}

abbrev pub Holds : Bool → Desk → Type 0
Holds withdrawn d = IsValid withdrawn d.db_users d.pendings

-- A change of a stored user that keeps the name.
pub change-IsValid :
    {w : Bool}
    → (users : List (Text × DbUser)) (pendings : List (Text × MfaPending)) (name : Text)
      (old new : DbUser)
    → IsValid w users pendings
    → lookup name users ≡ some old
    → new.username ≡ old.username
    → (new.totp_enabled ≡ true → is_some new.totp_secret ≡ true)
    → (w ≡ false → is_some old.totp_secret ≡ true → is_some new.totp_secret ≡ true)
    → IsValid w (insert new.username new users) pendings
change-IsValid users pendings name old new v found same own kept =
    let at_name = same ∙ (text_eq_iff old.username name).0 (v.keyed name old found) in
    user-IsValid users pendings new v own λ calm u h.
      let it : old ≡ u = ground (arith, found, ap (λ z. lookup z users) (sym at_name) ∙ h) in
      rw (sym it) (kept calm)
