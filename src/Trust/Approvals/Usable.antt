-- ===== src/Trust/Approvals/Usable.antt =====
-- What makes a request of src/trust/approvals.rs live, and what makes it usable for a call, said
-- apart from the tests of the code, and that the tests decide it.
use local_agent.Base.{
  ℕ, ◌≤◌, ◌<◌, String, ◌≡◌, ◌≢◌, ◌↔◌, ◌⊎◌, inl, inr, refl, ap, true, false, Option, none, some,
  arith, is_text, eq_iff, eq_refl, unwrap_or, Option-cases, Bool-cases, str_eq,
}
use local_agent.Trust.Approvals.{
  ApprovalRequest, approved, denied, Clock, is_exhausted, is_expired, key_version_matches, same_key,
  is_approved, is_denied, keeps, usable,
}

-- No expiry that parses lies before now.
abbrev pub InTime : Clock → ApprovalRequest → Type 0
InTime clock req =
    (text : String) (ts : ℕ)
    → req.expires_at ≡ some text
    → clock.parse text ≡ some ts
    → clock.now ≤ ts

-- Where there is a limit, fewer uses than that are counted.
abbrev pub UsesLeft : ApprovalRequest → Type 0
UsesLeft req = (max : ℕ) → req.max_uses ≡ some max → unwrap_or req.uses 0 < max

-- An entry without a version counts as one of version `v1`, and no other version fits.
abbrev pub VersionFits : Option String → String → Type 0
VersionFits entry version =
    ((version ≡ "v1") × ((entry ≡ none) ⊎ (entry ≡ some "v1")))
    ⊎ ((version ≡ "v2") × (entry ≡ some "v2"))

-- A request is usable where it is approved under this key and version, its time has not passed, and
-- uses are left.
pub record IsUsable (clock : Clock) (key version : String) (req : ApprovalRequest) : Type 0 where
  pub key_fits : req.approval_key ≡ some key
  pub version_fits : VersionFits req.approval_key_version version
  pub status_fits : req.status ≡ approved
  pub in_time : InTime clock req
  pub uses_left : UsesLeft req

-- A request is live where it is not denied, its time has not passed, and uses are left.
pub record IsLive (clock : Clock) (req : ApprovalRequest) : Type 0 where
  pub not_denied : req.status ≢ denied
  pub in_time : InTime clock req
  pub uses_left : UsesLeft req

is_text-eq : (o : Option String) (s : String) → is_text o s ≡ true → o ≡ some s
is_text-eq none s h = cc
is_text-eq (some t) s h = ap some ((eq_iff t s).0 h)

expired-false :
    (clock : Clock) (req : ApprovalRequest) → is_expired clock req ≡ false → InTime clock req
unfolding is_expired
expired-false clock req h text ts e k = ground arith

InTime-expired :
    (clock : Clock) (req : ApprovalRequest) → InTime clock req → is_expired clock req ≡ false
unfolding is_expired
InTime-expired clock req h = elim (Option-cases req.expires_at) [
  | inl e ↦ rw e refl
  | inr (text, e) ↦ elim (Option-cases (clock.parse text)) [
    | inl k ↦ ground arith
    | inr (ts, k) ↦ ground (arith, h text ts e k)
  ]
]

exhausted-false : (req : ApprovalRequest) → is_exhausted req ≡ false → UsesLeft req
unfolding is_exhausted
exhausted-false req h max e = ground arith

UsesLeft-exhausted : (req : ApprovalRequest) → UsesLeft req → is_exhausted req ≡ false
unfolding is_exhausted
UsesLeft-exhausted req h = elim (Option-cases req.max_uses) [
  | inl e ↦ rw e refl
  | inr (max, e) ↦ ground (arith, h max e)
]

key_version-VersionFits :
    (entry : Option String) (version : String)
    → key_version_matches entry version ≡ true
    → VersionFits entry version
unfolding key_version_matches
key_version-VersionFits none version h = inl ((eq_iff version "v1").0 (ground arith), inl refl)
key_version-VersionFits (some v) version h = elim (Bool-cases (str_eq version "v1")) [
  | inl one ↦ inl ((eq_iff version "v1").0 one, inr (ap some ((eq_iff v "v1").0 (ground arith))))
  | inr other ↦
      inr ((eq_iff version "v2").0 (ground arith), ap some ((eq_iff v "v2").0 (ground arith)))
]

VersionFits-key_version :
    (entry : Option String) (version : String)
    → VersionFits entry version
    → key_version_matches entry version ≡ true
unfolding key_version_matches
VersionFits-key_version entry version (inl (v, inl e)) = rw (v, e) refl
VersionFits-key_version entry version (inl (v, inr e)) = rw (v, e) refl
VersionFits-key_version entry version (inr (v, e)) = rw (v, e) refl

usable_parts :
    (clock : Clock) (key version : String) (req : ApprovalRequest)
    → usable clock key version req ≡ true
    → (is_text req.approval_key key ≡ true)
      × (key_version_matches req.approval_key_version version ≡ true)
      × (is_approved req ≡ true)
      × (is_expired clock req ≡ false)
      × (is_exhausted req ≡ false)
unfolding usable same_key
usable_parts clock key version req h = ground arith

is_approved-eq : (req : ApprovalRequest) → is_approved req ≡ true → req.status ≡ approved
is_approved-eq req h = ground arith

pub usable-IsUsable :
    (clock : Clock) (key version : String) (req : ApprovalRequest)
    → usable clock key version req ≡ true
    → IsUsable clock key version req
usable-IsUsable clock key version req h =
    let (k, v, a, e, x) = usable_parts clock key version req h in
    record {
      key_fits = is_text-eq req.approval_key key k;
      version_fits = key_version-VersionFits req.approval_key_version version v;
      status_fits = is_approved-eq req a;
      in_time = expired-false clock req e;
      uses_left = exhausted-false req x;
    }

usable_lem :
    (clock : Clock) (key version : String) (req : ApprovalRequest)
    → req.approval_key ≡ some key
    → key_version_matches req.approval_key_version version ≡ true
    → req.status ≡ approved
    → is_expired clock req ≡ false
    → is_exhausted req ≡ false
    → usable clock key version req ≡ true
unfolding usable same_key
usable_lem clock key version req k v a e x = ground (arith, eq_refl key)

pub IsUsable-usable :
    (clock : Clock) (key version : String) (req : ApprovalRequest)
    → IsUsable clock key version req
    → usable clock key version req ≡ true
IsUsable-usable clock key version req u =
    usable_lem clock key version req u.key_fits
      (VersionFits-key_version req.approval_key_version version u.version_fits) u.status_fits
      (InTime-expired clock req u.in_time) (UsesLeft-exhausted req u.uses_left)

keeps_parts :
    (clock : Clock) (req : ApprovalRequest)
    → keeps clock req ≡ true
    → (is_denied req ≡ false) × (is_expired clock req ≡ false) × (is_exhausted req ≡ false)
unfolding keeps
keeps_parts clock req h = ground arith

keeps_lem :
    (clock : Clock) (req : ApprovalRequest)
    → is_denied req ≡ false
    → is_expired clock req ≡ false
    → is_exhausted req ≡ false
    → keeps clock req ≡ true
unfolding keeps
keeps_lem clock req n e x = ground arith

is_denied-false : (req : ApprovalRequest) → req.status ≢ denied → is_denied req ≡ false
is_denied-false req n = ground arith

is_denied-denied : (req : ApprovalRequest) → is_denied req ≡ false → req.status ≢ denied
is_denied-denied req h e = cc

-- Pruning keeps the live requests.
pub keeps-IsLive :
    (clock : Clock) (req : ApprovalRequest) → (keeps clock req ≡ true) ↔ IsLive clock req
keeps-IsLive clock req = (
  λ h.
      let (n, e, x) = keeps_parts clock req h in
      record {
        not_denied = is_denied-denied req n;
        in_time = expired-false clock req e;
        uses_left = exhausted-false req x;
      },
  λ l.
      keeps_lem clock req (is_denied-false req l.not_denied) (InTime-expired clock req l.in_time)
        (UsesLeft-exhausted req l.uses_left),
)
