-- ===== src/AuthCheck/Verdict.antt =====
-- src/auth_check.cc: what a credential must be for the check to pass.
use xrdhover.AuthCheck.{
  Lifetime, left, past, Pem, unreadable, unparsed, certificate, System, AuthCheckResult,
  remaining_seconds, default_x509_proxy_path, is_loose, with_margin, check_lifetime, check_pem,
  check_permissions, check_file, loose_message, check_x509_credentials,
}
use xrdhover.Prelude.Text.{Text, codes}
use xrdhover.Units.{Number}
use xrdhover.Workload.Data.{whole}
use xrdhover.Workload.Fields.{ValidationIssue, less}
use xrdhover.Prelude.{
  ℕ, zero, suc, ◌+◌, ◌*◌, ◌/◌, ◌%◌, ◌^◌, ◌≤◌, ◌<◌, ◌≡◌, refl, ap, subst, ◌↔◌, inl, inr, true, false,
  Option, none, some, List, [], ◌∷◌, arith, ltb, if◌then◌else◌, Bool-cases, is_empty,
}

-- A certificate that outlives `required`, which is not negative, by the margin of 300 seconds.
abbrev pub Outlives : Number → Pem → Type 0
Outlives required (certificate (some (left days seconds))) =
    required.mantissa + 300 * 10 ^ required.decimals
    ≤ (days * 86400 + seconds) * 10 ^ required.decimals
Outlives required _ = ⊥

-- Known permissions, with the bits 020 and 002 clear: neither the group nor others may write.
abbrev pub Tight : Option ℕ → Type 0
Tight none = ⊥
Tight (some perms) = ((perms / 16) % 2 ≡ 0) × ((perms / 2) % 2 ≡ 0)

-- The file exists, is a regular file that neither its group nor others may write, and holds a
-- certificate that outlives the duration.
pub record IsUsable (s : System) (required : Number) (path : Text) : Type 0 where
  pub exists : s.exists path ≡ true
  pub regular : s.is_regular_file path ≡ true
  pub permissions : Tight (s.permissions path)
  pub outlives : Outlives required (s.read_pem path)

-- The result says ok exactly when it lists no issue.
abbrev FailsClosed : AuthCheckResult → Type 0
FailsClosed r = (r.ok ≡ true) ↔ (r.issues ≡ [])

-- The result says ok exactly when it lists no issue, and is about the file at the path.
record IsAbout (path : Text) (r : AuthCheckResult) : Type 0 where
  agrees : r.ok ≡ is_empty r.issues
  same_path : r.proxy_path ≡ path

-- The lifetime passes exactly when nothing was listed before and the certificate is long enough.
Lasts : Number → Number → Type 0
Lasts required remaining =
    (less (whole 0) remaining ≡ true) × (less remaining (with_margin required) ≡ false)

check_lifetime-loose :
    (required : Number) (path : Text) (i : ValidationIssue) (is : List ValidationIssue)
    (remaining : Number)
    → let r = check_lifetime required path true (i ∷ is) remaining in
      (r.ok ≡ false) × IsAbout path r
unfolding check_lifetime
check_lifetime-loose required path i is remaining = elim (Bool-cases (less (whole 0) remaining)) [
  | inr q ↦ rw q (refl, record { agrees = refl; same_path = refl })
  | inl q ↦ elim (Bool-cases (less remaining (with_margin required))) [
    | inl z ↦ rw (q, z) (refl, record { agrees = refl; same_path = refl })
    | inr z ↦ rw (q, z) (refl, record { agrees = refl; same_path = refl })
  ]
]

check_lifetime-tight :
    (required : Number) (path : Text) (remaining : Number)
    → let r = check_lifetime required path false [] remaining in
      ((r.ok ≡ true) ↔ Lasts required remaining) × IsAbout path r
unfolding check_lifetime Lasts
check_lifetime-tight required path remaining = elim (Bool-cases (less (whole 0) remaining)) [
  | inr q ↦ rw q ((λ h. cc, λ h. cc), record { agrees = refl; same_path = refl })
  | inl q ↦ elim (Bool-cases (less remaining (with_margin required))) [
    | inl z ↦ rw (q, z) ((λ h. cc, λ h. cc), record { agrees = refl; same_path = refl })
    | inr z ↦ rw (q, z) ((λ h. (refl, refl), λ h. refl), record { agrees = refl; same_path = refl })
  ]
]

with_margin-mantissa :
    (required : Number)
    → required.negative ≡ false
    → with_margin required
      ≡ record required { mantissa = required.mantissa + 300 * 10 ^ required.decimals }
unfolding with_margin
with_margin-mantissa required positive = rw positive refl

ten_pow_positive : (n : ℕ) → 0 < 10 ^ n
ten_pow_positive zero = omega arith
ten_pow_positive (suc n) = let ih = ten_pow_positive n in omega (arith, ih)

Lasts-left :
    (required : Number) (days seconds : ℕ)
    → required.negative ≡ false
    → Lasts required (remaining_seconds (some (left days seconds))) ↔ (
        required.mantissa + 300 * 10 ^ required.decimals
        ≤ (days * 86400 + seconds) * 10 ^ required.decimals)
unfolding Lasts remaining_seconds less
Lasts-left required days seconds positive =
    let pos = ten_pow_positive required.decimals in
    rw (with_margin-mantissa required positive, positive)
      (
        λ h. ground arith,
        λ h. elim (Bool-cases (ltb 0 (days * 86400 + seconds))) [
          | inl q ↦ (ground arith, ground arith)
          | inr q ↦
              let none_left : days * 86400 + seconds ≡ 0 = ground arith in
              let short =
                subst
                  (λ x.
                    required.mantissa + 300 * 10 ^ required.decimals ≤ x * 10 ^ required.decimals)
                  none_left h in
              absurd (omega (arith, pos, short))
        ],
      )

-- Nothing that is left counts as expired.
Lasts-none : (required : Number) → Lasts required (remaining_seconds none) → ⊥
unfolding Lasts remaining_seconds less
Lasts-none required h = cc

Lasts-past :
    (required : Number) (days seconds : ℕ)
    → Lasts required (remaining_seconds (some (past days seconds)))
    → ⊥
unfolding Lasts remaining_seconds less
Lasts-past required days seconds h = cc

Lasts-Outlives :
    (required : Number) (not_after : Option Lifetime)
    → required.negative ≡ false
    → Lasts required (remaining_seconds not_after) ↔ Outlives required (certificate not_after)
Lasts-Outlives required none positive = (λ h. absurd (Lasts-none required h), λ o. absurd o)
Lasts-Outlives required (some (past days seconds)) positive =
    (λ h. absurd (Lasts-past required days seconds h), λ o. absurd o)
Lasts-Outlives required (some (left days seconds)) positive =
    Lasts-left required days seconds positive

check_pem-loose :
    (required : Number) (path : Text) (i : ValidationIssue) (is : List ValidationIssue) (pem : Pem)
    → let r = check_pem required path true (i ∷ is) pem in (r.ok ≡ false) × IsAbout path r
check_pem-loose required path i is unreadable = (refl, record { agrees = refl; same_path = refl })
check_pem-loose required path i is unparsed = (refl, record { agrees = refl; same_path = refl })
check_pem-loose required path i is (certificate not_after) =
    check_lifetime-loose required path i is (remaining_seconds not_after)

check_pem-tight :
    (required : Number) (path : Text) (pem : Pem)
    → required.negative ≡ false
    → let r = check_pem required path false [] pem in
      ((r.ok ≡ true) ↔ Outlives required pem) × IsAbout path r
check_pem-tight required path unreadable positive =
    ((λ h. cc, λ o. absurd o), record { agrees = refl; same_path = refl })
check_pem-tight required path unparsed positive =
    ((λ h. cc, λ o. absurd o), record { agrees = refl; same_path = refl })
check_pem-tight required path (certificate not_after) positive =
    let (verdict, about) = check_lifetime-tight required path (remaining_seconds not_after) in
    let lasts = Lasts-Outlives required not_after positive in
    ((λ h. lasts.0 (verdict.0 h), λ o. verdict.1 (lasts.1 o)), about)

is_loose-Tight : (perms : ℕ) → is_loose perms ≡ true → Tight (some perms) → ⊥
unfolding is_loose
is_loose-Tight perms e t = ground (arith, t.0, t.1)

not_loose-Tight : (perms : ℕ) → is_loose perms ≡ false → Tight (some perms)
unfolding is_loose
not_loose-Tight perms e = (ground arith, ground arith)

abbrev loose_entry : ValidationIssue
loose_entry = record { field = codes "auth.proxy"; message = some loose_message }

check_permissions-verdict :
    (required : Number) (path : Text) (perms : Option ℕ) (pem : Pem)
    → required.negative ≡ false
    → let r = check_permissions required path perms pem in
      ((r.ok ≡ true) ↔ (Tight perms × Outlives required pem)) × IsAbout path r
unfolding check_permissions
check_permissions-verdict required path none pem positive =
    ((λ h. cc, λ o. absurd o.0), record { agrees = refl; same_path = refl })
check_permissions-verdict required path (some perms) pem positive =
    elim (Bool-cases (is_loose perms)) [
      | inl q ↦
          let (refused, about) = check_pem-loose required path loose_entry [] pem in
          rw q ((λ h. absurd (cc (h, refused)), λ o. absurd (is_loose-Tight perms q o.0)), about)
      | inr q ↦
          let (verdict, about) = check_pem-tight required path pem positive in
          rw q ((λ h. (not_loose-Tight perms q, verdict.0 h), λ o. verdict.1 o.1), about)
    ]

is_empty_iff : (r : AuthCheckResult) → r.ok ≡ is_empty r.issues → (r.ok ≡ true) ↔ (r.issues ≡ [])
is_empty_iff r e = (
  λ h. empty r.issues (ground (arith, e, h)),
  λ h. ground (arith, e, ap (λ (i : List ValidationIssue). is_empty i) h),
)
  where
    empty : (i : List ValidationIssue) → is_empty i ≡ true → i ≡ []
    empty [] h = refl
    empty (x ∷ i) h = cc

-- What the check says of the file at `path`.
abbrev Verdict : System → Number → Text → AuthCheckResult → Type 0
Verdict s required path r = ((r.ok ≡ true) ↔ IsUsable s required path) × IsAbout path r

check_file-Verdict :
    (s : System) (required : Number) (path : Text)
    → required.negative ≡ false
    → Verdict s required path (check_file s required path)
unfolding check_file
check_file-Verdict s required path positive = elim (Bool-cases (s.exists path)) [
  | inr q ↦
      rw q ((λ h. cc, λ u. absurd (cc (u.exists, q))), record { agrees = refl; same_path = refl })
  | inl q ↦ elim (Bool-cases (s.is_regular_file path)) [
    | inr z ↦
        rw (q, z)
          ((λ h. cc, λ u. absurd (cc (u.regular, z))), record { agrees = refl; same_path = refl })
    | inl z ↦
        let (verdict, about) =
          check_permissions-verdict required path (s.permissions path) (s.read_pem path) positive in
        let usable : Tight (s.permissions path) × Outlives required (s.read_pem path)
            → IsUsable s required path =
          λ o. record { exists = q; regular = z; permissions = o.0; outlives = o.1 } in
        rw (q, z) ((λ h. usable (verdict.0 h), λ u. verdict.1 (u.permissions, u.outlives)), about)
  ]
]

-- For a duration that is not negative, the check passes exactly when the credential is usable: the
-- file exists, is a regular file, is writable by neither group nor others, and holds a certificate
-- that lasts 300 seconds longer than the duration. It lists an issue exactly when it does not pass.
pub check_x509_credentials-IsUsable :
    (s : System) (required : Number) (proxy_path_override : Text)
    → required.negative ≡ false
    → let r = check_x509_credentials s required proxy_path_override in
      ((r.ok ≡ true) ↔ IsUsable s required r.proxy_path) × ((r.ok ≡ true) ↔ (r.issues ≡ []))
unfolding check_x509_credentials
check_x509_credentials-IsUsable s required proxy_path_override positive =
    let path =
      if is_empty proxy_path_override then default_x509_proxy_path s else proxy_path_override in
    let (verdict, about) = check_file-Verdict s required path positive in
    (rw about.same_path verdict, is_empty_iff (check_file s required path) about.agrees)
