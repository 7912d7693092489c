-- ===== src/Storage/Quota/Balance.antt =====
-- crates/roci-storage/src/quota.rs: the two byte counters agree, and what a refusal means.
use roci.Base.{arith, false, inl, inr, min, refl, some, true, ℕ, ◌+◌, ◌-◌, ◌<◌, ◌↔◌, ◌≡◌, ◌≤◌, ◌⊎◌}
use roci.Base.Eq.{Text, text_beq_iff, text_eq}
use roci.Base.Map.{
  IsUnique, get, get-insert, get-le-sum_values, get-remove, insert, insert-IsUnique,
  remove-IsUnique, sum_values, sum_values-insert, sum_values-remove,
}
use roci.Base.Result.{Result, err, ok}
use roci.Base.Tests.{Bool-cases, Option-cases, unwrap_or}
use roci.Base.Word.{saturating_add, saturating_add-eq-+, u64_max}
use roci.Storage.Error.{StorageError, quota_exceeded, repository, total}
use roci.Storage.Quota.{
  ByteCounts, QuotaTracker, admit, caps, charge, check_caps, discharge, release, repo_bytes,
  total_bytes, tracks_bytes,
}

-- The registry's counter is the sum of the repositories' counters.
pub record IsBalanced (b : ByteCounts) : Type 0 where
  pub unique : IsUnique b.per_repo
  pub summed : b.total_used ≡ sum_values b.per_repo

-- Below 2^64 bytes a charge keeps the counters in step, and adds to one repository alone.
charge-IsBalanced :
    (r : Text) (n : ℕ) (b : ByteCounts)
    → IsBalanced b
    → b.total_used + n ≤ u64_max
    → IsBalanced (charge r n b)
unfolding charge
charge-IsBalanced r n b h fits =
    let used = unwrap_or (get r b.per_repo) 0 in
    record {
      unique = insert-IsUnique r (saturating_add used n) b.per_repo h.unique;
      summed = omega (
        arith,
        h.summed,
        get-le-sum_values r b.per_repo,
        saturating_add-eq-+ used n (omega (arith, h.summed, get-le-sum_values r b.per_repo)),
        saturating_add-eq-+ b.total_used n fits,
        sum_values-insert r (saturating_add used n) b.per_repo,
      );
    }

-- Returning bytes keeps the counters in step, also where more is returned than is held.
pub discharge-IsBalanced :
    (r : Text) (n used : ℕ) (b : ByteCounts)
    → IsBalanced b
    → get r b.per_repo ≡ some used
    → IsBalanced (discharge r n used b)
unfolding discharge
discharge-IsBalanced r n used b h held =
    let left = used - min n used in
    record {
      unique = ground (
        arith,
        insert-IsUnique r left b.per_repo h.unique,
        remove-IsUnique r b.per_repo h.unique,
      );
      summed = ground (
        arith,
        h.summed,
        get-le-sum_values r b.per_repo,
        sum_values-insert r left b.per_repo,
        sum_values-remove r b.per_repo h.unique,
      );
    }

-- Below 2^64 bytes in all, an admission, accepted or refused, keeps the counters in step.
pub admit-IsBalanced :
    (r : Text) (n : ℕ) (q : QuotaTracker)
    → IsBalanced q.bytes
    → q.bytes.total_used + n ≤ u64_max
    → IsBalanced (admit r n q).0.bytes
unfolding admit
admit-IsBalanced r n q h fits = elim (Bool-cases (tracks_bytes q)) [
  | inr off ↦ rw off h
  | inl on ↦
      rw on
        (elim (check_caps (caps r q) n)
          as (λ c.
            IsBalanced
              (elim c as (λ _. QuotaTracker × Result StorageError (Unit {0})) [
                | ok _ ↦ (record q { bytes = charge r n q.bytes }, ok tt)
                | err e ↦ (q, err e)
              ]).0.bytes) [ ok _ ↦ charge-IsBalanced r n q.bytes h fits | err e ↦ h ])
]

-- Releasing bytes keeps the registry's counter equal to the sum of the repositories' counters, also
-- where more is returned than is held.
pub release-IsBalanced :
    (r : Text) (n : ℕ) (q : QuotaTracker) → IsBalanced q.bytes → IsBalanced (release r n q).bytes
unfolding release
release-IsBalanced r n q h = elim (Option-cases (get r q.bytes.per_repo)) [
  | inl absent ↦ ground (arith, h)
  | inr (used, held) ↦ ground (arith, h, discharge-IsBalanced r n used q.bytes h held)
]

-- An accepted admission charges, or the tracker counts nothing.
pub admit-eq-ok :
    (r : Text) (n : ℕ) (q : QuotaTracker)
    → (admit r n q).1 ≡ ok tt
    → ((tracks_bytes q ≡ false) × ((admit r n q).0 ≡ q))
      ⊎ ((tracks_bytes q ≡ true) × ((admit r n q).0 ≡ record q { bytes = charge r n q.bytes }))
unfolding admit
admit-eq-ok r n q h = ground arith

get-charge :
    (r : Text) (n : ℕ) (b : ByteCounts)
    → IsBalanced b
    → b.total_used + n ≤ u64_max
    → get r (charge r n b).per_repo ≡ some (unwrap_or (get r b.per_repo) 0 + n)
unfolding charge
get-charge r n b h fits =
    let used = unwrap_or (get r b.per_repo) 0 in
    ground (
      arith,
      get-insert r r (saturating_add used n) b.per_repo,
      text_beq_iff r r,
      get-le-sum_values r b.per_repo,
      h.summed,
      saturating_add-eq-+ used n,
    )

discharge-charge :
    (r s : Text) (n : ℕ) (b : ByteCounts)
    → IsBalanced b
    → b.total_used + n ≤ u64_max
    → ((discharge r n (unwrap_or (get r b.per_repo) 0 + n) (charge r n b)).total_used
        ≡ b.total_used)
      × (unwrap_or
            (get s (discharge r n (unwrap_or (get r b.per_repo) 0 + n) (charge r n b)).per_repo)
            0
          ≡ unwrap_or (get s b.per_repo) 0)
unfolding charge discharge
discharge-charge r s n b h fits =
    let used = unwrap_or (get r b.per_repo) 0 in
    let left = used + n - min n (used + n) in
    let charged = insert r (saturating_add used n) b.per_repo in
    (
      ground (arith, saturating_add-eq-+ b.total_used n fits),
      ground (
        arith,
        get-insert r s left charged,
        get-remove r s charged,
        get-insert r s (saturating_add used n) b.per_repo,
        text_beq_iff r s,
      ),
    )

release-charge :
    (r : Text) (n : ℕ) (q : QuotaTracker)
    → IsBalanced q.bytes
    → q.bytes.total_used + n ≤ u64_max
    → tracks_bytes q ≡ true
    → release r n (record q { bytes = charge r n q.bytes }) ≡ record q {
      bytes = discharge r n (unwrap_or (get r q.bytes.per_repo) 0 + n) (charge r n q.bytes);
    }
unfolding release tracks_bytes
release-charge r n q h fits on = ground (arith, get-charge r n q.bytes h fits)

release-untracked :
    (r : Text) (n : ℕ) (q : QuotaTracker) → tracks_bytes q ≡ false → release r n q ≡ q
unfolding release
release-untracked r n q off = rw off

-- A release right after the admission that it undoes restores what every repository holds, and
-- the total, if the counters were in step and stay below 2^64.
pub release-admit :
    (r : Text) (n : ℕ) (q : QuotaTracker)
    → IsBalanced q.bytes
    → q.bytes.total_used + n ≤ u64_max
    → (admit r n q).1 ≡ ok tt
    → (total_bytes (release r n (admit r n q).0) ≡ total_bytes q)
      × ((s : Text) → repo_bytes s (release r n (admit r n q).0) ≡ repo_bytes s q)
unfolding total_bytes repo_bytes
release-admit r n q h fits accepted = elim (admit-eq-ok r n q accepted) [
  | inl (off, same) ↦ rw (same, release-untracked r n q off) (refl, λ s. refl)
  | inr (on, charged) ↦
      rw (charged, release-charge r n q h fits on)
        ((discharge-charge r r n q.bytes h fits).0, λ s. (discharge-charge r s n q.bytes h fits).1)
]

-- Both caps leave room for `n` more bytes.
abbrev pub HasRoom : Text → ℕ → QuotaTracker → Type 0
HasRoom r n q =
    (0 < q.limits.max_repo_bytes → repo_bytes r q + n ≤ q.limits.max_repo_bytes)
    × (0 < q.limits.max_total_bytes → total_bytes q + n ≤ q.limits.max_total_bytes)

-- Below 2^64 bytes, an admission succeeds exactly when both caps leave room.
pub admit_iff :
    (r : Text) (n : ℕ) (q : QuotaTracker)
    → total_bytes q + n ≤ u64_max
    → repo_bytes r q + n ≤ u64_max
    → ((admit r n q).1 ≡ ok tt) ↔ HasRoom r n q
unfolding admit tracks_bytes check_caps caps repo_bytes total_bytes
admit_iff r n q fits fits_repo = ground (
  arith,
  saturating_add-eq-+ q.bytes.total_used n fits,
  saturating_add-eq-+ (unwrap_or (get r q.bytes.per_repo) 0) n fits_repo,
)

-- A refused admission leaves the tracker as it was, and its error names a cap that is set and that
-- the counter, added with saturation, would pass: the repository's, or else the registry's.
pub admit-eq-err :
    (r : Text) (n : ℕ) (q : QuotaTracker) (e : StorageError)
    → (admit r n q).1 ≡ err e
    → ((admit r n q).0 ≡ q)
      × (((0 < q.limits.max_repo_bytes)
            × (q.limits.max_repo_bytes < saturating_add (repo_bytes r q) n)
            × (e ≡ quota_exceeded repository q.limits.max_repo_bytes n))
          ⊎ ((0 < q.limits.max_total_bytes)
              × (q.limits.max_total_bytes < saturating_add (total_bytes q) n)
              × (0 < q.limits.max_repo_bytes
                  → saturating_add (repo_bytes r q) n ≤ q.limits.max_repo_bytes)
              × (e ≡ quota_exceeded total q.limits.max_total_bytes n)))
unfolding admit tracks_bytes check_caps caps repo_bytes total_bytes
admit-eq-err r n q e h = ground arith
