-- ===== src/Storage/Pages/Referrers.antt =====
-- crates/roci-storage/src/metadata/log.rs, `SubjectReferrers`: the index by type agrees with the entries,
-- so that a page of one type neither misses a referrer nor looks up one that is not there.
use roci.Base.{
  Bool, List, Option, [], ap, arith, false, inl, inr, none, not, refl, some, sym, true, ◌&&◌, ◌||◌,
  ◌∙◌, ◌∷◌, ◌≡◌,
}
use roci.Base.Eq.{Text, eq_iff, nat_eq, text_eq, ◌==◌}
use roci.Base.Lists.{contains, contains-set_insert, is_empty, retain, set_insert}
use roci.Base.Map.{Map, get, get-insert, get-remove, insert, remove}
use roci.Base.Tests.{Bool-cases, Option-cases, if◌then◌else◌, unwrap_or}
use roci.Storage.Metadata.{SubjectReferrers, insert_typed, remove_typed}

abbrev pub has_type : Text → Option (Option Text × Text) → Bool
has_type t none = false
has_type t (some (none, bytes)) = false
has_type t (some (some u, bytes)) = u == t

abbrev pub typed : Text → Map Text (List Text) → List Text
typed t m = unwrap_or (get t m) []

abbrev pub IsIndexed : SubjectReferrers → Type 0
IsIndexed self =
    (t d : Text) → contains (typed t self.by_type) d ≡ has_type t (get d self.by_digest)

contains-retain :
    (r d : Text) (ds : List Text)
    → contains (retain (λ x. not (x == r)) ds) d ≡ (not (r == d) && contains ds d)
contains-retain r d [] = ground arith
contains-retain r d (x ∷ ds) =
    ground (arith, contains-retain r d ds, eq_iff x r, eq_iff x d, eq_iff r d)

none_of_empty : (ds : List Text) (d : Text) → is_empty ds ≡ true → contains ds d ≡ false
none_of_empty [] d h = refl
none_of_empty (x ∷ ds) d h = cc

-- What stands under a type when the sets under one type are dropped or written.
typed-remove :
    (u t : Text) (m : Map Text (List Text))
    → typed t (remove u m) ≡ (if u == t then [] else typed t m)
typed-remove u t m = rw (get-remove u t m) (ground arith)

typed-insert :
    (u t : Text) (ds : List Text) (m : Map Text (List Text))
    → typed t (insert u ds m) ≡ (if u == t then ds else typed t m)
typed-insert u t ds m = rw (get-insert u t ds m) (ground arith)

typed_at : (u t : Text) (m : Map Text (List Text)) → (u == t) ≡ true → typed t m ≡ typed u m
typed_at u t m e = ap (λ k. typed k m) (sym ((eq_iff u t).0 e))

pub typed-remove_typed :
    (u r t d : Text) (m : Map Text (List Text))
    → contains (typed t (remove_typed u r m)) d ≡ (not (u == t && r == d) && contains (typed t m) d)
unfolding remove_typed
typed-remove_typed u r t d m = elim (Option-cases (get u m)) [
  | inl absent ↦ elim (Bool-cases (u == t)) [
    | inl e ↦
        let nothing : typed t m ≡ [] = typed_at u t m e ∙ rw absent refl in
        rw (absent, remove_typed, e, nothing) (ground arith)
    | inr ne ↦ rw (absent, remove_typed, ne) refl
  ]
  | inr (ds, here) ↦
      let kept = contains-retain r d ds in
      let at_type : (u == t) ≡ true → typed t m ≡ ds = (λ e. typed_at u t m e ∙ rw here refl) in
      elim (Bool-cases (is_empty (retain (λ x. not (x == r)) ds))) [
        | inl bare ↦ elim (Bool-cases (u == t)) [
          | inl e ↦
              rw (here, remove_typed, bare, typed-remove u t m, e, at_type e)
                (sym (none_of_empty _ d bare) ∙ kept)
          | inr ne ↦ rw (here, remove_typed, bare, typed-remove u t m, ne) refl
        ]
        | inr left ↦ elim (Bool-cases (u == t)) [
          | inl e ↦
              rw
                (
                  here,
                  remove_typed,
                  left,
                  typed-insert u t (retain (λ x. not (x == r)) ds) m,
                  e,
                  at_type e,
                )
                kept
          | inr ne ↦
              rw (here, remove_typed, left, typed-insert u t (retain (λ x. not (x == r)) ds) m, ne)
                refl
        ]
      ]
]

pub typed-insert_typed :
    (u r t d : Text) (m : Map Text (List Text))
    → contains (typed t (insert_typed (some u) r m)) d
      ≡ ((u == t && r == d) || contains (typed t m) d)
unfolding insert_typed
typed-insert_typed u r t d m = elim (Bool-cases (u == t)) [
  | inl e ↦
      rw (typed-insert u t (set_insert r (typed u m)) m, e, typed_at u t m e)
        (contains-set_insert r d (typed u m))
  | inr ne ↦ rw (typed-insert u t (set_insert r (typed u m)) m, ne) refl
]
