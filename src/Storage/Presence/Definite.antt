-- ===== src/Storage/Presence/Definite.antt =====
-- crates/roci-storage/src/filter.rs: an answer of absence is definite.
use mathlib.Core.Path.{subst}
use roci.Base.{
  Bool, List, Option, [], ap, arith, inl, inr, none, refl, some, suc, sym, true, ℕ, ◌&&◌, ◌-◌, ◌<◌,
  ◌∙◌, ◌∷◌, ◌≡◌,
}
use roci.Base.Eq.{Text, eq_iff, nat_eq, text_eq, ◌==◌}
use roci.Base.Lists.{contains}
use roci.Base.Tests.{
  Bool-cases, Option-cases, and-eq-true, and_then, if◌then◌else◌, is_none_or, lt→ltb, nat_beq,
}
use roci.Storage.Presence.{
  BlobPresenceFilter, Cuckoo, insert_presence, maybe_present, new_presence, presence_key,
  remove_presence,
}

pub data Change : Type 0 where
  entered left_store : (repo digest : Text) → Change

unfoldable pub erase : Text → List Text → List Text
erase k [] = []
erase k (j ∷ ks) = let rest = erase k ks in if j == k then ks else j ∷ rest

-- The keys that have entered and not left, as often as that.
unfoldable pub live_after : List Change → List Text → List Text
live_after [] live = live
live_after (entered repo digest ∷ changes) live =
    live_after changes (presence_key repo digest ∷ live)
live_after (left_store repo digest ∷ changes) live =
    live_after changes (erase (presence_key repo digest) live)

-- Whatever leaves has entered before.
unfoldable pub are_paired : List Change → List Text → Bool
are_paired [] live = true
are_paired (entered repo digest ∷ changes) live =
    are_paired changes (presence_key repo digest ∷ live)
are_paired (left_store repo digest ∷ changes) live =
    contains live (presence_key repo digest)
    && are_paired changes (erase (presence_key repo digest) live)

module _ (cuckoo : Cuckoo) where
  open cuckoo use {
    CuckooFilter, add, delete, class_of, stored, stored-new_filter, stored-add, stored-delete,
    holds_item-stored,
  }

  unfoldable pub change_all : List Change → BlobPresenceFilter cuckoo → BlobPresenceFilter cuckoo
  change_all [] self = self
  change_all (entered repo digest ∷ changes) self =
      change_all changes (insert_presence cuckoo repo digest self)
  change_all (left_store repo digest ∷ changes) self =
      change_all changes (remove_presence cuckoo repo digest self)

  unfoldable of_class : ℕ → List Text → ℕ
  of_class c [] = 0
  of_class c (k ∷ ks) = if nat_beq (class_of k) c then suc (of_class c ks) else of_class c ks

  of_class_pos : (k : Text) (ks : List Text) → contains ks k ≡ true → 0 < of_class (class_of k) ks
  unfolding of_class
  of_class_pos k [] h = absurd (cc)
  of_class_pos k (j ∷ ks) h = elim (Bool-cases (j == k)) [
    | inl e ↦ rw ((eq_iff j k).0 e) (ground arith)
    | inr ne ↦ ground (arith, of_class_pos k ks (rw ne at h))
  ]

  of_class-erase :
      (c : ℕ) (k : Text) (ks : List Text)
      → contains ks k ≡ true
      → of_class c (erase k ks)
        ≡ (if nat_beq (class_of k) c then of_class c ks - 1 else of_class c ks)
  unfolding of_class erase
  of_class-erase c k [] h = cc
  of_class-erase c k (j ∷ ks) h = elim (Bool-cases (j == k)) [
    | inl e ↦ rw (e, (eq_iff j k).0 e) (ground arith)
    | inr ne ↦
        let there : contains ks k ≡ true = (rw ne at h) in
        rw ne (ground (arith, of_class-erase c k ks there, of_class_pos k ks there))
  ]

  -- The filter stores, class by class, what is live.
  abbrev Tracks : Option CuckooFilter → List Text → Type 0
  Tracks none live = Unit {0}
  Tracks (some f) live = (c : ℕ) → stored f c ≡ of_class c live

  counted :
      (k : Text) (live : List Text) (f : CuckooFilter) (c : ℕ)
      → stored f c ≡ of_class c live
      → (if nat_beq (class_of k) c then suc (stored f c) else stored f c) ≡ of_class c (k ∷ live)
  unfolding of_class
  counted k live f c h = rw h refl

  added-Tracks :
      (k : Text) (o : Option CuckooFilter) (live : List Text)
      → Tracks o live
      → Tracks (and_then o (add k)) (k ∷ live)
  added-Tracks k none live h = tt
  added-Tracks k (some f) live h = elim (Option-cases (add k f)) [
    | inl over ↦ subst (λ o. Tracks o (k ∷ live)) (sym over) tt
    | inr (f', fine) ↦
        subst (λ o. Tracks o (k ∷ live)) (sym fine)
          (λ c. stored-add k f f' c fine ∙ counted k live f c (h c))
  ]

  deleted-Tracks :
      (k : Text) (o : Option CuckooFilter) (live : List Text)
      → contains live k ≡ true
      → Tracks o live
      → Tracks (and_then o (λ f. some (delete k f))) (erase k live)
  deleted-Tracks k none live there h = tt
  deleted-Tracks k (some f) live there h = λ c.
      stored-delete k f c
      ∙ ap (λ n. if nat_beq (class_of k) c then n - 1 else n) (h c)
      ∙ sym (of_class-erase c k live there)

  change_all-Tracks :
      (changes : List Change) (self : BlobPresenceFilter cuckoo) (live : List Text)
      → are_paired changes live ≡ true
      → Tracks self.filter live
      → Tracks (change_all changes self).filter (live_after changes live)
  unfolding change_all live_after are_paired insert_presence remove_presence
  change_all-Tracks [] self live paired h = h
  change_all-Tracks (entered repo digest ∷ changes) self live paired h =
      change_all-Tracks changes (insert_presence cuckoo repo digest self)
        (presence_key repo digest ∷ live) paired
        (added-Tracks (presence_key repo digest) self.filter live h)
  change_all-Tracks (left_store repo digest ∷ changes) self live paired h =
      let (there, later) = and-eq-true _ _ paired in
      change_all-Tracks changes (remove_presence cuckoo repo digest self)
        (erase (presence_key repo digest) live) later
        (deleted-Tracks (presence_key repo digest) self.filter live there h)

  held :
      (k : Text) (o : Option CuckooFilter) (live : List Text)
      → Tracks o live
      → contains live k ≡ true
      → is_none_or o (cuckoo.holds_item k) ≡ true
  held k none live h there = refl
  held k (some f) live h there =
      holds_item-stored k f ∙ lt→ltb _ _ (omega (arith, h (class_of k), of_class_pos k live there))

  empty-Tracks : Tracks (new_presence cuckoo).filter []
  unfolding new_presence of_class
  empty-Tracks c = stored-new_filter c

  -- After any blobs have entered and left a new filter, where whatever leaves had entered before, a blob
  -- that has entered more often than it has left is never said to be absent, also if the filter has
  -- overflowed.
  pub maybe_present-change_all :
      (changes : List Change) (repo digest : Text)
      → are_paired changes [] ≡ true
      → contains (live_after changes []) (presence_key repo digest) ≡ true
      → maybe_present cuckoo repo digest (change_all changes (new_presence cuckoo)) ≡ true
  unfolding maybe_present
  maybe_present-change_all changes repo digest paired there =
      held (presence_key repo digest) (change_all changes (new_presence cuckoo)).filter
        (live_after changes [])
        (change_all-Tracks changes (new_presence cuckoo) [] paired empty-Tracks) there
