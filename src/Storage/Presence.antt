-- ===== src/Storage/Presence.antt =====
-- crates/roci-storage/src/filter.rs: `BlobPresenceFilter`. The cuckoo filter belongs to another package:
-- its calls are the fields of `Cuckoo`, with what they do to the number of stored items of a class; two
-- texts of one class, a fingerprint with its two buckets, are the same to the filter.
pub mod Definite
mod Tests
use roci.Base.{Bool, Option, some, suc, ℕ, ◌++◌, ◌-◌, ◌∷◌, ◌≡◌}
use roci.Base.Eq.{Text, text_eq}
use roci.Base.Tests.{and_then, if◌then◌else◌, is_none_or, ltb, nat_beq}

pub record Cuckoo : Type 1 where
  pub CuckooFilter : Type 0
  pub new_filter : CuckooFilter
  pub add : Text → CuckooFilter → Option CuckooFilter
  pub delete : Text → CuckooFilter → CuckooFilter
  pub holds_item : Text → CuckooFilter → Bool
  pub class_of : Text → ℕ
  pub stored : CuckooFilter → ℕ → ℕ
  pub stored-new_filter : (c : ℕ) → stored new_filter c ≡ 0
  pub stored-add :
      (k : Text) (f f' : CuckooFilter) (c : ℕ)
      → add k f ≡ some f'
      → stored f' c ≡ (if nat_beq (class_of k) c then suc (stored f c) else stored f c)
  pub stored-delete :
      (k : Text) (f : CuckooFilter) (c : ℕ)
      → stored (delete k f) c ≡ (if nat_beq (class_of k) c then stored f c - 1 else stored f c)
  pub holds_item-stored :
      (k : Text) (f : CuckooFilter) → holds_item k f ≡ ltb 0 (stored f (class_of k))

unfoldable pub presence_key : Text → Text → Text
presence_key repo digest = repo ++ 0 ∷ digest

module _ (cuckoo : Cuckoo) where
  open cuckoo use {CuckooFilter, new_filter, add, delete, holds_item}

  -- None once an overflow has switched the filter off.
  pub record BlobPresenceFilter : Type 0 where
    pub filter : Option CuckooFilter

  unfoldable pub new_presence : BlobPresenceFilter
  new_presence = record { filter = some new_filter }

  unfoldable pub insert_presence : Text → Text → BlobPresenceFilter → BlobPresenceFilter
  insert_presence repo digest self = record {
    filter = and_then self.filter (add (presence_key repo digest));
  }

  unfoldable pub remove_presence : Text → Text → BlobPresenceFilter → BlobPresenceFilter
  remove_presence repo digest self = record {
    filter = and_then self.filter (λ f. some (delete (presence_key repo digest) f));
  }

  unfoldable pub maybe_present : Text → Text → BlobPresenceFilter → Bool
  maybe_present repo digest self = is_none_or self.filter (holds_item (presence_key repo digest))
