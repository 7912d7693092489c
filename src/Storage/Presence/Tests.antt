-- ===== src/Storage/Presence/Tests.antt =====
-- A run of the presence filter over a list, in which texts of one length are of one class.
use roci.Base.{List, [], ap, arith, refl, some, suc, sym, true, ℕ, ◌-◌, ◌∷◌, ◌≡◌}
use roci.Base.Eq.{codes, text_beq}
use roci.Base.Lists.{length}
use roci.Base.Tests.{if◌then◌else◌, ltb, nat_beq, unwrap_or}
use roci.Storage.Presence.{Cuckoo, maybe_present, new_presence, presence_key}
use roci.Storage.Presence.Definite.{
  Change, are_paired, change_all, entered, erase, left_store, live_after, maybe_present-change_all,
}

unfoldable drop_class : ℕ → List ℕ → List ℕ
drop_class c [] = []
drop_class c (d ∷ ds) = let rest = drop_class c ds in if nat_beq c d then ds else d ∷ rest

unfoldable class_count : List ℕ → ℕ → ℕ
class_count [] c = 0
class_count (d ∷ ds) c = if nat_beq d c then suc (class_count ds c) else class_count ds c

class_count-drop_class :
    (e c : ℕ) (ds : List ℕ)
    → class_count (drop_class e ds) c
      ≡ (if nat_beq e c then class_count ds c - 1 else class_count ds c)
unfolding class_count drop_class
class_count-drop_class e c [] = ground arith
class_count-drop_class e c (d ∷ ds) = ground (arith, class_count-drop_class e c ds)

stored_none : (c : ℕ) → class_count [] c ≡ 0
unfolding class_count
stored_none c = refl

stored_one :
    (n : ℕ) (f f' : List ℕ) (c : ℕ)
    → some (n ∷ f) ≡ some f'
    → class_count f' c ≡ (if nat_beq n c then suc (class_count f c) else class_count f c)
unfolding class_count
stored_one n f f' c e = ap (λ o. class_count (unwrap_or o f) c) (sym e)

abbrev list_cuckoo : Cuckoo
list_cuckoo = record {
  CuckooFilter = List ℕ;
  new_filter = [];
  add = λ k f. some (length k ∷ f);
  delete = λ k f. drop_class (length k) f;
  holds_item = λ k f. ltb 0 (class_count f (length k));
  class_of = λ k. length k;
  stored = class_count;
  stored-new_filter = λ c. stored_none c;
  stored-add = λ k f f' c e. stored_one (length k) f f' c e;
  stored-delete = λ k f c. class_count-drop_class (length k) c f;
  holds_item-stored = λ k f. refl;
}

abbrev moves : List Change
moves =
    entered (codes "r") (codes "a")
    ∷ entered (codes "r") (codes "b")
    ∷ left_store (codes "r") (codes "a")
    ∷ []

maybe_present-change_all_example :
    maybe_present list_cuckoo
      (codes "r")
      (codes "b")
      (change_all list_cuckoo moves (new_presence list_cuckoo))
    ≡ true
unfolding are_paired live_after erase presence_key text_beq
maybe_present-change_all_example =
    maybe_present-change_all list_cuckoo moves (codes "r") (codes "b") refl refl
