-- ===== src/Crdt/Tests.antt =====
-- Runs of the replicated data types (native/sync/include/crdt) at concrete states.
use tightrope.Prelude.{ℕ, ◌≡◌, refl, true, false, ◌||◌, List, [], ◌∷◌, arith}
use tightrope.Prelude.Int.{pos, negsuc}
use tightrope.Prelude.Maps.{lookup, insert, key_eq, nat_ordered, bytes_ordered}
use tightrope.Crdt.Counter.{PnCounter, add, pn_value, pn_merge, merge_counts}
use tightrope.Crdt.Counter.Laws.{IsValid, PnCounter-IsValid, pn_merge-semilattice}
use tightrope.Crdt.Register.{LwwRegister}
use tightrope.Crdt.OrSet.{OrSet, counter_of, tags_of}
use tightrope.Crdt.OrSet
use tightrope.Crdt.OrSet.Tags.{tag_ordered, compare_tag, has}
use tightrope.Crdt.OrSet.Laws.{has_tag, contains-add-remove, contains-merge-remove}
use tightrope.Crdt.OrSet.Freshness.{IsCovered, next_tag_fresh, OrSet-IsCovered}

abbrev left : PnCounter
left = record {
  positive = record { counts = (1, 5) ∷ (2, 3) ∷ [] };
  negative = record { counts = (1, 2) ∷ [] };
}

abbrev right : PnCounter
right = record {
  positive = record { counts = (2, 4) ∷ (3, 1) ∷ [] };
  negative = record { counts = [] };
}

left-IsValid : IsValid left
left-IsValid = record { positive = ((refl, tt), (tt, tt)); negative = (tt, tt) }

right-IsValid : IsValid right
right-IsValid = record { positive = ((refl, tt), (tt, tt)); negative = tt }

merged_value : pn_value (pn_merge left right) ≡ pos 8
unfolding pn_value pn_merge lookup insert key_eq merge_counts
merged_value = refl

PnCounter-IsValid_example : IsValid (add left 7 (negsuc 0))
PnCounter-IsValid_example =
    (PnCounter-IsValid left right 7 (negsuc 0) (pos 0) (pos 0) left-IsValid).0

pn_merge-semilattice_example : pn_merge left right ≡ pn_merge right left
pn_merge-semilattice_example =
    (pn_merge-semilattice left right left left-IsValid right-IsValid left-IsValid).0

abbrev written : ℕ → ℕ → LwwRegister ℕ
written v w = record {
  value = v;
  timestamp = record { wall = w; counter = 0; site_id = 1 };
  site_id = 1;
  initialized = true;
}

abbrev peer : OrSet
peer = record {
  elements = ((1 ∷ []), (record { site_id = 4; counter = 1 }, tt) ∷ []) ∷ [];
  counters = (4, 1) ∷ [];
}

peer-IsCovered : IsCovered peer
unfolding has_tag counter_of tags_of lookup has key_eq compare_tag
peer-IsCovered e t h = ground arith

contains-add-remove_example :
    OrSet.contains (OrSet.add peer (2 ∷ []) 3) (1 ∷ [])
    ≡ key_eq {K = List ℕ} (2 ∷ []) (1 ∷ []) || OrSet.contains peer (1 ∷ [])
contains-add-remove_example = (contains-add-remove peer (2 ∷ []) (1 ∷ []) 3).0

contains-merge-remove_example :
    OrSet.contains (OrSet.merge (OrSet.remove peer (1 ∷ [])) peer) (1 ∷ [])
    ≡ OrSet.contains peer (1 ∷ [])
contains-merge-remove_example = contains-merge-remove peer peer (1 ∷ []) (tt, tt)

next_tag_fresh_example : has_tag peer (1 ∷ []) (OrSet.next_tag peer 4).1 ≡ false
next_tag_fresh_example =
    next_tag_fresh peer 4 (1 ∷ []) peer-IsCovered (unfold counter_of lookup key_eq in omega arith)

OrSet-IsCovered_example : IsCovered (OrSet.add peer (2 ∷ []) 4)
OrSet-IsCovered_example =
    (OrSet-IsCovered peer peer (2 ∷ []) 4 peer-IsCovered peer-IsCovered (tt, tt) (tt, tt)
      (unfold counter_of lookup key_eq in omega arith)).0
