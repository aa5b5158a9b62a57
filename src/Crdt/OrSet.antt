-- ===== src/Crdt/OrSet.antt =====
-- The observed-remove set: native/sync/include/crdt/or_set.h. Elements are byte strings; a
-- flat_set of tags is a sorted map into the unit type.
pub mod Tags
pub mod Laws
pub mod Freshness
use tightrope.Prelude.{
  ℕ, ◌+◌, ◌%◌, Bool, true, false, if◌then◌else◌, ltb, List, [], ◌∷◌, Option, none, some,
}
use tightrope.Prelude.Maps.{lookup, insert, erase, nat_ordered, bytes_ordered}
use Tags.{OrSetTag, TagSet, tag_ordered, insert_all}

pub record OrSet : Type 0 where
  pub elements : List (List ℕ × TagSet)
  pub counters : List (ℕ × ℕ)

abbrev pub empty : OrSet
empty = record { elements = []; counters = [] }

abbrev pub u64_mod : ℕ
u64_mod = 18446744073709551616

abbrev pub or_zero : Option ℕ → ℕ
or_zero none = 0
or_zero (some c) = c

abbrev pub or_empty : Option TagSet → TagSet
or_empty none = []
or_empty (some ts) = ts

unfoldable pub counter_of : OrSet → ℕ → ℕ
counter_of s site = or_zero (lookup site s.counters)

-- elements_[element], which reads an absent element as no tags.
unfoldable pub tags_of : OrSet → List ℕ → TagSet
tags_of s element = or_empty (lookup element s.elements)

unfoldable pub next_tag : OrSet → ℕ → OrSet × OrSetTag
unfolding counter_of
next_tag s site =
    let c = (counter_of s site + 1) % u64_mod in
    (record s { counters = insert site c s.counters }, record { site_id = site; counter = c })

unfoldable pub add_tag : OrSet → List ℕ → OrSetTag → OrSet
unfolding tags_of
add_tag s element tag = record s {
  elements = insert element (insert tag tt (tags_of s element)) s.elements;
}

unfoldable pub add : OrSet → List ℕ → ℕ → OrSet
unfolding next_tag add_tag
add s element site = let (s', tag) = next_tag s site in add_tag s' element tag

unfoldable pub set_counter : OrSet → ℕ → ℕ → OrSet
unfolding counter_of
set_counter s site c = record s {
  counters = insert site (if ltb (counter_of s site) c then c else counter_of s site) s.counters;
}

unfoldable pub remove : OrSet → List ℕ → OrSet
remove s element = record s { elements = erase element s.elements }

unfoldable pub merge_counters : OrSet → List (ℕ × ℕ) → OrSet
unfolding set_counter
merge_counters s [] = s
merge_counters s ((site, c) ∷ rest) = merge_counters (set_counter s site c) rest

unfoldable pub merge_element : OrSet → List ℕ → TagSet → OrSet
unfolding tags_of
merge_element s element tags = record s {
  elements = insert element (insert_all (tags_of s element) tags) s.elements;
}

unfoldable pub merge_elements : OrSet → List (List ℕ × TagSet) → OrSet
unfolding merge_element
merge_elements s [] = s
merge_elements s ((element, tags) ∷ rest) = merge_elements (merge_element s element tags) rest

unfoldable pub merge : OrSet → OrSet → OrSet
unfolding merge_counters merge_elements
merge s other = merge_elements (merge_counters s other.counters) other.elements

abbrev pub non_empty : TagSet → Bool
non_empty [] = false
non_empty (t ∷ ts) = true

unfoldable pub contains : OrSet → List ℕ → Bool
contains s element = elim (lookup element s.elements) [ none ↦ false | some ts ↦ non_empty ts ]

unfoldable pub values_of : List (List ℕ × TagSet) → List (List ℕ)
values_of [] = []
values_of ((element, ts) ∷ rest) = if non_empty ts then element ∷ values_of rest else values_of rest

unfoldable pub values : OrSet → List (List ℕ)
unfolding values_of
values s = values_of s.elements
