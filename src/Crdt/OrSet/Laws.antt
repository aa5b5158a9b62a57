-- ===== src/Crdt/OrSet/Laws.antt =====
-- Membership under the operations of native/sync/include/crdt/or_set.h.
use tightrope.Prelude.{
  ℕ, ◌≡◌, refl, ◌∙◌, Bool, true, not, ◌&&◌, ◌||◌, if◌then◌else◌, List, [], ◌∷◌, arith,
}
use tightrope.Prelude.Maps.{
  lookup, insert, lookup-insert, lookup-erase, key_eq, key_eq-eq, key_eq_refl, bytes_ordered,
  nat_ordered,
}
use tightrope.Prelude.Maps.Sorted.{IsSorted, lookup-AllAfter}
use tightrope.Crdt.OrSet.{
  OrSet, tags_of, add, add_tag, next_tag, remove, merge, merge_elements, merge_element,
  merge_counters, set_counter, non_empty, contains, or_empty,
}
use tightrope.Crdt.OrSet.Tags.{OrSetTag, TagSet, insert_all, has, has-insert_all, tag_ordered}

-- The tag is recorded for the element.
unfoldable pub has_tag : OrSet → List ℕ → OrSetTag → Bool
has_tag s e t = has t (tags_of s e)

non_empty-insert : (t : OrSetTag) (ts : TagSet) → non_empty (insert t tt ts) ≡ true
unfolding insert
non_empty-insert t [] = refl
non_empty-insert t ((u, w) ∷ ts) = ground arith

non_empty-insert_all :
    (own tags : TagSet) → non_empty (insert_all own tags) ≡ non_empty own || non_empty tags
unfolding insert_all
non_empty-insert_all own [] = ground arith
non_empty-insert_all own ((t, w) ∷ tags) =
    ground (arith, non_empty-insert_all (insert t tt own) tags, non_empty-insert t own)

contains-tags_of : (s : OrSet) (e : List ℕ) → contains s e ≡ non_empty (tags_of s e)
unfolding contains tags_of
contains-tags_of s e = ground arith

elements-merge_counters :
    (s : OrSet) (cs : List (ℕ × ℕ)) → (merge_counters s cs).elements ≡ s.elements
unfolding merge_counters set_counter
elements-merge_counters s [] = refl
elements-merge_counters s ((site, c) ∷ cs) = elements-merge_counters (set_counter s site c) cs

tags_of-merge_element :
    (s : OrSet) (e f : List ℕ) (ts : TagSet)
    → tags_of (merge_element s f ts) e
      ≡ (if key_eq f e then insert_all (tags_of s e) ts else tags_of s e)
unfolding tags_of merge_element
tags_of-merge_element s e f ts = ground (
  arith,
  lookup-insert e f (insert_all (or_empty (lookup f s.elements)) ts) s.elements,
  key_eq-eq f e,
)

tags_of-merge_elements :
    (s : OrSet) (e : List ℕ) (es : List (List ℕ × TagSet))
    → IsSorted es
    → tags_of (merge_elements s es) e ≡ insert_all (tags_of s e) (or_empty (lookup e es))
unfolding merge_elements lookup insert_all
tags_of-merge_elements s e [] v = refl
tags_of-merge_elements s e ((f, ts) ∷ es) v = ground (
  arith,
  tags_of-merge_elements (merge_element s f ts) e es v.1,
  tags_of-merge_element s e f ts,
  key_eq-eq f e,
  lookup-AllAfter f es v.0,
)

tags_of-merge_counters :
    (s : OrSet) (cs : List (ℕ × ℕ)) (e : List ℕ) → tags_of (merge_counters s cs) e ≡ tags_of s e
unfolding tags_of
tags_of-merge_counters s cs e = rw (elements-merge_counters s cs)

pub tags_of-merge :
    (a b : OrSet) (e : List ℕ)
    → IsSorted b.elements
    → tags_of (merge a b) e ≡ insert_all (tags_of a e) (tags_of b e)
unfolding merge
tags_of-merge a b e v =
    tags_of-merge_elements (merge_counters a b.counters) e b.elements v
    ∙ rw (tags_of-merge_counters a b.counters e) (unfold tags_of in refl)

-- Merging with a set whose elements are sorted: the result has exactly the tags of either side and
-- contains exactly the elements of either side.
pub contains-merge :
    (a b : OrSet) (e : List ℕ) (t : OrSetTag)
    → IsSorted b.elements
    → (has_tag (merge a b) e t ≡ has_tag a e t || has_tag b e t)
      × (contains (merge a b) e ≡ contains a e || contains b e)
unfolding has_tag
contains-merge a b e t v = (
  rw (tags_of-merge a b e v) (has-insert_all t (tags_of a e) (tags_of b e)),
  rw
      (
        contains-tags_of (merge a b) e,
        contains-tags_of a e,
        contains-tags_of b e,
        tags_of-merge a b e v,
      )
      (non_empty-insert_all (tags_of a e) (tags_of b e)),
)

-- Adding makes an element a member, removing makes it none, and neither touches another element.
pub contains-add-remove :
    (s : OrSet) (e f : List ℕ) (site : ℕ)
    → (contains (add s e site) f ≡ key_eq e f || contains s f)
      × (contains (remove s e) f ≡ not (key_eq e f) && contains s f)
unfolding contains add remove next_tag add_tag
contains-add-remove s e f site = (
  ground (
    arith,
    lookup-insert f e (insert (next_tag s site).1 tt (tags_of s e)) s.elements,
    non_empty-insert (next_tag s site).1 (tags_of s e),
  ),
  ground (arith, lookup-erase f e s.elements),
)

-- After an element is removed, a merge with any set whose elements are sorted contains it exactly
-- when that set does: a removal does not survive a merge.
pub contains-merge-remove :
    (a b : OrSet) (e : List ℕ)
    → IsSorted b.elements
    → contains (merge (remove a e) b) e ≡ contains b e
contains-merge-remove a b e v = ground (
  arith,
  (contains-merge (remove a e) b e (record { site_id = 0; counter = 0 }) v).1,
  (contains-add-remove a e e 0).1,
  key_eq_refl e,
)
