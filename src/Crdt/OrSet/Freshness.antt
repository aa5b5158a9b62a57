-- ===== src/Crdt/OrSet/Freshness.antt =====
-- Tags that a set hands out (native/sync/include/crdt/or_set.h) are new: the per-site counters
-- stay above every tag in use.
use tightrope.Prelude.{
  ℕ, ◌+◌, ◌%◌, ◌≤◌, ◌<◌, max, ◌≡◌, refl, ap, ◌∙◌, ◌&&◌, true, false, ◌||◌, if◌then◌else◌, List, [],
  ◌∷◌, arith, ltb,
}
use tightrope.Prelude.Maps.{
  lookup, insert, lookup-insert, lookup-erase, key_eq, key_eq-eq, key_eq_refl, bytes_ordered,
  nat_ordered,
}
use tightrope.Prelude.Maps.Sorted.{IsSorted, lookup-AllAfter}
use tightrope.Crdt.OrSet.{
  OrSet, counter_of, tags_of, add, add_tag, next_tag, remove, merge, merge_elements, merge_element,
  merge_counters, set_counter, or_zero, u64_mod,
}
use tightrope.Crdt.OrSet.Tags.{OrSetTag, TagSet, has, has-insert, tag_ordered}
use tightrope.Crdt.OrSet.Laws.{has_tag, contains-merge}

-- No tag in use is beyond the counter of its site.
abbrev pub IsCovered : OrSet → Type 0
IsCovered s =
    (e : List ℕ) (t : OrSetTag) → has_tag s e t ≡ true → t.counter ≤ counter_of s t.site_id

counter_of-set_counter :
    (s : OrSet) (site c i : ℕ)
    → counter_of (set_counter s site c) i
      ≡ (if key_eq site i then max (counter_of s i) c else counter_of s i)
unfolding counter_of set_counter
counter_of-set_counter s site c i = ground (
  arith,
  lookup-insert i site
      (if ltb (or_zero (lookup site s.counters)) c then c else or_zero (lookup site s.counters))
      s.counters,
  key_eq-eq site i,
)

counter_of-merge_counters :
    (s : OrSet) (cs : List (ℕ × ℕ)) (i : ℕ)
    → IsSorted cs
    → counter_of (merge_counters s cs) i ≡ max (counter_of s i) (or_zero (lookup i cs))
unfolding merge_counters lookup
counter_of-merge_counters s [] i v = omega arith
counter_of-merge_counters s ((site, c) ∷ cs) i v = ground (
  arith,
  counter_of-merge_counters (set_counter s site c) cs i v.1,
  counter_of-set_counter s site c i,
  key_eq-eq site i,
  lookup-AllAfter site cs v.0,
)

counter_of-merge_elements :
    (s : OrSet) (es : List (List ℕ × TagSet)) (i : ℕ)
    → counter_of (merge_elements s es) i ≡ counter_of s i
unfolding merge_elements merge_element
counter_of-merge_elements s [] i = refl
counter_of-merge_elements s ((e, ts) ∷ es) i =
    counter_of-merge_elements (merge_element s e ts) es i ∙ unfold counter_of in refl

-- After a merge each site's counter is the larger of the two.
counter_of-merge :
    (a b : OrSet) (i : ℕ)
    → IsSorted b.counters
    → counter_of (merge a b) i ≡ max (counter_of a i) (counter_of b i)
unfolding merge
counter_of-merge a b i v =
    counter_of-merge_elements (merge_counters a b.counters) b.elements i
    ∙ rw (counter_of-merge_counters a b.counters i v) (unfold counter_of in refl)

has_tag-add :
    (s : OrSet) (e f : List ℕ) (site : ℕ) (t : OrSetTag)
    → has_tag (add s e site) f t ≡ (key_eq e f && key_eq (next_tag s site).1 t) || has_tag s f t
unfolding has_tag add next_tag add_tag tags_of
has_tag-add s e f site t = ground (
  arith,
  lookup-insert f e (insert (next_tag s site).1 tt (tags_of s e)) s.elements,
  has-insert t (next_tag s site).1 (tags_of s e),
  key_eq-eq e f,
)

counter_of-add :
    (s : OrSet) (e : List ℕ) (site i : ℕ)
    → counter_of (add s e site) i
      ≡ (if key_eq site i then (counter_of s site + 1) % u64_mod else counter_of s i)
unfolding counter_of add next_tag add_tag
counter_of-add s e site i =
    ground (arith, lookup-insert i site ((counter_of s site + 1) % u64_mod) s.counters)

module _ (s : OrSet) (site : ℕ) where
  next_tag-site : (next_tag s site).1.site_id ≡ site
  unfolding next_tag
  next_tag-site = refl

  next_tag-counter : (next_tag s site).1.counter ≡ (counter_of s site + 1) % u64_mod
  unfolding next_tag
  next_tag-counter = refl

-- In a covered set whose counter has room, the next tag of a site is on no element.
pub next_tag_fresh :
    (s : OrSet) (site : ℕ) (e : List ℕ)
    → IsCovered s
    → counter_of s site + 1 < u64_mod
    → has_tag s e (next_tag s site).1 ≡ false
next_tag_fresh s site e c room = ground (
  arith,
  c e (next_tag s site).1,
  next_tag-site s site,
  next_tag-counter s site,
  ap (counter_of s) (next_tag-site s site),
)

has_tag-remove :
    (s : OrSet) (e f : List ℕ) (t : OrSetTag)
    → has_tag (remove s e) f t ≡ true
    → has_tag s f t ≡ true
unfolding has_tag remove tags_of
has_tag-remove s e f t h = ground (arith, lookup-erase f e s.elements, none_has t)
  where
    none_has : (u : OrSetTag) → has u [] ≡ false
    none_has u = unfold has lookup in refl

counter_of-remove : (s : OrSet) (e : List ℕ) (i : ℕ) → counter_of (remove s e) i ≡ counter_of s i
unfolding counter_of remove
counter_of-remove s e i = refl

add-IsCovered :
    (s : OrSet) (e : List ℕ) (site : ℕ)
    → IsCovered s
    → counter_of s site + 1 < u64_mod
    → IsCovered (add s e site)
add-IsCovered s e site c room f t h = ground (
  arith,
  has_tag-add s e f site t,
  counter_of-add s e site t.site_id,
  c f t,
  key_eq-eq (next_tag s site).1 t,
  next_tag-site s site,
  next_tag-counter s site,
  key_eq-eq site t.site_id,
  key_eq_refl site,
)

-- A covered set stays covered by adding while the site's counter has room, by removing, and by
-- merging with a covered set whose elements and counters are sorted.
pub OrSet-IsCovered :
    (s u : OrSet) (e : List ℕ) (site : ℕ)
    → IsCovered s
    → IsCovered u
    → IsSorted u.elements
    → IsSorted u.counters
    → counter_of s site + 1 < u64_mod
    → IsCovered (add s e site) × IsCovered (remove s e) × IsCovered (merge s u)
OrSet-IsCovered s u e site c d v w room = (add-IsCovered s e site c room, removed, merged)
  where
    removed : IsCovered (remove s e)
    removed f t h = omega (arith, c f t (has_tag-remove s e f t h), counter_of-remove s e t.site_id)

    merged : IsCovered (merge s u)
    merged f t h =
        ground (arith, (contains-merge s u f t v).0, c f t, d f t, counter_of-merge s u t.site_id w)
