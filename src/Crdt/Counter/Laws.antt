-- ===== src/Crdt/Counter/Laws.antt =====
-- The counters of native/sync/include/crdt form a join semilattice whose operations only grow,
-- and an addition changes the value by what was added.
use tightrope.Prelude.{ℕ, ◌+◌, max, ◌≡◌, refl, List, [], ◌∷◌, arith}
use tightrope.Prelude.Int.{ℤ, pos, negsuc, pos_part, ◌+ℤ◌}
use tightrope.Prelude.Maps.{lookup, insert, nat_ordered, key_eq}
use tightrope.Prelude.Maps.Sorted.{IsSorted, insert-IsSorted, lookup-AllAfter, AllAfter-trans}
use tightrope.Prelude.Maps.Merge.{
  merge_with, merge_with_comm, merge_with_assoc, merge_with_idem, merge_with-IsSorted,
  lookup-merge_with,
}
use tightrope.Crdt.Counter.{
  GCounter, or_zero, count, increment, sum, value, merge_count, merge_counts, merge, PnCounter, add,
  pn_value, pn_merge, set_site_counts,
}

merge_counts-merge_with : (a b : List (ℕ × ℕ)) → merge_counts a b ≡ merge_with max a b
unfolding merge_counts merge_with
merge_counts-merge_with a [] = refl
merge_counts-merge_with a ((site, c) ∷ b) = merge_counts-merge_with (merge_count a site c) b

-- The sites of both halves rise strictly, as in a flat_map.
pub record IsValid (c : PnCounter) : Type 0 where
  pub positive : IsSorted c.positive.counts
  pub negative : IsSorted c.negative.counts

increment-IsSorted :
    (g : GCounter) (site : ℕ) (d : ℤ) → IsSorted g.counts → IsSorted (increment g site d).counts
unfolding increment
increment-IsSorted g site d s =
    ground (arith, insert-IsSorted site (count site g + pos_part d) g.counts s)

merge-IsSorted : (g h : GCounter) → IsSorted g.counts → IsSorted (merge g h).counts
unfolding merge
merge-IsSorted g h s =
    rw (merge_counts-merge_with g.counts h.counts) (merge_with-IsSorted max g.counts h.counts s)

-- Additions, assignments and merges keep the halves well formed.
pub PnCounter-IsValid :
    (c d : PnCounter) (site : ℕ) (delta p n : ℤ)
    → IsValid c
    → IsValid (add c site delta) × IsValid (set_site_counts c site p n) × IsValid (pn_merge c d)
unfolding add set_site_counts pn_merge
PnCounter-IsValid c d site delta p n v = (added delta, assigned, merged)
  where
    added : (e : ℤ) → IsValid (add c site e)
    added (pos e) = record {
      positive = increment-IsSorted c.positive site (pos e) v.positive;
      negative = v.negative;
    }
    added (negsuc e) = record {
      positive = v.positive;
      negative = increment-IsSorted c.negative site (pos (e + 1)) v.negative;
    }

    assigned : IsValid (set_site_counts c site p n)
    assigned = record {
      positive = insert-IsSorted site (pos_part p) c.positive.counts v.positive;
      negative = insert-IsSorted site (pos_part n) c.negative.counts v.negative;
    }

    merged : IsValid (pn_merge c d)
    merged = record {
      positive = merge-IsSorted c.positive d.positive v.positive;
      negative = merge-IsSorted c.negative d.negative v.negative;
    }

g_comm : (g h : GCounter) → IsSorted g.counts → IsSorted h.counts → merge g h ≡ merge h g
unfolding merge
g_comm g h s t = cc (
  merge_counts-merge_with g.counts h.counts,
  merge_counts-merge_with h.counts g.counts,
  merge_with_comm max (λ x y. omega arith) g.counts h.counts s t,
)

g_assoc :
    (g h k : GCounter)
    → IsSorted g.counts
    → IsSorted h.counts
    → IsSorted k.counts
    → merge (merge g h) k ≡ merge g (merge h k)
unfolding merge
g_assoc g h k s t u = cc (
  merge_counts-merge_with (merge_counts g.counts h.counts) k.counts,
  merge_counts-merge_with g.counts h.counts,
  merge_counts-merge_with g.counts (merge_counts h.counts k.counts),
  merge_counts-merge_with h.counts k.counts,
  merge_with_assoc max (λ x y z. omega arith) g.counts h.counts k.counts s t u,
)

g_idem : (g : GCounter) → IsSorted g.counts → merge g g ≡ g
unfolding merge
g_idem g s =
    cc
      (merge_counts-merge_with g.counts g.counts, merge_with_idem max (λ x. omega arith) g.counts s)

-- Merging well-formed counters is commutative, associative and idempotent, as equations of whole
-- states.
pub pn_merge-semilattice :
    (a b c : PnCounter)
    → IsValid a
    → IsValid b
    → IsValid c
    → (pn_merge a b ≡ pn_merge b a)
      × (pn_merge (pn_merge a b) c ≡ pn_merge a (pn_merge b c))
      × (pn_merge a a ≡ a)
unfolding pn_merge
pn_merge-semilattice a b c v w x = (
  cc (
    g_comm a.positive b.positive v.positive w.positive,
    g_comm a.negative b.negative v.negative w.negative,
  ),
  cc (
    g_assoc a.positive b.positive c.positive v.positive w.positive x.positive,
    g_assoc a.negative b.negative c.negative v.negative w.negative x.negative,
  ),
  cc (g_idem a.positive v.positive, g_idem a.negative v.negative),
)

-- After a merge each site's count is the larger of the two.
pub count-merge :
    (g h : GCounter) (site : ℕ)
    → IsSorted h.counts
    → count site (merge g h) ≡ max (count site g) (count site h)
unfolding count merge
count-merge g h site s =
    rw (merge_counts-merge_with g.counts h.counts)
      (rw (lookup-merge_with max site g.counts h.counts s) (ground arith))

-- Writing a count replaces the site's share of the sum.
sum-insert :
    (site v : ℕ) (m : List (ℕ × ℕ))
    → IsSorted m
    → sum (insert site v m) + or_zero (lookup site m) ≡ sum m + v
unfolding sum insert lookup key_eq
sum-insert site v [] s = omega arith
sum-insert site v ((j, w) ∷ m) s = ground (
  arith,
  sum-insert site v m s.1,
  lookup-AllAfter j m s.0,
  lookup-AllAfter site m,
  AllAfter-trans site j m,
)

value-increment :
    (g : GCounter) (site d : ℕ) → IsSorted g.counts → value (increment g site (pos d)) ≡ value g + d
unfolding value increment count
value-increment g site d s = ground (arith, sum-insert site (count site g + d) g.counts s)

-- An addition changes the value of a well-formed counter by its delta, whatever the sign.
pub pn_value-add :
    (c : PnCounter) (site : ℕ) (delta : ℤ)
    → IsValid c
    → pn_value (add c site delta) ≡ pn_value c +ℤ delta
unfolding pn_value add ◌+ℤ◌
pn_value-add c site (pos d) v = ground (arith, value-increment c.positive site d v.positive)
pn_value-add c site (negsuc d) v =
    ground (arith, value-increment c.negative site (d + 1) v.negative)
