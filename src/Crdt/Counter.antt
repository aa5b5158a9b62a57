-- ===== src/Crdt/Counter.antt =====
-- The grow-only and the positive-negative counter: native/sync/include/crdt/g_counter.h and
-- pn_counter.h. Every write keeps a count at 0 or more, so counts are natural numbers; a sum past
-- the 63 bits of the source is not modelled.
pub mod Laws
use tightrope.Prelude.{
  ℕ, ◌+◌, max, Bool, true, false, if◌then◌else◌, leb, List, [], ◌∷◌, Option, none, some, ltb,
}
use tightrope.Prelude.Int.{ℤ, pos, negsuc, sub_ℕ, pos_part, neg_part}
use tightrope.Prelude.Maps.{lookup, insert, nat_ordered}

pub record GCounter : Type 0 where
  pub counts : List (ℕ × ℕ)

abbrev pub or_zero : Option ℕ → ℕ
or_zero none = 0
or_zero (some c) = c

-- counts_[site], which reads an absent site as 0.
unfoldable pub count : ℕ → GCounter → ℕ
count site g = or_zero (lookup site g.counts)

unfoldable pub increment : GCounter → ℕ → ℤ → GCounter
increment g site delta =
    if leb (pos_part delta) 0
    then g
    else record { counts = insert site (count site g + pos_part delta) g.counts }

unfoldable pub set_count : GCounter → ℕ → ℤ → GCounter
set_count g site absolute_value = record { counts = insert site (pos_part absolute_value) g.counts }

unfoldable pub sum : List (ℕ × ℕ) → ℕ
sum [] = 0
sum ((site, c) ∷ rest) = c + sum rest

unfoldable pub value : GCounter → ℕ
unfolding sum
value g = sum g.counts

-- One round of the merge loop.
unfoldable pub merge_count : List (ℕ × ℕ) → ℕ → ℕ → List (ℕ × ℕ)
merge_count counts site c = elim (lookup site counts) [
  | none ↦ insert site c counts
  | some own ↦ insert site (max own c) counts
]

unfoldable pub merge_counts : List (ℕ × ℕ) → List (ℕ × ℕ) → List (ℕ × ℕ)
unfolding merge_count
merge_counts counts [] = counts
merge_counts counts ((site, c) ∷ other) = merge_counts (merge_count counts site c) other

unfoldable pub merge : GCounter → GCounter → GCounter
merge g other = record { counts = merge_counts g.counts other.counts }

pub record PnCounter : Type 0 where
  pub positive : GCounter
  pub negative : GCounter

abbrev pub empty : PnCounter
empty = record { positive = record { counts = [] }; negative = record { counts = [] } }

unfoldable pub add : PnCounter → ℕ → ℤ → PnCounter
unfolding increment count
add c site (pos d) = record c { positive = increment c.positive site (pos d) }
add c site (negsuc d) = record c { negative = increment c.negative site (pos (d + 1)) }

unfoldable pub set_site_counts : PnCounter → ℕ → ℤ → ℤ → PnCounter
unfolding set_count
set_site_counts c site p n = record {
  positive = set_count c.positive site p;
  negative = set_count c.negative site n;
}

unfoldable pub pn_value : PnCounter → ℤ
unfolding value
pn_value c = sub_ℕ (value c.positive) (value c.negative)

unfoldable pub pn_merge : PnCounter → PnCounter → PnCounter
unfolding merge
pn_merge c other = record {
  positive = merge c.positive other.positive;
  negative = merge c.negative other.negative;
}
