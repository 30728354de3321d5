-- ===== src/Klib/List.antt =====
-- lib/list.h: nodes of a circular doubly linked list. A node is an address; the store holds the
-- `next` and the `prev` of every node. The statements of a function are run in order, and a
-- pointer that the code reads again after a write is read from the new store.
pub mod Chain
pub mod Insert
pub mod Delete
pub mod Traverse
mod Tests
use pepin_os.Base.{ℕ, zero, suc, Bool, Option, none, some, List, [], ◌∷◌, ◌==◌, update}
use mathlib.Core.Option

pub record Links : Type 0 where
  pub next : ℕ → ℕ
  pub prev : ℕ → ℕ

abbrev pub set_next : ℕ → ℕ → Links → Links
set_next p q s = record s { next = update s.next p q }

abbrev pub set_prev : ℕ → ℕ → Links → Links
set_prev p q s = record s { prev = update s.prev p q }

pub list_init : ℕ → Links → Links
list_init h s = set_prev h h (set_next h h s)

pub list_insert : (new prev next : ℕ) → Links → Links
list_insert new prev next s =
    set_next prev new (set_prev new prev (set_next new next (set_prev next new s)))

pub list_add : (head new : ℕ) → Links → Links
unfolding list_insert
list_add head new s = list_insert new head (s.next head) s

pub list_add_tail : (head new : ℕ) → Links → Links
unfolding list_insert
list_add_tail head new s = list_insert new (s.prev head) head s

pub list_del : ℕ → Links → Links
list_del node s =
    let t = set_next (s.prev node) (s.next node) s in set_prev (t.next node) (t.prev node) t

pub list_empty : ℕ → Links → Bool
list_empty head s = s.next head == head

-- The nodes that `list_for_each` visits from `pos` on; `none` when the fuel runs out first.
for_each_from : ℕ → (pos head : ℕ) → Links → Option (List ℕ)
for_each_from zero pos head s = none
for_each_from (suc n) pos head s = elim (pos == head) [
  | Bool.true ↦ some []
  | Bool.false ↦ Option.map (λ xs. pos ∷ xs) (for_each_from n (s.next pos) head s)
]

pub list_for_each : ℕ → ℕ → Links → Option (List ℕ)
unfolding for_each_from
list_for_each fuel head s = for_each_from fuel (s.next head) head s
