-- ===== src/PriorityQ.antt =====
-- src/common/rqc_priority_q.h: the priority queue, a binary heap in an array. The array is a function
-- of the index; what lies behind `count` is not read. The order `cmp` is a parameter, as in the code:
-- an element is swapped with its parent when `cmp` of the parent's key and its own is true. Indices
-- in the loops are those of uint32_t, sizes those of size_t; the callback `eop` is NULL.
pub mod Order
pub mod Up
pub mod Down
pub mod Tally
pub mod Queue
pub mod Remove
pub mod Removal
mod Tests
use rquic.Base.{ℕ, zero, suc, ◌+◌, ◌-◌, ◌*◌, ◌/◌, ◌%◌, ◌^◌, Bool, true, false, not, ◌&&◌, ◌||◌}
use rquic.Base.{Option, none, some, List, ltb, leb, ◌==◌, if◌then◌else◌}

-- rqc_pq_element_t; `value` is its field data.
pub record Element : Type 0 where
  pub key : ℕ
  pub value : List ℕ

-- Of rqc_pq_t. `allocated` is the size that `elements` was allocated with: what stands at an index
-- that does not fit into it is foreign memory.
pub record Pq : Type 0 where
  pub elements : ℕ → Element
  pub element_size : ℕ
  pub allocated : ℕ
  pub count : ℕ
  pub capacity : ℕ

-- rqc_pq_default_cmp and rqc_pq_revert_cmp
unfoldable pub default_cmp : ℕ → ℕ → Bool
default_cmp a b = ltb a b

unfoldable pub revert_cmp : ℕ → ℕ → Bool
revert_cmp a b = ltb b a

-- rqc_pq_init on memory that holds anything; `none` is -1. An rqc_pq_element_t takes 8 bytes.
pub pq_init : (ℕ → Element) → ℕ → ℕ → Option Pq
pq_init memory element_size capacity =
    if ltb element_size 8 || capacity == 0
    then none
    else some (record {
      elements = memory;
      element_size = element_size;
      allocated = element_size * capacity % 2 ^ 64;
      count = 0;
      capacity = capacity;
    })

-- `memcpy(rqc_pq_element(pq, i), ...)`
pub put : (ℕ → Element) → ℕ → Element → ℕ → Element
put e i x n = if n == i then x else e n

-- rqc_pq_element_swap
pub swap : (ℕ → Element) → ℕ → ℕ → ℕ → Element
swap e i j = put (put e j (e i)) i (e j)

abbrev pub parent : ℕ → ℕ
parent i = (i - 1) / 2

-- Whether the loop ends at `i`: at the top, or not above its parent.
pub at_rest : (ℕ → ℕ → Bool) → (ℕ → Element) → ℕ → Bool
at_rest cmp e i = (i == 0) || not (cmp (e (parent i)).key (e i).key)

-- The child that the element at `i` is compared with: `if (j < count - 1 && cmp(j, j + 1)) ++j;`
pub child : (ℕ → ℕ → Bool) → ℕ → (ℕ → Element) → ℕ → ℕ
child cmp count e i =
    let j = (2 * i + 1) % 2 ^ 32 in
    let next = (j + 1) % 2 ^ 32 in
    if ltb j (count - 1) && cmp (e j).key (e next).key then next else j

-- rqc_pq_move_towards_top: the elements, and where the element at `i` has come to. A round at
-- least halves the index, so that `i` rounds are enough.
pub top_loop : (ℕ → ℕ → Bool) → ℕ → (ℕ → Element) → ℕ → (ℕ → Element) × ℕ
top_loop cmp zero e i = (e, i)
top_loop cmp (suc k) e i =
    let rise = top_loop cmp k (swap e i (parent i)) (parent i) in
    if at_rest cmp e i then (e, i) else rise

-- The index is cut to a uint32_t.
pub move_towards_top : (ℕ → ℕ → Bool) → (ℕ → Element) → ℕ → (ℕ → Element) × ℕ
move_towards_top cmp e i = top_loop cmp (i % 2 ^ 32) e (i % 2 ^ 32)

-- rqc_pq_move_towards_bottom of a queue that is not empty. With at most 2 ^ 31 elements the index
-- grows in each round, so that `count` rounds are enough.
pub bottom_loop : (ℕ → ℕ → Bool) → ℕ → ℕ → (ℕ → Element) → ℕ → ℕ → Element
bottom_loop cmp zero count e i = e
bottom_loop cmp (suc k) count e i =
    let j = child cmp count e i in
    let sink = bottom_loop cmp k count (swap e i j) j in
    if leb ((2 * i + 1) % 2 ^ 32) (count - 1) && cmp (e i).key (e j).key then sink else e

pub move_towards_bottom : (ℕ → ℕ → Bool) → ℕ → (ℕ → Element) → ℕ → ℕ → Element
move_towards_bottom cmp count e i = bottom_loop cmp count count e (i % 2 ^ 32)

-- The new array of rqc_pq_push: twice the capacity, with the old elements in front.
pub grow : Pq → Pq
grow pq =
    let capacity = pq.capacity * 2 % 2 ^ 64 in
    record pq { capacity = capacity; allocated = capacity * pq.element_size % 2 ^ 64 }

-- rqc_pq_push: the index of the element that is returned, and the queue.
pub pq_push : (ℕ → ℕ → Bool) → Pq → Element → ℕ × Pq
pq_push cmp pq x =
    let moved = move_towards_top cmp (put pq.elements pq.count x) pq.count in
    let roomy = if pq.count == pq.capacity then grow pq else pq in
    (moved.1, record roomy { elements = moved.0; count = pq.count + 1 })

pub pq_top : Pq → Option Element
pq_top pq = if pq.count == 0 then none else some (pq.elements 0)

pub pq_empty : Pq → Bool
pq_empty pq = pq.count == 0

-- rqc_pq_pop
pub pq_pop : (ℕ → ℕ → Bool) → Pq → Pq
pq_pop cmp pq =
    let count = pq.count - 1 in
    let e = put pq.elements 0 (pq.elements count) in
    if pq.count == 0
    then pq
    else if count == 0
    then record pq { count = count }
    else record pq { elements = move_towards_bottom cmp count e 0; count = count }

-- rqc_pq_remove
pub pq_remove : (ℕ → ℕ → Bool) → Pq → ℕ → Pq
pq_remove cmp pq index =
    let count = pq.count - 1 in
    let e = put pq.elements index (pq.elements count) in
    let lowered = move_towards_bottom cmp count e index in
    if leb pq.count index || (pq.count == 0)
    then pq
    else if count == 0
    then record pq { count = count }
    else record pq { elements = (move_towards_top cmp lowered index).0; count = count }
