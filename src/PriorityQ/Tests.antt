-- ===== src/PriorityQ/Tests.antt =====
-- A concrete priority queue.
use rquic.Base.{ℕ, zero, suc, ◌+◌, ◌≤◌, ◌<◌, ◌≡◌, refl, arith, Bool, false, [], some}
use rquic.Base.Count.{bit}
use rquic.PriorityQ.{Element, Pq, revert_cmp, pq_push, pq_pop, pq_remove, pq_top, put, swap}
use rquic.PriorityQ.{child, bottom_loop, move_towards_bottom}
use rquic.PriorityQ.Order.{IsHeap, revert_cmp-Strict}
use rquic.PriorityQ.Queue.{IsValid, HasRoom, held, pq_push_lem, pq_pop_lem}
use rquic.PriorityQ.Removal.{pq_remove_lem}

abbrev element : ℕ → Element
element k = record { key = k; value = [] }

-- The smallest key stands first.
abbrev keys : ℕ → Element
keys zero = element 2
keys (suc zero) = element 5
keys (suc (suc n)) = element (n + 3)

abbrev three_keys : Pq
three_keys = record { elements = keys; element_size = 16; allocated = 48; count = 3; capacity = 3 }

three_keys-IsValid : IsValid revert_cmp three_keys
unfolding IsValid IsHeap revert_cmp
three_keys-IsValid = (omega arith, omega arith, heap)
  where
    heap : IsHeap revert_cmp 3 keys
    heap zero one l = absurd (omega (arith, one))
    heap (suc zero) one l = refl
    heap (suc (suc zero)) one l = refl
    heap (suc (suc (suc i))) one l = absurd (omega (arith, l))

three_keys-HasRoom : HasRoom three_keys
unfolding HasRoom
three_keys-HasRoom = omega arith

pq_push_lem_example :
    IsValid revert_cmp (pq_push revert_cmp three_keys (element 1)).1
    × HasRoom (pq_push revert_cmp three_keys (element 1)).1
    × ((p : Element → Bool)
        → held p (pq_push revert_cmp three_keys (element 1)).1
          ≡ held p three_keys + bit (p (element 1)))
    × ((pq_push revert_cmp three_keys (element 1)).1.elements
          (pq_push revert_cmp three_keys (element 1)).0
        ≡ element 1)
    × ((pq_push revert_cmp three_keys (element 1)).0
        < (pq_push revert_cmp three_keys (element 1)).1.count)
pq_push_lem_example =
    pq_push_lem revert_cmp three_keys (element 1) revert_cmp-Strict three_keys-IsValid
      three_keys-HasRoom (omega arith) (omega arith) (omega arith)

pq_pop_lem_example :
    (x : Element) × (pq_top three_keys ≡ some x)
    × ((i : ℕ)
        → i < three_keys.count
        → 1 ≤ i
        → revert_cmp x.key (three_keys.elements i).key ≡ false)
    × IsValid revert_cmp (pq_pop revert_cmp three_keys)
    × ((pq_pop revert_cmp three_keys).count + 1 ≡ three_keys.count)
    × ((p : Element → Bool) → held p (pq_pop revert_cmp three_keys) + bit (p x) ≡ held p three_keys)
pq_pop_lem_example =
    pq_pop_lem revert_cmp three_keys revert_cmp-Strict three_keys-IsValid (omega arith)
      (omega arith)

pq_remove_lem_example :
    IsValid revert_cmp (pq_remove revert_cmp three_keys 1)
    × ((pq_remove revert_cmp three_keys 1).count + 1 ≡ three_keys.count)
    × ((p : Element → Bool)
        → held p (pq_remove revert_cmp three_keys 1) + bit (p (three_keys.elements 1))
          ≡ held p three_keys)
pq_remove_lem_example =
    pq_remove_lem revert_cmp three_keys 1 revert_cmp-Strict three_keys-IsValid (omega arith)
      (omega arith)

-- After the smallest key the next one comes first.
next_key : (pq_pop revert_cmp three_keys).elements 0 ≡ element 3
unfolding pq_pop move_towards_bottom bottom_loop child swap put revert_cmp
next_key = refl
