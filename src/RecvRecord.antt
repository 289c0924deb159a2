-- ===== src/RecvRecord.antt =====
-- src/transport/rqc_recv_record.c and .h: the packet numbers received, as ranges from the largest to
-- the smallest. The doubly linked list is a list from its head; packet numbers are 64-bit words.
pub mod Inv
pub mod Add
pub mod Del
mod Tests
use rquic.Base.{ℕ, zero, suc, ◌+◌, ◌-◌, ◌%◌, ◌^◌, Bool, ◌&&◌, ◌||◌, false, List, [], ◌∷◌, ◌++◌}
use rquic.Base.{Option, none, some, ltb, leb, ◌==◌, if◌then◌else◌, length}

-- rqc_pktno_range_t
pub record Range : Type 0 where
  pub low : ℕ
  pub high : ℕ

-- rqc_recv_record_t
pub record RecvRecord : Type 0 where
  pub ranges : List Range
  pub rr_del_from : ℕ
  pub node_count : ℕ

-- rqc_pkt_range_status; RQC_PKTRANGE_ERR is a failed allocation, which the model does not have.
pub data Status : Type 0 where
  added_ok duplicate : Status

-- RQC_MAX_ACK_RANGE_CNT
abbrev pub max_ack_range_cnt : ℕ
max_ack_range_cnt = 64

-- `n - 1` and `n + 1` on a uint64_t
abbrev pub before : ℕ → ℕ
before n = (n + (2 ^ 64 - 1)) % 2 ^ 64

abbrev pub after : ℕ → ℕ
after n = (n + 1) % 2 ^ 64

-- `rqc_pktno_range_can_merge`: the node as it is left, or `none` for 0.
pub can_merge : Range → ℕ → Option Range
can_merge node packet_number =
    if before node.low == packet_number
    then some (record node { low = before node.low })
    else if after node.high == packet_number
    then some (record node { high = after node.high })
    else none

abbrev pub single : ℕ → Range
single packet_number = record { low = packet_number; high = packet_number }

-- What `rqc_recv_record_add` does to the nodes from `prev` on, once its loop has ended.
pub data Walk : Type 0 where
  -- RQC_PKTRANGE_DUP
  found : Walk
  -- A node was widened; `joined`: and its neighbour freed.
  merged joined : List Range → Walk
  -- A new node stands before `pos`.
  inserted : List Range → Walk
  -- There is no `pos`, and a new node is to go to the tail.
  at_tail : Walk

-- `prev_node->low - 1 == pnode->high`
pub join : Range → Range → List Range → Walk
join prev_node pnode rest =
    if before prev_node.low == pnode.high
    then joined (record prev_node { low = pnode.low } ∷ rest)
    else merged (prev_node ∷ pnode ∷ rest)

-- From the nodes `prev` and `pos`, the first of the list. Without `pos` the pointers `pnode` and
-- `prev_node` are the same last node, and the second attempt to merge repeats the first.
pub place : Option Range → List Range → ℕ → Walk
unfolding can_merge join
place none [] n = at_tail
place (some prev_node) [] n = elim (can_merge prev_node n) [
  | some node ↦ merged (node ∷ [])
  | none ↦ at_tail
]
place none (pnode ∷ rest) n = elim (can_merge pnode n) [
  | some node ↦ merged (node ∷ rest)
  | none ↦ inserted (single n ∷ pnode ∷ rest)
]
place (some prev_node) (pnode ∷ rest) n = elim (can_merge prev_node n) [
  | some node ↦ join node pnode rest
  | none ↦ elim (can_merge pnode n) [
    | some node ↦ join prev_node node rest
    | none ↦ inserted (prev_node ∷ single n ∷ pnode ∷ rest)
  ]
]

-- The nodes that the loop passed stay in front.
pub behind : Option Range → Walk → Walk
behind none w = w
behind (some r) found = found
behind (some r) (merged rs) = merged (r ∷ rs)
behind (some r) (joined rs) = joined (r ∷ rs)
behind (some r) (inserted rs) = inserted (r ∷ rs)
behind (some r) at_tail = at_tail

-- The loop of `rqc_recv_record_add`.
pub walk : Option Range → List Range → ℕ → Walk
unfolding place behind
walk prev [] n = place prev [] n
walk prev (pnode ∷ next) n =
    let further = behind prev (walk (some pnode) next n) in
    if leb n pnode.high
    then (if leb pnode.low n then found else further)
    else place prev (pnode ∷ next) n

pub delete_last : List Range → List Range
delete_last [] = []
delete_last (r ∷ []) = []
delete_last (r ∷ s ∷ rest) = r ∷ delete_last (s ∷ rest)

-- The loop that deletes from the tail, once round at least; a round per node is enough.
pub trim : ℕ → List Range → ℕ → List Range × ℕ
unfolding delete_last
trim zero ranges node_count = (ranges, node_count)
trim (suc rounds) ranges node_count =
    let further = trim rounds (delete_last ranges) (node_count - 1) in
    if leb (node_count - 1) max_ack_range_cnt then (delete_last ranges, node_count - 1) else further

-- What is done with the list after the walk.
pub settle : RecvRecord → ℕ → Walk → Status × RecvRecord
unfolding trim
settle rec n found = (duplicate, rec)
settle rec n (merged rs) = (added_ok, record rec { ranges = rs })
settle rec n (joined rs) = (added_ok, record rec { ranges = rs; node_count = rec.node_count - 1 })
settle rec n (inserted rs) =
    let trimmed = trim (length rs) rs (rec.node_count + 1) in
    if ltb max_ack_range_cnt (rec.node_count + 1)
    then (added_ok, record rec { ranges = trimmed.0; node_count = trimmed.1 })
    else (added_ok, record rec { ranges = rs; node_count = rec.node_count + 1 })
settle rec n at_tail =
    if ltb rec.node_count max_ack_range_cnt
    then (
      added_ok,
      record rec { ranges = rec.ranges ++ single n ∷ []; node_count = rec.node_count + 1 },
    )
    else (added_ok, rec)

pub recv_record_add : RecvRecord → ℕ → Status × RecvRecord
unfolding settle walk
recv_record_add rec packet_number = settle rec packet_number (walk none rec.ranges packet_number)

-- The loop of `rqc_recv_record_del`: the nodes left and `node_count`.
pub delete_below : ℕ → List Range → ℕ → List Range × ℕ
delete_below del_from [] node_count = ([], node_count)
delete_below del_from (r ∷ rest) node_count =
    let without = delete_below del_from rest (node_count - 1) in
    let kept = delete_below del_from rest node_count in
    if ltb r.low del_from
    then (if ltb r.high del_from then without else (record r { low = del_from } ∷ kept.0, kept.1))
    else (r ∷ kept.0, kept.1)

pub recv_record_del : RecvRecord → ℕ → RecvRecord
unfolding delete_below
recv_record_del rec del_from =
    if ltb del_from rec.rr_del_from
    then rec
    else (let left = delete_below del_from rec.ranges rec.node_count in
        record { ranges = left.0; rr_del_from = del_from; node_count = left.1 })

pub recv_record_destroy : RecvRecord → RecvRecord
recv_record_destroy rec = record { ranges = []; rr_del_from = 0; node_count = 0 }

unfoldable pub recv_record_largest : RecvRecord → ℕ
recv_record_largest rec = elim rec.ranges [ [] ↦ 0 | pnode ∷ _ ↦ pnode.high ]

-- The packet numbers that a list of ranges stands for.
pub contains : ℕ → List Range → Bool
contains n [] = false
contains n (r ∷ rest) = (leb r.low n && leb n r.high) || contains n rest
