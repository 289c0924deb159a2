-- ===== src/Cid/Switch.antt =====
-- The operations that move a node to another state, or acknowledge it, keep a set well-formed.
use rquic.Base.{ℕ, zero, suc, ◌+◌, ◌-◌, ◌%◌, ◌^◌, ◌≡◌, ◌≤◌, ◌<◌, refl, ap, arith, Bool, false}
use rquic.Base.{List, [], ◌∷◌, some, get_elem?, set, All, ◌∙◌}
use rquic.Base.{ltb, ◌==◌, Bool-cases, Option-cases, ◌≢◌, inl, inr, ==→ne, ltb→le}
use rquic.Cid.{Cid, CidState, CidInner, CidSetInner, rank, count_in, count_out}
use rquic.Cid.{cid_is_equal, find_cid}
use rquic.Cid.{CidState.unused, CidState.used, CidState.retired, CidState.removed}
use rquic.Cid.{named_as, switch_node, cid_switch_to_next_state, first_unused, get_unused_cid}
use rquic.Cid.{ack_nodes, on_cid_acked, incr_word}
use rquic.Base.Count.{bit, count, count-set, count-at}
use rquic.Cid.Inv.{
  IsValid, Agrees, Keeps, Keeps-refl, OnPath, is_in, is_acked_unused, count_in-Agrees,
  count_out-Agrees, count_in-frame, count_out-frame,
}
use rquic.Cid.Ops.{Keeps-of}

-- A node that is found is on the path.
find_cid-OnPath :
    (c : Cid) (path_id : ℕ) (l : List CidInner) (found : CidInner)
    → All (OnPath path_id) l
    → find_cid c l ≡ some found
    → OnPath path_id found
unfolding find_cid
find_cid-OnPath c path_id [] found a h = absurd (cc h)
find_cid-OnPath c path_id (x ∷ l) found a h = elim (Bool-cases (cid_is_equal c x.cid)) [
  | inl t ↦ let e : x ≡ found = cc (h, t) in rw⁻¹ e a.0
  | inr t ↦ find_cid-OnPath c path_id l found a.1 (cc (h, t))
]

named-OnPath :
    (s : CidSetInner) (node found : CidInner)
    → IsValid s
    → find_cid node.cid s.cid_list ≡ some found
    → OnPath s.path_id (record node { cid = named_as found node.cid })
unfolding OnPath named_as IsValid
named-OnPath s node found v u = find_cid-OnPath node.cid s.path_id s.cid_list found v.1 u

pub All-set :
    {A : Type 0} (P : A → Type 0) (l : List A) (i : ℕ) (x : A) → All P l → P x → All P (set l i x)
All-set P [] i x a h = tt
All-set P (y ∷ l) zero x a h = (h, a.1)
All-set P (y ∷ l) (suc i) x a h = (a.0, All-set P l i x a.1 h)

pub get_elem?-set :
    {A : Type 0} (l : List A) (i : ℕ) (x y : A)
    → get_elem? l i ≡ some x
    → get_elem? (set l i y) i ≡ some y
get_elem?-set [] i x y h = absurd (cc h)
get_elem?-set (z ∷ l) zero x y h = refl
get_elem?-set (z ∷ l) (suc i) x y h = get_elem?-set l i x y h

-- A node is replaced by one that passes the same tests.
replaced :
    (s : CidSetInner) (i : ℕ) (node other : CidInner)
    → IsValid s
    → get_elem? s.cid_list i ≡ some node
    → other.state ≡ node.state
    → other.acked ≡ node.acked
    → OnPath s.path_id other
    → IsValid (record s { cid_list = set s.cid_list i other })
unfolding IsValid Agrees is_in is_acked_unused
replaced s i node other v h e e' o = (
  omega (
    arith,
    v.0,
    same (is_in unused) (rw e refl),
    same (is_in used) (rw e refl),
    same (is_in retired) (rw e refl),
    same is_acked_unused (rw (e, e') refl),
  ),
  All-set (OnPath s.path_id) s.cid_list i other v.1 o,
)
  where
    same :
        (p : CidInner → Bool)
        → p other ≡ p node
        → count p (set s.cid_list i other) ≡ count p s.cid_list
    same p q = omega (arith, count-set p s.cid_list i node other h, ap bit q)

-- A node in a later state is not unused.
later :
    (state : CidState) (node : CidInner)
    → node.state ≡ state
    → 1 ≤ rank state
    → is_acked_unused node ≡ false
unfolding is_acked_unused rank
later unused node e h = absurd (omega arith)
later used node e h = ground (arith, e)
later retired node e h = ground (arith, e)
later removed node e h = ground (arith, e)

-- The node at `i` comes out of its state and into a later one.
switched :
    (s : CidSetInner) (i : ℕ) (node : CidInner) (next_state : CidState)
    → IsValid s
    → get_elem? s.cid_list i ≡ some node
    → rank node.state ≤ rank next_state
    → rank node.state ≢ rank next_state
    → OnPath s.path_id node
    → Keeps s (
        count_in next_state (
          count_out node.state node.acked
            (record s { cid_list = set s.cid_list i (record node { state = next_state }) })))
unfolding IsValid Agrees OnPath
switched s i node next_state v h le ne o =
    let moved : CidInner = record node { state = next_state } in
    let l : List CidInner = set s.cid_list i moved in
    let left : CidSetInner = count_out node.state node.acked (record s { cid_list = l }) in
    let frame = count_in-frame next_state left in
    let frame' = count_out-frame node.state node.acked (record s { cid_list = l }) in
    let between = λ (p : CidInner → Bool). count p s.cid_list - bit (p node) in
    let moves = λ (p : CidInner → Bool). count-set p s.cid_list i node moved h in
    Keeps-of s (count_in next_state left) l
      (count_in-Agrees next_state left moved between (λ p. count p l)
        (count_out-Agrees node.state node.acked (record s { cid_list = l }) node
          (λ p. count p s.cid_list) between v.0 refl refl
          (λ p. omega (arith, count-at p s.cid_list i node h)))
        refl (later next_state moved refl (omega arith))
        (λ p. omega (arith, moves p, count-at p s.cid_list i node h)))
      (frame.0 ∙ frame'.0) (frame.1 ∙ frame'.1) (frame.2 ∙ frame'.2)
      (All-set (OnPath s.path_id) s.cid_list i moved v.1 o)

switch_node-Keeps :
    (i : ℕ) (node : CidInner) (next_state : CidState) (s : CidSetInner)
    → IsValid s
    → get_elem? s.cid_list i ≡ some node
    → OnPath s.path_id node
    → Keeps s (switch_node i node next_state s).1
unfolding switch_node
switch_node-Keeps i node next_state s v h o =
    elim (Bool-cases (rank node.state == rank next_state)) [
      | inl t ↦ rw t (Keeps-refl s v)
      | inr t ↦ elim (Bool-cases (ltb (rank next_state) (rank node.state))) [
        | inl u ↦ rw (t, u) (Keeps-refl s v)
        | inr u ↦ rw (t, u) (switched s i node next_state v h (ltb→le _ _ u) (==→ne _ _ t) o)
      ]
    ]

pub cid_switch_to_next_state-Keeps :
    (i : ℕ) (next_state : CidState) (s : CidSetInner)
    → IsValid s
    → Keeps s (cid_switch_to_next_state i next_state s).1
unfolding cid_switch_to_next_state IsValid Keeps
cid_switch_to_next_state-Keeps i next_state s v = elim (Option-cases (get_elem? s.cid_list i)) [
  | inl t ↦ rw (t, cid_switch_to_next_state) (Keeps-refl s v)
  | inr (node, t) ↦ elim (Option-cases (find_cid node.cid s.cid_list)) [
    | inl u ↦ rw (t, u, cid_switch_to_next_state) (Keeps-refl s v)
    | inr (found, u) ↦ rw (t, u, cid_switch_to_next_state) (looked_up node found t u)
  ]
]
  where
    looked_up :
        (node found : CidInner)
        → get_elem? s.cid_list i ≡ some node
        → find_cid node.cid s.cid_list ≡ some found
        → Keeps s
            (switch_node i
              (record node { cid = named_as found node.cid })
              next_state
              (record s {
                cid_list = set s.cid_list i (record node { cid = named_as found node.cid });
              })).1
    looked_up node found t u =
        let named : CidInner = record node { cid = named_as found node.cid } in
        let o : OnPath s.path_id named = named-OnPath s node found v u in
        switch_node-Keeps i named next_state _ (replaced s i node named v t refl refl o)
          (get_elem?-set s.cid_list i node named t) o

-- rqc_get_unused_cid keeps the set well-formed.
pub get_unused_cid-Keeps : (c : Cid) (s : CidSetInner) → IsValid s → Keeps s (get_unused_cid c s).2
unfolding get_unused_cid
get_unused_cid-Keeps c s v = elim (Bool-cases (s.unused_cnt == 0)) [
  | inl t ↦ rw t (Keeps-refl s v)
  | inr t ↦ elim (Option-cases (first_unused 0 s.cid_list)) [
    | inl u ↦ rw (t, u) (Keeps-refl s v)
    | inr (found, u) ↦ rw (t, u) (cid_switch_to_next_state-Keeps found.0 used s v)
  ]
]

-- The loop of rqc_cid_set_on_cid_acked counts what it marks.
ack_nodes-count :
    (cid_seq path_id : ℕ) (l : List CidInner) (acked_unused : ℕ)
    → All (OnPath path_id) l
    → acked_unused < 2 ^ 32
    → (count (is_in unused) (ack_nodes cid_seq l acked_unused).0 ≡ count (is_in unused) l)
      × (count (is_in used) (ack_nodes cid_seq l acked_unused).0 ≡ count (is_in used) l)
      × (count (is_in retired) (ack_nodes cid_seq l acked_unused).0 ≡ count (is_in retired) l)
      × (((ack_nodes cid_seq l acked_unused).1 + count is_acked_unused l) % 2 ^ 32
          ≡ (acked_unused + count is_acked_unused (ack_nodes cid_seq l acked_unused).0) % 2 ^ 32)
      × ((ack_nodes cid_seq l acked_unused).1 < 2 ^ 32)
      × All (OnPath path_id) (ack_nodes cid_seq l acked_unused).0
unfolding ack_nodes count is_in is_acked_unused bit OnPath
ack_nodes-count cid_seq path_id [] acked_unused a w = ground arith
ack_nodes-count cid_seq path_id (x ∷ l) acked_unused a w =
    let rest = λ (n : ℕ) (b : n < 2 ^ 32). ack_nodes-count cid_seq path_id l n a.1 b in
    elim (Bool-cases (x.cid.cid_seq_num == cid_seq)) [
      | inr t ↦ rw t (ground (arith, rest acked_unused w, a))
      | inl t ↦ elim (Bool-cases x.acked) [
        | inl e ↦ rw (t, e) (ground (arith, rest acked_unused w, a))
        | inr e ↦ elim (Bool-cases (rank x.state == rank unused)) [
          | inl u ↦ rw (t, e, u) (ground (arith, rest (incr_word acked_unused) (omega arith), a))
          | inr u ↦ rw (t, e, u) (ground (arith, rest acked_unused w, a))
        ]
      ]
    ]

-- rqc_cid_set_on_cid_acked keeps the set well-formed.
pub on_cid_acked-Keeps :
    (cid_seq : ℕ) (s : CidSetInner) → IsValid s → Keeps s (on_cid_acked cid_seq s)
unfolding on_cid_acked IsValid Agrees Keeps
on_cid_acked-Keeps cid_seq s v =
    let c = ack_nodes-count cid_seq s.path_id s.cid_list s.acked_unused v.1 (omega (arith, v)) in
    (
      ((omega (arith, v, c), omega (arith, v, c), omega (arith, v, c), omega (arith, v, c)), c.5),
      refl,
      refl,
    )
