-- ===== src/Cid/Unused.antt =====
-- rqc_get_unused_cid hands out an id that is unused, when there is one.
use rquic.Base.{ℕ, zero, suc, ◌-◌, ◌^◌, ◌≡◌, ◌<◌, ◌≤◌, refl, ap, arith, true}
use rquic.Base.{List, [], ◌∷◌, none, some, get_elem?, set, length, ◌==◌}
use rquic.Base.{Bool-cases, Option-cases, ◌∙◌, ◌⊎◌, inl, inr, ==_self, ==_iff}
use rquic.Cid.{Cid, CidState, CidInner, CidSetInner, rank, cid_is_equal, same_bytes, find_cid}
use rquic.Cid.{CidState.unused, CidState.used, Status.ok, Status.econn_no_avail_cid, named_as}
use rquic.Cid.{switch_node, cid_switch_to_next_state, first_unused, get_unused_cid}
use rquic.Cid.{count_out}
use rquic.Base.Count.{bit, count, count-at, count-le}
use rquic.Cid.Inv.{IsValid, Agrees, is_in, count_in-frame, count_out-frame}
use rquic.Cid.Switch.{get_elem?-set}

pub same_bytes_self : (xs : List ℕ) → same_bytes xs xs ≡ true
unfolding same_bytes
same_bytes_self [] = refl
same_bytes_self (x ∷ xs) = rw (==_self x, same_bytes_self xs, same_bytes) refl

pub cid_is_equal_self : (c : Cid) → cid_is_equal c c ≡ true
unfolding cid_is_equal
cid_is_equal_self c = rw (==_self (length c.cid_buf), same_bytes_self c.cid_buf) refl

-- A node of the list is found by its bytes, if not an earlier one.
find_cid_there :
    (l : List CidInner) (i : ℕ) (node : CidInner)
    → get_elem? l i ≡ some node
    → (found : CidInner) × (find_cid node.cid l ≡ some found)
unfolding find_cid
find_cid_there [] i node h = absurd (cc h)
find_cid_there (x ∷ l) zero node h =
    let e : x ≡ node = cc h in rw e (node, rw (cid_is_equal_self node.cid, find_cid) refl)
find_cid_there (x ∷ l) (suc i) node h = elim (Bool-cases (cid_is_equal node.cid x.cid)) [
  | inl t ↦ (x, rw (t, find_cid) refl)
  | inr t ↦ let rest = find_cid_there l i node h in (rest.0, rw (t, find_cid) rest.1)
]

-- Where the scan from position `from` on stops.
first_unused-none :
    (from : ℕ) (l : List CidInner) → first_unused from l ≡ none → count (is_in unused) l ≡ 0
unfolding first_unused count is_in bit
first_unused-none from [] h = refl
first_unused-none from (x ∷ l) h = elim (Bool-cases (rank x.state == rank unused)) [
  | inl t ↦ absurd (cc (h, t))
  | inr t ↦ rw t (omega (arith, first_unused-none (suc from) l (cc (h, t))))
]

rank_zero : (state : CidState) → (rank state == 0) ≡ true → state ≡ unused
unfolding rank
rank_zero CidState.unused h = refl
rank_zero CidState.used h = absurd (cc h)
rank_zero CidState.retired h = absurd (cc h)
rank_zero CidState.removed h = absurd (cc h)

first_unused-some :
    (from : ℕ) (l : List CidInner) (k : ℕ) (node : CidInner)
    → first_unused from l ≡ some (k, node)
    → (from ≤ k) × (get_elem? l (k - from) ≡ some node) × (node.state ≡ unused)
unfolding first_unused rank
first_unused-some from [] k node h = absurd (cc h)
first_unused-some from (x ∷ l) k node h = elim (Bool-cases (rank x.state == 0)) [
  | inl t ↦
      let e : x ≡ node = cc (h, t) in
      let e' : from ≡ k = cc (h, t) in
      let at : k - from ≡ 0 = omega (arith, e') in
      (omega (arith, e'), rw at (ap some e), rw⁻¹ e (rank_zero x.state t))
  | inr t ↦
      let rest = first_unused-some (suc from) l k node (cc (h, t)) in
      let at : k - from ≡ suc (k - suc from) = omega (arith, rest.0) in
      (omega (arith, rest.0), rw at rest.1, rest.2)
]

switch_unused :
    (i : ℕ) (node : CidInner) (s : CidSetInner)
    → node.state ≡ unused
    → ((switch_node i node used s).0 ≡ ok)
      × ((switch_node i node used s).1.cid_list ≡ set s.cid_list i (record node { state = used }))
unfolding switch_node rank
switch_unused i node s e =
    let l : List CidInner = set s.cid_list i (record node { state = used }) in
    let out = (count_out-frame unused node.acked (record s { cid_list = l })).0 in
    let both = (count_in-frame used (count_out unused node.acked (record s { cid_list = l }))).0 in
    rw e (refl, both ∙ out)

is_one : (node : CidInner) → node.state ≡ unused → bit (is_in unused node) ≡ 1
unfolding bit is_in rank
is_one node e = rw (e, is_in) refl

-- The switch of an unused node of the list into use.
into_use :
    (s : CidSetInner) (i : ℕ) (node : CidInner)
    → get_elem? s.cid_list i ≡ some node
    → node.state ≡ unused
    → ((cid_switch_to_next_state i used s).0 ≡ ok)
      × ((left : CidInner) × (get_elem? (cid_switch_to_next_state i used s).1.cid_list i
            ≡ some left)
          × (left.state ≡ used)
          × (left.cid.cid_buf ≡ node.cid.cid_buf))
unfolding cid_switch_to_next_state named_as
into_use s i node h e =
    let found = find_cid_there s.cid_list i node h in
    let named : CidInner = record node { cid = named_as found.0 node.cid } in
    let moved : CidInner = record named { state = used } in
    let switched = switch_unused i named (record s { cid_list = set s.cid_list i named }) e in
    let at =
      get_elem?-set (set s.cid_list i named) i named moved
        (get_elem?-set s.cid_list i node named h) in
    rw (h, found.1, cid_switch_to_next_state)
      (switched.0, (moved, ap (λ (l : List CidInner). get_elem? l i) switched.1 ∙ at, refl, refl))

-- On a well-formed set of ids of less than 2 ^ 64 nodes: rqc_get_unused_cid finds nothing and
-- changes nothing exactly when no node is unused; otherwise it succeeds, hands out the id of an
-- unused node, and that node, with its bytes, is used from then on.
pub get_unused_cid_lem :
    (c : Cid) (s : CidSetInner)
    → IsValid s
    → length s.cid_list < 2 ^ 64
    → ((count (is_in unused) s.cid_list ≡ 0) × (get_unused_cid c s ≡ (econn_no_avail_cid, c, s)))
      ⊎ ((1 ≤ count (is_in unused) s.cid_list)
          × ((get_unused_cid c s).0 ≡ ok)
          × ((i : ℕ) × (node : CidInner) × (left : CidInner) × (get_elem? s.cid_list i ≡ some node)
              × (node.state ≡ unused)
              × ((get_unused_cid c s).1 ≡ node.cid)
              × (get_elem? (get_unused_cid c s).2.cid_list i ≡ some left)
              × (left.state ≡ used)
              × (left.cid.cid_buf ≡ node.cid.cid_buf)))
unfolding get_unused_cid IsValid Agrees
get_unused_cid_lem c s v h =
    let few : count (is_in unused) s.cid_list ≤ length s.cid_list =
      count-le (is_in unused) s.cid_list in
    elim (Bool-cases (s.unused_cnt == 0)) [
      | inl t ↦ inl (omega (arith, v, few, (==_iff s.unused_cnt 0).0 t), rw t refl)
      | inr t ↦ elim (Option-cases (first_unused 0 s.cid_list)) [
        | inl u ↦ inl (first_unused-none 0 s.cid_list u, rw (t, u, get_unused_cid) refl)
        | inr (found, u) ↦
            let p = first_unused-some 0 s.cid_list found.0 found.1 u in
            let here : found.0 - 0 ≡ found.0 = omega arith in
            let at : get_elem? s.cid_list found.0 ≡ some found.1 = rw⁻¹ here p.1 in
            let m = into_use s found.0 found.1 at p.2 in
            let one = is_one found.1 p.2 in
            inr (
              rw (t, u, get_unused_cid)
                (
                  omega (arith, one, count-at (is_in unused) s.cid_list found.0 found.1 at),
                  m.0,
                  (found.0, found.1, m.1.0, at, p.2, refl, m.1.1, m.1.2, m.1.3),
                ))
      ]
    ]
